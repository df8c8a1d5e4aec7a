-- ===== src/Compiler/Emit.antt =====
-- src/compiler.c: what the handlers append to the cells and to the blob, as steps that stop at the
-- first failure, and the literals. `none` is what C leaves undefined, and `false` a failure that is
-- reported.
use march.Prelude.{
  ℕ, ◌+◌, ◌-◌, ◌^◌, Bool, true, false, Option, none, some, List, [], ◌∷◌, ◌++◌, ◌>>=◌, length,
  replicate,
}
use march.Types.{type_i64, type_str}
use march.Cells.{cell_buffer_append, encode_lit}
use march.Blob.{
  BlobBuffer, encode_cid_ref, encode_inline_literal, value_bytes, blob_data, blob_quotation,
}
use march.Database.{Storage, Database, db_store_literal, db_store_type_sig, db_store_blob}
use march.Dictionary.{DictEntry, dict_lookup}
use march.Compiler.{Compiler, push_type, emit_call}

abbrev pub Result : Type 0
Result = Option (Bool × Compiler)

infixl 5 ◌>>◌
abbrev pub ◌>>◌ : Result → (Compiler → Result) → Result
none >> next = none
some (false, comp) >> next = some (false, comp)
some (true, comp) >> next = next comp

abbrev pub done : Compiler → Result
done comp = some (true, comp)

abbrev pub fails : Compiler → Result
fails comp = some (false, comp)

abbrev pub with_blob : Compiler → BlobBuffer → Compiler
with_blob comp blob = record comp { blob = blob }

abbrev pub with_db : Compiler → Database → Compiler
with_db comp db = record comp { db = db }

unfoldable pub emit_cell : ℕ → Compiler → Compiler
emit_cell cell comp = record comp { cells = cell_buffer_append comp.cells cell }

-- A primitive that the code looks up by its name.
unfoldable pub with_prim : List ℕ → (DictEntry → Compiler → Result) → Compiler → Result
with_prim name next comp = elim (dict_lookup comp.dict name) [
  | none ↦ fails comp
  | some prim ↦ next prim comp
]

unfoldable pub call : DictEntry → Compiler → Result
call prim comp = done (emit_call comp prim)

unfoldable pub emit_ref : ℕ → List ℕ → Compiler → Result
emit_ref kind cid comp = encode_cid_ref comp.blob kind cid >>= λ blob. done (with_blob comp blob)

pub emit_inline : ℕ → Compiler → Result
emit_inline value comp =
    encode_inline_literal comp.blob value >>= λ blob. done (with_blob comp blob)

-- "i64" and "str".
abbrev pub text_i64 : List ℕ
text_i64 = 105 ∷ 54 ∷ 52 ∷ []

abbrev pub text_str : List ℕ
text_str = 115 ∷ 116 ∷ 114 ∷ []

-- A reference to what was stored, or a failure.
unfoldable pub emit_stored : ℕ → Option (List ℕ) × Database → Compiler → Result
unfolding emit_ref
emit_stored kind (none, db) comp = fails (with_db comp db)
emit_stored kind (some cid, db) comp = emit_ref kind cid (with_db comp db)

-- The same where the code does not test the CID: a null pointer is read.
unfoldable pub emit_untested : ℕ → Option (List ℕ) × Database → Compiler → Result
unfolding emit_ref
emit_untested kind (none, db) comp = none
emit_untested kind (some cid, db) comp = emit_ref kind cid (with_db comp db)

abbrev pub pushing : ℕ → Compiler → Result
pushing type comp = done (push_type comp type)

-- The header of a string's blob, and its bytes up to the NUL.
pub string_bytes : List ℕ → List ℕ
string_bytes str =
    value_bytes 8 (length str + 1)
    ++ 1 ∷ replicate 7 0
    ++ value_bytes 8 type_i64
    ++ replicate 8 0
    ++ str
    ++ 0 ∷ []

module _ (os : Storage) where
  -- A literal's cell, and the reference to its blob.
  unfoldable pub emit_literal : ℕ → Compiler → Result
  unfolding emit_stored emit_cell
  emit_literal value comp =
      emit_stored blob_data (db_store_literal os comp.db value text_i64)
        (emit_cell (encode_lit value) comp)

  unfoldable pub emit_literal_untested : ℕ → Compiler → Result
  unfolding emit_untested emit_cell
  emit_literal_untested value comp =
      emit_untested blob_data (db_store_literal os comp.db value text_i64)
        (emit_cell (encode_lit value) comp)

  unfoldable pub compile_number : ℕ → Compiler → Result
  unfolding emit_literal
  compile_number num comp = emit_literal num comp >> pushing type_i64

  unfoldable pub compile_true : Compiler → Result
  unfolding emit_literal
  compile_true comp = emit_literal (2 ^ 64 - 1) comp >> pushing type_i64

  unfoldable pub compile_false : Compiler → Result
  unfolding emit_literal
  compile_false comp = emit_literal 0 comp >> pushing type_i64

  -- `BLOB_STRING` is 2, which is `BLOB_QUOTATION`.
  unfoldable pub emit_string : List ℕ → Option (List ℕ) × Database → Compiler → Result
  unfolding emit_stored emit_cell string_bytes
  emit_string str (none, db) comp = fails (with_db comp db)
  emit_string str (some sig_cid, db) comp =
      let stored = db_store_blob os db blob_quotation (some sig_cid) (string_bytes str) in
      elim stored.0 [
        | none ↦ fails (with_db comp stored.1)
        | some cid ↦ emit_stored blob_data stored (emit_cell (encode_lit 0) comp)
      ]

  unfoldable pub compile_string : List ℕ → Compiler → Result
  unfolding emit_string
  compile_string str comp =
      emit_string str (db_store_type_sig os comp.db [] text_str) comp >> pushing type_str
