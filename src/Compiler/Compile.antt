-- ===== src/Compiler/Compile.antt =====
-- src/compiler.c: quotations that are compiled in a context or stored as values. A token is
-- compiled on fuel for the depth of the calls: a word whose definition is compiled, or a quotation,
-- compiles its tokens with one unit less, by `run`.
use march.Prelude.{
  ℕ, zero, suc, ◌-◌, Bool, true, false, ◌&&◌, Option, none, some, List, [], ◌∷◌, ◌++◌, ltb, leb,
  ◌==◌, if◌then◌else◌, ◌>>=◌, length, take,
}
use march.Types.{type_i64, type_u64, type_f64, type_ptr, type_bool, type_str, type_array}
use march.Cells.{cell_buffer_create, cell_buffer_append, encode_lit, encode_exit}
use march.Blob.{blob_buffer_create, blob_quotation}
use march.Tokens.{Token}
use march.Database.{Storage, Database, db_store_type_sig, db_store_blob}
use march.Compiler.{Compiler, Quotation}
use march.Compiler.Emit.{Result, ◌>>◌, done, fails, with_db, emit_cell, emit_ref, pushing}
use march.Compiler.Quotations as Quotations
use march.Compiler.Quotations.{
  entries_onto, compile_lparen, compile_rparen, compile_lbracket, pop_quotation,
}

abbrev pub max_quot_refs : ℕ
max_quot_refs = 64

abbrev pub Run : Type 0
Run = Token → Compiler → Result

-- Each token in turn, up to the first failure.
unfoldable pub run_tokens : Run → List Token → Compiler → Result
run_tokens run [] comp = done comp
run_tokens run (tok ∷ tokens) comp = run tok comp >> run_tokens run tokens

-- The quotation once it is compiled, with the compiler restored. The inner `none` is a failure.
abbrev pub Compiled : Type 0
Compiled = Option (Option Quotation × Compiler)

-- The buffers and the stack of types of `saved` are put back.
abbrev pub restore_quot : Compiler → Compiler → Compiler
restore_quot saved comp = record comp {
  cells = saved.cells;
  blob = saved.blob;
  type_stack = saved.type_stack;
}

unfoldable pub finish_quot : Quotation → Compiler → Result → Compiled
finish_quot quot saved none = none
finish_quot quot saved (some (false, comp)) = some (none, restore_quot saved comp)
finish_quot quot saved (some (true, comp)) = some (
  some (record quot {
    is_literal = false;
    cells = cell_buffer_append comp.cells encode_exit;
    blob = comp.blob;
    outputs = Quotations.type_array comp;
  }),
  restore_quot saved comp,
)

-- The types of the context, the bottom first.
unfoldable pub quot_compile_with_context : Run → Quotation → List ℕ → Compiler → Compiled
unfolding run_tokens finish_quot
quot_compile_with_context run quot types comp =
    if quot.is_literal
    then finish_quot quot comp (
        run_tokens run quot.tokens (record comp {
          cells = cell_buffer_create;
          blob = blob_buffer_create;
          type_stack = entries_onto types [];
        }))
    else some (none, comp)

abbrev pub on_compiled : (Quotation → Compiler → Result) → Compiled → Result
on_compiled next none = none
on_compiled next (some (none, comp)) = fails comp
on_compiled next (some (some quot, comp)) = next quot comp

-- A quotation that is not compiled yet is compiled in a context.
unfoldable pub compiled_quot :
    Run → Quotation → List ℕ → (Quotation → Compiler → Result) → Compiler → Result
unfolding quot_compile_with_context
compiled_quot run quot types next comp =
    if quot.is_literal
    then on_compiled next (quot_compile_with_context run quot types comp)
    else next quot comp

-- A type's name and a space, or "? ". The two lists of names differ in what they know.
pub type_word : Bool → ℕ → List ℕ
type_word pointers type =
    if type == type_i64
    then 105 ∷ 54 ∷ 52 ∷ 32 ∷ []
    else if type == type_u64
    then 117 ∷ 54 ∷ 52 ∷ 32 ∷ []
    else if type == type_f64
    then 102 ∷ 54 ∷ 52 ∷ 32 ∷ []
    else if type == type_ptr
    then 112 ∷ 116 ∷ 114 ∷ 32 ∷ []
    else if type == type_bool
    then 98 ∷ 111 ∷ 111 ∷ 108 ∷ 32 ∷ []
    else if pointers && (type == type_str)
    then 115 ∷ 116 ∷ 114 ∷ 32 ∷ []
    else if pointers && (type == type_array)
    then 97 ∷ 114 ∷ 114 ∷ 97 ∷ 121 ∷ 32 ∷ []
    else 63 ∷ 32 ∷ []

unfoldable pub type_words : Bool → List ℕ → List ℕ
unfolding type_word
type_words pointers [] = []
type_words pointers (type ∷ types) = type_word pointers type ++ type_words pointers types

-- A text in a buffer of `size` bytes with its NUL: a longer one is written past the end.
abbrev pub in_buffer : ℕ → List ℕ → Option (List ℕ)
in_buffer size text = if ltb (length text) size then some text else none

abbrev pub trimmed : List ℕ → List ℕ
trimmed text = take (length text - 1) text

module _ (os : Storage) where
  -- A compiled quotation's blob is stored, and its address pushed.
  unfoldable pub store_quotation : Quotation → Option (List ℕ) × Database → Compiler → Result
  store_quotation quot (none, db) comp = fails (with_db comp db)
  store_quotation quot (some sig_cid, db) comp =
      let stored = db_store_blob os db blob_quotation (some sig_cid) quot.blob.bytes in
      elim stored.0 [
        | none ↦ fails (with_db comp stored.1)
        | some cid ↦
            if leb max_quot_refs (length comp.pending_quot_cids)
            then fails (with_db comp stored.1)
            else emit_ref blob_quotation cid (
                emit_cell (encode_lit 0) (record comp {
                  db = stored.1;
                  pending_quot_cids = comp.pending_quot_cids ++ cid ∷ [];
                }))
              >> pushing type_ptr
      ]

  unfoldable pub materialize : Quotation → Compiler → Result
  unfolding type_words store_quotation
  materialize quot comp = in_buffer 128 (type_words false quot.inputs) >>= λ inputs.
      in_buffer 128 (type_words false quot.outputs) >>= λ outputs.
      store_quotation quot (db_store_type_sig os comp.db (trimmed inputs) (trimmed outputs)) comp

  -- On fuel for the number of quotations.
  unfoldable pub materialize_quotations : Run → ℕ → Compiler → Result
  unfolding compiled_quot materialize
  materialize_quotations run zero comp = elim (pop_quotation comp) [
    | none ↦ done comp
    | some popped ↦ none
  ]
  materialize_quotations run (suc fuel) comp = elim (pop_quotation comp) [
    | none ↦ done comp
    | some popped ↦
        compiled_quot run popped.0 [] materialize popped.1 >> materialize_quotations run fuel
  ]
