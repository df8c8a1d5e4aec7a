-- ===== src/Compiler/Mirror/Literals.antt =====
-- src/compiler.c: numbers, strings, true and false, and the immediate stack words write an item for
-- each cell.
use march.Prelude.{
  ℕ, ◌^◌, ◌-◌, ◌≡◌, refl, true, false, Bool-cases, inl, inr, Option, none, some, List, [], ◌∷◌,
  arith, leb, bytes_eq, length,
}
use march.Types.{max_type_stack, type_i64, type_str}
use march.Cells.{encode_lit, cell_buffer_append}
use march.Blob.{blob_data, blob_quotation}
use march.Dictionary.{DictEntry, dict_lookup}
use march.Database.{Storage, Database, db_store_blob, db_store_type_sig}
use march.Compiler.{Compiler, StackEntry, with_stack, pop_type_entry, emit_call}
use march.Compiler.Emit.{
  ◌>>◌, fails, with_db, emit_cell, emit_stored, emit_literal, emit_string, string_bytes, pushing,
  compile_number, compile_true, compile_false, compile_string, text_str,
}
use march.Compiler.Words.{
  name_drop, name_dup, name_swap, name_over, name_rot, emit_word, push_copy, compile_drop,
  compile_dup, compile_swap, compile_over, compile_rot,
}
use march.Compiler.Mirror.{emitted_names, one_of, Grows, Keeps, Keeps-then, Grows-still}
use march.Compiler.Mirror.Emit.{
  Sized, db_store_blob-Sized, emit_stored-Keeps, emit_literal-Keeps, push_type-Grows, IsReady-as,
  emit_call-Grows, PrimOf, dict_lookup-PrimOf,
}

module _ (words : List DictEntry) (base : Compiler) where
  emit_word-Keeps :
      (name : List ℕ) (comp : Compiler)
      → one_of emitted_names name ≡ true
      → Grows words base comp
      → Keeps words base (some (emit_word name comp))
  unfolding emit_word
  emit_word-Keeps name comp known g =
      go (dict_lookup comp.dict name) (dict_lookup-PrimOf words name comp known g.ready)
    where
      go :
          (o : Option DictEntry)
          → PrimOf o
          → Keeps words base
              (some (elim o [ none ↦ (false, comp) | some prim ↦ (true, emit_call comp prim) ]))
      go none found = tt
      go (some prim) found = emit_call-Grows words base comp prim g found

  pub with_stack-Grows :
      (comp : Compiler) (stack : List StackEntry)
      → Grows words base comp
      → Grows words base (with_stack comp stack)
  with_stack-Grows comp stack g =
      Grows-still words base comp (with_stack comp stack) g refl refl
        (IsReady-as words comp (with_stack comp stack) refl refl refl g.ready)

  push_copy-Keeps :
      (name : List ℕ) (entry : StackEntry) (comp : Compiler)
      → one_of emitted_names name ≡ true
      → Grows words base comp
      → Keeps words base (some (push_copy name entry comp))
  unfolding push_copy
  push_copy-Keeps name entry comp known g =
      elim (Bool-cases (leb max_type_stack (length comp.type_stack))) [
        | inl full ↦ rw (full, Keeps) tt
        | inr room ↦ rw room (
            emit_word-Keeps name (with_stack comp (entry ∷ comp.type_stack)) known
              (with_stack-Grows comp (entry ∷ comp.type_stack) g))
      ]

  -- The stack words, on a stack that is spelled out.
  drop-Keeps :
      (comp : Compiler) (stack : List StackEntry)
      → comp.type_stack ≡ stack
      → Grows words base comp
      → Keeps words base (some (compile_drop comp))
  unfolding compile_drop pop_type_entry bytes_eq
  drop-Keeps comp [] at g = rw (at, Keeps) tt
  drop-Keeps comp (top ∷ rest) at g =
      rw at (emit_word-Keeps name_drop _ refl (with_stack-Grows comp rest g))

  dup-Keeps :
      (comp : Compiler) (stack : List StackEntry)
      → comp.type_stack ≡ stack
      → Grows words base comp
      → Keeps words base (some (compile_dup comp))
  unfolding compile_dup bytes_eq
  dup-Keeps comp [] at g = rw (at, Keeps) tt
  dup-Keeps comp (top ∷ rest) at g =
      rw at (push_copy-Keeps name_dup top _ refl (with_stack-Grows comp (top ∷ rest) g))

  swap-Keeps :
      (comp : Compiler) (stack : List StackEntry)
      → comp.type_stack ≡ stack
      → Grows words base comp
      → Keeps words base (some (compile_swap comp))
  unfolding compile_swap bytes_eq
  swap-Keeps comp [] at g = rw (at, Keeps) tt
  swap-Keeps comp (top ∷ []) at g = rw (at, Keeps) tt
  swap-Keeps comp (top ∷ second ∷ rest) at g =
      rw at (emit_word-Keeps name_swap _ refl (with_stack-Grows comp (second ∷ top ∷ rest) g))

  over-Keeps :
      (comp : Compiler) (stack : List StackEntry)
      → comp.type_stack ≡ stack
      → Grows words base comp
      → Keeps words base (some (compile_over comp))
  unfolding compile_over bytes_eq
  over-Keeps comp [] at g = rw (at, Keeps) tt
  over-Keeps comp (top ∷ []) at g = rw (at, Keeps) tt
  over-Keeps comp (top ∷ second ∷ rest) at g =
      rw at
        (push_copy-Keeps name_over second _ refl (with_stack-Grows comp (top ∷ second ∷ rest) g))

  rot-Keeps :
      (comp : Compiler) (stack : List StackEntry)
      → comp.type_stack ≡ stack
      → Grows words base comp
      → Keeps words base (some (compile_rot comp))
  unfolding compile_rot bytes_eq
  rot-Keeps comp [] at g = rw (at, Keeps) tt
  rot-Keeps comp (c ∷ []) at g = rw (at, Keeps) tt
  rot-Keeps comp (c ∷ b ∷ []) at g = rw (at, Keeps) tt
  rot-Keeps comp (c ∷ b ∷ a ∷ rest) at g =
      rw at (emit_word-Keeps name_rot _ refl (with_stack-Grows comp (a ∷ c ∷ b ∷ rest) g))

  pub stack_words-Keep :
      (comp : Compiler)
      → Grows words base comp
      → Keeps words base (some (compile_drop comp))
        × Keeps words base (some (compile_dup comp))
        × Keeps words base (some (compile_swap comp))
        × Keeps words base (some (compile_over comp))
        × Keeps words base (some (compile_rot comp))
  stack_words-Keep comp g = (
    drop-Keeps comp comp.type_stack refl g,
    dup-Keeps comp comp.type_stack refl g,
    swap-Keeps comp comp.type_stack refl g,
    over-Keeps comp comp.type_stack refl g,
    rot-Keeps comp comp.type_stack refl g,
  )

  module _ (os : Storage) (sized : (bytes : List ℕ) → length (os.sha256 bytes) ≡ 32) where
    pushed-Keeps :
        (comp : Compiler) (value type : ℕ)
        → Grows words base comp
        → Keeps words base (emit_literal os value comp >> pushing type)
    pushed-Keeps comp value type g =
        Keeps-then words base (emit_literal os value comp) (pushing type)
          (emit_literal-Keeps os sized words base comp value g).0
          (λ c k. push_type-Grows words base c type k)

    pub compile_number-Keeps :
        (comp : Compiler) (num : ℕ)
        → Grows words base comp
        → Keeps words base (compile_number os num comp)
    unfolding compile_number
    compile_number-Keeps comp num g = pushed-Keeps comp num type_i64 g

    pub compile_truth-Keeps :
        (comp : Compiler)
        → Grows words base comp
        → Keeps words base (compile_true os comp) × Keeps words base (compile_false os comp)
    unfolding compile_true compile_false
    compile_truth-Keeps comp g =
        (pushed-Keeps comp (2 ^ 64 - 1) type_i64 g, pushed-Keeps comp 0 type_i64 g)

    emit_string-Keeps :
        (comp : Compiler) (str : List ℕ) (sig : Option (List ℕ) × Database)
        → Grows words base comp
        → Keeps words base (emit_string os str sig comp)
    unfolding emit_string emit_cell cell_buffer_append
    emit_string-Keeps comp str (none, db) g = tt
    emit_string-Keeps comp str (some sig_cid, db) g =
        go (db_store_blob os db blob_quotation (some sig_cid) (string_bytes str))
          (db_store_blob-Sized os sized db blob_quotation (some sig_cid) (string_bytes str))
      where
        go :
            (r : Option (List ℕ) × Database)
            → Sized r
            → Keeps words base (elim r.0 [
              | none ↦ fails (with_db comp r.1)
              | some cid ↦ emit_stored blob_data r (emit_cell (encode_lit 0) comp)
            ])
        go (none, db) size = tt
        go (some cid, db) size =
            (emit_stored-Keeps os sized words base comp (emit_cell (encode_lit 0) comp)
              (encode_lit 0) blob_data (some cid, db) g refl refl
              (IsReady-as words comp _ refl refl refl g.ready) (omega arith) size).0

    pub compile_string-Keeps :
        (comp : Compiler) (str : List ℕ)
        → Grows words base comp
        → Keeps words base (compile_string os str comp)
    unfolding compile_string
    compile_string-Keeps comp str g =
        Keeps-then words base (emit_string os str (db_store_type_sig os comp.db [] text_str) comp)
          (pushing type_str)
          (emit_string-Keeps comp str (db_store_type_sig os comp.db [] text_str) g)
          (λ c k. push_type-Grows words base c type_str k)
