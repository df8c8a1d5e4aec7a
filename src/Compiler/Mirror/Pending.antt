-- ===== src/Compiler/Mirror/Pending.antt =====
-- src/compiler.c: the brackets of quotations and arrays, and quotations that are stored as values,
-- write an item for each cell.
use march.Prelude.{
  ℕ, zero, suc, ◌≡◌, refl, true, false, Bool-cases, inl, inr, Option, none, some, List, [], ◌∷◌,
  ◌++◌, arith, leb, ◌==◌, if◌then◌else◌, ◌>>=◌, length,
}
use march.Types.{type_ptr}
use march.Cells.{cell_buffer_append, encode_lit}
use march.Blob.{blob_quotation}
use march.Dictionary.{DictEntry}
use march.Database.{Storage, Database, db_store_blob, db_store_type_sig}
use march.Compiler.{Compiler, Quotation}
use march.Compiler.Emit.{Result, ◌>>◌, done, fails, with_db, emit_cell, emit_ref, pushing}
use march.Compiler.Quotations.{compile_lparen, compile_rparen, compile_lbracket, pop_quotation}
use march.Compiler.Compile.{
  Run, compiled_quot, type_words, in_buffer, trimmed, store_quotation, materialize,
  materialize_quotations, max_quot_refs,
}
use march.Compiler.Handlers.{with_quotation}
use march.Compiler.Define.Ends.{AllLiteral, one_more}
use march.Compiler.Mirror.{IsReady, Grows, Keeps, Keeps-then, Grows-still}
use march.Compiler.Mirror.Emit.{
  Sized, db_store_blob-Sized, emit_ref-Keeps, push_type-Grows, IsReady-as,
}
use march.Compiler.Mirror.Quotations.{KeepsRun, compiled_quot-Keeps}

-- The compiler that holds the reference to a stored quotation.
abbrev pending : Compiler → Database → List ℕ → Compiler
pending comp db cid =
    emit_cell (encode_lit 0)
      (record comp { db = db; pending_quot_cids = comp.pending_quot_cids ++ cid ∷ [] })

module _ (words : List DictEntry) (base : Compiler) where
  -- A quotation that waits is popped, as tokens.
  abbrev Popped : Option (Quotation × Compiler) → Type 0
  Popped none = Unit
  Popped (some (quot, comp)) = (quot.is_literal ≡ true) × Grows words base comp

  still :
      (comp c : Compiler)
      → Grows words base comp
      → c.cells.cells ≡ comp.cells.cells
      → c.blob.bytes ≡ comp.blob.bytes
      → IsReady words c
      → Grows words base c
  still comp c g in_cells in_blob ready = Grows-still words base comp c g in_cells in_blob ready

  -- Another stack of quotations, of tokens as well.
  requoted :
      (comp : Compiler) (quots : List Quotation)
      → AllLiteral quots
      → Grows words base comp
      → Grows words base (record comp { quot_stack = quots })
  requoted comp quots all g =
      still comp (record comp { quot_stack = quots }) g refl refl
        (record {
          holds = g.ready.holds;
          sound = g.ready.sound;
          cached = g.ready.cached;
          literal = all;
        })

  rparen-Keeps :
      (comp : Compiler) (quots : List Quotation)
      → comp.quot_stack ≡ quots
      → AllLiteral quots
      → Grows words base comp
      → Keeps words base (compile_rparen comp)
  unfolding compile_rparen
  rparen-Keeps comp [] at all g = rw (at, Keeps) tt
  rparen-Keeps comp (quot ∷ quots) at (one_more _ _ literal all) g =
      elim (Bool-cases (comp.buffer_stack_depth == 0)) [
        | inl none_open ↦ rw (at, none_open, Keeps) tt
        | inr some_open ↦
            rw (at, some_open, literal)
              (still comp _ g refl refl (record {
                holds = g.ready.holds;
                sound = g.ready.sound;
                cached = g.ready.cached;
                literal = one_more _ quots refl all;
              }))
      ]

  popped :
      (comp : Compiler) (quots : List Quotation)
      → comp.quot_stack ≡ quots
      → AllLiteral quots
      → Grows words base comp
      → Popped (pop_quotation comp)
  unfolding pop_quotation
  popped comp [] at all g = rw (at, Popped) tt
  popped comp (quot ∷ quots) at (one_more _ _ literal all) g =
      rw (at, Popped) (literal, requoted comp quots all g)

  pub pop_quotation-Keeps : (comp : Compiler) → Grows words base comp → Popped (pop_quotation comp)
  pop_quotation-Keeps comp g = popped comp comp.quot_stack refl g.ready.literal g

  pub with_quotation-Keeps :
      (next : Quotation → Compiler → Result) (comp : Compiler)
      → Grows words base comp
      → ((quot : Quotation) (c : Compiler)
          → quot.is_literal ≡ true
          → Grows words base c
          → Keeps words base (next quot c))
      → Keeps words base (with_quotation next comp)
  with_quotation-Keeps next comp g k = go (pop_quotation comp) (pop_quotation-Keeps comp g)
    where
      go :
          (o : Option (Quotation × Compiler))
          → Popped o
          → Keeps words base (elim o [ none ↦ fails comp | some p ↦ next p.0 p.1 ])
      go none kept = tt
      go (some (quot, c)) (literal, grown) = k quot c literal grown

  pub brackets-Keep :
      (comp : Compiler)
      → Grows words base comp
      → Keeps words base (compile_lparen comp)
        × Keeps words base (compile_rparen comp)
        × Keeps words base (compile_lbracket comp)
  unfolding compile_lparen compile_lbracket
  brackets-Keep comp g = (
    elim (Bool-cases (leb 16 (length comp.quot_stack))) [
      | inl full ↦ rw (full, Keeps) tt
      | inr room ↦ rw room (
          still comp _ g refl refl (record {
            holds = g.ready.holds;
            sound = g.ready.sound;
            cached = g.ready.cached;
            literal = one_more _ comp.quot_stack refl g.ready.literal;
          }))
    ],
    rparen-Keeps comp comp.quot_stack refl g.ready.literal g,
    elim (Bool-cases (leb 16 (length comp.array_marker_stack))) [
      | inl full ↦ rw (full, Keeps) tt
      | inr room ↦
          rw room (still comp _ g refl refl (IsReady-as words comp _ refl refl refl g.ready))
    ],
  )

  pub Keeps-bind :
      (o : Option (List ℕ)) (next : List ℕ → Result)
      → ((text : List ℕ) → Keeps words base (next text))
      → Keeps words base (o >>= next)
  Keeps-bind none next k = tt
  Keeps-bind (some text) next k = k text

  module _ (os : Storage) (sized : (bytes : List ℕ) → length (os.sha256 bytes) ≡ 32) where
    store_quotation-Keeps :
        (quot : Quotation) (sig : Option (List ℕ) × Database) (comp : Compiler)
        → Grows words base comp
        → Keeps words base (store_quotation os quot sig comp)
    unfolding store_quotation emit_cell cell_buffer_append
    store_quotation-Keeps quot (none, db) comp g = tt
    store_quotation-Keeps quot (some sig_cid, db) comp g =
        go (db_store_blob os db blob_quotation (some sig_cid) quot.blob.bytes)
          (db_store_blob-Sized os sized db blob_quotation (some sig_cid) quot.blob.bytes)
      where
        go :
            (r : Option (List ℕ) × Database)
            → Sized r
            → Keeps words base (elim r.0 [
              | none ↦ fails (with_db comp r.1)
              | some cid ↦
                  if leb max_quot_refs (length comp.pending_quot_cids)
                  then fails (with_db comp r.1)
                  else emit_ref blob_quotation cid (pending comp r.1 cid) >> pushing type_ptr
            ])
        go (none, db) size = tt
        go (some cid, db) size = elim (Bool-cases (leb 64 (length comp.pending_quot_cids))) [
          | inl full ↦ rw (full, Keeps) tt
          | inr room ↦ rw room (
              Keeps-then words base _ (pushing type_ptr)
                (emit_ref-Keeps words base comp (pending comp db cid) (encode_lit 0) blob_quotation
                  cid g refl refl
                  (IsReady-as words comp (pending comp db cid) refl refl refl g.ready) (omega arith)
                  size)
                (λ c k. push_type-Grows words base c type_ptr k))
        ]

    materialize-Keeps :
        (quot : Quotation) (comp : Compiler)
        → Grows words base comp
        → Keeps words base (materialize os quot comp)
    unfolding materialize
    materialize-Keeps quot comp g =
        Keeps-bind (in_buffer 128 (type_words false quot.inputs)) _ λ inputs.
          Keeps-bind (in_buffer 128 (type_words false quot.outputs)) _ λ outputs.
            store_quotation-Keeps quot
              (db_store_type_sig os comp.db (trimmed inputs) (trimmed outputs)) comp g

    pub materialize_quotations-Keeps :
        (run : Run) (fuel : ℕ) (comp : Compiler)
        → KeepsRun words run
        → Grows words base comp
        → Keeps words base (materialize_quotations os run fuel comp)
    unfolding materialize_quotations
    materialize_quotations-Keeps run zero comp keeps g = go (pop_quotation comp)
      where
        go :
            (o : Option (Quotation × Compiler))
            → Keeps words base (elim o [ none ↦ done comp | some p ↦ none ])
        go none = g
        go (some p) = tt
    materialize_quotations-Keeps run (suc fuel) comp keeps g =
        go (λ d k. materialize_quotations-Keeps run fuel d keeps k) (pop_quotation comp)
          (pop_quotation-Keeps comp g)
      where
        go :
            ((d : Compiler)
              → Grows words base d
              → Keeps words base (materialize_quotations os run fuel d))
            → (o : Option (Quotation × Compiler)) → Popped o
            → Keeps words base (elim o [
              | none ↦ done comp
              | some p ↦
                  compiled_quot run p.0 [] (materialize os) p.1
                  >> materialize_quotations os run fuel
            ])
        go again none kept = g
        go again (some (quot, c)) (literal, grown) =
            Keeps-then words base _ (materialize_quotations os run fuel)
              (compiled_quot-Keeps words base run quot [] (materialize os) c keeps literal grown
                (λ q d compiled k. materialize-Keeps q d k))
              again
