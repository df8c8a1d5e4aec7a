-- ===== src/Compiler/Mirror/Quotations.antt =====
-- src/compiler.c: a quotation that is compiled is one item for each cell, and the compiler that it
-- leaves has the cells and the blob it had before.
use march.Prelude.{
  ℕ, ◌≡◌, refl, sym, ap, true, false, none, some, List, [], ◌∷◌, ◌++◌, append-empty,
}
use march.Cells.{cell_buffer_create, cell_buffer_append, encode_exit}
use march.Blob.{blob_buffer_create}
use march.Tokens.{Token}
use march.Dictionary.{DictEntry}
use march.Compiler.{Compiler, Quotation}
use march.Compiler.Emit.{Result}
use march.Compiler.Quotations.{entries_onto}
use march.Compiler.Compile.{
  Run, run_tokens, Compiled, restore_quot, finish_quot, quot_compile_with_context, on_compiled,
  compiled_quot,
}
use march.Compiler.Mirror.{none_left, IsReady, Grows, Keeps, IsCompiled, Keeps-then, Grows-still}
use march.Compiler.Mirror.Emit.{IsReady-as}

pub Grows-refl :
    (words : List DictEntry) (comp : Compiler) → IsReady words comp → Grows words comp comp
Grows-refl words comp ready = record {
  cells = [];
  items = [];
  in_cells = sym (append-empty comp.cells.cells);
  in_blob = sym (append-empty comp.blob.bytes);
  mirrored = none_left;
  ready = ready;
}

-- What compiles the tokens keeps the mirror.
abbrev pub KeepsRun : List DictEntry → Run → Type 0
KeepsRun words run =
    (base comp : Compiler) (tok : Token) → Grows words base comp → Keeps words base (run tok comp)

pub run_tokens-Keeps :
    (words : List DictEntry) (run : Run) (base comp : Compiler) (tokens : List Token)
    → KeepsRun words run
    → Grows words base comp
    → Keeps words base (run_tokens run tokens comp)
unfolding run_tokens
run_tokens-Keeps words run base comp [] keeps g = g
run_tokens-Keeps words run base comp (tok ∷ tokens) keeps g =
    Keeps-then words base (run tok comp) (run_tokens run tokens) (keeps base comp tok g)
      (λ c k. run_tokens-Keeps words run base c tokens keeps k)

-- A quotation that was compiled, and the compiler behind it.
abbrev pub QuotKept : List DictEntry → Compiler → Compiled → Type 0
QuotKept words base none = Unit
QuotKept words base (some (none, comp)) = Unit
QuotKept words base (some (some quot, comp)) = IsCompiled quot × Grows words base comp

abbrev fresh_quot : Compiler → List ℕ → Compiler
fresh_quot comp types = record comp {
  cells = cell_buffer_create;
  blob = blob_buffer_create;
  type_stack = entries_onto types [];
}

module _ (words : List DictEntry) (base : Compiler) where
  finish_quot-Kept :
      (quot : Quotation) (types : List ℕ) (saved : Compiler) (r : Result)
      → Grows words base saved
      → Keeps words (fresh_quot saved types) r
      → QuotKept words base (finish_quot quot saved r)
  unfolding finish_quot cell_buffer_append cell_buffer_create blob_buffer_create
  finish_quot-Kept quot types saved none g k = tt
  finish_quot-Kept quot types saved (some (false, comp)) g k = tt
  finish_quot-Kept quot types saved (some (true, comp)) g k = (
    record {
      cells = k.cells;
      items = k.items;
      in_cells = ap (λ (t : List ℕ). t ++ encode_exit ∷ []) k.in_cells;
      in_blob = k.in_blob;
      mirrored = k.mirrored;
    },
    Grows-still words base saved (restore_quot saved comp) g refl refl
        (IsReady-as words comp (restore_quot saved comp) refl refl refl k.ready),
  )

  pub compiled_quot-Keeps :
      (run : Run) (quot : Quotation) (types : List ℕ) (next : Quotation → Compiler → Result)
      (comp : Compiler)
      → KeepsRun words run
      → quot.is_literal ≡ true
      → Grows words base comp
      → ((q : Quotation) (c : Compiler)
          → IsCompiled q
          → Grows words base c
          → Keeps words base (next q c))
      → Keeps words base (compiled_quot run quot types next comp)
  unfolding compiled_quot quot_compile_with_context
  compiled_quot-Keeps run quot types next comp keeps literal g k = rw literal (
      go _ (
        finish_quot-Kept quot types comp (run_tokens run quot.tokens (fresh_quot comp types)) g (
          run_tokens-Keeps words run _ _ quot.tokens keeps (
            Grows-refl words (fresh_quot comp types)
              (IsReady-as words comp (fresh_quot comp types) refl refl refl g.ready)))))
    where
      go : (r : Compiled) → QuotKept words base r → Keeps words base (on_compiled next r)
      go none kept = tt
      go (some (none, c)) kept = tt
      go (some (some q, c)) (compiled, grown) = k q c compiled grown
