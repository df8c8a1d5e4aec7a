-- ===== src/Compiler/Mirror/Branches.antt =====
-- src/compiler.c: `if` and `times` write an item for each cell, the compiled quotations' included,
-- and the offsets of their branches in the blob are those in the cells.
use mathlib.Core.List.{append_assoc}
use march.Prelude.{
  ℕ, ◌+◌, ◌%◌, ◌^◌, ◌<◌, ◌≡◌, refl, sym, ◌∙◌, ap, Option, none, some, List, ◌∷◌, ◌++◌, arith,
  bytes_eq, length,
}
use mathlib.Core.Path.{subst}
use march.Cells.{CellBuffer, encode_lit}
use march.Blob.{
  BlobBuffer, encode_primitive, encode_inline_literal, blob_buffer_append_bytes, value_bytes,
}
use march.Blob.Codec.{Item, primitive, literal, item_bytes, tag_bytes, blob_of}
use march.Dictionary.{DictEntry}
use march.Compiler.{Compiler, Quotation}
use march.Compiler.Branches.{
  finish, body_count, if_cells, if_blob, emit_if, name_zbranch, name_branch,
}
use march.Compiler.Mirror.{
  IsPrimId, Mirrors, as_call, as_literal, Mirrors-append, blob_of-append, Grows, Keeps, IsCompiled,
  Grows-append,
}
use march.Compiler.Mirror.Bytes.{
  Holding, Holding-bind, append_bytes-Holding, primitive-bytes, literal-Holding,
}
use march.Compiler.Mirror.Emit.{with_prim-Keeps, IsReady-as}
use march.Compiler.Mirror.Offsets.{body_of, if_list, if_cells-eq, value_bytes-mod, encode_lit-mod}

-- An offset as an item: the 64 digits that are written.
abbrev pub offset : ℕ → Item
offset value = literal (value % 2 ^ 64)

pub as_offset :
    (value : ℕ) (cells : List ℕ) (items : List Item)
    → Mirrors cells items
    → Mirrors (encode_lit value ∷ cells) (offset value ∷ items)
as_offset value cells items m =
    subst (λ cell. Mirrors (cell ∷ cells) (offset value ∷ items)) (encode_lit-mod value)
      (as_literal (value % 2 ^ 64) cells items (omega arith) m)

if_assoc :
    (s a l t b m f : List ℕ)
    → (((s ++ a) ++ l) ++ t ++ b ++ m) ++ f ≡ s ++ (a ++ (l ++ (t ++ (b ++ (m ++ f)))))
if_assoc s a l t b m f = simp append_assoc refl

-- A primitive behind a blob's bytes.
pub called-bytes :
    (b : BlobBuffer) (bytes : List ℕ) (id : ℕ)
    → id < 2 ^ 15
    → b.bytes ≡ bytes
    → (encode_primitive b id).bytes ≡ bytes ++ item_bytes (primitive id)
called-bytes b bytes id few e =
    primitive-bytes b id few ∙ ap (λ (t : List ℕ). t ++ item_bytes (primitive id)) e

-- A primitive and an offset behind a blob's bytes.
pub branch-Holding :
    (b : BlobBuffer) (bytes : List ℕ) (id value written : ℕ)
    → id < 2 ^ 15
    → written ≡ value
    → b.bytes ≡ bytes
    → Holding
        ((bytes ++ item_bytes (primitive id)) ++ item_bytes (offset value))
        (encode_inline_literal (encode_primitive b id) written)
branch-Holding b bytes id value written few same e =
    let called = called-bytes b bytes id few e in
    let whole =
      ap (λ (t : List ℕ). tag_bytes 0 ++ t)
        (ap (value_bytes 8) same ∙ sym (value_bytes-mod 8 value)) in
    subst (λ t. Holding t (encode_inline_literal (encode_primitive b id) written))
      (ap (λ (t : List ℕ). t ++ item_bytes (literal written)) called
        ∙ ap (λ (t : List ℕ). (bytes ++ item_bytes (primitive id)) ++ t) whole)
      (literal-Holding (encode_primitive b id) written)

-- A compiled quotation's bytes behind a blob's.
pub body-Holding :
    (b : BlobBuffer) (bytes new items : List ℕ)
    → b.bytes ≡ bytes
    → new ≡ items
    → Holding (bytes ++ items) (blob_buffer_append_bytes b new)
body-Holding b bytes new items e same =
    subst (λ t. Holding t (blob_buffer_append_bytes b new))
      (ap (λ (t : List ℕ). t ++ new) e ∙ ap (λ (t : List ℕ). bytes ++ t) same)
      (append_bytes-Holding b new)

module _ (words : List DictEntry) (base : Compiler) where
  pub finish-Keeps :
      (comp : Compiler) (buf : CellBuffer) (o : Option BlobBuffer) (bytes cells : List ℕ)
      (items : List Item)
      → Grows words base comp
      → buf.cells ≡ comp.cells.cells ++ cells
      → Holding bytes o
      → bytes ≡ comp.blob.bytes ++ blob_of items
      → Mirrors cells items
      → Keeps words base (finish comp buf o)
  finish-Keeps comp buf none bytes cells items g in_cells held in_blob m = tt
  finish-Keeps comp buf (some b) bytes cells items g in_cells held in_blob m =
      Grows-append words base comp _ cells items g in_cells (held ∙ in_blob) m
        (IsReady-as words comp _ refl refl refl g.ready)

  module _ (zbranch branch : DictEntry) (on_true on_false : Quotation) (taken : IsCompiled on_true)
      (left : IsCompiled on_false) (zbranch_ok : IsPrimId zbranch.prim_id)
      (branch_ok : IsPrimId branch.prim_id) where
    -- The items of the code for `if`.
    abbrev if_items : List Item
    if_items =
        primitive zbranch.prim_id
        ∷ offset (length taken.cells + 2)
        ∷ (taken.items ++ primitive branch.prim_id ∷ offset (length left.cells) ∷ left.items)

    if_items-Mirrors :
        Mirrors
          (if_list zbranch branch on_true on_false taken.cells left.cells taken.in_cells
            left.in_cells)
          if_items
    if_items-Mirrors = as_call zbranch.addr zbranch.prim_id _ _ zbranch_ok (
        as_offset (length taken.cells + 2) _ _ (
          Mirrors-append taken.cells _ taken.items _ taken.mirrored (
            as_call branch.addr branch.prim_id _ _ branch_ok
              (as_offset (length left.cells) _ _ left.mirrored))))

    if_blob-Holding :
        (buf : BlobBuffer)
        → Holding (buf.bytes ++ blob_of if_items) (if_blob zbranch branch on_true on_false buf)
    unfolding if_blob
    if_blob-Holding buf =
        let a = item_bytes (primitive zbranch.prim_id) in
        let l = item_bytes (offset (length taken.cells + 2)) in
        let b = item_bytes (primitive branch.prim_id) in
        let m = item_bytes (offset (length left.cells)) in
        let s₁ = (buf.bytes ++ a) ++ l in
        let s₂ = s₁ ++ blob_of taken.items in
        let s₃ = (s₂ ++ b) ++ m in
        let s₄ = s₃ ++ blob_of left.items in
        let e : s₄ ≡ buf.bytes ++ blob_of if_items =
          if_assoc buf.bytes a l (blob_of taken.items) b m (blob_of left.items)
          ∙ ap (λ (t : List ℕ). buf.bytes ++ (a ++ (l ++ t)))
              (sym (
                blob_of-append taken.items
                  (primitive branch.prim_id ∷ offset (length left.cells) ∷ left.items))) in
        subst (λ t. Holding t (if_blob zbranch branch on_true on_false buf)) e
          (Holding-bind s₁ s₄ _ _
            (branch-Holding buf buf.bytes zbranch.prim_id (length taken.cells + 2)
              (body_count on_true + 2) zbranch_ok.1
              (ap (λ n. n + 2) (body_of on_true taken.cells taken.in_cells).1) refl)
            λ b₁ e₁.
              Holding-bind s₂ s₄ _ _
                (body-Holding b₁ s₁ on_true.blob.bytes (blob_of taken.items) e₁ taken.in_blob)
                λ b₂ e₂.
                  Holding-bind s₃ s₄ _ _
                    (branch-Holding b₂ s₂ branch.prim_id (length left.cells) (body_count on_false)
                      branch_ok.1 (body_of on_false left.cells left.in_cells).1 e₂)
                    λ b₃ e₃.
                      body-Holding b₃ s₃ on_false.blob.bytes (blob_of left.items) e₃ left.in_blob)

    if_code-Keeps :
        (comp : Compiler)
        → Grows words base comp
        → Keeps words base (
            finish comp
              (if_cells zbranch branch on_true on_false comp.cells)
              (if_blob zbranch branch on_true on_false comp.blob))
    if_code-Keeps comp g =
        finish-Keeps comp _ _ _ _ if_items g
          (if_cells-eq zbranch branch on_true on_false taken.cells left.cells taken.in_cells
            left.in_cells comp.cells)
          (if_blob-Holding comp.blob) refl if_items-Mirrors

  pub emit_if-Keeps :
      (on_true on_false : Quotation) (comp : Compiler)
      → IsCompiled on_true
      → IsCompiled on_false
      → Grows words base comp
      → Keeps words base (emit_if on_true on_false comp)
  unfolding emit_if bytes_eq
  emit_if-Keeps on_true on_false comp taken left g =
      with_prim-Keeps words base name_zbranch _ comp refl g.ready λ zbranch zbranch_ok.
        with_prim-Keeps words base name_branch _ comp refl g.ready λ branch branch_ok.
          if_code-Keeps zbranch branch on_true on_false taken left zbranch_ok branch_ok comp g
