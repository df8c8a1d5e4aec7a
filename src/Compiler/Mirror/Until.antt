-- ===== src/Compiler/Mirror/Until.antt =====
-- src/compiler.c: the loop of `times` that tests behind its body writes an item for each cell.
use mathlib.Core.List.{append_assoc}
use mathlib.Core.Path.{subst}
use march.Prelude.{
  ℕ, ◌+◌, ◌≡◌, refl, sym, ◌∙◌, ap, List, [], ◌∷◌, ◌++◌, arith, bytes_eq, length, append-empty,
}
use march.Blob.{BlobBuffer}
use march.Blob.Codec.{Item, primitive, item_bytes, blob_of}
use march.Dictionary.{DictEntry}
use march.Compiler.{Compiler, Quotation}
use march.Compiler.Branches.{
  finish, minus, body_count, until_cells, until_blob, emit_until, name_zbranch, name_branch,
}
use march.Compiler.Mirror.{
  IsPrimId, Mirrors, none_left, as_call, Mirrors-append, blob_of-append, Grows, Keeps, IsCompiled,
}
use march.Compiler.Mirror.Bytes.{Holding, Holding-bind}
use march.Compiler.Mirror.Emit.{with_prim-Keeps}
use march.Compiler.Mirror.Offsets.{body_of, until_list, until_cells-eq}
use march.Compiler.Mirror.Branches.{offset, as_offset, branch-Holding, body-Holding, finish-Keeps}

until_assoc :
    (b c t z l : List ℕ) → (((b ++ c) ++ t) ++ z) ++ l ≡ b ++ (c ++ (t ++ (z ++ (l ++ []))))
until_assoc b c t z l = simp (append_assoc, append-empty) refl

module _ (zbranch : DictEntry) (body condition : Quotation) (compiled : IsCompiled body)
    (tested : IsCompiled condition) where
  abbrev again : ℕ
  again = minus 0 (length compiled.cells + length tested.cells + 2)

  -- The items of a loop that tests behind its body.
  abbrev pub until_items : List Item
  until_items = compiled.items ++ (tested.items ++ primitive zbranch.prim_id ∷ offset again ∷ [])

  module _ (zbranch_ok : IsPrimId zbranch.prim_id) where
    pub until_items-Mirrors :
        Mirrors
          (until_list zbranch body condition compiled.cells tested.cells compiled.in_cells
            tested.in_cells)
          until_items
    until_items-Mirrors = Mirrors-append compiled.cells _ compiled.items _ compiled.mirrored (
        Mirrors-append tested.cells _ tested.items _ tested.mirrored
          (as_call _ _ _ _ zbranch_ok (as_offset _ _ _ none_left)))

    pub until_blob-Holding :
        (buf : BlobBuffer)
        → Holding (buf.bytes ++ blob_of until_items) (until_blob zbranch body condition buf)
    unfolding until_blob
    until_blob-Holding buf =
        let z = item_bytes (primitive zbranch.prim_id) in
        let l = item_bytes (offset again) in
        let s₁ = buf.bytes ++ blob_of compiled.items in
        let s₂ = s₁ ++ blob_of tested.items in
        let s₃ = (s₂ ++ z) ++ l in
        let tail = primitive zbranch.prim_id ∷ offset again ∷ [] in
        let e : s₃ ≡ buf.bytes ++ blob_of until_items =
          until_assoc buf.bytes (blob_of compiled.items) (blob_of tested.items) z l
          ∙ ap (λ (t : List ℕ). buf.bytes ++ t)
              (sym (
                blob_of-append compiled.items (tested.items ++ tail)
                ∙ ap (λ (t : List ℕ). blob_of compiled.items ++ t)
                    (blob_of-append tested.items tail))) in
        let count : body_count body + body_count condition
            ≡ length compiled.cells + length tested.cells =
          omega (
            arith,
            (body_of body compiled.cells compiled.in_cells).1,
            (body_of condition tested.cells tested.in_cells).1,
          ) in
        subst (λ t. Holding t (until_blob zbranch body condition buf)) e
          (Holding-bind s₁ s₃ _ _
            (body-Holding buf buf.bytes body.blob.bytes (blob_of compiled.items) refl
              compiled.in_blob)
            λ b₁ e₁.
              Holding-bind s₂ s₃ _ _
                (body-Holding b₁ s₁ condition.blob.bytes (blob_of tested.items) e₁ tested.in_blob)
                λ b₂ e₂.
                  branch-Holding b₂ s₂ zbranch.prim_id again _ zbranch_ok.1
                    (ap (λ n. minus 0 (n + 2)) count) e₂)

    until_code-Keeps :
        (words : List DictEntry) (base comp : Compiler)
        → Grows words base comp
        → Keeps words base (
            finish comp
              (until_cells zbranch body condition comp.cells)
              (until_blob zbranch body condition comp.blob))
    until_code-Keeps words base comp g =
        finish-Keeps words base comp _ _ _ _ until_items g
          (until_cells-eq zbranch body condition compiled.cells tested.cells compiled.in_cells
            tested.in_cells comp.cells)
          (until_blob-Holding comp.blob) refl until_items-Mirrors

module _ (words : List DictEntry) (base : Compiler) where
  pub emit_until-Keeps :
      (body condition : Quotation) (comp : Compiler)
      → IsCompiled body
      → IsCompiled condition
      → Grows words base comp
      → Keeps words base (emit_until body condition comp)
  unfolding emit_until bytes_eq
  emit_until-Keeps body condition comp compiled tested g =
      with_prim-Keeps words base name_zbranch _ comp refl g.ready λ zbranch zbranch_ok.
        with_prim-Keeps words base name_branch _ comp refl g.ready λ branch branch_ok.
          until_code-Keeps zbranch body condition compiled tested zbranch_ok words base comp g
