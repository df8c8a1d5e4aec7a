-- ===== src/Compiler/Mirror/Loops.antt =====
-- src/compiler.c: the counted loop of `times` writes an item for each cell, as `if` does.
use mathlib.Core.List.{append_assoc}
use mathlib.Core.Path.{subst}
use march.Prelude.{
  ℕ, ◌+◌, ◌≡◌, refl, sym, ◌∙◌, ap, true, List, [], ◌∷◌, ◌++◌, bytes_eq, length, append-empty,
}
use march.Blob.{BlobBuffer}
use march.Blob.Codec.{Item, primitive, item_bytes, blob_of}
use march.Dictionary.{DictEntry}
use march.Compiler.{Compiler, Quotation}
use march.Compiler.Emit.{Result, with_prim}
use march.Compiler.Arrays.{name_tor, name_fromr, name_rfetch}
use march.Compiler.Branches.{
  finish, minus, body_count, LoopPrims, times_cells, times_blob, emit_times, name_zbranch,
  name_branch, name_rdrop, name_sub, name_zerop,
}
use march.Compiler.Mirror.{
  IsPrimId, Mirrors, none_left, as_call, Mirrors-append, blob_of-append, emitted_names, one_of,
  Grows, Keeps, IsCompiled,
}
use march.Compiler.Mirror.Bytes.{Holding, Holding-bind}
use march.Compiler.Mirror.Emit.{with_prim-Keeps}
use march.Compiler.Mirror.Offsets.{body_of, times_list, times_cells-eq}
use march.Compiler.Mirror.Branches.{
  offset, as_offset, called-bytes, branch-Holding, body-Holding, finish-Keeps,
}

times_assoc :
    (b t r z l f o s m q k d : List ℕ)
    → ((((((((((b ++ t) ++ r) ++ z ++ l) ++ f) ++ o) ++ s) ++ t) ++ m) ++ q) ++ k) ++ d
      ≡ b ++ (t ++ (r ++ (z ++ (l ++ (f ++ (o ++ (s ++ (t ++ (m ++ (q ++ (k ++ (d ++ []))))))))))))
times_assoc b t r z l f o s m q k d = simp (append_assoc, append-empty) refl

module _ (p : LoopPrims) (body : Quotation) (compiled : IsCompiled body) where
  abbrev back : ℕ
  back = minus 0 (length compiled.cells + 9)

  -- The items of a counted loop.
  abbrev pub times_items : List Item
  times_items =
      primitive p.tor.prim_id
      ∷ primitive p.rfetch.prim_id
      ∷ primitive p.zbranch.prim_id
      ∷ offset (length compiled.cells + 6)
      ∷ primitive p.fromr.prim_id
      ∷ offset 1
      ∷ primitive p.sub.prim_id
      ∷ primitive p.tor.prim_id
      ∷ (compiled.items
          ++ primitive p.branch.prim_id ∷ offset back ∷ primitive p.rdrop.prim_id ∷ [])

  module _ (tor : IsPrimId p.tor.prim_id) (fromr : IsPrimId p.fromr.prim_id)
      (rfetch : IsPrimId p.rfetch.prim_id) (rdrop : IsPrimId p.rdrop.prim_id)
      (sub : IsPrimId p.sub.prim_id) (zbranch : IsPrimId p.zbranch.prim_id)
      (branch : IsPrimId p.branch.prim_id) where
    pub times_items-Mirrors :
        Mirrors (times_list p body compiled.cells compiled.in_cells) times_items
    times_items-Mirrors = as_call _ _ _ _ tor (
        as_call _ _ _ _ rfetch (
          as_call _ _ _ _ zbranch (
            as_offset _ _ _ (
              as_call _ _ _ _ fromr (
                as_offset _ _ _ (
                  as_call _ _ _ _ sub (
                    as_call _ _ _ _ tor (
                      Mirrors-append compiled.cells _ compiled.items _ compiled.mirrored (
                        as_call _ _ _ _ branch
                          (as_offset _ _ _ (as_call _ _ _ _ rdrop none_left)))))))))))

    abbrev bytes_of : ℕ → List ℕ
    bytes_of id = item_bytes (primitive id)

    pub times_blob-Holding :
        (buf : BlobBuffer) → Holding (buf.bytes ++ blob_of times_items) (times_blob p body buf)
    unfolding times_blob
    times_blob-Holding buf =
        let s₀ = (buf.bytes ++ bytes_of p.tor.prim_id) ++ bytes_of p.rfetch.prim_id in
        let s₁ =
          (s₀ ++ bytes_of p.zbranch.prim_id) ++ item_bytes (offset (length compiled.cells + 6)) in
        let s₂ = (s₁ ++ bytes_of p.fromr.prim_id) ++ item_bytes (offset 1) in
        let s₃ = (s₂ ++ bytes_of p.sub.prim_id) ++ bytes_of p.tor.prim_id in
        let s₄ = s₃ ++ blob_of compiled.items in
        let s₅ = (s₄ ++ bytes_of p.branch.prim_id) ++ item_bytes (offset back) in
        let s₆ = s₅ ++ bytes_of p.rdrop.prim_id in
        let count = (body_of body compiled.cells compiled.in_cells).1 in
        let e : s₆ ≡ buf.bytes ++ blob_of times_items =
          times_assoc buf.bytes (bytes_of p.tor.prim_id) (bytes_of p.rfetch.prim_id)
            (bytes_of p.zbranch.prim_id) (item_bytes (offset (length compiled.cells + 6)))
            (bytes_of p.fromr.prim_id) (item_bytes (offset 1)) (bytes_of p.sub.prim_id)
            (blob_of compiled.items) (bytes_of p.branch.prim_id) (item_bytes (offset back))
            (bytes_of p.rdrop.prim_id)
          ∙ ap
              (λ (t : List ℕ).
                buf.bytes
                ++ (bytes_of p.tor.prim_id
                    ++ (bytes_of p.rfetch.prim_id
                        ++ (bytes_of p.zbranch.prim_id
                            ++ (item_bytes (offset (length compiled.cells + 6))
                                ++ (bytes_of p.fromr.prim_id
                                    ++ (item_bytes (offset 1)
                                        ++ (bytes_of p.sub.prim_id
                                            ++ (bytes_of p.tor.prim_id ++ t)))))))))
              (sym (
                blob_of-append compiled.items
                  (primitive p.branch.prim_id ∷ offset back ∷ primitive p.rdrop.prim_id ∷ []))) in
        let e₀ =
          called-bytes _ _ p.rfetch.prim_id rfetch.1
            (called-bytes buf buf.bytes p.tor.prim_id tor.1 refl) in
        subst (λ t. Holding t (times_blob p body buf)) e
          (Holding-bind s₁ s₆ _ _
            (branch-Holding _ s₀ p.zbranch.prim_id (length compiled.cells + 6) (body_count body + 6)
              zbranch.1 (ap (λ n. n + 6) count) e₀)
            λ b₁ e₁.
              Holding-bind s₂ s₆ _ _ (branch-Holding b₁ s₁ p.fromr.prim_id 1 1 fromr.1 refl e₁)
                λ b₂ e₂.
                  Holding-bind s₄ s₆ _ _
                    (body-Holding _ s₃ body.blob.bytes (blob_of compiled.items)
                      (called-bytes _ _ p.tor.prim_id tor.1
                        (called-bytes b₂ s₂ p.sub.prim_id sub.1 e₂))
                      compiled.in_blob)
                    λ b₄ e₄.
                      Holding-bind s₅ s₆ _ _
                        (branch-Holding b₄ s₄ p.branch.prim_id back (minus 0 (body_count body + 9))
                          branch.1 (ap (λ n. minus 0 (n + 9)) count) e₄)
                        λ b₅ e₅. called-bytes b₅ s₅ p.rdrop.prim_id rdrop.1 e₅)

    times_code-Keeps :
        (words : List DictEntry) (base comp : Compiler)
        → Grows words base comp
        → Keeps words base
            (finish comp (times_cells p body comp.cells) (times_blob p body comp.blob))
    times_code-Keeps words base comp g =
        finish-Keeps words base comp _ _ _ _ times_items g
          (times_cells-eq p body compiled.cells compiled.in_cells comp.cells)
          (times_blob-Holding comp.blob) refl times_items-Mirrors

module _ (words : List DictEntry) (base : Compiler) where
  pub emit_times-Keeps :
      (body : Quotation) (comp : Compiler)
      → IsCompiled body
      → Grows words base comp
      → Keeps words base (emit_times body comp)
  unfolding emit_times bytes_eq
  emit_times-Keeps body comp compiled g = named name_tor _ refl λ tor tor_ok.
      named name_fromr _ refl λ fromr fromr_ok. named name_rfetch _ refl λ rfetch rfetch_ok.
        named name_rdrop _ refl λ rdrop rdrop_ok. named name_sub _ refl λ sub sub_ok.
          named name_zerop _ refl λ zerop zerop_ok. named name_zbranch _ refl λ zbranch zbranch_ok.
            named name_branch _ refl λ branch branch_ok.
              times_code-Keeps
                (record {
                  tor = tor;
                  fromr = fromr;
                  rfetch = rfetch;
                  rdrop = rdrop;
                  sub = sub;
                  zbranch = zbranch;
                  branch = branch;
                })
                body compiled tor_ok fromr_ok rfetch_ok rdrop_ok sub_ok zbranch_ok branch_ok words
                base comp g
    where
      named :
          (name : List ℕ) (next : DictEntry → Compiler → Result)
          → one_of emitted_names name ≡ true
          → ((prim : DictEntry) → IsPrimId prim.prim_id → Keeps words base (next prim comp))
          → Keeps words base (with_prim name next comp)
      named name next known f = with_prim-Keeps words base name next comp known g.ready f
