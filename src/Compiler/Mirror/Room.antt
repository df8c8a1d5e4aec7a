-- ===== src/Compiler/Mirror/Room.antt =====
-- src/compiler.c: the cells and the blob of a loop together. The blob's buffer has room for all
-- that is written, so each append ends.
use march.Prelude.{
  ℕ, ◌+◌, ◌^◌, ◌≤◌, ◌<◌, ◌≡◌, refl, ap, Option, some, List, ◌++◌, arith, ◌>>=◌, length,
  length-append,
}
use mathlib.Core.Path.{subst}
use march.Cells.{CellBuffer}
use march.Blob.{
  BlobBuffer, encode_primitive, encode_inline_literal, blob_buffer_append_bytes, value_bytes,
}
use march.Blob.Buffer.{IsValid, append_u16-IsValid, append_bytes_total}
use march.Blob.Codec.{tag_bytes, u16_bytes, length-value_bytes, blob_of}
use march.Dictionary.{DictEntry}
use march.Compiler.{Quotation}
use march.Compiler.Branches.{LoopPrims, times_cells, times_blob, until_cells, until_blob}
use march.Compiler.Mirror.{IsPrimId, Mirrors, IsCompiled}
use march.Compiler.Mirror.Bytes.{Holding}
use march.Compiler.Mirror.Offsets.{times_list, times_cells-eq, until_list, until_cells-eq}
use march.Compiler.Mirror.Loops.{times_items, times_items-Mirrors, times_blob-Holding}
use march.Compiler.Mirror.Until.{until_items, until_items-Mirrors, until_blob-Holding}

-- A valid buffer of at most so many bytes.
abbrev Within : ℕ → BlobBuffer → Type 0
Within limit b = IsValid b × (length b.bytes ≤ limit)

abbrev Ends : ℕ → Option BlobBuffer → Type 0
Ends limit o = (b : BlobBuffer) × (o ≡ some b) × Within limit b

Ends-bind :
    (limit limit' : ℕ) (o : Option BlobBuffer) (f : BlobBuffer → Option BlobBuffer)
    → Ends limit o
    → ((b : BlobBuffer) → Within limit b → Ends limit' (f b))
    → Ends limit' (o >>= f)
Ends-bind limit limit' o f (b, e, within) next = rw e (next b within)

primitive-Within :
    (limit limit' id : ℕ) (b : BlobBuffer)
    → limit + 2 ≤ limit'
    → limit' < 2 ^ 61
    → Within limit b
    → Within limit' (encode_primitive b id)
unfolding encode_primitive
primitive-Within limit limit' id b more few (ok, within) = (
  append_u16-IsValid b ok _ (omega arith),
  omega (arith, ap length (u16_bytes b _), length-append b.bytes (tag_bytes _)),
)

bytes-Ends :
    (limit limit' : ℕ) (b : BlobBuffer) (new : List ℕ)
    → limit + length new ≤ limit'
    → limit' < 2 ^ 62
    → Within limit b
    → Ends limit' (blob_buffer_append_bytes b new)
bytes-Ends limit limit' b new more few (ok, within) =
    let (b', e, content, ok') = append_bytes_total b ok new (omega arith) in
    (b', e, (ok', omega (arith, ap length content, length-append b.bytes new)))

literal-Ends :
    (limit limit' value : ℕ) (b : BlobBuffer)
    → limit + 10 ≤ limit'
    → limit' < 2 ^ 61
    → Within limit b
    → Ends limit' (encode_inline_literal b value)
unfolding encode_inline_literal
literal-Ends limit limit' value b more few (ok, within) =
    bytes-Ends (limit + 2) limit' _ (value_bytes 8 value)
      (omega (arith, length-value_bytes 8 value)) (omega arith)
      (
        append_u16-IsValid b ok 0 (omega arith),
        omega (arith, ap length (u16_bytes b 0), length-append b.bytes (tag_bytes 0)),
      )

-- A buffer that is returned has the bytes that one would have.
held :
    (limit : ℕ) (bytes : List ℕ) (o : Option BlobBuffer)
    → Ends limit o
    → Holding bytes o
    → (b : BlobBuffer) × (o ≡ some b) × (b.bytes ≡ bytes)
held limit bytes o (b, e, within) holding = (b, e, subst (Holding bytes) e holding)

module _ (p : LoopPrims) (body : Quotation) where
  times_blob-Ends :
      (limit : ℕ) (buf : BlobBuffer)
      → limit + length body.blob.bytes < 2 ^ 60
      → Within limit buf
      → Ends (limit + length body.blob.bytes + 46) (times_blob p body buf)
  unfolding times_blob
  times_blob-Ends n buf few w =
      let size = length body.blob.bytes in
      let three = primitive-Within (n + 4) (n + 6) _ _ (omega arith) (omega arith) (
        primitive-Within (n + 2) (n + 4) _ _ (omega arith) (omega arith)
          (primitive-Within n (n + 2) _ buf (omega arith) (omega arith) w)) in
      Ends-bind (n + 16) _ _ _ (literal-Ends (n + 6) (n + 16) _ _ (omega arith) (omega arith) three)
        λ b₁ w₁.
          Ends-bind (n + 28) _ _ _
            (literal-Ends (n + 18) (n + 28) _ _ (omega arith) (omega arith)
              (primitive-Within (n + 16) (n + 18) _ b₁ (omega arith) (omega arith) w₁))
            λ b₂ w₂.
              Ends-bind (n + 32 + size) _ _ _
                (bytes-Ends (n + 32) (n + 32 + size) _ body.blob.bytes (omega arith) (omega arith) (
                  primitive-Within (n + 30) (n + 32) _ _ (omega arith) (omega arith)
                    (primitive-Within (n + 28) (n + 30) _ b₂ (omega arith) (omega arith) w₂)))
                λ b₃ w₃.
                  Ends-bind (n + 44 + size) _ _ _
                    (literal-Ends (n + 34 + size) (n + 44 + size) _ _ (omega arith) (omega arith) (
                      primitive-Within (n + 32 + size) (n + 34 + size) _ b₃ (omega arith)
                        (omega arith) w₃))
                    λ b₄ w₄. (
                      _,
                      refl,
                      primitive-Within (n + 44 + size) _ _ b₄ (omega arith) (omega arith) w₄,
                    )

  -- With a compiled body, and primitives whose numbers have 15 digits and are not 0, on a valid
  -- blob buffer of fewer than 2 ^ 60 bytes with the body's: the cells that a counted loop leaves
  -- are those before and the loop's, where the branch out skips the body and six more to the rdrop,
  -- and the branch back goes to the test. The blob is written; its bytes are those before and the
  -- loop's items, one for each cell: the primitive of each call, and the same number for each
  -- offset.
  pub times_code-eq :
      (compiled : IsCompiled body)
      → IsPrimId p.tor.prim_id
      → IsPrimId p.fromr.prim_id
      → IsPrimId p.rfetch.prim_id
      → IsPrimId p.rdrop.prim_id
      → IsPrimId p.sub.prim_id
      → IsPrimId p.zbranch.prim_id
      → IsPrimId p.branch.prim_id
      → (cells : CellBuffer) (blob : BlobBuffer) → IsValid blob
      → length blob.bytes + length body.blob.bytes < 2 ^ 60
      → ((times_cells p body cells).cells
          ≡ cells.cells ++ times_list p body compiled.cells compiled.in_cells)
        × ((b : BlobBuffer) × (times_blob p body blob ≡ some b)
            × (b.bytes ≡ blob.bytes ++ blob_of (times_items p body compiled)))
        × Mirrors (times_list p body compiled.cells compiled.in_cells) (times_items p body compiled)
  times_code-eq compiled tor fromr rfetch rdrop sub zbranch branch cells blob ok few = (
    times_cells-eq p body compiled.cells compiled.in_cells cells,
    held _ _ _ (times_blob-Ends (length blob.bytes) blob few (ok, omega arith))
        (times_blob-Holding p body compiled tor fromr rfetch rdrop sub zbranch branch blob),
    times_items-Mirrors p body compiled tor fromr rfetch rdrop sub zbranch branch,
  )

module _ (zbranch : DictEntry) (body condition : Quotation) where
  until_blob-Ends :
      (limit : ℕ) (buf : BlobBuffer)
      → limit + length body.blob.bytes + length condition.blob.bytes < 2 ^ 60
      → Within limit buf
      → Ends
          (limit + length body.blob.bytes + length condition.blob.bytes + 12)
          (until_blob zbranch body condition buf)
  unfolding until_blob
  until_blob-Ends n buf few w =
      let size = length body.blob.bytes in
      let more = length condition.blob.bytes in
      Ends-bind (n + size) _ _ _
        (bytes-Ends n (n + size) buf body.blob.bytes (omega arith) (omega arith) w)
        λ b₁ w₁.
          Ends-bind (n + size + more) _ _ _
            (bytes-Ends (n + size) _ b₁ condition.blob.bytes (omega arith) (omega arith) w₁)
            λ b₂ w₂.
              literal-Ends (n + size + more + 2) _ _ _ (omega arith) (omega arith)
                (primitive-Within (n + size + more) _ _ b₂ (omega arith) (omega arith) w₂)

  -- With a compiled body and condition, and a number of 0branch that has 15 digits and is not 0, on
  -- a valid blob buffer of fewer than 2 ^ 60 bytes with theirs: the cells that the other loop
  -- leaves are those before, the two without their EXIT, and a branch back to the body. The blob is
  -- written; its bytes are those before and the loop's items, one for each cell: those of the two,
  -- 0branch, and the same number for the branch back.
  pub until_code-eq :
      (compiled : IsCompiled body) (tested : IsCompiled condition)
      → IsPrimId zbranch.prim_id
      → (cells : CellBuffer) (blob : BlobBuffer) → IsValid blob
      → length blob.bytes + length body.blob.bytes + length condition.blob.bytes < 2 ^ 60
      → ((until_cells zbranch body condition cells).cells
          ≡ cells.cells
            ++ until_list zbranch body condition compiled.cells tested.cells compiled.in_cells
                tested.in_cells)
        × ((b : BlobBuffer) × (until_blob zbranch body condition blob ≡ some b)
            × (b.bytes
                ≡ blob.bytes ++ blob_of (until_items zbranch body condition compiled tested)))
        × Mirrors
            (until_list zbranch body condition compiled.cells tested.cells compiled.in_cells
              tested.in_cells)
            (until_items zbranch body condition compiled tested)
  until_code-eq compiled tested numbered cells blob ok few = (
    until_cells-eq zbranch body condition compiled.cells tested.cells compiled.in_cells
        tested.in_cells cells,
    held _ _ _ (until_blob-Ends (length blob.bytes) blob few (ok, omega arith))
        (until_blob-Holding zbranch body condition compiled tested numbered blob),
    until_items-Mirrors zbranch body condition compiled tested numbered,
  )
