-- ===== src/Compiler/Mirror/Bytes.antt =====
-- src/cells.c: what the encoders leave in the blob, if they return.
use mathlib.Core.List.{append_assoc}
use mathlib.Core.Path.{subst}
use march.Prelude.{
  ℕ, ◌+◌, ◌*◌, ◌^◌, ◌<◌, ◌≡◌, refl, ◌∙◌, ap, Option, none, some, List, ◌++◌, ◌>>=◌, length,
}
use march.Blob.{
  BlobBuffer, encode_primitive, encode_cid_ref, encode_inline_literal, blob_buffer_append_u16,
  blob_buffer_append_bytes, value_bytes, grow,
}
use march.Blob.Codec.{
  primitive, cid_ref, literal, item_bytes, tag_bytes, u16_bytes, odd_tag, even_tag,
}

-- A buffer, if there is one, has these bytes.
abbrev pub Holding : List ℕ → Option BlobBuffer → Type 0
Holding bytes none = Unit
Holding bytes (some b) = b.bytes ≡ bytes

pub Holding-bind :
    (bytes bytes' : List ℕ) (o : Option BlobBuffer) (f : BlobBuffer → Option BlobBuffer)
    → Holding bytes o
    → ((b : BlobBuffer) → b.bytes ≡ bytes → Holding bytes' (f b))
    → Holding bytes' (o >>= f)
Holding-bind bytes bytes' none f h k = tt
Holding-bind bytes bytes' (some b) f h k = k b h

pub append_bytes-Holding :
    (buf : BlobBuffer) (new : List ℕ)
    → Holding (buf.bytes ++ new) (blob_buffer_append_bytes buf new)
unfolding blob_buffer_append_bytes
append_bytes-Holding buf new = go (grow 65 (length buf.bytes + length new) buf.capacity)
  where
    go :
        (o : Option ℕ)
        → Holding
            (buf.bytes ++ new)
            (o >>= λ capacity. some (record { bytes = buf.bytes ++ new; capacity = capacity }))
    go none = tt
    go (some capacity) = refl

pub primitive-bytes :
    (buf : BlobBuffer) (id : ℕ)
    → id < 2 ^ 15
    → (encode_primitive buf id).bytes ≡ buf.bytes ++ item_bytes (primitive id)
unfolding encode_primitive
primitive-bytes buf id fits = rw (even_tag, fits) (u16_bytes buf (id * 2))

pub cid_ref-Holding :
    (buf : BlobBuffer) (kind : ℕ) (cid : List ℕ)
    → kind < 2 ^ 15
    → Holding (buf.bytes ++ item_bytes (cid_ref kind cid)) (encode_cid_ref buf kind cid)
unfolding encode_cid_ref
cid_ref-Holding buf kind cid fits =
    rw (odd_tag, fits)
      (let tagged = blob_buffer_append_u16 buf (kind * 2 + 1) in
        let e : tagged.bytes ++ cid ≡ buf.bytes ++ (tag_bytes (kind * 2 + 1) ++ cid) =
          ap (λ (t : List ℕ). t ++ cid) (u16_bytes buf (kind * 2 + 1))
          ∙ append_assoc buf.bytes (tag_bytes (kind * 2 + 1)) cid in
        subst (λ t. Holding t (blob_buffer_append_bytes tagged cid)) e
          (append_bytes-Holding tagged cid))

pub literal-Holding :
    (buf : BlobBuffer) (value : ℕ)
    → Holding (buf.bytes ++ item_bytes (literal value)) (encode_inline_literal buf value)
unfolding encode_inline_literal
literal-Holding buf value =
    let tagged = blob_buffer_append_u16 buf 0 in
    let new = value_bytes 8 value in
    let e : tagged.bytes ++ new ≡ buf.bytes ++ (tag_bytes 0 ++ new) =
      ap (λ (t : List ℕ). t ++ new) (u16_bytes buf 0) ∙ append_assoc buf.bytes (tag_bytes 0) new in
    subst (λ t. Holding t (blob_buffer_append_bytes tagged new)) e (append_bytes-Holding tagged new)
