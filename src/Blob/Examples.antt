-- ===== src/Blob/Examples.antt =====
-- The blob buffer of src/cells.c at concrete inputs.
use march.Prelude.{◌≡◌, refl, some, [], ◌∷◌, ◌++◌, arith, replicate}
use march.Blob.{BlobBuffer, blob_buffer_create, blob_buffer_append_bytes, decode_tag_ex}
use march.Blob.Buffer.{IsValid, append_bytes_total}
use march.Blob.Codec.{
  cid_ref, literal, tag_of, item_bytes, encode_item, encode_item_total, decode-item_bytes,
}

create-IsValid : IsValid blob_buffer_create
unfolding blob_buffer_create
create-IsValid = omega arith

append_bytes_total_example :
    (b : BlobBuffer) × (blob_buffer_append_bytes blob_buffer_create (1 ∷ 2 ∷ 3 ∷ []) ≡ some b)
    × (b.bytes ≡ blob_buffer_create.bytes ++ 1 ∷ 2 ∷ 3 ∷ [])
    × IsValid b
unfolding blob_buffer_create
append_bytes_total_example =
    append_bytes_total blob_buffer_create create-IsValid (1 ∷ 2 ∷ 3 ∷ []) (omega arith)

encode_item_total_example :
    (b : BlobBuffer) × (encode_item blob_buffer_create (literal 300) ≡ some b)
    × (b.bytes ≡ blob_buffer_create.bytes ++ item_bytes (literal 300))
    × IsValid b
unfolding blob_buffer_create
encode_item_total_example =
    encode_item_total blob_buffer_create (literal 300) create-IsValid (omega arith) (omega arith)

decode-item_bytes_example :
    decode_tag_ex (item_bytes (cid_ref 1 (replicate 32 7)) ++ 5 ∷ [])
    ≡ some (tag_of (cid_ref 1 (replicate 32 7)), 5 ∷ [])
decode-item_bytes_example =
    decode-item_bytes (cid_ref 1 (replicate 32 7)) (5 ∷ []) (omega arith, refl)
