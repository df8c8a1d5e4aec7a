-- ===== src/Blob.antt =====
-- src/cells.c: the byte buffer of compiled blobs, the encoding of references and literals into it,
-- and the decoding that the loader does. A CID is a list of 32 bytes, an `int64_t` its bit pattern.
-- `none` is what C leaves undefined: a read past the end of a blob, or a loop that does not end.
pub mod Codec
pub mod Decoding
pub mod Buffer
mod Examples
use march.Prelude.{
  ℕ, zero, suc, ◌+◌, ◌-◌, ◌*◌, ◌/◌, ◌%◌, ◌^◌, bit_and, bit_or, Bool, true, false, Option, none,
  some, List, [], ◌∷◌, ◌++◌, ltb, ◌==◌, if◌then◌else◌, ◌>>=◌, length,
}

-- src/types.h: CID_SIZE and PRIM_LIT.
abbrev pub cid_size : ℕ
cid_size = 32

abbrev pub prim_lit : ℕ
prim_lit = 0

-- src/types.h: BLOB_PRIMITIVE, BLOB_WORD, BLOB_QUOTATION and BLOB_DATA.
abbrev pub blob_primitive : ℕ
blob_primitive = 0

abbrev pub blob_word : ℕ
blob_word = 1

abbrev pub blob_quotation : ℕ
blob_quotation = 2

abbrev pub blob_data : ℕ
blob_data = 3

-- The first `size` bytes of the array are the list.
pub record BlobBuffer : Type 0 where
  pub bytes : List ℕ
  pub capacity : ℕ

unfoldable pub blob_buffer_create : BlobBuffer
blob_buffer_create = record { bytes = []; capacity = 256 }

pub blob_buffer_clear : BlobBuffer → BlobBuffer
blob_buffer_clear buf = record buf { bytes = [] }

unfoldable pub blob_buffer_append_u16 : BlobBuffer → ℕ → BlobBuffer
blob_buffer_append_u16 buf value = record {
  bytes = buf.bytes ++ bit_and value 0xff ∷ bit_and (value / 2 ^ 8) 0xff ∷ [];
  capacity =
      if ltb buf.capacity (length buf.bytes + 2) then buf.capacity * 2 % 2 ^ 64 else buf.capacity;
}

-- The `while` that doubles the capacity until `need` bytes fit.
pub grow : ℕ → ℕ → ℕ → Option ℕ
grow zero need capacity = none
grow (suc fuel) need capacity =
    let more = grow fuel need (capacity * 2 % 2 ^ 64) in
    if ltb capacity need then more else some capacity

-- Sixty-four doublings take a capacity that is not 0 past every size.
unfoldable pub blob_buffer_append_bytes : BlobBuffer → List ℕ → Option BlobBuffer
unfolding grow
blob_buffer_append_bytes buf new =
    grow 65 (length buf.bytes + length new) buf.capacity >>= λ capacity.
    some (record { bytes = buf.bytes ++ new; capacity = capacity })

unfoldable pub encode_primitive : BlobBuffer → ℕ → BlobBuffer
unfolding blob_buffer_append_u16
encode_primitive buf prim_id = blob_buffer_append_u16 buf (bit_or (prim_id * 2 ^ 1 % 2 ^ 16) 0)

unfoldable pub encode_cid_ref : BlobBuffer → ℕ → List ℕ → Option BlobBuffer
unfolding blob_buffer_append_u16 blob_buffer_append_bytes
encode_cid_ref buf kind cid =
    blob_buffer_append_bytes (blob_buffer_append_u16 buf (bit_or (kind * 2 ^ 1 % 2 ^ 16) 1)) cid

-- `(value >> (i * 8)) & 0xFF` for `n` bytes.
unfoldable pub value_bytes : ℕ → ℕ → List ℕ
value_bytes zero value = []
value_bytes (suc n) value = bit_and value 0xff ∷ value_bytes n (value / 2 ^ 8)

unfoldable pub encode_inline_literal : BlobBuffer → ℕ → Option BlobBuffer
unfolding blob_buffer_append_u16 blob_buffer_append_bytes value_bytes
encode_inline_literal buf value =
    blob_buffer_append_bytes (blob_buffer_append_u16 buf (prim_lit * 2 ^ 1)) (value_bytes 8 value)

-- What `decode_tag_ex` stores through its pointers: the bytes that `cid` points to are the CID, the
-- literal's bytes, or none.
pub record Tag : Type 0 where
  pub is_cid : Bool
  pub id_or_kind : ℕ
  pub cid : List ℕ

-- The bytes behind a pointer, and the pointer past them.
pub read_bytes : ℕ → List ℕ → Option (List ℕ × List ℕ)
read_bytes zero ptr = some ([], ptr)
read_bytes (suc n) [] = none
read_bytes (suc n) (b ∷ ptr) = read_bytes n ptr >>= λ r. some (b ∷ r.0, r.1)

pub decode_payload : ℕ → List ℕ → Option (Tag × List ℕ)
unfolding read_bytes
decode_payload tag ptr =
    if bit_and tag 1 == 0
    then (if tag / 2 ^ 1 == prim_lit
        then (read_bytes 8 ptr >>= λ r.
            some (record { is_cid = false; id_or_kind = tag / 2 ^ 1; cid = r.0 }, r.1))
        else some (record { is_cid = false; id_or_kind = tag / 2 ^ 1; cid = [] }, ptr))
    else (read_bytes cid_size ptr >>= λ r.
        some (record { is_cid = true; id_or_kind = tag / 2 ^ 1; cid = r.0 }, r.1))

pub decode_tag_ex : List ℕ → Option (Tag × List ℕ)
unfolding decode_payload
decode_tag_ex [] = none
decode_tag_ex (b ∷ []) = none
decode_tag_ex (b₀ ∷ b₁ ∷ ptr) = decode_payload (bit_or b₀ (b₁ * 2 ^ 8)) ptr
