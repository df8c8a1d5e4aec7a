-- ===== src/Blob/Codec.antt =====
-- src/cells.c: what an encoder appends, `decode_tag_ex` reads back, whatever follows.
use march.Prelude.{
  ℕ, zero, suc, ◌+◌, ◌*◌, ◌/◌, ◌%◌, ◌^◌, ◌<◌, ◌≡◌, refl, ◌∙◌, ap, true, false, Option, some, List,
  [], ◌∷◌, ◌++◌, arith, length, bit_and, bit_or, length-append,
}
use mathlib.Core.List.{append_assoc}
use march.Prelude.Bits.{bit_and-mask, bit_or-disjoint, bit_or-zero, bit_or_step}
use march.Blob.{
  BlobBuffer, Tag, blob_buffer_append_u16, encode_primitive, encode_cid_ref, encode_inline_literal,
  value_bytes, read_bytes, decode_payload, decode_tag_ex,
}
use march.Blob.Buffer.{IsValid, append_u16-IsValid, append_bytes_total}

-- What stands in a blob.
pub data Item : Type 0 where
  primitive : ℕ → Item
  cid_ref : ℕ → List ℕ → Item
  literal : ℕ → Item

pub encode_item : BlobBuffer → Item → Option BlobBuffer
encode_item buf (primitive id) = some (encode_primitive buf id)
encode_item buf (cid_ref kind cid) = encode_cid_ref buf kind cid
encode_item buf (literal value) = encode_inline_literal buf value

-- Identifiers have 15 bits, and 0 is the literal's; a CID has 32 bytes, a value 64 bits.
abbrev pub IsEncodable : Item → Type 0
IsEncodable (primitive id) = (0 < id) × (id < 2 ^ 15)
IsEncodable (cid_ref kind cid) = (kind < 2 ^ 15) × (length cid ≡ 32)
IsEncodable (literal value) = value < 2 ^ 64

abbrev pub tag_of : Item → Tag
tag_of (primitive id) = record { is_cid = false; id_or_kind = id; cid = [] }
tag_of (cid_ref kind cid) = record { is_cid = true; id_or_kind = kind; cid = cid }
tag_of (literal value) = record { is_cid = false; id_or_kind = 0; cid = value_bytes 8 value }

abbrev pub tag_bytes : ℕ → List ℕ
tag_bytes tag = tag % 256 ∷ tag / 256 % 256 ∷ []

abbrev pub item_bytes : Item → List ℕ
item_bytes (primitive id) = tag_bytes (id * 2)
item_bytes (cid_ref kind cid) = tag_bytes (kind * 2 + 1) ++ cid
item_bytes (literal value) = tag_bytes 0 ++ value_bytes 8 value

-- The bytes of the items one after the other, as the encoders append them.
abbrev pub blob_of : List Item → List ℕ
blob_of [] = []
blob_of (item ∷ items) = item_bytes item ++ blob_of items

pub u16_bytes :
    (buf : BlobBuffer) (v : ℕ) → (blob_buffer_append_u16 buf v).bytes ≡ buf.bytes ++ tag_bytes v
unfolding blob_buffer_append_u16
u16_bytes buf v = rw (bit_and-mask 8 v, bit_and-mask 8 (v / 256))

pub odd_tag : (kind : ℕ) → kind < 2 ^ 15 → bit_or (kind * 2 ^ 1 % 2 ^ 16) 1 ≡ kind * 2 + 1
odd_tag kind h =
    let e : kind * 2 % 2 ^ 16 ≡ kind * 2 = omega arith in
    ground (arith, e, bit_or_step (kind * 2) 1, bit_or-zero (kind * 2 / 2))

pub even_tag : (id : ℕ) → id < 2 ^ 15 → bit_or (id * 2 ^ 1 % 2 ^ 16) 0 ≡ id * 2
even_tag id h = omega (arith, bit_or-zero (id * 2 % 2 ^ 16))

pub length-value_bytes : (n v : ℕ) → length (value_bytes n v) ≡ n
unfolding value_bytes
length-value_bytes zero v = refl
length-value_bytes (suc n) v = ap suc (length-value_bytes n (v / 2 ^ 8))

read_bytes-append : (bs rest : List ℕ) → read_bytes (length bs) (bs ++ rest) ≡ some (bs, rest)
unfolding read_bytes
read_bytes-append [] rest = refl
read_bytes-append (b ∷ bs) rest = rw (read_bytes-append bs rest)

read_n : (n : ℕ) (bs rest : List ℕ) → length bs ≡ n → read_bytes n (bs ++ rest) ≡ some (bs, rest)
read_n n bs rest e = rw (← e) (read_bytes-append bs rest)

decode_tag_bytes :
    (tag : ℕ) (rest : List ℕ)
    → tag < 2 ^ 16
    → decode_tag_ex (tag_bytes tag ++ rest) ≡ decode_payload tag rest
unfolding decode_tag_ex
decode_tag_bytes tag rest h =
    let e : bit_or (tag % 256) (tag / 256 % 256 * 2 ^ 8) ≡ tag =
      omega (arith, bit_or-disjoint 8 (tag / 256 % 256) (tag % 256) (omega arith)) in
    rw e

-- An encodable item appends its bytes and keeps the buffer valid, below 2 ^ 62 bytes.
pub encode_item_total :
    (buf : BlobBuffer) (item : Item)
    → IsValid buf
    → IsEncodable item
    → length buf.bytes < 2 ^ 61
    → (b : BlobBuffer) × (encode_item buf item ≡ some b)
      × (b.bytes ≡ buf.bytes ++ item_bytes item)
      × IsValid b
unfolding encode_item encode_primitive encode_cid_ref encode_inline_literal
encode_item_total buf (primitive id) ok (pos, fits) few = (
  _,
  refl,
  rw (even_tag, fits) (u16_bytes buf (id * 2)),
  append_u16-IsValid buf ok _ (omega arith),
)
encode_item_total buf (cid_ref kind cid) ok (fits, size) few =
    let tagged = blob_buffer_append_u16 buf (kind * 2 + 1) in
    let bytes = u16_bytes buf (kind * 2 + 1) in
    let (b, e, content, ok') =
      append_bytes_total tagged (append_u16-IsValid buf ok (kind * 2 + 1) (omega arith)) cid
        (omega (arith, ap length bytes, length-append buf.bytes (tag_bytes (kind * 2 + 1)))) in
    (
      b,
      rw (odd_tag, fits) e,
      content
          ∙ ap (λ (t : List ℕ). t ++ cid) bytes
          ∙ append_assoc buf.bytes (tag_bytes (kind * 2 + 1)) cid,
      ok',
    )
encode_item_total buf (literal value) ok fits few =
    let tagged = blob_buffer_append_u16 buf 0 in
    let bytes = u16_bytes buf 0 in
    let new = value_bytes 8 value in
    let (b, e, content, ok') =
      append_bytes_total tagged (append_u16-IsValid buf ok 0 (omega arith)) new (
        omega (
          arith,
          ap length bytes,
          length-append buf.bytes (tag_bytes 0),
          length-value_bytes 8 value,
        )) in
    (
      b,
      e,
      content ∙ ap (λ (t : List ℕ). t ++ new) bytes ∙ append_assoc buf.bytes (tag_bytes 0) new,
      ok',
    )

-- `decode_tag_ex` inverts each encoder.
pub decode-item_bytes :
    (item : Item) (rest : List ℕ)
    → IsEncodable item
    → decode_tag_ex (item_bytes item ++ rest) ≡ some (tag_of item, rest)
unfolding decode_payload
decode-item_bytes (primitive id) rest (pos, fits) =
    decode_tag_bytes (id * 2) rest (omega arith)
    ∙ let low : bit_and (id * 2) 1 ≡ 0 = omega (arith, bit_and-mask 1 (id * 2)) in
      let high : id * 2 / 2 ≡ id = omega arith in rw (low, high) (ground arith)
decode-item_bytes (cid_ref kind cid) rest (fits, size) =
    let low : bit_and (kind * 2 + 1) 1 ≡ 1 = omega (arith, bit_and-mask 1 (kind * 2 + 1)) in
    let high : (kind * 2 + 1) / 2 ≡ kind = omega arith in
    decode_tag_bytes (kind * 2 + 1) (cid ++ rest) (omega arith)
    ∙ rw (low, high, read_n 32 cid rest size) refl
decode-item_bytes (literal value) rest fits =
    decode_tag_bytes 0 (value_bytes 8 value ++ rest) (omega arith)
    ∙ rw (read_n 8 (value_bytes 8 value) rest (length-value_bytes 8 value)) refl
