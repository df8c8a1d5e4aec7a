-- ===== src/Blob/Buffer.antt =====
-- src/cells.c: the byte buffer grows enough for what is written, and its loop ends.
use native.Mathlib.Nat.{pow-suc}
use march.Prelude.{
  ℕ, zero, suc, ◌+◌, ◌*◌, ◌%◌, ◌^◌, ◌≤◌, ◌<◌, ◌≡◌, refl, ap, some, Bool-cases, inl, inr, List, ◌++◌,
  [], ◌∷◌, arith, ltb, length, length-append, bit_and, ◌/◌,
}
use march.Blob.{
  BlobBuffer, blob_buffer_create, blob_buffer_clear, blob_buffer_append_u16,
  blob_buffer_append_bytes, grow,
}

-- There is room for a tag, and what is there is inside.
pub record IsValid (buf : BlobBuffer) : Type 0 where
  pub some_room : 2 ≤ buf.capacity
  pub inside : length buf.bytes ≤ buf.capacity
  pub bounded : buf.capacity < 2 ^ 64

pub create-IsValid : IsValid blob_buffer_create
unfolding blob_buffer_create
create-IsValid = omega arith

pub clear-IsValid : (buf : BlobBuffer) → IsValid buf → IsValid (blob_buffer_clear buf)
unfolding blob_buffer_clear
clear-IsValid buf ok = omega arith

-- With as many doublings left as it takes, the loop ends with room for `need` bytes.
grow_total :
    (fuel need capacity : ℕ)
    → need < 2 ^ 63
    → 2 ≤ capacity
    → capacity < 2 ^ 64
    → need ≤ capacity * 2 ^ fuel
    → (c : ℕ) × (grow (suc fuel) need capacity ≡ some c) × (need ≤ c) × (2 ≤ c) × (c < 2 ^ 64)
unfolding grow
grow_total zero need capacity small pos bound reach =
    (capacity, ground arith, omega arith, pos, bound)
grow_total (suc fuel) need capacity small pos bound reach = elim (Bool-cases (ltb capacity need)) [
  | inl more ↦
      let below : capacity < need = ground arith in
      let twice : capacity * 2 % 2 ^ 64 ≡ capacity * 2 = omega arith in
      let further : need ≤ capacity * 2 * 2 ^ fuel =
        omega (arith, ap (λ (t : ℕ). capacity * t) (pow-suc 2 fuel)) in
      rw (more, twice)
        (grow_total fuel need (capacity * 2) small (omega arith) (omega arith) further)
  | inr enough ↦ rw enough (capacity, refl, ground arith, pos, bound)
]

module _ (buf : BlobBuffer) (ok : IsValid buf) where
  pub append_u16-IsValid :
      (value : ℕ) → length buf.bytes < 2 ^ 62 → IsValid (blob_buffer_append_u16 buf value)
  unfolding blob_buffer_append_u16
  append_u16-IsValid value few =
      ground
        (arith, length-append buf.bytes (bit_and value 0xff ∷ bit_and (value / 2 ^ 8) 0xff ∷ []))

  -- The loop of `blob_buffer_append_bytes` ends for every size below 2 ^ 63; then the bytes follow
  -- what was there and are inside the buffer.
  pub append_bytes_total :
      (new : List ℕ)
      → length buf.bytes + length new < 2 ^ 63
      → (b : BlobBuffer) × (blob_buffer_append_bytes buf new ≡ some b)
        × (b.bytes ≡ buf.bytes ++ new)
        × IsValid b
  unfolding blob_buffer_append_bytes
  append_bytes_total new few =
      let (c, e, room, pos, bound) =
        grow_total 64 (length buf.bytes + length new) buf.capacity few ok.some_room ok.bounded
          (omega (arith, ok.some_room)) in
      (
        record { bytes = buf.bytes ++ new; capacity = c },
        rw e,
        refl,
        omega (arith, length-append buf.bytes new),
      )
