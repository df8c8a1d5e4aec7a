-- ===== src/Hamt/Dense.antt =====
-- src/hamt.c: the compressed slot array of a node, read as an array of 32 places. Each way in
-- which the operations build a new slot array is one write in that array.
use march.Prelude.{
  ℕ, zero, suc, ◌+◌, ◌-◌, ◌^◌, ◌≤◌, ◌<◌, bit_or, ◌≡◌, refl, ap, Option, none, some, arith, ltb,
  ◌==◌, if◌then◌else◌,
}
use march.Hamt.{Slot, Slots, end, cons, slot_at, insert_at, remove_at, replace_at}
use march.Hamt.Bitmap.{
  digit, ones, clear, digit-lt, ones-le, ones-lt, digit-set, ones-set, bit_or-pow-lt, digit-clear,
  ones-clear, clear-lt,
}

unfoldable pub slot_count : Slots → ℕ
slot_count end = 0
slot_count (cons s rest) = suc (slot_count rest)

-- What stands at place `c` of the array that a bitmap and a slot array stand for.
abbrev pub dense : ℕ → Slots → ℕ → Option Slot
dense bitmap slots c = if digit bitmap c == 0 then none else slot_at slots (ones c bitmap)

-- The bitmap has 32 digits, and a one for each slot.
pub record Fits (bitmap : ℕ) (slots : Slots) : Type 0 where
  pub width : bitmap < 2 ^ 32
  pub counted : slot_count slots ≡ ones 32 bitmap

slot_at-insert_at :
    (slots : Slots) (i j : ℕ) (s : Slot)
    → i ≤ slot_count slots
    → slot_at (insert_at slots i s) j
      ≡ (if ltb j i then slot_at slots j else if j == i then some s else slot_at slots (j - 1))
unfolding slot_at insert_at slot_count
slot_at-insert_at slots zero zero s h = ground arith
slot_at-insert_at slots zero (suc j) s h = ground arith
slot_at-insert_at end (suc i) j s h = absurd (omega arith)
slot_at-insert_at (cons t rest) (suc i) zero s h = ground arith
slot_at-insert_at (cons t rest) (suc i) (suc zero) s h =
    ground (arith, slot_at-insert_at rest i zero s (omega arith))
slot_at-insert_at (cons t rest) (suc i) (suc (suc j)) s h =
    ground (arith, slot_at-insert_at rest i (suc j) s (omega arith))

slot_at-remove_at :
    (slots : Slots) (i j : ℕ)
    → slot_at (remove_at slots i) j ≡ (if ltb j i then slot_at slots j else slot_at slots (j + 1))
unfolding slot_at remove_at
slot_at-remove_at end i j = ground arith
slot_at-remove_at (cons t rest) zero j = ground arith
slot_at-remove_at (cons t rest) (suc i) zero = ground arith
slot_at-remove_at (cons t rest) (suc i) (suc j) = ground (arith, slot_at-remove_at rest i j)

slot_at-replace_at :
    (slots : Slots) (i j : ℕ) (s : Slot)
    → i < slot_count slots
    → slot_at (replace_at slots i s) j ≡ (if j == i then some s else slot_at slots j)
unfolding slot_at replace_at slot_count
slot_at-replace_at end i j s h = absurd (omega arith)
slot_at-replace_at (cons t rest) zero zero s h = ground arith
slot_at-replace_at (cons t rest) zero (suc j) s h = ground arith
slot_at-replace_at (cons t rest) (suc i) zero s h = ground arith
slot_at-replace_at (cons t rest) (suc i) (suc j) s h =
    ground (arith, slot_at-replace_at rest i j s (omega arith))

slot_count-insert_at :
    (slots : Slots) (i : ℕ) (s : Slot)
    → i ≤ slot_count slots
    → slot_count (insert_at slots i s) ≡ slot_count slots + 1
unfolding insert_at slot_count
slot_count-insert_at slots zero s h = omega arith
slot_count-insert_at end (suc i) s h = omega arith
slot_count-insert_at (cons t rest) (suc i) s h =
    omega (arith, slot_count-insert_at rest i s (omega arith))

slot_count-remove_at :
    (slots : Slots) (i : ℕ)
    → i < slot_count slots
    → slot_count (remove_at slots i) + 1 ≡ slot_count slots
unfolding remove_at slot_count
slot_count-remove_at end i h = absurd (omega arith)
slot_count-remove_at (cons t rest) zero h = omega arith
slot_count-remove_at (cons t rest) (suc i) h =
    omega (arith, slot_count-remove_at rest i (omega arith))

slot_count-replace_at :
    (slots : Slots) (i : ℕ) (s : Slot) → slot_count (replace_at slots i s) ≡ slot_count slots
unfolding replace_at slot_count
slot_count-replace_at end i s = refl
slot_count-replace_at (cons t rest) zero s = refl
slot_count-replace_at (cons t rest) (suc i) s = ap suc (slot_count-replace_at rest i s)

slot_at-total :
    (slots : Slots) (i : ℕ) → i < slot_count slots → (s : Slot) × (slot_at slots i ≡ some s)
unfolding slot_at slot_count
slot_at-total end i h = absurd (omega arith)
slot_at-total (cons t rest) zero h = (t, refl)
slot_at-total (cons t rest) (suc i) h = slot_at-total rest i (omega arith)

module _ (bitmap c : ℕ) (slots : Slots) (place : c < 32) (fits : Fits bitmap slots) where
  -- A present place holds a slot, so the read of the slot array is in range.
  pub dense-present :
      digit bitmap c ≡ 1
      → (s : Slot) × (slot_at slots (ones c bitmap) ≡ some s) × (dense bitmap slots c ≡ some s)
  dense-present h =
      let (s, e) =
        slot_at-total slots (ones c bitmap) (omega (arith, ones-lt bitmap c 32, fits.counted)) in
      (s, e, ground arith)

  -- `insert_at` with the bit set is a write at a free place.
  pub dense-insert :
      (s : Slot) (i : ℕ)
      → digit bitmap c ≡ 0
      → dense (bit_or bitmap (2 ^ c)) (insert_at slots (ones c bitmap) s) i
        ≡ (if i == c then some s else dense bitmap slots i)
  dense-insert s i h =
      let room : ones c bitmap ≤ slot_count slots =
        omega (arith, ones-le c 32 bitmap, fits.counted) in
      ground (
        arith,
        digit-set bitmap c i,
        ones-set bitmap c i h,
        slot_at-insert_at slots (ones c bitmap) (ones i (bit_or bitmap (2 ^ c))) s room,
        ones-le c i bitmap,
        ones-lt bitmap i c,
        digit-lt bitmap i,
      )

  pub insert-Fits :
      (s : Slot)
      → digit bitmap c ≡ 0
      → Fits (bit_or bitmap (2 ^ c)) (insert_at slots (ones c bitmap) s)
  insert-Fits s h = record {
    width = bit_or-pow-lt 32 bitmap c fits.width place;
    counted = ground (
      arith,
      slot_count-insert_at slots (ones c bitmap) s,
      ones-le c 32 bitmap,
      ones-set bitmap c 32 h,
      fits.counted,
    );
  }

  -- `remove_at` with the bit cleared frees a place.
  pub dense-remove :
      (i : ℕ)
      → digit bitmap c ≡ 1
      → dense (clear 32 bitmap c) (remove_at slots (ones c bitmap)) i
        ≡ (if i == c then none else dense bitmap slots i)
  dense-remove i h = ground (
    arith,
    digit-clear 32 bitmap c i fits.width place,
    ones-clear 32 bitmap c i fits.width place h,
    slot_at-remove_at slots (ones c bitmap) (ones i (clear 32 bitmap c)),
    ones-lt bitmap c i h,
    ones-lt bitmap i c,
    digit-lt bitmap i,
  )

  pub remove-Fits : digit bitmap c ≡ 1 → Fits (clear 32 bitmap c) (remove_at slots (ones c bitmap))
  remove-Fits h = record {
    width = clear-lt 32 bitmap c fits.width place;
    counted = ground (
      arith,
      slot_count-remove_at slots (ones c bitmap),
      ones-lt bitmap c 32 h,
      ones-clear 32 bitmap c 32 fits.width place h,
      fits.counted,
    );
  }

  -- `replace_at` is a write at a place that is taken.
  pub dense-replace :
      (s : Slot) (i : ℕ)
      → digit bitmap c ≡ 1
      → dense bitmap (replace_at slots (ones c bitmap) s) i
        ≡ (if i == c then some s else dense bitmap slots i)
  dense-replace s i h = ground (
    arith,
    slot_at-replace_at slots (ones c bitmap) (ones i bitmap) s,
    ones-lt bitmap c 32 h,
    ones-lt bitmap c i h,
    ones-lt bitmap i c,
    digit-lt bitmap i,
    fits.counted,
  )

  pub replace-Fits : (s : Slot) → Fits bitmap (replace_at slots (ones c bitmap) s)
  replace-Fits s = record {
    width = fits.width;
    counted = ground (arith, slot_count-replace_at slots (ones c bitmap) s, fits.counted);
  }
