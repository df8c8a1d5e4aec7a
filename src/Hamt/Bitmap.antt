-- ===== src/Hamt/Bitmap.antt =====
-- src/hamt.c: the digits of a node's bitmap, and what `hamt_popcount`, `hamt_slot_index` and the
-- bit tests of the operations are in terms of them.
use native.Mathlib.Nat.{pow-suc, one-le-pow}
use march.Prelude.{
  ℕ, zero, suc, ◌+◌, ◌-◌, ◌*◌, ◌/◌, ◌%◌, ◌^◌, ◌≤◌, ◌<◌, bit_and, bit_or, ◌≡◌, refl, ◌∙◌, ap, true,
  false, arith, ltb, ◌==◌, if◌then◌else◌,
}
use march.Prelude.Bits.{
  bit_and_step, bit_or_step, bit_or-zero, bit_and-zero, bit_and_ones, bit_and-ones_suc,
}
use march.Hamt.{popcount_loop, popcount, slot_index}

-- The digit of a bitmap at a place.
abbrev pub digit : ℕ → ℕ → ℕ
digit b zero = b % 2
digit b (suc i) = digit (b / 2) i

-- How many of the low `w` digits are ones.
abbrev pub ones : ℕ → ℕ → ℕ
ones zero b = 0
ones (suc w) b = b % 2 + ones w (b / 2)

pub digit-lt : (b i : ℕ) → digit b i < 2
digit-lt b zero = omega arith
digit-lt b (suc i) = digit-lt (b / 2) i

ones-zero : (w : ℕ) → ones w 0 ≡ 0
ones-zero zero = refl
ones-zero (suc w) = omega (arith, ones-zero w)

pub ones-le : (c w b : ℕ) → c ≤ w → ones c b ≤ ones w b
ones-le zero w b h = omega arith
ones-le (suc c) zero b h = absurd (omega arith)
ones-le (suc c) (suc w) b h = omega (arith, ones-le c w (b / 2) (omega arith))

pow_half : (c : ℕ) → 2 ^ suc c / 2 ≡ 2 ^ c
pow_half c = omega (arith, pow-suc 2 c)

pow_even : (c : ℕ) → 2 ^ suc c % 2 ≡ 0
pow_even c = omega (arith, pow-suc 2 c)

-- The test `bitmap & (1 << c)`.
bit_and-pow : (b c : ℕ) → bit_and b (2 ^ c) ≡ digit b c * 2 ^ c
bit_and-pow b zero = omega (arith, bit_and_step b 1, bit_and-zero (b / 2))
bit_and-pow b (suc c) = ground (
  arith,
  bit_and_step b (2 ^ suc c),
  pow_half c,
  pow_even c,
  ap (λ (t : ℕ). digit (b / 2) c * t) (pow-suc 2 c),
  bit_and-pow (b / 2) c,
)

pub absent_test : (b c : ℕ) → digit b c ≡ 0 → (bit_and b (2 ^ c) == 0) ≡ true
absent_test b c h = ground (arith, bit_and-pow b c)

pub present_test : (b c : ℕ) → digit b c ≡ 1 → (bit_and b (2 ^ c) == 0) ≡ false
present_test b c h = ground (arith, bit_and-pow b c, one-le-pow c 2)

-- The counting loop adds the digits up.
popcount_loop-eq : (w b acc : ℕ) → popcount_loop w b acc ≡ acc + ones w b
unfolding popcount_loop
popcount_loop-eq zero b acc = omega arith
popcount_loop-eq (suc w) b acc =
    ground (arith, popcount_loop-eq w (b / 2) (acc + bit_and b 1), bit_and-pow b 0, ones-zero w)

pub popcount-eq-ones : (b : ℕ) → popcount b ≡ ones 32 b
unfolding popcount
popcount-eq-ones b = omega (arith, popcount_loop-eq 32 b 0)

ones-masked : (c w b : ℕ) → c ≤ w → ones w (bit_and b (2 ^ c - 1)) ≡ ones c b
ones-masked zero w b h = rw bit_and-zero (ones-zero w)
ones-masked (suc c) zero b h = absurd (omega arith)
ones-masked (suc c) (suc w) b h =
    let tail : (bit_and (b / 2) (2 ^ c - 1) * 2 + b % 2) / 2 ≡ bit_and (b / 2) (2 ^ c - 1) =
      omega arith in
    rw (bit_and-ones_suc, tail) (omega (arith, ones-masked c w (b / 2) (omega arith)))

-- `hamt_slot_index` at a place below 32 counts the ones of the bitmap below the place.
pub slot_index-eq-ones : (b c : ℕ) → c < 32 → slot_index b c ≡ ones c b
unfolding slot_index
slot_index-eq-ones b c h =
    let place : c % 32 ≡ c = omega arith in
    rw place (popcount-eq-ones (bit_and b (2 ^ c - 1)) ∙ ones-masked c 32 b (omega arith))

-- The two halves of a bitmap with a digit set: the lowest one, or one further up.
set_zero : (b : ℕ) → (bit_or b (2 ^ 0) % 2 ≡ 1) × (bit_or b (2 ^ 0) / 2 ≡ b / 2)
set_zero b = omega (arith, bit_or_step b 1, bit_or-zero (b / 2))

set_suc :
    (b c : ℕ)
    → (bit_or b (2 ^ suc c) % 2 ≡ b % 2) × (bit_or b (2 ^ suc c) / 2 ≡ bit_or (b / 2) (2 ^ c))
set_suc b c =
    let e : bit_or b (2 ^ suc c) ≡ bit_or (b / 2) (2 ^ c) * 2 + b % 2 =
      ground (arith, bit_or_step b (2 ^ suc c), pow_half c, pow_even c) in
    omega arith

pub digit-set : (b c i : ℕ) → digit (bit_or b (2 ^ c)) i ≡ (if i == c then 1 else digit b i)
digit-set b zero zero = ground (arith, set_zero b)
digit-set b zero (suc i) = ground (arith, set_zero b)
digit-set b (suc c) zero = ground (arith, set_suc b c)
digit-set b (suc c) (suc i) = ground (arith, set_suc b c, digit-set (b / 2) c i)

pub ones-set :
    (b c i : ℕ) → digit b c ≡ 0 → ones i (bit_or b (2 ^ c)) ≡ ones i b + (if ltb c i then 1 else 0)
ones-set b zero zero h = ground arith
ones-set b (suc c) zero h = ground arith
ones-set b zero (suc i) h = ground (arith, set_zero b)
ones-set b (suc c) (suc i) h = ground (arith, set_suc b c, ones-set (b / 2) c i h)

pub ones-lt : (b i c : ℕ) → digit b i ≡ 1 → i < c → ones i b < ones c b
ones-lt b i zero d h = absurd (omega arith)
ones-lt b zero (suc c) d h = omega arith
ones-lt b (suc i) (suc c) d h = omega (arith, ones-lt (b / 2) i c d (omega arith))

pub bit_or-pow-lt : (w b c : ℕ) → b < 2 ^ w → c < w → bit_or b (2 ^ c) < 2 ^ w
bit_or-pow-lt zero b c hb hc = absurd (omega arith)
bit_or-pow-lt (suc w) b zero hb hc = omega (arith, set_zero b, pow-suc 2 w)
bit_or-pow-lt (suc w) b (suc c) hb hc =
    let half : b / 2 < 2 ^ w = omega (arith, pow-suc 2 w) in
    omega (arith, set_suc b c, pow-suc 2 w, bit_or-pow-lt w (b / 2) c half (omega arith))

pow_lt : (c w : ℕ) → c < w → 2 ^ c < 2 ^ w
pow_lt c zero h = absurd (omega arith)
pow_lt zero (suc w) h = omega (arith, pow-suc 2 w, one-le-pow w 2 (omega arith))
pow_lt (suc c) (suc w) h = omega (arith, pow-suc 2 w, pow-suc 2 c, pow_lt c w (omega arith))

-- The bitmap with one digit cleared, `bitmap & ~bit`, on `w` digits.
abbrev pub clear : ℕ → ℕ → ℕ → ℕ
clear w b c = bit_and b (2 ^ w - 1 - 2 ^ c)

clear_zero :
    (w b : ℕ) → b < 2 ^ suc w → (clear (suc w) b 0 % 2 ≡ 0) × (clear (suc w) b 0 / 2 ≡ b / 2)
clear_zero w b h =
    let half : b / 2 < 2 ^ w = omega (arith, pow-suc 2 w) in
    let mask : (2 ^ suc w - 1 - 1) / 2 ≡ 2 ^ w - 1 = omega (arith, pow-suc 2 w) in
    let low : (2 ^ suc w - 1 - 1) % 2 ≡ 0 = omega (arith, pow-suc 2 w) in
    let e : clear (suc w) b 0 ≡ b / 2 * 2 =
      ground (arith, bit_and_step b (2 ^ suc w - 1 - 1), mask, low, bit_and_ones w (b / 2) half) in
    omega arith

clear-suc :
    (w b c : ℕ)
    → c < w
    → (clear (suc w) b (suc c) % 2 ≡ b % 2) × (clear (suc w) b (suc c) / 2 ≡ clear w (b / 2) c)
clear-suc w b c h =
    let mask : (2 ^ suc w - 1 - 2 ^ suc c) / 2 ≡ 2 ^ w - 1 - 2 ^ c =
      omega (arith, pow-suc 2 w, pow-suc 2 c, pow_lt c w h) in
    let low : (2 ^ suc w - 1 - 2 ^ suc c) % 2 ≡ 1 =
      omega (arith, pow-suc 2 w, pow-suc 2 c, pow_lt c w h) in
    let e : clear (suc w) b (suc c) ≡ clear w (b / 2) c * 2 + b % 2 =
      ground (arith, bit_and_step b (2 ^ suc w - 1 - 2 ^ suc c), mask, low) in
    omega arith

pub digit-clear :
    (w b c i : ℕ) → b < 2 ^ w → c < w → digit (clear w b c) i ≡ (if i == c then 0 else digit b i)
digit-clear zero b c i hb hc = absurd (omega arith)
digit-clear (suc w) b zero zero hb hc = ground (arith, clear_zero w b hb)
digit-clear (suc w) b zero (suc i) hb hc = ground (arith, clear_zero w b hb)
digit-clear (suc w) b (suc c) zero hb hc = ground (arith, clear-suc w b c (omega arith))
digit-clear (suc w) b (suc c) (suc i) hb hc =
    let half : b / 2 < 2 ^ w = omega (arith, pow-suc 2 w) in
    ground (arith, clear-suc w b c (omega arith), digit-clear w (b / 2) c i half (omega arith))

pub ones-clear :
    (w b c i : ℕ)
    → b < 2 ^ w
    → c < w
    → digit b c ≡ 1
    → ones i (clear w b c) + (if ltb c i then 1 else 0) ≡ ones i b
ones-clear zero b c i hb hc h = absurd (omega arith)
ones-clear (suc w) b zero zero hb hc h = ground arith
ones-clear (suc w) b (suc c) zero hb hc h = ground arith
ones-clear (suc w) b zero (suc i) hb hc h = ground (arith, clear_zero w b hb)
ones-clear (suc w) b (suc c) (suc i) hb hc h =
    let half : b / 2 < 2 ^ w = omega (arith, pow-suc 2 w) in
    ground (arith, clear-suc w b c (omega arith), ones-clear w (b / 2) c i half (omega arith) h)

pub clear-lt : (w b c : ℕ) → b < 2 ^ w → c < w → clear w b c < 2 ^ w
clear-lt zero b c hb hc = absurd (omega arith)
clear-lt (suc w) b zero hb hc = omega (arith, clear_zero w b hb, pow-suc 2 w)
clear-lt (suc w) b (suc c) hb hc =
    let half : b / 2 < 2 ^ w = omega (arith, pow-suc 2 w) in
    omega
      (arith, clear-suc w b c (omega arith), pow-suc 2 w, clear-lt w (b / 2) c half (omega arith))
