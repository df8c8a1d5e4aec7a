-- ===== src/Prelude/Bits.antt =====
-- `&` and `|` at variables, as equations for the lowest digit, and what follows for masks.
use Prim.Native.Nat.{
  ℕ, zero, suc, ◌+◌, ◌-◌, ◌*◌, ◌/◌, ◌%◌, ◌^◌, ◌≤◌, ◌<◌, min, max, digits, bit_and, bit_or,
  bit_and-bitwise, bit_or-bitwise,
}
use mathlib.Core.Path.{◌≡◌, refl, ap, ◌∙◌}
use native.Mathlib.Nat.{pow-suc, one-le-pow, div-add-mod', div-div-eq-div-mul}
use native.Mathlib.Omega.{arith}

module _ (zero_case : ℕ → ℕ) (op : ℕ → ℕ → ℕ) where
  -- Once the fuel is enough, more of it changes nothing: by one, and by any number.
  one_more :
      (fuel x y : ℕ) → x ≤ fuel → digits zero_case op (suc fuel) x y ≡ digits zero_case op fuel x y
  one_more zero zero y low = refl
  one_more (suc fuel) zero y low = refl
  one_more (suc fuel) (suc x) y low = rw (one_more fuel (suc x / 2) (y / 2) (omega arith))
  one_more zero (suc x) y low = absurd (omega arith)

  more_fuel :
      (extra total fuel x y : ℕ)
      → total ≡ fuel + extra
      → x ≤ fuel
      → digits zero_case op total x y ≡ digits zero_case op fuel x y
  more_fuel zero total fuel x y e low = ap (λ (n : ℕ). digits zero_case op n x y) (omega (arith, e))
  more_fuel (suc extra) zero fuel x y e low = absurd (omega arith)
  more_fuel (suc extra) (suc total) fuel x y e low =
      one_more total x y (omega arith) ∙ more_fuel extra total fuel x y (omega arith) low

  half_fuel :
      (a b : ℕ)
      → digits zero_case op a (suc a / 2) b ≡ digits zero_case op (suc a / 2) (suc a / 2) b
  half_fuel a b = more_fuel (a - suc a / 2) a (suc a / 2) (suc a / 2) b (omega arith) (omega arith)

-- The lowest digit of a conjunction, and of a disjunction, and the rest.
pub bit_and_step : (a b : ℕ) → bit_and a b ≡ bit_and (a / 2) (b / 2) * 2 + min (a % 2) (b % 2)
bit_and_step (suc a) b = omega (
  arith,
  half_fuel (λ _. zero) min a (b / 2),
  bit_and-bitwise (suc a) b,
  bit_and-bitwise (suc a / 2) (b / 2),
)
bit_and_step zero b = omega (arith, bit_and-bitwise 0 b, bit_and-bitwise 0 (b / 2))

pub bit_or_step : (a b : ℕ) → bit_or a b ≡ bit_or (a / 2) (b / 2) * 2 + max (a % 2) (b % 2)
bit_or_step (suc a) b = omega (
  arith,
  half_fuel (λ y. y) max a (b / 2),
  bit_or-bitwise (suc a) b,
  bit_or-bitwise (suc a / 2) (b / 2),
)
bit_or_step zero b = omega (arith, bit_or-bitwise 0 b, bit_or-bitwise 0 (b / 2))

-- Induction from `n / 2` to `n`.
half_induction :
    (P : ℕ → Type 0) → P 0 → ((n : ℕ) → P (n / 2) → P n) → (fuel n : ℕ) → n ≤ fuel → P n
half_induction P base step fuel zero h = base
half_induction P base step zero (suc n) h = absurd (omega arith)
half_induction P base step (suc fuel) (suc n) h =
    step (suc n) (half_induction P base step fuel (suc n / 2) (omega arith))

pub bit_or-zero : (a : ℕ) → bit_or a 0 ≡ a
bit_or-zero a =
    half_induction (λ n. bit_or n 0 ≡ n) refl (λ n ih. omega (arith, bit_or_step n 0)) a a
      (omega arith)

pub bit_and-zero : (a : ℕ) → bit_and a 0 ≡ 0
bit_and-zero a =
    half_induction (λ n. bit_and n 0 ≡ 0) refl (λ n ih. omega (arith, bit_and_step n 0)) a a
      (omega arith)

ones_half : (w : ℕ) → (2 ^ suc w - 1) / 2 ≡ 2 ^ w - 1
ones_half w = omega (arith, pow-suc 2 w, one-le-pow w 2 (omega arith))

-- A mask of one more digit keeps the lowest one.
pub bit_and-ones_suc :
    (w a : ℕ) → bit_and a (2 ^ suc w - 1) ≡ bit_and (a / 2) (2 ^ w - 1) * 2 + a % 2
bit_and-ones_suc w a =
    ground (arith, bit_and_step a (2 ^ suc w - 1), ones_half w, pow-suc 2 w, one-le-pow w 2)

-- A mask of `w` ones keeps the low `w` digits: all of a number below `2 ^ w`.
pub bit_and_ones : (w a : ℕ) → a < 2 ^ w → bit_and a (2 ^ w - 1) ≡ a
bit_and_ones zero a h = rw bit_and-zero (omega arith)
bit_and_ones (suc w) a h =
    let fits : a / 2 < 2 ^ w = omega (arith, pow-suc 2 w) in
    omega (arith, bit_and-ones_suc w a, bit_and_ones w (a / 2) fits)

-- A remainder by a product, digit by digit.
pub mod-mul : (x n k : ℕ) → x % (n * k) ≡ x % n + x / n % k * n
mod-mul x n k = omega (
  arith,
  div-add-mod' x n,
  div-add-mod' x (n * k),
  ap (λ (t : ℕ). t * n) (div-add-mod' (x / n) k),
  ap (λ (t : ℕ). t * (n * k)) (div-div-eq-div-mul x n k),
)

-- A mask of `w` ones is the remainder by `2 ^ w`.
pub bit_and-mask : (w a : ℕ) → bit_and a (2 ^ w - 1) ≡ a % 2 ^ w
bit_and-mask zero a = rw bit_and-zero (omega arith)
bit_and-mask (suc w) a =
    let e : a % 2 ^ suc w ≡ a % (2 * 2 ^ w) = ap (λ (t : ℕ). a % t) (omega (arith, pow-suc 2 w)) in
    omega (arith, e, bit_and-ones_suc w a, mod-mul a 2 (2 ^ w), bit_and-mask w (a / 2))

pub zero-bit_or : (b : ℕ) → bit_or 0 b ≡ b
zero-bit_or b = omega (arith, bit_or-bitwise 0 b)

-- Bits that do not overlap add up.
pub bit_or-disjoint : (k q r : ℕ) → r < 2 ^ k → bit_or r (q * 2 ^ k) ≡ r + q * 2 ^ k
bit_or-disjoint zero q zero h = omega (arith, zero-bit_or (q * 2 ^ 0))
bit_or-disjoint zero q (suc r) h = absurd (omega arith)
bit_or-disjoint (suc k) q r h =
    let double : q * 2 ^ suc k ≡ q * 2 ^ k * 2 =
      omega (arith, ap (λ (t : ℕ). q * t) (pow-suc 2 k)) in
    let half : r / 2 < 2 ^ k = omega (arith, pow-suc 2 k) in
    let e : q * 2 ^ suc k / 2 ≡ q * 2 ^ k = omega (arith, double) in
    ground (arith, bit_or_step r (q * 2 ^ suc k), double, e, bit_or-disjoint k q (r / 2) half)
