-- ===== src/Prelude/Reverse.antt =====
-- A list reversed onto another, and the end of a list as the start of its reverse.
use Prim.Native.Nat.{◌+◌, ◌-◌}
use mathlib.Core.Path.{◌≡◌, refl, sym, ap, ◌∙◌}
use mathlib.Core.List.{List, [], ◌∷◌, ◌++◌}
use native.Mathlib.Omega.{arith}
use march.Prelude.Lists.{length, drop}

module _ {ℓ} {A : Type ℓ} where
  abbrev pub reverse_onto : List A → List A → List A
  reverse_onto [] ys = ys
  reverse_onto (x ∷ xs) ys = reverse_onto xs (x ∷ ys)

  pub reverse_onto-append :
      (xs ys zs : List A) → reverse_onto xs (ys ++ zs) ≡ reverse_onto xs ys ++ zs
  reverse_onto-append [] ys zs = refl
  reverse_onto-append (x ∷ xs) ys zs = reverse_onto-append xs (x ∷ ys) zs

  pub reverse_onto-split :
      (xs ys zs : List A) → reverse_onto (xs ++ ys) zs ≡ reverse_onto ys (reverse_onto xs zs)
  reverse_onto-split [] ys zs = refl
  reverse_onto-split (x ∷ xs) ys zs = reverse_onto-split xs ys (x ∷ zs)

  pub reverse_onto-twice :
      (xs ys zs : List A) → reverse_onto (reverse_onto xs ys) zs ≡ reverse_onto ys (xs ++ zs)
  reverse_onto-twice [] ys zs = refl
  reverse_onto-twice (x ∷ xs) ys zs = reverse_onto-twice xs (x ∷ ys) zs

  pub length-reverse_onto : (xs ys : List A) → length (reverse_onto xs ys) ≡ length xs + length ys
  length-reverse_onto [] ys = omega arith
  length-reverse_onto (x ∷ xs) ys = omega (arith, length-reverse_onto xs (x ∷ ys))

  drop-append_length : (xs ys : List A) → drop (length xs) (xs ++ ys) ≡ ys
  drop-append_length [] ys = refl
  drop-append_length (x ∷ xs) ys = drop-append_length xs ys

  pub append-empty : (xs : List A) → xs ++ [] ≡ xs
  append-empty [] = refl
  append-empty (x ∷ xs) = ap (◌∷◌ x) (append-empty xs)

  pub length-append_drop : (top rest : List A) → length (top ++ rest) - length top ≡ length rest
  length-append_drop [] rest = omega arith
  length-append_drop (x ∷ top) rest = omega (arith, length-append_drop top rest)

  -- The last `length top` elements of a reversed list are the first ones, reversed.
  pub drop-reverse_onto :
      (top rest : List A) → drop (length rest) (reverse_onto (top ++ rest) []) ≡ reverse_onto top []
  drop-reverse_onto top rest =
      let split = reverse_onto-split top rest [] in
      let apart = reverse_onto-append rest [] (reverse_onto top []) in
      let count : length (reverse_onto rest []) ≡ length rest =
        omega (arith, length-reverse_onto rest []) in
      rw (split, apart, sym count) (drop-append_length (reverse_onto rest []) (reverse_onto top []))

  pub reverse_onto-back : (xs : List A) → reverse_onto (reverse_onto xs []) [] ≡ xs
  reverse_onto-back xs = reverse_onto-twice xs [] [] ∙ append-empty xs
