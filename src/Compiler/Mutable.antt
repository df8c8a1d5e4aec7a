-- ===== src/Compiler/Mutable.antt =====
-- src/compiler.c and src/dictionary.c: the case of `apply_signature` for a mutable array or string
-- where an immutable one is expected.
use march.Prelude.{ℕ, ◌-◌, ◌≡◌, false, inl, inr, some, List, [], ◌∷◌, arith, length, drop}
use march.Dictionary.{TypeSig, match_score}
use march.Dictionary.Score.{Assignment, Fits, AllFit, AllKnown, match_score-AllFit}
use march.Compiler.Typing.{compatible}

-- At no place is a mutable type given where the immutable one is expected.
abbrev pub NoneCompatible : List ℕ → List ℕ → Type 0
NoneCompatible [] types = Unit
NoneCompatible (input ∷ inputs) [] = Unit
NoneCompatible (input ∷ inputs) (type ∷ types) =
    (compatible input type ≡ false) × NoneCompatible inputs types

Fits-compatible :
    (σ : Assignment) (input type : ℕ) → Fits σ input type → compatible input type ≡ false
Fits-compatible σ input type (inl (var, own)) = ground arith
Fits-compatible σ input type (inr (other, inl e)) = ground arith
Fits-compatible σ input type (inr (other, inr e)) = ground arith

AllFit-NoneCompatible :
    (σ : Assignment) (inputs types : List ℕ) → AllFit σ inputs types → NoneCompatible inputs types
AllFit-NoneCompatible σ [] types fit = tt
AllFit-NoneCompatible σ (input ∷ inputs) [] fit = tt
AllFit-NoneCompatible σ (input ∷ inputs) (type ∷ types) (own, fit) =
    (Fits-compatible σ input type own, AllFit-NoneCompatible σ inputs types fit)

-- On a stack of known types, a signature that `match_score` accepts never meets the case of
-- `apply_signature` for a mutable array or string: at no place is `array!` given for `array` or
-- `str!` for `str`.
pub match_score-NoneCompatible :
    (sig : TypeSig) (types : List ℕ) (score : ℕ)
    → AllKnown types
    → match_score sig types ≡ some score
    → NoneCompatible sig.inputs (drop (length types - length sig.inputs) types)
match_score-NoneCompatible sig types score known h =
    let (enough, σ, fit) = match_score-AllFit sig types score known h in
    AllFit-NoneCompatible σ sig.inputs (drop (length types - length sig.inputs) types) fit
