-- ===== src/Dictionary/Best.antt =====
-- src/dictionary.c: `dict_lookup_typed` returns a best match.
use march.Prelude.{
  ℕ, ◌≤◌, ◌<◌, ◌≡◌, refl, true, ◌⊎◌, inl, inr, Option, none, some, List, [], ◌∷◌, arith, ltb, ◌==◌,
  Bool-cases, Option-cases, ◌&&◌, ◌>>=◌, bytes_eq,
}
use march.Dictionary.{
  DictEntry, Dictionary, match_score, better, consider, best_loop, dict_lookup_typed,
}
use march.Dictionary.Chains.{Holds, dict_lookup_typed-eq}

-- A score and priority that do not beat the choice: less, or as much with no higher priority. No
-- choice is beaten by any score.
abbrev pub Below : Option (DictEntry × ℕ) → ℕ → ℕ → Type 0
Below none score priority = ⊥
Below (some (best, best_score)) score priority =
    (score < best_score) ⊎ ((score ≡ best_score) × (priority ≤ best.priority))

-- A word does not beat the choice, if it has the name and matches at all.
abbrev pub Beaten : List ℕ → List ℕ → Option (DictEntry × ℕ) → DictEntry → Type 0
Beaten name types best entry =
    (score : ℕ)
    → bytes_eq entry.name name ≡ true
    → match_score entry.signature types ≡ some score
    → Below best score entry.priority

-- The choice is a word of the name that matches with its score.
abbrev pub IsCandidate : List ℕ → List ℕ → Option (DictEntry × ℕ) → Type 0
IsCandidate name types none = Unit
IsCandidate name types (some (best, score)) =
    (bytes_eq best.name name ≡ true) × (match_score best.signature types ≡ some score)

abbrev pub All {ℓ κ} : {A : Type ℓ} → (A → Type κ) → List A → Type κ
All P [] = Unit
All P (x ∷ xs) = P x × All P xs

module _ (name types : List ℕ) where
  consider-IsCandidate :
      (entry : DictEntry) (best : Option (DictEntry × ℕ))
      → IsCandidate name types best
      → IsCandidate name types (consider name types entry best)
  unfolding consider better
  consider-IsCandidate entry none h = ground arith
  consider-IsCandidate entry (some (b, s)) h = ground arith

  Below-better :
      (entry : DictEntry) (score t priority : ℕ) (best : Option (DictEntry × ℕ))
      → Below best t priority
      → Below (better entry score best) t priority
  unfolding better
  Below-better entry score t priority none h = absurd h
  Below-better entry score t priority (some (b, s)) h = elim (Bool-cases (ltb s score)) [
    | inl more ↦ rw more (ground arith)
    | inr less ↦ rw less (elim (Bool-cases (score == s && ltb b.priority entry.priority)) [
      | inl tie ↦ rw tie (ground arith)
      | inr keep ↦ rw keep h
    ])
  ]

  Below-better_self :
      (entry : DictEntry) (score : ℕ) (best : Option (DictEntry × ℕ))
      → Below (better entry score best) score entry.priority
  unfolding better
  Below-better_self entry score none = inr (refl, omega arith)
  Below-better_self entry score (some (b, s)) = elim (Bool-cases (ltb s score)) [
    | inl more ↦ rw more (ground arith)
    | inr less ↦ rw less (elim (Bool-cases (score == s && ltb b.priority entry.priority)) [
      | inl tie ↦ rw tie (ground arith)
      | inr keep ↦ rw keep (ground arith)
    ])
  ]

  consider-Beaten :
      (entry other : DictEntry) (best : Option (DictEntry × ℕ))
      → Beaten name types best other
      → Beaten name types (consider name types entry best) other
  unfolding consider
  consider-Beaten entry other best h t same e = elim (Bool-cases (bytes_eq entry.name name)) [
    | inl own ↦ rw own (elim (Option-cases (match_score entry.signature types)) [
      | inl no_match ↦ rw no_match (h t same e)
      | inr (score, q) ↦ rw q (Below-better entry score t other.priority best (h t same e))
    ])
    | inr apart ↦ rw apart (h t same e)
  ]

  consider_self :
      (entry : DictEntry) (best : Option (DictEntry × ℕ))
      → Beaten name types (consider name types entry best) entry
  unfolding consider
  consider_self entry best t same e = rw (same, e) (Below-better_self entry t best)

  best_loop-IsCandidate :
      (best : Option (DictEntry × ℕ)) (words : List DictEntry)
      → IsCandidate name types best
      → IsCandidate name types (best_loop name types best words)
  unfolding best_loop
  best_loop-IsCandidate best [] h = h
  best_loop-IsCandidate best (entry ∷ words) h =
      best_loop-IsCandidate (consider name types entry best) words
        (consider-IsCandidate entry best h)

  best_loop-kept :
      (best : Option (DictEntry × ℕ)) (other : DictEntry) (words : List DictEntry)
      → Beaten name types best other
      → Beaten name types (best_loop name types best words) other
  unfolding best_loop
  best_loop-kept best other [] h = h
  best_loop-kept best other (entry ∷ words) h =
      best_loop-kept (consider name types entry best) other words
        (consider-Beaten entry other best h)

  best_loop-Beaten :
      (best : Option (DictEntry × ℕ)) (words : List DictEntry)
      → All (Beaten name types (best_loop name types best words)) words
  unfolding best_loop
  best_loop-Beaten best [] = tt
  best_loop-Beaten best (entry ∷ words) = (
    best_loop-kept (consider name types entry best) entry words (consider_self entry best),
    best_loop-Beaten (consider name types entry best) words,
  )

-- What a lookup found is best.
abbrev pub Chosen : List ℕ → List ℕ → List DictEntry → Option DictEntry → Type 0
Chosen name types words none = All (Beaten name types none) words
Chosen name types words (some best) =
    (score : ℕ) × IsCandidate name types (some (best, score))
    × All (Beaten name types (some (best, score))) words

-- Where the table holds `words`, a typed lookup that finds a word finds one of that name whose
-- signature matches the stack, and no word of the table with that name beats it by score, or by
-- priority at the same score. A lookup that finds none means that no word of the name matches.
pub dict_lookup_typed-Chosen :
    (words : List DictEntry) (dict : Dictionary) (name types : List ℕ)
    → Holds words dict
    → Chosen name types words (dict_lookup_typed dict name types)
dict_lookup_typed-Chosen words dict name types h =
    rw (dict_lookup_typed-eq words dict name types h) (
      go (best_loop name types none words) (best_loop-IsCandidate name types none words tt)
        (best_loop-Beaten name types none words))
  where
    go :
        (r : Option (DictEntry × ℕ))
        → IsCandidate name types r
        → All (Beaten name types r) words
        → Chosen name types words (r >>= λ b. some b.0)
    go none c all = all
    go (some (b, s)) c all = (s, c, all)
