-- ===== src/Dictionary/Find.antt =====
-- src/dictionary.c: what holds of every word of the table holds of the word that a typed lookup
-- finds.
use mathlib.Core.Path.{subst}
use march.Prelude.{
  ℕ, sym, Bool, false, true, Option, none, some, List, [], ◌∷◌, ltb, ◌==◌, ◌&&◌, ◌>>=◌, bytes_eq,
  if◌then◌else◌,
}
use march.Dictionary.{
  DictEntry, Dictionary, match_score, better, consider, best_loop, dict_lookup_typed,
}
use march.Dictionary.Chains.{Holds, dict_lookup_typed-eq}
use march.Dictionary.Best.{All}

module _ (P : DictEntry → Type 0) where
  abbrev OfBest : Option (DictEntry × ℕ) → Type 0
  OfBest none = Unit
  OfBest (some (entry, score)) = P entry

  abbrev pub OfFound : Option DictEntry → Type 0
  OfFound none = Unit
  OfFound (some entry) = P entry

  branch-OfBest :
      (b : Bool) (x y : Option (DictEntry × ℕ)) → OfBest x → OfBest y → OfBest (if b then x else y)
  branch-OfBest true x y p q = p
  branch-OfBest false x y p q = q

  better-OfBest :
      (entry : DictEntry) (score : ℕ) (best : Option (DictEntry × ℕ))
      → P entry
      → OfBest best
      → OfBest (better entry score best)
  unfolding better
  better-OfBest entry score none p q = p
  better-OfBest entry score (some (best, best_score)) p q =
      branch-OfBest (ltb best_score score) _ _ p
        (branch-OfBest (score == best_score && ltb best.priority entry.priority) _ _ p q)

  consider-OfBest :
      (name types : List ℕ) (entry : DictEntry) (best : Option (DictEntry × ℕ))
      → P entry
      → OfBest best
      → OfBest (consider name types entry best)
  unfolding consider
  consider-OfBest name types entry best p q =
      branch-OfBest (bytes_eq entry.name name) _ _ (go (match_score entry.signature types)) q
    where
      go : (o : Option ℕ) → OfBest (elim o [ none ↦ best | some score ↦ better entry score best ])
      go none = q
      go (some score) = better-OfBest entry score best p q

  best_loop-OfBest :
      (name types : List ℕ) (best : Option (DictEntry × ℕ)) (words : List DictEntry)
      → OfBest best
      → All P words
      → OfBest (best_loop name types best words)
  unfolding best_loop
  best_loop-OfBest name types best [] q all = q
  best_loop-OfBest name types best (entry ∷ words) q (p, all) =
      best_loop-OfBest name types (consider name types entry best) words
        (consider-OfBest name types entry best p q) all

  pub dict_lookup_typed-OfFound :
      (words : List DictEntry) (dict : Dictionary) (name types : List ℕ)
      → Holds words dict
      → All P words
      → OfFound (dict_lookup_typed dict name types)
  dict_lookup_typed-OfFound words dict name types holds all =
      subst OfFound (sym (dict_lookup_typed-eq words dict name types holds))
        (go (best_loop name types none words) (best_loop-OfBest name types none words tt all))
    where
      go : (b : Option (DictEntry × ℕ)) → OfBest b → OfFound (b >>= λ r. some r.0)
      go none q = tt
      go (some (entry, score)) q = q
