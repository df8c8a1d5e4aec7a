-- ===== src/Dictionary/Score.antt =====
-- src/dictionary.c: what it means that `match_score` accepts a stack.
use march.Prelude.{
  ℕ, zero, suc, ◌+◌, ◌-◌, ◌<◌, ◌≡◌, ◌≢◌, refl, sym, ◌∙◌, ap, true, false, ◌⊎◌, inl, inr, none, some,
  List, [], ◌∷◌, arith, Option-cases, ltb, ◌==◌, Bool-cases, ==_iff, if◌then◌else◌, length, get_or,
  set, drop, length-set, length-replicate, ◌≤◌, get_or-set_self, get_or-set_ne,
}
use march.Types.{type_unknown, type_any, type_var_a, is_type_var}
use march.Dictionary.{TypeSig, match_input, match_loop, unbound, match_score}

-- The types that stand for the variables a to z.
abbrev pub Assignment : Type 0
Assignment = ℕ → ℕ

-- An input accepts a type: a variable its own type, `any` every type, another type itself.
abbrev pub Fits : Assignment → ℕ → ℕ → Type 0
Fits σ input actual =
    ((is_type_var input ≡ true) × (σ (input - type_var_a) ≡ actual))
    ⊎ ((is_type_var input ≡ false) × ((input ≡ type_any) ⊎ (input ≡ actual)))

abbrev pub AllFit : Assignment → List ℕ → List ℕ → Type 0
AllFit σ [] types = Unit
AllFit σ (input ∷ inputs) [] = ⊥
AllFit σ (input ∷ inputs) (type ∷ types) = Fits σ input type × AllFit σ inputs types

-- No type is TYPE_UNKNOWN.
abbrev pub AllKnown : List ℕ → Type 0
AllKnown [] = Unit
AllKnown (type ∷ types) = (0 < type) × AllKnown types

AllKnown-drop : (n : ℕ) (types : List ℕ) → AllKnown types → AllKnown (drop n types)
AllKnown-drop zero types known = known
AllKnown-drop (suc n) [] known = tt
AllKnown-drop (suc n) (type ∷ types) (first, known) = AllKnown-drop n types known

-- The bindings hold the assignment's type or nothing.
abbrev pub Bound : Assignment → List ℕ → Type 0
Bound σ bindings = (v : ℕ) → get_or bindings v 0 ≢ 0 → σ v ≡ get_or bindings v 0

pub is_type_var-bound : (input : ℕ) → is_type_var input ≡ true → input - type_var_a < 26
is_type_var-bound input h = ground arith

set-Bound :
    (σ : Assignment) (bindings : List ℕ) (v actual : ℕ)
    → v < length bindings
    → get_or bindings v 0 ≡ 0
    → 0 < actual
    → Bound σ (set bindings v actual)
    → Bound σ bindings × (σ v ≡ actual)
set-Bound σ bindings v actual inside free known bound =
    let at = get_or-set_self bindings v actual 0 inside in
    (
      λ w h. elim (Bool-cases (v == w)) [
        | inl same ↦ absurd (h (ap (λ x. get_or bindings x 0) (sym ((==_iff v w).0 same)) ∙ free))
        | inr other ↦
            let there = get_or-set_ne bindings v w actual 0 (λ e. ground arith) in
            bound w (λ e. h (sym there ∙ e)) ∙ there
      ],
      bound v (λ e. omega arith) ∙ at,
    )

-- After a variable, an assignment that has its bindings has the earlier ones and gives the variable
-- its type.
match_var-Bound :
    (σ : Assignment) (bindings : List ℕ) (v actual : ℕ) (r : ℕ × List ℕ)
    → v < length bindings
    → 0 < actual
    → (if get_or bindings v 0 == 0
        then some (80, set bindings v actual)
        else if get_or bindings v 0 == actual
        then some (80, bindings)
        else none)
      ≡ some r
    → Bound σ r.1
    → Bound σ bindings × (σ v ≡ actual)
match_var-Bound σ bindings v actual r inside known h bound =
    elim (Bool-cases (get_or bindings v 0 == 0)) [
      | inl free ↦
          let e : set bindings v actual ≡ r.1 = ground arith in
          set-Bound σ bindings v actual inside ((==_iff (get_or bindings v 0) 0).0 free) known
            (rw e bound)
      | inr used ↦
          let e : bindings ≡ r.1 = ground arith in
          let same : get_or bindings v 0 ≡ actual = ground arith in
          let earlier : Bound σ bindings = rw e bound in
          (earlier, earlier v (λ z. omega arith) ∙ same)
    ]

-- After an input, an assignment that has its bindings has the earlier ones and fits the input.
match_input-Fits :
    (σ : Assignment) (bindings : List ℕ) (input actual : ℕ) (r : ℕ × List ℕ)
    → length bindings ≡ 26
    → 0 < actual
    → match_input bindings input actual ≡ some r
    → Bound σ r.1
    → Bound σ bindings × Fits σ input actual
unfolding match_input
match_input-Fits σ bindings input actual r width known h bound =
    elim (Bool-cases (is_type_var input)) [
      | inl var ↦
          let inside = is_type_var-bound input var in
          let (earlier, own) =
            match_var-Bound σ bindings (input - type_var_a) actual r (omega arith) known
              (ground arith) bound in
          (earlier, inl (var, own))
      | inr other ↦ let e : bindings ≡ r.1 = ground arith in (rw e bound, inr (other, ground arith))
    ]

match_input-width :
    (bindings : List ℕ) (input actual : ℕ) (r : ℕ × List ℕ)
    → match_input bindings input actual ≡ some r
    → length r.1 ≡ length bindings
unfolding match_input
match_input-width bindings input actual r h =
    ground (arith, length-set bindings (input - type_var_a) actual)

match_loop-AllFit :
    (bindings : List ℕ) (score : ℕ) (inputs types : List ℕ) (r : ℕ)
    → length bindings ≡ 26
    → AllKnown types
    → match_loop bindings score inputs types ≡ some r
    → (σ : Assignment) × Bound σ bindings × AllFit σ inputs types
unfolding match_loop
match_loop-AllFit bindings score [] types r width known h =
    (λ v. get_or bindings v 0, λ v used. refl, tt)
match_loop-AllFit bindings score (input ∷ inputs) [] r width known h = absurd cc
match_loop-AllFit bindings score (input ∷ inputs) (type ∷ types) r width (first, known) h =
    elim (Option-cases (match_input bindings input type)) [
      | inl fails ↦ absurd (ground arith)
      | inr (q, e) ↦
          let size : length q.1 ≡ 26 = match_input-width bindings input type q e ∙ width in
          let (σ, bound, fit) =
            match_loop-AllFit q.1 (score + q.0) inputs types r size known (ground arith) in
          let (earlier, own) = match_input-Fits σ bindings input type q width first e bound in
          (σ, earlier, (own, fit))
    ]

-- If `match_score` accepts a signature on a stack of known types, then some assignment of types to
-- the variables makes each input fit the type at its place, the last input at the top.
pub match_score-AllFit :
    (sig : TypeSig) (types : List ℕ) (score : ℕ)
    → AllKnown types
    → match_score sig types ≡ some score
    → (length sig.inputs ≤ length types)
      × (σ : Assignment) × AllFit σ sig.inputs (drop (length types - length sig.inputs) types)
unfolding match_score
match_score-AllFit sig types score known h =
    elim (Bool-cases (ltb (length types) (length sig.inputs))) [
      | inl few ↦ absurd (ground arith)
      | inr enough ↦
          let (σ, bound, fit) =
            match_loop-AllFit unbound 0 sig.inputs (drop (length types - length sig.inputs) types)
              score (length-replicate 26 type_unknown)
              (AllKnown-drop (length types - length sig.inputs) types known) (ground arith) in
          (ground arith, σ, fit)
    ]
