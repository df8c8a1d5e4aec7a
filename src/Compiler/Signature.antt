-- ===== src/Compiler/Signature.antt =====
-- src/compiler.c: `apply_signature` on a word that `match_score` accepts.
use march.Prelude.{
  ℕ, ◌+◌, ◌-◌, ◌<◌, ◌≤◌, ◌≡◌, ◌≢◌, refl, sym, ◌∙◌, ap, true, false, Bool, ◌⊎◌, inl, inr, some, List,
  [], ◌∷◌, arith, leb, ◌==◌, ◌||◌, ◌&&◌, not, Bool-cases, ==_iff, if◌then◌else◌, length, get_or,
  set, length-set, get_or-set_self, get_or-set_ne, ◌++◌,
}
use march.Types.{type_var_a, is_type_var, max_type_stack}
use march.Dictionary.Score.{Assignment, Fits, AllFit, AllKnown, is_type_var-bound}
use march.Compiler.{with_stack, Compiler, StackEntry, plain_entry, push_type, pop_type_entry}
use march.Compiler.Typing.{bind_input, pop_inputs, resolve, push_outputs}

-- The bindings hold the assignment's type or nothing.
abbrev pub Agrees : Assignment → List ℕ → Type 0
Agrees σ bindings = (v : ℕ) → (get_or bindings v 0 ≡ 0) ⊎ (get_or bindings v 0 ≡ σ v)

abbrev pub types_of : List StackEntry → List ℕ
types_of [] = []
types_of (entry ∷ stack) = entry.type ∷ types_of stack

-- What `bind_input` leaves bound after an input that fits.
record Binds (σ : Assignment) (bindings : List ℕ) (input : ℕ) (after : List ℕ) : Type 0 where
  agrees : Agrees σ after
  width : length after ≡ 26
  kept : (v : ℕ) → get_or bindings v 0 ≢ 0 → get_or after v 0 ≢ 0
  bound : is_type_var input ≡ true → get_or after (input - type_var_a) 0 ≢ 0

bind_input-Binds :
    (σ : Assignment) (bindings : List ℕ) (input actual : ℕ)
    → Agrees σ bindings
    → length bindings ≡ 26
    → 0 < actual
    → Fits σ input actual
    → (after : List ℕ) × (bind_input bindings input actual ≡ some after)
      × Binds σ bindings input after
unfolding bind_input
bind_input-Binds σ bindings input actual agrees width known (inl (var, own)) =
    elim (Bool-cases (get_or bindings (input - type_var_a) 0 == 0)) [
      | inl free ↦
          let v = input - type_var_a in
          let inside = is_type_var-bound input var in
          let at = get_or-set_self bindings v actual 0 (omega (arith, width)) in
          (
            set bindings v actual,
            ground arith,
            record {
              agrees = λ w. elim (Bool-cases (v == w)) [
                | inl same ↦
                    let e = (==_iff v w).0 same in
                    inr
                      (ap (λ x. get_or (set bindings v actual) x 0) (sym e) ∙ at ∙ sym own ∙ ap σ e)
                | inr other ↦
                    rw (get_or-set_ne bindings v w actual 0 (λ e. ground arith)) (agrees w)
              ];
              width = length-set bindings v actual ∙ width;
              kept = λ w h. elim (Bool-cases (v == w)) [
                | inl same ↦
                    let e = (==_iff v w).0 same in
                    λ z. omega (arith, z, ap (λ x. get_or (set bindings v actual) x 0) (sym e) ∙ at)
                | inr other ↦ rw (get_or-set_ne bindings v w actual 0 (λ e. ground arith)) h
              ];
              bound = λ h z. omega (arith, z, at);
            },
          )
      | inr used ↦ (
        bindings,
        ground (arith, agrees (input - type_var_a)),
        record { agrees = agrees; width = width; kept = λ v h. h; bound = λ h. ground arith },
      )
    ]
bind_input-Binds σ bindings input actual agrees width known (inr (other, same)) = (
  bindings,
  ground arith,
  record { agrees = agrees; width = width; kept = λ v h. h; bound = λ h. absurd (ground arith) },
)

abbrev pub occurs : ℕ → List ℕ → Bool
occurs type [] = false
occurs type (x ∷ xs) = (x == type) || occurs type xs

-- The variables of the inputs are bound once they are all popped.
pub record Popped (σ : Assignment) (bindings inputs after : List ℕ) : Type 0 where
  pub agrees : Agrees σ after
  pub kept : (v : ℕ) → get_or bindings v 0 ≢ 0 → get_or after v 0 ≢ 0
  pub bound :
      (type : ℕ)
      → occurs type inputs ≡ true
      → is_type_var type ≡ true
      → get_or after (type - type_var_a) 0 ≢ 0

pub pop_inputs-Popped :
    (σ : Assignment) (bindings inputs : List ℕ) (comp : Compiler) (top rest : List StackEntry)
    → Agrees σ bindings
    → length bindings ≡ 26
    → length top ≡ length inputs
    → AllKnown (types_of top)
    → AllFit σ inputs (types_of top)
    → (after : List ℕ) × (pop_inputs bindings inputs (with_stack comp (top ++ rest))
        ≡ (some after, with_stack comp rest))
      × Popped σ bindings inputs after
unfolding pop_inputs pop_type_entry
pop_inputs-Popped σ bindings [] comp [] rest agrees width count known fit =
    (bindings, refl, record { agrees = agrees; kept = λ v h. h; bound = λ t h. absurd cc })
pop_inputs-Popped σ bindings [] comp (e ∷ top) rest agrees width count known fit =
    absurd (omega arith)
pop_inputs-Popped σ bindings (input ∷ inputs) comp [] rest agrees width count known fit = absurd fit
pop_inputs-Popped σ bindings (input ∷ inputs) comp (e ∷ top) rest agrees width count (first, known)
      (own, fit) =
    let (b, done, binds) = bind_input-Binds σ bindings input e.type agrees width first own in
    let (after, popped, p) =
      pop_inputs-Popped σ b inputs comp top rest binds.agrees binds.width (omega arith) known fit in
    (
      after,
      rw (done, pop_inputs) popped,
      record {
        agrees = p.agrees;
        kept = λ v h. p.kept v (binds.kept v h);
        bound = λ type h var. elim (Bool-cases (input == type)) [
          | inl same ↦
              let e = (==_iff input type).0 same in
              rw (sym e) (p.kept (input - type_var_a) (binds.bound (rw e var)))
          | inr other ↦ p.bound type (ground arith) var
        ];
      },
    )

-- A type with its variable, if it is one, replaced.
abbrev pub instantiate : Assignment → ℕ → ℕ
instantiate σ type = if is_type_var type then σ (type - type_var_a) else type

-- Every variable of the outputs stands among the inputs.
abbrev pub determined : List ℕ → List ℕ → Bool
determined inputs [] = true
determined inputs (output ∷ outputs) =
    (not (is_type_var output) || occurs output inputs) && determined inputs outputs

-- The stack with the outputs pushed, each without a slot.
abbrev pub pushed : Assignment → List ℕ → List StackEntry → List StackEntry
pushed σ [] stack = stack
pushed σ (output ∷ outputs) stack = pushed σ outputs (plain_entry (instantiate σ output) ∷ stack)

resolve-instantiate :
    (σ : Assignment) (after inputs : List ℕ) (output : ℕ)
    → Agrees σ after
    → ((type : ℕ)
        → occurs type inputs ≡ true
        → is_type_var type ≡ true
        → get_or after (type - type_var_a) 0 ≢ 0)
    → (not (is_type_var output) || occurs output inputs) ≡ true
    → resolve after output ≡ instantiate σ output
unfolding resolve
resolve-instantiate σ after inputs output agrees bound h = elim (Bool-cases (is_type_var output)) [
  | inl var ↦
      let used = bound output (ground arith) var in ground (arith, agrees (output - type_var_a))
  | inr other ↦ rw other
]

pub push_outputs-pushed :
    (σ : Assignment) (after inputs outputs : List ℕ) (comp : Compiler) (stack : List StackEntry)
    → Agrees σ after
    → ((type : ℕ)
        → occurs type inputs ≡ true
        → is_type_var type ≡ true
        → get_or after (type - type_var_a) 0 ≢ 0)
    → determined inputs outputs ≡ true
    → length outputs + length stack ≤ max_type_stack
    → push_outputs after outputs (with_stack comp stack) ≡ with_stack comp (pushed σ outputs stack)
unfolding push_outputs push_type
push_outputs-pushed σ after inputs [] comp stack agrees bound h room = refl
push_outputs-pushed σ after inputs (output ∷ outputs) comp stack agrees bound h room =
    let free : leb max_type_stack (length stack) ≡ false = ground arith in
    let same = resolve-instantiate σ after inputs output agrees bound (ground arith) in
    rw (free, same)
      (push_outputs-pushed σ after inputs outputs comp (plain_entry (instantiate σ output) ∷ stack)
        agrees bound (ground arith) (omega arith))
