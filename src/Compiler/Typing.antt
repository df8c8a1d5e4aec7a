-- ===== src/Compiler/Typing.antt =====
-- src/compiler.c: `apply_signature`, which pops a word's inputs from the stack of types, binding
-- the type variables, and pushes its outputs.
use march.Prelude.{
  ℕ, ◌-◌, Bool, true, false, ◌&&◌, ◌||◌, Option, none, some, List, [], ◌∷◌, ltb, ◌==◌,
  if◌then◌else◌, length, get_or, set, reverse_onto,
}
use march.Types.{
  type_unknown, type_str, type_str_mut, type_array, type_array_mut, type_any, type_var_a,
  is_type_var,
}
use march.Dictionary.{TypeSig, unbound}
use march.Compiler.{Compiler, push_type, pop_type_entry}

-- A mutable array or string where an immutable one is expected.
abbrev pub compatible : ℕ → ℕ → Bool
compatible expected actual =
    (expected == type_array && actual == type_array_mut)
    || (expected == type_str && actual == type_str_mut)

-- The bindings after one input, or a mismatch.
unfoldable pub bind_input : List ℕ → ℕ → ℕ → Option (List ℕ)
bind_input bindings expected actual =
    if is_type_var expected
    then (let bound = get_or bindings (expected - type_var_a) type_unknown in
        if bound == type_unknown
        then some (set bindings (expected - type_var_a) actual)
        else if bound == actual
        then some bindings
        else none)
    else if expected == type_any || actual == type_any || expected == actual
    then some bindings
    else if compatible expected actual
    then some bindings
    else none

-- The inputs from the last to the first. The compiler is the state where the loop stops.
unfoldable pub pop_inputs : List ℕ → List ℕ → Compiler → Option (List ℕ) × Compiler
unfolding bind_input
pop_inputs bindings [] comp = (some bindings, comp)
pop_inputs bindings (expected ∷ inputs) comp =
    let popped = pop_type_entry comp in
    elim (bind_input bindings expected popped.0.type) [
      | none ↦ (none, popped.1)
      | some after ↦ pop_inputs after inputs popped.1
    ]

-- A bound variable becomes its type, and any other type stays.
unfoldable pub resolve : List ℕ → ℕ → ℕ
resolve bindings output =
    if is_type_var output
    then (let bound = get_or bindings (output - type_var_a) type_unknown in
        if bound == type_unknown then output else bound)
    else output

unfoldable pub push_outputs : List ℕ → List ℕ → Compiler → Compiler
unfolding resolve
push_outputs bindings [] comp = comp
push_outputs bindings (output ∷ outputs) comp =
    push_outputs bindings outputs (push_type comp (resolve bindings output))

unfoldable pub apply_popped : TypeSig → Option (List ℕ) × Compiler → Bool × Compiler
apply_popped sig (none, comp) = (false, comp)
apply_popped sig (some bindings, comp) = (true, push_outputs bindings sig.outputs comp)

unfoldable pub apply_signature : Compiler → TypeSig → Bool × Compiler
unfolding pop_inputs push_outputs apply_popped
apply_signature comp sig =
    if ltb (length comp.type_stack) (length sig.inputs)
    then (false, comp)
    else apply_popped sig (pop_inputs unbound (reverse_onto sig.inputs []) comp)
