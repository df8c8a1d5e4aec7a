-- ===== src/Compiler/Accept.antt =====
-- src/compiler.c and src/dictionary.c: a signature that `match_score` accepts is one that
-- `apply_signature` applies.
use march.Prelude.{
  ℕ, suc, ◌+◌, ◌-◌, ◌≤◌, ◌≡◌, refl, sym, ap, true, false, some, List, [], ◌∷◌, arith, ltb, ◌||◌,
  length, drop, ◌++◌, reverse_onto, length-reverse_onto, reverse_onto-back, drop-reverse_onto,
  length-append, get_or-replicate, length-replicate, inl,
}
use march.Types.{max_type_stack}
use march.Dictionary.{TypeSig, unbound, match_score}
use march.Dictionary.Score.{Assignment, AllFit, AllKnown, match_score-AllFit}
use march.Compiler.{with_stack, Compiler, StackEntry}
use march.Compiler.Typing.{apply_popped, apply_signature}
use march.Compiler.Signature.{
  types_of, occurs, determined, pushed, pop_inputs-Popped, push_outputs-pushed,
}

length-types_of : (stack : List StackEntry) → length (types_of stack) ≡ length stack
length-types_of [] = refl
length-types_of (e ∷ stack) = ap suc (length-types_of stack)

types_of-append :
    (top rest : List StackEntry) → types_of (top ++ rest) ≡ types_of top ++ types_of rest
types_of-append [] rest = refl
types_of-append (e ∷ top) rest = ap (◌∷◌ e.type) (types_of-append top rest)

AllFit-reverse_onto :
    (σ : Assignment) (inputs types others more : List ℕ)
    → length types ≡ length inputs
    → AllFit σ inputs types
    → AllFit σ others more
    → AllFit σ (reverse_onto inputs others) (reverse_onto types more)
AllFit-reverse_onto σ [] [] others more count fit rest = rest
AllFit-reverse_onto σ [] (t ∷ types) others more count fit rest = absurd (omega arith)
AllFit-reverse_onto σ (i ∷ inputs) [] others more count fit rest = absurd fit
AllFit-reverse_onto σ (i ∷ inputs) (t ∷ types) others more count (own, fit) rest =
    AllFit-reverse_onto σ inputs types (i ∷ others) (t ∷ more) (omega arith) fit (own, rest)

AllKnown-reverse_onto :
    (types more : List ℕ) → AllKnown types → AllKnown more → AllKnown (reverse_onto types more)
AllKnown-reverse_onto [] more known rest = rest
AllKnown-reverse_onto (t ∷ types) more (first, known) rest =
    AllKnown-reverse_onto types (t ∷ more) known (first, rest)

AllKnown-append : (types more : List ℕ) → AllKnown (types ++ more) → AllKnown types
AllKnown-append [] more known = tt
AllKnown-append (t ∷ types) more (first, known) = (first, AllKnown-append types more known)

occurs-reverse_onto :
    (type : ℕ) (xs ys : List ℕ)
    → occurs type (reverse_onto xs ys) ≡ (occurs type xs || occurs type ys)
occurs-reverse_onto type [] ys = refl
occurs-reverse_onto type (x ∷ xs) ys = ground (arith, occurs-reverse_onto type xs (x ∷ ys))

determined-reverse_onto :
    (inputs outputs : List ℕ)
    → determined inputs outputs ≡ true
    → determined (reverse_onto inputs []) outputs ≡ true
determined-reverse_onto inputs [] h = refl
determined-reverse_onto inputs (output ∷ outputs) h = ground (
  arith,
  occurs-reverse_onto output inputs [],
  determined-reverse_onto inputs outputs (ground arith),
)

-- The types as `match_score` takes them: the bottom of the stack first.
abbrev pub type_array_of : List StackEntry → List ℕ
type_array_of stack = reverse_onto (types_of stack) []

-- What `apply_signature` does when it succeeds: the entries of the inputs give way to the outputs,
-- with each variable replaced by the type that it has in the inputs.
abbrev pub Applies : Compiler → TypeSig → List StackEntry → List StackEntry → Type 0
Applies comp sig top rest =
    (σ : Assignment) × AllFit σ (reverse_onto sig.inputs []) (types_of top)
    × (apply_signature (with_stack comp (top ++ rest)) sig
        ≡ (true, with_stack comp (pushed σ sig.outputs rest)))

-- An assignment that fits the inputs gives the types of the outputs.
pub AllFit-apply :
    (σ : Assignment) (comp : Compiler) (sig : TypeSig) (top rest : List StackEntry)
    → length top ≡ length sig.inputs
    → AllKnown (types_of top)
    → AllFit σ (reverse_onto sig.inputs []) (types_of top)
    → determined sig.inputs sig.outputs ≡ true
    → length sig.outputs + length rest ≤ max_type_stack
    → apply_signature (with_stack comp (top ++ rest)) sig
      ≡ (true, with_stack comp (pushed σ sig.outputs rest))
unfolding apply_signature apply_popped
AllFit-apply σ comp sig top rest count known back outputs room =
    let (after, popped, p) =
      pop_inputs-Popped σ unbound (reverse_onto sig.inputs []) comp top rest
        (λ v. inl (get_or-replicate 26 v 0)) (length-replicate 26 (let z : ℕ = 0 in z))
        (omega (arith, length-reverse_onto sig.inputs [])) known back in
    let deep : ltb (length (top ++ rest)) (length sig.inputs) ≡ false =
      ground (arith, length-append top rest) in
    rw (deep, popped)
      (ap (λ c. (true, c))
        (push_outputs-pushed σ after (reverse_onto sig.inputs []) sig.outputs comp rest p.agrees
          p.bound (determined-reverse_onto sig.inputs sig.outputs outputs) room))

-- If `match_score` accepts a signature on a stack of known types, the variables of the outputs
-- stand among the inputs, and the outputs fit on the stack, then `apply_signature` succeeds: it
-- pops exactly the entries of the inputs and pushes the outputs, with the types of the variables
-- put in.
pub match_score-Applies :
    (comp : Compiler) (sig : TypeSig) (top rest : List StackEntry) (score : ℕ)
    → length top ≡ length sig.inputs
    → AllKnown (types_of (top ++ rest))
    → match_score sig (type_array_of (top ++ rest)) ≡ some score
    → determined sig.inputs sig.outputs ≡ true
    → length sig.outputs + length rest ≤ max_type_stack
    → Applies comp sig top rest
match_score-Applies comp sig top rest score count known h outputs room =
    let apart = types_of-append top rest in
    let all : AllKnown (types_of top ++ types_of rest) = rw (sym apart) known in
    let (enough, σ, fit) =
      match_score-AllFit sig (type_array_of (top ++ rest)) score
        (AllKnown-reverse_onto (types_of (top ++ rest)) [] known tt) h in
    let total = length-reverse_onto (types_of (top ++ rest)) [] in
    let below : length (type_array_of (top ++ rest)) - length sig.inputs ≡ length (types_of rest) =
      omega (
        arith,
        total,
        length-types_of (top ++ rest),
        length-append top rest,
        length-types_of rest,
      ) in
    let last : drop (length (type_array_of (top ++ rest)) - length sig.inputs)
          (type_array_of (top ++ rest))
        ≡ reverse_onto (types_of top) [] =
      rw (below, apart) (drop-reverse_onto (types_of top) (types_of rest)) in
    let fit' : AllFit σ sig.inputs (reverse_onto (types_of top) []) = rw (sym last) fit in
    let back : AllFit σ (reverse_onto sig.inputs []) (types_of top) =
      rw (sym (reverse_onto-back (types_of top))) (
        AllFit-reverse_onto σ sig.inputs (reverse_onto (types_of top) []) [] []
          (omega (arith, length-reverse_onto (types_of top) [], length-types_of top)) fit' tt) in
    (
      σ,
      back,
      AllFit-apply σ comp sig top rest count (AllKnown-append (types_of top) (types_of rest) all)
          back outputs room,
    )
