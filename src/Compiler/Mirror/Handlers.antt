-- ===== src/Compiler/Mirror/Handlers.antt =====
-- src/compiler.c: the words that take quotations, and the call of an immediate word, write an item
-- for each cell; so does the typing of a word, which writes none.
use march.Prelude.{
  ℕ, ◌≡◌, refl, Bool, true, false, Bool-cases, inl, inr, Option, none, some, List, [], ◌∷◌, leb,
  ltb, ◌==◌, if◌then◌else◌, length, reverse_onto,
}
use march.Dictionary.{DictEntry, TypeSig, unbound}
use march.Database.{Storage}
use march.Compiler.{Compiler, StackEntry, Quotation, push_type, pop_type, pop_type_entry}
use march.Compiler.Emit.{Result, ◌>>◌, done}
use march.Compiler.Typing.{
  bind_input, pop_inputs, resolve, push_outputs, apply_popped, apply_signature,
}
use march.Compiler.Quotations.{type_array}
use march.Compiler.Branches.{emit_if, emit_times}
use march.Compiler.Compile.{Run, compiled_quot}
use march.Compiler.Handlers.{
  with_value, compile_times, compile_times_until, compile_times_dispatch, push_all, compile_if,
  call_handler,
}
use march.Compiler.Mirror.{Grows, Keeps, Keeps-then}
use march.Compiler.Mirror.Emit.{push_type-Grows}
use march.Compiler.Mirror.Literals.{with_stack-Grows, stack_words-Keep, compile_truth-Keeps}
use march.Compiler.Mirror.Branches.{emit_if-Keeps}
use march.Compiler.Mirror.Loops.{emit_times-Keeps}
use march.Compiler.Mirror.Until.{emit_until-Keeps}
use march.Compiler.Mirror.Quotations.{KeepsRun, compiled_quot-Keeps}
use march.Compiler.Mirror.Pending.{with_quotation-Keeps}

module _ (words : List DictEntry) (base : Compiler) where
  pops :
      (comp : Compiler) (stack : List StackEntry)
      → comp.type_stack ≡ stack
      → Grows words base comp
      → Grows words base (pop_type_entry comp).1 × Grows words base (pop_type comp).1
  unfolding pop_type_entry pop_type
  pops comp [] at g = let same = with_stack-Grows words base comp [] g in rw at (same, same)
  pops comp (entry ∷ rest) at g =
      let fewer = with_stack-Grows words base comp rest g in rw at (fewer, fewer)

  pop_inputs-Grows :
      (bindings inputs : List ℕ) (comp : Compiler)
      → Grows words base comp
      → Grows words base (pop_inputs bindings inputs comp).1
  unfolding pop_inputs
  pop_inputs-Grows bindings [] comp g = g
  pop_inputs-Grows bindings (expected ∷ inputs) comp g =
      go (bind_input bindings expected (pop_type_entry comp).0.type) (λ after.
        pop_inputs-Grows after inputs (pop_type_entry comp).1 (pops comp comp.type_stack refl g).0)
    where
      go :
          (o : Option (List ℕ))
          → ((after : List ℕ)
              → Grows words base (pop_inputs after inputs (pop_type_entry comp).1).1)
          → Grows words base
              (elim o as (λ _. Option (List ℕ) × Compiler) [
                | none ↦ (none, (pop_type_entry comp).1)
                | some after ↦ pop_inputs after inputs (pop_type_entry comp).1
              ]).1
      go none k = (pops comp comp.type_stack refl g).0
      go (some after) k = k after

  push_outputs-Grows :
      (bindings outputs : List ℕ) (comp : Compiler)
      → Grows words base comp
      → Grows words base (push_outputs bindings outputs comp)
  unfolding push_outputs
  push_outputs-Grows bindings [] comp g = g
  push_outputs-Grows bindings (output ∷ outputs) comp g =
      push_outputs-Grows bindings outputs _
        (push_type-Grows words base comp (resolve bindings output) g)

  pub push_all-Grows :
      (types : List ℕ) (comp : Compiler)
      → Grows words base comp
      → Grows words base (push_all types comp)
  unfolding push_all
  push_all-Grows [] comp g = g
  push_all-Grows (type ∷ types) comp g =
      push_all-Grows types (push_type comp type) (push_type-Grows words base comp type g)

  apply_popped-Keeps :
      (sig : TypeSig) (r : Option (List ℕ) × Compiler)
      → Grows words base r.1
      → Keeps words base (some (apply_popped sig r))
  unfolding apply_popped
  apply_popped-Keeps sig (none, comp) g = tt
  apply_popped-Keeps sig (some bindings, comp) g = push_outputs-Grows bindings sig.outputs comp g

  pub apply_signature-Keeps :
      (comp : Compiler) (sig : TypeSig)
      → Grows words base comp
      → Keeps words base (some (apply_signature comp sig))
  unfolding apply_signature
  apply_signature-Keeps comp sig g =
      elim (Bool-cases (ltb (length comp.type_stack) (length sig.inputs))) [
        | inl few ↦ rw (few, Keeps) tt
        | inr enough ↦ rw enough (
            apply_popped-Keeps sig (pop_inputs unbound (reverse_onto sig.inputs []) comp)
              (pop_inputs-Grows unbound (reverse_onto sig.inputs []) comp g))
      ]

  with_value-Keeps :
      (next : Compiler → Result) (comp : Compiler)
      → Grows words base comp
      → ((c : Compiler) → Grows words base c → Keeps words base (next c))
      → Keeps words base (with_value next comp)
  with_value-Keeps next comp g k = elim (Bool-cases (length comp.type_stack == 0)) [
    | inl nothing ↦ rw (nothing, Keeps) tt
    | inr something ↦ rw something (k (pop_type comp).1 (pops comp comp.type_stack refl g).1)
  ]

  pub branch-Keeps :
      (b : Bool) (r s : Result)
      → Keeps words base r
      → Keeps words base s
      → Keeps words base (if b then r else s)
  branch-Keeps true r s k m = k
  branch-Keeps false r s k m = m

  module _ (run : Run) (keeps : KeepsRun words run) where
    times-Keeps :
        (comp : Compiler) → Grows words base comp → Keeps words base (compile_times run comp)
    unfolding compile_times
    times-Keeps comp g = with_quotation-Keeps words base _ comp g λ body c literal k.
        with_value-Keeps _ c k λ d m.
          compiled_quot-Keeps words base run body (type_array d) emit_times d keeps literal m
            (λ q e compiled n. emit_times-Keeps words base q e compiled n)

    until-Keeps :
        (comp : Compiler) → Grows words base comp → Keeps words base (compile_times_until run comp)
    unfolding compile_times_until
    until-Keeps comp g = elim (Bool-cases (leb 2 (length comp.quot_stack))) [
      | inr few ↦ rw (few, Keeps) tt
      | inl enough ↦ rw enough (
          with_quotation-Keeps words base _ comp g λ body c literal k.
            with_quotation-Keeps words base _ c k λ condition d literal' m.
              compiled_quot-Keeps words base run condition (type_array d) _ d keeps literal' m
                λ q e tested n.
                  compiled_quot-Keeps words base run body (type_array d) _ e keeps literal n
                    λ q' f compiled o. emit_until-Keeps words base q' q f compiled tested o)
    ]

    dispatch-Keeps :
        (comp : Compiler)
        → Grows words base comp
        → Keeps words base (compile_times_dispatch run comp)
    unfolding compile_times_dispatch
    dispatch-Keeps comp g =
        branch-Keeps (leb 2 (length comp.quot_stack)) _ _ (until-Keeps comp g)
          (branch-Keeps (leb 1 (length comp.quot_stack)) _ _ (times-Keeps comp g) tt)

    -- What `if` does once it has its quotations and its flag.
    abbrev if_code : Quotation → Quotation → Compiler → Result
    if_code on_true on_false c =
        compiled_quot run on_true (type_array c)
          (λ on_true'. compiled_quot run on_false (type_array c) λ on_false' c'.
            emit_if on_true' on_false' c' >> λ d. done (push_all on_true'.outputs d))
          c

    if_code-Keeps :
        (on_true on_false : Quotation) (c : Compiler)
        → on_true.is_literal ≡ true
        → on_false.is_literal ≡ true
        → Grows words base c
        → Keeps words base (if_code on_true on_false c)
    if_code-Keeps on_true on_false c true_literal false_literal g =
        compiled_quot-Keeps words base run on_true (type_array c)
          (λ q.
            compiled_quot run on_false (type_array c)
              λ q' c'. emit_if q q' c' >> λ d. done (push_all q.outputs d))
          c keeps true_literal g
          λ q e taken k.
            compiled_quot-Keeps words base run on_false (type_array c)
              (λ q' c'. emit_if q q' c' >> λ d. done (push_all q.outputs d)) e keeps false_literal k
              λ q' f left m.
                Keeps-then words base (emit_if q q' f) _
                  (emit_if-Keeps words base q q' f taken left m)
                  (λ h n. push_all-Grows q.outputs h n)

    if-Keeps : (comp : Compiler) → Grows words base comp → Keeps words base (compile_if run comp)
    unfolding compile_if
    if-Keeps comp g =
        branch-Keeps (leb 2 (length comp.quot_stack)) _ _
          (with_quotation-Keeps words base _ comp g λ on_false b false_literal k.
            with_quotation-Keeps words base _ b k λ on_true c true_literal m.
              with_value-Keeps (if_code on_true on_false) c m
                λ d n. if_code-Keeps on_true on_false d true_literal false_literal n)
          tt

    pub call_handler-Keeps :
        (os : Storage) (handler : ℕ) (comp : Compiler)
        → ((bytes : List ℕ) → length (os.sha256 bytes) ≡ 32)
        → Grows words base comp
        → Keeps words base (call_handler os run handler comp)
    unfolding call_handler
    call_handler-Keeps os handler comp sized g =
        let (on_drop, on_dup, on_swap, on_over, on_rot) = stack_words-Keep words base comp g in
        let (on_true, on_false) = compile_truth-Keeps words base os sized comp g in
        branch-Keeps (handler == 1) _ _ (if-Keeps comp g) (
          branch-Keeps (handler == 2) _ _ on_true (
            branch-Keeps (handler == 3) _ _ on_false (
              branch-Keeps (handler == 4) _ _ (dispatch-Keeps comp g) (
                branch-Keeps (handler == 5) _ _ on_drop (
                  branch-Keeps (handler == 6) _ _ on_dup (
                    branch-Keeps (handler == 7) _ _ on_swap (
                      branch-Keeps (handler == 8) _ _ on_over
                        (branch-Keeps (handler == 9) _ _ on_rot tt))))))))
