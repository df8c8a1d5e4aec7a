-- ===== src/Compiler/Agree.antt =====
-- src/compiler.c: the immediate words change the types as the signatures that
-- `compiler_register_primitives` gives them say.
use march.Prelude.{
  ℕ, suc, ◌+◌, ◌<◌, ◌≤◌, ◌≡◌, refl, true, false, Bool, some, List, [], ◌∷◌, arith, leb, length,
  get_or, inl,
}
use march.Types.{type_var_a, max_type_stack}
use march.Dictionary.{TypeSig, DictEntry, dict_lookup}
use march.Dictionary.Score.{Assignment, AllKnown}
use march.Compiler.{with_stack, Compiler, StackEntry, pop_type_entry, emit_call}
use march.Compiler.Typing.{apply_signature}
use march.Compiler.Signature.{types_of, pushed}
use march.Compiler.Accept.{AllFit-apply}
use march.Compiler.Words.{
  name_drop, name_dup, name_swap, name_over, name_rot, emit_word, push_copy, compile_drop,
  compile_dup, compile_swap, compile_over, compile_rot,
}

pub data StackWord : Type 0 where
  word_drop : StackWord
  word_dup : StackWord
  word_swap : StackWord
  word_over : StackWord
  word_rot : StackWord

abbrev pub name_of : StackWord → List ℕ
name_of word_drop = name_drop
name_of word_dup = name_dup
name_of word_swap = name_swap
name_of word_over = name_over
name_of word_rot = name_rot

abbrev pub handler_of : StackWord → Compiler → Bool × Compiler
handler_of word_drop = compile_drop
handler_of word_dup = compile_dup
handler_of word_swap = compile_swap
handler_of word_over = compile_over
handler_of word_rot = compile_rot

-- The variables a, b and c.
abbrev a : ℕ
a = type_var_a

abbrev b : ℕ
b = type_var_a + 1

abbrev c : ℕ
c = type_var_a + 2

-- The signatures "a ->", "a -> a a", "a b -> b a", "a b -> a b a" and "a b c -> b c a".
abbrev pub sig_of : StackWord → TypeSig
sig_of word_drop = record { inputs = a ∷ []; outputs = [] }
sig_of word_dup = record { inputs = a ∷ []; outputs = a ∷ a ∷ [] }
sig_of word_swap = record { inputs = a ∷ b ∷ []; outputs = b ∷ a ∷ [] }
sig_of word_over = record { inputs = a ∷ b ∷ []; outputs = a ∷ b ∷ a ∷ [] }
sig_of word_rot = record { inputs = a ∷ b ∷ c ∷ []; outputs = b ∷ c ∷ a ∷ [] }

-- Both succeed, and the types on the stack are the same after them.
pub record Agrees (word : StackWord) (comp handled applied : Compiler) : Type 0 where
  pub handles : handler_of word comp ≡ (true, handled)
  pub applies : apply_signature comp (sig_of word) ≡ (true, applied)
  pub same : types_of handled.type_stack ≡ types_of applied.type_stack

-- The entries that a word takes.
abbrev pub taken : StackWord → ℕ
taken word = length (sig_of word).inputs

emit_word-result :
    (name : List ℕ) (comp : Compiler) (prim : DictEntry)
    → dict_lookup comp.dict name ≡ some prim
    → emit_word name comp ≡ (true, emit_call comp prim)
unfolding emit_word
emit_word-result name comp prim found = rw (found, emit_word)

-- The types in the order of the signature's variables.
abbrev by_variable : List ℕ → Assignment
by_variable types v = get_or types v 0

module _ (comp : Compiler) (prim : DictEntry) where
  drop-Agrees :
      (top : StackEntry) (rest : List StackEntry)
      → dict_lookup comp.dict name_drop ≡ some prim
      → length rest < max_type_stack
      → 0 < top.type
      → (h : Compiler) × (d : Compiler) × Agrees word_drop (with_stack comp (top ∷ rest)) h d
  unfolding compile_drop pop_type_entry emit_call
  drop-Agrees top rest found room known = (
    emit_call (with_stack comp rest) prim,
    with_stack comp rest,
    record {
      handles = emit_word-result name_drop (with_stack comp rest) prim found;
      applies =
          AllFit-apply (by_variable (top.type ∷ [])) comp (sig_of word_drop) (top ∷ []) rest refl
            (known, tt) (inl (refl, refl), tt) refl (omega arith);
      same = refl;
    },
  )

  dup-Agrees :
      (top : StackEntry) (rest : List StackEntry)
      → dict_lookup comp.dict name_dup ≡ some prim
      → length rest + 2 ≤ max_type_stack
      → 0 < top.type
      → (h : Compiler) × (d : Compiler) × Agrees word_dup (with_stack comp (top ∷ rest)) h d
  unfolding compile_dup push_copy emit_call
  dup-Agrees top rest found room known =
      let free : leb max_type_stack (suc (length rest)) ≡ false = ground arith in
      (
        emit_call (with_stack comp (top ∷ top ∷ rest)) prim,
        with_stack comp (pushed (by_variable (top.type ∷ [])) (a ∷ a ∷ []) rest),
        record {
          handles =
              rw free (emit_word-result name_dup (with_stack comp (top ∷ top ∷ rest)) prim found);
          applies =
              AllFit-apply (by_variable (top.type ∷ [])) comp (sig_of word_dup) (top ∷ []) rest refl
                (known, tt) (inl (refl, refl), tt) refl (omega arith);
          same = refl;
        },
      )

  swap-Agrees :
      (top second : StackEntry) (rest : List StackEntry)
      → dict_lookup comp.dict name_swap ≡ some prim
      → length rest + 2 ≤ max_type_stack
      → 0 < top.type
      → 0 < second.type
      → (h : Compiler) × (d : Compiler) × Agrees word_swap
          (with_stack comp (top ∷ second ∷ rest))
          h
          d
  unfolding compile_swap emit_call
  swap-Agrees top second rest found room known known₂ = (
    emit_call (with_stack comp (second ∷ top ∷ rest)) prim,
    with_stack comp (pushed (by_variable (second.type ∷ top.type ∷ [])) (b ∷ a ∷ []) rest),
    record {
      handles = emit_word-result name_swap (with_stack comp (second ∷ top ∷ rest)) prim found;
      applies =
          AllFit-apply (by_variable (second.type ∷ top.type ∷ [])) comp (sig_of word_swap)
            (top ∷ second ∷ []) rest refl (known, (known₂, tt))
            (inl (refl, refl), (inl (refl, refl), tt)) refl (omega arith);
      same = refl;
    },
  )

  over-Agrees :
      (top second : StackEntry) (rest : List StackEntry)
      → dict_lookup comp.dict name_over ≡ some prim
      → length rest + 3 ≤ max_type_stack
      → 0 < top.type
      → 0 < second.type
      → (h : Compiler) × (d : Compiler) × Agrees word_over
          (with_stack comp (top ∷ second ∷ rest))
          h
          d
  unfolding compile_over push_copy emit_call
  over-Agrees top second rest found room known known₂ =
      let free : leb max_type_stack (suc (suc (length rest))) ≡ false = ground arith in
      (
        emit_call (with_stack comp (second ∷ top ∷ second ∷ rest)) prim,
        with_stack comp (pushed (by_variable (second.type ∷ top.type ∷ [])) (a ∷ b ∷ a ∷ []) rest),
        record {
          handles = rw free (
              emit_word-result name_over (with_stack comp (second ∷ top ∷ second ∷ rest)) prim
                found);
          applies =
              AllFit-apply (by_variable (second.type ∷ top.type ∷ [])) comp (sig_of word_over)
                (top ∷ second ∷ []) rest refl (known, (known₂, tt))
                (inl (refl, refl), (inl (refl, refl), tt)) refl (omega arith);
          same = refl;
        },
      )

  rot-Agrees :
      (x y z : StackEntry) (rest : List StackEntry)
      → dict_lookup comp.dict name_rot ≡ some prim
      → length rest + 3 ≤ max_type_stack
      → 0 < x.type
      → 0 < y.type
      → 0 < z.type
      → (h : Compiler) × (d : Compiler) × Agrees word_rot (with_stack comp (z ∷ y ∷ x ∷ rest)) h d
  unfolding compile_rot emit_call
  rot-Agrees x y z rest found room p q r = (
    emit_call (with_stack comp (x ∷ z ∷ y ∷ rest)) prim,
    with_stack comp (pushed (by_variable (x.type ∷ y.type ∷ z.type ∷ [])) (b ∷ c ∷ a ∷ []) rest),
    record {
      handles = emit_word-result name_rot (with_stack comp (x ∷ z ∷ y ∷ rest)) prim found;
      applies =
          AllFit-apply (by_variable (x.type ∷ y.type ∷ z.type ∷ [])) comp (sig_of word_rot)
            (z ∷ y ∷ x ∷ []) rest refl (r, (q, (p, tt)))
            (inl (refl, refl), (inl (refl, refl), (inl (refl, refl), tt))) refl (omega arith);
      same = refl;
    },
  )

-- A word whose inputs are on the stack, whose outputs fit and whose primitive is in the dictionary:
-- its handler and `apply_signature` with its signature both succeed, and leave the same types.
pub handler-Agrees :
    (word : StackWord) (comp : Compiler) (prim : DictEntry) (stack : List StackEntry)
    → dict_lookup comp.dict (name_of word) ≡ some prim
    → taken word ≤ length stack
    → length stack < max_type_stack
    → AllKnown (types_of stack)
    → (h : Compiler) × (d : Compiler) × Agrees word (with_stack comp stack) h d
handler-Agrees word_drop comp prim (x ∷ rest) found enough room (p, known) =
    drop-Agrees comp prim x rest found (omega arith) p
handler-Agrees word_dup comp prim (x ∷ rest) found enough room (p, known) =
    dup-Agrees comp prim x rest found (omega arith) p
handler-Agrees word_swap comp prim (x ∷ y ∷ rest) found enough room (p, (q, known)) =
    swap-Agrees comp prim x y rest found (omega arith) p q
handler-Agrees word_over comp prim (x ∷ y ∷ rest) found enough room (p, (q, known)) =
    over-Agrees comp prim x y rest found (omega arith) p q
handler-Agrees word_rot comp prim (z ∷ y ∷ x ∷ rest) found enough room (r, (q, (p, known))) =
    rot-Agrees comp prim x y z rest found (omega arith) p q r
handler-Agrees word_drop comp prim [] found enough room known = absurd (omega arith)
handler-Agrees word_dup comp prim [] found enough room known = absurd (omega arith)
handler-Agrees word_swap comp prim [] found enough room known = absurd (omega arith)
handler-Agrees word_swap comp prim (x ∷ []) found enough room known = absurd (omega arith)
handler-Agrees word_over comp prim [] found enough room known = absurd (omega arith)
handler-Agrees word_over comp prim (x ∷ []) found enough room known = absurd (omega arith)
handler-Agrees word_rot comp prim [] found enough room known = absurd (omega arith)
handler-Agrees word_rot comp prim (x ∷ []) found enough room known = absurd (omega arith)
handler-Agrees word_rot comp prim (x ∷ y ∷ []) found enough room known = absurd (omega arith)
