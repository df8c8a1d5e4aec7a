-- ===== src/Compiler/Register.antt =====
-- src/compiler.c, compiler_register_primitives: the primitives, then the immediate words, whose
-- handlers are pointers, numbered as in Compiler/Handlers.
use march.Prelude.{ℕ, false, true, Option, some, List, [], ◌∷◌, ◌>>=◌}
use march.Primitives.{Registration, register_all}
use march.Primitives.Table.{register_primitives}
use march.Primitives.Texts.{
  sig_a_b_c_to_b_c_a, sig_a_b_to_a_b_a, sig_a_b_to_b_a, sig_a_to, sig_a_to_a_a, sig_i64_to, sig_to,
  sig_to_i64,
}
use march.Compiler.{Compiler}
use march.Compiler.Words.{name_drop, name_dup, name_swap, name_over, name_rot}
use march.Compiler.Handlers.{
  handler_if, handler_true, handler_false, handler_times, handler_drop, handler_dup, handler_swap,
  handler_over, handler_rot,
}

abbrev immediate : List ℕ → ℕ → List ℕ → ℕ → Registration
immediate name prim_id type_str handler = record {
  name = name;
  addr = 0;
  prim_id = prim_id;
  type_str = type_str;
  is_primitive = false;
  is_immediate = true;
  handler = some handler;
}

abbrev pub immediate_words : List Registration
immediate_words =
    immediate (105 ∷ 102 ∷ []) 0 sig_to handler_if
    ∷ immediate (116 ∷ 114 ∷ 117 ∷ 101 ∷ []) 0 sig_to_i64 handler_true
    ∷ immediate (102 ∷ 97 ∷ 108 ∷ 115 ∷ 101 ∷ []) 0 sig_to_i64 handler_false
    ∷ immediate (116 ∷ 105 ∷ 109 ∷ 101 ∷ 115 ∷ []) 0 sig_i64_to handler_times
    ∷ immediate name_drop 7 sig_a_to handler_drop
    ∷ immediate name_dup 6 sig_a_to_a_a handler_dup
    ∷ immediate name_swap 8 sig_a_b_to_b_a handler_swap
    ∷ immediate name_over 9 sig_a_b_to_a_b_a handler_over
    ∷ immediate name_rot 10 sig_a_b_c_to_b_c_a handler_rot
    ∷ []

unfoldable pub compiler_register_primitives : (ℕ → ℕ) → Compiler → Option Compiler
unfolding register_all register_primitives
compiler_register_primitives op comp = register_primitives op comp.dict >>= λ dict.
    register_all immediate_words dict >>= λ d. some (record comp { dict = d })
