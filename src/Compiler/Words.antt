-- ===== src/Compiler/Words.antt =====
-- src/compiler.c: the immediate words drop, dup, swap, over and rot. Each changes the stack of
-- types as the word changes the values, slots and nodes included, and emits the call.
use march.Prelude.{Bool, true, false, none, some, List, [], ◌∷◌, ℕ, leb, if◌then◌else◌, length}
use march.Types.{max_type_stack}
use march.Dictionary.{dict_lookup}
use march.Compiler.{Compiler, StackEntry, with_stack, pop_type_entry, emit_call}

abbrev pub name_drop : List ℕ
name_drop = 100 ∷ 114 ∷ 111 ∷ 112 ∷ []

abbrev pub name_dup : List ℕ
name_dup = 100 ∷ 117 ∷ 112 ∷ []

abbrev pub name_swap : List ℕ
name_swap = 115 ∷ 119 ∷ 97 ∷ 112 ∷ []

abbrev pub name_over : List ℕ
name_over = 111 ∷ 118 ∷ 101 ∷ 114 ∷ []

abbrev pub name_rot : List ℕ
name_rot = 114 ∷ 111 ∷ 116 ∷ []

-- The end of each handler: the primitive is looked up by name and its call emitted.
unfoldable pub emit_word : List ℕ → Compiler → Bool × Compiler
unfolding emit_call
emit_word name comp = elim (dict_lookup comp.dict name) [
  | none ↦ (false, comp)
  | some prim ↦ (true, emit_call comp prim)
]

unfoldable pub compile_drop : Compiler → Bool × Compiler
compile_drop comp = elim comp.type_stack [
  | [] ↦ (false, comp)
  | _ ↦ emit_word name_drop (pop_type_entry comp).1
]

-- `dup` and `over` copy an entry to the top, if there is room.
unfoldable pub push_copy : List ℕ → StackEntry → Compiler → Bool × Compiler
push_copy name entry comp =
    if leb max_type_stack (length comp.type_stack)
    then (false, comp)
    else emit_word name (with_stack comp (entry ∷ comp.type_stack))

unfoldable pub compile_dup : Compiler → Bool × Compiler
unfolding push_copy
compile_dup comp = elim comp.type_stack [
  | [] ↦ (false, comp)
  | top ∷ rest ↦ push_copy name_dup top comp
]

unfoldable pub compile_swap : Compiler → Bool × Compiler
compile_swap comp = elim comp.type_stack [
  | top ∷ second ∷ rest ↦ emit_word name_swap (with_stack comp (second ∷ top ∷ rest))
  | _ ↦ (false, comp)
]

unfoldable pub compile_over : Compiler → Bool × Compiler
unfolding push_copy
compile_over comp = elim comp.type_stack [
  | top ∷ second ∷ rest ↦ push_copy name_over second comp
  | _ ↦ (false, comp)
]

unfoldable pub compile_rot : Compiler → Bool × Compiler
compile_rot comp = elim comp.type_stack [
  | c ∷ b ∷ a ∷ rest ↦ emit_word name_rot (with_stack comp (a ∷ c ∷ b ∷ rest))
  | _ ↦ (false, comp)
]
