-- ===== src/Compiler/Handlers.antt =====
-- src/compiler.c: `if` and `times`, and the immediate words by the pointers to their handlers,
-- which are numbered here.
use march.Prelude.{ℕ, none, some, List, [], ◌∷◌, leb, ◌==◌, if◌then◌else◌, length}
use march.Database.{Storage}
use march.Compiler.{Compiler, Quotation, push_type, pop_type}
use march.Compiler.Emit.{Result, ◌>>◌, done, fails, compile_true, compile_false}
use march.Compiler.Words.{compile_drop, compile_dup, compile_swap, compile_over, compile_rot}
use march.Compiler.Quotations.{type_array, pop_quotation}
use march.Compiler.Branches.{emit_if, emit_times, emit_until}
use march.Compiler.Compile.{Run, compiled_quot}

-- The quotation at the top of the stack, which has to be there.
abbrev pub with_quotation : (Quotation → Compiler → Result) → Compiler → Result
with_quotation next comp = elim (pop_quotation comp) [
  | none ↦ fails comp
  | some popped ↦ next popped.0 popped.1
]

-- A value at the top of the stack of types, which has to be there, is popped.
abbrev pub with_value : (Compiler → Result) → Compiler → Result
with_value next comp = if length comp.type_stack == 0 then fails comp else next (pop_type comp).1

unfoldable pub compile_times : Run → Compiler → Result
compile_times run =
    with_quotation
      λ body. with_value λ comp. compiled_quot run body (type_array comp) emit_times comp

unfoldable pub compile_times_until : Run → Compiler → Result
compile_times_until run comp =
    if leb 2 (length comp.quot_stack)
    then with_quotation
        (λ body. with_quotation λ condition c.
          compiled_quot run condition (type_array c)
            (λ condition'.
              compiled_quot run body (type_array c) λ body'. emit_until body' condition')
            c)
        comp
    else fails comp

unfoldable pub compile_times_dispatch : Run → Compiler → Result
unfolding compile_times compile_times_until
compile_times_dispatch run comp =
    if leb 2 (length comp.quot_stack)
    then compile_times_until run comp
    else if leb 1 (length comp.quot_stack)
    then compile_times run comp
    else fails comp

unfoldable pub push_all : List ℕ → Compiler → Compiler
push_all [] comp = comp
push_all (type ∷ types) comp = push_all types (push_type comp type)

unfoldable pub compile_if : Run → Compiler → Result
unfolding push_all
compile_if run comp =
    if leb 2 (length comp.quot_stack)
    then with_quotation
        (λ on_false. with_quotation λ on_true. with_value λ c.
          compiled_quot run on_true (type_array c)
            (λ on_true'. compiled_quot run on_false (type_array c) λ on_false' c'.
              emit_if on_true' on_false' c' >> λ d. done (push_all on_true'.outputs d))
            c)
        comp
    else fails comp

abbrev pub handler_if : ℕ
handler_if = 1

abbrev pub handler_true : ℕ
handler_true = 2

abbrev pub handler_false : ℕ
handler_false = 3

abbrev pub handler_times : ℕ
handler_times = 4

abbrev pub handler_drop : ℕ
handler_drop = 5

abbrev pub handler_dup : ℕ
handler_dup = 6

abbrev pub handler_swap : ℕ
handler_swap = 7

abbrev pub handler_over : ℕ
handler_over = 8

abbrev pub handler_rot : ℕ
handler_rot = 9

-- A call through a pointer; any other pointer is none of this code.
unfoldable pub call_handler : Storage → Run → ℕ → Compiler → Result
call_handler os run handler comp =
    if handler == handler_if
    then compile_if run comp
    else if handler == handler_true
    then compile_true os comp
    else if handler == handler_false
    then compile_false os comp
    else if handler == handler_times
    then compile_times_dispatch run comp
    else if handler == handler_drop
    then some (compile_drop comp)
    else if handler == handler_dup
    then some (compile_dup comp)
    else if handler == handler_swap
    then some (compile_swap comp)
    else if handler == handler_over
    then some (compile_over comp)
    else if handler == handler_rot
    then some (compile_rot comp)
    else none
