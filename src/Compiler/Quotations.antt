-- ===== src/Compiler/Quotations.antt =====
-- src/compiler.c: the brackets that open and close quotations and array literals, and the tokens
-- that a quotation keeps.
use march.Prelude.{
  ℕ, ◌+◌, ◌-◌, true, Option, none, some, List, [], ◌∷◌, ◌++◌, leb, ◌==◌, if◌then◌else◌, length,
}
use march.Tokens.{Token}
use march.Cells.{cell_buffer_create}
use march.Blob.{blob_buffer_create}
use march.Compiler.{Compiler, StackEntry, Quotation, plain_entry}
use march.Compiler.Emit.{Result, done, fails}

abbrev pub max_quot_depth : ℕ
max_quot_depth = 16

abbrev pub max_array_depth : ℕ
max_array_depth = 16

-- The types of the stack as an array, the bottom first, and plain entries for an array of types.
unfoldable pub types_up : List StackEntry → List ℕ → List ℕ
types_up [] types = types
types_up (entry ∷ stack) types = types_up stack (entry.type ∷ types)

unfoldable pub type_array : Compiler → List ℕ
unfolding types_up
type_array comp = types_up comp.type_stack []

-- The stack with an array of types pushed. The node of an entry is not written here, and is 0 as in
-- every entry that this compiler pushes for code.
pub entries_onto : List ℕ → List StackEntry → List StackEntry
entries_onto [] stack = stack
entries_onto (type ∷ types) stack = entries_onto types (plain_entry type ∷ stack)

unfoldable pub compile_lparen : Compiler → Result
compile_lparen comp =
    if leb max_quot_depth (length comp.quot_stack)
    then fails comp
    else done (record comp {
      quot_stack =
          record {
            is_literal = true;
            cells = cell_buffer_create;
            blob = blob_buffer_create;
            tokens = [];
            inputs = type_array comp;
            outputs = [];
          }
          ∷ comp.quot_stack;
      buffer_stack_depth = comp.buffer_stack_depth + 1;
    })

-- A quotation that is compiled is never closed: `buffer_stack`, which would be read, is never
-- written.
unfoldable pub compile_rparen : Compiler → Result
unfolding entries_onto
compile_rparen comp = elim comp.quot_stack [
  | [] ↦ fails comp
  | quot ∷ rest ↦
      if comp.buffer_stack_depth == 0
      then fails comp
      else if quot.is_literal
      then done (record comp {
        buffer_stack_depth = comp.buffer_stack_depth - 1;
        type_stack = entries_onto quot.inputs [];
      })
      else none
]

unfoldable pub compile_lbracket : Compiler → Result
compile_lbracket comp =
    if leb max_array_depth (length comp.array_marker_stack)
    then fails comp
    else done
        (record comp { array_marker_stack = length comp.type_stack ∷ comp.array_marker_stack })

unfoldable pub quot_append_token : Quotation → Token → Quotation
quot_append_token quot tok = record quot { tokens = quot.tokens ++ tok ∷ [] }

unfoldable pub pop_quotation : Compiler → Option (Quotation × Compiler)
pop_quotation comp = elim comp.quot_stack [
  | [] ↦ none
  | quot ∷ rest ↦ some (quot, record comp { quot_stack = rest })
]
