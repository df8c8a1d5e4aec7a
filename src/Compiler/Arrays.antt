-- ===== src/Compiler/Arrays.antt =====
-- src/compiler.c: `compile_rbracket`, which ends an array literal. The code that it emits allocates
-- the header and the elements, writes the header, and stores the elements from the last to the
-- first. The edges that it would add to the graph of references start at the array's node, which
-- `push_type` leaves 0, so there are none.
use march.Prelude.{
  ℕ, zero, suc, ◌+◌, ◌-◌, ◌*◌, Bool, true, ◌&&◌, none, List, [], ◌∷◌, ltb, ◌==◌, if◌then◌else◌,
  length, take, drop,
}
use march.Types.{type_array}
use march.Database.{Storage}
use march.Dictionary.{DictEntry}
use march.Compiler.{Compiler, StackEntry, with_stack}
use march.Compiler.Emit.{
  Result, ◌>>◌, done, fails, with_prim, call, emit_literal, emit_literal_untested, pushing,
}
use march.Compiler.Words.{name_dup, name_swap}

abbrev pub name_alloc : List ℕ
name_alloc = 97 ∷ 108 ∷ 108 ∷ 111 ∷ 99 ∷ []

abbrev pub name_store : List ℕ
name_store = 33 ∷ []

abbrev pub name_cstore : List ℕ
name_cstore = 99 ∷ 33 ∷ []

abbrev pub name_add : List ℕ
name_add = 43 ∷ []

abbrev pub name_tor : List ℕ
name_tor = 62 ∷ 114 ∷ []

abbrev pub name_fromr : List ℕ
name_fromr = 114 ∷ 62 ∷ []

abbrev pub name_rfetch : List ℕ
name_rfetch = 114 ∷ 64 ∷ []

-- The type of the lowest element, and whether all have it. The elements are top first.
pub elem_type : List StackEntry → ℕ
elem_type [] = 0
elem_type (entry ∷ []) = entry.type
elem_type (entry ∷ next ∷ elements) = elem_type (next ∷ elements)

pub all_of_type : ℕ → List StackEntry → Bool
all_of_type type [] = true
all_of_type type (entry ∷ elements) = (entry.type == type) && all_of_type type elements

-- The primitives of the code for an array.
pub record ArrayPrims : Type 0 where
  pub alloc : DictEntry
  pub store : DictEntry
  pub tor : DictEntry
  pub fromr : DictEntry
  pub rfetch : DictEntry
  pub add : DictEntry
  pub dup : DictEntry
  pub cstore : DictEntry

module _ (os : Storage) where
  -- The array's value on the stack, a literal beside it, and a store.
  unfoldable pub store_field : ArrayPrims → ℕ → Compiler → Result
  store_field p value comp = call p.dup comp >> emit_literal_untested os value >> call p.store

  -- A literal at an offset, above a copy of the pointer.
  unfoldable pub at_offset : ArrayPrims → ℕ → Compiler → Result
  at_offset p offset comp = call p.dup comp >> emit_literal_untested os offset >> call p.add

  -- The count at 0, the size of an element at 8, and the type of the elements at 16.
  unfoldable pub write_header : ArrayPrims → ℕ → ℕ → Compiler → Result
  unfolding store_field at_offset
  write_header p count type comp =
      store_field p count comp
      >> at_offset p 8
      >> emit_literal_untested os 8
      >> with_prim name_swap (λ swap c. call swap c >> call p.cstore)
      >> at_offset p 16
      >> emit_literal_untested os type
      >> call p.store

  -- The elements below `n`, from the last to the first.
  unfoldable pub store_elements : ArrayPrims → ℕ → Compiler → Result
  store_elements p zero comp = done comp
  store_elements p (suc i) comp =
      call p.rfetch comp
      >> emit_literal os (32 + i * 8)
      >> call p.add
      >> with_prim name_swap call
      >> call p.store
      >> store_elements p i

  -- The code behind the call of `alloc`, with the element type.
  unfoldable pub fill_array : ℕ → ℕ → DictEntry → DictEntry → Compiler → Result
  unfolding write_header store_elements
  fill_array count type alloc store comp =
      with_prim name_tor
        (λ tor. with_prim name_fromr λ fromr. with_prim name_rfetch λ rfetch.
          with_prim name_add λ add. with_prim name_dup λ dup. with_prim name_cstore λ cstore c.
            let p : ArrayPrims = record {
              alloc = alloc;
              store = store;
              tor = tor;
              fromr = fromr;
              rfetch = rfetch;
              add = add;
              dup = dup;
              cstore = cstore;
            } in
            write_header p count type c >> call tor >> store_elements p count >> call fromr)
        comp

  -- The elements leave the stack, and the array is pushed.
  unfoldable pub replace_elements : List StackEntry → Compiler → Result
  replace_elements below comp = pushing type_array (with_stack comp below)

  unfoldable pub array_of : List StackEntry → List StackEntry → Compiler → Result
  unfolding fill_array replace_elements
  array_of elements below comp =
      if all_of_type (elem_type elements) elements
      then with_prim name_alloc
          (λ alloc. with_prim name_store λ store c.
            emit_literal os (32 + length elements * 8) c
            >> call alloc
            >> fill_array (length elements) (elem_type elements) alloc store
            >> replace_elements below)
          comp
      else fails comp

  unfoldable pub empty_array : List StackEntry → Compiler → Result
  unfolding replace_elements
  empty_array below comp =
      with_prim name_alloc
        (λ alloc. with_prim name_store λ store c.
          emit_literal os 32 c
          >> call alloc
          >> with_prim name_dup call
          >> emit_literal_untested os 0
          >> call store
          >> replace_elements below)
        comp

  -- A stack below the marker is read above its top.
  unfoldable pub compile_rbracket : Compiler → Result
  unfolding array_of empty_array
  compile_rbracket comp = elim comp.array_marker_stack [
    | [] ↦ fails comp
    | marker ∷ markers ↦
        let closed = record comp { array_marker_stack = markers } in
        let depth = length comp.type_stack in
        if ltb depth marker
        then none
        else if depth == marker
        then empty_array comp.type_stack closed
        else array_of (take (depth - marker) comp.type_stack)
            (drop (depth - marker) comp.type_stack) closed
  ]
