-- ===== src/Compiler.antt =====
-- src/compiler.h and src/compiler.c: the compiler's state, its stack of types, its slots and its
-- cache of specializations. The stack of types is the list of its entries, top first; a slot or
-- node that is -1 or 0 is written as `none` and 0. An operation that reports failure returns
-- `false` with the state it leaves. `none` is a loop that does not end or an access out of bounds.
pub mod Emit
pub mod Quotations
pub mod Arrays
pub mod Branches
pub mod Compile
pub mod Handlers
pub mod Word
pub mod Register
pub mod Define
pub mod Mirror
pub mod Typing
pub mod Signature
pub mod Accept
pub mod Mutable
pub mod Words
pub mod Agree
pub mod Slots
pub mod Specialize
pub mod Liveness
mod Examples
use march.Prelude.{
  ℕ, zero, suc, ◌+◌, ◌≤◌, Bool, true, false, ◌&&◌, Option, none, some, List, [], ◌∷◌, ◌++◌, map,
  ltb, leb, ◌==◌, if◌then◌else◌, ◌>>=◌, bytes_eq, length, get_or, set, replicate,
}
use march.Types.{type_any, max_type_stack, max_slots}
use march.Cells.{CellBuffer, cell_buffer_create, cell_buffer_append, encode_xt}
use march.Blob.{BlobBuffer, blob_buffer_create, encode_primitive}
use march.Tokens.{Token}
use march.Database.{Database}
use march.Dictionary.{TypeSig, Dictionary, DictEntry, dict_lookup}
use march.Refgraph.{RefGraph, node_id_invalid, ref_graph_alloc_node}

pub record StackEntry : Type 0 where
  pub type : ℕ
  pub slot_id : Option ℕ
  pub node_id : ℕ

-- `input_types` up to `input_count`.
pub record Specialization : Type 0 where
  pub word_name : List ℕ
  pub input_types : List ℕ
  pub cid : List ℕ

-- `is_literal` is the kind QUOT_LITERAL. The buffers are those made when it is compiled.
pub record Quotation : Type 0 where
  pub is_literal : Bool
  pub cells : CellBuffer
  pub blob : BlobBuffer
  pub tokens : List Token
  pub inputs : List ℕ
  pub outputs : List ℕ

pub record WordDefinition : Type 0 where
  pub name : List ℕ
  pub tokens : List Token
  pub type_sig : Option TypeSig

-- The stacks of quotations and of array markers are top first. The pointer to a stored definition
-- is its index in `word_defs`.
pub record Compiler : Type 0 where
  pub dict : Dictionary
  pub db : Database
  pub type_stack : List StackEntry
  pub cells : CellBuffer
  pub blob : BlobBuffer
  pub ref_graph : Option RefGraph
  pub slot_used : List Bool
  pub slot_count : ℕ
  pub pending_type_sig : Option TypeSig
  pub quot_stack : List Quotation
  pub buffer_stack_depth : ℕ
  pub pending_quot_cids : List (List ℕ)
  pub array_marker_stack : List ℕ
  pub word_defs : List WordDefinition
  pub specializations : List Specialization

abbrev pub max_specializations : ℕ
max_specializations = 512

pub compiler_create : Dictionary → Database → Compiler
compiler_create dict db = record {
  dict = dict;
  db = db;
  type_stack = [];
  cells = cell_buffer_create;
  blob = blob_buffer_create;
  ref_graph = none;
  slot_used = replicate max_slots false;
  slot_count = 0;
  pending_type_sig = none;
  quot_stack = [];
  buffer_stack_depth = 0;
  pending_quot_cids = [];
  array_marker_stack = [];
  word_defs = [];
  specializations = [];
}

abbrev pub with_stack : Compiler → List StackEntry → Compiler
with_stack comp stack = record comp { type_stack = stack }

-- An entry without a slot or a node.
abbrev pub plain_entry : ℕ → StackEntry
plain_entry type = record { type = type; slot_id = none; node_id = node_id_invalid }

pub push_type : Compiler → ℕ → Compiler
push_type comp type =
    if leb max_type_stack (length comp.type_stack)
    then comp
    else record comp { type_stack = plain_entry type ∷ comp.type_stack }

-- The index of the first slot that is not in use.
pub first_free : List Bool → Option ℕ
first_free [] = none
first_free (false ∷ used) = some 0
first_free (true ∷ used) = first_free used >>= λ i. some (suc i)

pub allocate_slot : Compiler → Option ℕ × Compiler
unfolding first_free
allocate_slot comp = elim (first_free comp.slot_used) [
  | none ↦ (none, comp)
  | some i ↦ (
    some i,
    record comp {
      slot_used = set comp.slot_used i true;
      slot_count = if leb comp.slot_count i then i + 1 else comp.slot_count;
    },
  )
]

pub free_slot : Compiler → Option ℕ → Compiler
free_slot comp none = comp
free_slot comp (some slot_id) =
    if ltb slot_id max_slots
    then record comp { slot_used = set comp.slot_used slot_id false }
    else comp

-- The node for a value, if the compiler has a graph.
pub push_node : Compiler → ℕ → ℕ → Option (ℕ × Compiler)
push_node comp type slot_id = elim comp.ref_graph [
  | none ↦ some (node_id_invalid, comp)
  | some graph ↦ ref_graph_alloc_node graph type (some slot_id) >>= λ r.
      some (r.0, record comp { ref_graph = some r.1 })
]

abbrev pub push_in_slot : ℕ → Option ℕ × Compiler → Option Compiler
push_in_slot type (none, comp) = some comp
push_in_slot type (some slot_id, comp) = push_node comp type slot_id >>= λ r. some (record r.1 {
  type_stack = record { type = type; slot_id = some slot_id; node_id = r.0 } ∷ r.1.type_stack;
})

pub push_heap_value : Compiler → ℕ → Option Compiler
unfolding push_node allocate_slot
push_heap_value comp type =
    if leb max_type_stack (length comp.type_stack)
    then some comp
    else push_in_slot type (allocate_slot comp)

pub pop_type_entry : Compiler → StackEntry × Compiler
pop_type_entry comp = elim comp.type_stack [
  | [] ↦ (plain_entry type_any, comp)
  | entry ∷ rest ↦ (entry, record comp { type_stack = rest })
]

pub pop_type : Compiler → ℕ × Compiler
unfolding pop_type_entry
pop_type comp = elim comp.type_stack [
  | [] ↦ (type_any, comp)
  | entry ∷ rest ↦ (entry.type, record comp { type_stack = rest })
]

-- The cell and the two bytes that call a primitive.
pub emit_call : Compiler → DictEntry → Compiler
emit_call comp prim = record comp {
  cells = cell_buffer_append comp.cells (encode_xt prim.addr);
  blob = encode_primitive comp.blob prim.prim_id;
}

-- The test on one entry of the cache.
pub is_specialization : List ℕ → List ℕ → Specialization → Bool
is_specialization word_name input_types spec =
    bytes_eq spec.word_name word_name && bytes_eq spec.input_types input_types

pub find_specialization : List ℕ → List ℕ → List Specialization → Option (List ℕ)
unfolding is_specialization
find_specialization word_name input_types [] = none
find_specialization word_name input_types (spec ∷ specs) =
    if is_specialization word_name input_types spec
    then some spec.cid
    else find_specialization word_name input_types specs

pub specialization_lookup : Compiler → List ℕ → List ℕ → Option (List ℕ)
unfolding find_specialization
specialization_lookup comp word_name input_types =
    find_specialization word_name input_types comp.specializations

-- `input_types` of an entry has 8 places, and the loop does not look where they end: with more
-- types the writes are undefined, which is `none`.
pub specialization_store : Compiler → List ℕ → List ℕ → List ℕ → Option (Bool × Compiler)
specialization_store comp word_name input_types cid =
    if leb max_specializations (length comp.specializations)
    then some (false, comp)
    else if ltb 8 (length input_types)
    then none
    else some (
      true,
      record comp {
        specializations =
            comp.specializations
            ++ record { word_name = word_name; input_types = input_types; cid = cid } ∷ [];
      },
    )
