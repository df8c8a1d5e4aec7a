-- ===== src/Compiler/Liveness.antt =====
-- src/compiler.c: the marking of the nodes that a word still reaches at its end, and the calls of
-- free for the slots of the others.
use march.Prelude.{
  ℕ, zero, suc, Bool, true, false, Option, none, some, List, [], ◌∷◌, leb, ◌==◌, if◌then◌else◌,
  ◌>>=◌, length, get_or, set, replicate, reverse_onto,
}
use march.Cells.{cell_buffer_append, encode_lit}
use march.Blob.{encode_inline_literal}
use march.Dictionary.{DictEntry, dict_lookup}
use march.Refgraph.{RefNode, RefGraph, node_id_invalid, ref_graph_get_node}
use march.Compiler.{Compiler, StackEntry, emit_call}

abbrev pub Marks : Type 0
Marks = Option (List Bool)

-- Each id in turn.
pub mark_each : (ℕ → List Bool → Marks) → List ℕ → List Bool → Marks
mark_each visit [] marked = some marked
mark_each visit (id ∷ ids) marked = visit id marked >>= λ m. mark_each visit ids m

pub children_of : Option RefNode → List ℕ
children_of none = []
children_of (some node) = node.children

-- On fuel for the depth of the recursion. An id past the table is an access out of bounds.
pub mark_node : ℕ → RefGraph → ℕ → List Bool → Marks
unfolding mark_each children_of
mark_node zero graph node_id marked = none
mark_node (suc fuel) graph node_id marked =
    let visit = mark_node fuel graph in
    if node_id == node_id_invalid
    then some marked
    else if leb (length marked) node_id
    then none
    else if get_or marked node_id false
    then some marked
    else mark_each visit (children_of (ref_graph_get_node graph node_id)) (set marked node_id true)

pub nodes_of : List StackEntry → List ℕ
nodes_of [] = []
nodes_of (entry ∷ stack) = entry.node_id ∷ nodes_of stack

-- The nodes marked as escaped.
pub escaped_of : List RefNode → List ℕ
escaped_of [] = []
escaped_of (node ∷ nodes) =
    if node.is_escaped then node.node_id ∷ escaped_of nodes else escaped_of nodes

-- The literal of the slot and the call of free.
pub emit_free : DictEntry → ℕ → Compiler → Option Compiler
emit_free free_prim slot_id comp = encode_inline_literal comp.blob slot_id >>= λ blob. some (
    emit_call
      (record comp { cells = cell_buffer_append comp.cells (encode_lit slot_id); blob = blob })
      free_prim)

pub free_node : DictEntry → RefNode → Compiler → Option Compiler
unfolding emit_free
free_node free_prim node comp = elim node.slot_id [
  | none ↦ some comp
  | some slot_id ↦ emit_free free_prim slot_id comp
]

pub free_dead : DictEntry → List Bool → List RefNode → Compiler → Option Compiler
unfolding free_node
free_dead free_prim marked [] comp = some comp
free_dead free_prim marked (node ∷ nodes) comp =
    (if get_or marked node.node_id false then some comp else free_node free_prim node comp) >>= λ c.
    free_dead free_prim marked nodes c

abbrev pub name_free : List ℕ
name_free = 102 ∷ 114 ∷ 101 ∷ 101 ∷ []

-- The roots are the nodes on the stack of types, from the bottom, and then the escaped ones.
pub free_unreached : ℕ → RefGraph → Compiler → Option Compiler
unfolding mark_each mark_node nodes_of escaped_of free_dead
free_unreached fuel graph comp =
    mark_each (mark_node fuel graph) (reverse_onto (nodes_of comp.type_stack) [])
      (replicate (length graph.node_index) false)
    >>= λ reached. mark_each (mark_node fuel graph) (escaped_of graph.nodes) reached >>= λ marked.
        elim (dict_lookup comp.dict name_free) [
          | none ↦ some comp
          | some free_prim ↦ free_dead free_prim marked graph.nodes comp
        ]

pub emit_free_for_dead_nodes : ℕ → Compiler → Option Compiler
unfolding free_unreached
emit_free_for_dead_nodes fuel comp = elim comp.ref_graph [
  | none ↦ some comp
  | some graph ↦ if length graph.nodes == 0 then some comp else free_unreached fuel graph comp
]
