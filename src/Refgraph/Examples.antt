-- ===== src/Refgraph/Examples.antt =====
-- src/refgraph.c at concrete inputs: the graph with one node.
use march.Prelude.{◌≡◌, refl, sym, ◌∙◌, some, arith, get_elem?, replicate, [], ◌∷◌}
use march.Refgraph.{
  RefGraph, ref_graph_create, ref_graph_alloc_node, ref_graph_get_node, new_node, grow_index,
}
use march.Refgraph.Alloc.{IsValid, create-IsValid, Allocates, alloc-Allocates, get_node-unused}

alloc-Allocates_example : (g : RefGraph) × Allocates ref_graph_create 8 (some 3) g
unfolding ref_graph_create
alloc-Allocates_example = alloc-Allocates ref_graph_create 8 (some 3) create-IsValid (omega arith)

-- The graph that this allocation gives.
abbrev one_node : RefGraph
one_node = record {
  nodes = new_node 1 8 (some 3) ∷ [];
  node_capacity = 16;
  next_node_id = 2;
  node_index = replicate 64 0;
}

one_node-made : ref_graph_alloc_node ref_graph_create 8 (some 3) ≡ some (1, one_node)
unfolding ref_graph_alloc_node ref_graph_create grow_index
one_node-made = refl

one_node-IsValid : IsValid one_node
unfolding ref_graph_create
one_node-IsValid =
    let (g, a) = alloc-Allocates ref_graph_create 8 (some 3) create-IsValid (omega arith) in
    let same : g ≡ one_node = ground (arith, sym a.result ∙ one_node-made) in rw same at a.valid

get_node-unused_example : ref_graph_get_node one_node 5 ≡ get_elem? one_node.nodes 0
get_node-unused_example =
    get_node-unused one_node 5 one_node-IsValid (omega arith) (omega arith) (omega arith)
