-- ===== src/Refgraph.antt =====
-- src/refgraph.c and its types in src/types.h: the graph of the objects that a word allocates.
-- `nodes` holds the nodes in use, `node_index` the whole lookup table, which is as long as its
-- capacity. A slot that is -1 is `none`. `none` as a graph is the null pointer; as the result of
-- `table_capacity` it is a loop that does not end. Allocation is taken to succeed.
pub mod Alloc
mod Examples
use march.Prelude.{
  ℕ, zero, suc, ◌+◌, ◌-◌, ◌*◌, ◌%◌, ◌^◌, Bool, true, false, ◌||◌, Option, none, some, List, [], ◌∷◌,
  ◌++◌, leb, ltb, ◌==◌, if◌then◌else◌, ◌>>=◌, length, get_elem?, get_or, set, replicate,
}

abbrev pub node_id_invalid : ℕ
node_id_invalid = 0

pub record RefNode : Type 0 where
  pub node_id : ℕ
  pub object_type : ℕ
  pub slot_id : Option ℕ
  pub is_escaped : Bool
  pub children : List ℕ

pub record RefGraph : Type 0 where
  pub nodes : List RefNode
  pub node_capacity : ℕ
  pub next_node_id : ℕ
  pub node_index : List ℕ

pub ref_graph_create : RefGraph
ref_graph_create = record {
  nodes = [];
  node_capacity = 16;
  next_node_id = 1;
  node_index = replicate 64 0;
}

pub ref_graph_clear : RefGraph → RefGraph
ref_graph_clear graph = record graph {
  nodes = [];
  next_node_id = 1;
  node_index = replicate (length graph.node_index) 0;
}

-- `while (new_id >= new_capacity) new_capacity *= 2`
pub table_capacity : ℕ → ℕ → ℕ → Option ℕ
table_capacity zero new_id capacity = none
table_capacity (suc fuel) new_id capacity =
    let more = table_capacity fuel new_id (capacity * 2 % 2 ^ 64) in
    if leb capacity new_id then more else some capacity

-- The table with room for an id: as it was, or reallocated with the new entries zeroed.
pub grow_index : List ℕ → ℕ → Option (List ℕ)
unfolding table_capacity
grow_index index new_id =
    if leb (length index) new_id
    then (table_capacity 33 new_id (length index * 2 % 2 ^ 64) >>= λ capacity.
        some (index ++ replicate (capacity - length index) 0))
    else some index

abbrev pub new_node : ℕ → ℕ → Option ℕ → RefNode
new_node new_id obj_type slot_id = record {
  node_id = new_id;
  object_type = obj_type;
  slot_id = slot_id;
  is_escaped = false;
  children = [];
}

pub ref_graph_alloc_node : RefGraph → ℕ → Option ℕ → Option (ℕ × RefGraph)
unfolding grow_index
ref_graph_alloc_node graph obj_type slot_id =
    grow_index graph.node_index graph.next_node_id >>= λ index. some (
      graph.next_node_id,
      record {
        nodes = graph.nodes ++ new_node graph.next_node_id obj_type slot_id ∷ [];
        node_capacity =
            if leb graph.node_capacity (length graph.nodes)
            then graph.node_capacity * 2 % 2 ^ 64
            else graph.node_capacity;
        next_node_id = (graph.next_node_id + 1) % 2 ^ 32;
        node_index = set index graph.next_node_id (length graph.nodes);
      },
    )

-- The position of a node, where the C returns its address.
pub node_position : RefGraph → ℕ → Option ℕ
node_position graph node_id =
    if node_id == node_id_invalid || leb (length graph.node_index) node_id
    then none
    else (let idx = get_or graph.node_index node_id 0 in
        if leb (length graph.nodes) idx then none else some idx)

pub ref_graph_get_node : RefGraph → ℕ → Option RefNode
unfolding node_position
ref_graph_get_node graph node_id = node_position graph node_id >>= get_elem? graph.nodes

pub change_at : List RefNode → ℕ → (RefNode → RefNode) → List RefNode
change_at [] i f = []
change_at (n ∷ nodes) zero f = f n ∷ nodes
change_at (n ∷ nodes) (suc i) f = n ∷ change_at nodes i f

pub change_node : RefGraph → (RefNode → RefNode) → Option ℕ → RefGraph
unfolding change_at
change_node graph f none = graph
change_node graph f (some idx) = record graph { nodes = change_at graph.nodes idx f }

pub ref_graph_add_child : RefGraph → ℕ → ℕ → RefGraph
unfolding change_node node_position
ref_graph_add_child graph parent_id child_id =
    change_node graph (λ n. record n { children = n.children ++ child_id ∷ [] })
      (node_position graph parent_id)

pub ref_graph_mark_escaped : RefGraph → ℕ → RefGraph
unfolding change_node node_position
ref_graph_mark_escaped graph node_id =
    change_node graph (λ n. record n { is_escaped = true }) (node_position graph node_id)
