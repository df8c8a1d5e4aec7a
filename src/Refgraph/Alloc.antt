-- ===== src/Refgraph/Alloc.antt =====
-- src/refgraph.c: an allocated id leads to its node, and an id that was never allocated leads to
-- the first node, since the table is filled with zeros.
use march.Prelude.{
  ℕ, zero, suc, ◌+◌, ◌-◌, ◌*◌, ◌%◌, ◌^◌, ◌≤◌, ◌<◌, ◌≡◌, refl, sym, ◌∙◌, ap, false, inl, inr, Option,
  some, List, [], ◌∷◌, ◌++◌, arith, leb, ◌==◌, Bool-cases, ==_iff, if◌then◌else◌, length, get_elem?,
  get_or, set, replicate, length-append, length-set, length-replicate, get_or-replicate,
  get_or-set_self, get_or-set_ne,
}
use march.Refgraph.{
  RefGraph, ref_graph_create, table_capacity, grow_index, new_node, ref_graph_alloc_node,
  node_position, ref_graph_get_node,
}

-- Ids are given out in order from 1: id `i + 1` stands at position `i`. The rest of the table is 0.
-- The nodes are inside their array, whose capacity the doubling adds to.
pub record IsValid (graph : RefGraph) : Type 0 where
  pub next : graph.next_node_id ≡ length graph.nodes + 1
  pub table : 64 ≤ length graph.node_index
  pub reached : length graph.nodes < length graph.node_index
  pub bounded : length graph.node_index < 2 ^ 62
  pub some_room : 16 ≤ graph.node_capacity
  pub inside : length graph.nodes ≤ graph.node_capacity
  pub lean : graph.node_capacity ≤ length graph.node_index * 2
  pub indexed : (i : ℕ) → i < length graph.nodes → get_or graph.node_index (suc i) 0 ≡ i
  pub unused : (i : ℕ) → length graph.nodes < i → get_or graph.node_index i 0 ≡ 0

pub create-IsValid : IsValid ref_graph_create
unfolding ref_graph_create
create-IsValid = record {
  next = refl;
  table = omega arith;
  reached = omega arith;
  bounded = omega arith;
  some_room = omega arith;
  inside = omega arith;
  lean = omega arith;
  indexed = λ i h. absurd (omega arith);
  unused = λ i h. get_or-replicate 64 i 0;
}

get_or-append_zeros : (xs : List ℕ) (n i : ℕ) → get_or (xs ++ replicate n 0) i 0 ≡ get_or xs i 0
get_or-append_zeros [] n i = get_or-replicate n i 0
get_or-append_zeros (x ∷ xs) n zero = refl
get_or-append_zeros (x ∷ xs) n (suc i) = get_or-append_zeros xs n i

-- Reallocation keeps every entry of the table, and the id fits.
pub grow_index_total :
    (index : List ℕ) (id : ℕ)
    → 64 ≤ length index
    → id ≤ length index
    → length index < 2 ^ 61
    → (t : List ℕ) × (grow_index index id ≡ some t)
      × (id < length t)
      × (length index ≤ length t)
      × (length t ≤ length index * 2)
      × ((i : ℕ) → get_or t i 0 ≡ get_or index i 0)
unfolding grow_index table_capacity
grow_index_total index id some_room fits small = elim (Bool-cases (leb (length index) id)) [
  | inl full ↦
      let twice : length index * 2 % 2 ^ 64 ≡ length index * 2 = omega arith in
      let enough : leb (length index * 2) id ≡ false = ground arith in
      let size = length-append index (replicate (length index * 2 - length index) 0) in
      let zeros = length-replicate (length index * 2 - length index) (let z : ℕ = 0 in z) in
      (
        index ++ replicate (length index * 2 - length index) 0,
        rw (full, twice, enough),
        omega (arith, size, zeros),
        omega (arith, size, zeros),
        omega (arith, size, zeros),
        get_or-append_zeros index (length index * 2 - length index),
      )
  | inr room ↦ (index, rw room, ground arith, omega arith, omega arith, λ i. refl)
]

module _ {ℓ} {A : Type ℓ} where
  get_elem?-append_last : (xs : List A) (x : A) → get_elem? (xs ++ x ∷ []) (length xs) ≡ some x
  get_elem?-append_last [] x = refl
  get_elem?-append_last (y ∷ xs) x = get_elem?-append_last xs x

  get_elem?-append_left :
      (xs ys : List A) (i : ℕ) → i < length xs → get_elem? (xs ++ ys) i ≡ get_elem? xs i
  get_elem?-append_left [] ys i h = absurd (omega arith)
  get_elem?-append_left (y ∷ xs) ys zero h = refl
  get_elem?-append_left (y ∷ xs) ys (suc i) h = get_elem?-append_left xs ys i (omega arith)

nonzero : (i : ℕ) → (suc i == 0) ≡ false
nonzero i = ground arith

-- An id in use leads to the node at its position.
pub get_node-used :
    (graph : RefGraph) (i : ℕ)
    → IsValid graph
    → i < length graph.nodes
    → ref_graph_get_node graph (suc i) ≡ get_elem? graph.nodes i
unfolding ref_graph_get_node node_position
get_node-used graph i ok h =
    let inside : leb (length graph.node_index) (suc i) ≡ false = ground (arith, ok.reached) in
    let small : leb (length graph.nodes) i ≡ false = ground arith in
    let at = ok.indexed i h in rw (nonzero i, inside, at, small)

-- Any id of the table that was never given out leads to the first node of a graph that has one.
pub get_node-unused :
    (graph : RefGraph) (id : ℕ)
    → IsValid graph
    → 0 < length graph.nodes
    → length graph.nodes < id
    → id < length graph.node_index
    → ref_graph_get_node graph id ≡ get_elem? graph.nodes 0
unfolding ref_graph_get_node node_position
get_node-unused graph zero ok some_node fresh inside = absurd (omega arith)
get_node-unused graph (suc i) ok some_node fresh inside =
    let in_table : leb (length graph.node_index) (suc i) ≡ false = ground arith in
    let first : leb (length graph.nodes) 0 ≡ false = ground arith in
    rw (nonzero i, in_table, ok.unused (suc i) fresh, first)

module _ (graph : RefGraph) (obj_type : ℕ) (slot : Option ℕ) (ok : IsValid graph)
    (small : length graph.node_index < 2 ^ 31) (t : List ℕ)
    (grown : grow_index graph.node_index graph.next_node_id ≡ some t)
    (fits : graph.next_node_id < length t) (more : length graph.node_index ≤ length t)
    (twice : length t ≤ length graph.node_index * 2)
    (same : (i : ℕ) → get_or t i 0 ≡ get_or graph.node_index i 0) where
  abbrev id : ℕ
  id = graph.next_node_id

  abbrev fresh : RefGraph
  fresh = record {
    nodes = graph.nodes ++ new_node id obj_type slot ∷ [];
    node_capacity =
        if leb graph.node_capacity (length graph.nodes)
        then graph.node_capacity * 2 % 2 ^ 64
        else graph.node_capacity;
    next_node_id = (id + 1) % 2 ^ 32;
    node_index = set t id (length graph.nodes);
  }

  fresh_count : length fresh.nodes ≡ length graph.nodes + 1
  fresh_count = length-append graph.nodes (new_node id obj_type slot ∷ [])

  fresh_indexed : (i : ℕ) → i < length fresh.nodes → get_or fresh.node_index (suc i) 0 ≡ i
  fresh_indexed i h = elim (Bool-cases (suc i == id)) [
    | inl last ↦
        let e : suc i ≡ id = (==_iff (suc i) id).0 last in
        rw e (get_or-set_self t id (length graph.nodes) 0 fits ∙ omega (arith, ok.next))
    | inr other ↦
        get_or-set_ne t id (suc i) (length graph.nodes) 0 (λ e. ground arith)
        ∙ same (suc i)
        ∙ ok.indexed i (ground (arith, ok.next, fresh_count))
  ]

  fresh-IsValid : IsValid fresh
  fresh-IsValid =
      let width = length-set t id (length graph.nodes) in
      record {
        next = omega (arith, ok.next, fresh_count, ok.reached);
        table = omega (arith, width, ok.table);
        reached = omega (arith, width, fresh_count, ok.next);
        bounded = omega (arith, width, small);
        some_room = ground (arith, ok.some_room, ok.inside, ok.reached, small);
        inside = ground (arith, ok.some_room, ok.inside, ok.reached, small, fresh_count);
        lean = ground (arith, width, ok.lean, ok.next, ok.inside, ok.reached, small);
        indexed = fresh_indexed;
        unused = λ i h.
            get_or-set_ne t id i (length graph.nodes) 0 (λ e. omega (arith, fresh_count, ok.next))
            ∙ same i
            ∙ ok.unused i (omega (arith, fresh_count));
      }

  alloc-fresh : ref_graph_alloc_node graph obj_type slot ≡ some (id, fresh)
  unfolding ref_graph_alloc_node
  alloc-fresh = rw grown

-- An allocation gives the next id, and keeps the table's invariant. The new id leads to a node with
-- the type and slot given, not escaped and without children; every older id leads where it did.
pub record Allocates (graph : RefGraph) (obj_type : ℕ) (slot : Option ℕ) (g : RefGraph)
    : Type 0 where
  pub result : ref_graph_alloc_node graph obj_type slot ≡ some (graph.next_node_id, g)
  pub valid : IsValid g
  pub added :
      ref_graph_get_node g graph.next_node_id ≡ some (new_node graph.next_node_id obj_type slot)
  pub kept :
      (i : ℕ)
      → i < length graph.nodes
      → ref_graph_get_node g (suc i) ≡ ref_graph_get_node graph (suc i)

pub alloc-Allocates :
    (graph : RefGraph) (obj_type : ℕ) (slot : Option ℕ)
    → IsValid graph
    → length graph.node_index < 2 ^ 31
    → (g : RefGraph) × Allocates graph obj_type slot g
alloc-Allocates graph obj_type slot ok small =
    let (t, grown, fits, more, twice, same) =
      grow_index_total graph.node_index graph.next_node_id ok.table
        (omega (arith, ok.next, ok.reached)) (omega arith) in
    let g = fresh graph obj_type slot ok small t grown fits more twice same in
    let valid = fresh-IsValid graph obj_type slot ok small t grown fits more twice same in
    let count = fresh_count graph obj_type slot ok small t grown fits more twice same in
    let here : graph.next_node_id ≡ suc (length graph.nodes) = omega (arith, ok.next) in
    (
      g,
      record {
        result = alloc-fresh graph obj_type slot ok small t grown fits more twice same;
        valid = valid;
        added =
            ap (ref_graph_get_node g) here
            ∙ get_node-used g (length graph.nodes) valid (omega (arith, count))
            ∙ get_elem?-append_last graph.nodes _;
        kept = λ i h.
            get_node-used g i valid (omega (arith, count))
            ∙ get_elem?-append_left graph.nodes _ i h
            ∙ sym (get_node-used graph i ok h);
      },
    )
