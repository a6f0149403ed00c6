-- ===== src/ShadowDependenceGraph.antt =====
-- include/IteratorRecognition/Support/ShadowDependenceGraph.hpp: the copy of the dependence graph that
-- the detection of operations works on, its nodes, its edges, and the look-ups.
pub mod Iterations
pub mod Dependent
pub mod Acyclic
pub mod Nodes
pub mod Edges
mod Copies
mod Copied
mod Iterated
mod Twins
pub mod NextIteration
pub mod First
pub mod Built
pub mod Lookup
mod Examples
use iterator_recognition.Prelude.{
  ℕ, zero, suc, ◌+◌, ◌-◌, ◌≤◌, ◌<◌, ◌≡◌, refl, sym, ap, ◌∙◌, subst, ◌≢◌, ◌↔◌, ◌⊎◌, inl, inr, Bool,
  true, false, not, ◌&&◌, ◌||◌, Option, none, some, List, [], ◌∷◌, ◌++◌, map, arith, ltb, leb, ◌==◌,
  if◌then◌else◌, ==_iff, ==_refl, Bool-cases, &&_iff, ||_iff, not_iff, Bool-ext, Option-cases,
  length, ◌∈◌, ∈-append, any, all, filter, find?, is_empty, any_intro, any_elim, any_iff, all_elim,
  all_intro, all_iff, ∈-filter, find?_elim, find?-none, ∈-map, flat_map, ∈-flat_map, contains,
  contains_iff, sort, unique, IsSorted, IsAscending, ∈-sort, sort-IsSorted, ∈-unique,
  unique-IsAscending, Above-lt, IsAscending-ext, insert, insert_all, erase, ∈-insert, ∈-insert_all,
  ∈-erase, IsDistinct,
}

-- What the shadow graph asks of Pedigree's graph: its nodes, the instruction of a node, the nodes that
-- its edges lead to, the node of an instruction, and whether the edge between two nodes has the memory
-- flag; none, if there is no such edge.
pub record SourceGraph : Type 0 where
  pub nodes : List ℕ
  pub unit : ℕ → ℕ
  pub children : ℕ → List ℕ
  pub get_node : ℕ → ℕ
  pub edge_has_memory : ℕ → ℕ → Option Bool

-- SDependenceGraphNode, with the address that it was allocated at.
pub record SNode : Type 0 where
  pub address : ℕ
  pub units : List ℕ
  pub is_next_iteration : Bool
  pub out_edges : List ℕ
  pub in_edges : List ℕ

-- SDependenceGraph: `Nodes`, the pairs of `Iterations`, the entries of `UnitToNode`, and the next
-- address.
pub record SGraph : Type 0 where
  pub nodes : List SNode
  pub iterations : List (ℕ × ℕ)
  pub unit_to_node : List (ℕ × ℕ)
  pub next_address : ℕ

abbrev pub empty_graph : SGraph
empty_graph = record { nodes = []; iterations = []; unit_to_node = []; next_address = 0 }

unfoldable pub make_node : ℕ → ℕ → SNode
make_node a u = record {
  address = a;
  units = u ∷ [];
  is_next_iteration = false;
  out_edges = [];
  in_edges = [];
}

-- `UnitToNode.count(u)` and `UnitToNode[u]`.
unfoldable pub node_of : List (ℕ × ℕ) → ℕ → Option ℕ
node_of [] u = none
node_of ((k, a) ∷ rest) u = if u == k then some a else node_of rest u

-- `UnitToNode.emplace`, which keeps an entry that is there.
unfoldable pub emplace : ℕ → ℕ → List (ℕ × ℕ) → List (ℕ × ℕ)
unfolding node_of
emplace u a m = elim (node_of m u) [ none ↦ m ++ (u, a) ∷ [] | some b ↦ m ]

unfoldable pub add_node_for : ℕ → SGraph → SGraph
unfolding make_node emplace
add_node_for u g = record g {
  nodes = g.nodes ++ make_node g.next_address u ∷ [];
  unit_to_node = emplace u g.next_address g.unit_to_node;
  next_address = g.next_address + 1;
}

unfoldable pub find_node_for : SGraph → ℕ → Option SNode
find_node_for g u = find? (λ n. contains n.units u) g.nodes

abbrev erase_unit : ℕ → List (ℕ × ℕ) → List (ℕ × ℕ)
erase_unit u m = filter (λ e. not (e.0 == u)) m

-- The first element that is equal, `Units.erase(found)`.
unfoldable pub erase_first : ℕ → List ℕ → List ℕ
erase_first u [] = []
erase_first u (x ∷ xs) = if x == u then xs else x ∷ erase_first u xs

-- The nodes, less the unit in the first node that has it, and less this node if it has no other.
unfoldable pub remove_unit : ℕ → List SNode → List SNode
unfolding erase_first
remove_unit u [] = []
remove_unit u (n ∷ ns) =
    if contains n.units u
    then (let units = erase_first u n.units in
        if is_empty units then ns else record n { units = units } ∷ ns)
    else n ∷ remove_unit u ns

unfoldable pub remove_node_for : ℕ → SGraph → SGraph
unfolding remove_unit
remove_node_for u g =
    if any (λ n. contains n.units u) g.nodes
    then record g { nodes = remove_unit u g.nodes; unit_to_node = erase_unit u g.unit_to_node }
    else g

abbrev pub sum : List ℕ → ℕ
sum [] = 0
sum (n ∷ ns) = n + sum ns

unfoldable pub num_out_edges : SGraph → ℕ
num_out_edges g = sum (map (λ n. length n.out_edges) g.nodes)

unfoldable pub num_in_edges : SGraph → ℕ
num_in_edges g = sum (map (λ n. length n.in_edges) g.nodes)

-- What stands at an address, and its edges.
unfoldable pub node_at : List SNode → ℕ → Option SNode
node_at ns a = find? (λ n. n.address == a) ns

unfoldable pub out_edges_at : List SNode → ℕ → List ℕ
unfolding node_at
out_edges_at ns a = elim (node_at ns a) [ none ↦ [] | some n ↦ n.out_edges ]

unfoldable pub in_edges_at : List SNode → ℕ → List ℕ
unfolding node_at
in_edges_at ns a = elim (node_at ns a) [ none ↦ [] | some n ↦ n.in_edges ]

-- The units of the node at an address.
unfoldable pub units_at : List SNode → ℕ → List ℕ
unfolding node_at
units_at ns a = elim (node_at ns a) [ none ↦ [] | some n ↦ n.units ]

-- `sn->OutEdges.push_back(c)` and `c->InEdges.push_back(sn)`, at the node of an address.
unfoldable pub push_out_edge : ℕ → ℕ → List SNode → List SNode
push_out_edge a c ns =
    map (λ n. if n.address == a then record n { out_edges = n.out_edges ++ c ∷ [] } else n) ns

unfoldable pub push_in_edge : ℕ → ℕ → List SNode → List SNode
push_in_edge c a ns =
    map (λ n. if n.address == c then record n { in_edges = n.in_edges ++ a ∷ [] } else n) ns

module _ (source : SourceGraph) where
  -- `computeNodes`
  unfoldable pub compute_nodes_of : (ℕ → Bool) → List ℕ → SGraph → SGraph
  unfolding add_node_for
  compute_nodes_of pred [] g = g
  compute_nodes_of pred (n ∷ ns) g =
      compute_nodes_of pred ns (if pred n then add_node_for (source.unit n) g else g)

  unfoldable pub compute_nodes : (ℕ → Bool) → SGraph → SGraph
  unfolding compute_nodes_of
  compute_nodes pred g = compute_nodes_of pred source.nodes g

  -- The inner loop of `computeEdges`, from the node at `sn`.
  unfoldable pub add_edges : List (ℕ × ℕ) → ℕ → List ℕ → List SNode → List SNode
  unfolding node_of push_out_edge push_in_edge
  add_edges m sn [] ns = ns
  add_edges m sn (e ∷ es) ns = add_edges m sn es (elim (node_of m (source.unit e)) [
    | none ↦ ns
    | some c ↦ push_in_edge c sn (push_out_edge sn c ns)
  ])

  -- The outer loop.
  unfoldable pub compute_edges_of : List (ℕ × ℕ) → List ℕ → List SNode → List SNode
  unfolding node_of add_edges
  compute_edges_of m [] ns = ns
  compute_edges_of m (n ∷ rest) ns = compute_edges_of m rest (elim (node_of m (source.unit n)) [
    | none ↦ ns
    | some sn ↦ add_edges m sn (source.children n) ns
  ])

  unfoldable pub compute_edges : SGraph → SGraph
  unfolding compute_edges_of
  compute_edges g = record g { nodes = compute_edges_of g.unit_to_node source.nodes g.nodes }
