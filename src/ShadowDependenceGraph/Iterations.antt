-- ===== src/ShadowDependenceGraph/Iterations.antt =====
-- The copies of the nodes for the next iteration, their edges, and the edges across.
use iterator_recognition.Prelude.{
  ℕ, ◌+◌, true, false, ◌||◌, Option, none, some, List, [], ◌∷◌, ◌++◌, ltb, ◌==◌, if◌then◌else◌, any,
  sort, insert,
}
use iterator_recognition.ShadowDependenceGraph.{
  SourceGraph, SNode, SGraph, make_node, node_of, units_at, out_edges_at, push_out_edge,
  push_in_edge,
}

-- `Iterations.insert`: neither side of the bimap holds a node twice.
unfoldable pub insert_pair : ℕ → ℕ → List (ℕ × ℕ) → List (ℕ × ℕ)
insert_pair n0 n1 pairs =
    if any (λ e. e.0 == n0 || e.1 == n1) pairs then pairs else pairs ++ (n0, n1) ∷ []

-- `niNodes`, with what else the loop changes.
pub record NextNodes : Type 0 where
  pub made : List SNode
  pub pairs : List (ℕ × ℕ)
  pub next_address : ℕ

unfoldable pub copy_units : ℕ → List ℕ → NextNodes → NextNodes
unfolding insert_pair make_node
copy_units n0 [] s = s
copy_units n0 (u ∷ us) s = copy_units n0 us (record {
  made = s.made ++ (record (make_node s.next_address u) { is_next_iteration = true }) ∷ [];
  pairs = insert_pair n0 s.next_address s.pairs;
  next_address = s.next_address + 1;
})

unfoldable pub copy_nodes : List SNode → NextNodes → NextNodes
unfolding copy_units
copy_nodes [] s = s
copy_nodes (n ∷ ns) s = copy_nodes ns (copy_units n.address n.units s)

unfoldable pub compute_next_iteration_nodes : SGraph → SGraph
unfolding copy_nodes
compute_next_iteration_nodes g =
    let s =
      copy_nodes g.nodes
        (record { made = []; pairs = g.iterations; next_address = g.next_address }) in
    record g { nodes = g.nodes ++ s.made; iterations = s.pairs; next_address = s.next_address }

-- `by<iteration0>().at(n0)` and `by<iteration1>().at(n1)`; none, if they throw.
unfoldable pub next_of : List (ℕ × ℕ) → ℕ → Option ℕ
next_of [] n0 = none
next_of ((a, b) ∷ rest) n0 = if n0 == a then some b else next_of rest n0

unfoldable pub original_of : List (ℕ × ℕ) → ℕ → Option ℕ
original_of [] n1 = none
original_of ((a, b) ∷ rest) n1 = if n1 == b then some a else original_of rest n1

-- The loop over the edges of `n0`: the copies' out-edges lead to copies, and the in-edges to `n0`.
unfoldable pub copy_edges : List (ℕ × ℕ) → ℕ → ℕ → List ℕ → List SNode → Option (List SNode)
unfolding next_of push_out_edge push_in_edge
copy_edges pairs n1 n0 [] ns = some ns
copy_edges pairs n1 n0 (e ∷ es) ns = elim (next_of pairs e) [
  | none ↦ none
  | some e1 ↦ copy_edges pairs n1 n0 es (push_in_edge e1 n0 (push_out_edge n1 e1 ns))
]

-- The loop over the nodes, which stay in their places while their edges grow.
unfoldable pub copy_all_edges : List (ℕ × ℕ) → List SNode → List SNode → Option (List SNode)
unfolding original_of copy_edges out_edges_at
copy_all_edges pairs [] ns = some ns
copy_all_edges pairs (n1 ∷ rest) ns = elim n1.is_next_iteration [
  | true ↦ elim (original_of pairs n1.address) [
    | none ↦ none
    | some n0 ↦ elim (copy_edges pairs n1.address n0 (out_edges_at ns n0) ns) [
      | none ↦ none
      | some ns' ↦ copy_all_edges pairs rest ns'
    ]
  ]
  | false ↦ copy_all_edges pairs rest ns
]

unfoldable pub compute_next_iteration_edges : SGraph → Option SGraph
unfolding copy_all_edges
compute_next_iteration_edges g = elim (copy_all_edges g.iterations g.nodes g.nodes) [
  | none ↦ none
  | some ns ↦ some (record g { nodes = ns })
]

module _ (source : SourceGraph) where
  -- The units of the nodes that the edges of `n0` lead to.
  unfoldable pub units_along : List SNode → List ℕ → List ℕ
  unfolding units_at
  units_along ns [] = []
  units_along ns (e ∷ es) = units_at ns e ++ units_along ns es

  -- `unitDestinations`, of the edges from `src` that are through memory.
  unfoldable pub memory_destinations : ℕ → List ℕ → List ℕ → Option (List ℕ)
  unfolding insert
  memory_destinations src [] s = some s
  memory_destinations src (dst ∷ dsts) s =
      elim (source.edge_has_memory (source.get_node src) (source.get_node dst)) [
        | none ↦ none
        | some true ↦ memory_destinations src dsts (insert (source.unit (source.get_node dst)) s)
        | some false ↦ memory_destinations src dsts s
      ]

  -- The nodes of `UnitToNode` for the destinations.
  unfoldable pub insert_nodes : List (ℕ × ℕ) → List ℕ → List ℕ → Option (List ℕ)
  unfolding node_of insert
  insert_nodes m [] s = some s
  insert_nodes m (u ∷ us) s = elim (node_of m u) [
    | none ↦ none
    | some a ↦ insert_nodes m us (insert a s)
  ]

  -- `nodeSources`
  unfoldable pub node_sources : SGraph → SNode → List ℕ → List ℕ → Option (List ℕ)
  unfolding units_along memory_destinations insert_nodes
  node_sources g n0 [] s = some s
  node_sources g n0 (u ∷ us) s =
      elim (memory_destinations u (units_along g.nodes n0.out_edges) []) [
        | none ↦ none
        | some ds ↦ elim (insert_nodes g.unit_to_node ds s) [
          | none ↦ none
          | some s' ↦ node_sources g n0 us s'
        ]
      ]

  -- `ciEdges`, a map in the order of its keys.
  unfoldable pub insert_entry : ℕ → List ℕ → List (ℕ × List ℕ) → List (ℕ × List ℕ)
  insert_entry k vs [] = (k, vs) ∷ []
  insert_entry k vs ((j, ws) ∷ m) =
      if k == j
      then (j, ws ++ vs) ∷ m
      else if ltb k j
      then (k, vs) ∷ (j, ws) ∷ m
      else (j, ws) ∷ insert_entry k vs m

  unfoldable pub cross_edges : SGraph → List SNode → List (ℕ × List ℕ) → Option (List (ℕ × List ℕ))
  unfolding node_sources next_of insert_entry sort
  cross_edges g [] m = some m
  cross_edges g (n0 ∷ rest) m = elim n0.is_next_iteration [
    | true ↦ cross_edges g rest m
    | false ↦ elim (node_sources g n0 n0.units []) [
      | none ↦ none
      | some s ↦ elim (next_of g.iterations n0.address) [
        | none ↦ none
        | some n1 ↦ cross_edges g rest (insert_entry n1 (sort s) m)
      ]
    ]
  ]

  unfoldable pub push_cross : ℕ → List ℕ → List SNode → List SNode
  unfolding push_in_edge push_out_edge
  push_cross n1 [] ns = ns
  push_cross n1 (n0 ∷ rest) ns = push_cross n1 rest (push_in_edge n1 n0 (push_out_edge n0 n1 ns))

  unfoldable pub push_all_cross : List (ℕ × List ℕ) → List SNode → List SNode
  unfolding push_cross
  push_all_cross [] ns = ns
  push_all_cross ((n1, sources) ∷ rest) ns = push_all_cross rest (push_cross n1 sources ns)

  -- `computeCrossIterationEdges`, less what it prints.
  unfoldable pub compute_cross_iteration_edges : SGraph → Option SGraph
  unfolding cross_edges push_all_cross
  compute_cross_iteration_edges g = elim (cross_edges g g.nodes []) [
    | none ↦ none
    | some m ↦ some (record g { nodes = push_all_cross m g.nodes })
  ]
