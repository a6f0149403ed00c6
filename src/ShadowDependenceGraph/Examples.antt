-- ===== src/ShadowDependenceGraph/Examples.antt =====
-- The shadow graph of a load 21, a sum 22 of it and a store 23, of which 41 is no payload.
use iterator_recognition.Prelude.{
  ℕ, ◌<◌, ◌≡◌, refl, ap, subst, arith, ◌↔◌, ◌⊎◌, inl, inr, Bool, true, false, Option, none, some,
  List, [], ◌∷◌, ◌++◌, ltb, ◌==◌, if◌then◌else◌, ◌∈◌,
}
use iterator_recognition.ShadowDependenceGraph.{
  SourceGraph, SGraph, empty_graph, node_of, node_at, out_edges_at, in_edges_at, remove_node_for,
  num_out_edges, num_in_edges, compute_nodes, compute_edges,
}
use iterator_recognition.ShadowDependenceGraph.Edges.{HasEdge, ∈-compute_edges}
use iterator_recognition.ShadowDependenceGraph.Nodes.{
  IsBuilt, IsChosen, is_entry, compute_nodes-IsBuilt, compute_nodes-IsBuilt-node_of,
}
use iterator_recognition.ShadowDependenceGraph.NextIteration.{IsIterated}
use iterator_recognition.ShadowDependenceGraph.First.{compute_next_iteration_edges-compute_edges}
use iterator_recognition.ShadowDependenceGraph.Lookup.{IsBuilt-IsPointing}
use iterator_recognition.Ir.{Ir, is_inst, constant, instruction, Opcode}
use iterator_recognition.ShadowDependenceGraph.Iterations.{
  compute_next_iteration_nodes, compute_next_iteration_edges, compute_cross_iteration_edges,
}
use iterator_recognition.ShadowDependenceGraph.Dependent.{
  onward, is_iterator_value, is_iterator_dependent, is_iterator_dependent-diverges,
}
use iterator_recognition.Worklist.Chains.{begins, continues}
use iterator_recognition.ShadowDependenceGraph.Acyclic.{
  total, operand_chains, LeadsTo, IsLedToFrom, is_iterator_dependent-returns,
}

abbrev source : SourceGraph
source = record {
  nodes = 4 ∷ 1 ∷ 2 ∷ 3 ∷ [];
  unit = λ n. if n == 4 then 41 else if n == 1 then 21 else if n == 2 then 22 else 23;
  children =
      λ n. if n == 4 then 2 ∷ [] else if n == 1 then 2 ∷ [] else if n == 2 then 3 ∷ [] else [];
  get_node = λ u. if u == 41 then 4 else if u == 21 then 1 else if u == 22 then 2 else 3;
  edge_has_memory = λ a b. some false;
}

abbrev is_payload : ℕ → Bool
is_payload n = ltb n 4

abbrev nodes_made : SGraph
nodes_made = compute_nodes source is_payload empty_graph

edges_made :
    (num_out_edges (compute_edges source nodes_made) ≡ 2)
    × (num_in_edges (compute_edges source nodes_made) ≡ 2)
unfolding compute_edges compute_nodes num_out_edges num_in_edges
edges_made = (refl, refl)

leads_on : out_edges_at (compute_edges source nodes_made).nodes 1 ≡ 2 ∷ []
unfolding compute_edges compute_nodes out_edges_at
leads_on = refl

-- Removing a node leaves the edges to it.
dangling :
    (out_edges_at (remove_node_for 23 (compute_edges source nodes_made)).nodes 1 ≡ 2 ∷ [])
    × (node_at (remove_node_for 23 (compute_edges source nodes_made)).nodes 2 ≡ none)
unfolding compute_edges compute_nodes out_edges_at remove_node_for
dangling = (refl, refl)

compute_nodes-IsBuilt-node_of_example :
    IsBuilt (compute_nodes source is_payload empty_graph)
    × ((u : ℕ)
        → (is_entry (node_of (compute_nodes source is_payload empty_graph).unit_to_node u) ≡ true)
          ↔ IsChosen source is_payload source.nodes u)
compute_nodes-IsBuilt-node_of_example = compute_nodes-IsBuilt-node_of source is_payload

∈-compute_edges_example :
    (2 ∈ out_edges_at (compute_edges source nodes_made).nodes 1 ↔ (
      HasEdge source nodes_made.unit_to_node source.nodes 1 2
      ⊎ (2 ∈ out_edges_at nodes_made.nodes 1)))
    × (1 ∈ in_edges_at (compute_edges source nodes_made).nodes 2 ↔ (
        HasEdge source nodes_made.unit_to_node source.nodes 1 2
        ⊎ (1 ∈ in_edges_at nodes_made.nodes 2)))
∈-compute_edges_example =
    ∈-compute_edges source nodes_made 1 2
      (IsBuilt-IsPointing nodes_made (compute_nodes-IsBuilt source is_payload))

compute_next_iteration_edges-compute_edges_example :
    (after : SGraph) × (compute_next_iteration_edges (
        compute_next_iteration_nodes
          (compute_edges source (compute_nodes source is_payload empty_graph)))
      ≡ some after)
    × IsIterated
        (compute_edges source (compute_nodes source is_payload empty_graph))
        after
        (compute_next_iteration_nodes
          (compute_edges source (compute_nodes source is_payload empty_graph))).iterations
compute_next_iteration_edges-compute_edges_example =
    compute_next_iteration_edges-compute_edges source is_payload

-- The in-edges of the copies for the next iteration lead back to the first iteration's nodes: 4 is the
-- copy of 1, and the edge to it from the copy 3 of 0 stands at 4 as one from 0.
next_iteration : SGraph
next_iteration = compute_next_iteration_nodes (compute_edges source nodes_made)

edges_of : Option SGraph → ℕ → List ℕ × List ℕ
edges_of none a = ([], [])
edges_of (some g) a = (out_edges_at g.nodes a, in_edges_at g.nodes a)

copied_edges :
    (edges_of (compute_next_iteration_edges next_iteration) 3 ≡ (4 ∷ [], []))
    × (edges_of (compute_next_iteration_edges next_iteration) 4 ≡ (5 ∷ [], 0 ∷ []))
unfolding compute_edges compute_nodes compute_next_iteration_nodes compute_next_iteration_edges
    edges_of next_iteration out_edges_at in_edges_at
copied_edges = (refl, refl)

abbrev through_memory : SourceGraph
through_memory = record source { edge_has_memory = λ a b. some (a == 1) }

crossed_edges :
    edges_of (compute_cross_iteration_edges through_memory next_iteration) 3 ≡ ([], 1 ∷ [])
unfolding compute_edges compute_nodes compute_next_iteration_nodes compute_cross_iteration_edges
    edges_of next_iteration out_edges_at in_edges_at
crossed_edges = refl

-- 21 and 22 are operands of each other; 11 is one of 22, of 23 and of 31, and the alloca 32 is one of
-- 31.
abbrev ir : Ir
ir = record {
  kind = λ v.
      if v == 41
      then constant
      else if v == 32
      then instruction Opcode.alloca
      else instruction Opcode.phi;
  operands = λ v.
      if v == 21
      then 41 ∷ 22 ∷ []
      else if v == 22
      then 11 ∷ 21 ∷ []
      else if v == 23
      then 41 ∷ 11 ∷ []
      else if v == 31
      then 11 ∷ 32 ∷ []
      else if v == 32
      then 21 ∷ []
      else [];
  operand = λ v n. 0;
  pointer_operand = λ v. 0;
  value_operand = λ v. 0;
  incoming_values = λ v. [];
  indices = λ v. [];
  users = λ v. [];
  parent = λ i. 1;
  insts = λ b. [];
  may_read_from_memory = λ v. false;
  may_write_to_memory = λ v. false;
  is_binary_op = λ v. false;
  is_unary_instruction = λ v. false;
}

dependent_runs : is_iterator_dependent ir (11 ∷ []) 9 23 ≡ some true
unfolding is_iterator_dependent
dependent_runs = refl

abbrev rank : ℕ → ℕ
rank v = if v == 31 then 1 else 0

led_to_31 : (u : ℕ) → IsLedToFrom ir (11 ∷ []) 31 u → (u ≡ 31) ⊎ (u ≡ 11) ⊎ (u ≡ 32)
led_to_31 u (begins q) = inl q
led_to_31 w (continues {u} c (inst, kept, m)) = elim (led_to_31 u c) [
  | inl q ↦ ground (arith, subst (λ (x : ℕ). w ∈ ir.operands x) q m)
  | inr (inl q) ↦ absurd (subst (λ (x : ℕ). w ∈ ir.operands x) q m)
  | inr (inr q) ↦ absurd (kept (ap ir.kind q))
]

rank_falls : (u w : ℕ) → IsLedToFrom ir (11 ∷ []) 31 u → LeadsTo ir (11 ∷ []) u w → rank w < rank u
rank_falls u w c (inst, kept, m) = elim (led_to_31 u c) [
  | inl q ↦ elim (subst (λ (x : ℕ). w ∈ ir.operands x) q m) [
    | inl p ↦ rw (q, p) (omega arith)
    | inr (inl p) ↦ rw (q, p) (omega arith)
    | inr (inr n) ↦ absurd n
  ]
  | inr (inl q) ↦ absurd (subst (λ (x : ℕ). w ∈ ir.operands x) q m)
  | inr (inr q) ↦ absurd (kept (ap ir.kind q))
]

is_iterator_dependent-returns_example :
    (b : Bool) × (is_iterator_dependent ir (11 ∷ []) 3 31 ≡ some b)
    × ((b ≡ true)
        ↔ ((x : ℕ) × IsLedToFrom ir (11 ∷ []) 31 x × (is_inst ir x ≡ true) × (x ∈ 11 ∷ [])))
unfolding operand_chains total
is_iterator_dependent-returns_example =
    is_iterator_dependent-returns ir (11 ∷ []) rank 31 rank_falls 3 (omega arith)

-- The search from 21 goes round by 22, though 22 has the iterator value 11 for an operand too.
abbrev InCycle : ℕ → Type 0
InCycle v = (v ≡ 21) ⊎ (v ≡ 22)

keeps_going_round :
    (v : ℕ)
    → InCycle v
    → (is_iterator_value ir (11 ∷ []) v ≡ false)
      × ((before : List ℕ) × (w : ℕ) × (onward ir (11 ∷ []) v ≡ before ++ w ∷ []) × InCycle w)
unfolding is_iterator_value onward
keeps_going_round v (inl q) = rw q (refl, (41 ∷ [], 22, refl, inr refl))
keeps_going_round v (inr q) = rw q (refl, (11 ∷ [], 21, refl, inl refl))

is_iterator_dependent-diverges_example : is_iterator_dependent ir (11 ∷ []) 1000 21 ≡ none
is_iterator_dependent-diverges_example =
    is_iterator_dependent-diverges ir (11 ∷ []) InCycle keeps_going_round 21 (inl refl) 1000
