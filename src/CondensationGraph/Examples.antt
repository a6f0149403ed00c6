-- ===== src/CondensationGraph/Examples.antt =====
-- unittests/CondensationGraphTests.cpp: its graph and its tests. The components are given in an order
-- that `llvm::scc_iterator` may have: each after those that its edges lead to.
use iterator_recognition.Prelude.{
  ℕ, ◌+◌, ◌≡◌, refl, ◌↔◌, inl, inr, Bool, true, false, ◌&&◌, Option, none, some, List, [], ◌∷◌,
  arith, ◌==◌, if◌then◌else◌, length, ◌∈◌,
}
use iterator_recognition.CondensationGraph.{
  CondensationNode, Condensations, enumerate, condense, find,
}
use iterator_recognition.CondensationGraph.Edges.{IsPartition, Leads, condense-edges_iff}
use iterator_recognition.CondensationGraph.Entry.{IsEntry, condense-IsEntry, find-condense}

-- `SetUp`: the six nodes, and the root node 6, which leads to each of them.
abbrev fixture_children : ℕ → List ℕ
fixture_children n =
    if n == 0
    then 1 ∷ 5 ∷ []
    else if n == 1
    then 2 ∷ 5 ∷ []
    else if n == 2
    then 0 ∷ 3 ∷ []
    else if n == 3
    then 4 ∷ 5 ∷ []
    else if n == 4
    then 3 ∷ 5 ∷ []
    else if n == 6
    then 0 ∷ 1 ∷ 2 ∷ 3 ∷ 4 ∷ 5 ∷ []
    else []

abbrev fixture_inverse_children : ℕ → List ℕ
fixture_inverse_children n =
    if n == 0
    then 2 ∷ 6 ∷ []
    else if n == 1
    then 0 ∷ 6 ∷ []
    else if n == 2
    then 1 ∷ 6 ∷ []
    else if n == 3
    then 4 ∷ 2 ∷ 6 ∷ []
    else if n == 4
    then 3 ∷ 6 ∷ []
    else if n == 5
    then 0 ∷ 1 ∷ 3 ∷ 4 ∷ 6 ∷ []
    else []

-- The root node has no unit.
abbrev unit : ℕ → Option ℕ
unit n = if n == 6 then none else some n

abbrev sccs : List (List ℕ)
sccs = (5 ∷ []) ∷ (4 ∷ 3 ∷ []) ∷ (2 ∷ 1 ∷ 0 ∷ []) ∷ (6 ∷ []) ∷ []

abbrev condensation : List ℕ → List ℕ → List ℕ → CondensationNode
condensation members outs ins = record { nodes = members; out_edges = outs; in_edges = ins }

abbrev condensed : Condensations
condensed = record {
  nodes =
      condensation (5 ∷ []) [] (1 ∷ 2 ∷ 3 ∷ [])
      ∷ condensation (4 ∷ 3 ∷ []) (0 ∷ []) (2 ∷ 3 ∷ [])
      ∷ condensation (2 ∷ 1 ∷ 0 ∷ []) (0 ∷ 1 ∷ []) (3 ∷ [])
      ∷ condensation (6 ∷ []) (0 ∷ 1 ∷ 2 ∷ []) []
      ∷ [];
  entry_node = some 3;
}

condense_runs : condense fixture_children fixture_inverse_children unit sccs ≡ some condensed
unfolding condense
condense_runs = refl

-- The number of what `part` gives for the condensation that `find` gives for a node, against what is
-- expected; false, if there is none.
abbrev expect_count : Condensations → (CondensationNode → List ℕ) → ℕ → ℕ → Bool
expect_count g part n count = elim (find g n) [
  | none ↦ false
  | some (c, node) ↦ length (part node) == count
]

-- The tests, on the graph that the constructor makes.
abbrev condensations_count : Condensations → Bool
condensations_count g = length g.nodes == 3 + 1

abbrev condensation_nodes_count : Condensations → Bool
condensation_nodes_count g =
    expect_count g (λ c. c.nodes) 0 3
    && expect_count g (λ c. c.nodes) 3 2
    && expect_count g (λ c. c.nodes) 5 1

abbrev condensation_out_edges_count : Condensations → Bool
condensation_out_edges_count g =
    expect_count g (λ c. c.out_edges) 0 2
    && expect_count g (λ c. c.out_edges) 3 1
    && expect_count g (λ c. c.out_edges) 5 0

abbrev condensation_in_edges_count : Condensations → Bool
condensation_in_edges_count g =
    expect_count g (λ c. c.in_edges) 1 1
    && expect_count g (λ c. c.in_edges) 3 2
    && expect_count g (λ c. c.in_edges) 5 3

tests_pass :
    (condensations_count condensed ≡ true)
    × (condensation_nodes_count condensed ≡ true)
    × (condensation_out_edges_count condensed ≡ true)
    × (condensation_in_edges_count condensed ≡ true)
unfolding find
tests_pass = (refl, refl, refl, refl)

sccs-IsPartition : IsPartition sccs
sccs-IsPartition c d n x y m k p q = ground arith

condense-IsEntry_example : IsEntry unit sccs (some 3)
condense-IsEntry_example =
    condense-IsEntry unit fixture_children fixture_inverse_children sccs condensed condense_runs

find-condense_example :
    ((c : ℕ) (node : CondensationNode)
      → (find condensed 4 ≡ some (c, node))
        ↔ (((c, node) ∈ enumerate 0 condensed.nodes) × (4 ∈ node.nodes)))
    × ((find condensed 4 ≡ none) ↔ ((c : ℕ) (x : List ℕ) → (c, x) ∈ enumerate 0 sccs → ¬ (4 ∈ x)))
find-condense_example =
    find-condense unit fixture_children fixture_inverse_children sccs sccs-IsPartition condensed 4
      condense_runs

condense-edges_iff_example :
    (0 ∈ (condensation (4 ∷ 3 ∷ []) (0 ∷ []) (2 ∷ 3 ∷ [])).out_edges
      ↔ Leads fixture_children sccs 1 (4 ∷ 3 ∷ []) 0)
    × (0 ∈ (condensation (4 ∷ 3 ∷ []) (0 ∷ []) (2 ∷ 3 ∷ [])).in_edges
        ↔ Leads fixture_inverse_children sccs 1 (4 ∷ 3 ∷ []) 0)
condense-edges_iff_example =
    condense-edges_iff fixture_children fixture_inverse_children unit sccs sccs-IsPartition
      condensed 1 0 (condensation (4 ∷ 3 ∷ []) (0 ∷ []) (2 ∷ 3 ∷ [])) condense_runs (inr (inl refl))
