-- ===== src/Recognition/Examples.antt =====
-- A loop at work: node 0 is the virtual root, nodes 1 and 2 form the iterator, node 3 the payload.
use iterator_recognition.Prelude.{
  ℕ, ◌+◌, ◌<◌, ◌≡◌, refl, ◌↔◌, ◌⊎◌, inl, inr, true, false, Option, none, some, List, [], ◌∷◌, arith,
  ◌==◌, if◌then◌else◌, Option-cases, ◌∈◌,
}
use iterator_recognition.Ir.{LoopInfo}
use iterator_recognition.CondensationGraph.{CondensationNode, Condensations, enumerate, condense}
use iterator_recognition.CondensationGraph.Edges.{IsPartition, condense-returns}
use iterator_recognition.Recognition.{
  map_condensation_to_loops, RecognitionInfo, recognize, get_iterators_for,
}
use iterator_recognition.Recognition.Sources.{IsIteratorOf, recognize_iff}

abbrev children : ℕ → List ℕ
children n = if n == 0 then 1 ∷ [] else if n == 1 then 2 ∷ [] else if n == 2 then 1 ∷ 3 ∷ [] else []

abbrev inverse_children : ℕ → List ℕ
inverse_children n =
    if n == 1 then 0 ∷ 2 ∷ [] else if n == 2 then 1 ∷ [] else if n == 3 then 2 ∷ [] else []

abbrev unit : ℕ → Option ℕ
unit n = if n == 0 then none else some (n + 10)

abbrev sccs : List (List ℕ)
sccs = (3 ∷ []) ∷ (2 ∷ 1 ∷ []) ∷ (0 ∷ []) ∷ []

abbrev payload_node : CondensationNode
payload_node = record { nodes = 3 ∷ []; out_edges = []; in_edges = 1 ∷ [] }

abbrev iterator_node : CondensationNode
iterator_node = record { nodes = 2 ∷ 1 ∷ []; out_edges = 0 ∷ []; in_edges = 2 ∷ [] }

abbrev root_node : CondensationNode
root_node = record { nodes = 0 ∷ []; out_edges = 1 ∷ []; in_edges = [] }

abbrev condensed : Condensations
condensed = record { nodes = payload_node ∷ iterator_node ∷ root_node ∷ []; entry_node = some 2 }

condense_runs : condense children inverse_children unit sccs ≡ some condensed
unfolding condense
condense_runs = refl

sccs-IsPartition : IsPartition sccs
sccs-IsPartition c d n x y m k p q = ground arith

no_parent : (p : ℕ) → none ≡ some p → 1 < 1
no_parent p e = absurd (cc)

abbrev loops : LoopInfo
loops = record {
  loop_for = λ b. if b == 100 then some 7 else none;
  parent_loop = λ l. none;
  loop_depth = λ l. 1;
  parent_loop_depth = λ l p e. no_parent p e;
  loops_in_preorder = 7 ∷ [];
  header = λ l. 100;
  is_loop_latch = λ l b. b == 100;
  blocks = λ l. 100 ∷ [];
  sub_loops = λ l. [];
  contains_inst = λ l i. true;
  contains_loop = λ l m. false;
}

abbrev in_block : ℕ → ℕ
in_block i = 100

abbrev recognized : RecognitionInfo
recognized = record {
  cg = condensed;
  loops_map = map_condensation_to_loops loops in_block unit condensed;
  iterators_info = record { cur_loop = 7; cur_instructions = 11 ∷ 12 ∷ [] } ∷ [];
}

recognize_runs : recognize loops in_block unit children inverse_children sccs ≡ some recognized
unfolding recognize Option-cases
recognize_runs = refl

recognize_iff_example :
    12 ∈ get_iterators_for recognized.iterators_info 7
    ↔ IsIteratorOf loops in_block unit inverse_children sccs 7 12
recognize_iff_example =
    recognize_iff loops in_block unit children inverse_children sccs recognized 7 12
      sccs-IsPartition recognize_runs (inl refl)

Listed : ℕ → Type 0
Listed e = (d : ℕ) × (y : List ℕ) × ((d, y) ∈ enumerate 0 sccs) × (e ∈ y)

listed : (e : ℕ) → e < 4 → Listed e
unfolding Listed
listed e h =
    let cases : (e ≡ 3) ⊎ ((e ≡ 2) ⊎ ((e ≡ 1) ⊎ (e ≡ 0))) = omega arith in
    elim cases [
      | inl q ↦ (0, 3 ∷ [], inl refl, inl q)
      | inr (inl q) ↦ (1, 2 ∷ 1 ∷ [], inr (inl refl), inl q)
      | inr (inr (inl q)) ↦ (1, 2 ∷ 1 ∷ [], inr (inl refl), inr (inl q))
      | inr (inr (inr q)) ↦ (2, 0 ∷ [], inr (inr (inl refl)), inl q)
    ]

child_lt : (m e : ℕ) → e ∈ children m → e < 4
child_lt m e h = ground arith

inverse_child_lt : (m e : ℕ) → e ∈ inverse_children m → e < 4
inverse_child_lt m e h = ground arith

mirrored : (m n : ℕ) → n ∈ children m ↔ m ∈ inverse_children n
mirrored m n = ground arith

condense-returns_example :
    (g : Condensations) × (condense children inverse_children unit sccs ≡ some g)
    × ((c d : ℕ) (node other : CondensationNode)
        → (c, node) ∈ enumerate 0 g.nodes
        → (d, other) ∈ enumerate 0 g.nodes
        → d ∈ node.out_edges ↔ c ∈ other.in_edges)
unfolding Listed
condense-returns_example =
    condense-returns children inverse_children unit sccs sccs-IsPartition
      (λ c m e x p q r. listed e (child_lt m e r))
      (λ c m e x p q r. listed e (inverse_child_lt m e r)) mirrored
