-- ===== src/DetectOperations/Examples.antt =====
-- The detector at a store 23 of the sum 22 of a load 21.
use iterator_recognition.Prelude.{
  ℕ, ◌<◌, ◌≡◌, refl, subst, ◌↔◌, inl, inr, Bool, true, false, not, ◌||◌, Option, none, some, List,
  [], ◌∷◌, arith, ltb, ◌==◌, if◌then◌else◌, ◌∈◌,
}
use iterator_recognition.Ir.{Ir, LoopInfo, instruction, Opcode}
use iterator_recognition.Commutativity.{LoadModifyStore}
use iterator_recognition.DependenceCache.{AliasAnalysis, DependenceCache}
use iterator_recognition.ShadowDependenceGraph.{
  SourceGraph, SNode, SGraph, empty_graph, find_node_for, compute_nodes, compute_edges,
}
use iterator_recognition.ShadowDependenceGraph.Nodes.{IsChosen}
use iterator_recognition.DetectOperations.{
  CallsAndPhis, Failure, pushed, process, inverse_edge_units,
}
use iterator_recognition.DetectOperations.Exact.{IsProcessed, process-returns-IsProcessed}
use iterator_recognition.DetectOperations.Payload.{HasDependence, ∈-inverse_edge_units}

abbrev source : SourceGraph
source = record {
  nodes = 4 ∷ 1 ∷ 2 ∷ 3 ∷ [];
  unit = λ n. if n == 4 then 41 else if n == 1 then 21 else if n == 2 then 22 else 23;
  children =
      λ n. if n == 4 then 2 ∷ [] else if n == 1 then 2 ∷ [] else if n == 2 then 3 ∷ [] else [];
  get_node = λ u. if u == 41 then 4 else if u == 21 then 1 else if u == 22 then 2 else 3;
  edge_has_memory = λ a b. some false;
}

abbrev is_payload : ℕ → Bool
is_payload n = ltb n 4

abbrev sdg : SGraph
sdg = compute_edges source (compute_nodes source is_payload empty_graph)

abbrev ir : Ir
ir = record {
  kind = λ v. instruction (
      if v == 21
      then Opcode.load
      else if v == 23
      then Opcode.store
      else if v == 22
      then Opcode.binary_operator
      else Opcode.other);
  operands = λ v. if v == 22 then 21 ∷ 41 ∷ [] else [];
  operand = λ v n. 0;
  pointer_operand = λ v. 0;
  value_operand = λ v. 22;
  incoming_values = λ v. [];
  indices = λ v. [];
  users = λ v. [];
  parent = λ i. 1;
  insts = λ b. [];
  may_read_from_memory = λ v. v == 21;
  may_write_to_memory = λ v. v == 23;
  is_binary_op = λ v. v == 22;
  is_unary_instruction = λ v. false;
}

no_parent : (l p : ℕ) → none ≡ some p → 1 < 1
no_parent l p e = absurd (cc)

abbrev loops : LoopInfo
loops = record {
  loop_for = λ b. some 7;
  parent_loop = λ l. none;
  loop_depth = λ l. 1;
  parent_loop_depth = no_parent;
  loops_in_preorder = 7 ∷ [];
  header = λ l. 1;
  is_loop_latch = λ l b. true;
  blocks = λ l. 1 ∷ [];
  sub_loops = λ l. [];
  contains_inst = λ l i. true;
  contains_loop = λ l m. false;
}

abbrev more : CallsAndPhis
more = record { arg_operands = λ v. []; has_incoming_block = λ v b. false }

abbrev effects : AliasAnalysis
effects = record {
  ModRefInfo = Bool × Bool;
  get_mod_ref_info = λ i j. (true, true);
  is_mod_set = λ m. m.0;
  is_no_mod_ref = λ m. not (m.0 || m.1);
}

abbrev no_dependences : DependenceCache effects
no_dependences = record { dependences = []; distinct_instructions = [] }

abbrev update_of : ℕ → LoadModifyStore
update_of v = record { target = v; sources = []; operations = [] }

store_processed :
    process ir loops more effects no_dependences sdg 7 9 (update_of 23)
    ≡ some (record { target = 23; sources = 21 ∷ []; operations = 22 ∷ [] }, none)
unfolding process compute_edges compute_nodes find_node_for
store_processed = refl

-- 41 is of no class that the detector handles, and it has no node, so it is passed over.
absent_processed :
    process ir loops more effects no_dependences sdg 7 9 (update_of 41) ≡ some (update_of 41, none)
unfolding process compute_edges compute_nodes find_node_for
absent_processed = refl

abbrev values : List ℕ
values = 23 ∷ 22 ∷ 21 ∷ []

values_closed :
    (u v : ℕ) → u ∈ values → v ∈ pushed ir loops more effects no_dependences sdg 7 u → v ∈ values
unfolding pushed compute_edges compute_nodes find_node_for
values_closed u v (inl q) n =
    ground (arith, subst (λ (k : ℕ). v ∈ pushed ir loops more effects no_dependences sdg 7 k) q n)
values_closed u v (inr (inl q)) n =
    ground (arith, subst (λ (k : ℕ). v ∈ pushed ir loops more effects no_dependences sdg 7 k) q n)
values_closed u v (inr (inr (inl q))) n =
    ground (arith, subst (λ (k : ℕ). v ∈ pushed ir loops more effects no_dependences sdg 7 k) q n)
values_closed u v (inr (inr (inr m))) n = absurd m

process-returns-IsProcessed_example :
    (lms' : LoadModifyStore) × (fail : Option Failure) × (process ir loops more effects
        no_dependences sdg 7 9
        (update_of 23)
      ≡ some (lms', fail))
    × IsProcessed ir loops more effects no_dependences sdg 7 (update_of 23) lms' fail
unfolding pushed compute_edges compute_nodes find_node_for
process-returns-IsProcessed_example =
    process-returns-IsProcessed ir loops more effects no_dependences sdg 7 values values_closed
      (update_of 23) 9 (inl refl) (omega arith)

abbrev sum_node : SNode
sum_node = record {
  address = 1;
  units = 22 ∷ [];
  is_next_iteration = false;
  out_edges = 2 ∷ [];
  in_edges = 0 ∷ [];
}

sum_found : find_node_for sdg 22 ≡ some sum_node
unfolding compute_edges compute_nodes find_node_for
sum_found = refl

∈-inverse_edge_units_example :
    41 ∈ inverse_edge_units sdg sum_node
    ↔ (IsChosen source is_payload source.nodes 41 × HasDependence source is_payload 41 22)
∈-inverse_edge_units_example = ∈-inverse_edge_units source is_payload 22 sum_node sum_found 41
