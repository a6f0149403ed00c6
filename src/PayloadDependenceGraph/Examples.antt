-- ===== src/PayloadDependenceGraph/Examples.antt =====
-- The pass on the loop of the samples.
use iterator_recognition.Prelude.{
  ℕ, ◌≡◌, refl, subst, ◌↔◌, inl, inr, Bool, true, Option, none, some, List, [], ◌∷◌, map, arith,
  ◌==◌, ◌∈◌, find?_elim,
}
use iterator_recognition.Recognition.{IteratorInfo, get_iterator_info_for}
use iterator_recognition.ValueClassification.{find_payload_values}
use iterator_recognition.DependenceCache.{calculate}
use iterator_recognition.GraphUpdater.{make_actions, execute_all, execute_reversed}
use iterator_recognition.ShadowDependenceGraph.{find_node_for, compute_nodes, compute_edges}
use iterator_recognition.DetectOperations.{process}
use iterator_recognition.DetectOperations.Operands.{every_operand}
use iterator_recognition.Commutativity.{analyze}
use iterator_recognition.PayloadDependenceGraph.{LoopProperties, is_processed, run}
use iterator_recognition.PayloadDependenceGraph.Judged.{AreJudged}
use iterator_recognition.PayloadDependenceGraph.Restored.{run-restores, run-AreJudged}
use iterator_recognition.PayloadDependenceGraph.{analyze_payload}
use iterator_recognition.PayloadDependenceGraph.Returns.{AreHandled, IsLoopSafe}
use iterator_recognition.PayloadDependenceGraph.Verdict.{edited, analyze_payload-verdict}
use iterator_recognition.PayloadDependenceGraph.Samples.{
  Flags, edges, edges_laws, start, ir, loops, more, effects, input, iterator, variance,
}

abbrev verdict_of : LoopProperties → ℕ × Bool
verdict_of p = (p.cur_loop, p.is_commutative)

-- The loop 7 has an entry, with a verdict; the loop 8, of which nothing is known, has none.
loop_judged :
    map verdict_of
      (elim (run ir loops more effects edges input variance 9 [] 0 (iterator ∷ []) start) [
        | none ↦ []
        | some (g, ps) ↦ ps
      ])
    ≡ verdict_of (record { cur_loop = 7; is_commutative = true; failures = []; messages = [] }) ∷ []
unfolding find_node_for is_processed run compute_nodes compute_edges make_actions execute_all
    execute_reversed process analyze calculate get_iterator_info_for find_payload_values
loop_judged = refl

abbrev values : List ℕ
values = 23 ∷ 22 ∷ 21 ∷ 20 ∷ []

values_closed : (u v : ℕ) → u ∈ values → v ∈ every_operand ir more u → v ∈ values
values_closed u v (inl q) n = ground (arith, subst (λ (k : ℕ). v ∈ every_operand ir more k) q n)
values_closed u v (inr (inl q)) n =
    ground (arith, subst (λ (k : ℕ). v ∈ every_operand ir more k) q n)
values_closed u v (inr (inr (inl q))) n =
    ground (arith, subst (λ (k : ℕ). v ∈ every_operand ir more k) q n)
values_closed u v (inr (inr (inr (inl q)))) n =
    ground (arith, subst (λ (k : ℕ). v ∈ every_operand ir more k) q n)
values_closed u v (inr (inr (inr (inr m)))) n = absurd m

payload_inside : (v : ℕ) → v ∈ find_payload_values ir loops iterator [] → v ∈ values
unfolding find_payload_values
payload_inside v m = ground (arith, m)

values_inside :
    (l : ℕ) (info : IteratorInfo) (v : ℕ)
    → get_iterator_info_for (iterator ∷ []) l ≡ some info
    → v ∈ find_payload_values ir loops info []
    → v ∈ values
unfolding get_iterator_info_for
values_inside l info v h m = elim (find?_elim (λ e. e.cur_loop == l) (iterator ∷ []) info h).0 [
  | inl q ↦
      payload_inside v (subst (λ (k : IteratorInfo). v ∈ find_payload_values ir loops k []) q m)
  | inr n ↦ absurd n
]

run-restores_example :
    (g' : ℕ → ℕ → Option Flags) × (result : List LoopProperties) × (run ir loops more effects edges
        input variance 9
        (5 ∷ [])
        5
        (iterator ∷ [])
        start
      ≡ some (g', result))
    × ((x y : ℕ) → g' x y ≡ start x y)
run-restores_example =
    run-restores ir loops more effects edges input variance 9 edges_laws (λ u v h. h) values
      values_closed (omega arith) (iterator ∷ []) values_inside (5 ∷ []) 5 start

run-AreJudged_example :
    (g' : ℕ → ℕ → Option Flags) × (result : List LoopProperties) × (run ir loops more effects edges
        input variance 9
        (5 ∷ [])
        5
        (iterator ∷ [])
        start
      ≡ some (g', result))
    × AreJudged ir loops more effects edges input variance 9
        (iterator ∷ [])
        start
        (8 ∷ 7 ∷ [])
        result
unfolding is_processed
run-AreJudged_example =
    run-AreJudged ir loops more effects edges input variance 9 edges_laws (λ u v h. h) values
      values_closed (omega arith) (iterator ∷ []) values_inside (5 ∷ []) 5 start

analyze_payload-verdict_example :
    (g' : ℕ → ℕ → Option Flags) × (p : LoopProperties) × (analyze_payload ir loops more effects
        edges input variance 9 iterator
        (23 ∷ 22 ∷ 21 ∷ [])
        start
      ≡ some (g', p))
    × ((p.failures ≡ [])
        ↔ AreHandled ir loops more effects edges input variance 9 iterator (23 ∷ 22 ∷ 21 ∷ []) (
            edited ir loops more effects edges input variance 9 iterator (23 ∷ 22 ∷ 21 ∷ []) start))
    × (((p.failures ≡ []) × (p.is_commutative ≡ true)) ↔ (
        AreHandled ir loops more effects edges input variance 9 iterator
          (23 ∷ 22 ∷ 21 ∷ [])
          (edited ir loops more effects edges input variance 9 iterator (23 ∷ 22 ∷ 21 ∷ []) start)
        × IsLoopSafe ir loops more effects edges input variance 9 iterator (23 ∷ 22 ∷ 21 ∷ []) (
            edited ir loops more effects edges input variance 9 iterator
              (23 ∷ 22 ∷ 21 ∷ [])
              start)))
analyze_payload-verdict_example =
    analyze_payload-verdict ir loops more effects edges input variance 9 iterator
      (23 ∷ 22 ∷ 21 ∷ []) start values values_closed (omega arith) (λ v m. ground (arith, m))
