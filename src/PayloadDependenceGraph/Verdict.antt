-- ===== src/PayloadDependenceGraph/Verdict.antt =====
-- The verdict on a loop, in terms of what its updates are made from.
use iterator_recognition.Prelude.{ℕ, ◌+◌, ◌≤◌, ◌≡◌, refl, ◌↔◌, true, some, List, [], ◌∈◌}
use iterator_recognition.Ir.{Ir, LoopInfo}
use iterator_recognition.Recognition.{IteratorInfo}
use iterator_recognition.Variance.{IteratorVarianceValue}
use iterator_recognition.DependenceCache.{AliasAnalysis}
use iterator_recognition.GraphUpdater.{DependenceGraph, make_actions, execute_all, execute_reversed}
use iterator_recognition.DetectOperations.{CallsAndPhis}
use iterator_recognition.DetectOperations.Operands.{every_operand}
use iterator_recognition.Worklist.Returns.{edge_count}
use iterator_recognition.PayloadDependenceGraph.{
  PassInput, LoopProperties, dependence_cache, keys_of, analyze_payload,
}
use iterator_recognition.PayloadDependenceGraph.Returns.{AreHandled, IsLoopSafe, judge-returns}

module _ (ir : Ir) (li : LoopInfo) (more : CallsAndPhis) (aa : AliasAnalysis) (dg : DependenceGraph)
    (input : PassInput dg) (variance : IteratorInfo → ℕ → IteratorVarianceValue) (fuel : ℕ)
    (info : IteratorInfo) (payload : List ℕ) (g : dg.Graph) where
  -- The dependence graph once the edits for the loop are made.
  abbrev pub edited : dg.Graph
  edited =
      let dc = dependence_cache ir li more aa dg input variance fuel info payload in
      execute_all dg
        (make_actions dg (variance info) g [] (keys_of ir li more aa dg input variance fuel dc)).0 g

  -- With fuel for the operands of a list of values that holds the payload and the operands of its own
  -- members, the analysis of a loop returns. It reports no failure exactly when no target of the loop's
  -- updates is made from an instruction that the detector cannot handle, on the shadow graph of the
  -- edited dependence graph; the targets are the payload values used outside the payload, and the
  -- payload's instructions that depend on an earlier one through memory. It reports no failure and a
  -- commutative loop exactly when, besides, the loop has a target, and each target has a source and, with each of its
  -- sources, either both are invariant, or one is variant and all operations that the target is made
  -- from, other than the target, are binary operators or unary instructions.
  pub analyze_payload-verdict :
      (universe : List ℕ)
      → ((u v : ℕ) → u ∈ universe → v ∈ every_operand ir more u → v ∈ universe)
      → 1 + edge_count (every_operand ir more) universe ≤ fuel
      → ((v : ℕ) → v ∈ payload → v ∈ universe)
      → (g' : dg.Graph) × (p : LoopProperties) × (analyze_payload ir li more aa dg input variance
            fuel info payload g
          ≡ some (g', p))
        × ((p.failures ≡ []) ↔ AreHandled ir li more aa dg input variance fuel info payload edited)
        × (((p.failures ≡ []) × (p.is_commutative ≡ true)) ↔ (
            AreHandled ir li more aa dg input variance fuel info payload edited
            × IsLoopSafe ir li more aa dg input variance fuel info payload edited))
  unfolding analyze_payload
  analyze_payload-verdict universe closed enough inside =
      let dc = dependence_cache ir li more aa dg input variance fuel info payload in
      let undos =
        (make_actions dg (variance info) g []
          (keys_of ir li more aa dg input variance fuel dc)).1 in
      let (p, e, handled, verdict) =
        judge-returns ir li more aa dg input variance fuel info payload edited universe closed
          enough inside in
      (
        execute_reversed dg undos edited,
        p,
        rw (e, analyze_payload) refl,
        handled,
        (
          λ (q, c). (handled.0 q, (verdict (handled.0 q)).0 c),
          λ (all_handled, safe). (handled.1 all_handled, (verdict all_handled).1 safe),
        ),
      )
