-- ===== src/PayloadDependenceGraph/Restored.antt =====
-- The pass returns, and leaves the dependence graph as it found it, whatever it finds out.
use mathlib.Core.List.{reverse}
use iterator_recognition.Prelude.{
  ℕ, ◌+◌, ◌≤◌, ◌≡◌, refl, sym, ap, ◌∙◌, inl, inr, false, ◌||◌, Option, some, List, [], ◌∷◌, ◌++◌,
  map, arith, ltb, if◌then◌else◌, Bool-cases, Option-cases, ◌∈◌, is_empty,
}
use mathlib.Core.List.{append-nil, append_assoc}
use iterator_recognition.Ir.{Ir, LoopInfo}
use iterator_recognition.Recognition.{IteratorInfo, get_iterator_info_for}
use iterator_recognition.ValueClassification.{find_payload_values}
use iterator_recognition.Variance.{IteratorVarianceValue}
use iterator_recognition.DependenceCache.{AliasAnalysis, calculate}
use iterator_recognition.GraphUpdater.{DependenceGraph, make_actions, execute_all, execute_reversed}
use iterator_recognition.GraphUpdater.Restore.{IsEdited}
use iterator_recognition.GraphUpdater.RoundTrip.{execute_reversed-execute_all}
use iterator_recognition.DetectOperations.{CallsAndPhis}
use iterator_recognition.PayloadDependenceGraph.{
  is_processed, PassInput, LoopProperties, dependence_cache, mod_ref_insts, no_dependences, keys_of,
  judge, analyze_payload, analyze_loops, run,
}
use iterator_recognition.DetectOperations.Operands.{every_operand}
use iterator_recognition.Worklist.Returns.{edge_count}
use iterator_recognition.PayloadDependenceGraph.Returns.{judge-returns}
use iterator_recognition.PayloadDependenceGraph.Judged.{
  SameEdges, is_judged, AreJudged, end_of_loops, passed_over, judged, AreJudged-same,
}
use iterator_recognition.PayloadDependenceGraph.Keys.{KeysApart-calculate, KeysApart-is_apart}

some-pair :
    {A B : Type 0} (a c : A) (b d : B)
    → ◌≡◌ {A = Option (A × B)} (some (a, b)) (some (c, d))
    → a ≡ c
some-pair a c b d h = cc

module _ (ir : Ir) (li : LoopInfo) (more : CallsAndPhis) (aa : AliasAnalysis) (dg : DependenceGraph)
    (input : PassInput dg) (variance : IteratorInfo → ℕ → IteratorVarianceValue) (fuel : ℕ)
    (laws : IsEdited dg) (injective : (u v : ℕ) → dg.get_node u ≡ dg.get_node v → u ≡ v) where
  analyze_payload_restores :
      (info : IteratorInfo) (payload : List ℕ) (g g' : dg.Graph) (p : LoopProperties)
      → analyze_payload ir li more aa dg input variance fuel info payload g ≡ some (g', p)
      → SameEdges dg g' g
  unfolding analyze_payload dependence_cache keys_of
  analyze_payload_restores info payload g g' p h x y =
      let dc =
        calculate aa (mod_ref_insts ir li more aa dg input variance fuel info payload)
          (no_dependences ir li more aa dg input variance fuel) in
      let back =
        execute_reversed-execute_all dg laws (variance info) g [] (map (λ e. e.0) dc.dependences)
          (KeysApart-is_apart aa dg injective dc.dependences (
            KeysApart-calculate aa (mod_ref_insts ir li more aa dg input variance fuel info payload)
              (no_dependences ir li more aa dg input variance fuel)))
          x y in
      let dos = (make_actions dg (variance info) g [] (map (λ e. e.0) dc.dependences)).0 in
      let undos = (make_actions dg (variance info) g [] (map (λ e. e.0) dc.dependences)).1 in
      let left = execute_reversed dg undos (execute_all dg dos g) in
      let reached : left ≡ g' =
        elim (Option-cases
          (judge ir li more aa dg input variance fuel info payload dc (execute_all dg dos g))) [
            | inl e ↦ absurd (ground arith)
            | inr (p', e) ↦ some-pair left g' p' p (rw (e, analyze_payload) at h)
          ] in
      ap (λ (k : dg.Graph). dg.get_edge_info k x y) (sym reached) ∙ back

  module _ (universe : List ℕ)
      (closed : (u v : ℕ) → u ∈ universe → v ∈ every_operand ir more u → v ∈ universe)
      (enough : 1 + edge_count (every_operand ir more) universe ≤ fuel) (infos : List IteratorInfo)
      (inside : (l : ℕ) (info : IteratorInfo) (v : ℕ)
        → get_iterator_info_for infos l ≡ some info
        → v ∈ find_payload_values ir li info []
        → v ∈ universe) where
    -- The result that was there before, with what is found of the loops after it.
    abbrev IsRestored :
        Option (dg.Graph × List LoopProperties) → List ℕ → dg.Graph → List LoopProperties → Type 0
    IsRestored o ls g result =
        (g' : dg.Graph) × (ps : List LoopProperties) × (o ≡ some (g', result ++ ps))
        × SameEdges dg g' g
        × AreJudged ir li more aa dg input variance fuel infos g ls ps

    analyze_payload_returns :
        (info : IteratorInfo) (payload : List ℕ) (g : dg.Graph)
        → ((v : ℕ) → v ∈ payload → v ∈ universe)
        → (g' : dg.Graph) × (p : LoopProperties) × (analyze_payload ir li more aa dg input variance
              fuel info payload g
            ≡ some (g', p))
          × SameEdges dg g' g
    unfolding analyze_payload
    analyze_payload_returns info payload g within =
        let dc = dependence_cache ir li more aa dg input variance fuel info payload in
        let (dos, undos) =
          make_actions dg (variance info) g [] (keys_of ir li more aa dg input variance fuel dc) in
        let g1 = execute_all dg dos g in
        let (p, e, handled, verdict) =
          judge-returns ir li more aa dg input variance fuel info payload g1 universe closed enough
            within in
        let made : analyze_payload ir li more aa dg input variance fuel info payload g
            ≡ some (execute_reversed dg undos g1, p) =
          rw (e, analyze_payload) refl in
        (
          execute_reversed dg undos g1,
          p,
          made,
          analyze_payload_restores info payload g (execute_reversed dg undos g1) p made,
        )

    pass_over :
        (o : Option (dg.Graph × List LoopProperties)) (l : ℕ) (ls : List ℕ) (g : dg.Graph)
        (result : List LoopProperties)
        → is_judged ir li more aa dg input variance fuel infos l ≡ false
        → IsRestored o ls g result
        → IsRestored o (l ∷ ls) g result
    pass_over o l ls g result e (g', ps, made, back, rest) =
        (g', ps, made, back, passed_over e rest)

    analyze_loops_restores :
        (ls : List ℕ) (g : dg.Graph) (result : List LoopProperties)
        → IsRestored
            (analyze_loops ir li more aa dg input variance fuel infos ls g result)
            ls
            g
            result
    unfolding analyze_loops
    analyze_loops_restores [] g result =
        (g, [], ap (λ r. some (g, r)) (sym (append-nil result)), λ x y. refl, end_of_loops)
    analyze_loops_restores (l ∷ ls) g result =
        let next = analyze_loops ir li more aa dg input variance fuel infos ls g result in
        let ih = analyze_loops_restores ls g result in
        elim (Bool-cases (
          ltb input.loop_depth_max (li.loop_depth l)
          || ltb (li.loop_depth l) input.loop_depth_min)) [
            | inl e ↦ rw (e, analyze_loops) (pass_over next l ls g result (rw e refl) ih)
            | inr e ↦ elim (Option-cases (get_iterator_info_for infos l)) [
              | inl q ↦ rw (e, q, analyze_loops) (pass_over next l ls g result (rw (e, q) refl) ih)
              | inr (info, q) ↦ elim (Bool-cases (is_empty (find_payload_values ir li info []))) [
                | inl k ↦
                    rw (e, q, k, analyze_loops)
                      (pass_over next l ls g result (rw (e, q, k) refl) ih)
                | inr k ↦
                    let (g1, p, made, back) =
                      analyze_payload_returns info (find_payload_values ir li info []) g
                        (λ v m. inside l info v q m) in
                    let (g2, ps, rest, further, others) =
                      analyze_loops_restores ls g1 (result ++ p ∷ []) in
                    (
                      g2,
                      p ∷ ps,
                      rw (e, q, k, made, analyze_loops)
                          (rest ∙ ap (λ r. some (g2, r)) (append_assoc result (p ∷ []) ps)),
                      λ x y. further x y ∙ back x y,
                      judged (rw (e, q, k) refl) info g g1 q (λ x y. refl) made
                          (AreJudged-same ir li more aa dg input variance fuel infos g1 g back
                            others),
                    )
              ]
            ]
          ]

    -- Where the operations of the dependence graph change its edges as documented, distinct
    -- instructions have distinct nodes, and the fuel exceeds the number of operands of a list of values
    -- that holds the payload of every loop and the operands of its own members: the pass returns,
    -- whatever the white list, and leaves each edge of the dependence graph as it was.
    pub run-restores :
        (white_list : List ℕ) (name : ℕ) (g : dg.Graph)
        → (g' : dg.Graph) × (result : List LoopProperties) × (run ir li more aa dg input variance
              fuel white_list name infos g
            ≡ some (g', result))
          × ((x y : ℕ) → dg.get_edge_info g' x y ≡ dg.get_edge_info g x y)
    unfolding run
    run-restores white_list name g =
        let (g', ps, made, back, rest) =
          analyze_loops_restores (reverse li.loops_in_preorder) g [] in
        elim (Bool-cases (is_processed white_list name)) [
          | inl q ↦ (g', ps, rw q made, back)
          | inr q ↦ (g, [], rw q refl, λ x y. refl)
        ]

    -- Where the operations of the dependence graph change its edges as documented, distinct
    -- instructions have distinct nodes, and the fuel exceeds the number of operands of a list of values
    -- that holds the payload of every loop and the operands of its own members: the pass returns, and
    -- its result has an entry for exactly the loops whose depth is within the bounds and that have an
    -- iterator and a payload, the loops last in preorder first, where each entry is what the loop's own
    -- analysis gives on a graph with the edges that the pass began with; and it has none for a function
    -- that the white list leaves out.
    pub run-AreJudged :
        (white_list : List ℕ) (name : ℕ) (g : dg.Graph)
        → (g' : dg.Graph) × (result : List LoopProperties) × (run ir li more aa dg input variance
              fuel white_list name infos g
            ≡ some (g', result))
          × AreJudged ir li more aa dg input variance fuel infos g
              (if is_processed white_list name then reverse li.loops_in_preorder else [])
              result
    unfolding run
    run-AreJudged white_list name g =
        let (g', ps, made, back, rest) =
          analyze_loops_restores (reverse li.loops_in_preorder) g [] in
        elim (Bool-cases (is_processed white_list name)) [
          | inl q ↦ (g', ps, rw q made, rw q rest)
          | inr q ↦ (g, [], rw q refl, rw q end_of_loops)
        ]
