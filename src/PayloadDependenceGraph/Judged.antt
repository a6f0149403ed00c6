-- ===== src/PayloadDependenceGraph/Judged.antt =====
-- The loops that have an entry in the result, each with what its own analysis gives.
use iterator_recognition.Prelude.{
  ℕ, ◌≡◌, ◌∙◌, Bool, true, false, not, ◌&&◌, ◌||◌, none, some, List, [], ◌∷◌, ltb, is_empty,
}
use iterator_recognition.Ir.{Ir, LoopInfo}
use iterator_recognition.Recognition.{IteratorInfo, get_iterator_info_for}
use iterator_recognition.ValueClassification.{find_payload_values}
use iterator_recognition.Variance.{IteratorVarianceValue}
use iterator_recognition.DependenceCache.{AliasAnalysis}
use iterator_recognition.GraphUpdater.{DependenceGraph}
use iterator_recognition.DetectOperations.{CallsAndPhis}
use iterator_recognition.PayloadDependenceGraph.{PassInput, LoopProperties, analyze_payload}

abbrev pub SameEdges : (dg : DependenceGraph) → dg.Graph → dg.Graph → Type 0
SameEdges dg g h = (x y : ℕ) → dg.get_edge_info g x y ≡ dg.get_edge_info h x y

module _ (ir : Ir) (li : LoopInfo) (more : CallsAndPhis) (aa : AliasAnalysis) (dg : DependenceGraph)
    (input : PassInput dg) (variance : IteratorInfo → ℕ → IteratorVarianceValue) (fuel : ℕ) where
  -- Whether a loop is judged: its depth is within the bounds, it has an iterator, and a payload.
  abbrev pub is_judged : List IteratorInfo → ℕ → Bool
  is_judged infos l =
      not (ltb input.loop_depth_max (li.loop_depth l) || ltb (li.loop_depth l) input.loop_depth_min)
      && elim (get_iterator_info_for infos l) [
        | none ↦ false
        | some info ↦ not (is_empty (find_payload_values ir li info []))
      ]

  -- The properties of those of the loops that are judged, in their order, each found on a graph with
  -- the edges of `g`.
  pub data AreJudged (infos : List IteratorInfo) (g : dg.Graph)
      : List ℕ → List LoopProperties → Type 0 where
    end_of_loops : AreJudged infos g [] []
    passed_over :
        {l : ℕ} {ls : List ℕ} {ps : List LoopProperties}
        → is_judged infos l ≡ false
        → AreJudged infos g ls ps
        → AreJudged infos g (l ∷ ls) ps
    judged :
        {l : ℕ} {ls : List ℕ} {p : LoopProperties} {ps : List LoopProperties}
        → is_judged infos l ≡ true
        → (info : IteratorInfo) (h h' : dg.Graph) → get_iterator_info_for infos l ≡ some info
        → SameEdges dg h g
        → analyze_payload ir li more aa dg input variance fuel info
            (find_payload_values ir li info [])
            h
          ≡ some (h', p)
        → AreJudged infos g ls ps
        → AreJudged infos g (l ∷ ls) (p ∷ ps)

  pub AreJudged-same :
      (infos : List IteratorInfo) (g h : dg.Graph)
      → SameEdges dg g h
      → {ls : List ℕ} {ps : List LoopProperties} → AreJudged infos g ls ps
      → AreJudged infos h ls ps
  AreJudged-same infos g h same end_of_loops = end_of_loops
  AreJudged-same infos g h same (passed_over e rest) =
      passed_over e (AreJudged-same infos g h same rest)
  AreJudged-same infos g h same (judged e info k k' q before made rest) =
      judged e info k k' q (λ x y. before x y ∙ same x y) made (AreJudged-same infos g h same rest)
