-- ===== src/Recognition/Sources.antt =====
-- The iterator of a loop: the instructions of its source condensations.
use iterator_recognition.Prelude.{
  ℕ, ◌≡◌, sym, ap, ◌∙◌, subst, ◌≢◌, ◌↔◌, inl, inr, Option, some, List, map, arith, Option-cases,
  ◌∈◌,
}
use iterator_recognition.Ir.{LoopInfo}
use iterator_recognition.CondensationGraph.{CondensationNode, Condensations, enumerate, condense}
use iterator_recognition.CondensationGraph.Vectors.{enumerate_unique, condense-at, condense-reaches}
use iterator_recognition.CondensationGraph.Edges.{IsPartition, Crosses, condense-edges_iff}
use iterator_recognition.Recognition.{
  RecognitionInfo, map_condensation_to_loops, recognize_iterator, recognize, get_iterators_for,
}
use iterator_recognition.Recognition.Loops.{Touches}
use iterator_recognition.Recognition.Members.{
  get_iterators_for-map, info, info-loop, ∈-iterator_info,
}

module _ (li : LoopInfo) (parent : ℕ → ℕ) (unit : ℕ → Option ℕ) where
  module _ (inverse_children : ℕ → List ℕ) (sccs : List (List ℕ)) where
    -- Instruction `i` is in a component that has an instruction in the loop and that no edge enters
    -- from another component with an instruction in the loop.
    abbrev pub IsIteratorOf : ℕ → ℕ → Type 0
    IsIteratorOf l i =
        (c : ℕ) × (scc : List ℕ) × ((c, scc) ∈ enumerate 0 sccs)
        × Touches li parent unit scc l
        × ((d : ℕ) (other : List ℕ)
            → (d, other) ∈ enumerate 0 sccs
            → d ≢ c
            → Crosses inverse_children scc other
            → ¬ Touches li parent unit other l)
        × ((n : ℕ) × (n ∈ scc) × (unit n ≡ some i))

  module _ (children inverse_children : ℕ → List ℕ) (sccs : List (List ℕ)) where
    recognize-parts :
        (r : RecognitionInfo)
        → recognize li parent unit children inverse_children sccs ≡ some r
        → (condense children inverse_children unit sccs ≡ some r.cg)
          × (r.iterators_info ≡ map (info li parent unit r.cg) li.loops_in_preorder)
    unfolding recognize recognize_iterator
    recognize-parts r h = elim (Option-cases (condense children inverse_children unit sccs)) [
      | inl e ↦ absurd (ground arith)
      | inr (cg, e) ↦
          let m = map_condensation_to_loops li parent unit cg in
          let made : RecognitionInfo = record {
            cg = cg;
            loops_map = m;
            iterators_info = recognize_iterator li parent unit m;
          } in
          let q : r ≡ made = ground arith in
          (
            e ∙ ap some (sym (ap (λ (x : RecognitionInfo). x.cg) q)),
            ap (λ (x : RecognitionInfo). x.iterators_info) q
                ∙ ap (λ (g : Condensations). map (info li parent unit g) li.loops_in_preorder)
                    (sym (ap (λ (x : RecognitionInfo). x.cg) q)),
          )
    ]

    ∈-info :
        (cg : Condensations) (l i : ℕ)
        → IsPartition sccs
        → condense children inverse_children unit sccs ≡ some cg
        → i ∈ (info li parent unit cg l).cur_instructions ↔ IsIteratorOf inverse_children sccs l i
    ∈-info cg l i partition made =
        let lem = ∈-iterator_info li parent unit cg l i in
        let edges = condense-edges_iff children inverse_children unit sccs partition cg in
        let stands = condense-at children inverse_children unit sccs cg in
        let reaches = condense-reaches children inverse_children unit sccs cg in
        (
          λ m.
              let (c, node, place, (touches, none_before), member) = lem.0 m in
              (
                c,
                node.nodes,
                (stands c node made place).0,
                touches,
                λ d other there differ crosses t.
                    let (target, at, same) = reaches d other made there in
                    none_before d target at
                      ((edges c d node made place).1.1 (other, there, differ, crosses))
                      (subst (λ x. Touches li parent unit x l) (sym same) t),
                member,
              ),
          λ (c, scc, there, touches, none_before, member).
              let (node, place, same) = reaches c scc made there in
              lem.1 (
                c,
                node,
                place,
                (
                  subst (λ x. Touches li parent unit x l) (sym same) touches,
                  λ d other at edge t.
                      let (target, there', differ, crosses) =
                        (edges c d node made place).1.0 edge in
                      let (back, at', same') = reaches d target made there' in
                      let both : other ≡ back = enumerate_unique 0 d other back cg.nodes at at' in
                      none_before d target there' differ
                        (subst (λ x. Crosses inverse_children x target) same crosses)
                        (subst (λ x. Touches li parent unit x l)
                          (ap (λ (x : CondensationNode). x.nodes) both ∙ same') t),
                ),
                subst (λ x. (n : ℕ) × (n ∈ x) × (unit n ≡ some i)) (sym same) member,
              ),
        )

    -- On any function whose graph is partitioned into its components, and for a loop of it: the
    -- instructions that are recorded as the loop's iterator are exactly those of the components
    -- that have an instruction in the loop, and that no edge enters from another component that
    -- has one.
    pub recognize_iff :
        (r : RecognitionInfo) (l i : ℕ)
        → IsPartition sccs
        → recognize li parent unit children inverse_children sccs ≡ some r
        → l ∈ li.loops_in_preorder
        → i ∈ get_iterators_for r.iterators_info l ↔ IsIteratorOf inverse_children sccs l i
    recognize_iff r l i partition h listed =
        let (made, infos) = recognize-parts r h in
        rw
          (
            infos,
            get_iterators_for-map (info li parent unit r.cg) (info-loop li parent unit r.cg) l
                li.loops_in_preorder listed,
          )
          (∈-info r.cg l i partition made)
