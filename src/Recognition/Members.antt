-- ===== src/Recognition/Members.antt =====
-- The source condensations of a loop, and their instructions.
use iterator_recognition.Prelude.{
  ℕ, ◌≡◌, refl, sym, ap, ◌∙◌, subst, ◌↔◌, inl, inr, Bool, true, Option, some, List, [], ◌∷◌, map,
  arith, ◌==◌, if◌then◌else◌, ==_iff, ==_refl, Bool-cases, ◌∈◌, any, filter, find?, any_intro,
  any_elim, ∈-filter, ∈-map, flat_map, ∈-flat_map, contains, contains_iff,
}
use iterator_recognition.Ir.{LoopInfo}
use iterator_recognition.Extras.Canonical.{∈-unique_inplace}
use iterator_recognition.CondensationGraph.{CondensationNode, Condensations, enumerate}
use iterator_recognition.Recognition.{
  IteratorInfo, NodeRef, units, loops_of, map_condensation_to_loops, loop_condensations, work_found,
  iterator_info, get_iterators_for,
}
use iterator_recognition.Recognition.Loops.{Touches, ∈-units, ∈-loops_of_members}

pub get_iterators_for-map :
    (f : ℕ → IteratorInfo)
    → ((k : ℕ) → (f k).cur_loop ≡ k)
    → (l : ℕ) (xs : List ℕ) → l ∈ xs
    → get_iterators_for (map f xs) l ≡ (f l).cur_instructions
unfolding get_iterators_for
get_iterators_for-map f loops l [] m = absurd m
get_iterators_for-map f loops l (x ∷ xs) m = elim (Bool-cases ((f x).cur_loop == l)) [
  | inl e ↦
      let same : x ≡ l = sym (loops x) ∙ (==_iff (f x).cur_loop l).0 e in
      rw (e, get_iterators_for, find?) (ap (λ (k : ℕ). (f k).cur_instructions) same)
  | inr e ↦
      rw (e, get_iterators_for, find?)
        (get_iterators_for-map f loops l xs
          (elim m [ inl q ↦ absurd (ground (arith, loops x)) | inr n ↦ n ]))
]

module _ (li : LoopInfo) (parent : ℕ → ℕ) (unit : ℕ → Option ℕ) where
  ∈-loop_condensations :
      (cg : Condensations) (l : ℕ) (cn : NodeRef)
      → cn ∈ loop_condensations li parent unit (map_condensation_to_loops li parent unit cg) l
        ↔ ((cn ∈ enumerate 0 cg.nodes) × Touches li parent unit cn.1.nodes l)
  unfolding loop_condensations map_condensation_to_loops
  ∈-loop_condensations cg l cn =
      let entry : NodeRef → NodeRef × List ℕ =
        λ c. (c, loops_of li parent unit (units unit c.1.nodes) []) in
      let in_loop : NodeRef × List ℕ → Bool = λ e. contains e.1 l in
      let m = map entry (enumerate 0 cg.nodes) in
      (
        λ h.
            let (e, kept, same) =
              (∈-map (λ (x : NodeRef × List ℕ). x.0) cn (filter in_loop m)).0 h in
            let (there, has) = (∈-filter in_loop e m).0 kept in
            let (c, place, made) = (∈-map entry e (enumerate 0 cg.nodes)).0 there in
            let q : cn ≡ c = same ∙ ap (λ (x : NodeRef × List ℕ). x.0) made in
            let around = subst (λ (x : NodeRef × List ℕ). contains x.1 l ≡ true) made has in
            (
              subst (λ x. x ∈ enumerate 0 cg.nodes) (sym q) place,
              subst (λ (x : NodeRef). Touches li parent unit x.1.nodes l) (sym q)
                  ((∈-loops_of_members li parent unit l c.1.nodes).0
                    ((contains_iff (entry c).1 l).0 around)),
            ),
        λ (place, touches). (∈-map (λ (x : NodeRef × List ℕ). x.0) cn (filter in_loop m)).1 (
          entry cn,
          (∈-filter in_loop (entry cn) m).1 (
            (∈-map entry (entry cn) (enumerate 0 cg.nodes)).1 (cn, place, refl),
            (contains_iff (entry cn).1 l).1
                ((∈-loops_of_members li parent unit l cn.1.nodes).1 touches),
          ),
          refl,
        ),
      )

  ∈-work_found :
      (cns : List NodeRef) (cn : NodeRef)
      → (work_found li parent unit cns cn ≡ true)
        ↔ ((d : ℕ) × (other : CondensationNode) × ((d, other) ∈ cns) × (d ∈ cn.1.in_edges))
  unfolding work_found
  ∈-work_found cns cn =
      let listed : ℕ → Bool = λ ccn. any (λ (c : NodeRef). c.0 == ccn) cns in
      (
        λ h.
            let (d, edge, found) = any_elim listed cn.1.in_edges h in
            let ((k, other), there, same) = any_elim (λ (c : NodeRef). c.0 == d) cns found in
            let q : k ≡ d = (==_iff k d).0 same in
            (d, other, subst (λ x. (x, other) ∈ cns) q there, edge),
        λ (d, other, there, edge).
            any_intro listed cn.1.in_edges d edge
              (any_intro (λ (c : NodeRef). c.0 == d) cns (d, other) there (==_refl d)),
      )

  -- A condensation of the loop that no other condensation of the loop leads to.
  abbrev pub IsSource : Condensations → ℕ → NodeRef → Type 0
  IsSource cg l cn =
      Touches li parent unit cn.1.nodes l
      × ((d : ℕ) (other : CondensationNode)
          → (d, other) ∈ enumerate 0 cg.nodes
          → d ∈ cn.1.in_edges
          → ¬ Touches li parent unit other.nodes l)

  abbrev pub info : Condensations → ℕ → IteratorInfo
  info cg l = iterator_info li parent unit (map_condensation_to_loops li parent unit cg) l

  pub info-loop : (cg : Condensations) (l : ℕ) → (info cg l).cur_loop ≡ l
  unfolding iterator_info
  info-loop cg l = refl

  -- The iterator of a loop is made of the instructions of its source condensations.
  pub ∈-iterator_info :
      (cg : Condensations) (l i : ℕ)
      → i ∈ (info cg l).cur_instructions ↔ (
          (c : ℕ) × (node : CondensationNode) × ((c, node) ∈ enumerate 0 cg.nodes)
          × IsSource cg l (c, node)
          × ((n : ℕ) × (n ∈ node.nodes) × (unit n ≡ some i)))
  unfolding iterator_info
  ∈-iterator_info cg l i =
      let cns = loop_condensations li parent unit (map_condensation_to_loops li parent unit cg) l in
      let given : NodeRef → List ℕ =
        λ cn. if work_found li parent unit cns cn then [] else units unit cn.1.nodes in
      let all_given = ∈-unique_inplace i (flat_map given cns) in
      let each = ∈-flat_map given i cns in
      let member = ∈-loop_condensations cg l in
      (
        λ m.
            let ((c, node), there, has) = each.0 (all_given.0 m) in
            let (place, touches) = (member (c, node)).0 there in
            elim (Bool-cases (work_found li parent unit cns (c, node))) [
              | inl e ↦ absurd (subst (λ b. i ∈ (if b then [] else units unit node.nodes)) e has)
              | inr e ↦ (
                c,
                node,
                place,
                (
                  touches,
                  λ d other stands edge t.
                      let found =
                        (∈-work_found cns (c, node)).1
                          (d, other, (member (d, other)).1 (stands, t), edge) in
                      cc,
                ),
                (∈-units unit i node.nodes).0
                    (subst (λ b. i ∈ (if b then [] else units unit node.nodes)) e has),
              )
            ],
        λ (c, node, place, (touches, none_before), member_of). all_given.1 (
            each.1 (
              (c, node),
              (member (c, node)).1 (place, touches),
              elim (Bool-cases (work_found li parent unit cns (c, node))) [
                | inl e ↦
                    let (d, other, there, edge) = (∈-work_found cns (c, node)).0 e in
                    let (stands, t) = (member (d, other)).0 there in
                    absurd (none_before d other stands edge t)
                | inr e ↦
                    subst (λ b. i ∈ (if b then [] else units unit node.nodes)) (sym e)
                      ((∈-units unit i node.nodes).1 member_of)
              ],
            )),
      )
