-- ===== src/CondensationGraph/Entry.antt =====
-- `setEntryNode` in the first loop of `computeEdges`, and `find`.
use iterator_recognition.Prelude.{
  ℕ, suc, ◌≤◌, ◌≡◌, refl, sym, ap, ◌∙◌, subst, ◌↔◌, ◌⊎◌, inl, inr, Bool, true, Option, none, some,
  List, [], ◌∷◌, arith, if◌then◌else◌, Bool-cases, Option-cases, ◌∈◌, any, any_iff, find?,
  find?_elim, find?-none, contains, contains_iff,
}
use iterator_recognition.Extras.{is_null_unit}
use iterator_recognition.CondensationGraph.{
  CondensationNode, Condensations, enumerate, MemberMap, emplace, set_entry_node, map_members,
  map_condensations, compute_edges, make_nodes, condense, find,
}
use iterator_recognition.CondensationGraph.Vectors.{
  enumerate-le, enumerate_unique, ∈-make_nodes, make_nodes-∈, condense-at, condense-reaches,
}
use iterator_recognition.CondensationGraph.Edges.{IsPartition}

module _ (unit : ℕ → Option ℕ) where
  -- Some member has no unit.
  abbrev pub HasNull : List ℕ → Type 0
  HasNull members = (n : ℕ) × (n ∈ members) × (unit n ≡ none)

  any-is_null_unit : (members : List ℕ) → (any (is_null_unit unit) members ≡ true) ↔ HasNull members
  unfolding is_null_unit
  any-is_null_unit members =
      let at_member : (n : ℕ) → (is_null_unit unit n ≡ true) ↔ (unit n ≡ none) =
        λ n. ground (arith, Option-cases (unit n)) in
      let whole = any_iff (is_null_unit unit) members in
      (
        λ h. let (n, m, q) = whole.0 h in (n, m, (at_member n).0 q),
        λ (n, m, q). whole.1 (n, m, (at_member n).1 q),
      )

  map_members-entry :
      (cn : ℕ) (ns : List ℕ) (s : MemberMap × Option ℕ)
      → (map_members unit cn ns s).1 ≡ (if any (is_null_unit unit) ns then some cn else s.1)
  unfolding map_members set_entry_node
  map_members-entry cn [] s = refl
  map_members-entry cn (n ∷ ns) (n2c, entry) =
      ground (arith, map_members-entry cn ns (emplace n cn n2c, set_entry_node unit n cn entry))

  -- The condensation `c` is the last one with a member that has no unit.
  abbrev IsLast : List (ℕ × CondensationNode) → ℕ → Type 0
  IsLast cns c =
      ((node : CondensationNode) × ((c, node) ∈ cns) × HasNull node.nodes)
      × ((d : ℕ) (other : CondensationNode) → (d, other) ∈ cns → HasNull other.nodes → d ≤ c)

  abbrev HasNone : List (ℕ × CondensationNode) → Type 0
  HasNone cns = (d : ℕ) (other : CondensationNode) → (d, other) ∈ cns → ¬ HasNull other.nodes

  map_condensations-entry :
      (i : ℕ) (cns : List CondensationNode) (s : MemberMap × Option ℕ)
      → ((c : ℕ) × ((map_condensations unit (enumerate i cns) s).1 ≡ some c)
          × IsLast (enumerate i cns) c)
        ⊎ (((map_condensations unit (enumerate i cns) s).1 ≡ s.1) × HasNone (enumerate i cns))
  unfolding map_condensations
  map_condensations-entry i [] s = inr (refl, λ d other m. absurd m)
  map_condensations-entry i (cn ∷ cns) s =
      let first = map_members-entry i cn.nodes s in
      let later = map_condensations-entry (suc i) cns (map_members unit i cn.nodes s) in
      elim (Bool-cases (any (is_null_unit unit) cn.nodes)) [
        | inl q ↦ inl (elim later [
          | inl (c, e, ((node, place, here), last)) ↦ (
            c,
            e,
            (
              (node, inr place, here),
              λ d other m null. elim m [
                | inl p ↦
                    rw (ap (λ (r : ℕ × CondensationNode). r.0) p)
                      (omega (arith, enumerate-le (suc i) c node cns place))
                | inr n ↦ last d other n null
              ],
            ),
          )
          | inr (e, none_there) ↦ (
            i,
            ground arith,
            (
              (cn, inl refl, (any-is_null_unit cn.nodes).0 q),
              λ d other m null. elim m [
                | inl p ↦ omega (arith, ap (λ (r : ℕ × CondensationNode). r.0) p)
                | inr n ↦ absurd (none_there d other n null)
              ],
            ),
          )
        ])
        | inr q ↦
            let not_here : (d : ℕ) (other : CondensationNode)
                → ◌≡◌ {A = ℕ × CondensationNode} (d, other) (i, cn)
                → ¬ HasNull other.nodes =
              λ d other p null.
                let mine : HasNull cn.nodes =
                  subst (λ (r : ℕ × CondensationNode). HasNull r.1.nodes) p null in
                absurd (ground (arith, (any-is_null_unit cn.nodes).1 mine)) in
            elim later [
              | inl (c, e, ((node, place, here), last)) ↦ inl (
                c,
                e,
                (
                  (node, inr place, here),
                  λ d other m null. elim m [
                    | inl p ↦ absurd (not_here d other p null)
                    | inr n ↦ last d other n null
                  ],
                ),
              )
              | inr (e, none_there) ↦ inr (
                ground arith,
                λ d other m null. elim m [
                  | inl p ↦ not_here d other p null
                  | inr n ↦ none_there d other n null
                ],
              )
            ]
      ]

  -- `none` stands for an entry that is not assigned.
  abbrev pub IsEntry : List (List ℕ) → Option ℕ → Type 0
  IsEntry sccs none = (d : ℕ) (x : List ℕ) → (d, x) ∈ enumerate 0 sccs → ¬ HasNull x
  IsEntry sccs (some c) =
      ((x : List ℕ) × ((c, x) ∈ enumerate 0 sccs) × HasNull x)
      × ((d : ℕ) (x : List ℕ) → (d, x) ∈ enumerate 0 sccs → HasNull x → d ≤ c)

  module _ (children inverse_children : ℕ → List ℕ) (sccs : List (List ℕ)) where
    condense-entry :
        (g : Condensations)
        → condense children inverse_children unit sccs ≡ some g
        → g.entry_node ≡ (map_condensations unit (enumerate 0 (make_nodes sccs)) ([], none)).1
    unfolding condense compute_edges
    condense-entry g h = ground arith

    -- The entry node is the last condensation with a member that has no unit, and is not assigned
    -- exactly when none_there condensation has such a member.
    pub condense-IsEntry :
        (g : Condensations)
        → condense children inverse_children unit sccs ≡ some g
        → IsEntry sccs g.entry_node
    condense-IsEntry g h =
        let e = condense-entry g h in
        elim (map_condensations-entry 0 (make_nodes sccs) ([], none)) [
          | inl (c, q, ((node, place, null), last)) ↦ rw (e ∙ q) (
            (node.nodes, ∈-make_nodes 0 c node sccs place, null),
            λ d x m has.
                let (other, there, same) = make_nodes-∈ 0 d x sccs m in
                last d other there (subst HasNull (sym same) has),
          )
          | inr (q, none_there) ↦ rw (e ∙ q) (λ d x m has.
              let (other, there, same) = make_nodes-∈ 0 d x sccs m in
              none_there d other there (subst HasNull (sym same) has))
        ]

    -- Where no node is in two components, `find` gives the condensation that holds a member, and
    -- nothing exactly when none_there component holds it.
    pub find-condense :
        IsPartition sccs
        → (g : Condensations) (n : ℕ) → condense children inverse_children unit sccs ≡ some g
        → ((c : ℕ) (node : CondensationNode)
            → (find g n ≡ some (c, node)) ↔ (((c, node) ∈ enumerate 0 g.nodes) × (n ∈ node.nodes)))
          × ((find g n ≡ none) ↔ ((c : ℕ) (x : List ℕ) → (c, x) ∈ enumerate 0 sccs → ¬ (n ∈ x)))
    unfolding find
    find-condense partition g n h =
        let holds : ℕ × CondensationNode → Bool = λ c. contains c.1.nodes n in
        let cns = enumerate 0 g.nodes in
        let at = condense-at children inverse_children unit sccs g in
        let found : (c : ℕ) (node : CondensationNode)
            → find? holds cns ≡ some (c, node)
            → ((c, node) ∈ cns) × (n ∈ node.nodes) =
          λ c node q.
            let (place, has) = find?_elim holds cns (c, node) q in
            (place, (contains_iff node.nodes n).0 has) in
        let missing : find? holds cns ≡ none
            → (c : ℕ) (node : CondensationNode) → (c, node) ∈ cns
            → ¬ (n ∈ node.nodes) =
          λ q c node m has. absurd (
            ground
              (arith, find?-none holds cns q (c, node) m, (contains_iff node.nodes n).1 has)) in
        (
          λ c node. (
            found c node,
            λ (m, has). elim (Option-cases (find? holds cns)) [
              | inl q ↦ absurd (missing q c node m has)
              | inr ((d, other), q) ↦
                  let (place, inside) = found d other q in
                  let same : d ≡ c =
                    partition d c n other.nodes node.nodes (at d other h place).0 (at c node h m).0
                      inside has in
                  q
                  ∙ ap some (
                      ap (λ k. let r : ℕ × CondensationNode = (k, other) in r) same
                      ∙ ap (λ x. let r : ℕ × CondensationNode = (c, x) in r)
                          (enumerate_unique 0 c other node g.nodes
                            (subst (λ k. (k, other) ∈ cns) same place) m))
            ],
          ),
          (
            λ q c x m has.
                let (node, place, same) =
                  condense-reaches children inverse_children unit sccs g c x h m in
                missing q c node place (subst (λ l. n ∈ l) (sym same) has),
            λ none_there. elim (Option-cases (find? holds cns)) [
              | inl q ↦ q
              | inr ((d, other), q) ↦
                  let (place, inside) = found d other q in
                  absurd (none_there d other.nodes (at d other h place).0 inside)
            ],
          ),
        )
