-- ===== src/CondensationGraph/Vectors.antt =====
-- The vector of condensations before and after the edges are computed.
use iterator_recognition.Prelude.{
  ℕ, suc, ◌≤◌, ◌≡◌, refl, sym, ap, ◌∙◌, subst, inl, inr, Option, none, some, List, [], ◌∷◌, arith,
  Option-cases, ◌∈◌,
}
use iterator_recognition.CondensationGraph.{
  CondensationNode, Condensations, enumerate, MemberMap, at?, map_condensations,
  find_condensation_external_edges, connect, connect_all, compute_edges, make_nodes, condense,
}
use iterator_recognition.CondensationGraph.Members.{first_with, at?-map_condensations}

module _ {A : Type 0} where
  pub enumerate-le : (i c : ℕ) (x : A) (xs : List A) → (c, x) ∈ enumerate i xs → i ≤ c
  enumerate-le i c x [] m = absurd m
  enumerate-le i c x (y ∷ ys) (inl e) = omega (arith, ap (λ (p : ℕ × A). p.0) e)
  enumerate-le i c x (y ∷ ys) (inr m) = omega (arith, enumerate-le (suc i) c x ys m)

  -- One element stands at an address.
  pub enumerate_unique :
      (i c : ℕ) (x y : A) (xs : List A) → (c, x) ∈ enumerate i xs → (c, y) ∈ enumerate i xs → x ≡ y
  enumerate_unique i c x y [] m n = absurd m
  enumerate_unique i c x y (z ∷ zs) (inl p) (inl q) =
      ap (λ (r : ℕ × A). r.1) p ∙ sym (ap (λ (r : ℕ × A). r.1) q)
  enumerate_unique i c x y (z ∷ zs) (inl p) (inr n) =
      absurd (omega (arith, ap (λ (r : ℕ × A). r.0) p, enumerate-le (suc i) c y zs n))
  enumerate_unique i c x y (z ∷ zs) (inr m) (inl q) =
      absurd (omega (arith, ap (λ (r : ℕ × A). r.0) q, enumerate-le (suc i) c x zs m))
  enumerate_unique i c x y (z ∷ zs) (inr m) (inr n) = enumerate_unique (suc i) c x y zs m n

pub ∈-make_nodes :
    (i c : ℕ) (node : CondensationNode) (sccs : List (List ℕ))
    → (c, node) ∈ enumerate i (make_nodes sccs)
    → (c, node.nodes) ∈ enumerate i sccs
unfolding make_nodes
∈-make_nodes i c node [] m = absurd m
∈-make_nodes i c node (scc ∷ sccs) (inl e) =
    inl (ap (λ (p : ℕ × CondensationNode). let r : ℕ × List ℕ = (p.0, p.1.nodes) in r) e)
∈-make_nodes i c node (scc ∷ sccs) (inr m) = inr (∈-make_nodes (suc i) c node sccs m)

pub make_nodes-∈ :
    (i c : ℕ) (scc : List ℕ) (sccs : List (List ℕ))
    → (c, scc) ∈ enumerate i sccs
    → (node : CondensationNode) × ((c, node) ∈ enumerate i (make_nodes sccs)) × (node.nodes ≡ scc)
unfolding make_nodes
make_nodes-∈ i c scc [] m = absurd m
make_nodes-∈ i c scc (s ∷ sccs) (inl e) = (
  record { nodes = scc; out_edges = []; in_edges = [] },
  inl (
      ap
        (λ (p : ℕ × List ℕ).
          let r : ℕ × CondensationNode =
            (p.0, record { nodes = p.1; out_edges = []; in_edges = [] }) in
          r)
        e),
  refl,
)
make_nodes-∈ i c scc (s ∷ sccs) (inr m) =
    let (node, n, e) = make_nodes-∈ (suc i) c scc sccs m in (node, inr n, e)

module _ (children inverse_children : ℕ → List ℕ) (unit : ℕ → Option ℕ) where
  -- What `computeEdges` makes of a condensation.
  pub record Connected (n2c : MemberMap) (before after : CondensationNode) : Type 0 where
    pub same : after.nodes ≡ before.nodes
    pub outs : find_condensation_external_edges children before.nodes n2c ≡ some after.out_edges
    pub ins :
        find_condensation_external_edges inverse_children before.nodes n2c ≡ some after.in_edges

  connect-Connected :
      (n2c : MemberMap) (before after : CondensationNode)
      → connect children inverse_children unit n2c before ≡ some after
      → Connected n2c before after
  unfolding connect
  connect-Connected n2c before after h = ground arith

  connect_all-cons :
      (n2c : MemberMap) (x : CondensationNode) (xs done : List CondensationNode)
      → connect_all children inverse_children unit n2c (x ∷ xs) ≡ some done
      → (y : CondensationNode) × (ys : List CondensationNode) × Connected n2c x y
        × (connect_all children inverse_children unit n2c xs ≡ some ys)
        × (done ≡ y ∷ ys)
  unfolding connect_all
  connect_all-cons n2c x xs done h =
      elim (Option-cases (connect children inverse_children unit n2c x)) [
        | inl q ↦ absurd (ground arith)
        | inr (y, q) ↦ elim (Option-cases (connect_all children inverse_children unit n2c xs)) [
          | inl p ↦ absurd (ground arith)
          | inr (ys, p) ↦ (y, ys, connect-Connected n2c x y q, p, ground arith)
        ]
      ]

  connect_all-at :
      (n2c : MemberMap) (i c : ℕ) (after : CondensationNode) (cns done : List CondensationNode)
      → connect_all children inverse_children unit n2c cns ≡ some done
      → (c, after) ∈ enumerate i done
      → (before : CondensationNode) × ((c, before) ∈ enumerate i cns) × Connected n2c before after
  unfolding connect_all
  connect_all-at n2c i c after [] done h m =
      let e : done ≡ [] = ground arith in absurd (subst (λ l. (c, after) ∈ enumerate i l) e m)
  connect_all-at n2c i c after (x ∷ xs) done h m =
      let (y, ys, link, rest, e) = connect_all-cons n2c x xs done h in
      elim (subst (λ l. (c, after) ∈ enumerate i l) e m) [
        | inl q ↦
            let place : (ℕ × CondensationNode) → ℕ = λ p. p.0 in
            let value : (ℕ × CondensationNode) → CondensationNode = λ p. p.1 in
            let at : ℕ → ℕ × CondensationNode = λ k. (k, x) in
            (x, inl (ap at (ap place q)), subst (Connected n2c x) (sym (ap value q)) link)
        | inr n ↦
            let (before, there, linked) = connect_all-at n2c (suc i) c after xs ys rest n in
            (before, inr there, linked)
      ]

  connect_all-reaches :
      (n2c : MemberMap) (i c : ℕ) (before : CondensationNode) (cns done : List CondensationNode)
      → connect_all children inverse_children unit n2c cns ≡ some done
      → (c, before) ∈ enumerate i cns
      → (after : CondensationNode) × ((c, after) ∈ enumerate i done) × Connected n2c before after
  unfolding connect_all
  connect_all-reaches n2c i c before [] done h m = absurd m
  connect_all-reaches n2c i c before (x ∷ xs) done h m =
      let (y, ys, link, rest, e) = connect_all-cons n2c x xs done h in
      elim m [
        | inl q ↦
            let place : (ℕ × CondensationNode) → ℕ = λ p. p.0 in
            let value : (ℕ × CondensationNode) → CondensationNode = λ p. p.1 in
            let at : ℕ → ℕ × CondensationNode = λ k. (k, y) in
            (
              y,
              subst (λ l. (c, y) ∈ enumerate i l) (sym e) (inl (ap at (ap place q))),
              subst (λ b. Connected n2c b y) (sym (ap value q)) link,
            )
        | inr n ↦
            let (after, there, linked) = connect_all-reaches n2c (suc i) c before xs ys rest n in
            (after, subst (λ l. (c, after) ∈ enumerate i l) (sym e) (inr there), linked)
      ]

  pub connect_all-returns :
      (n2c : MemberMap) (i : ℕ) (cns : List CondensationNode)
      → ((c : ℕ) (cn : CondensationNode)
          → (c, cn) ∈ enumerate i cns
          → (y : CondensationNode) × (connect children inverse_children unit n2c cn ≡ some y))
      → (done : List CondensationNode) × (connect_all children inverse_children unit n2c cns
          ≡ some done)
  unfolding connect_all
  connect_all-returns n2c i [] h = ([], refl)
  connect_all-returns n2c i (x ∷ xs) h =
      let (y, first) = h i x (inl refl) in
      let (ys, rest) = connect_all-returns n2c (suc i) xs (λ c cn m. h c cn (inr m)) in
      (y ∷ ys, ground arith)

  module _ (sccs : List (List ℕ)) where
    abbrev pub member_map : MemberMap
    member_map = (map_condensations unit (enumerate 0 (make_nodes sccs)) ([], none)).0

    pub at?-member_map : (k : ℕ) → at? member_map k ≡ first_with k (enumerate 0 (make_nodes sccs))
    unfolding at?
    at?-member_map k = at?-map_condensations unit k (enumerate 0 (make_nodes sccs)) ([], none)

    condense-vector :
        (g : Condensations)
        → condense children inverse_children unit sccs ≡ some g
        → connect_all children inverse_children unit member_map (make_nodes sccs) ≡ some g.nodes
    unfolding condense compute_edges
    condense-vector g h = ground arith

    -- A condensation holds the members of the component at its place, and its edges are those
    -- that the component's members give.
    pub condense-at :
        (g : Condensations) (c : ℕ) (node : CondensationNode)
        → condense children inverse_children unit sccs ≡ some g
        → (c, node) ∈ enumerate 0 g.nodes
        → ((c, node.nodes) ∈ enumerate 0 sccs)
          × (find_condensation_external_edges children node.nodes member_map ≡ some node.out_edges)
          × (find_condensation_external_edges inverse_children node.nodes member_map
              ≡ some node.in_edges)
    condense-at g c node h m =
        let (before, there, link) =
          connect_all-at member_map 0 c node (make_nodes sccs) g.nodes (condense-vector g h) m in
        (
          rw link.same (∈-make_nodes 0 c before sccs there),
          rw link.same link.outs,
          rw link.same link.ins,
        )

    pub condense-reaches :
        (g : Condensations) (c : ℕ) (scc : List ℕ)
        → condense children inverse_children unit sccs ≡ some g
        → (c, scc) ∈ enumerate 0 sccs
        → (node : CondensationNode) × ((c, node) ∈ enumerate 0 g.nodes) × (node.nodes ≡ scc)
    condense-reaches g c scc h m =
        let (before, there, e) = make_nodes-∈ 0 c scc sccs m in
        let (after, place, link) =
          connect_all-reaches member_map 0 c before (make_nodes sccs) g.nodes (condense-vector g h)
            there in
        (after, place, link.same ∙ e)
