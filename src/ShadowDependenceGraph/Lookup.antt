-- ===== src/ShadowDependenceGraph/Lookup.antt =====
-- What the look-ups of a graph that was made by adding nodes lead to.
use iterator_recognition.Prelude.{
  ℕ, ◌≡◌, refl, sym, ap, ◌∙◌, subst, inl, inr, Bool, true, none, some, List, [], ◌∷◌, arith, ◌==◌,
  ==_iff, ==_refl, Bool-cases, Option-cases, ◌∈◌, ∈-append, find?, any_intro, find?_elim,
  find?-none, contains,
}
use iterator_recognition.ShadowDependenceGraph.{
  SourceGraph, SNode, SGraph, empty_graph, make_node, node_of, node_at, in_edges_at, out_edges_at,
  add_node_for, find_node_for, compute_nodes_of, compute_nodes,
}
use iterator_recognition.ShadowDependenceGraph.Edges.{has_address, IsPointing}
use iterator_recognition.ShadowDependenceGraph.Nodes.{address_of, IsBuilt}

module _ (g : SGraph) (b : IsBuilt g) where
  pub node_at-address : (n : SNode) → n ∈ g.nodes → node_at g.nodes n.address ≡ some n
  unfolding node_at
  node_at-address n m =
      elim (Option-cases (find? (λ (k : SNode). k.address == n.address) g.nodes)) [
        | inl e ↦
            let no = find?-none (λ (k : SNode). k.address == n.address) g.nodes e n m in
            absurd (ground (arith, no, ==_refl n.address))
        | inr (k, e) ↦
            let (i, h) = find?_elim (λ (k : SNode). k.address == n.address) g.nodes k e in
            e ∙ ap some (b.apart k n i m ((==_iff k.address n.address).0 h))
      ]

  pub in_edges_at-address : (n : SNode) → n ∈ g.nodes → in_edges_at g.nodes n.address ≡ n.in_edges
  unfolding in_edges_at
  in_edges_at-address n m = rw (node_at-address n m, in_edges_at) refl

  -- A node found by its unit.
  pub found :
      (u : ℕ) (n : SNode)
      → find_node_for g u ≡ some n
      → (n ∈ g.nodes) × (n.units ≡ u ∷ []) × (node_of g.unit_to_node u ≡ some n.address)
  unfolding find_node_for
  found u n e =
      let (m, h) = find?_elim (λ (k : SNode). contains k.units u) g.nodes n e in
      let (w, q) = b.single n m in
      let same : u ≡ w = ground (arith, h, ap (λ (us : List ℕ). contains us u) q) in
      (m, q ∙ ap (λ (k : ℕ). k ∷ []) (sym same), b.agree u ∙ ap address_of e)

  -- A node found by the map.
  pub mapped :
      (u a : ℕ)
      → node_of g.unit_to_node u ≡ some a
      → (n : SNode) × (find_node_for g u ≡ some n) × (n.address ≡ a)
  mapped u a e = elim (Option-cases (find_node_for g u)) [
    | inl q ↦ let no : node_of g.unit_to_node u ≡ none = b.agree u ∙ ap address_of q in absurd (cc)
    | inr (n, q) ↦
        let yes_at : node_of g.unit_to_node u ≡ some n.address = b.agree u ∙ ap address_of q in
        (n, q, cc)
  ]

  has_address-address : (n : SNode) → n ∈ g.nodes → has_address g.nodes n.address ≡ true
  has_address-address n m =
      any_intro (λ (k : SNode). k.address == n.address) g.nodes n m (==_refl n.address)

  pub IsBuilt-IsPointing : IsPointing g.unit_to_node g.nodes
  IsBuilt-IsPointing u a e =
      let (n, q, p) = mapped u a e in
      let (m, units, at) = found u n q in
      subst (λ (k : ℕ). has_address g.nodes k ≡ true) p (has_address-address n m)

-- Nodes that are only just made have no edges.
abbrev IsBare : List SNode → Type 0
IsBare ns = (n : SNode) → n ∈ ns → (n.in_edges ≡ []) × (n.out_edges ≡ [])

module _ (source : SourceGraph) (pred : ℕ → Bool) where
  compute_nodes_of-IsBare :
      (ns : List ℕ) (g : SGraph) → IsBare g.nodes → IsBare (compute_nodes_of source pred ns g).nodes
  unfolding compute_nodes_of add_node_for make_node
  compute_nodes_of-IsBare [] g h = h
  compute_nodes_of-IsBare (n ∷ ns) g h = elim (Bool-cases (pred n)) [
    | inr e ↦ rw (e, compute_nodes_of) (compute_nodes_of-IsBare ns g h)
    | inl e ↦
        rw (e, compute_nodes_of)
          (compute_nodes_of-IsBare ns (add_node_for (source.unit n) g) (λ k m.
            elim ((∈-append k g.nodes (make_node g.next_address (source.unit n) ∷ [])).0 m) [
              | inl i ↦ h k i
              | inr (inl q) ↦ (ap (λ (t : SNode). t.in_edges) q, ap (λ (t : SNode). t.out_edges) q)
              | inr (inr i) ↦ absurd i
            ]))
  ]

  compute_nodes-IsBare : IsBare (compute_nodes source pred empty_graph).nodes
  unfolding compute_nodes
  compute_nodes-IsBare = compute_nodes_of-IsBare source.nodes empty_graph (λ n m. absurd m)

  pub compute_nodes-edges :
      (a : ℕ)
      → (in_edges_at (compute_nodes source pred empty_graph).nodes a ≡ [])
        × (out_edges_at (compute_nodes source pred empty_graph).nodes a ≡ [])
  unfolding in_edges_at out_edges_at node_at
  compute_nodes-edges a =
      elim (Option-cases (node_at (compute_nodes source pred empty_graph).nodes a)) [
        | inl e ↦ rw (e, in_edges_at, out_edges_at) (refl, refl)
        | inr (n, e) ↦ rw (e, in_edges_at, out_edges_at) (bare n e)
      ]
    where
      bare :
          (n : SNode)
          → node_at (compute_nodes source pred empty_graph).nodes a ≡ some n
          → (n.in_edges ≡ []) × (n.out_edges ≡ [])
      bare n e =
          compute_nodes-IsBare n
            (find?_elim (λ (k : SNode). k.address == a)
              (compute_nodes source pred empty_graph).nodes n e).0
