-- ===== src/DetectOperations/Payload.antt =====
-- On the shadow graph that the payload pass makes, the detector goes back along the payload's own
-- dependences.
use iterator_recognition.Prelude.{
  ℕ, ◌≡◌, refl, sym, ap, ◌∙◌, subst, ◌↔◌, ◌⊎◌, inl, inr, Bool, false, some, List, [], ◌∷◌,
  Option-cases, ◌∈◌, insert_all, ∈-insert_all,
}
use iterator_recognition.ShadowDependenceGraph.{
  units_at, SourceGraph, SNode, SGraph, empty_graph, node_of, find_node_for, compute_nodes,
  compute_edges,
}
use iterator_recognition.ShadowDependenceGraph.Edges.{HasCopy, HasEdge, ∈-compute_edges}
use iterator_recognition.ShadowDependenceGraph.Nodes.{
  IsBuilt, compute_nodes-IsBuilt, IsChosen, is_entry, node_of-compute_nodes,
}
use iterator_recognition.ShadowDependenceGraph.Built.{compute_edges-IsBuilt}
use iterator_recognition.ShadowDependenceGraph.Lookup.{
  node_at-address, in_edges_at-address, found, mapped, IsBuilt-IsPointing, compute_nodes-edges,
}
use iterator_recognition.DetectOperations.{insert_units, inverse_edge_units}

∈-insert_units :
    (v : ℕ) (ns : List SNode) (as' s : List ℕ)
    → v ∈ insert_units ns as' s ↔ (((a : ℕ) × (a ∈ as') × (v ∈ units_at ns a)) ⊎ (v ∈ s))
unfolding insert_units
∈-insert_units v ns [] s = (inr, λ h. elim h [ inl (a, m, k) ↦ absurd m | inr m ↦ m ])
∈-insert_units v ns (b ∷ as') s =
    let rest = ∈-insert_units v ns as' (insert_all (units_at ns b) s) in
    let first = ∈-insert_all v (units_at ns b) s in
    (
      λ h. elim (rest.0 h) [
        | inl (a, m, k) ↦ inl (a, inr m, k)
        | inr m ↦ elim (first.0 m) [ inl k ↦ inl (b, inl refl, k) | inr k ↦ inr k ]
      ],
      λ h. elim h [
        | inl (a, inr m, k) ↦ rest.1 (inl (a, m, k))
        | inl (a, inl q, k) ↦
            rest.1 (inr (first.1 (inl (subst (λ (x : ℕ). v ∈ units_at ns x) q k))))
        | inr m ↦ rest.1 (inr (first.1 (inr m)))
      ],
    )

module _ (source : SourceGraph) (pred : ℕ → Bool) where
  -- The shadow graph of step 2 of the pass.
  abbrev pub shadow : SGraph
  shadow = compute_edges source (compute_nodes source pred empty_graph)

  abbrev nodes_only : SGraph
  nodes_only = compute_nodes source pred empty_graph

  -- Whether an edge of the source leads from the instruction `v` to the instruction `w`.
  abbrev pub HasDependence : ℕ → ℕ → Type 0
  HasDependence v w =
      (n : ℕ) × (e : ℕ) × (n ∈ source.nodes)
      × (e ∈ source.children n)
      × (source.unit n ≡ v)
      × (source.unit e ≡ w)

  shadow-IsBuilt : IsBuilt shadow
  shadow-IsBuilt =
      compute_edges-IsBuilt source (compute_nodes source pred empty_graph)
        (compute_nodes-IsBuilt source pred)

  HasCopy-elim :
      (m : List (ℕ × ℕ)) (es : List ℕ) (c : ℕ)
      → HasCopy source m es c
      → (e : ℕ) × (e ∈ es) × (node_of m (source.unit e) ≡ some c)
  HasCopy-elim m [] c h = absurd h
  HasCopy-elim m (e ∷ es) c (inl q) = (e, inl refl, q)
  HasCopy-elim m (e ∷ es) c (inr h) = let (e', i, q) = HasCopy-elim m es c h in (e', inr i, q)

  HasCopy-intro :
      (m : List (ℕ × ℕ)) (es : List ℕ) (c e : ℕ)
      → e ∈ es
      → node_of m (source.unit e) ≡ some c
      → HasCopy source m es c
  HasCopy-intro m [] c e i q = absurd i
  HasCopy-intro m (k ∷ es) c e (inl p) q =
      inl (ap (λ (x : ℕ). node_of m (source.unit x)) (sym p) ∙ q)
  HasCopy-intro m (k ∷ es) c e (inr i) q = inr (HasCopy-intro m es c e i q)

  HasEdge-elim :
      (m : List (ℕ × ℕ)) (ns : List ℕ) (x y : ℕ)
      → HasEdge source m ns x y
      → (n : ℕ) × (e : ℕ) × (n ∈ ns)
        × (e ∈ source.children n)
        × (node_of m (source.unit n) ≡ some x)
        × (node_of m (source.unit e) ≡ some y)
  HasEdge-elim m [] x y h = absurd h
  HasEdge-elim m (n ∷ ns) x y (inl (p, h)) =
      let (e, i, q) = HasCopy-elim m (source.children n) y h in (n, e, inl refl, i, p, q)
  HasEdge-elim m (n ∷ ns) x y (inr h) =
      let (n', e, i, j, p, q) = HasEdge-elim m ns x y h in (n', e, inr i, j, p, q)

  HasEdge-intro :
      (m : List (ℕ × ℕ)) (ns : List ℕ) (x y n e : ℕ)
      → n ∈ ns
      → e ∈ source.children n
      → node_of m (source.unit n) ≡ some x
      → node_of m (source.unit e) ≡ some y
      → HasEdge source m ns x y
  HasEdge-intro m [] x y n e i j p q = absurd i
  HasEdge-intro m (k ∷ ns) x y n e (inl r) j p q = inl (
    ap (λ (t : ℕ). node_of m (source.unit t)) (sym r) ∙ p,
    HasCopy-intro m (source.children k) y e (subst (λ (t : ℕ). e ∈ source.children t) r j) q,
  )
  HasEdge-intro m (k ∷ ns) x y n e (inr i) j p q = inr (HasEdge-intro m ns x y n e i j p q)

  shadow_map : shadow.unit_to_node ≡ nodes_only.unit_to_node
  unfolding compute_edges
  shadow_map = refl

  units_at-mapped :
      (u a : ℕ) → node_of shadow.unit_to_node u ≡ some a → units_at shadow.nodes a ≡ u ∷ []
  unfolding units_at
  units_at-mapped u a e =
      let (n, q, p) = mapped shadow shadow-IsBuilt u a e in
      let (m, units, at) = found shadow shadow-IsBuilt u n q in
      subst (λ (k : ℕ). units_at shadow.nodes k ≡ u ∷ []) p
        (rw (node_at-address shadow shadow-IsBuilt n m, units_at) units)

  same_unit :
      (u w a : ℕ)
      → node_of shadow.unit_to_node u ≡ some a
      → node_of shadow.unit_to_node w ≡ some a
      → u ≡ w
  same_unit u w a p q =
      let units : ◌≡◌ {A = List ℕ} (u ∷ []) (w ∷ []) =
        sym (units_at-mapped u a p) ∙ units_at-mapped w a q in
      cc

  mapped_iff :
      (u : ℕ)
      → ((a : ℕ) × (node_of shadow.unit_to_node u ≡ some a)) ↔ IsChosen source pred source.nodes u
  mapped_iff u = (
    λ (a, e).
        (node_of-compute_nodes source pred u).0
          (ap is_entry (sym (ap (λ (m : List (ℕ × ℕ)). node_of m u) shadow_map) ∙ e)),
    λ h. elim (Option-cases (node_of shadow.unit_to_node u)) [
      | inr s ↦ s
      | inl e ↦
          let no : is_entry (node_of nodes_only.unit_to_node u) ≡ false =
            ap is_entry (sym (ap (λ (m : List (ℕ × ℕ)). node_of m u) shadow_map) ∙ e) in
          let some_entry = (node_of-compute_nodes source pred u).1 h in absurd (cc)
    ],
  )

  ∈-in_edges :
      (w a : ℕ) (n : SNode)
      → find_node_for shadow w ≡ some n
      → a ∈ n.in_edges ↔ HasEdge source shadow.unit_to_node source.nodes a n.address
  unfolding compute_edges
  ∈-in_edges w a n e =
      let (m, units, at) = found shadow shadow-IsBuilt w n e in
      let same = in_edges_at-address shadow shadow-IsBuilt n m in
      let edges =
        (∈-compute_edges source nodes_only a n.address
          (IsBuilt-IsPointing nodes_only (compute_nodes-IsBuilt source pred))).1 in
      let bare = (compute_nodes-edges source pred n.address).0 in
      (
        λ h. elim (edges.0 (subst (λ (xs : List ℕ). a ∈ xs) (sym same) h)) [
          | inl k ↦ k
          | inr k ↦ absurd (subst (λ (xs : List ℕ). a ∈ xs) bare k)
        ],
        λ h. subst (λ (xs : List ℕ). a ∈ xs) same (edges.1 (inl h)),
      )

  -- On the graph that computeNodes and then computeEdges make: the units of the in-edges of the node
  -- that is found for an instruction are the instructions, with a node that the predicate takes, from
  -- which an edge of the source leads to it.
  pub ∈-inverse_edge_units :
      (w : ℕ) (n : SNode)
      → find_node_for (compute_edges source (compute_nodes source pred empty_graph)) w ≡ some n
      → (v : ℕ)
      → v ∈ inverse_edge_units (compute_edges source (compute_nodes source pred empty_graph)) n
        ↔ (IsChosen source pred source.nodes v × HasDependence v w)
  unfolding inverse_edge_units
  ∈-inverse_edge_units w n e v =
      let (m, units, at) = found shadow shadow-IsBuilt w n e in
      (
        λ h. elim ((∈-insert_units v shadow.nodes n.in_edges []).0 h) [
          | inr k ↦ absurd k
          | inl (a, i, k) ↦
              let (s, d, j, l, p, q) =
                HasEdge-elim shadow.unit_to_node source.nodes a n.address
                  ((∈-in_edges w a n e).0 i) in
              let only : v ∈ (source.unit s ∷ []) =
                subst (λ (xs : List ℕ). v ∈ xs) (units_at-mapped (source.unit s) a p) k in
              let same : source.unit s ≡ v = elim only [ inl r ↦ sym r | inr r ↦ absurd r ] in
              let entry : node_of shadow.unit_to_node v ≡ some a =
                subst (λ (x : ℕ). node_of shadow.unit_to_node x ≡ some a) same p in
              (
                (mapped_iff v).0 (a, entry),
                (s, d, j, l, same, same_unit (source.unit d) w n.address q at),
              )
        ],
        λ h. intro h.0 h.1,
      )
    where
      intro :
          IsChosen source pred source.nodes v
          → HasDependence v w
          → v ∈ insert_units shadow.nodes n.in_edges []
      intro c (s, d, j, l, p, q) =
          let (m, units, at) = found shadow shadow-IsBuilt w n e in
          let (a, entry) = (mapped_iff v).1 c in
          let from : node_of shadow.unit_to_node (source.unit s) ≡ some a =
            subst (λ (x : ℕ). node_of shadow.unit_to_node x ≡ some a) (sym p) entry in
          let to : node_of shadow.unit_to_node (source.unit d) ≡ some n.address =
            subst (λ (x : ℕ). node_of shadow.unit_to_node x ≡ some n.address) (sym q) at in
          (∈-insert_units v shadow.nodes n.in_edges []).1 (
            inl (
              a,
              (∈-in_edges w a n e).1
                  (HasEdge-intro shadow.unit_to_node source.nodes a n.address s d j l from to),
              subst (λ (xs : List ℕ). v ∈ xs) (sym (units_at-mapped v a entry)) (inl refl),
            ))
