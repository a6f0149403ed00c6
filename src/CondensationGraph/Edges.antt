-- ===== src/CondensationGraph/Edges.antt =====
-- The edges of the condensation graph against the edges of the graph that is condensed.
use mathlib.Core.Option
use iterator_recognition.Prelude.{
  ℕ, ◌≡◌, sym, ap, ◌∙◌, subst, ◌≢◌, ◌↔◌, inl, inr, Bool, Option, some, List, arith, Option-cases,
  ◌∈◌, find?, find?_elim, find?-none, contains, contains_iff,
}
use iterator_recognition.CondensationGraph.{
  CondensationNode, Condensations, enumerate, MemberMap, at?, find_condensation_external_edges,
  connect, compute_edges, make_nodes, condense,
}
use iterator_recognition.CondensationGraph.Members.{
  External, ∈-find_condensation_external_edges, find_condensation_external_edges-returns,
}
use iterator_recognition.CondensationGraph.Vectors.{
  enumerate_unique, ∈-make_nodes, make_nodes-∈, connect_all-returns, member_map, at?-member_map,
  condense-at,
}

-- A node is in one component at most, as of any list of strongly connected components.
abbrev pub IsPartition : List (List ℕ) → Type 0
IsPartition sccs =
    (c d n : ℕ) (x y : List ℕ)
    → (c, x) ∈ enumerate 0 sccs
    → (d, y) ∈ enumerate 0 sccs
    → n ∈ x
    → n ∈ y
    → c ≡ d

-- Each edge from a member leads to a member.
abbrev pub IsClosed : (ℕ → List ℕ) → List (List ℕ) → Type 0
IsClosed children sccs =
    (c m e : ℕ) (x : List ℕ)
    → (c, x) ∈ enumerate 0 sccs
    → m ∈ x
    → e ∈ children m
    → (d : ℕ) × (y : List ℕ) × ((d, y) ∈ enumerate 0 sccs) × (e ∈ y)

-- Some edge leads from a member of the first component to a member of the second.
abbrev pub Crosses : (ℕ → List ℕ) → List ℕ → List ℕ → Type 0
Crosses children source target = (m : ℕ) × (n : ℕ) × (m ∈ source) × (n ∈ target) × (n ∈ children m)

-- `d` is the address of another component, to which some edge leads from component `c`.
abbrev pub Leads : (ℕ → List ℕ) → List (List ℕ) → ℕ → List ℕ → ℕ → Type 0
Leads children sccs c members d =
    (target : List ℕ) × ((d, target) ∈ enumerate 0 sccs) × (d ≢ c) × Crosses children members target

module _ (children inverse_children : ℕ → List ℕ) (unit : ℕ → Option ℕ) (sccs : List (List ℕ)) where
  abbrev n2c : MemberMap
  n2c = member_map children inverse_children unit sccs

  abbrev cns : List (ℕ × CondensationNode)
  cns = enumerate 0 (make_nodes sccs)

  mapped_member :
      (e d : ℕ)
      → at? n2c e ≡ some d
      → (target : List ℕ) × ((d, target) ∈ enumerate 0 sccs) × (e ∈ target)
  mapped_member e d h =
      let holds : ℕ × CondensationNode → Bool = λ c. contains c.1.nodes e in
      let found = sym (at?-member_map children inverse_children unit sccs e) ∙ h in
      elim (Option-cases (find? holds cns)) [
        | inl q ↦ absurd (ground arith)
        | inr ((c, node), q) ↦
            let (there, has) = find?_elim holds cns (c, node) q in
            let e' : c ≡ d = ground arith in
            (
              node.nodes,
              subst (λ k. (k, node.nodes) ∈ enumerate 0 sccs) e' (∈-make_nodes 0 c node sccs there),
              (contains_iff node.nodes e).0 has,
            )
      ]

  member_mapped :
      (e d : ℕ) (target : List ℕ)
      → (d, target) ∈ enumerate 0 sccs
      → e ∈ target
      → (c : ℕ) × (at? n2c e ≡ some c)
  member_mapped e d target there has =
      let holds : ℕ × CondensationNode → Bool = λ c. contains c.1.nodes e in
      elim (Option-cases (find? holds cns)) [
        | inl q ↦
            let (node, place, same) = make_nodes-∈ 0 d target sccs there in
            let no_member = find?-none holds cns q (d, node) place in
            absurd (ground (arith, contains_iff node.nodes e, subst (λ l. e ∈ l) (sym same) has))
        | inr ((c, node), q) ↦ (
          c,
          at?-member_map children inverse_children unit sccs e
              ∙ ap (Option.map (λ (p : ℕ × CondensationNode). p.0)) q,
        )
      ]

  module _ (partition : IsPartition sccs) where
    -- The edges that one traversal of a component's members gives.
    ∈-edges :
        (next : ℕ → List ℕ) (c d : ℕ) (members cs : List ℕ)
        → (c, members) ∈ enumerate 0 sccs
        → find_condensation_external_edges next members n2c ≡ some cs
        → d ∈ cs ↔ Leads next sccs c members d
    ∈-edges next c d members cs place h =
        let edges = ∈-find_condensation_external_edges next members n2c cs h d in
        (
          λ m.
              let (e, ((s, in_source, child), outside), found) = edges.0 m in
              let (target, there, inside) = mapped_member e d found in
              (
                target,
                there,
                λ same. outside (
                    subst (λ l. e ∈ l)
                      (enumerate_unique 0 c target members sccs
                        (subst (λ k. (k, target) ∈ enumerate 0 sccs) same there) place)
                      inside),
                (s, e, in_source, inside, child),
              ),
          λ (target, there, other, (s, e, in_source, inside, child)).
              let (k, found) = member_mapped e d target there inside in
              let (target', there', inside') = mapped_member e k found in
              let same = partition k d e target' target there' there inside' inside in
              edges.1 (
                e,
                (
                  (s, in_source, child),
                  λ within. other (partition d c e target members there place inside within),
                ),
                found ∙ ap some same,
              ),
        )

    -- The out-edges of a condensation lead exactly to the other condensations that some edge of
    -- the graph leads to from a member, and the in-edges come from those with an edge to a member.
    pub condense-edges_iff :
        (g : Condensations) (c d : ℕ) (node : CondensationNode)
        → condense children inverse_children unit sccs ≡ some g
        → (c, node) ∈ enumerate 0 g.nodes
        → (d ∈ node.out_edges ↔ Leads children sccs c node.nodes d)
          × (d ∈ node.in_edges ↔ Leads inverse_children sccs c node.nodes d)
    condense-edges_iff g c d node h m =
        let (place, outs, ins) = condense-at children inverse_children unit sccs g c node h m in
        (
          ∈-edges children c d node.nodes node.out_edges place outs,
          ∈-edges inverse_children c d node.nodes node.in_edges place ins,
        )

    condense-edges_mirror :
        (g : Condensations) (c d : ℕ) (node other : CondensationNode)
        → ((m n : ℕ) → n ∈ children m ↔ m ∈ inverse_children n)
        → condense children inverse_children unit sccs ≡ some g
        → (c, node) ∈ enumerate 0 g.nodes
        → (d, other) ∈ enumerate 0 g.nodes
        → d ∈ node.out_edges ↔ c ∈ other.in_edges
    condense-edges_mirror g c d node other mirror h m n =
        let outs = (condense-edges_iff g c d node h m).0 in
        let ins = (condense-edges_iff g d c other h n).1 in
        let (here, _, _) = condense-at children inverse_children unit sccs g c node h m in
        let (there, _, _) = condense-at children inverse_children unit sccs g d other h n in
        (
          λ edge.
              let (target, place, differ, (s, e, in_source, inside, child)) = outs.0 edge in
              let same = enumerate_unique 0 d target other.nodes sccs place there in
              ins.1 (
                node.nodes,
                here,
                λ q. differ (sym q),
                (e, s, subst (λ l. e ∈ l) same inside, in_source, (mirror s e).0 child),
              ),
          λ edge.
              let (source, place, differ, (e, s, inside, in_source, child)) = ins.0 edge in
              let same = enumerate_unique 0 c source node.nodes sccs place here in
              outs.1 (
                other.nodes,
                there,
                λ q. differ (sym q),
                (s, e, subst (λ l. s ∈ l) same in_source, inside, (mirror s e).1 child),
              ),
        )

  External-mapped :
      (next : ℕ → List ℕ) (c e : ℕ) (members : List ℕ)
      → IsClosed next sccs
      → (c, members) ∈ enumerate 0 sccs
      → External next members e
      → (k : ℕ) × (at? n2c e ≡ some k)
  External-mapped next c e members closed place ((m, inside, child), outside) =
      let (d, target, there, has) = closed c m e members place inside child in
      member_mapped e d target there has

  condense-some :
      IsClosed children sccs
      → IsClosed inverse_children sccs
      → (g : Condensations) × (condense children inverse_children unit sccs ≡ some g)
  unfolding condense compute_edges connect
  condense-some closed inverse_closed =
      let (done, h) =
        connect_all-returns children inverse_children unit n2c 0 (make_nodes sccs) (λ c cn m.
          let place = ∈-make_nodes 0 c cn sccs m in
          let (outs, p) =
            find_condensation_external_edges-returns children cn.nodes n2c
              (λ e x. External-mapped children c e cn.nodes closed place x) in
          let (ins, q) =
            find_condensation_external_edges-returns inverse_children cn.nodes n2c
              (λ e x. External-mapped inverse_children c e cn.nodes inverse_closed place x) in
          (record { nodes = cn.nodes; out_edges = outs; in_edges = ins }, ground arith)) in
      (record { nodes = done; entry_node = _ }, ap (Option.map _) h)

  -- If no node is in two components, every edge, in both directions, stays among the components,
  -- and the inverse traversal mirrors the forward one, then no lookup throws, and each edge of the
  -- condensation graph is listed at both of its ends.
  pub condense-returns :
      IsPartition sccs
      → IsClosed children sccs
      → IsClosed inverse_children sccs
      → ((m n : ℕ) → n ∈ children m ↔ m ∈ inverse_children n)
      → (g : Condensations) × (condense children inverse_children unit sccs ≡ some g)
        × ((c d : ℕ) (node other : CondensationNode)
            → (c, node) ∈ enumerate 0 g.nodes
            → (d, other) ∈ enumerate 0 g.nodes
            → d ∈ node.out_edges ↔ c ∈ other.in_edges)
  condense-returns partition closed inverse_closed mirror =
      let (g, h) = condense-some closed inverse_closed in
      (g, h, λ c d node other m n. condense-edges_mirror partition g c d node other mirror h m n)
