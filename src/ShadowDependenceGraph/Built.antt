-- ===== src/ShadowDependenceGraph/Built.antt =====
-- Making the edges keeps the nodes, so the look-ups still agree.
use iterator_recognition.Prelude.{
  ℕ, ◌≡◌, refl, sym, ap, ◌∙◌, inl, inr, List, [], ◌∷◌, ◌++◌, map, arith, ◌==◌, if◌then◌else◌,
  Option-cases, find?, ∈-map, contains,
}
use iterator_recognition.ShadowDependenceGraph.{
  SourceGraph, SNode, SGraph, node_of, find_node_for, push_out_edge, push_in_edge, add_edges,
  compute_edges_of, compute_edges,
}
use iterator_recognition.ShadowDependenceGraph.Nodes.{address_of, IsBuilt}

module _ (f : SNode → SNode) (keeps_address : (n : SNode) → (f n).address ≡ n.address)
    (keeps_units : (n : SNode) → (f n).units ≡ n.units) where
  find?-map :
      (u : ℕ) (ns : List SNode)
      → address_of (find? (λ n. contains n.units u) (map f ns))
        ≡ address_of (find? (λ n. contains n.units u) ns)
  find?-map u [] = refl
  find?-map u (n ∷ ns) =
      ground (
        arith,
        find?-map u ns,
        keeps_address n,
        ap (λ (us : List ℕ). contains us u) (keeps_units n),
      )

  map-IsBuilt : (g : SGraph) → IsBuilt g → IsBuilt (record g { nodes = map f g.nodes })
  unfolding find_node_for
  map-IsBuilt g b = record {
    agree = λ u. b.agree u ∙ sym (find?-map u g.nodes);
    single = λ n m.
        let (k, i, e) = (∈-map f n g.nodes).0 m in
        let (u, q) = b.single k i in (u, ap (λ (t : SNode). t.units) e ∙ keeps_units k ∙ q);
    below = λ n m.
        let (k, i, e) = (∈-map f n g.nodes).0 m in
        omega (arith, ap (λ (t : SNode). t.address) e, keeps_address k, b.below k i);
    apart = λ n n' m m' q.
        let (k, i, e) = (∈-map f n g.nodes).0 m in
        let (k', i', e') = (∈-map f n' g.nodes).0 m' in
        let same : k.address ≡ k'.address = omega (
          arith,
          q,
          ap (λ (t : SNode). t.address) e,
          ap (λ (t : SNode). t.address) e',
          keeps_address k,
          keeps_address k',
        ) in
        e ∙ ap f (b.apart k k' i i' same) ∙ sym e';
  }

push_out_edge-IsBuilt :
    (a c : ℕ) (g : SGraph) → IsBuilt g → IsBuilt (record g { nodes = push_out_edge a c g.nodes })
unfolding push_out_edge
push_out_edge-IsBuilt a c g b =
    map-IsBuilt (λ n. if n.address == a then record n { out_edges = n.out_edges ++ c ∷ [] } else n)
      (λ n. ground arith) (λ n. ground arith) g b

push_in_edge-IsBuilt :
    (c a : ℕ) (g : SGraph) → IsBuilt g → IsBuilt (record g { nodes = push_in_edge c a g.nodes })
unfolding push_in_edge
push_in_edge-IsBuilt c a g b =
    map-IsBuilt (λ n. if n.address == c then record n { in_edges = n.in_edges ++ a ∷ [] } else n)
      (λ n. ground arith) (λ n. ground arith) g b

module _ (source : SourceGraph) (g : SGraph) where
  add_edges-IsBuilt :
      (sn : ℕ) (es : List ℕ) (ns : List SNode)
      → IsBuilt (record g { nodes = ns })
      → IsBuilt (record g { nodes = add_edges source g.unit_to_node sn es ns })
  unfolding add_edges
  add_edges-IsBuilt sn [] ns b = b
  add_edges-IsBuilt sn (e ∷ es) ns b =
      elim (Option-cases (node_of g.unit_to_node (source.unit e))) [
        | inl q ↦ rw (q, add_edges) (add_edges-IsBuilt sn es ns b)
        | inr (c, q) ↦
            rw (q, add_edges)
              (add_edges-IsBuilt sn es (push_in_edge c sn (push_out_edge sn c ns)) (
                push_in_edge-IsBuilt c sn (record g { nodes = push_out_edge sn c ns })
                  (push_out_edge-IsBuilt sn c (record g { nodes = ns }) b)))
      ]

  compute_edges_of-IsBuilt :
      (rest : List ℕ) (ns : List SNode)
      → IsBuilt (record g { nodes = ns })
      → IsBuilt (record g { nodes = compute_edges_of source g.unit_to_node rest ns })
  unfolding compute_edges_of
  compute_edges_of-IsBuilt [] ns b = b
  compute_edges_of-IsBuilt (n ∷ rest) ns b =
      elim (Option-cases (node_of g.unit_to_node (source.unit n))) [
        | inl q ↦ rw (q, compute_edges_of) (compute_edges_of-IsBuilt rest ns b)
        | inr (sn, q) ↦
            rw (q, compute_edges_of)
              (compute_edges_of-IsBuilt rest
                (add_edges source g.unit_to_node sn (source.children n) ns)
                (add_edges-IsBuilt sn (source.children n) ns b))
      ]

  pub compute_edges-IsBuilt : IsBuilt g → IsBuilt (compute_edges source g)
  unfolding compute_edges
  compute_edges-IsBuilt b = compute_edges_of-IsBuilt source.nodes g.nodes b
