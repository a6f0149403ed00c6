-- ===== src/ShadowDependenceGraph/First.antt =====
-- The graph that computeNodes and computeEdges make from an empty one, before there are copies.
use iterator_recognition.Prelude.{
  ℕ, ◌<◌, ◌≡◌, refl, sym, ap, ◌∙◌, subst, inl, inr, Bool, true, false, ◌||◌, some, List, [], ◌∷◌,
  ◌++◌, arith, ◌==◌, ==_iff, Bool-cases, Option-cases, ◌∈◌, any, any_intro, contains, IsDistinct,
}
use iterator_recognition.ShadowDependenceGraph.{
  SourceGraph, SNode, SGraph, empty_graph, make_node, node_of, add_node_for, push_out_edge,
  push_in_edge, compute_nodes_of, compute_nodes, add_edges, compute_edges_of, compute_edges,
}
use iterator_recognition.ShadowDependenceGraph.Iterations.{
  compute_next_iteration_nodes, compute_next_iteration_edges,
}
use iterator_recognition.ShadowDependenceGraph.Nodes.{compute_nodes-IsBuilt}
use iterator_recognition.ShadowDependenceGraph.Edges.{HasCopy, HasEdge, ∈-compute_edges}
use iterator_recognition.ShadowDependenceGraph.Built.{compute_edges-IsBuilt}
use iterator_recognition.ShadowDependenceGraph.Lookup.{IsBuilt-IsPointing, compute_nodes-edges}
use iterator_recognition.ShadowDependenceGraph.Iterated.{addresses}
use iterator_recognition.ShadowDependenceGraph.NextIteration.{
  IsFirst, IsIterated, compute_next_iteration_edges-returns-IsIterated,
}

abbrev has_copy : List SNode → Bool
has_copy ns = any (λ n. n.is_next_iteration) ns

-- Addresses of their own, and no copies.
abbrev IsPlain : List SNode → Type 0
IsPlain ns = IsDistinct (addresses ns) × (has_copy ns ≡ false)

plain-push_out_edge :
    (a c : ℕ) (ns : List SNode)
    → (addresses (push_out_edge a c ns) ≡ addresses ns)
      × (has_copy (push_out_edge a c ns) ≡ has_copy ns)
unfolding push_out_edge
plain-push_out_edge a c [] = (refl, refl)
plain-push_out_edge a c (n ∷ ns) =
    let (p, q) = plain-push_out_edge a c ns in (ground (arith, p), ground (arith, q))

plain-push_in_edge :
    (a c : ℕ) (ns : List SNode)
    → (addresses (push_in_edge a c ns) ≡ addresses ns)
      × (has_copy (push_in_edge a c ns) ≡ has_copy ns)
unfolding push_in_edge
plain-push_in_edge a c [] = (refl, refl)
plain-push_in_edge a c (n ∷ ns) =
    let (p, q) = plain-push_in_edge a c ns in (ground (arith, p), ground (arith, q))

IsPlain-link :
    (a c : ℕ) (ns : List SNode) → IsPlain ns → IsPlain (push_in_edge c a (push_out_edge a c ns))
IsPlain-link a c ns (d, f) =
    let (p, q) = plain-push_out_edge a c ns in
    let (p', q') = plain-push_in_edge c a (push_out_edge a c ns) in
    (subst IsDistinct (sym (p' ∙ p)) d, q' ∙ q ∙ f)

module _ (source : SourceGraph) (m : List (ℕ × ℕ)) where
  add_edges-IsPlain :
      (sn : ℕ) (es : List ℕ) (ns : List SNode) → IsPlain ns → IsPlain (add_edges source m sn es ns)
  unfolding add_edges
  add_edges-IsPlain sn [] ns plain = plain
  add_edges-IsPlain sn (e ∷ es) ns plain = elim (Option-cases (node_of m (source.unit e))) [
    | inl q ↦ rw (q, add_edges) (add_edges-IsPlain sn es ns plain)
    | inr (c, q) ↦
        rw (q, add_edges)
          (add_edges-IsPlain sn es (push_in_edge c sn (push_out_edge sn c ns))
            (IsPlain-link sn c ns plain))
  ]

  compute_edges_of-IsPlain :
      (rest : List ℕ) (ns : List SNode) → IsPlain ns → IsPlain (compute_edges_of source m rest ns)
  unfolding compute_edges_of
  compute_edges_of-IsPlain [] ns plain = plain
  compute_edges_of-IsPlain (n ∷ rest) ns plain = elim (Option-cases (node_of m (source.unit n))) [
    | inl q ↦ rw (q, compute_edges_of) (compute_edges_of-IsPlain rest ns plain)
    | inr (sn, q) ↦
        rw (q, compute_edges_of)
          (compute_edges_of-IsPlain rest (add_edges source m sn (source.children n) ns)
            (add_edges-IsPlain sn (source.children n) ns plain))
  ]

  -- An edge of the source leads to a node with an entry in the map.
  HasCopy-entry : (es : List ℕ) (y : ℕ) → HasCopy source m es y → (u : ℕ) × (node_of m u ≡ some y)
  HasCopy-entry [] y h = absurd h
  HasCopy-entry (e ∷ es) y (inl q) = (source.unit e, q)
  HasCopy-entry (e ∷ es) y (inr h) = HasCopy-entry es y h

  HasEdge-entry :
      (ns : List ℕ) (x y : ℕ) → HasEdge source m ns x y → (u : ℕ) × (node_of m u ≡ some y)
  HasEdge-entry [] x y h = absurd h
  HasEdge-entry (n ∷ ns) x y (inl (q, h)) = HasCopy-entry (source.children n) y h
  HasEdge-entry (n ∷ ns) x y (inr h) = HasEdge-entry ns x y h

-- What the nodes have before there are edges.
record IsStart (g : SGraph) : Type 0 where
  plain : IsPlain g.nodes
  bounded : (a : ℕ) → contains (addresses g.nodes) a ≡ true → a < g.next_address
  unpaired : g.iterations ≡ []

contains-snoc : (xs : List ℕ) (x a : ℕ) → contains (xs ++ x ∷ []) a ≡ (contains xs a || a == x)
contains-snoc [] x a = ground arith
contains-snoc (y ∷ xs) x a = ground (arith, contains-snoc xs x a)

snoc-IsDistinct :
    (xs : List ℕ) (x : ℕ) → IsDistinct xs → contains xs x ≡ false → IsDistinct (xs ++ x ∷ [])
snoc-IsDistinct [] x d h = (refl, tt)
snoc-IsDistinct (y ∷ xs) x d h = (
  ground (arith, contains-snoc xs x y, ==_iff x y, ==_iff y x),
  snoc-IsDistinct xs x d.1 (ground arith),
)

addresses-snoc :
    (ns : List SNode) (n : SNode) → addresses (ns ++ n ∷ []) ≡ addresses ns ++ n.address ∷ []
addresses-snoc [] n = refl
addresses-snoc (k ∷ ns) n = ap (λ l. k.address ∷ l) (addresses-snoc ns n)

has_copy-snoc :
    (ns : List SNode) (n : SNode) → has_copy (ns ++ n ∷ []) ≡ (has_copy ns || n.is_next_iteration)
has_copy-snoc [] n = ground arith
has_copy-snoc (k ∷ ns) n = ground (arith, has_copy-snoc ns n)

add_node_for-IsStart : (u : ℕ) (g : SGraph) → IsStart g → IsStart (add_node_for u g)
unfolding add_node_for make_node
add_node_for-IsStart u g s =
    let at = addresses-snoc g.nodes (make_node g.next_address u) in
    let fresh : contains (addresses g.nodes) g.next_address ≡ false =
      elim (Bool-cases (contains (addresses g.nodes) g.next_address)) [
        | inl q ↦ absurd (omega (arith, s.bounded g.next_address q))
        | inr q ↦ q
      ] in
    record {
      plain = (
        subst IsDistinct (sym at)
            (snoc-IsDistinct (addresses g.nodes) g.next_address s.plain.0 fresh),
        ground (arith, has_copy-snoc g.nodes (make_node g.next_address u), s.plain.1),
      );
      bounded = λ a h.
          let h' =
            sym (ap (λ l. contains l a) at ∙ contains-snoc (addresses g.nodes) g.next_address a)
            ∙ h in
          elim (Bool-cases (contains (addresses g.nodes) a)) [
            | inl q ↦ omega (arith, s.bounded a q)
            | inr q ↦
                let e : a ≡ g.next_address = ground (arith, ==_iff a g.next_address) in omega arith
          ];
      unpaired = s.unpaired;
    }

module _ (source : SourceGraph) (pred : ℕ → Bool) where
  compute_nodes_of-IsStart :
      (ns : List ℕ) (g : SGraph) → IsStart g → IsStart (compute_nodes_of source pred ns g)
  unfolding compute_nodes_of
  compute_nodes_of-IsStart [] g s = s
  compute_nodes_of-IsStart (n ∷ ns) g s = elim (Bool-cases (pred n)) [
    | inl q ↦
        rw (q, compute_nodes_of)
          (compute_nodes_of-IsStart ns (add_node_for (source.unit n) g)
            (add_node_for-IsStart (source.unit n) g s))
    | inr q ↦ rw (q, compute_nodes_of) (compute_nodes_of-IsStart ns g s)
  ]

  abbrev start : SGraph
  start = compute_nodes source pred empty_graph

  start-IsStart : IsStart start
  unfolding compute_nodes
  start-IsStart =
      compute_nodes_of-IsStart source.nodes empty_graph
        (record { plain = (tt, refl); bounded = λ a h. cc; unpaired = refl })

  compute_edges-IsFirst : IsFirst (compute_edges source start)
  unfolding compute_edges
  compute_edges-IsFirst =
      let built = compute_nodes-IsBuilt source pred in
      let edged = compute_edges-IsBuilt source start built in
      let (distinct, no_copy) =
        compute_edges_of-IsPlain source start.unit_to_node source.nodes start.nodes
          start-IsStart.plain in
      record {
        single = edged.single;
        distinct = distinct;
        below = edged.below;
        originals = λ n m. elim (Bool-cases n.is_next_iteration) [
          | inl q ↦ absurd (
              ground (
                arith,
                any_intro (λ (k : SNode). k.is_next_iteration) (compute_edges source start).nodes n
                    m q,
                no_copy,
              ))
          | inr q ↦ q
        ];
        unpaired = start-IsStart.unpaired;
        closed = λ a e m.
            elim ((∈-compute_edges source start a e (IsBuilt-IsPointing start built)).0.0 m) [
              | inl edge ↦
                  let (u, q) = HasEdge-entry source start.unit_to_node source.nodes a e edge in
                  IsBuilt-IsPointing (compute_edges source start) edged u e q
              | inr old ↦ absurd (subst (λ l. e ∈ l) (compute_nodes-edges source pred a).1 old)
            ];
      }

  -- From an empty graph, the four steps computeNodes, computeEdges, computeNextIterationNodes and
  -- computeNextIterationEdges return, and in the graph that they make each node has a copy for the
  -- next iteration; besides the edges that computeEdges made, the out-edges of a copy lead to the
  -- copies of what its original leads to, but the in-edges of a copy come from the originals.
  pub compute_next_iteration_edges-compute_edges :
      (after : SGraph) × (compute_next_iteration_edges (
          compute_next_iteration_nodes
            (compute_edges source (compute_nodes source pred empty_graph)))
        ≡ some after)
      × IsIterated
          (compute_edges source (compute_nodes source pred empty_graph))
          after
          (compute_next_iteration_nodes
            (compute_edges source (compute_nodes source pred empty_graph))).iterations
  compute_next_iteration_edges-compute_edges =
      compute_next_iteration_edges-returns-IsIterated (compute_edges source start)
        compute_edges-IsFirst
