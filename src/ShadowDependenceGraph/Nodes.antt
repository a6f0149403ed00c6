-- ===== src/ShadowDependenceGraph/Nodes.antt =====
-- The nodes that computeNodes makes, and how the look-ups by the map and by the units agree.
use iterator_recognition.Prelude.{
  ℕ, ◌<◌, ◌≡◌, refl, sym, ap, ◌∙◌, ◌↔◌, ◌⊎◌, inl, inr, Bool, true, false, ◌||◌, Option, none, some,
  List, [], ◌∷◌, ◌++◌, arith, ◌==◌, if◌then◌else◌, ==_iff, Bool-cases, Option-cases, ◌∈◌, ∈-append,
  find?, contains,
}
use iterator_recognition.ShadowDependenceGraph.{
  SourceGraph, SNode, SGraph, empty_graph, make_node, node_of, emplace, add_node_for, find_node_for,
  compute_nodes_of, compute_nodes,
}

abbrev pub address_of : Option SNode → Option ℕ
address_of none = none
address_of (some n) = some n.address

-- What a graph has that was made by adding nodes: the map and the search by units lead to the same
-- node, each node has one unit, and no address is used twice.
pub record IsBuilt (g : SGraph) : Type 0 where
  pub agree : (u : ℕ) → node_of g.unit_to_node u ≡ address_of (find_node_for g u)
  pub single : (n : SNode) → n ∈ g.nodes → (u : ℕ) × (n.units ≡ u ∷ [])
  pub below : (n : SNode) → n ∈ g.nodes → n.address < g.next_address
  pub apart : (n k : SNode) → n ∈ g.nodes → k ∈ g.nodes → n.address ≡ k.address → n ≡ k

find?-snoc :
    (p : SNode → Bool) (ns : List SNode) (n : SNode)
    → find? p (ns ++ n ∷ [])
      ≡ elim (find? p ns) [ none ↦ if p n then some n else none | some k ↦ some k ]
find?-snoc p [] n = refl
find?-snoc p (k ∷ ns) n = ground (arith, find?-snoc p ns n)

node_of-snoc :
    (m : List (ℕ × ℕ)) (k a u : ℕ)
    → node_of (m ++ (k, a) ∷ []) u
      ≡ elim (node_of m u) [ none ↦ if u == k then some a else none | some b ↦ some b ]
unfolding node_of
node_of-snoc [] k a u = refl
node_of-snoc ((j, b) ∷ m) k a u = ground (arith, node_of-snoc m k a u)

node_of-emplace :
    (k a u : ℕ) (m : List (ℕ × ℕ))
    → node_of (emplace k a m) u
      ≡ elim (node_of m u) [ none ↦ if u == k then some a else none | some b ↦ some b ]
unfolding emplace
node_of-emplace k a u m = elim (Option-cases (node_of m k)) [
  | inl e ↦ rw (e, emplace) (node_of-snoc m k a u)
  | inr (b, e) ↦ rw (e, emplace) (ground (arith, ==_iff u k, ap (node_of m) {x = u} {y = k}))
]

add_node_for-IsBuilt : (u : ℕ) (g : SGraph) → IsBuilt g → IsBuilt (add_node_for u g)
unfolding add_node_for make_node find_node_for
add_node_for-IsBuilt u g b = record {
  agree = λ v. agreeing v;
  single = λ n h. elim ((∈-append n g.nodes (fresh ∷ [])).0 h) [
    | inl k ↦ b.single n k
    | inr (inl e) ↦ (u, ap (λ (k : SNode). k.units) e)
    | inr (inr k) ↦ absurd k
  ];
  below = λ n h. elim ((∈-append n g.nodes (fresh ∷ [])).0 h) [
    | inl k ↦ omega (arith, b.below n k)
    | inr (inl e) ↦ omega (arith, ap (λ (k : SNode). k.address) e)
    | inr (inr k) ↦ absurd k
  ];
  apart = λ n k h j e. elim ((∈-append n g.nodes (fresh ∷ [])).0 h) [
    | inl h' ↦ elim ((∈-append k g.nodes (fresh ∷ [])).0 j) [
      | inl j' ↦ b.apart n k h' j' e
      | inr (inl q) ↦ absurd (omega (arith, b.below n h', ap (λ (t : SNode). t.address) q))
      | inr (inr q) ↦ absurd q
    ]
    | inr (inl p) ↦ elim ((∈-append k g.nodes (fresh ∷ [])).0 j) [
      | inl j' ↦ absurd (omega (arith, b.below k j', ap (λ (t : SNode). t.address) p))
      | inr (inl q) ↦ p ∙ sym q
      | inr (inr q) ↦ absurd q
    ]
    | inr (inr p) ↦ absurd p
  ];
}
  where
    fresh : SNode
    fresh = make_node g.next_address u

    agreeing :
        (v : ℕ)
        → node_of (emplace u g.next_address g.unit_to_node) v
          ≡ address_of
              (find? (λ n. contains n.units v) (g.nodes ++ make_node g.next_address u ∷ []))
    agreeing v = ground (
      arith,
      b.agree v,
      node_of-emplace u g.next_address v g.unit_to_node,
      find?-snoc (λ (n : SNode). contains n.units v) g.nodes (make_node g.next_address u),
    )

empty_graph-IsBuilt : IsBuilt empty_graph
unfolding node_of find_node_for
empty_graph-IsBuilt = record {
  agree = λ u. refl;
  single = λ n m. absurd m;
  below = λ n m. absurd m;
  apart = λ n k m. absurd m;
}

abbrev pub is_entry : Option ℕ → Bool
is_entry none = false
is_entry (some a) = true

is_entry-emplace :
    (k a u : ℕ) (m : List (ℕ × ℕ))
    → is_entry (node_of (emplace k a m) u) ≡ (is_entry (node_of m u) || u == k)
is_entry-emplace k a u m = rw node_of-emplace (ground arith)

module _ (source : SourceGraph) (pred : ℕ → Bool) where
  -- Whether a node of the source that the predicate takes has the instruction `u`.
  abbrev pub IsChosen : List ℕ → ℕ → Type 0
  IsChosen [] u = ⊥
  IsChosen (n ∷ ns) u = ((pred n ≡ true) × (source.unit n ≡ u)) ⊎ IsChosen ns u

  compute_nodes_of-IsBuilt :
      (ns : List ℕ) (g : SGraph) → IsBuilt g → IsBuilt (compute_nodes_of source pred ns g)
  unfolding compute_nodes_of
  compute_nodes_of-IsBuilt [] g b = b
  compute_nodes_of-IsBuilt (n ∷ ns) g b = elim (Bool-cases (pred n)) [
    | inl e ↦
        rw (e, compute_nodes_of)
          (compute_nodes_of-IsBuilt ns (add_node_for (source.unit n) g)
            (add_node_for-IsBuilt (source.unit n) g b))
    | inr e ↦ rw (e, compute_nodes_of) (compute_nodes_of-IsBuilt ns g b)
  ]

  pub compute_nodes-IsBuilt : IsBuilt (compute_nodes source pred empty_graph)
  unfolding compute_nodes
  compute_nodes-IsBuilt = compute_nodes_of-IsBuilt source.nodes empty_graph empty_graph-IsBuilt

  copied_of :
      (ns : List ℕ) (g : SGraph) (u : ℕ)
      → (is_entry (node_of (compute_nodes_of source pred ns g).unit_to_node u) ≡ true)
        ↔ (IsChosen ns u ⊎ (is_entry (node_of g.unit_to_node u) ≡ true))
  unfolding compute_nodes_of add_node_for
  copied_of [] g u = ground arith
  copied_of (n ∷ ns) g u = elim (Bool-cases (pred n)) [
    | inl e ↦
        rw (e, compute_nodes_of)
          (ground (
            arith,
            copied_of ns (add_node_for (source.unit n) g) u,
            is_entry-emplace (source.unit n) g.next_address u g.unit_to_node,
            ==_iff u (source.unit n),
          ))
    | inr e ↦ rw (e, compute_nodes_of) (ground (arith, copied_of ns g u))
  ]

  pub node_of-compute_nodes :
      (u : ℕ)
      → (is_entry (node_of (compute_nodes source pred empty_graph).unit_to_node u) ≡ true)
        ↔ IsChosen source.nodes u
  unfolding compute_nodes node_of
  node_of-compute_nodes u = ground (arith, copied_of source.nodes empty_graph u)

  -- On the graph that computeNodes makes from an empty one, the map from instructions to nodes and the
  -- search by units lead to the same nodes, each node has one unit, the addresses are below the next
  -- one, and no two nodes have the same; and the map has an entry for an instruction exactly when a node
  -- of the source that the predicate takes has the instruction.
  pub compute_nodes-IsBuilt-node_of :
      IsBuilt (compute_nodes source pred empty_graph)
      × ((u : ℕ)
          → (is_entry (node_of (compute_nodes source pred empty_graph).unit_to_node u) ≡ true)
            ↔ IsChosen source.nodes u)
  compute_nodes-IsBuilt-node_of = (compute_nodes-IsBuilt, node_of-compute_nodes)
