-- ===== src/ShadowDependenceGraph/NextIteration.antt =====
-- computeNextIterationNodes and then computeNextIterationEdges.
use iterator_recognition.Prelude.{
  ℕ, ◌+◌, ◌<◌, ◌≡◌, sym, ap, ◌∙◌, subst, ◌↔◌, ◌⊎◌, inl, inr, true, false, some, List, [], ◌++◌,
  arith, length, ◌∈◌, ∈-append, IsDistinct,
}
use iterator_recognition.ShadowDependenceGraph.{SNode, SGraph, out_edges_at, in_edges_at}
use iterator_recognition.ShadowDependenceGraph.Iterations.{
  NextNodes, compute_next_iteration_nodes, compute_next_iteration_edges, next_of, original_of,
}
use iterator_recognition.ShadowDependenceGraph.Edges.{has_address}
use iterator_recognition.ShadowDependenceGraph.Copies.{HasTwin, IsNextIn}
use iterator_recognition.ShadowDependenceGraph.Copied.{Ready, Copied, copy_all_edges-Copied}
use iterator_recognition.ShadowDependenceGraph.Iterated.{
  copies_from, pairs_from, addresses, IsSingle, IsApart, result, copy_nodes-from,
}
use iterator_recognition.ShadowDependenceGraph.Twins.{
  has_address_intro, has_address_elim, next_of-lands, original_of-has_address, has_address-next_of,
  next_of-original_of, ∈-copies_from, out_edges_at-copies_from, in_edges_at-copies_from,
  out_edges_at-has_address,
}

-- A graph without copies yet: its nodes have one unit each and addresses of their own below the next
-- one, and its edges lead to its nodes.
pub record IsFirst (g : SGraph) : Type 0 where
  pub single : IsSingle g.nodes
  pub distinct : IsDistinct (addresses g.nodes)
  pub below : (n : SNode) → n ∈ g.nodes → n.address < g.next_address
  pub originals : (n : SNode) → n ∈ g.nodes → n.is_next_iteration ≡ false
  pub unpaired : g.iterations ≡ []
  pub closed : (a e : ℕ) → e ∈ out_edges_at g.nodes a → has_address g.nodes e ≡ true

-- The node at `a` has an edge to one that the pairs lead from to the node at `y`.
abbrev pub LeadsToCopy : List (ℕ × ℕ) → SGraph → ℕ → ℕ → Type 0
LeadsToCopy pairs g a y = (e : ℕ) × (e ∈ out_edges_at g.nodes a) × (next_of pairs e ≡ some y)

-- What the edges of `after` are, where `pairs` lead from the nodes of `before` to their copies: each
-- node has a copy; besides the edges that were there, the out-edges of a copy lead to the copies of
-- what the edges of its original lead to, but the in-edges of a copy come from the originals.
pub record IsIterated (before after : SGraph) (pairs : List (ℕ × ℕ)) : Type 0 where
  pub twins : (a : ℕ) → (has_address before.nodes a ≡ true) ↔ ((b : ℕ) × (next_of pairs a ≡ some b))
  pub outs :
      (x y : ℕ)
      → y ∈ out_edges_at after.nodes x ↔ (
          ((a : ℕ) × (next_of pairs a ≡ some x) × LeadsToCopy pairs before a y)
          ⊎ (y ∈ out_edges_at before.nodes x))
  pub ins :
      (x y : ℕ)
      → y ∈ in_edges_at after.nodes x
        ↔ (LeadsToCopy pairs before y x ⊎ (y ∈ in_edges_at before.nodes x))

module _ (g : SGraph) (first : IsFirst g) where
  abbrev base : ℕ
  base = g.next_address

  abbrev pairs : List (ℕ × ℕ)
  pairs = pairs_from base g.nodes

  abbrev nodes : List SNode
  nodes = g.nodes ++ copies_from base g.nodes

  with_copies :
      compute_next_iteration_nodes g
      ≡ record g { nodes = nodes; iterations = pairs; next_address = base + length g.nodes }
  unfolding compute_next_iteration_nodes
  with_copies =
      let none_paired : IsApart g.iterations g.nodes base =
        λ p m. absurd (subst (λ l. p ∈ l) first.unpaired m) in
      let q =
        copy_nodes-from g.nodes (result [] g.iterations base) first.single first.distinct
          none_paired in
      let made : NextNodes → SGraph = λ s. record g {
        nodes = g.nodes ++ s.made;
        iterations = s.pairs;
        next_address = s.next_address;
      } in
      ap made q
      ∙ ap (λ l. made (result (copies_from base g.nodes) (l ++ pairs) (base + length g.nodes)))
          first.unpaired

  below_base : (b a : ℕ) → original_of pairs b ≡ some a → a < base
  below_base b a o =
      let (n, m, e) = has_address_elim a g.nodes (original_of-has_address base a b g.nodes o) in
      omega (arith, first.below n m)

  landing : (e b : ℕ) → next_of pairs e ≡ some b → has_address nodes b ≡ true
  landing e b t =
      let (n, m, q) =
        has_address_elim b (copies_from base g.nodes) (next_of-lands base e b g.nodes t).1 in
      rw q (has_address_intro n nodes ((∈-append n g.nodes (copies_from base g.nodes)).1 (inr m)))

  nodes-Ready : Ready pairs base below_base nodes nodes
  nodes-Ready = record {
    lands = landing;
    copies = λ n1 m next. elim ((∈-append n1 g.nodes (copies_from base g.nodes)).0 m) [
      | inl old ↦ absurd (ground (arith, first.originals n1 old))
      | inr new ↦
          let (is_next, le, o) = ∈-copies_from base n1 g.nodes new in
          (le, has_address_intro n1 nodes m, o)
    ];
    twins = λ a e lt m.
        let m' = subst (λ l. e ∈ l) (out_edges_at-copies_from base a g.nodes g.nodes) m in
        has_address-next_of base e g.nodes (first.closed a e m');
  }

  inverse : (a b : ℕ) → (next_of pairs a ≡ some b) ↔ (original_of pairs b ≡ some a)
  inverse a b = next_of-original_of base a b g.nodes first.distinct

  is_next : (a b : ℕ) → next_of pairs a ≡ some b → IsNextIn pairs nodes b
  is_next a b t =
      let (n, m, q) =
        has_address_elim b (copies_from base g.nodes) (next_of-lands base a b g.nodes t).1 in
      (
        n,
        (∈-append n g.nodes (copies_from base g.nodes)).1 (inr m),
        (∈-copies_from base n g.nodes m).0,
        q,
      )

  HasTwin-nodes : (a y : ℕ) → HasTwin pairs (out_edges_at nodes a) y ↔ LeadsToCopy pairs g a y
  HasTwin-nodes a y =
      let same = out_edges_at-copies_from base a g.nodes g.nodes in
      (
        λ (e, m, t). (e, subst (λ l. e ∈ l) same m, t),
        λ (e, m, t). (e, subst (λ l. e ∈ l) (sym same) m, t),
      )

  nodes-IsIterated :
      (after : SGraph)
      → Copied pairs base below_base nodes nodes after.nodes
      → IsIterated g after pairs
  nodes-IsIterated after done = record {
    twins = λ a. (
      has_address-next_of base a g.nodes,
      λ (b, t). original_of-has_address base a b g.nodes ((inverse a b).0 t),
    );
    outs = λ x y.
        let new = done.outs x y in
        let same = out_edges_at-copies_from base x g.nodes g.nodes in
        (
          λ m. elim (new.0 m) [
            | inl (n, (a, o, t)) ↦ inl (a, (inverse a x).1 o, (HasTwin-nodes a y).0 t)
            | inr old ↦ inr (subst (λ l. y ∈ l) same old)
          ],
          λ h. elim h [
            | inl (a, t, leads) ↦
                new.1 (inl (is_next a x t, (a, (inverse a x).0 t, (HasTwin-nodes a y).1 leads)))
            | inr old ↦ new.1 (inr (subst (λ l. y ∈ l) (sym same) old))
          ],
        );
    ins = λ x y.
        let new = done.ins x y in
        let same = in_edges_at-copies_from base x g.nodes g.nodes in
        (
          λ m. elim (new.0 m) [
            | inl (k, t) ↦ inl ((HasTwin-nodes y x).0 t)
            | inr old ↦ inr (subst (λ l. y ∈ l) same old)
          ],
          λ h. elim h [
            | inl (e, m, t) ↦
                let (b, u) =
                  has_address-next_of base y g.nodes (out_edges_at-has_address y e g.nodes m) in
                new.1 (inl ((b, is_next y b u, (inverse y b).0 u), (HasTwin-nodes y x).1 (e, m, t)))
            | inr old ↦ new.1 (inr (subst (λ l. y ∈ l) (sym same) old))
          ],
        );
  }

  -- On a graph without copies whose nodes have one unit each and addresses of their own, and whose
  -- edges lead to its nodes, the two steps return, and in the graph that they make each node has a
  -- copy for the next iteration; besides the edges that were there, the out-edges of a copy lead to
  -- the copies of what its original leads to, but the in-edges of a copy come from the originals.
  pub compute_next_iteration_edges-returns-IsIterated :
      (after : SGraph) × (compute_next_iteration_edges (compute_next_iteration_nodes g)
        ≡ some after)
      × IsIterated g after (compute_next_iteration_nodes g).iterations
  unfolding compute_next_iteration_edges
  compute_next_iteration_edges-returns-IsIterated =
      let (ns, run, done) = copy_all_edges-Copied pairs base below_base nodes nodes nodes-Ready in
      let after : SGraph = record g {
        nodes = ns;
        iterations = pairs;
        next_address = base + length g.nodes;
      } in
      (
        after,
        rw with_copies (ground (arith, run)),
        subst (IsIterated g after) (sym (ap (λ (k : SGraph). k.iterations) with_copies))
            (nodes-IsIterated after done),
      )
