-- ===== src/ShadowDependenceGraph/Copies.antt =====
-- The inner loop of computeNextIterationEdges, where the pairs lead from nodes to their copies, and
-- what the outer loop adds to the edges.
use iterator_recognition.Prelude.{
  ℕ, ◌≡◌, refl, sym, ap, ◌∙◌, subst, ◌↔◌, ◌⊎◌, inl, inr, true, false, some, List, [], ◌∷◌, arith,
  ==_iff, ◌∈◌, ∈-append,
}
use iterator_recognition.ShadowDependenceGraph.{
  SNode, out_edges_at, in_edges_at, push_out_edge, push_in_edge,
}
use iterator_recognition.ShadowDependenceGraph.Iterations.{
  next_of, original_of, copy_edges, copy_all_edges,
}
use iterator_recognition.ShadowDependenceGraph.Edges.{
  has_address, has_address-push_out_edge, has_address-push_in_edge, in_edges_at-push_out_edge,
  out_edges_at-push_in_edge, in_edges_at-push_in_edge, out_edges_at-push_out_edge,
}

-- An out-edge at `n1` to `e1`, and an in-edge at `e1` from `n0`.
abbrev linked : ℕ → ℕ → ℕ → List SNode → List SNode
linked n1 n0 e1 ns = push_in_edge e1 n0 (push_out_edge n1 e1 ns)

has_address-linked :
    (n1 n0 e1 x : ℕ) (ns : List SNode) → has_address (linked n1 n0 e1 ns) x ≡ has_address ns x
has_address-linked n1 n0 e1 x ns =
    has_address-push_in_edge e1 n0 x (push_out_edge n1 e1 ns) ∙ has_address-push_out_edge n1 e1 x ns

∈-in_edges_at-linked :
    (n1 n0 e1 x y : ℕ) (ns : List SNode)
    → has_address ns e1 ≡ true
    → y ∈ in_edges_at (linked n1 n0 e1 ns) x ↔ (((y ≡ n0) × (x ≡ e1)) ⊎ (y ∈ in_edges_at ns x))
∈-in_edges_at-linked n1 n0 e1 x y ns h = rw in_edges_at-push_in_edge (
    rw has_address-push_out_edge (
      rw in_edges_at-push_out_edge
        (ground (arith, ∈-append y (in_edges_at ns x) (n0 ∷ []), ==_iff x e1))))

∈-out_edges_at-linked :
    (n1 n0 e1 x y : ℕ) (ns : List SNode)
    → has_address ns n1 ≡ true
    → y ∈ out_edges_at (linked n1 n0 e1 ns) x ↔ (((x ≡ n1) × (y ≡ e1)) ⊎ (y ∈ out_edges_at ns x))
∈-out_edges_at-linked n1 n0 e1 x y ns h = rw out_edges_at-push_in_edge (
    rw out_edges_at-push_out_edge
      (ground (arith, ∈-append y (out_edges_at ns x) (e1 ∷ []), ==_iff x n1)))

-- What one more element adds.
one_more :
    {After Between Before P First Rest All : Type 0}
    → After ↔ ((P × Rest) ⊎ Between)
    → Between ↔ ((P × First) ⊎ Before)
    → All ↔ (First ⊎ Rest)
    → After ↔ ((P × All) ⊎ Before)
one_more later now cons = ground arith

module _ (pairs : List (ℕ × ℕ)) where
  -- The copies that the pairs lead to are there.
  abbrev pub IsLanding : List SNode → Type 0
  IsLanding ns = (e b : ℕ) → next_of pairs e ≡ some b → has_address ns b ≡ true

  -- One of the nodes has its copy at `y`.
  abbrev pub HasTwin : List ℕ → ℕ → Type 0
  HasTwin es y = (e : ℕ) × (e ∈ es) × (next_of pairs e ≡ some y)

  -- What the copies of the edges from `n0` to `es` change, at the copy `n1`.
  pub record Grown (n1 n0 : ℕ) (es : List ℕ) (before after : List SNode) : Type 0 where
    pub same : (x : ℕ) → has_address after x ≡ has_address before x
    pub outs :
        (x y : ℕ)
        → y ∈ out_edges_at after x ↔ (((x ≡ n1) × HasTwin es y) ⊎ (y ∈ out_edges_at before x))
    pub ins :
        (x y : ℕ)
        → y ∈ in_edges_at after x ↔ (((y ≡ n0) × HasTwin es x) ⊎ (y ∈ in_edges_at before x))

  pub HasTwin-cons :
      (e e1 y : ℕ) (es : List ℕ)
      → next_of pairs e ≡ some e1
      → HasTwin (e ∷ es) y ↔ ((y ≡ e1) ⊎ HasTwin es y)
  HasTwin-cons e e1 y es q = (
    λ (d, m, t). elim m [
      | inl same ↦ inl (ground (arith, ap (next_of pairs) same))
      | inr n ↦ inr (d, n, t)
    ],
    λ h. elim h [ inl same ↦ (e, inl refl, ground arith) | inr (d, n, t) ↦ (d, inr n, t) ],
  )

  pub copy_edges-Grown :
      (n1 n0 : ℕ) (es : List ℕ) (ns : List SNode)
      → IsLanding ns
      → has_address ns n1 ≡ true
      → ((e : ℕ) → e ∈ es → (b : ℕ) × (next_of pairs e ≡ some b))
      → (ns' : List SNode) × (copy_edges pairs n1 n0 es ns ≡ some ns') × Grown n1 n0 es ns ns'
  unfolding copy_edges
  copy_edges-Grown n1 n0 [] ns lands h twins = (
    ns,
    refl,
    record {
      same = λ x. refl;
      outs = λ x y. (inr, λ t. elim t [ inl (p, (e, m, q)) ↦ absurd m | inr n ↦ n ]);
      ins = λ x y. (inr, λ t. elim t [ inl (p, (e, m, q)) ↦ absurd m | inr n ↦ n ]);
    },
  )
  copy_edges-Grown n1 n0 (e ∷ es) ns lands h twins =
      let (e1, q) = twins e (inl refl) in
      let mid = linked n1 n0 e1 ns in
      let there = has_address-linked n1 n0 e1 in
      let (ns', run, grown) =
        copy_edges-Grown n1 n0 es mid (λ d b t. there b ns ∙ lands d b t) (there n1 ns ∙ h)
          (λ d m. twins d (inr m)) in
      (
        ns',
        rw (q, copy_edges) run,
        record {
          same = λ x. grown.same x ∙ there x ns;
          outs = λ x y.
              let later = grown.outs x y in
              let now = ∈-out_edges_at-linked n1 n0 e1 x y ns h in
              let cons = HasTwin-cons e e1 y es q in one_more later now cons;
          ins = λ x y.
              let later = grown.ins x y in
              let now = ∈-in_edges_at-linked n1 n0 e1 x y ns (lands e e1 q) in
              let cons = HasTwin-cons e e1 x es q in one_more later now cons;
        },
      )

  -- A node at `x` in the list is a copy for the next iteration.
  abbrev pub IsNextIn : List SNode → ℕ → Type 0
  IsNextIn rest x = (n1 : SNode) × (n1 ∈ rest) × (n1.is_next_iteration ≡ true) × (x ≡ n1.address)

  -- The node at `x` is a copy, and the node that it copies has an edge to one with its copy at `y`.
  abbrev pub CopiesOut : List SNode → List SNode → ℕ → ℕ → Type 0
  CopiesOut rest ns x y =
      IsNextIn rest x
      × ((n0 : ℕ) × (original_of pairs x ≡ some n0) × HasTwin (out_edges_at ns n0) y)

  -- The node at `y` has a copy, and an edge to a node with its copy at `x`.
  abbrev pub CopiesIn : List SNode → List SNode → ℕ → ℕ → Type 0
  CopiesIn rest ns x y =
      ((n1 : ℕ) × IsNextIn rest n1 × (original_of pairs n1 ≡ some y))
      × HasTwin (out_edges_at ns y) x

  pub copy_all_edges-next :
      (n1 : SNode) (n0 : ℕ) (rest ns mid : List SNode)
      → n1.is_next_iteration ≡ true
      → original_of pairs n1.address ≡ some n0
      → copy_edges pairs n1.address n0 (out_edges_at ns n0) ns ≡ some mid
      → copy_all_edges pairs (n1 ∷ rest) ns ≡ copy_all_edges pairs rest mid
  unfolding copy_all_edges
  copy_all_edges-next n1 n0 rest ns mid next o run = ground arith

  pub copy_all_edges-original :
      (n1 : SNode) (rest ns : List SNode)
      → n1.is_next_iteration ≡ false
      → copy_all_edges pairs (n1 ∷ rest) ns ≡ copy_all_edges pairs rest ns
  unfolding copy_all_edges
  copy_all_edges-original n1 rest ns original = ground arith

  pub IsNextIn-cons :
      (n1 : SNode) (rest : List SNode) (x : ℕ)
      → IsNextIn (n1 ∷ rest) x
        ↔ (((n1.is_next_iteration ≡ true) × (x ≡ n1.address)) ⊎ IsNextIn rest x)
  IsNextIn-cons n1 rest x = (
    λ (k, m, q, e). elim m [
      | inl same ↦ inl (
        ap (λ (t : SNode). t.is_next_iteration) (sym same) ∙ q,
        e ∙ ap (λ (t : SNode). t.address) same,
      )
      | inr n ↦ inr (k, n, q, e)
    ],
    λ h. elim h [ inl (q, e) ↦ (n1, inl refl, q, e) | inr (k, n, q, e) ↦ (k, inr n, q, e) ],
  )

  pub CopiesOut-cons :
      (n1 : SNode) (n0 x y : ℕ) (rest ns : List SNode)
      → n1.is_next_iteration ≡ true
      → original_of pairs n1.address ≡ some n0
      → CopiesOut (n1 ∷ rest) ns x y
        ↔ (((x ≡ n1.address) × HasTwin (out_edges_at ns n0) y) ⊎ CopiesOut rest ns x y)
  CopiesOut-cons n1 n0 x y rest ns next o =
      let cons = IsNextIn-cons n1 rest x in
      (
        λ (n, (a, q, t)). elim (cons.0 n) [
          | inl (p, e) ↦
              let same : a ≡ n0 = ground (arith, ap (original_of pairs) e) in
              inl (e, subst (λ k. HasTwin (out_edges_at ns k) y) same t)
          | inr m ↦ inr (m, (a, q, t))
        ],
        λ h. elim h [
          | inl (e, t) ↦ (cons.1 (inl (next, e)), (n0, ap (original_of pairs) e ∙ o, t))
          | inr (m, k) ↦ (cons.1 (inr m), k)
        ],
      )

  pub CopiesIn-cons :
      (n1 : SNode) (n0 x y : ℕ) (rest ns : List SNode)
      → n1.is_next_iteration ≡ true
      → original_of pairs n1.address ≡ some n0
      → CopiesIn (n1 ∷ rest) ns x y
        ↔ (((y ≡ n0) × HasTwin (out_edges_at ns n0) x) ⊎ CopiesIn rest ns x y)
  CopiesIn-cons n1 n0 x y rest ns next o = (
    λ ((k, n, q), t). elim ((IsNextIn-cons n1 rest k).0 n) [
      | inl (p, e) ↦
          let same : y ≡ n0 = ground (arith, ap (original_of pairs) e) in
          inl (same, subst (λ k. HasTwin (out_edges_at ns k) x) same t)
      | inr m ↦ inr ((k, m, q), t)
    ],
    λ h. elim h [
      | inl (e, t) ↦ (
        (n1.address, (IsNextIn-cons n1 rest n1.address).1 (inl (next, refl)), o ∙ ap some (sym e)),
        subst (λ k. HasTwin (out_edges_at ns k) x) (sym e) t,
      )
      | inr ((k, m, q), t) ↦ ((k, (IsNextIn-cons n1 rest k).1 (inr m), q), t)
    ],
  )
