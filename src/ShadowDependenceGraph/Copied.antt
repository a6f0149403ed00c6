-- ===== src/ShadowDependenceGraph/Copied.antt =====
-- The outer loop of computeNextIterationEdges, over nodes that grow.
use iterator_recognition.Prelude.{
  ℕ, ◌≤◌, ◌<◌, ◌≡◌, refl, ◌∙◌, ◌↔◌, ◌⊎◌, inl, inr, true, false, some, List, [], ◌∷◌, arith,
  Bool-cases, ◌∈◌,
}
use iterator_recognition.ShadowDependenceGraph.{SNode, out_edges_at, in_edges_at}
use iterator_recognition.ShadowDependenceGraph.Iterations.{next_of, original_of, copy_all_edges}
use iterator_recognition.ShadowDependenceGraph.Edges.{has_address}
use iterator_recognition.ShadowDependenceGraph.Copies.{
  CopiesOut-cons, CopiesIn-cons, IsNextIn-cons, copy_edges-Grown, copy_all_edges-next,
  copy_all_edges-original, HasTwin, IsNextIn, CopiesOut, CopiesIn, IsLanding, Grown,
}

two_parts :
    {After Between Before Later Later' First All : Type 0}
    → After ↔ (Later ⊎ Between)
    → Later ↔ Later'
    → Between ↔ (First ⊎ Before)
    → All ↔ (First ⊎ Later')
    → After ↔ (All ⊎ Before)
two_parts later step now cons = ground arith

module _ (pairs : List (ℕ × ℕ)) where
  module _ (base : ℕ) (below : (b a : ℕ) → original_of pairs b ≡ some a → a < base) where
    -- What the loop over the nodes `rest` relies on: the copies stand from `base` on and have an
    -- original, and the edges of the nodes before `base` lead to nodes with a copy.
    pub record Ready (rest ns : List SNode) : Type 0 where
      pub lands : IsLanding pairs ns
      pub copies :
          (n1 : SNode)
          → n1 ∈ rest
          → n1.is_next_iteration ≡ true
          → (base ≤ n1.address)
            × (has_address ns n1.address ≡ true)
            × ((n0 : ℕ) × (original_of pairs n1.address ≡ some n0))
      pub twins :
          (a e : ℕ) → a < base → e ∈ out_edges_at ns a → (b : ℕ) × (next_of pairs e ≡ some b)

    pub record Copied (rest before after : List SNode) : Type 0 where
      pub same : (x : ℕ) → has_address after x ≡ has_address before x
      pub outs :
          (x y : ℕ)
          → y ∈ out_edges_at after x
            ↔ (CopiesOut pairs rest before x y ⊎ (y ∈ out_edges_at before x))
      pub ins :
          (x y : ℕ)
          → y ∈ in_edges_at after x ↔ (CopiesIn pairs rest before x y ⊎ (y ∈ in_edges_at before x))

    -- Lists in which the nodes before `base` have the same out-edges.
    abbrev IsKept : List SNode → List SNode → Type 0
    IsKept before after =
        (a e : ℕ) → a < base → (e ∈ out_edges_at after a ↔ e ∈ out_edges_at before a)

    HasTwin-kept :
        (a y : ℕ) (before after : List SNode)
        → IsKept before after
        → a < base
        → HasTwin pairs (out_edges_at after a) y ↔ HasTwin pairs (out_edges_at before a) y
    HasTwin-kept a y before after kept lt =
        (λ (e, m, t). (e, (kept a e lt).0 m, t), λ (e, m, t). (e, (kept a e lt).1 m, t))

    CopiesOut-kept :
        (x y : ℕ) (rest before after : List SNode)
        → IsKept before after
        → CopiesOut pairs rest after x y ↔ CopiesOut pairs rest before x y
    CopiesOut-kept x y rest before after kept = (
      λ (n, (a, q, t)). (n, (a, q, (HasTwin-kept a y before after kept (below x a q)).0 t)),
      λ (n, (a, q, t)). (n, (a, q, (HasTwin-kept a y before after kept (below x a q)).1 t)),
    )

    CopiesIn-kept :
        (x y : ℕ) (rest before after : List SNode)
        → IsKept before after
        → CopiesIn pairs rest after x y ↔ CopiesIn pairs rest before x y
    CopiesIn-kept x y rest before after kept = (
      λ ((k, n, q), t). ((k, n, q), (HasTwin-kept y x before after kept (below k y q)).0 t),
      λ ((k, n, q), t). ((k, n, q), (HasTwin-kept y x before after kept (below k y q)).1 t),
    )

    Grown-IsKept :
        (n1 n0 : ℕ) (es : List ℕ) (before after : List SNode)
        → base ≤ n1
        → Grown pairs n1 n0 es before after
        → IsKept before after
    Grown-IsKept n1 n0 es before after far grown a e lt =
        let outs = grown.outs a e in
        (
          λ m. elim (outs.0 m) [ inl (same, t) ↦ absurd (omega arith) | inr n ↦ n ],
          λ n. outs.1 (inr n),
        )

    Copied-next :
        (n1 : SNode) (n0 : ℕ) (rest before between after : List SNode)
        → base ≤ n1.address
        → n1.is_next_iteration ≡ true
        → original_of pairs n1.address ≡ some n0
        → Grown pairs n1.address n0 (out_edges_at before n0) before between
        → Copied rest between after
        → Copied (n1 ∷ rest) before after
    Copied-next n1 n0 rest before between after far next o grown done =
        let kept = Grown-IsKept n1.address n0 (out_edges_at before n0) before between far grown in
        record {
          same = λ x. done.same x ∙ grown.same x;
          outs = λ x y.
              let later = done.outs x y in
              let now = grown.outs x y in
              let cons = CopiesOut-cons pairs n1 n0 x y rest before next o in
              let step = CopiesOut-kept x y rest before between kept in
              two_parts later step now cons;
          ins = λ x y.
              let later = done.ins x y in
              let now = grown.ins x y in
              let cons = CopiesIn-cons pairs n1 n0 x y rest before next o in
              let step = CopiesIn-kept x y rest before between kept in
              two_parts later step now cons;
        }

    Copied-original :
        (n1 : SNode) (rest before after : List SNode)
        → n1.is_next_iteration ≡ false
        → Copied rest before after
        → Copied (n1 ∷ rest) before after
    Copied-original n1 rest before after original done =
        let same : (x : ℕ) → IsNextIn pairs (n1 ∷ rest) x ↔ IsNextIn pairs rest x = λ x.
          let cons = IsNextIn-cons pairs n1 rest x in
          (
            λ n. elim (cons.0 n) [ inl (q, e) ↦ absurd (ground arith) | inr m ↦ m ],
            λ m. cons.1 (inr m),
          ) in
        record {
          same = done.same;
          outs = λ x y.
              let old = done.outs x y in
              (
                λ m. elim (old.0 m) [ inl (n, k) ↦ inl ((same x).1 n, k) | inr n ↦ inr n ],
                λ h. elim h [ inl (n, k) ↦ old.1 (inl ((same x).0 n, k)) | inr n ↦ old.1 (inr n) ],
              );
          ins = λ x y.
              let old = done.ins x y in
              (
                λ m. elim (old.0 m) [
                  | inl ((k, n, q), t) ↦ inl ((k, (same k).1 n, q), t)
                  | inr n ↦ inr n
                ],
                λ h. elim h [
                  | inl ((k, n, q), t) ↦ old.1 (inl ((k, (same k).0 n, q), t))
                  | inr n ↦ old.1 (inr n)
                ],
              );
        }

    pub copy_all_edges-Copied :
        (rest ns : List SNode)
        → Ready rest ns
        → (ns' : List SNode) × (copy_all_edges pairs rest ns ≡ some ns') × Copied rest ns ns'
    unfolding copy_all_edges
    copy_all_edges-Copied [] ns r = (
      ns,
      refl,
      record {
        same = λ x. refl;
        outs = λ x y. (inr, λ t. elim t [ inl ((n, m, q, e), k) ↦ absurd m | inr n ↦ n ]);
        ins = λ x y. (inr, λ t. elim t [ inl ((n, (k, m, q, e), p), i) ↦ absurd m | inr n ↦ n ]);
      },
    )
    copy_all_edges-Copied (n1 ∷ rest) ns r = elim (Bool-cases n1.is_next_iteration) [
      | inl next ↦
          let (far, there, (n0, o)) = r.copies n1 (inl refl) next in
          let (mid, run, grown) =
            copy_edges-Grown pairs n1.address n0 (out_edges_at ns n0) ns r.lands there
              (λ e m. r.twins n0 e (below n1.address n0 o) m) in
          let kept = Grown-IsKept n1.address n0 (out_edges_at ns n0) ns mid far grown in
          let (ns', run', done) = copy_all_edges-Copied rest mid (record {
            lands = λ e b q. grown.same b ∙ r.lands e b q;
            copies = λ k m q.
                let (far', there', o') = r.copies k (inr m) q in
                (far', grown.same k.address ∙ there', o');
            twins = λ a e lt m. r.twins a e lt ((kept a e lt).0 m);
          }) in
          (
            ns',
            copy_all_edges-next pairs n1 n0 rest ns mid next o run ∙ run',
            Copied-next n1 n0 rest ns mid ns' far next o grown done,
          )
      | inr original ↦
          let (ns', run, done) =
            copy_all_edges-Copied rest ns (record {
              lands = r.lands;
              copies = λ k m q. r.copies k (inr m) q;
              twins = r.twins;
            }) in
          (
            ns',
            copy_all_edges-original pairs n1 rest ns original ∙ run,
            Copied-original n1 rest ns ns' original done,
          )
    ]
