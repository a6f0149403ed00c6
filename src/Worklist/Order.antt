-- ===== src/Worklist/Order.antt =====
-- What the loop does is to visit, each once and in some order, the values that it can come to.
use iterator_recognition.Prelude.{
  ℕ, zero, suc, ◌≡◌, refl, sym, ap, ◌∙◌, subst, ◌↔◌, ◌⊎◌, inl, inr, Bool, true, false, ◌||◌, some,
  List, [], ◌∷◌, ◌++◌, arith, Bool-cases, ◌∈◌, ∈-append, contains, contains_iff,
}
use iterator_recognition.Worklist.{
  Pushing, Action, stop, go, Action-cases, loop, visit_all, Reach, root, along,
}

module _ {S : Type 0} (visit : ℕ → S → Action S) where
  visit_all-snoc :
      (vs : List ℕ) (v : ℕ) (s t : S)
      → visit_all visit vs s ≡ go t
      → visit_all visit (vs ++ v ∷ []) s ≡ visit_all visit (v ∷ []) t
  unfolding visit_all
  visit_all-snoc [] v s t e = let same : s ≡ t = cc in rw same refl
  visit_all-snoc (w ∷ vs) v s t e = elim (Action-cases (visit w s)) [
    | inl (s', q) ↦ absurd (ground arith)
    | inr (s', q) ↦ rw (q, visit_all) (visit_all-snoc vs v s' t (ground arith))
  ]

  -- How a run may end: by an empty list, when all the values were visited, or by a visit that leaves
  -- the loop.
  pub data Outcome (skipped : ℕ → Bool) (next : ℕ → List ℕ) (roots : List ℕ) (s r : S)
      : Type 0 where
    ended :
        (order : List ℕ)
        → visit_all visit order s ≡ go r
        → ((v : ℕ) → v ∈ order ↔ Reach skipped next roots v)
        → Outcome skipped next roots s r
    stopped :
        (order : List ℕ)
        → visit_all visit order s ≡ stop r
        → ((v : ℕ) → v ∈ order → Reach skipped next roots v)
        → Outcome skipped next roots s r

module _ (p : Pushing) (skipped : ℕ → Bool) (next : ℕ → List ℕ) {S : Type 0}
    (visit : ℕ → S → Action S) (roots : List ℕ) (start : S) where
  pub record Inv (wl visited : List ℕ) (s : S) : Type 0 where
    pub folded : visit_all visit visited start ≡ go s
    pub waiting : (v : ℕ) → v ∈ wl → skipped v ≡ false → Reach skipped next roots v
    pub seen : (v : ℕ) → v ∈ visited → Reach skipped next roots v
    pub from_roots : (v : ℕ) → v ∈ roots → skipped v ≡ false → (v ∈ visited) ⊎ (v ∈ wl)
    pub closed : (u v : ℕ) → u ∈ visited → v ∈ next u → skipped v ≡ false → (v ∈ visited) ⊎ (v ∈ wl)

  all_seen :
      (visited : List ℕ) (s : S)
      → Inv [] visited s
      → (v : ℕ) → Reach skipped next roots v
      → v ∈ visited
  all_seen visited s inv v (root m n) = elim (inv.from_roots v m n) [ inl k ↦ k | inr k ↦ absurd k ]
  all_seen visited s inv v (along {u} r m n) =
      elim (inv.closed u v (all_seen visited s inv u r) m n) [ inl k ↦ k | inr k ↦ absurd k ]

  pub Inv-start : Inv roots [] start
  unfolding visit_all
  Inv-start = record {
    folded = refl;
    waiting = λ v m n. root m n;
    seen = λ v m. absurd m;
    from_roots = λ v m n. inr m;
    closed = λ u v m. absurd m;
  }

  Inv-pass :
      (v : ℕ) (wl visited : List ℕ) (s : S)
      → Inv (v ∷ wl) visited s
      → skipped v || contains visited v ≡ true
      → Inv wl visited s
  Inv-pass v wl visited s inv h = record {
    folded = inv.folded;
    waiting = λ w m n. inv.waiting w (inr m) n;
    seen = inv.seen;
    from_roots = λ w m n. keep w n (inv.from_roots w m n);
    closed = λ u w k m n. keep w n (inv.closed u w k m n);
  }
    where
      keep : (w : ℕ) → skipped w ≡ false → (w ∈ visited) ⊎ (w ∈ (v ∷ wl)) → (w ∈ visited) ⊎ (w ∈ wl)
      keep w n (inl k) = inl k
      keep w n (inr (inr k)) = inr k
      keep w n (inr (inl q)) =
          inl ((contains_iff visited w).0 (ground (arith, ap skipped q, ap (contains visited) q)))

  Inv-go :
      (v : ℕ) (wl visited : List ℕ) (s s' : S)
      → Inv (v ∷ wl) visited s
      → skipped v ≡ false
      → visit v s ≡ go s'
      → Inv (p.push_all (next v) wl) (visited ++ v ∷ []) s'
  unfolding visit_all
  Inv-go v wl visited s s' inv fresh e = record {
    folded = visit_all-snoc visit visited v start s inv.folded ∙ rw (e, visit_all) refl;
    waiting = λ w m n. elim ((p.∈-push_all w (next v) wl).0 m) [
      | inl k ↦ along (inv.waiting v (inl refl) fresh) k n
      | inr k ↦ inv.waiting w (inr k) n
    ];
    seen = λ w m. elim ((∈-append w visited (v ∷ [])).0 m) [
      | inl k ↦ inv.seen w k
      | inr (inl q) ↦ subst (Reach skipped next roots) (sym q) (inv.waiting v (inl refl) fresh)
      | inr (inr k) ↦ absurd k
    ];
    from_roots = λ w m n. keep w (inv.from_roots w m n);
    closed = λ u w k m n. elim ((∈-append u visited (v ∷ [])).0 k) [
      | inl o ↦ keep w (inv.closed u w o m n)
      | inr (inl q) ↦ inr ((p.∈-push_all w (next v) wl).1 (inl (subst (λ (k : ℕ). w ∈ next k) q m)))
      | inr (inr o) ↦ absurd o
    ];
  }
    where
      keep :
          (w : ℕ)
          → (w ∈ visited) ⊎ (w ∈ (v ∷ wl))
          → (w ∈ (visited ++ v ∷ [])) ⊎ (w ∈ p.push_all (next v) wl)
      keep w (inl k) = inl ((∈-append w visited (v ∷ [])).1 (inl k))
      keep w (inr (inl q)) = inl ((∈-append w visited (v ∷ [])).1 (inr (inl q)))
      keep w (inr (inr k)) = inr ((p.∈-push_all w (next v) wl).1 (inr k))

  some-inj : (a b : S) → some a ≡ some b → a ≡ b
  some-inj a b h = cc

  -- Whatever the fuel, a run that returns has visited values in some order.
  pub loop_ordered :
      (fuel : ℕ) (wl visited : List ℕ) (s r : S)
      → Inv wl visited s
      → loop p skipped next visit fuel wl visited s ≡ some r
      → Outcome visit skipped next roots start r
  unfolding loop visit_all
  loop_ordered fuel [] visited s r inv h =
      let same : s ≡ r = cc in
      ended visited (inv.folded ∙ ap go same) (λ v. (inv.seen v, all_seen visited s inv v))
  loop_ordered zero (v ∷ wl) visited s r inv h = absurd (cc)
  loop_ordered (suc fuel) (v ∷ wl) visited s r inv h =
      elim (Bool-cases (skipped v || contains visited v)) [
        | inl e ↦
            loop_ordered fuel wl visited s r (Inv-pass v wl visited s inv e) (rw (e, loop) at h)
        | inr e ↦
            let fresh : skipped v ≡ false = ground arith in
            elim (Action-cases (visit v s)) [
              | inr (s', q) ↦
                  loop_ordered fuel (p.push_all (next v) wl) (visited ++ v ∷ []) s' r
                    (Inv-go v wl visited s s' inv fresh q) (rw (e, q, loop) at h)
              | inl (s', q) ↦
                  let same : s' ≡ r = some-inj s' r (rw (e, q, loop) at h) in
                  stopped (visited ++ v ∷ [])
                    (visit_all-snoc visit visited v start s inv.folded
                      ∙ rw (q, visit_all) (ap stop same))
                    (λ w m. elim ((∈-append w visited (v ∷ [])).0 m) [
                      | inl k ↦ inv.seen w k
                      | inr (inl k) ↦
                          subst (Reach skipped next roots) (sym k) (inv.waiting v (inl refl) fresh)
                      | inr (inr k) ↦ absurd k
                    ])
            ]
      ]

  -- From the roots, with nothing visited.
  pub loop-Outcome :
      (fuel : ℕ) (r : S)
      → loop p skipped next visit fuel roots [] start ≡ some r
      → Outcome visit skipped next roots start r
  loop-Outcome fuel r h = loop_ordered fuel roots [] start r Inv-start h
