-- ===== src/Worklist/Returns.antt =====
-- The loop returns: each value is visited once, so the fuel is bounded by the edges of the values.
use iterator_recognition.Prelude.{
  ℕ, zero, suc, ◌+◌, ◌≤◌, ◌≡◌, refl, sym, ap, inl, inr, Bool, false, ◌||◌, some, List, [], ◌∷◌,
  ◌++◌, arith, ◌==◌, if◌then◌else◌, ==_iff, Bool-cases, Bool-ext, length, ◌∈◌, ∈-append, contains,
  contains_iff,
}
use iterator_recognition.Worklist.{Pushing, Action, Action-cases, loop}

module _ (next : ℕ → List ℕ) where
  -- The edges that leave the values of a list which are not visited.
  abbrev pub remaining : List ℕ → List ℕ → ℕ
  remaining [] visited = 0
  remaining (u ∷ us) visited =
      (if contains visited u then 0 else length (next u)) + remaining us visited

  -- All of them.
  abbrev pub edge_count : List ℕ → ℕ
  edge_count [] = 0
  edge_count (u ∷ us) = length (next u) + edge_count us

  remaining-nil : (us : List ℕ) → remaining us [] ≡ edge_count us
  remaining-nil [] = refl
  remaining-nil (u ∷ us) = ap (λ (n : ℕ). length (next u) + n) (remaining-nil us)

  contains-snoc : (vs : List ℕ) (v u : ℕ) → contains (vs ++ v ∷ []) u ≡ (contains vs u || u == v)
  contains-snoc vs v u = Bool-ext (contains (vs ++ v ∷ []) u) (contains vs u || u == v) (
      ground (
        arith,
        contains_iff (vs ++ v ∷ []) u,
        contains_iff vs u,
        ∈-append u vs (v ∷ []),
        ==_iff u v,
      ))

  remaining-le : (us vs : List ℕ) (v : ℕ) → remaining us (vs ++ v ∷ []) ≤ remaining us vs
  remaining-le [] vs v = omega arith
  remaining-le (u ∷ us) vs v = ground (arith, remaining-le us vs v, contains-snoc vs v u)

  remaining-visit :
      (us vs : List ℕ) (v : ℕ)
      → v ∈ us
      → contains vs v ≡ false
      → remaining us (vs ++ v ∷ []) + length (next v) ≤ remaining us vs
  remaining-visit [] vs v m h = absurd m
  remaining-visit (u ∷ us) vs v (inl q) h = ground (
    arith,
    remaining-le us vs v,
    contains-snoc vs v u,
    ap (contains vs) q,
    ap (λ (k : ℕ). length (next k)) q,
    ==_iff u v,
    sym q,
  )
  remaining-visit (u ∷ us) vs v (inr m) h =
      ground (arith, remaining-visit us vs v m h, contains-snoc vs v u)

module _ (p : Pushing) (skipped : ℕ → Bool) (next : ℕ → List ℕ) {S : Type 0}
    (visit : ℕ → S → Action S) (universe : List ℕ)
    (closed : (u v : ℕ) → u ∈ universe → v ∈ next u → v ∈ universe) where
  loop_returns :
      (fuel : ℕ) (wl visited : List ℕ) (s : S)
      → ((v : ℕ) → v ∈ wl → v ∈ universe)
      → length wl + remaining next universe visited ≤ fuel
      → (r : S) × (loop p skipped next visit fuel wl visited s ≡ some r)
  unfolding loop
  loop_returns fuel [] visited s inside h = (s, refl)
  loop_returns zero (v ∷ wl) visited s inside h = absurd (omega arith)
  loop_returns (suc fuel) (v ∷ wl) visited s inside h =
      elim (Bool-cases (skipped v || contains visited v)) [
        | inl e ↦
            let (r, q) = loop_returns fuel wl visited s (λ w m. inside w (inr m)) (omega arith) in
            (r, rw (e, loop) q)
        | inr e ↦ elim (Action-cases (visit v s)) [
          | inl (s', k) ↦ (s', rw (e, k, loop) refl)
          | inr (s', k) ↦
              let fresh : contains visited v ≡ false = ground arith in
              let (r, q) =
                loop_returns fuel (p.push_all (next v) wl) (visited ++ v ∷ []) s'
                  (λ w m. elim ((p.∈-push_all w (next v) wl).0 m) [
                    | inl n ↦ closed v w (inside v (inl refl)) n
                    | inr n ↦ inside w (inr n)
                  ])
                  (omega (
                    arith,
                    p.length-push_all (next v) wl,
                    remaining-visit next universe visited v (inside v (inl refl)) fresh,
                  )) in
              (r, rw (e, k, loop) q)
        ]
      ]

  -- Among finitely many values, as much fuel as there are roots and edges is enough.
  pub loop-returns :
      (fuel : ℕ) (roots : List ℕ) (s : S)
      → ((v : ℕ) → v ∈ roots → v ∈ universe)
      → length roots + edge_count next universe ≤ fuel
      → (r : S) × (loop p skipped next visit fuel roots [] s ≡ some r)
  loop-returns fuel roots s inside h =
      loop_returns fuel roots [] s inside (omega (arith, remaining-nil next universe))
