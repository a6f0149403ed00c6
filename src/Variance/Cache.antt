-- ===== src/Variance/Cache.antt =====
-- The cache gives what the analysis gives.
use iterator_recognition.Prelude.{
  ℕ, ◌≡◌, refl, sym, ap, ◌∙◌, inl, inr, some, ◌∷◌, arith, ◌==◌, ==_iff, Bool-cases, Option-cases,
}
use iterator_recognition.Variance.{
  IteratorVarianceValue, VarianceCache, cached, get_or_insert_variance,
}

module _ (get_variance : ℕ → IteratorVarianceValue) where
  -- Each entry holds what the analysis gives for its key.
  abbrev pub IsConsistent : VarianceCache → Type 0
  IsConsistent cache =
      (q : ℕ) (v : IteratorVarianceValue) → cached cache q ≡ some v → v ≡ get_variance q

  -- From a cache that agrees with the analysis, the answer is the analysis', and so is each entry of
  -- the cache afterwards.
  pub get_or_insert_variance_lem :
      (cache : VarianceCache) (q : ℕ)
      → IsConsistent cache
      → ((get_or_insert_variance get_variance cache q).0 ≡ get_variance q)
        × IsConsistent (get_or_insert_variance get_variance cache q).1
  unfolding get_or_insert_variance cached
  get_or_insert_variance_lem cache q ok = elim (Option-cases (cached cache q)) [
    | inl e ↦ rw (e, get_or_insert_variance) (refl, λ k v h. inserted k v h)
    | inr (w, e) ↦ rw (e, get_or_insert_variance) (ok q w e, ok)
  ]
    where
      inserted :
          (k : ℕ) (v : IteratorVarianceValue)
          → cached ((q, get_variance q) ∷ cache) k ≡ some v
          → v ≡ get_variance k
      inserted k v h = elim (Bool-cases (k == q)) [
        | inl e ↦
            let same : k ≡ q = (==_iff k q).0 e in
            let found : v ≡ get_variance q = ground arith in found ∙ ap get_variance (sym same)
        | inr e ↦ ok k v (ground arith)
      ]
