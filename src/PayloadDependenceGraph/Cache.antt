-- ===== src/PayloadDependenceGraph/Cache.antt =====
-- The cache of the variance analysis once the edits are made.
use iterator_recognition.Prelude.{ℕ, List, [], ◌∷◌}
use iterator_recognition.Variance.{
  IteratorVarianceValue, VarianceCache, cached, get_or_insert_variance,
}
use iterator_recognition.Variance.Cache.{IsConsistent, get_or_insert_variance_lem}
use iterator_recognition.PayloadDependenceGraph.{cache_after}

pub cache_after-IsConsistent :
    (get_variance : ℕ → IteratorVarianceValue) (cache : VarianceCache) (deps : List (ℕ × ℕ))
    → IsConsistent get_variance cache
    → IsConsistent get_variance (cache_after get_variance cache deps)
unfolding cache_after
cache_after-IsConsistent get_variance cache [] ok = ok
cache_after-IsConsistent get_variance cache ((src, dst) ∷ deps) ok =
    let first = get_or_insert_variance get_variance cache src in
    let first_ok = get_or_insert_variance_lem get_variance cache src ok in
    cache_after-IsConsistent get_variance (get_or_insert_variance get_variance first.1 dst).1 deps
      (get_or_insert_variance_lem get_variance first.1 dst first_ok.1).1

pub nothing_cached : (get_variance : ℕ → IteratorVarianceValue) → IsConsistent get_variance []
unfolding cached
nothing_cached get_variance q v h = cc
