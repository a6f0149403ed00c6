-- ===== src/Variance/Examples.antt =====
-- The variance lattice and its cache at work.
use iterator_recognition.Prelude.{ℕ, ◌≡◌, [], ltb, if◌then◌else◌}
use iterator_recognition.Variance.{
  IteratorVarianceValue, invariant, variant, get_or_insert_variance, cached,
}
use iterator_recognition.Variance.Cache.{IsConsistent, get_or_insert_variance_lem}

abbrev variance : ℕ → IteratorVarianceValue
variance v = if ltb v 10 then invariant else variant

nothing_cached : IsConsistent variance []
unfolding cached
nothing_cached q v h = cc

get_or_insert_variance_lem_example :
    ((get_or_insert_variance variance [] 12).0 ≡ variance 12)
    × IsConsistent variance (get_or_insert_variance variance [] 12).1
get_or_insert_variance_lem_example = get_or_insert_variance_lem variance [] 12 nothing_cached
