-- ===== src/Variance.antt =====
-- include/IteratorRecognition/Analysis/IteratorValueTracking.hpp: how a value varies with the
-- iterator of a loop.
pub mod Merge
pub mod Cache
pub mod Search
mod Examples
use iterator_recognition.Prelude.{
  ℕ, zero, suc, ◌+◌, ◌-◌, ◌≤◌, ◌<◌, ◌≡◌, refl, sym, ap, ◌∙◌, subst, ◌≢◌, ◌↔◌, ◌⊎◌, inl, inr, Bool,
  true, false, not, ◌&&◌, ◌||◌, Option, none, some, List, [], ◌∷◌, ◌++◌, map, arith, ltb, leb, ◌==◌,
  if◌then◌else◌, ==_iff, ==_refl, Bool-cases, &&_iff, ||_iff, not_iff, Bool-ext, Option-cases,
  length, ◌∈◌, ∈-append, any, all, filter, find?, is_empty, any_intro, any_elim, any_iff, all_elim,
  all_intro, all_iff, ∈-filter, find?_elim, find?-none, ∈-map, flat_map, ∈-flat_map, contains,
  contains_iff, sort, unique, IsSorted, IsAscending, ∈-sort, sort-IsSorted, ∈-unique,
  unique-IsAscending, Above-lt, IsAscending-ext, insert, insert_all, erase, ∈-insert, ∈-insert_all,
  ∈-erase, IsDistinct,
}
use iterator_recognition.Ir.{
  Ir, LoopInfo, ValueKind, Opcode, constant, argument, unhandled, instruction,
}
use iterator_recognition.Recognition.{IteratorInfo, is_iterator}

pub data IteratorVarianceValue : Type 0 where
  unknown invariant variant : IteratorVarianceValue

abbrev pub is_variant : IteratorVarianceValue → Bool
is_variant variant = true
is_variant unknown = false
is_variant invariant = false

abbrev pub is_invariant : IteratorVarianceValue → Bool
is_invariant invariant = true
is_invariant unknown = false
is_invariant variant = false

abbrev pub same_value : IteratorVarianceValue → IteratorVarianceValue → Bool
same_value unknown unknown = true
same_value invariant invariant = true
same_value variant variant = true
same_value _ _ = false

-- `mergeIn`: the value that is kept, and the flag that is returned.
unfoldable pub merge_in :
    IteratorVarianceValue → IteratorVarianceValue → IteratorVarianceValue × Bool
merge_in val other =
    let cur : IteratorVarianceValue = elim val [
      | unknown ↦ other
      | kept ↦ if is_variant other then variant else kept
    ] in
    (cur, same_value cur val)

-- `VarianceCache`.
abbrev pub VarianceCache : Type 0
VarianceCache = List (ℕ × IteratorVarianceValue)

unfoldable pub cached : VarianceCache → ℕ → Option IteratorVarianceValue
cached [] q = none
cached ((k, v) ∷ rest) q = if q == k then some v else cached rest q

-- `getOrInsertVariance`, over the analysis that it calls on a miss.
unfoldable pub get_or_insert_variance :
    (ℕ → IteratorVarianceValue) → VarianceCache → ℕ → IteratorVarianceValue × VarianceCache
unfolding cached
get_or_insert_variance get_variance cache q = elim (cached cache q) [
  | none ↦ (get_variance q, (q, get_variance q) ∷ cache)
  | some v ↦ (v, cache)
]
