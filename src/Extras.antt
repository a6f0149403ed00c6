-- ===== src/Extras.antt =====
-- include/IteratorRecognition/Support/Utils/Extras.hpp: helpers on containers of pointers.
pub mod Canonical
pub mod SetEquality
mod Examples
use iterator_recognition.Prelude.{
  ℕ, zero, suc, ◌+◌, ◌-◌, ◌≤◌, ◌<◌, ◌≡◌, refl, sym, ap, ◌∙◌, subst, ◌≢◌, ◌↔◌, ◌⊎◌, inl, inr, Bool,
  true, false, not, ◌&&◌, ◌||◌, Option, none, some, List, [], ◌∷◌, ◌++◌, map, arith, ltb, leb, ◌==◌,
  if◌then◌else◌, ==_iff, ==_refl, Bool-cases, &&_iff, ||_iff, not_iff, Bool-ext, Option-cases,
  length, ◌∈◌, ∈-append, any, all, filter, find?, is_empty, any_intro, any_elim, any_iff, all_elim,
  all_intro, all_iff, ∈-filter, find?_elim, find?-none, ∈-map, flat_map, ∈-flat_map, contains,
  contains_iff, sort, unique, IsSorted, IsAscending, ∈-sort, sort-IsSorted, ∈-unique,
  unique-IsAscending, Above-lt, IsAscending-ext, insert, insert_all, erase, ∈-insert, ∈-insert_all,
  ∈-erase, IsDistinct,
}

-- A unit is the instruction of a graph node; the virtual root has a null unit.
unfoldable pub is_null_unit : (ℕ → Option ℕ) → ℕ → Bool
is_null_unit unit e = elim (unit e) [ none ↦ true | some u ↦ false ]

unfoldable pub is_not_null_unit : (ℕ → Option ℕ) → ℕ → Bool
unfolding is_null_unit
is_not_null_unit unit e = not (is_null_unit unit e)

unfoldable pub unique_inplace : List ℕ → List ℕ
unfolding sort unique
unique_inplace xs = unique (sort xs)

-- The loop returns from its first round. For an empty first set control runs off the end of a
-- function with a result, which is undefined: `none`.
unfoldable pub is_subset_of : List ℕ → List ℕ → Option Bool
is_subset_of [] set2 = none
is_subset_of (e1 ∷ rest) set2 = if contains set2 e1 then some true else some false

-- `operator==` on dense sets.
unfoldable pub set_eq : List ℕ → List ℕ → Bool
set_eq lhs rhs = if not (length lhs == length rhs) then false else all (λ e. contains rhs e) lhs
