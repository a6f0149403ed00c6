-- ===== src/Extras/Canonical.antt =====
-- `unique_inplace` gives each set of pointers one representation.
use iterator_recognition.Prelude.{
  ℕ, ◌≡◌, subst, ◌↔◌, List, arith, ◌∈◌, sort, IsAscending, ∈-sort, sort-IsSorted, ∈-unique,
  unique-IsAscending, IsAscending-ext,
}
use iterator_recognition.Extras.{unique_inplace}

pub ∈-unique_inplace : (a : ℕ) (xs : List ℕ) → a ∈ unique_inplace xs ↔ a ∈ xs
unfolding unique_inplace
∈-unique_inplace a xs = ground (arith, ∈-unique a (sort xs), ∈-sort a xs)

pub unique_inplace-IsAscending : (xs : List ℕ) → IsAscending (unique_inplace xs)
unfolding unique_inplace
unique_inplace-IsAscending xs = unique-IsAscending (sort xs) (sort-IsSorted xs)

-- Two containers are brought to the same list exactly when they hold the same elements.
pub unique_inplace-eq_iff :
    (xs ys : List ℕ) → (unique_inplace xs ≡ unique_inplace ys) ↔ ((a : ℕ) → a ∈ xs ↔ a ∈ ys)
unique_inplace-eq_iff xs ys = (
  λ e a.
      let m : a ∈ unique_inplace xs ↔ a ∈ unique_inplace ys =
        subst (λ l. a ∈ unique_inplace xs ↔ a ∈ l) e (λ h. h, λ h. h) in
      ground (arith, m, ∈-unique_inplace a xs, ∈-unique_inplace a ys),
  λ same.
      IsAscending-ext (unique_inplace xs) (unique_inplace ys) (unique_inplace-IsAscending xs)
        (unique_inplace-IsAscending ys)
        (λ a. ground (arith, same a, ∈-unique_inplace a xs, ∈-unique_inplace a ys)),
)
