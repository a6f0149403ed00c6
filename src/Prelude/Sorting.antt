-- ===== src/Prelude/Sorting.antt =====
-- `std::sort` and `std::unique` on pointers.
use Prim.Native.Nat.{ℕ, ◌≤◌, ◌<◌}
use mathlib.Core.Path.{◌≡◌, refl, ap₂}
use mathlib.Core.Logic.{◌↔◌, ◌⊎◌, inl, inr}
use mathlib.Core.Bool.{true, false}
use mathlib.Core.List.{List, [], ◌∷◌}
use native.Mathlib.Omega.{arith}
use iterator_recognition.Prelude.Tests.{leb, ◌==◌, ==_iff, Bool-cases}
use iterator_recognition.Prelude.Lists.{◌∈◌}

-- `x` in its place in a sorted list.
unfoldable pub place : ℕ → List ℕ → List ℕ
place x [] = x ∷ []
place x (y ∷ ys) = elim (leb x y) [ true ↦ x ∷ y ∷ ys | false ↦ y ∷ place x ys ]

unfoldable pub sort : List ℕ → List ℕ
unfolding place
sort [] = []
sort (x ∷ xs) = place x (sort xs)

-- `std::unique` keeps the first of each run of equal elements.
unfoldable pub unique_from : ℕ → List ℕ → List ℕ
unique_from x [] = x ∷ []
unique_from x (y ∷ ys) = elim (x == y) [ true ↦ unique_from x ys | false ↦ x ∷ unique_from y ys ]

unfoldable pub unique : List ℕ → List ℕ
unfolding unique_from
unique [] = []
unique (x ∷ xs) = unique_from x xs

-- Every element of the list is at least `x`; is above `x`.
abbrev pub AtLeast : ℕ → List ℕ → Type 0
AtLeast x [] = Unit
AtLeast x (y ∷ ys) = (x ≤ y) × AtLeast x ys

abbrev pub Above : ℕ → List ℕ → Type 0
Above x [] = Unit
Above x (y ∷ ys) = (x < y) × Above x ys

abbrev pub IsSorted : List ℕ → Type 0
IsSorted [] = Unit
IsSorted (x ∷ xs) = AtLeast x xs × IsSorted xs

-- Sorted with no element twice.
abbrev pub IsAscending : List ℕ → Type 0
IsAscending [] = Unit
IsAscending (x ∷ xs) = Above x xs × IsAscending xs

∈-place : (a x : ℕ) (ys : List ℕ) → a ∈ place x ys ↔ ((a ≡ x) ⊎ (a ∈ ys))
unfolding place
∈-place a x [] = ground arith
∈-place a x (y ∷ ys) = ground (arith, ∈-place a x ys)

pub ∈-sort : (a : ℕ) (xs : List ℕ) → a ∈ sort xs ↔ a ∈ xs
unfolding sort
∈-sort a [] = ground arith
∈-sort a (x ∷ xs) = ground (arith, ∈-place a x (sort xs), ∈-sort a xs)

AtLeast-mono : (x y : ℕ) (ys : List ℕ) → x ≤ y → AtLeast y ys → AtLeast x ys
AtLeast-mono x y [] h g = tt
AtLeast-mono x y (z ∷ zs) h g = ground (arith, AtLeast-mono x y zs h)

AtLeast-place : (b x : ℕ) (ys : List ℕ) → b ≤ x → AtLeast b ys → AtLeast b (place x ys)
unfolding place
AtLeast-place b x [] h g = ground arith
AtLeast-place b x (y ∷ ys) h g = ground (arith, AtLeast-place b x ys h)

place-IsSorted : (x : ℕ) (ys : List ℕ) → IsSorted ys → IsSorted (place x ys)
unfolding place
place-IsSorted x [] s = ground arith
place-IsSorted x (y ∷ ys) s =
    ground (arith, place-IsSorted x ys, AtLeast-mono x y ys, AtLeast-place y x ys)

pub sort-IsSorted : (xs : List ℕ) → IsSorted (sort xs)
unfolding sort
sort-IsSorted [] = tt
sort-IsSorted (x ∷ xs) = place-IsSorted x (sort xs) (sort-IsSorted xs)

∈-unique_from : (a x : ℕ) (ys : List ℕ) → a ∈ unique_from x ys ↔ ((a ≡ x) ⊎ (a ∈ ys))
unfolding unique_from
∈-unique_from a x [] = ground arith
∈-unique_from a x (y ∷ ys) = ground (arith, ∈-unique_from a x ys, ∈-unique_from a y ys, ==_iff x y)

pub ∈-unique : (a : ℕ) (xs : List ℕ) → a ∈ unique xs ↔ a ∈ xs
unfolding unique
∈-unique a [] = ground arith
∈-unique a (x ∷ xs) = ∈-unique_from a x xs

Above-unique_from :
    (b x : ℕ) (ys : List ℕ) → b < x → AtLeast x ys → IsSorted ys → Above b (unique_from x ys)
unfolding unique_from
Above-unique_from b x [] h g s = ground arith
Above-unique_from b x (y ∷ ys) h g s = elim (Bool-cases (x == y)) [
  | inl e ↦ rw (e, unique_from, Above) (Above-unique_from b x ys h g.1 s.1)
  | inr e ↦ rw (e, unique_from, Above) (h, Above-unique_from b y ys (omega arith) s.0 s.1)
]

pub unique_from-IsAscending :
    (x : ℕ) (ys : List ℕ) → AtLeast x ys → IsSorted ys → IsAscending (unique_from x ys)
unfolding unique_from
unique_from-IsAscending x [] h s = ground arith
unique_from-IsAscending x (y ∷ ys) h s = elim (Bool-cases (x == y)) [
  | inl e ↦ rw (e, unique_from, IsAscending) (unique_from-IsAscending x ys h.1 s.1)
  | inr e ↦
      rw (e, unique_from, IsAscending)
        (Above-unique_from x y ys (ground arith) s.0 s.1, unique_from-IsAscending y ys s.0 s.1)
]

pub unique-IsAscending : (xs : List ℕ) → IsSorted xs → IsAscending (unique xs)
unfolding unique
unique-IsAscending [] s = tt
unique-IsAscending (x ∷ xs) s = unique_from-IsAscending x xs s.0 s.1

pub Above-lt : (x a : ℕ) (ys : List ℕ) → Above x ys → a ∈ ys → x < a
Above-lt x a [] h m = absurd m
Above-lt x a (y ∷ ys) h m = ground (arith, Above-lt x a ys h.1)

-- Ascending lists with the same elements are equal.
pub IsAscending-ext :
    (xs ys : List ℕ) → IsAscending xs → IsAscending ys → ((a : ℕ) → a ∈ xs ↔ a ∈ ys) → xs ≡ ys
IsAscending-ext [] [] h k same = refl
IsAscending-ext [] (y ∷ ys) h k same = absurd ((same y).1 (inl refl))
IsAscending-ext (x ∷ xs) [] h k same = absurd ((same x).0 (inl refl))
IsAscending-ext (x ∷ xs) (y ∷ ys) h k same = ap₂ ◌∷◌ first (IsAscending-ext xs ys h.1 k.1 rest)
  where
    first : x ≡ y
    first = ground (
      arith,
      (same x).0 (inl refl),
      (same y).1 (inl refl),
      Above-lt x y xs h.0,
      Above-lt y x ys k.0,
    )

    rest : (a : ℕ) → a ∈ xs ↔ a ∈ ys
    rest a = ground (arith, same a, first, Above-lt x a xs h.0, Above-lt y a ys k.0)
