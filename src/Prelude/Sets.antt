-- ===== src/Prelude/Sets.antt =====
-- Pointer sets, in the order of insertion.
use Prim.Native.Nat.{ℕ}
use mathlib.Core.Path.{◌≡◌}
use mathlib.Core.Logic.{◌↔◌, ◌⊎◌, ◌≢◌, inl, inr}
use mathlib.Core.Bool.{false, not}
use mathlib.Core.List.{List, [], ◌∷◌, ◌++◌}
use native.Mathlib.Omega.{arith}
use iterator_recognition.Prelude.Tests.{◌==◌, ==_iff, if◌then◌else◌, Bool-cases}
use iterator_recognition.Prelude.Lists.{◌∈◌, ∈-append, contains, contains_iff, filter, ∈-filter}

-- `Set.insert(a)`
unfoldable pub insert : ℕ → List ℕ → List ℕ
insert a xs = if contains xs a then xs else xs ++ a ∷ []

unfoldable pub insert_all : List ℕ → List ℕ → List ℕ
unfolding insert
insert_all [] s = s
insert_all (a ∷ xs) s = insert_all xs (insert a s)

-- `Set.erase(a)`
unfoldable pub erase : ℕ → List ℕ → List ℕ
erase a xs = filter (λ x. not (x == a)) xs

pub ∈-insert : (b a : ℕ) (xs : List ℕ) → b ∈ insert a xs ↔ ((b ≡ a) ⊎ (b ∈ xs))
unfolding insert
∈-insert b a xs = elim (Bool-cases (contains xs a)) [
  | inl e ↦ rw e (inr, λ h. elim h [ inl q ↦ rw q ((contains_iff xs a).0 e) | inr m ↦ m ])
  | inr e ↦ rw e (ground (arith, ∈-append b xs (a ∷ [])))
]

pub ∈-insert_all : (b : ℕ) (xs s : List ℕ) → b ∈ insert_all xs s ↔ ((b ∈ xs) ⊎ (b ∈ s))
unfolding insert_all
∈-insert_all b [] s = ground arith
∈-insert_all b (a ∷ xs) s = ground (arith, ∈-insert_all b xs (insert a s), ∈-insert b a s)

pub ∈-erase : (b a : ℕ) (xs : List ℕ) → b ∈ erase a xs ↔ ((b ∈ xs) × (b ≢ a))
unfolding erase
∈-erase b a xs = ground (arith, ∈-filter (λ x. not (x == a)) b xs, ==_iff b a)

-- No element twice.
abbrev pub IsDistinct : List ℕ → Type 0
IsDistinct [] = Unit
IsDistinct (x ∷ xs) = (contains xs x ≡ false) × IsDistinct xs
