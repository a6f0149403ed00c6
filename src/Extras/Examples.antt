-- ===== src/Extras/Examples.antt =====
-- The helpers on small containers.
use iterator_recognition.Prelude.{ℕ, ◌≡◌, refl, ◌↔◌, true, some, [], ◌∷◌, ◌∈◌}
use iterator_recognition.Extras.{unique_inplace, is_subset_of, set_eq}
use iterator_recognition.Extras.SetEquality.{set_eq_iff}
use iterator_recognition.Extras.Canonical.{unique_inplace-eq_iff}

unique_inplace-eq_iff_example :
    (unique_inplace (3 ∷ 1 ∷ 3 ∷ []) ≡ unique_inplace (1 ∷ 3 ∷ []))
    ↔ ((a : ℕ) → a ∈ (3 ∷ 1 ∷ 3 ∷ []) ↔ a ∈ (1 ∷ 3 ∷ []))
unique_inplace-eq_iff_example = unique_inplace-eq_iff (3 ∷ 1 ∷ 3 ∷ []) (1 ∷ 3 ∷ [])

-- 9 is not in the second set.
is_subset_of_runs : is_subset_of (1 ∷ 9 ∷ []) (1 ∷ 2 ∷ []) ≡ some true
unfolding is_subset_of
is_subset_of_runs = refl

set_eq_iff_example :
    (set_eq (1 ∷ 2 ∷ []) (2 ∷ 1 ∷ []) ≡ true) ↔ ((a : ℕ) → a ∈ (1 ∷ 2 ∷ []) ↔ a ∈ (2 ∷ 1 ∷ []))
set_eq_iff_example = set_eq_iff (1 ∷ 2 ∷ []) (2 ∷ 1 ∷ []) (refl, (refl, tt)) (refl, (refl, tt))
