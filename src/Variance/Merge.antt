-- ===== src/Variance/Merge.antt =====
-- The values are ordered: unknown, invariant, variant. `mergeIn` never goes down.
use iterator_recognition.Prelude.{ℕ, ◌≤◌, ◌≡◌, ◌↔◌, ◌⊎◌, true, arith}
use iterator_recognition.Variance.{IteratorVarianceValue, unknown, invariant, variant, merge_in}

abbrev pub rank : IteratorVarianceValue → ℕ
rank unknown = 0
rank invariant = 1
rank variant = 2

rank-merge_in :
    (a b : IteratorVarianceValue)
    → (rank a ≤ rank (merge_in a b).0)
      × (rank b ≤ rank (merge_in a b).0)
      × (((merge_in a b).0 ≡ a) ⊎ ((merge_in a b).0 ≡ b))
unfolding merge_in
rank-merge_in unknown unknown = ground arith
rank-merge_in _ _ = ground arith

merge_in_flag : (a b : IteratorVarianceValue) → ((merge_in a b).1 ≡ true) ↔ ((merge_in a b).0 ≡ a)
unfolding merge_in
merge_in_flag unknown unknown = ground arith
merge_in_flag _ _ = ground arith

-- Merging takes the larger of two values in the order unknown, invariant, variant; and the flag that
-- `mergeIn` returns under the name `hasChanged` is true exactly when the value has stayed the same.
pub merge_in_lem :
    (a b : IteratorVarianceValue)
    → ((rank a ≤ rank (merge_in a b).0)
        × (rank b ≤ rank (merge_in a b).0)
        × (((merge_in a b).0 ≡ a) ⊎ ((merge_in a b).0 ≡ b)))
      × (((merge_in a b).1 ≡ true) ↔ ((merge_in a b).0 ≡ a))
merge_in_lem a b = (rank-merge_in a b, merge_in_flag a b)
