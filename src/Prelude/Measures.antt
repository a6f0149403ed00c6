-- ===== src/Prelude/Measures.antt =====
-- Well-founded recursion on a number that falls.
use Prim.Native.Nat.{ℕ, zero, suc, ◌<◌}
use mathlib.Core.WellFounded.{Acc}
use native.Mathlib.Omega.{arith}

module _ {A : Type 0} (R : A → A → Type 0) (measure : A → ℕ)
    (falls : (x y : A) → R x y → measure x < measure y) where
  unfoldable pub acc_below : (k : ℕ) (a : A) → measure a < k → Acc R a
  acc_below zero a h = elim h [ ]
  acc_below (suc k) a h = Acc.intro a (λ x r. acc_below k x (smaller x r))
    where
      smaller : (x : A) → R x a → measure x < k
      smaller x r = omega (arith, falls x a r)

  unfoldable pub acc_of_measure : (a : A) → Acc R a
  unfolding acc_below
  acc_of_measure a = acc_below (suc (measure a)) a (omega arith)
