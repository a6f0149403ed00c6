-- ===== src/Worklist/Chains.antt =====
-- What a search comes to, described by where it starts and how it goes on, apart from any work list.
use iterator_recognition.Prelude.{ℕ, ◌≡◌, ◌↔◌, false, Bool, List, ◌∈◌}
use iterator_recognition.Worklist.{Reach, root, along}

-- The values on a chain of steps from a start.
pub data Chain (Start : ℕ → Type 0) (Step : ℕ → ℕ → Type 0) : ℕ → Type 0 where
  begins : {v : ℕ} → Start v → Chain Start Step v
  continues : {u v : ℕ} → Chain Start Step u → Step u v → Chain Start Step v

module _ (Start : ℕ → Type 0) (Step : ℕ → ℕ → Type 0) (skipped : ℕ → Bool) (next : ℕ → List ℕ)
    (roots : List ℕ) (starts : (v : ℕ) → ((v ∈ roots) × (skipped v ≡ false)) ↔ Start v)
    (steps : (u v : ℕ) → ((v ∈ next u) × (skipped v ≡ false)) ↔ Step u v) where
  to_Chain : (v : ℕ) → Reach skipped next roots v → Chain Start Step v
  to_Chain v (root m k) = begins ((starts v).0 (m, k))
  to_Chain v (along {u} r m k) = continues (to_Chain u r) ((steps u v).0 (m, k))

  from_Chain : (v : ℕ) → Chain Start Step v → Reach skipped next roots v
  from_Chain v (begins s) = let (m, k) = (starts v).1 s in root m k
  from_Chain v (continues {u} c s) = let (m, k) = (steps u v).1 s in along (from_Chain u c) m k

  pub Reach-Chain : (v : ℕ) → Reach skipped next roots v ↔ Chain Start Step v
  Reach-Chain v = (to_Chain v, from_Chain v)
