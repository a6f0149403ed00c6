-- ===== src/ShadowDependenceGraph/Acyclic.antt =====
-- IsIteratorDependent where no cycle of operands can be come to: it returns, and what it answers.
use iterator_recognition.Prelude.{
  ℕ, zero, suc, ◌+◌, ◌≤◌, ◌<◌, ◌≡◌, refl, ◌∙◌, ◌≢◌, ◌↔◌, ◌⊎◌, inl, inr, Bool, true, false, some,
  List, [], ◌∷◌, arith, Bool-cases, ◌∈◌, contains_iff,
}
use iterator_recognition.Ir.{Ir, ValueKind, instruction, alloca, is_inst}
use iterator_recognition.Variance.Search.Roles.{ValueKind-cases}
use iterator_recognition.Worklist.{push_back_all, nothing_skipped}
use iterator_recognition.Worklist.Chains.{Chain, begins, continues, Reach-Chain}
use iterator_recognition.ShadowDependenceGraph.Dependent.{
  is_alloca, is_iterator_value, onward, dependent_loop, is_iterator_dependent, Comes,
  is_iterator_dependent_lem,
}

unfoldable pub total : (ℕ → ℕ) → List ℕ → ℕ
total cost [] = 0
total cost (v ∷ vs) = cost v + total cost vs

-- The number of chains of at most so many values, each after the first an operand of the one before.
unfoldable pub operand_chains : Ir → ℕ → ℕ → ℕ
unfolding total
operand_chains ir zero v = 0
operand_chains ir (suc n) v = suc (total (operand_chains ir n) (ir.operands v))

is_alloca_iff : (k : ValueKind) → (is_alloca k ≡ true) ↔ (k ≡ instruction alloca)
is_alloca_iff (instruction alloca) = ground arith
is_alloca_iff (instruction o) = ground arith
is_alloca_iff k = ground arith

module _ (ir : Ir) (iterator_values : List ℕ) where
  -- An operand of an instruction that is no alloca.
  abbrev pub LeadsTo : ℕ → ℕ → Type 0
  LeadsTo u w = (is_inst ir u ≡ true) × (ir.kind u ≢ instruction alloca) × (w ∈ ir.operands u)

  -- A value that operands lead to.
  abbrev pub IsLedToFrom : ℕ → ℕ → Type 0
  IsLedToFrom v w = Chain (λ u. u ≡ v) LeadsTo w

  ∈-onward : (u w : ℕ) → w ∈ onward ir iterator_values u ↔ LeadsTo u w
  unfolding onward
  ∈-onward u w = ground (arith, ValueKind-cases (ir.kind u), is_alloca_iff (ir.kind u))

  is_iterator_value_iff :
      (v : ℕ)
      → (is_iterator_value ir iterator_values v ≡ true)
        ↔ ((is_inst ir v ≡ true) × (v ∈ iterator_values))
  unfolding is_iterator_value
  is_iterator_value_iff v =
      ground (arith, ValueKind-cases (ir.kind v), contains_iff iterator_values v)

  onward-cases :
      (v : ℕ) → (onward ir iterator_values v ≡ []) ⊎ (onward ir iterator_values v ≡ ir.operands v)
  unfolding onward
  onward-cases v = ground (arith, ValueKind-cases (ir.kind v))

  total-onward :
      (cost : ℕ → ℕ) (v : ℕ) → total cost (onward ir iterator_values v) ≤ total cost (ir.operands v)
  unfolding total
  total-onward cost v = elim (onward-cases v) [
    | inl e ↦ rw e (omega arith)
    | inr e ↦ rw e (omega arith)
  ]

  -- The search leaves the value behind, with so much fuel left.
  abbrev Passes : ℕ → ℕ → List ℕ → List ℕ → Type 0
  Passes fuel left vs wl =
      (dependent_loop ir iterator_values fuel vs ≡ some true)
      ⊎ ((fuel' : ℕ) × (left ≤ fuel')
          × (dependent_loop ir iterator_values fuel vs
              ≡ dependent_loop ir iterator_values fuel' wl))

  Passes-all :
      (cost : ℕ → ℕ) (vs : List ℕ)
      → ((v : ℕ)
          → v ∈ vs
          → (fuel left : ℕ) (wl : List ℕ) → cost v + left ≤ fuel
          → Passes fuel left (v ∷ wl) wl)
      → (fuel left : ℕ) (wl : List ℕ) → total cost vs + left ≤ fuel
      → Passes fuel left (push_back_all vs wl) wl
  unfolding push_back_all total
  Passes-all cost [] each fuel left wl enough = inr (fuel, omega arith, refl)
  Passes-all cost (v ∷ vs) each fuel left wl enough =
      elim (Passes-all cost vs (λ w m. each w (inr m)) fuel (cost v + left) (v ∷ wl)
        (omega arith)) [
          | inl found ↦ inl found
          | inr (fuel', enough', q) ↦ elim (each v (inl refl) fuel' left wl enough') [
            | inl found ↦ inl (q ∙ found)
            | inr (fuel'', enough'', q') ↦ inr (fuel'', enough'', q ∙ q')
          ]
        ]

  module _ (rank : ℕ → ℕ) (v : ℕ)
      (falls : (u w : ℕ) → IsLedToFrom v u → LeadsTo u w → rank w < rank u) where
    passes :
        (n u : ℕ)
        → rank u < n
        → IsLedToFrom v u
        → (fuel left : ℕ) (wl : List ℕ) → operand_chains ir n u + left ≤ fuel
        → Passes fuel left (u ∷ wl) wl
    unfolding dependent_loop operand_chains
    passes zero u low c fuel left wl enough = absurd (omega arith)
    passes (suc n) u low c zero left wl enough = absurd (omega arith)
    passes (suc n) u low c (suc fuel) left wl enough =
        elim (Bool-cases (is_iterator_value ir iterator_values u)) [
          | inl e ↦ inl (rw (e, dependent_loop) refl)
          | inr e ↦
              let less = total-onward (operand_chains ir n) u in
              rw (e, dependent_loop)
                (Passes-all (operand_chains ir n) (onward ir iterator_values u)
                  (λ w m.
                    let l = (∈-onward u w).0 m in
                    let low' = falls u w c l in passes n w (omega arith) (continues c l))
                  fuel left wl (omega arith))
        ]

    IsLedToFrom-Comes : (x : ℕ) → Comes ir iterator_values (v ∷ []) x ↔ IsLedToFrom v x
    IsLedToFrom-Comes x =
        Reach-Chain (λ u. u ≡ v) LeadsTo nothing_skipped (onward ir iterator_values) (v ∷ [])
          (λ u. ground arith) (λ u w. ground (arith, ∈-onward u w)) x

    -- Where some rank falls along the operands of every instruction that the value leads to, and there
    -- is fuel for the chains of operands that rank allows, the search returns; it returns true exactly when an
    -- iterator value is among the value and what operands lead to from it, not going on from an alloca.
    pub is_iterator_dependent-returns :
        (fuel : ℕ)
        → operand_chains ir (suc (rank v)) v ≤ fuel
        → (b : Bool) × (is_iterator_dependent ir iterator_values fuel v ≡ some b)
          × ((b ≡ true)
              ↔ ((x : ℕ) × IsLedToFrom v x × (is_inst ir x ≡ true) × (x ∈ iterator_values)))
    unfolding is_iterator_dependent
    is_iterator_dependent-returns fuel enough =
        let answer : (b : Bool) × (is_iterator_dependent ir iterator_values fuel v ≡ some b) =
          elim (passes (suc (rank v)) v (omega arith) (begins refl) fuel 0 [] (omega arith)) [
            | inl q ↦ (true, q)
            | inr (fuel', low, q) ↦ (false, q)
          ] in
        let (b, q) = answer in
        let (there, back) = is_iterator_dependent_lem ir iterator_values fuel v b q in
        (
          b,
          q,
          (
            λ e.
                let (x, c, i) = there e in
                let (inst, m) = (is_iterator_value_iff x).0 i in
                (x, (IsLedToFrom-Comes x).0 c, inst, m),
            λ (x, c, inst, m).
                back (x, (IsLedToFrom-Comes x).1 c, (is_iterator_value_iff x).1 (inst, m)),
          ),
        )
