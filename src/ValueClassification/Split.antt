-- ===== src/ValueClassification/Split.antt =====
-- Which of the live registers are live in, live through and live out.
use iterator_recognition.Prelude.{
  ℕ, ◌≡◌, ap, ◌↔◌, ◌⊎◌, inl, inr, Bool, true, false, not, ◌&&◌, ◌||◌, List, [], ◌∷◌, arith,
  Bool-cases, ◌∈◌, any_iff, contains, contains_iff, insert, ∈-insert,
}
use iterator_recognition.Ir.{Ir, is_inst, ValueKind, instruction, load, phi}
use iterator_recognition.ValueClassification.{
  is_phi_kind, is_phi, has_uses_after, LiveSplit, split_virt_reg_payload_live_values,
}

phi_kind : (k : ValueKind) → (is_phi_kind k ≡ true) ↔ (k ≡ instruction phi)
phi_kind (instruction load) = ground arith
phi_kind (instruction o) = ground arith
phi_kind k = ground arith

module _ (ir : Ir) (payload : List ℕ) (dominates : ℕ → ℕ → Bool) where
  split_lem :
      (v : ℕ) (live : List ℕ) (s : LiveSplit)
      → (v ∈ (split_virt_reg_payload_live_values ir dominates payload live s).live_out
          ↔ ((v ∈ s.live_out) ⊎ ((v ∈ live) × (v ∈ payload))))
        × (v ∈ (split_virt_reg_payload_live_values ir dominates payload live s).live_thru ↔ (
            (v ∈ s.live_thru)
            ⊎ ((v ∈ live) × ¬ (v ∈ payload) × (has_uses_after ir dominates payload v ≡ true))))
        × (v ∈ (split_virt_reg_payload_live_values ir dominates payload live s).live_in ↔ (
            (v ∈ s.live_in)
            ⊎ ((v ∈ live) × ¬ (v ∈ payload) × (has_uses_after ir dominates payload v ≡ false))))
  unfolding split_virt_reg_payload_live_values
  split_lem v [] s = ground arith
  split_lem v (e ∷ es) s =
      let out = record s { live_out = insert e s.live_out } in
      let thru = record s { live_thru = insert e s.live_thru } in
      let into = record s { live_in = insert e s.live_in } in
      let same = λ (q : v ≡ e). ap (has_uses_after ir dominates payload) q in
      let held = contains_iff payload e in
      elim (Bool-cases (contains payload e)) [
        | inl p ↦
            let (o, t, i) = split_lem v es out in
            rw (p, split_virt_reg_payload_live_values)
              (
                ground (arith, o, ∈-insert v e s.live_out, held, p),
                ground (arith, t, held, p),
                ground (arith, i, held, p),
              )
        | inr p ↦ elim (Bool-cases (has_uses_after ir dominates payload e)) [
          | inl u ↦
              let (o, t, i) = split_lem v es thru in
              rw (p, u, split_virt_reg_payload_live_values)
                (
                  ground (arith, o, held, p),
                  ground (arith, t, ∈-insert v e s.live_thru, held, p, u, same),
                  ground (arith, i, held, p, u, same),
                )
          | inr u ↦
              let (o, t, i) = split_lem v es into in
              rw (p, u, split_virt_reg_payload_live_values)
                (
                  ground (arith, o, held, p),
                  ground (arith, t, held, p, u, same),
                  ground (arith, i, ∈-insert v e s.live_in, held, p, u, same),
                )
        ]
      ]

  -- Some instruction outside the payload uses the value after it: one that its definition dominates,
  -- or a phi.
  abbrev pub HasUseAfter : ℕ → Type 0
  HasUseAfter v =
      (user : ℕ) × (user ∈ ir.users v)
      × (is_inst ir user ≡ true)
      × ¬ (user ∈ payload)
      × ((dominates v user ≡ true) ⊎ (ir.kind user ≡ instruction phi))

  is_phi_iff : (v : ℕ) → (is_phi ir v ≡ true) ↔ (ir.kind v ≡ instruction phi)
  is_phi_iff v = phi_kind (ir.kind v)

  has_uses_after_iff : (v : ℕ) → (has_uses_after ir dominates payload v ≡ true) ↔ HasUseAfter v
  unfolding has_uses_after
  has_uses_after_iff v =
      let test : ℕ → Bool = λ user.
        (is_inst ir user && not (contains payload user)) && (dominates v user || is_phi ir user) in
      let each : (user : ℕ)
          → (test user ≡ true) ↔ (
              (is_inst ir user ≡ true)
              × ¬ (user ∈ payload)
              × ((dominates v user ≡ true) ⊎ (ir.kind user ≡ instruction phi))) =
        λ user. ground (arith, contains_iff payload user, is_phi_iff user) in
      let some_user = any_iff test (ir.users v) in
      (
        λ h.
            let (user, m, q) = some_user.0 h in
            let (a, b, c) = (each user).0 q in (user, m, a, b, c),
        λ (user, m, a, b, c). some_user.1 (user, m, (each user).1 (a, b, c)),
      )

  no_uses_after_iff : (v : ℕ) → (has_uses_after ir dominates payload v ≡ false) ↔ ¬ HasUseAfter v
  no_uses_after_iff v = ground (arith, has_uses_after_iff v)

  -- Each live register goes to exactly one of the three sets: out, if it is in the payload; through,
  -- if it is not, and an instruction outside the payload that its definition dominates, or a phi
  -- outside the payload, uses it; in, otherwise.
  pub ∈-split_virt_reg_payload_live_values :
      (v : ℕ) (live : List ℕ) (s : LiveSplit)
      → (v ∈ (split_virt_reg_payload_live_values ir dominates payload live s).live_out
          ↔ ((v ∈ s.live_out) ⊎ ((v ∈ live) × (v ∈ payload))))
        × (v ∈ (split_virt_reg_payload_live_values ir dominates payload live s).live_thru
            ↔ ((v ∈ s.live_thru) ⊎ ((v ∈ live) × ¬ (v ∈ payload) × HasUseAfter v)))
        × (v ∈ (split_virt_reg_payload_live_values ir dominates payload live s).live_in
            ↔ ((v ∈ s.live_in) ⊎ ((v ∈ live) × ¬ (v ∈ payload) × ¬ HasUseAfter v)))
  ∈-split_virt_reg_payload_live_values v live s =
      let (out, thru, into) = split_lem v live s in
      (out, ground (arith, thru, has_uses_after_iff v), ground (arith, into, no_uses_after_iff v))
