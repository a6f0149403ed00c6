-- ===== src/ValueClassification/Live.antt =====
-- The registers that live across the payload, and their split into live in, live through, live out.
use iterator_recognition.Prelude.{
  ℕ, ◌≡◌, refl, sym, ap, ◌∙◌, subst, ◌↔◌, ◌⊎◌, inl, inr, Bool, true, not, ◌&&◌, List, [], ◌∷◌,
  arith, if◌then◌else◌, Bool-cases, ◌∈◌, any_intro, any_elim, contains, contains_iff, insert,
  ∈-insert,
}
use iterator_recognition.Ir.{Ir, is_inst}
use iterator_recognition.ValueClassification.{
  has_use_outside, visit_operands, find_virt_reg_live_in, find_virt_reg_payload_live_values,
}

module _ (ir : Ir) (payload : List ℕ) where
  -- What has been visited outside the payload has been recorded.
  abbrev IsRecorded : List ℕ × List ℕ → Type 0
  IsRecorded s = (u : ℕ) → u ∈ s.0 → ¬ (u ∈ payload) → u ∈ s.1

  abbrev IsOuter : ℕ → Type 0
  IsOuter v = (is_inst ir v ≡ true) × ¬ (v ∈ payload)

  visit_operands_lem :
      (us visited live : List ℕ)
      → IsRecorded (visited, live)
      → IsRecorded (visit_operands ir payload us (visited, live))
        × ((v : ℕ)
            → v ∈ (visit_operands ir payload us (visited, live)).1
              ↔ ((v ∈ live) ⊎ ((v ∈ us) × IsOuter v)))
  unfolding visit_operands
  visit_operands_lem [] visited live ok = (ok, λ v. ground arith)
  visit_operands_lem (u ∷ us) visited live ok =
      elim (Bool-cases (is_inst ir u && (not (contains visited u) && not (contains payload u)))) [
        | inl e ↦
            let (ok', lem) =
              visit_operands_lem us (insert u visited) (insert u live)
                (λ w m n. ground (arith, ∈-insert w u visited, ∈-insert w u live, ok w)) in
            rw (e, visit_operands)
              (ok', λ v. ground (arith, lem v, ∈-insert v u live, contains_iff payload u, e))
        | inr e ↦
            let (ok', lem) = visit_operands_lem us visited live ok in
            rw (e, visit_operands)
              (
                ok',
                λ v. ground (arith, lem v, contains_iff payload u, contains_iff visited u, e, ok u),
              )
      ]

  -- The value has a use outside the payload, or feeds the payload from outside.
  abbrev IsLive : List ℕ → ℕ → Type 0
  IsLive es v =
      ((v ∈ es) × (has_use_outside ir payload v ≡ true))
      ⊎ (((e : ℕ) × (e ∈ es) × (v ∈ ir.operands e)) × IsOuter v)

  own_use :
      (e w : ℕ) (live : List ℕ)
      → w ∈ (if has_use_outside ir payload e then insert e live else live)
        ↔ ((w ∈ live) ⊎ ((w ≡ e) × (has_use_outside ir payload e ≡ true)))
  own_use e w live = ground (arith, ∈-insert w e live)

  has_use_outside_iff :
      (v : ℕ)
      → (has_use_outside ir payload v ≡ true)
        ↔ ((user : ℕ) × (user ∈ ir.users v) × (is_inst ir user ≡ true) × ¬ (user ∈ payload))
  unfolding has_use_outside
  has_use_outside_iff v =
      let test : ℕ → Bool = λ user. is_inst ir user && not (contains payload user) in
      (
        λ h.
            let (user, m, t) = any_elim test (ir.users v) h in
            (user, m, ground arith, ground (arith, contains_iff payload user)),
        λ (user, m, inst, free).
            any_intro test (ir.users v) user m (ground (arith, contains_iff payload user)),
      )

  find_lem :
      (es visited live : List ℕ)
      → IsRecorded (visited, live)
      → ((e : ℕ) → e ∈ es → e ∈ payload)
      → (v : ℕ)
      → v ∈ (find_virt_reg_live_in ir payload es (visited, live)).1 ↔ ((v ∈ live) ⊎ IsLive es v)
  unfolding find_virt_reg_live_in
  find_lem [] visited live ok inside v = ground arith
  find_lem (e ∷ es) visited live ok inside v =
      let live' = if has_use_outside ir payload e then insert e live else live in
      let own = λ (w : ℕ). own_use e w live in
      let (ok', lem) = visit_operands_lem (ir.operands e) (insert e visited) live' (λ w m n.
        elim ((∈-insert w e visited).0 m) [
          | inl q ↦ absurd (n (subst (λ k. k ∈ payload) (sym q) (inside e (inl refl))))
          | inr old ↦ (own w).1 (inl (ok w old n))
        ]) in
      let s = visit_operands ir payload (ir.operands e) (insert e visited, live') in
      let ih = find_lem es s.0 s.1 ok' (λ k m. inside k (inr m)) v in
      (
        λ m. elim (ih.0 m) [
          | inl before ↦ elim ((lem v).0 before) [
            | inl mine ↦ elim ((own v).0 mine) [
              | inl old ↦ inl old
              | inr (q, used) ↦ inr (inl (inl q, ap (has_use_outside ir payload) q ∙ used))
            ]
            | inr (fed, outer) ↦ inr (inr ((e, inl refl, fed), outer))
          ]
          | inr (inl (n, used)) ↦ inr (inl (inr n, used))
          | inr (inr ((k, n, fed), outer)) ↦ inr (inr ((k, inr n, fed), outer))
        ],
        λ h. elim h [
          | inl old ↦ ih.1 (inl ((lem v).1 (inl ((own v).1 (inl old)))))
          | inr (inl (inl q, used)) ↦ ih.1 (
              inl (
                (lem v).1
                  (inl ((own v).1 (inr (q, ap (has_use_outside ir payload) (sym q) ∙ used))))))
          | inr (inl (inr n, used)) ↦ ih.1 (inr (inl (n, used)))
          | inr (inr ((k, inl q, fed), outer)) ↦
              ih.1 (inl ((lem v).1 (inr (subst (λ x. v ∈ ir.operands x) q fed, outer))))
          | inr (inr ((k, inr n, fed), outer)) ↦ ih.1 (inr (inr ((k, n, fed), outer)))
        ],
      )

  -- A register is recorded as live exactly when it is a payload value with a use by an instruction
  -- outside the payload, or an instruction outside the payload that is an operand of a payload value.
  pub ∈-find_virt_reg_payload_live_values :
      (v : ℕ) (live : List ℕ)
      → v ∈ find_virt_reg_payload_live_values ir payload live ↔ (
          (v ∈ live)
          ⊎ (((v ∈ payload)
                × ((user : ℕ) × (user ∈ ir.users v)
                    × (is_inst ir user ≡ true)
                    × ¬ (user ∈ payload)))
              ⊎ (((e : ℕ) × (e ∈ payload) × (v ∈ ir.operands e))
                  × ((is_inst ir v ≡ true) × ¬ (v ∈ payload)))))
  unfolding find_virt_reg_payload_live_values
  ∈-find_virt_reg_payload_live_values v live =
      let lem = find_lem payload [] live (λ u m n. absurd m) (λ e m. m) v in
      let outside = has_use_outside_iff v in
      (
        λ m. elim (lem.0 m) [
          | inl old ↦ inl old
          | inr (inl (n, used)) ↦ inr (inl (n, outside.0 used))
          | inr (inr fed) ↦ inr (inr fed)
        ],
        λ h. elim h [
          | inl old ↦ lem.1 (inl old)
          | inr (inl (n, used)) ↦ lem.1 (inr (inl (n, outside.1 used)))
          | inr (inr fed) ↦ lem.1 (inr (inr fed))
        ],
      )
