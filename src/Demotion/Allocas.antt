-- ===== src/Demotion/Allocas.antt =====
-- What the demotion of phis returns and collects.
use mathlib.Core.Option
use mathlib.Core.List.{append_assoc, append-nil}
use iterator_recognition.Prelude.{
  ℕ, ◌≡◌, refl, sym, ap, ◌∙◌, Bool, true, false, not, ◌||◌, Option, none, some, List, [], ◌∷◌, ◌++◌,
  arith, inl, inr, Bool-cases, is_empty, Option-cases,
}
use iterator_recognition.Demotion.{Demoted, take_alloca, demote_all, demote_phi_payload_values}

module _ {State : Type 0} (is_phi : ℕ → Bool)
    (demote_phi_to_stack : State → ℕ → State × Option ℕ) where
  -- The slots that demoting the phis one after the other makes.
  abbrev slots : List ℕ → State → List ℕ
  slots [] s = []
  slots (e ∷ phis) s =
      let skipped = slots phis s in
      let later = slots phis (demote_phi_to_stack s e).0 in
      elim (is_phi e) [
        | false ↦ skipped
        | true ↦ elim (demote_phi_to_stack s e).1 [ none ↦ later | some ai ↦ ai ∷ later ]
      ]

  abbrev Demotion : Type 0
  Demotion = Demoted is_phi demote_phi_to_stack

  map-append :
      (allocas : Option (List ℕ)) (x : ℕ) (xs : List ℕ)
      → Option.map (λ made. made ++ xs) (Option.map (λ made. made ++ x ∷ []) allocas)
        ≡ Option.map (λ made. made ++ (x ∷ xs)) allocas
  map-append none x xs = refl
  map-append (some made) x xs = ap some (append_assoc made (x ∷ []) xs)

  map-append_nothing :
      (allocas : Option (List ℕ)) → allocas ≡ Option.map (λ made. made ++ []) allocas
  map-append_nothing none = refl
  map-append_nothing (some made) = ap some (sym (append-nil made))

  demote_all-slots :
      (phis : List ℕ) (d : Demotion)
      → ((demote_all is_phi demote_phi_to_stack phis d).has_changed
          ≡ (d.has_changed || not (is_empty (slots phis d.state))))
        × ((demote_all is_phi demote_phi_to_stack phis d).allocas
            ≡ Option.map (λ made. made ++ slots phis d.state) d.allocas)
  unfolding demote_all take_alloca
  demote_all-slots [] d = (ground arith, map-append_nothing d.allocas)
  demote_all-slots (e ∷ phis) d = elim (Bool-cases (is_phi e)) [
    | inl q ↦ elim (Option-cases (demote_phi_to_stack d.state e).1) [
      | inl p ↦
          let next = (demote_phi_to_stack d.state e).0 in
          rw (q, p, demote_all, slots) (demote_all-slots phis (record d { state = next }))
      | inr (ai, p) ↦
          let next = (demote_phi_to_stack d.state e).0 in
          let (changed, collected) = demote_all-slots phis (record {
            state = next;
            has_changed = true;
            allocas = Option.map (λ made. made ++ ai ∷ []) d.allocas;
          }) in
          rw (q, p, demote_all, slots)
            (ground (arith, changed), collected ∙ map-append d.allocas ai (slots phis next))
    ]
    | inr q ↦ rw (q, demote_all, slots) (demote_all-slots phis d)
  ]

  -- The demotion returns true exactly when some phi is given a slot, and appends the slots, in their
  -- order, to the vector, where it has one.
  pub demote_phi_payload_values-slots :
      (phis : List ℕ) (allocas : Option (List ℕ)) (s : State)
      → ((demote_phi_payload_values is_phi demote_phi_to_stack phis allocas s).has_changed
          ≡ not (is_empty (slots phis s)))
        × ((demote_phi_payload_values is_phi demote_phi_to_stack phis allocas s).allocas
            ≡ Option.map (λ made. made ++ slots phis s) allocas)
  unfolding demote_phi_payload_values
  demote_phi_payload_values-slots phis allocas s =
      demote_all-slots phis (record { state = s; has_changed = false; allocas = allocas })
