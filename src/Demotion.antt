-- ===== src/Demotion.antt =====
-- lib/Transforms/Utils/DemotePayloadPhis.cpp: the demotion of the phis of a payload.
mod Allocas
use mathlib.Core.Option
use iterator_recognition.Prelude.{
  ℕ, ◌≡◌, refl, Bool, true, false, ◌||◌, Option, none, some, List, [], ◌∷◌, ◌++◌,
}

-- `llvm::DemotePHIToStack` changes the function, `State`, and gives the stack slot, if it makes one.
module _ {State : Type 0} (is_phi : ℕ → Bool)
    (demote_phi_to_stack : State → ℕ → State × Option ℕ) where
  pub record Demoted : Type 0 where
    pub state : State
    pub has_changed : Bool
    pub allocas : Option (List ℕ)

  -- `hasChanged |= ai`, and `Allocas->push_back(ai)`, where there are both.
  unfoldable pub take_alloca : Option ℕ → Demoted → Demoted
  take_alloca none d = d
  take_alloca (some ai) d = record d {
    has_changed = true;
    allocas = Option.map (λ made. made ++ ai ∷ []) d.allocas;
  }

  -- The loop over the phis.
  unfoldable pub demote_all : List ℕ → Demoted → Demoted
  unfolding take_alloca
  demote_all [] d = d
  demote_all (e ∷ phis) d = elim (is_phi e) [
    | false ↦ demote_all phis d
    | true ↦
        let (state, ai) = demote_phi_to_stack d.state e in
        demote_all phis (take_alloca ai (record d { state = state }))
  ]

  -- `DemotePhiPayloadValues`
  unfoldable pub demote_phi_payload_values : List ℕ → Option (List ℕ) → State → Demoted
  unfolding demote_all
  demote_phi_payload_values phis allocas s =
      demote_all phis (record { state = s; has_changed = false; allocas = allocas })
