-- ===== src/Commutativity/Examples.antt =====
-- Two updates: one of a variant address by a commutative operation, one that is invariant.
use iterator_recognition.Prelude.{
  ℕ, ◌≡◌, refl, ◌≢◌, ◌↔◌, true, false, List, [], ◌∷◌, ltb, ◌==◌, if◌then◌else◌, ◌∈◌,
}
use iterator_recognition.Ir.{Ir, instruction, Opcode}
use iterator_recognition.Variance.{IteratorVarianceValue, invariant, variant, cached}
use iterator_recognition.Variance.Cache.{IsConsistent}
use iterator_recognition.Commutativity.{LoadModifyStore, analyze}
use iterator_recognition.Commutativity.Verdict.{IsSafe, analyze_iff}

abbrev ir : Ir
ir = record {
  kind = λ v. instruction Opcode.other;
  operands = λ v. [];
  operand = λ v n. 0;
  pointer_operand = λ v. 0;
  value_operand = λ v. 0;
  incoming_values = λ v. [];
  indices = λ v. [];
  users = λ v. [];
  parent = λ i. 1;
  insts = λ b. [];
  may_read_from_memory = λ v. false;
  may_write_to_memory = λ v. false;
  is_binary_op = λ v. v == 5;
  is_unary_instruction = λ v. false;
}

abbrev variance : ℕ → IteratorVarianceValue
variance v = if ltb v 10 then invariant else variant

abbrev updates : List LoadModifyStore
updates =
    record { target = 11; sources = 12 ∷ 1 ∷ []; operations = 5 ∷ [] }
    ∷ record { target = 2; sources = 3 ∷ []; operations = 6 ∷ [] }
    ∷ []

nothing_cached : IsConsistent variance []
unfolding cached
nothing_cached q v h = cc

analyze_runs : (analyze ir variance updates []).has_commutative_ops ≡ true
unfolding analyze
analyze_runs = refl

analyze_iff_example : ((analyze ir variance updates []).has_commutative_ops ≡ true) ↔ (
    (updates ≢ [])
    × ((lms : LoadModifyStore)
        → lms ∈ updates
        → (lms.sources ≢ []) × ((src : ℕ) → src ∈ lms.sources → IsSafe ir variance lms src)))
analyze_iff_example = analyze_iff ir variance updates [] nothing_cached
