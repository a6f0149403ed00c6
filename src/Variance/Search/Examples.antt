-- ===== src/Variance/Search/Examples.antt =====
-- A sum in a loop: 21 adds 22 and 11, 22 is a phi of 21 and of the constant 41, and 11 is the iterator;
-- 23 adds 22 and 41.
use iterator_recognition.Prelude.{
  ℕ, ◌<◌, ◌≡◌, refl, subst, ◌≢◌, inl, inr, true, false, none, some, List, [], ◌∷◌, arith, ◌==◌,
  if◌then◌else◌, ◌∈◌,
}
use iterator_recognition.Ir.{unhandled, Ir, LoopInfo, constant, instruction, Opcode}
use iterator_recognition.Recognition.{IteratorInfo}
use iterator_recognition.Variance.{IteratorVarianceValue, invariant, variant}
use iterator_recognition.Variance.Search.{next, get_variance}
use iterator_recognition.Variance.Search.Follows.{∈-next}
use iterator_recognition.Variance.Search.Exact.{IsVariance, get_variance-returns-IsVariance}

abbrev ir : Ir
ir = record {
  kind = λ v.
      if v == 41
      then constant
      else if v == 22
      then instruction Opcode.phi
      else instruction Opcode.binary_operator;
  operands = λ v. if v == 21 then 22 ∷ 11 ∷ [] else if v == 23 then 22 ∷ 41 ∷ [] else [];
  operand = λ v n. 0;
  pointer_operand = λ v. 0;
  value_operand = λ v. 0;
  incoming_values = λ v. if v == 22 then 21 ∷ 41 ∷ [] else [];
  indices = λ v. [];
  users = λ v. [];
  parent = λ i. 1;
  insts = λ b. [];
  may_read_from_memory = λ v. false;
  may_write_to_memory = λ v. false;
  is_binary_op = λ v. true;
  is_unary_instruction = λ v. false;
}

no_parent : (l p : ℕ) → none ≡ some p → 1 < 1
no_parent l p e = absurd (cc)

abbrev loops : LoopInfo
loops = record {
  loop_for = λ b. some 7;
  parent_loop = λ l. none;
  loop_depth = λ l. 1;
  parent_loop_depth = no_parent;
  loops_in_preorder = 7 ∷ [];
  header = λ l. 1;
  is_loop_latch = λ l b. true;
  blocks = λ l. 1 ∷ [];
  sub_loops = λ l. [];
  contains_inst = λ l i. true;
  contains_loop = λ l m. false;
}

abbrev info : IteratorInfo
info = record { cur_loop = 7; cur_instructions = 11 ∷ [] }

abbrev values : List ℕ
values = 21 ∷ 22 ∷ 11 ∷ 41 ∷ []

sum_is_variant : get_variance ir loops info 8 21 ≡ some variant
unfolding get_variance
sum_is_variant = refl

constant_is_invariant : get_variance ir loops info 8 41 ≡ some invariant
unfolding get_variance
constant_is_invariant = refl

out_of_fuel : get_variance ir loops info 2 21 ≡ none
unfolding get_variance
out_of_fuel = refl

never_unhandled : (v : ℕ) → ir.kind v ≢ unhandled
never_unhandled v = ground arith

values_closed : (u v : ℕ) → u ∈ values → v ∈ next ir loops info u → v ∈ values
unfolding next
values_closed u v (inl q) n = ground (arith, subst (λ (k : ℕ). v ∈ next ir loops info k) q n)
values_closed u v (inr (inl q)) n = ground (arith, subst (λ (k : ℕ). v ∈ next ir loops info k) q n)
values_closed u v (inr (inr (inl q))) n =
    ground (arith, subst (λ (k : ℕ). v ∈ next ir loops info k) q n)
values_closed u v (inr (inr (inr (inl q)))) n =
    ground (arith, subst (λ (k : ℕ). v ∈ next ir loops info k) q n)
values_closed u v (inr (inr (inr (inr m)))) n = absurd m

get_variance-returns-IsVariance_example :
    (r : IteratorVarianceValue) × (get_variance ir loops info 5 21 ≡ some r)
    × IsVariance ir loops info 21 r
unfolding next
get_variance-returns-IsVariance_example =
    get_variance-returns-IsVariance ir loops info values
      (λ u v m d. values_closed u v m ((∈-next ir loops info u v).1 d)) 21 5 (inl refl)
      (λ v d. never_unhandled v) (omega arith)
