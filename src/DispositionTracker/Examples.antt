-- ===== src/DispositionTracker/Examples.antt =====
-- An access to 31 through the address computation 21, whose index 22 is made from the iterator's 11.
use iterator_recognition.Prelude.{
  ℕ, ◌-◌, ◌<◌, ◌≡◌, ◌↔◌, refl, subst, inl, inr, true, false, Option, none, some, List, [], ◌∷◌,
  arith, ◌==◌, if◌then◌else◌, Option-cases, ◌∈◌,
}
use iterator_recognition.Ir.{Ir, LoopInfo, is_inst, constant, instruction, Opcode}
use iterator_recognition.Recognition.{IteratorInfo}
use iterator_recognition.ValueClassification.{find_payload_values}
use iterator_recognition.Worklist.{push_back_all}
use iterator_recognition.DispositionTracker.{
  AccessDisposition, variant, invariant, DispositionTracker, init, next, index_insts, payload_geps,
  disposition_with, get_disposition,
}
use iterator_recognition.DispositionTracker.Parts.{IsIndex}
use iterator_recognition.DispositionTracker.Nest.{itself, inner, init-again}
use iterator_recognition.DispositionTracker.Exact.{
  IsDisposition, disposition_with-returns-IsDisposition,
}

abbrev ir : Ir
ir = record {
  kind = λ v.
      if v == 41
      then constant
      else if v == 21
      then instruction Opcode.get_element_ptr
      else instruction Opcode.binary_operator;
  operands = λ v. if v == 22 then 11 ∷ 41 ∷ [] else [];
  operand = λ v n. 0;
  pointer_operand = λ v. 0;
  value_operand = λ v. 0;
  incoming_values = λ v. [];
  indices = λ v. if v == 21 then 22 ∷ 41 ∷ [] else [];
  users = λ v. if v == 31 then 21 ∷ 22 ∷ [] else [];
  parent = λ i. 1;
  insts = λ b. if b == 1 then 11 ∷ 21 ∷ 22 ∷ [] else [];
  may_read_from_memory = λ v. false;
  may_write_to_memory = λ v. false;
  is_binary_op = λ v. false;
  is_unary_instruction = λ v. false;
}

parent : ℕ → Option ℕ
parent l = if l == 8 then some 7 else none

depth : ℕ → ℕ
depth l = if l == 8 then 2 else 1

parent-depth : (l p : ℕ) → parent l ≡ some p → depth p < depth l
unfolding parent depth
parent-depth l p e = ground arith

abbrev loops : LoopInfo
loops = record {
  loop_for = λ b. some 7;
  parent_loop = parent;
  loop_depth = depth;
  parent_loop_depth = parent-depth;
  loops_in_preorder = 7 ∷ 8 ∷ [];
  header = λ l. l - 6;
  is_loop_latch = λ l b. true;
  blocks = λ l. if l == 7 then 1 ∷ 2 ∷ [] else 2 ∷ [];
  sub_loops = λ l. [];
  contains_inst = λ l i. true;
  contains_loop = λ l m. l == 7;
}

abbrev infos : List IteratorInfo
infos =
    record { cur_loop = 7; cur_instructions = 11 ∷ [] }
    ∷ record { cur_loop = 8; cur_instructions = [] }
    ∷ []

abbrev fresh : DispositionTracker
fresh = record { top_loop = none; infos = [] }

abbrev set_up : DispositionTracker
set_up = record { top_loop = some 7; infos = infos }

filled_for_inner : init ir loops infos 8 fresh ≡ some (set_up, true)
unfolding init parent depth Option-cases
filled_for_inner = refl

varies : get_disposition ir loops 9 infos fresh 31 7 false ≡ some (variant, set_up)
unfolding get_disposition parent depth Option-cases
varies = refl

-- 41 has no users.
does_not_vary : get_disposition ir loops 9 infos set_up 41 7 false ≡ some (invariant, set_up)
unfolding get_disposition parent depth Option-cases
does_not_vary = refl

-- 8 is inside 7, whose information is kept.
init-again_example :
    (set_up.top_loop ≡ some 7)
    × ((init ir loops infos 7 set_up ≡ some (set_up, false)) ↔ (◌≡◌ {A = ℕ} 7 7))
unfolding parent
init-again_example =
    init-again ir loops infos 7 7 8 7 refl refl (inner refl itself) itself fresh set_up true
      filled_for_inner

abbrev values : List ℕ
values = 22 ∷ 11 ∷ []

values_closed : (u v : ℕ) → u ∈ values → v ∈ ir.operands u → is_inst ir v ≡ true → v ∈ values
values_closed u v (inl q) n k = ground (arith, subst (λ (x : ℕ). v ∈ ir.operands x) q n, k)
values_closed u v (inr (inl q)) n k = ground (arith, subst (λ (x : ℕ). v ∈ ir.operands x) q n, k)
values_closed u v (inr (inr m)) n k = absurd m

abbrev info : IteratorInfo
info = record { cur_loop = 7; cur_instructions = 11 ∷ [] }

indices_inside : (v : ℕ) → IsIndex ir loops 31 info v → v ∈ values
indices_inside v (u, m, k, (inl q, gep, b, i, j, free)) =
    ground (arith, subst (λ (x : ℕ). v ∈ ir.indices x) q m, k)
indices_inside v (u, m, k, (inr (inl q), gep, b, i, j, free)) =
    absurd (subst (λ (x : ℕ). v ∈ ir.indices x) q m)
indices_inside v (u, m, k, (inr (inr user), gep, b, i, j, free)) = absurd user

disposition_with-returns-IsDisposition_example :
    (d : AccessDisposition) × (disposition_with ir loops 9 infos 31 7 false ≡ some d)
    × IsDisposition ir loops infos 7 false 31 info d
unfolding next index_insts payload_geps find_payload_values push_back_all
disposition_with-returns-IsDisposition_example =
    disposition_with-returns-IsDisposition ir loops infos 7 false values values_closed 31 9 info
      refl indices_inside (omega arith)
