-- ===== src/ValueClassification/Examples.antt =====
-- A small loop: 11 is the iterator, 21 and 22 the payload, 41 stands before the loop, 51 after it.
use iterator_recognition.Prelude.{
  ℕ, ◌<◌, ◌≡◌, refl, ◌↔◌, ◌⊎◌, Bool, true, false, none, some, List, [], ◌∷◌, ltb, ◌==◌,
  if◌then◌else◌, ◌∈◌,
}
use iterator_recognition.Ir.{Ir, LoopInfo, is_inst, instruction, Opcode}
use iterator_recognition.Recognition.{IteratorInfo}
use iterator_recognition.ValueClassification.{
  find_iterator_values, find_payload_values, find_direct_uses_of_in,
  find_virt_reg_payload_live_values, LiveSplit, split_virt_reg_payload_live_values,
}
use iterator_recognition.ValueClassification.Values.{
  IsUsedByPayload, ∈-find_payload_values-find_iterator_values, ∈-find_direct_uses_of_in,
}
use iterator_recognition.ValueClassification.Live.{∈-find_virt_reg_payload_live_values}
use iterator_recognition.ValueClassification.Split.{
  HasUseAfter, ∈-split_virt_reg_payload_live_values,
}

abbrev ir : Ir
ir = record {
  kind = λ v. instruction Opcode.other;
  operands = λ v. if v == 21 then 11 ∷ 41 ∷ [] else if v == 22 then 21 ∷ [] else [];
  operand = λ v n. 0;
  pointer_operand = λ v. 0;
  value_operand = λ v. 0;
  incoming_values = λ v. [];
  indices = λ v. [];
  users = λ v.
      if v == 11
      then 11 ∷ 21 ∷ []
      else if v == 21
      then 22 ∷ []
      else if v == 22
      then 51 ∷ []
      else if v == 41
      then 21 ∷ []
      else [];
  parent = λ i. if i == 41 then 0 else if i == 51 then 3 else if i == 11 then 1 else 2;
  insts = λ b. if b == 1 then 11 ∷ [] else if b == 2 then 21 ∷ 22 ∷ [] else [];
  may_read_from_memory = λ v. v == 21;
  may_write_to_memory = λ v. v == 22;
  is_binary_op = λ v. false;
  is_unary_instruction = λ v. false;
}

no_parent : (l p : ℕ) → none ≡ some p → 1 < 1
no_parent l p e = absurd (cc)

abbrev loops : LoopInfo
loops = record {
  loop_for = λ b. some 7;
  parent_loop = λ l. none;
  loop_depth = λ l. 1;
  parent_loop_depth = no_parent;
  loops_in_preorder = 7 ∷ [];
  header = λ l. 1;
  is_loop_latch = λ l b. b == 2;
  blocks = λ l. 1 ∷ 2 ∷ [];
  sub_loops = λ l. [];
  contains_inst = λ l i. ltb i 41;
  contains_loop = λ l m. false;
}

abbrev info : IteratorInfo
info = record { cur_loop = 7; cur_instructions = 11 ∷ [] }

abbrev payload : List ℕ
payload = 21 ∷ 22 ∷ []

abbrev live : List ℕ
live = 11 ∷ 41 ∷ 22 ∷ []

abbrev no_split : LiveSplit
no_split = record { live_in = []; live_thru = []; live_out = [] }

abbrev dominates : ℕ → ℕ → Bool
dominates a b = false

find_payload_values_runs : find_payload_values ir loops info [] ≡ payload
unfolding find_payload_values
find_payload_values_runs = refl

find_virt_reg_payload_live_values_runs : find_virt_reg_payload_live_values ir payload [] ≡ live
unfolding find_virt_reg_payload_live_values
find_virt_reg_payload_live_values_runs = refl

∈-find_payload_values-find_iterator_values_example :
    (11 ∈ find_payload_values ir loops info [] ↔ (
      ⊥ ⊎ (((b : ℕ) × (b ∈ loops.blocks 7) × (11 ∈ ir.insts b)) × ¬ (11 ∈ info.cur_instructions))))
    × (11 ∈ find_iterator_values ir loops info []
        ↔ (⊥ ⊎ ((11 ∈ info.cur_instructions) × IsUsedByPayload ir loops info 11)))
∈-find_payload_values-find_iterator_values_example =
    ∈-find_payload_values-find_iterator_values ir loops info 11 []

∈-find_virt_reg_payload_live_values_example :
    41 ∈ find_virt_reg_payload_live_values ir payload [] ↔ (
      ⊥
      ⊎ (((41 ∈ payload)
            × ((user : ℕ) × (user ∈ ir.users 41) × (is_inst ir user ≡ true) × ¬ (user ∈ payload)))
          ⊎ (((e : ℕ) × (e ∈ payload) × (41 ∈ ir.operands e))
              × ((is_inst ir 41 ≡ true) × ¬ (41 ∈ payload)))))
∈-find_virt_reg_payload_live_values_example = ∈-find_virt_reg_payload_live_values ir payload 41 []

abbrev split : LiveSplit
split = split_virt_reg_payload_live_values ir dominates payload live no_split

∈-split_virt_reg_payload_live_values_example :
    (22 ∈ split.live_out ↔ (⊥ ⊎ ((22 ∈ live) × (22 ∈ payload))))
    × (22 ∈ split.live_thru
        ↔ (⊥ ⊎ ((22 ∈ live) × ¬ (22 ∈ payload) × HasUseAfter ir payload dominates 22)))
    × (22 ∈ split.live_in
        ↔ (⊥ ⊎ ((22 ∈ live) × ¬ (22 ∈ payload) × ¬ HasUseAfter ir payload dominates 22)))
∈-split_virt_reg_payload_live_values_example =
    ∈-split_virt_reg_payload_live_values ir payload dominates 22 live no_split

-- 21 is the user of 11 in the payload; 11 itself is not in it.
find_direct_uses_of_in_runs : find_direct_uses_of_in ir (11 ∷ []) payload [] ≡ 21 ∷ []
unfolding find_direct_uses_of_in
find_direct_uses_of_in_runs = refl

∈-find_direct_uses_of_in_example : 21 ∈ find_direct_uses_of_in ir (11 ∷ []) payload [] ↔ (
    ⊥ ⊎ (((e : ℕ) × (e ∈ 11 ∷ []) × (21 ∈ ir.users e)) × (is_inst ir 21 ≡ true) × (21 ∈ payload)))
∈-find_direct_uses_of_in_example = ∈-find_direct_uses_of_in ir 21 (11 ∷ []) payload []
