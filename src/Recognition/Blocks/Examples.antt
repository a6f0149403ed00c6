-- ===== src/Recognition/Blocks/Examples.antt =====
-- A loop of three blocks and an inner loop, and what the queries say of it.
use iterator_recognition.Prelude.{
  ℕ, ◌<◌, ◌≡◌, refl, ◌≢◌, ◌↔◌, ◌⊎◌, true, false, not, ◌&&◌, none, some, [], ◌∷◌, arith, ◌==◌,
  if◌then◌else◌, ◌∈◌, is_empty,
}
use iterator_recognition.Ir.{Ir, LoopInfo, instruction, Opcode}
use iterator_recognition.Recognition.{IteratorInfo}
use iterator_recognition.Recognition.Blocks.{
  get_mixed_blocks, get_payload_only_blocks, has_payload_only_blocks, has_mixed_blocks,
  has_payload_only_subloops, get_payload_only_subloops,
}
use iterator_recognition.Recognition.Blocks.Queries.{
  IsPayloadOnly, ∈-get_payload_only_blocks, ∈-get_mixed_blocks-has_blocks,
}
use iterator_recognition.Recognition.Blocks.Subloops.{∈-get_payload_only_subloops}

-- Instructions 11 and 12 stand in the header 1, 21 in block 2, 31 in the latch 3.
abbrev ir : Ir
ir = record {
  kind = λ v. instruction Opcode.other;
  operands = λ v. [];
  operand = λ v n. 0;
  pointer_operand = λ v. 0;
  value_operand = λ v. 0;
  incoming_values = λ v. [];
  indices = λ v. [];
  users = λ v. [];
  parent = λ i. if i == 21 then 2 else if i == 31 then 3 else 1;
  insts = λ b.
      if b == 1 then 11 ∷ 12 ∷ [] else if b == 2 then 21 ∷ [] else if b == 3 then 31 ∷ [] else [];
  may_read_from_memory = λ v. false;
  may_write_to_memory = λ v. false;
  is_binary_op = λ v. false;
  is_unary_instruction = λ v. false;
}

no_parent : (l p : ℕ) → none ≡ some p → 1 < 1
no_parent l p e = absurd (cc)

abbrev loops : LoopInfo
loops = record {
  loop_for = λ b. some 7;
  parent_loop = λ l. none;
  loop_depth = λ l. 1;
  parent_loop_depth = no_parent;
  loops_in_preorder = 7 ∷ 8 ∷ [];
  header = λ l. if l == 7 then 1 else 2;
  is_loop_latch = λ l b. l == 7 && b == 3;
  blocks = λ l. if l == 7 then 1 ∷ 2 ∷ 3 ∷ [] else 2 ∷ [];
  sub_loops = λ l. if l == 7 then 8 ∷ [] else [];
  contains_inst = λ l i. true;
  contains_loop = λ l m. l == 7 && m == 8;
}

abbrev info : IteratorInfo
info = record { cur_loop = 7; cur_instructions = 11 ∷ 31 ∷ [] }

∈-get_payload_only_blocks_example :
    2 ∈ get_payload_only_blocks ir loops info 7 [] ↔ (⊥ ⊎ IsPayloadOnly ir loops info 7 2)
∈-get_payload_only_blocks_example = ∈-get_payload_only_blocks ir loops info 7 2 []

home : (i c : ℕ) → i ∈ ir.insts c → ir.parent i ≡ c
home i c m = ground arith

-- Block 1 holds instructions of both kinds, and only block 2 is returned.
get_mixed_blocks_runs : get_mixed_blocks ir loops info 7 [] ≡ 2 ∷ []
unfolding get_mixed_blocks
get_mixed_blocks_runs = refl

∈-get_mixed_blocks-has_blocks_example :
    (2 ∈ get_mixed_blocks ir loops info 7 []
      ↔ (IsPayloadOnly ir loops info 7 2 × (ir.insts 2 ≢ [])))
    × (has_payload_only_blocks ir loops info 7
        ≡ not (is_empty (get_payload_only_blocks ir loops info 7 [])))
    × (has_mixed_blocks ir loops info 7 ≡ not (is_empty (get_mixed_blocks ir loops info 7 [])))
∈-get_mixed_blocks-has_blocks_example = ∈-get_mixed_blocks-has_blocks ir loops info 7 2 home

∈-get_payload_only_subloops_example :
    (8 ∈ get_payload_only_subloops ir loops info 7 [] ↔ (
      (8 ∈ loops.sub_loops 7) × ((b : ℕ) → b ∈ loops.blocks 8 → IsPayloadOnly ir loops info 7 b)))
    × (has_payload_only_subloops ir loops info 7
        ≡ not (is_empty (get_payload_only_subloops ir loops info 7 [])))
∈-get_payload_only_subloops_example = ∈-get_payload_only_subloops ir loops info 7 8
