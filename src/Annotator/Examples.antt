-- ===== src/Annotator/Examples.antt =====
-- A loop 7 with an iterator 20 and the instructions 20, 21; a loop 8 without an iterator instruction.
use iterator_recognition.Prelude.{
  ℕ, ◌+◌, ◌<◌, ◌≡◌, refl, ◌↔◌, Bool, true, false, ◌||◌, none, some, List, [], ◌∷◌, ◌++◌, arith,
  ◌==◌, if◌then◌else◌, ==_refl,
}
use iterator_recognition.Ir.{Ir, LoopInfo, constant}
use iterator_recognition.Recognition.{IteratorInfo}
use iterator_recognition.Annotator.{
  Operand, md_string, md_node, MetadataNodes, Annotations, default_payload_instruction_key,
  default_loop_key, annotate_loop, annotate,
}
use iterator_recognition.Annotator.Loops.{
  IsDocumented, IsAnnotatedLoop, IsKept, annotate_loop-keeps_again,
}
use iterator_recognition.Annotator.Instructions.{has_metadata}
use iterator_recognition.Annotator.Pass.{is_annotated, has_metadata-annotate, annotate-changed_iff}

-- The number of nodes, and their operands.
abbrev Nodes : Type 0
Nodes = ℕ × (ℕ → List Operand)

abbrev with_node : (ℕ → ℕ → List Operand) → Nodes → Nodes × ℕ
with_node ops (n, nodes) = ((n + 1, λ m. if m == n then ops n m else nodes m), n)

abbrev behind_itself : ℕ → List Operand → List Operand
behind_itself n [] = []
behind_itself n (o ∷ os) = md_node n ∷ os

abbrev md : MetadataNodes
md = record {
  Context = Nodes;
  operands = λ c n. c.1 n;
  get_loop_id = λ c ops. with_node (λ n m. behind_itself n ops) c;
  concatenate = λ c a b. with_node (λ n m. c.1 a ++ c.1 b) c;
}

md_documented : IsDocumented md
md_documented = record { loop_id_operands = λ c first rest. ground (arith, ==_refl c.0) }

abbrev ir : Ir
ir = record {
  kind = λ v. constant;
  operands = λ v. [];
  operand = λ v n. 0;
  pointer_operand = λ v. 0;
  value_operand = λ v. 0;
  incoming_values = λ v. [];
  indices = λ v. [];
  users = λ v. [];
  parent = λ i. 1;
  insts = λ b. if b == 1 then 20 ∷ 21 ∷ [] else [];
  may_read_from_memory = λ v. false;
  may_write_to_memory = λ v. false;
  is_binary_op = λ v. false;
  is_unary_instruction = λ v. false;
}

no_parent : (l p : ℕ) → none ≡ some p → 1 < 1
no_parent l p e = absurd (cc)

abbrev loops : LoopInfo
loops = record {
  loop_for = λ b. some 7;
  parent_loop = λ l. none;
  loop_depth = λ l. 1;
  parent_loop_depth = no_parent;
  loops_in_preorder = 7 ∷ 8 ∷ [];
  header = λ l. 1;
  is_loop_latch = λ l b. true;
  blocks = λ l. if l == 7 then 1 ∷ [] else 2 ∷ [];
  sub_loops = λ l. [];
  contains_inst = λ l i. true;
  contains_loop = λ l m. false;
}

abbrev infos : List IteratorInfo
infos =
    record { cur_loop = 7; cur_instructions = 20 ∷ [] }
    ∷ record { cur_loop = 8; cur_instructions = [] }
    ∷ []

-- The loop 7 has an ID with a string 5.
abbrev start : Annotations md
start = record {
  context = (1, λ n. md_node 0 ∷ md_string 5 ∷ []);
  loop_id = λ l. if l == 7 then some 0 else none;
  inst_data = λ i k. none;
}

abbrev after : Annotations md × Bool
after = annotate md ir loops 1 3 true infos start

-- The new ID of loop 7 has the old one among its operands.
loop_annotated :
    md.operands after.0.context 1
    ≡ md_node 1 ∷ md_node 0 ∷ md_string 5 ∷ md_string default_loop_key ∷ []
unfolding annotate annotate_loop
loop_annotated = refl

payload_annotated : after.0.inst_data 21 default_payload_instruction_key ≡ some 1
unfolding annotate annotate_loop
payload_annotated = refl

-- The loop 8 gets an ID, and the pass returns that nothing changed.
silent :
    ((annotate md ir loops 1 3 false
          (record { cur_loop = 8; cur_instructions = [] } ∷ [])
          start).0.loop_id
        8
      ≡ some 1)
    × ((annotate md ir loops 1 3 false
          (record { cur_loop = 8; cur_instructions = [] } ∷ [])
          start).1
        ≡ false)
unfolding annotate annotate_loop
silent = (refl, refl)

annotate_loop-keeps_again_example :
    IsAnnotatedLoop md default_loop_key 7
      (annotate_loop md default_loop_key 7 start).0
      (annotate_loop md default_loop_key 7 start).2
    × IsKept md 7 start
        (annotate_loop md default_loop_key 7 start).0
        (annotate_loop md default_loop_key 7 start).2
    × (annotate_loop md default_loop_key 7 (annotate_loop md default_loop_key 7 start).0 ≡ (
      (annotate_loop md default_loop_key 7 start).0,
      false,
      (annotate_loop md default_loop_key 7 start).2,
    ))
annotate_loop-keeps_again_example =
    annotate_loop-keeps_again md md_documented default_loop_key 7 start

has_metadata-annotate_example : has_metadata md after.0 21 default_payload_instruction_key ≡ (
    has_metadata md start 21 default_payload_instruction_key
    || is_annotated md ir loops 1 3 true infos 21 default_payload_instruction_key)
has_metadata-annotate_example =
    has_metadata-annotate md ir loops 1 3 true infos start 21 default_payload_instruction_key

annotate-changed_iff_example :
    (after.1 ≡ true)
    ↔ ((i : ℕ) × (key : ℕ) × (is_annotated md ir loops 1 3 true infos i key ≡ true))
annotate-changed_iff_example = annotate-changed_iff md ir loops 1 3 true infos start
