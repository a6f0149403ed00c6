-- ===== src/Annotator.antt =====
-- include/IteratorRecognition/Exchange/MetadataAnnotation.hpp and lib/Transforms/Passes/AnnotatorPass.cpp:
-- loops and instructions are annotated with metadata.
mod Loops
mod Instructions
mod Pass
mod Examples
use iterator_recognition.Prelude.{
  ℕ, zero, suc, ◌+◌, ◌-◌, ◌≤◌, ◌<◌, ◌≡◌, refl, sym, ap, ◌∙◌, subst, ◌≢◌, ◌↔◌, ◌⊎◌, inl, inr, Bool,
  true, false, not, ◌&&◌, ◌||◌, Option, none, some, List, [], ◌∷◌, ◌++◌, map, arith, ltb, leb, ◌==◌,
  if◌then◌else◌, ==_iff, ==_refl, Bool-cases, &&_iff, ||_iff, not_iff, Bool-ext, Option-cases,
  length, ◌∈◌, ∈-append, any, all, filter, find?, is_empty, any_intro, any_elim, any_iff, all_elim,
  all_intro, all_iff, ∈-filter, find?_elim, find?-none, ∈-map, flat_map, ∈-flat_map, contains,
  contains_iff, sort, unique, IsSorted, IsAscending, ∈-sort, sort-IsSorted, ∈-unique,
  unique-IsAscending, Above-lt, IsAscending-ext, insert, insert_all, erase, ∈-insert, ∈-insert_all,
  ∈-erase, IsDistinct,
}
use iterator_recognition.Ir.{Ir, LoopInfo}
use iterator_recognition.Recognition.{IteratorInfo}

-- An operand of a metadata node. Strings are numbers.
pub data Operand : Type 0 where
  null_operand : Operand
  md_string : ℕ → Operand
  md_node : ℕ → Operand
  md_other : ℕ → Operand

abbrev pub is_key : ℕ → Operand → Bool
is_key key null_operand = false
is_key key (md_string s) = s == key
is_key key (md_node n) = false
is_key key (md_other n) = false

-- LLVM's metadata nodes, by their addresses: their operands, MDNode::get followed by
-- replaceOperandWith of the first operand by the node itself, and MDNode::concatenate.
pub record MetadataNodes : Type 1 where
  pub Context : Type 0
  pub operands : Context → ℕ → List Operand
  pub get_loop_id : Context → List Operand → Context × ℕ
  pub concatenate : Context → ℕ → ℕ → Context × ℕ

abbrev pub default_iterator_instruction_key : ℕ
default_iterator_instruction_key = 0

abbrev pub default_payload_instruction_key : ℕ
default_payload_instruction_key = 1

abbrev pub default_loop_key : ℕ
default_loop_key = 2

module _ (md : MetadataNodes) where
  -- The nodes, the loops' IDs, and the data of the instructions under their keys.
  pub record Annotations : Type 0 where
    pub context : md.Context
    pub loop_id : ℕ → Option ℕ
    pub inst_data : ℕ → ℕ → Option ℕ

  unfoldable pub set_loop_id : ℕ → ℕ → Annotations → Annotations
  set_loop_id l n s = record s { loop_id = λ m. if m == l then some n else s.loop_id m }

  unfoldable pub set_metadata : ℕ → ℕ → ℕ → Annotations → Annotations
  set_metadata inst key n s = record s {
    inst_data = λ i k. if i == inst && k == key then some n else s.inst_data i k;
  }

  -- The new loop ID of the operands so far and the key.
  unfoldable pub renew_loop_id : ℕ → ℕ → List Operand → Annotations → Annotations × Bool × ℕ
  unfolding set_loop_id
  renew_loop_id key l kept s =
      let (c, n) = md.get_loop_id s.context (null_operand ∷ (kept ++ md_string key ∷ [])) in
      (set_loop_id l n (record s { context = c }), false, n)

  -- `annotateLoop`: the flag of a change, which is never set, and the loop's ID.
  unfoldable pub annotate_loop : ℕ → ℕ → Annotations → Annotations × Bool × ℕ
  unfolding renew_loop_id
  annotate_loop key l s = elim (s.loop_id l) [
    | none ↦ renew_loop_id key l [] s
    | some cur ↦
        if any (is_key key) (md.operands s.context cur)
        then (s, false, cur)
        else renew_loop_id key l (md.operands s.context cur) s
  ]

  -- `append` for an instruction.
  unfoldable pub append_inst : ℕ → ℕ → ℕ → Annotations → Annotations × Bool
  unfolding set_metadata
  append_inst inst key additional s = elim (s.inst_data inst key) [
    | none ↦ (set_metadata inst key additional s, true)
    | some held ↦
        let (c, n) = md.concatenate s.context held additional in
        (set_metadata inst key n (record s { context = c }), true)
  ]

  -- `append` for a range of instructions.
  unfoldable pub append_range : List ℕ → ℕ → ℕ → Annotations → Annotations × Bool
  unfolding append_inst
  append_range [] key additional s = (s, false)
  append_range (i ∷ is) key additional s =
      let (s1, changed) = append_inst i key additional s in
      let (s2, others) = append_range is key additional s1 in (s2, changed || others)

  -- `append` for a loop, of a range and of an instruction.
  unfoldable pub append : List ℕ → ℕ → ℕ → ℕ → Annotations → Annotations × Bool
  unfolding annotate_loop append_range
  append insts inst_key l loop_key s =
      let (s1, changed, id) = annotate_loop loop_key l s in
      let (s2, others) = append_range insts inst_key id s1 in (s2, changed || others)

  unfoldable pub append_one : ℕ → ℕ → ℕ → ℕ → Annotations → Annotations × Bool
  unfolding annotate_loop append_inst
  append_one inst inst_key l loop_key s =
      let (s1, changed, id) = annotate_loop loop_key l s in
      let (s2, others) = append_inst inst inst_key id s1 in (s2, changed || others)

  -- The instructions of the blocks that are not in the iterator.
  unfoldable pub append_payload : IteratorInfo → List ℕ → Annotations → Annotations × Bool
  unfolding append_one
  append_payload info [] s = (s, false)
  append_payload info (i ∷ is) s =
      let passed_over = append_payload info is s in
      let (s1, changed) =
        append_one i default_payload_instruction_key info.cur_loop default_loop_key s in
      let (s2, others) = append_payload info is s1 in
      if not (contains info.cur_instructions i) then (s2, changed || others) else passed_over

  module _ (ir : Ir) (li : LoopInfo) (loop_depth_min loop_depth_max : ℕ)
      (annotate_payload : Bool) where
    -- A loop's turn.
    unfoldable pub annotate_info : IteratorInfo → Annotations → Annotations × Bool
    unfolding append append_payload
    annotate_info info s =
        let (s1, changed) =
          append info.cur_instructions default_iterator_instruction_key info.cur_loop
            default_loop_key s in
        let (s2, others) = append_payload info (flat_map ir.insts (li.blocks info.cur_loop)) s1 in
        if annotate_payload then (s2, changed || others) else (s1, changed)

    -- `AnnotatorPass::run`
    unfoldable pub annotate : List IteratorInfo → Annotations → Annotations × Bool
    unfolding annotate_info
    annotate [] s = (s, false)
    annotate (info ∷ infos) s =
        let passed_over = annotate infos s in
        let (s1, changed) = annotate_info info s in
        let (s2, others) = annotate infos s1 in
        if ltb loop_depth_max (li.loop_depth info.cur_loop)
          || ltb (li.loop_depth info.cur_loop) loop_depth_min
        then passed_over
        else (s2, changed || others)
