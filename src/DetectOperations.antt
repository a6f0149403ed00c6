-- ===== src/DetectOperations.antt =====
-- include/IteratorRecognition/Analysis/DetectOperations.hpp: MutationDetector, which follows the update
-- of a target back along the shadow graph to the values that it reads and the operations on them.
pub mod Visits
pub mod Parts
pub mod Exact
pub mod Operands
pub mod Payload
mod Examples
use iterator_recognition.Prelude.{
  ℕ, zero, suc, ◌+◌, ◌-◌, ◌≤◌, ◌<◌, ◌≡◌, refl, sym, ap, ◌∙◌, subst, ◌≢◌, ◌↔◌, ◌⊎◌, inl, inr, Bool,
  true, false, not, ◌&&◌, ◌||◌, Option, none, some, List, [], ◌∷◌, ◌++◌, map, arith, ltb, leb, ◌==◌,
  if◌then◌else◌, ==_iff, ==_refl, Bool-cases, &&_iff, ||_iff, not_iff, Bool-ext, Option-cases,
  length, ◌∈◌, ∈-append, any, all, filter, find?, is_empty, any_intro, any_elim, any_iff, all_elim,
  all_intro, all_iff, ∈-filter, find?_elim, find?-none, ∈-map, flat_map, ∈-flat_map, contains,
  contains_iff, sort, unique, IsSorted, IsAscending, ∈-sort, sort-IsSorted, ∈-unique,
  unique-IsAscending, Above-lt, IsAscending-ext, insert, insert_all, erase, ∈-insert, ∈-insert_all,
  ∈-erase, IsDistinct,
}
use iterator_recognition.Ir.{
  Ir, LoopInfo, is_inst, ValueKind, Opcode, constant, argument, unhandled, instruction, load, store,
  select, phi, binary_operator, cmp, cast, get_element_ptr, call, alloca, other,
}
use iterator_recognition.Commutativity.{LoadModifyStore}
use iterator_recognition.DependenceCache.{AliasAnalysis, DependenceCache, contains_instruction}
use iterator_recognition.ShadowDependenceGraph.{SNode, SGraph, units_at, node_at, find_node_for}
use iterator_recognition.Worklist.{Action, stop, go, set_vector, set_insert_all, loop}

-- `inverse_edge_units`, filled from the in-edges.
unfoldable pub insert_units : List SNode → List ℕ → List ℕ → List ℕ
unfolding units_at insert_all
insert_units ns [] s = s
insert_units ns (a ∷ as') s = insert_units ns as' (insert_all (units_at ns a) s)

unfoldable pub inverse_edge_units : SGraph → SNode → List ℕ
unfolding insert_units
inverse_edge_units g n = insert_units g.nodes n.in_edges []

-- The two messages, for the instruction that they name.
pub data Failure : Type 0 where
  unhandled_call : ℕ → Failure
  unhandled_instruction : ℕ → Failure

-- What is written during the loop; `wasProcessed` is false where there is a failure.
pub record Detection : Type 0 where
  pub sources : List ℕ
  pub operations : List ℕ
  pub failure : Option Failure

-- What the loop does at an instruction: nothing, if it has no node; it takes it as a source, or as an
-- operation on its operands, or goes through it; or it fails.
pub data Part : Type 0 where
  absent source operation passed : Part
  failing : Failure → Part

unfoldable pub take_part : Part → ℕ → Detection → Action Detection
unfolding insert
take_part absent v d = go d
take_part source v d = go (record d { sources = insert v d.sources })
take_part operation v d = go (record d { operations = insert v d.operations })
take_part passed v d = go d
take_part (failing f) v d = stop (record d { failure = some f })

-- What the detector asks of LLVM besides: `arg_operands()` of a call, and whether a phi has an incoming
-- block (`getBasicBlockIndex(B) > -1`).
pub record CallsAndPhis : Type 0 where
  pub arg_operands : ℕ → List ℕ
  pub has_incoming_block : ℕ → ℕ → Bool

module _ (ir : Ir) (loop_info : LoopInfo) (more : CallsAndPhis) (aa : AliasAnalysis)
    (dc : DependenceCache aa) (sdg : SGraph) (cur_loop : ℕ) where
  unfoldable pub part_of : Opcode → ℕ → Part
  unfolding contains_instruction
  part_of store v = passed
  part_of load v = source
  part_of binary_operator v = operation
  part_of cmp v = operation
  part_of select v = passed
  part_of get_element_ptr v = operation
  part_of cast v = operation
  part_of phi v =
      if more.has_incoming_block v (loop_info.header cur_loop) then source else operation
  part_of call v = if contains_instruction aa dc v then failing (unhandled_call v) else passed
  part_of alloca v = failing (unhandled_instruction v)
  part_of other v = failing (unhandled_instruction v)

  unfoldable pub part_at : ValueKind → ℕ → Part
  unfolding part_of
  part_at (instruction o) v = elim (find_node_for sdg v) [ none ↦ absent | some n ↦ part_of o v ]
  part_at constant v = absent
  part_at argument v = absent
  part_at unhandled v = absent

  unfoldable pub part : ℕ → Part
  unfolding part_at
  part v = part_at (ir.kind v) v

  -- The operands that the loop goes on to, of a node whose in-edges lead to the units `inverse`.
  unfoldable pub pushed_of : Opcode → ℕ → List ℕ → List ℕ
  unfolding contains_instruction
  pushed_of store v inverse = filter (contains inverse) (ir.value_operand v ∷ [])
  pushed_of load v inverse = []
  pushed_of binary_operator v inverse = filter (contains inverse) (ir.operands v)
  pushed_of cmp v inverse = filter (contains inverse) (ir.operands v)
  pushed_of select v inverse = filter (contains inverse) (ir.operand v 1 ∷ ir.operand v 2 ∷ [])
  pushed_of get_element_ptr v inverse = filter (contains inverse) (ir.operands v)
  pushed_of cast v inverse = filter (contains inverse) (ir.operands v)
  pushed_of phi v inverse =
      if more.has_incoming_block v (loop_info.header cur_loop)
      then []
      else filter (contains inverse) (ir.incoming_values v)
  pushed_of call v inverse = if contains_instruction aa dc v then [] else more.arg_operands v
  pushed_of alloca v inverse = []
  pushed_of other v inverse = []

  unfoldable pub pushed_at : ValueKind → ℕ → List ℕ
  unfolding pushed_of inverse_edge_units
  pushed_at (instruction o) v = elim (find_node_for sdg v) [
    | none ↦ []
    | some n ↦ pushed_of o v (inverse_edge_units sdg n)
  ]
  pushed_at constant v = []
  pushed_at argument v = []
  pushed_at unhandled v = []

  unfoldable pub pushed : ℕ → List ℕ
  unfolding pushed_at
  pushed v = pushed_at (ir.kind v) v

  unfoldable pub visit : ℕ → Detection → Action Detection
  unfolding part take_part
  visit v d = take_part (part v) v d

  -- `dyn_cast<Instruction>` gives null.
  abbrev pub is_no_inst : ℕ → Bool
  is_no_inst v = not (is_inst ir v)

  unfoldable pub detect : ℕ → LoadModifyStore → Option Detection
  unfolding loop set_insert_all pushed visit
  detect fuel lms =
      loop set_vector is_no_inst pushed visit fuel (lms.target ∷ []) []
        (record { sources = lms.sources; operations = lms.operations; failure = none })

  -- `process`: the update with its sources and operations, and the failure.
  unfoldable pub process : ℕ → LoadModifyStore → Option (LoadModifyStore × Option Failure)
  unfolding detect erase
  process fuel lms = elim (detect fuel lms) [
    | none ↦ none
    | some d ↦ some (
      record {
        target = lms.target;
        sources = d.sources;
        operations = erase lms.target d.operations;
      },
      d.failure,
    )
  ]
