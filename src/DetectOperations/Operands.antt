-- ===== src/DetectOperations/Operands.antt =====
-- The detector goes on to operands only, so their number bounds its fuel.
use iterator_recognition.Prelude.{
  ℕ, ◌≤◌, inl, inr, Bool, List, [], ◌∷◌, arith, Bool-cases, Option-cases, length, ◌∈◌, filter,
  ∈-filter, contains,
}
use iterator_recognition.Ir.{
  Ir, LoopInfo, ValueKind, Opcode, constant, argument, unhandled, instruction, load, store, select,
  phi, binary_operator, cmp, cast, get_element_ptr, call, alloca, other,
}
use iterator_recognition.DependenceCache.{AliasAnalysis, DependenceCache, contains_instruction}
use iterator_recognition.ShadowDependenceGraph.{SGraph, find_node_for}
use iterator_recognition.DetectOperations.{
  CallsAndPhis, inverse_edge_units, pushed_of, pushed_at, pushed,
}
use iterator_recognition.Worklist.Returns.{edge_count}

filter-bounds : (p : ℕ → Bool) (xs : List ℕ) → length (filter p xs) ≤ length xs
filter-bounds p [] = omega arith
filter-bounds p (x ∷ xs) = ground (arith, filter-bounds p xs)

-- The operands that the detector may go on to, by the class of an instruction.
abbrev pub operands_of : Ir → CallsAndPhis → Opcode → ℕ → List ℕ
operands_of ir more store v = ir.value_operand v ∷ []
operands_of ir more load v = []
operands_of ir more binary_operator v = ir.operands v
operands_of ir more cmp v = ir.operands v
operands_of ir more select v = ir.operand v 1 ∷ ir.operand v 2 ∷ []
operands_of ir more get_element_ptr v = ir.operands v
operands_of ir more cast v = ir.operands v
operands_of ir more phi v = ir.incoming_values v
operands_of ir more call v = more.arg_operands v
operands_of ir more alloca v = []
operands_of ir more other v = []

abbrev operands_at : Ir → CallsAndPhis → ValueKind → ℕ → List ℕ
operands_at ir more (instruction o) v = operands_of ir more o v
operands_at ir more constant v = []
operands_at ir more argument v = []
operands_at ir more unhandled v = []

abbrev pub every_operand : Ir → CallsAndPhis → ℕ → List ℕ
every_operand ir more v = operands_at ir more (ir.kind v) v

-- A part of a list: no longer, and with no other elements.
abbrev pub IsPart : List ℕ → List ℕ → Type 0
IsPart xs ys = (length xs ≤ length ys) × ((v : ℕ) → v ∈ xs → v ∈ ys)

filter-IsPart : (p : ℕ → Bool) (xs : List ℕ) → IsPart (filter p xs) xs
filter-IsPart p xs = (filter-bounds p xs, λ v m. ((∈-filter p v xs).0 m).0)

nil-IsPart : (xs : List ℕ) → IsPart [] xs
nil-IsPart xs = (omega arith, λ v m. absurd m)

self-IsPart : (xs : List ℕ) → IsPart xs xs
self-IsPart xs = (omega arith, λ v m. m)

module _ (ir : Ir) (loop_info : LoopInfo) (more : CallsAndPhis) (aa : AliasAnalysis)
    (dc : DependenceCache aa) (sdg : SGraph) (cur_loop : ℕ) where
  pushed_of-IsPart :
      (o : Opcode) (v : ℕ) (inverse : List ℕ)
      → IsPart
          (pushed_of ir loop_info more aa dc sdg cur_loop o v inverse)
          (operands_of ir more o v)
  unfolding pushed_of
  pushed_of-IsPart store v inverse = filter-IsPart (contains inverse) (ir.value_operand v ∷ [])
  pushed_of-IsPart load v inverse = nil-IsPart []
  pushed_of-IsPart binary_operator v inverse = filter-IsPart (contains inverse) (ir.operands v)
  pushed_of-IsPart cmp v inverse = filter-IsPart (contains inverse) (ir.operands v)
  pushed_of-IsPart select v inverse =
      filter-IsPart (contains inverse) (ir.operand v 1 ∷ ir.operand v 2 ∷ [])
  pushed_of-IsPart get_element_ptr v inverse = filter-IsPart (contains inverse) (ir.operands v)
  pushed_of-IsPart cast v inverse = filter-IsPart (contains inverse) (ir.operands v)
  pushed_of-IsPart phi v inverse =
      elim (Bool-cases (more.has_incoming_block v (loop_info.header cur_loop))) [
        | inl e ↦ rw (e, pushed_of) (nil-IsPart (ir.incoming_values v))
        | inr e ↦ rw (e, pushed_of) (filter-IsPart (contains inverse) (ir.incoming_values v))
      ]
  pushed_of-IsPart call v inverse = elim (Bool-cases (contains_instruction aa dc v)) [
    | inl e ↦ rw (e, pushed_of) (nil-IsPart (more.arg_operands v))
    | inr e ↦ rw (e, pushed_of) (self-IsPart (more.arg_operands v))
  ]
  pushed_of-IsPart alloca v inverse = nil-IsPart []
  pushed_of-IsPart other v inverse = nil-IsPart []

  pushed_at-IsPart :
      (k : ValueKind) (v : ℕ)
      → IsPart (pushed_at ir loop_info more aa dc sdg cur_loop k v) (operands_at ir more k v)
  unfolding pushed_at
  pushed_at-IsPart (instruction o) v = elim (Option-cases (find_node_for sdg v)) [
    | inl e ↦ rw (e, pushed_at) (nil-IsPart (operands_of ir more o v))
    | inr (n, e) ↦ rw (e, pushed_at) (pushed_of-IsPart o v (inverse_edge_units sdg n))
  ]
  pushed_at-IsPart constant v = nil-IsPart []
  pushed_at-IsPart argument v = nil-IsPart []
  pushed_at-IsPart unhandled v = nil-IsPart []

  pub pushed-IsPart :
      (v : ℕ) → IsPart (pushed ir loop_info more aa dc sdg cur_loop v) (every_operand ir more v)
  unfolding pushed
  pushed-IsPart v = pushed_at-IsPart (ir.kind v) v

  pub edge_count-pushed :
      (us : List ℕ)
      → edge_count (pushed ir loop_info more aa dc sdg cur_loop) us
        ≤ edge_count (every_operand ir more) us
  edge_count-pushed [] = omega arith
  edge_count-pushed (u ∷ us) = omega (arith, (pushed-IsPart u).0, edge_count-pushed us)
