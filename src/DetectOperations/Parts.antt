-- ===== src/DetectOperations/Parts.antt =====
-- The sources, the operations, what is not handled, and what an instruction is made from, class by class.
use iterator_recognition.Prelude.{
  ℕ, ◌≡◌, refl, sym, ◌∙◌, subst, ◌≢◌, ◌↔◌, ◌⊎◌, inl, inr, Bool, true, false, not, some, List, [],
  ◌∷◌, arith, Option-cases, ◌∈◌, filter, ∈-filter, contains, contains_iff,
}
use iterator_recognition.Ir.{
  Ir, LoopInfo, is_inst, ValueKind, Opcode, constant, argument, unhandled, instruction, load, store,
  select, phi, binary_operator, cmp, cast, get_element_ptr, call, alloca, other,
}
use iterator_recognition.DependenceCache.{AliasAnalysis, DependenceCache, contains_instruction}
use iterator_recognition.ShadowDependenceGraph.{SNode, SGraph, find_node_for}
use iterator_recognition.DetectOperations.{
  CallsAndPhis, Failure, unhandled_call, unhandled_instruction, inverse_edge_units, Part, absent,
  source, operation, failing, part_of, part_at, part, pushed_of, pushed_at, pushed,
}

pub ValueKind-cases :
    (k : ValueKind)
    → (k ≡ constant) ⊎ (k ≡ argument) ⊎ (k ≡ unhandled) ⊎ ((o : Opcode) × (k ≡ instruction o))
ValueKind-cases constant = inl refl
ValueKind-cases argument = inr (inl refl)
ValueKind-cases unhandled = inr (inr (inl refl))
ValueKind-cases (instruction o) = inr (inr (inr (o, refl)))

module _ (ir : Ir) (loop_info : LoopInfo) (more : CallsAndPhis) (aa : AliasAnalysis)
    (dc : DependenceCache aa) (sdg : SGraph) (cur_loop : ℕ) where
  -- An instruction of the class `o`, with a node in the shadow graph.
  abbrev pub IsAt : Opcode → SNode → ℕ → Type 0
  IsAt o n v = (ir.kind v ≡ instruction o) × (find_node_for sdg v ≡ some n)

  -- Whether a phi has an incoming value from the header of the loop.
  abbrev pub from_header : ℕ → Bool
  from_header v = more.has_incoming_block v (loop_info.header cur_loop)

  abbrev SourceBy : Opcode → ℕ → Type 0
  SourceBy o v = (o ≡ load) ⊎ ((o ≡ phi) × (from_header v ≡ true))

  abbrev OperationBy : Opcode → ℕ → Type 0
  OperationBy o v =
      (o ≡ binary_operator)
      ⊎ (o ≡ cmp)
      ⊎ (o ≡ get_element_ptr)
      ⊎ (o ≡ cast)
      ⊎ ((o ≡ phi) × (from_header v ≡ false))

  abbrev UnhandledBy : Opcode → ℕ → Failure → Type 0
  UnhandledBy o v f =
      ((o ≡ call) × (v ∈ dc.distinct_instructions) × (f ≡ unhandled_call v))
      ⊎ (((o ≡ alloca) ⊎ (o ≡ other)) × (f ≡ unhandled_instruction v))

  abbrev FedBy : Opcode → SNode → ℕ → ℕ → Type 0
  FedBy o n v w =
      ((o ≡ call) × ¬ (v ∈ dc.distinct_instructions) × (w ∈ more.arg_operands v))
      ⊎ ((w ∈ inverse_edge_units sdg n)
          × (((o ≡ store) × (w ≡ ir.value_operand v))
              ⊎ (((o ≡ binary_operator) ⊎ (o ≡ cmp) ⊎ (o ≡ get_element_ptr) ⊎ (o ≡ cast))
                  × (w ∈ ir.operands v))
              ⊎ ((o ≡ select) × ((w ≡ ir.operand v 1) ⊎ (w ≡ ir.operand v 2)))
              ⊎ ((o ≡ phi) × (from_header v ≡ false) × (w ∈ ir.incoming_values v))))

  -- A load, or a phi of the loop's header, is a source.
  abbrev pub IsSource : ℕ → Type 0
  IsSource v = (o : Opcode) × (n : SNode) × IsAt o n v × SourceBy o v

  -- A binary operator, a comparison, an address computation, a cast, or another phi, is an operation.
  abbrev pub IsOperation : ℕ → Type 0
  IsOperation v = (o : Opcode) × (n : SNode) × IsAt o n v × OperationBy o v

  -- A call that takes part in a dependence, and an instruction of no other class, are not handled.
  abbrev pub IsUnhandled : ℕ → Failure → Type 0
  IsUnhandled v f = (o : Opcode) × (n : SNode) × IsAt o n v × UnhandledBy o v f

  -- The instruction `w` is an argument of a call that takes part in no dependence, or it is a value
  -- that the instruction computes with, and has an edge to it in the shadow graph.
  abbrev pub IsFedBy : ℕ → ℕ → Type 0
  IsFedBy v w = (is_inst ir w ≡ true) × ((o : Opcode) × (n : SNode) × IsAt o n v × FedBy o n v w)

  part_of-source :
      (o : Opcode) (v : ℕ)
      → (part_of ir loop_info more aa dc sdg cur_loop o v ≡ source) ↔ SourceBy o v
  unfolding part_of contains_instruction
  part_of-source load v = ground arith
  part_of-source o v = ground arith

  part_of-operation :
      (o : Opcode) (v : ℕ)
      → (part_of ir loop_info more aa dc sdg cur_loop o v ≡ operation) ↔ OperationBy o v
  unfolding part_of contains_instruction
  part_of-operation load v = ground arith
  part_of-operation o v = ground arith

  part_of-failing :
      (o : Opcode) (v : ℕ) (f : Failure)
      → (part_of ir loop_info more aa dc sdg cur_loop o v ≡ failing f) ↔ UnhandledBy o v f
  unfolding part_of contains_instruction
  part_of-failing load v f = ground arith
  part_of-failing o v f = ground (arith, contains_iff dc.distinct_instructions v)

  kept :
      (n : SNode) (w : ℕ) (xs : List ℕ)
      → w ∈ filter (contains (inverse_edge_units sdg n)) xs
        ↔ ((w ∈ inverse_edge_units sdg n) × (w ∈ xs))
  kept n w xs = ground (
    arith,
    ∈-filter (contains (inverse_edge_units sdg n)) w xs,
    contains_iff (inverse_edge_units sdg n) w,
  )

  pushed_of-FedBy :
      (o : Opcode) (n : SNode) (v w : ℕ)
      → w ∈ pushed_of ir loop_info more aa dc sdg cur_loop o v (inverse_edge_units sdg n)
        ↔ FedBy o n v w
  unfolding pushed_of contains_instruction
  pushed_of-FedBy store n v w = ground (arith, kept n w (ir.value_operand v ∷ []))
  pushed_of-FedBy binary_operator n v w = ground (arith, kept n w (ir.operands v))
  pushed_of-FedBy cmp n v w = ground (arith, kept n w (ir.operands v))
  pushed_of-FedBy get_element_ptr n v w = ground (arith, kept n w (ir.operands v))
  pushed_of-FedBy cast n v w = ground (arith, kept n w (ir.operands v))
  pushed_of-FedBy select n v w = ground (arith, kept n w (ir.operand v 1 ∷ ir.operand v 2 ∷ []))
  pushed_of-FedBy phi n v w = ground (arith, kept n w (ir.incoming_values v))
  pushed_of-FedBy call n v w = ground (arith, contains_iff dc.distinct_instructions v)
  pushed_of-FedBy load n v w = ground arith
  pushed_of-FedBy alloca n v w = ground arith
  pushed_of-FedBy other n v w = ground arith

  part-of :
      (o : Opcode) (n : SNode) (v : ℕ)
      → IsAt o n v
      → part ir loop_info more aa dc sdg cur_loop v
        ≡ part_of ir loop_info more aa dc sdg cur_loop o v
  unfolding part part_at
  part-of o n v (k, q) = rw (k, part) (rw (q, part_at) refl)

  pushed-of :
      (o : Opcode) (n : SNode) (v : ℕ)
      → IsAt o n v
      → pushed ir loop_info more aa dc sdg cur_loop v
        ≡ pushed_of ir loop_info more aa dc sdg cur_loop o v (inverse_edge_units sdg n)
  unfolding pushed pushed_at
  pushed-of o n v (k, q) = rw (k, pushed) (rw (q, pushed_at) refl)

  -- An instruction with a node, or nothing happens at it.
  nothing_or_IsAt :
      (v : ℕ)
      → ((o : Opcode) × (n : SNode) × IsAt o n v)
        ⊎ ((part ir loop_info more aa dc sdg cur_loop v ≡ absent)
            × (pushed ir loop_info more aa dc sdg cur_loop v ≡ []))
  unfolding part pushed part_at pushed_at
  nothing_or_IsAt v = elim (ValueKind-cases (ir.kind v)) [
    | inl k ↦ inr (ground arith, ground arith)
    | inr (inl k) ↦ inr (ground arith, ground arith)
    | inr (inr (inl k)) ↦ inr (ground arith, ground arith)
    | inr (inr (inr (o, k))) ↦ elim (Option-cases (find_node_for sdg v)) [
      | inl q ↦ inr (ground arith, ground arith)
      | inr (n, q) ↦ inl (o, n, (k, q))
    ]
  ]

  -- A part that is not absent is one that a class has.
  part-By :
      (p : Part) (By : Opcode → ℕ → Type 0)
      → p ≢ absent
      → ((o : Opcode) (v : ℕ) → (part_of ir loop_info more aa dc sdg cur_loop o v ≡ p) ↔ By o v)
      → (v : ℕ)
      → (part ir loop_info more aa dc sdg cur_loop v ≡ p)
        ↔ ((o : Opcode) × (n : SNode) × IsAt o n v × By o v)
  part-By p By there each v = (
    λ h. elim (nothing_or_IsAt v) [
      | inl (o, n, at) ↦ (o, n, at, (each o v).0 (sym (part-of o n v at) ∙ h))
      | inr (q, _) ↦ absurd (there (sym h ∙ q))
    ],
    λ (o, n, at, by). part-of o n v at ∙ (each o v).1 by,
  )

  pub part-source : (v : ℕ) → (part ir loop_info more aa dc sdg cur_loop v ≡ source) ↔ IsSource v
  part-source = part-By source SourceBy (λ q. cc q) part_of-source

  pub part-operation :
      (v : ℕ) → (part ir loop_info more aa dc sdg cur_loop v ≡ operation) ↔ IsOperation v
  part-operation = part-By operation OperationBy (λ q. cc q) part_of-operation

  pub part-failing :
      (v : ℕ) (f : Failure)
      → (part ir loop_info more aa dc sdg cur_loop v ≡ failing f) ↔ IsUnhandled v f
  part-failing v f =
      part-By (failing f) (λ o u. UnhandledBy o u f) (λ q. cc q) (λ o u. part_of-failing o u f) v

  pub ∈-pushed :
      (v w : ℕ)
      → ((w ∈ pushed ir loop_info more aa dc sdg cur_loop v) × (not (is_inst ir w) ≡ false))
        ↔ IsFedBy v w
  ∈-pushed v w = (
    λ (m, i). elim (nothing_or_IsAt v) [
      | inl (o, n, at) ↦ (
        ground arith,
        (o, n, at, (pushed_of-FedBy o n v w).0 (subst (λ l. w ∈ l) (pushed-of o n v at) m)),
      )
      | inr (_, q) ↦ absurd (subst (λ l. w ∈ l) q m)
    ],
    λ (i, (o, n, at, fed)). (
      subst (λ l. w ∈ l) (sym (pushed-of o n v at)) ((pushed_of-FedBy o n v w).1 fed),
      ground arith,
    ),
  )
