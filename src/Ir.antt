-- ===== src/Ir.antt =====
-- What the passes ask of LLVM and of Pedigree about the function at hand. Both are libraries
-- outside the repository, so each query is a field that the definitions take as a parameter.
-- Pointers are numbers: a value, an instruction, a block, a loop and a graph node are addresses.
use iterator_recognition.Prelude.{ℕ, ◌<◌, ◌≡◌, Bool, true, false, Option, some, List}

-- The instruction classes that the sources tell apart by `dyn_cast`.
pub data Opcode : Type 0 where
  load store select phi binary_operator cmp cast get_element_ptr call alloca other : Opcode

-- The value classes that the sources tell apart by `isa` and `dyn_cast`.
pub data ValueKind : Type 0 where
  constant argument unhandled : ValueKind
  instruction : Opcode → ValueKind

abbrev pub is_instruction : ValueKind → Bool
is_instruction (instruction o) = true
is_instruction constant = false
is_instruction argument = false
is_instruction unhandled = false

pub record Ir : Type 0 where
  -- The class of a value.
  pub kind : ℕ → ValueKind
  -- `operands()`, `getOperand(i)`, and the operands that have a name in their class.
  pub operands : ℕ → List ℕ
  pub operand : ℕ → ℕ → ℕ
  pub pointer_operand : ℕ → ℕ
  pub value_operand : ℕ → ℕ
  pub incoming_values : ℕ → List ℕ
  pub indices : ℕ → List ℕ
  -- `getUser()` of each of the `uses()`.
  pub users : ℕ → List ℕ
  -- `getParent()`, and the instructions of a basic block.
  pub parent : ℕ → ℕ
  pub insts : ℕ → List ℕ
  pub may_read_from_memory : ℕ → Bool
  pub may_write_to_memory : ℕ → Bool
  -- `isBinaryOp()` and `isa<UnaryInstruction>`.
  pub is_binary_op : ℕ → Bool
  pub is_unary_instruction : ℕ → Bool

-- `dyn_cast<Instruction>(v)` is not null.
abbrev pub is_inst : Ir → ℕ → Bool
is_inst ir v = is_instruction (ir.kind v)

-- `llvm::LoopInfo` and the loops of it.
pub record LoopInfo : Type 0 where
  pub loop_for : ℕ → Option ℕ
  pub parent_loop : ℕ → Option ℕ
  pub loop_depth : ℕ → ℕ
  -- A nested loop is deeper than the loop around it.
  pub parent_loop_depth : (l p : ℕ) → parent_loop l ≡ some p → loop_depth p < loop_depth l
  pub loops_in_preorder : List ℕ
  pub header : ℕ → ℕ
  pub is_loop_latch : ℕ → ℕ → Bool
  pub blocks : ℕ → List ℕ
  pub sub_loops : ℕ → List ℕ
  -- `L->contains(I)` for an instruction, `L->contains(M)` for a loop.
  pub contains_inst : ℕ → ℕ → Bool
  pub contains_loop : ℕ → ℕ → Bool
