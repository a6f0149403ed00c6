-- ===== src/PayloadDependenceGraph/Samples.antt =====
-- A loop with an iterator 20, a load 21, a sum 22 of both, and a store 23 of the sum.
use iterator_recognition.Prelude.{
  ℕ, ◌<◌, ◌≡◌, refl, sym, ap, Bool, true, false, not, ◌||◌, Option, none, some, List, [], ◌∷◌,
  arith, ◌==◌, if◌then◌else◌, filter,
}
use iterator_recognition.Ir.{Ir, LoopInfo, instruction, Opcode}
use iterator_recognition.Recognition.{IteratorInfo}
use iterator_recognition.Variance.{IteratorVarianceValue, variant, unknown}
use iterator_recognition.DependenceCache.{AliasAnalysis}
use iterator_recognition.GraphUpdater.{DependenceGraph}
use iterator_recognition.GraphUpdater.Restore.{same_edge, IsEdited}
use iterator_recognition.ShadowDependenceGraph.{SourceGraph}
use iterator_recognition.DetectOperations.{CallsAndPhis}
use iterator_recognition.PayloadDependenceGraph.{PassInput}

-- Flags: whether a dependence is through memory, and whether it is another one.
abbrev pub Flags : Type 0
Flags = Bool × Bool

abbrev pub with_edge : (ℕ → ℕ → Option Flags) → ℕ → ℕ → Option Flags → ℕ → ℕ → Option Flags
with_edge g s d o x y = if same_edge s d x y then o else g x y

abbrev pub is_edge : Option Flags → Bool
is_edge none = false
is_edge (some i) = true

abbrev pub edges : DependenceGraph
edges = record {
  Graph = ℕ → ℕ → Option Flags;
  EdgeInfo = Flags;
  get_edge_info = λ g x y. g x y;
  has_edge_with = λ g x y. is_edge (g x y);
  add_dependent_node = λ g s d i. with_edge g s d (some i);
  remove_dependent_node = λ g s d. with_edge g s d none;
  set_edge_info = λ g s d i. with_edge g s d (some i);
  is_set = λ i. i.0 || i.1;
  memory_part = λ i. (i.0, false);
  without_memory = λ i. (false, i.1);
  get_node = λ v. v;
  determine_hazard = λ s d. (true, false);
}

pub no_edge : (o : Option Flags) → is_edge o ≡ false → o ≡ none
no_edge none h = refl
no_edge (some i) h = absurd (ground arith)

pub edges_laws : IsEdited edges
edges_laws = record {
  add_edge = λ g s d x y i h. refl;
  remove_edge = λ g s d x y. refl;
  set_edge = λ g s d x y i h. refl;
  has_edge = λ g s d h. no_edge (g s d) h;
  only_memory = λ i h. ap (λ (b : Bool). (i.0, b)) (sym h);
}

abbrev pub start : ℕ → ℕ → Option Flags
start =
    with_edge
      (with_edge (with_edge (λ x y. none) 21 22 (some (false, true))) 22 23 (some (false, true))) 21
      23 (some (true, false))

abbrev pub insts_of_loop : List ℕ
insts_of_loop = 20 ∷ 21 ∷ 22 ∷ 23 ∷ []

abbrev pub ir : Ir
ir = record {
  kind = λ v. instruction (
      if v == 21
      then Opcode.load
      else if v == 23
      then Opcode.store
      else if v == 22
      then Opcode.binary_operator
      else Opcode.other);
  operands = λ v. if v == 22 then 21 ∷ 20 ∷ [] else [];
  operand = λ v n. 0;
  pointer_operand = λ v. 0;
  value_operand = λ v. 22;
  incoming_values = λ v. [];
  indices = λ v. [];
  users = λ v. [];
  parent = λ i. 1;
  insts = λ b. insts_of_loop;
  may_read_from_memory = λ v. v == 21;
  may_write_to_memory = λ v. v == 23;
  is_binary_op = λ v. v == 22;
  is_unary_instruction = λ v. false;
}

pub no_parent : (l p : ℕ) → none ≡ some p → 1 < 1
no_parent l p e = absurd (cc)

abbrev pub loops : LoopInfo
loops = record {
  loop_for = λ b. some 7;
  parent_loop = λ l. none;
  loop_depth = λ l. 1;
  parent_loop_depth = no_parent;
  loops_in_preorder = 7 ∷ 8 ∷ [];
  header = λ l. 1;
  is_loop_latch = λ l b. true;
  blocks = λ l. 1 ∷ [];
  sub_loops = λ l. [];
  contains_inst = λ l i. true;
  contains_loop = λ l m. false;
}

abbrev pub more : CallsAndPhis
more = record { arg_operands = λ v. []; has_incoming_block = λ v b. false }

abbrev pub effects : AliasAnalysis
effects = record {
  ModRefInfo = Bool × Bool;
  get_mod_ref_info = λ i j. (true, true);
  is_mod_set = λ m. m.0;
  is_no_mod_ref = λ m. not (m.0 || m.1);
}

abbrev pub view_of : (ℕ → ℕ → Option Flags) → SourceGraph
view_of g = record {
  nodes = insts_of_loop;
  unit = λ n. n;
  children = λ n. filter (λ m. is_edge (g n m)) insts_of_loop;
  get_node = λ u. u;
  edge_has_memory = λ a b. elim (g a b) [ none ↦ none | some i ↦ some i.0 ];
}

abbrev pub input : PassInput edges
input = record {
  blocks_rpo = λ l. 1 ∷ [];
  dominates = λ a b. false;
  loop_depth_min = 1;
  loop_depth_max = 3;
  view = view_of;
}

abbrev pub iterator : IteratorInfo
iterator = record { cur_loop = 7; cur_instructions = 20 ∷ [] }

abbrev pub variance : IteratorInfo → ℕ → IteratorVarianceValue
variance info v = if v == 21 || v == 23 then variant else unknown
