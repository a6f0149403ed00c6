-- ===== src/Json.antt =====
-- lib/Exchange/JSONTransfer.cpp and include/IteratorRecognition/Exchange/JSONTransfer.hpp: what the
-- analyses find, as JSON.
pub mod Values
pub mod Report
pub mod Results
mod Examples
use Prim.Native.String.{String}
use iterator_recognition.Prelude.{
  ℕ, zero, suc, ◌+◌, ◌-◌, ◌≤◌, ◌<◌, ◌≡◌, refl, sym, ap, ◌∙◌, subst, ◌≢◌, ◌↔◌, ◌⊎◌, inl, inr, Bool,
  true, false, not, ◌&&◌, ◌||◌, Option, none, some, List, [], ◌∷◌, ◌++◌, map, arith, ltb, leb, ◌==◌,
  if◌then◌else◌, ==_iff, ==_refl, Bool-cases, &&_iff, ||_iff, not_iff, Bool-ext, Option-cases,
  length, ◌∈◌, some_member, not_empty, ∈-append, any, all, filter, find?, is_empty, any_intro,
  any_elim, any_iff, all_elim, all_intro, all_iff, ∈-filter, find?_elim, find?-none, ∈-map,
  flat_map, ∈-flat_map, contains, contains_iff, sort, unique, IsSorted, IsAscending, ∈-sort,
  sort-IsSorted, ∈-unique, unique-IsAscending, Above-lt, IsAscending-ext, insert, insert_all, erase,
  ∈-insert, ∈-insert_all, ∈-erase, IsDistinct,
}
use iterator_recognition.Recognition.{NodeRef, LoopsMap, units}
use iterator_recognition.CondensationGraph.{CondensationNode, Condensations}
use iterator_recognition.GraphUpdater.{
  DependenceGraph, UpdateAction, noop, connect, disconnect, update_info,
}
use iterator_recognition.Json.Values.{
  Json, text, num, boolean, array, object, Items, nil, cons, Fields, end, field, ◌>>=◌, traverse,
  items_of,
}

-- `DebugLoc`, where it is not empty: the line and the column, and the name and the file of its scope,
-- if that is a subprogram.
pub record DebugLoc : Type 0 where
  pub line : ℕ
  pub column : ℕ
  pub subprogram : Option (String × String)

-- What the conversions ask of LLVM: the text of an instruction, a loop's latch, if it has exactly one,
-- and the terminator of a block; and where a loop starts, none for the empty location of a loop
-- without debug information.
pub record Printed : Type 0 where
  pub print : ℕ → String
  pub loop_latch : ℕ → Option ℕ
  pub terminator : ℕ → ℕ
  pub start_loc : ℕ → Option DebugLoc

-- lib/Support/Utils/DebugInfo.cpp
pub record LoopDebugInfo : Type 0 where
  pub line : ℕ
  pub column : ℕ
  pub function : String
  pub filename : String

-- The name and the file of the subprogram, and without one two empty texts.
abbrev pub function_and_file : Option (String × String) → String × String
function_and_file none = ("", "")
function_and_file (some named) = named

module _ (io : Printed) where
  -- The scope, the line and the column of an empty location follow a null pointer: none.
  unfoldable pub extract : ℕ → Option LoopDebugInfo
  extract l = elim (io.start_loc l) [
    | none ↦ none
    | some loc ↦ some (record {
      line = loc.line;
      column = loc.column;
      function = (function_and_file loc.subprogram).0;
      filename = (function_and_file loc.subprogram).1;
    })
  ]

  unfoldable pub instruction_json : ℕ → Json
  instruction_json i = text (io.print i)

  unfoldable pub debug_info_json : LoopDebugInfo → Json
  debug_info_json info = object (
      field "line" (num info.line) (
        field "column" (num info.column)
          (field "function" (text info.function) (field "filename" (text info.filename) end))))

  -- A null latch is followed: none.
  unfoldable pub loop_json : ℕ → Option Json
  unfolding extract debug_info_json
  loop_json l = do
    latch ← io.loop_latch l
    info ← extract l
    some (
        object (
          field "latch" (text (io.print (io.terminator latch)))
            (field "di" (debug_info_json info) end)))

  module _ (unit : ℕ → Option ℕ) where
    unfoldable pub condensation_json : CondensationNode → Json
    unfolding units
    condensation_json cn = array (items_of (map (λ u. text (io.print u)) (units unit cn.nodes)))

    unfoldable pub node_json : CondensationNode → Json
    unfolding condensation_json
    node_json cn = object (field "condensation" (condensation_json cn) end)

    unfoldable pub graph_json : Condensations → Json
    unfolding node_json
    graph_json cg = object (field "condensations" (array (items_of (map node_json cg.nodes))) end)

    -- The object of the condensation, and its loops.
    unfoldable pub entry_json : NodeRef × List ℕ → Option Json
    unfolding condensation_json loop_json
    entry_json (cn, loops) = do
      loops_array ← traverse loop_json loops
      some (
          object (
            field "condensation" (condensation_json cn.1)
              (field "loops" (array (items_of loops_array)) end)))

    unfoldable pub map_json : LoopsMap → Option Json
    unfolding entry_json
    map_json m = do
      condensations ← traverse entry_json m
      some (object (field "condensations" (array (items_of condensations)) end))

  -- A loop, whether it is commutative, and the remark.
  unfoldable pub property_json : ℕ × Bool × String → Option Json
  unfolding loop_json
  property_json (l, commutative, remark) = do
    loop ← loop_json l
    some (
        object (
          field "loop" loop
            (field "commutative" (boolean commutative) (field "remark" (text remark) end))))

  unfoldable pub result_json : List (ℕ × Bool × String) → Option Json
  unfolding property_json
  result_json ps = do
    loops ← traverse property_json ps
    some (object (field "static commutativity" (array (items_of loops)) end))

  module _ (dg : DependenceGraph) (unit : ℕ → Option ℕ) where
    -- The ends of an edit, by their nodes, and its remark. A null unit is followed: none.
    unfoldable pub edit_json : ℕ → ℕ → String → Option Json
    edit_json src dst remark = do
      src_unit ← unit src
      dst_unit ← unit dst
      some (
          object (
            field "src" (text (io.print src_unit))
              (field "dst" (text (io.print dst_unit)) (field "remark" (text remark) end))))

    unfoldable pub noop_json : ℕ → ℕ → Option Json
    unfolding edit_json
    noop_json src dst = edit_json src dst "unknown relation"

    unfoldable pub connect_json : ℕ → ℕ → Option Json
    unfolding edit_json
    connect_json src dst = edit_json src dst "connect"

    unfoldable pub disconnect_json : ℕ → ℕ → Option Json
    unfolding edit_json
    disconnect_json src dst = edit_json src dst "disconnect"

    unfoldable pub update_info_json : ℕ → ℕ → Option Json
    unfolding edit_json
    update_info_json src dst = edit_json src dst "update info"

    unfoldable pub action_json : UpdateAction dg → Option Json
    unfolding noop_json connect_json disconnect_json update_info_json
    action_json (noop src dst) = noop_json src dst
    action_json (connect src dst info) = connect_json src dst
    action_json (disconnect src dst) = disconnect_json src dst
    action_json (update_info src dst info) = update_info_json src dst

    -- `ConvertToJSON`, of a loop and edits.
    unfoldable pub convert_to_json : String → String → ℕ → List (UpdateAction dg) → Option Json
    unfolding loop_json action_json
    convert_to_json preamble_text sequence_text l actions = do
      preamble ← loop_json l
      updates ← traverse action_json actions
      some (
          object
            (field preamble_text preamble (field sequence_text (array (items_of updates)) end)))
