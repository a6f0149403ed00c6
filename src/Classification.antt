-- ===== src/Classification.antt =====
-- lib/Analysis/Passes/ValueClassificationPass.cpp: the options of the pass that prints the
-- classification of values.
mod Options
mod Examples
use iterator_recognition.Prelude.{Bool, true, false, not, ◌||◌}

pub data ViewSelection : Type 0 where
  basic standard more all_views : ViewSelection

-- `llvm::cl::bits`: which of the values are set.
pub record Views : Type 0 where
  pub has_basic : Bool
  pub has_standard : Bool
  pub has_more : Bool
  pub has_all : Bool

unfoldable pub is_set : Views → ViewSelection → Bool
is_set v basic = v.has_basic
is_set v standard = v.has_standard
is_set v more = v.has_more
is_set v all_views = v.has_all

unfoldable pub add_value : ViewSelection → Views → Views
add_value basic v = record v { has_basic = true }
add_value standard v = record v { has_standard = true }
add_value more v = record v { has_more = true }
add_value all_views v = record v { has_all = true }

-- Whether `getBits` is not zero.
unfoldable pub has_bits : Views → Bool
has_bits v = v.has_basic || v.has_standard || v.has_more || v.has_all

-- `checkAndSetCmdLineOptions`, where the first argument tells whether a disposition query was given.
unfoldable pub check_and_set_cmd_line_options : Bool → Views → Views
unfolding is_set add_value has_bits
check_and_set_cmd_line_options true v = v
check_and_set_cmd_line_options false v =
    let chosen : Views = elim (has_bits v) [ true ↦ v | false ↦ add_value basic v ] in
    elim (is_set chosen standard) [
      | true ↦ add_value basic chosen
      | false ↦ elim (is_set chosen more) [
        | true ↦ add_value standard (add_value basic chosen)
        | false ↦ add_value more (add_value standard (add_value basic chosen))
      ]
    ]
