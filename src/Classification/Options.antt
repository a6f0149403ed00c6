-- ===== src/Classification/Options.antt =====
-- Which views are selected once the options are checked.
use iterator_recognition.Prelude.{◌≡◌, ◌↔◌, ◌⊎◌, true, false, arith}
use iterator_recognition.Classification.{
  basic, standard, more, all_views, Views, is_set, check_and_set_cmd_line_options,
}

-- With a disposition query, the selection stays as it is. Without one, the basic and the standard views
-- are always selected; the further ones are, exactly when they were or the standard ones were not; and
-- the selection of all views stays as it is.
pub check_and_set_cmd_line_options_lem :
    (v : Views)
    → (check_and_set_cmd_line_options true v ≡ v)
      × (is_set (check_and_set_cmd_line_options false v) basic ≡ true)
      × (is_set (check_and_set_cmd_line_options false v) standard ≡ true)
      × ((is_set (check_and_set_cmd_line_options false v) more ≡ true)
          ↔ ((is_set v more ≡ true) ⊎ (is_set v standard ≡ false)))
      × (is_set (check_and_set_cmd_line_options false v) all_views ≡ is_set v all_views)
unfolding check_and_set_cmd_line_options
check_and_set_cmd_line_options_lem v = ground arith
