-- ===== src/Classification/Examples.antt =====
-- The selection of the basic views alone.
use iterator_recognition.Prelude.{◌≡◌, refl, ◌↔◌, ◌⊎◌, true, false}
use iterator_recognition.Classification.{
  basic, standard, more, all_views, Views, is_set, check_and_set_cmd_line_options,
}
use iterator_recognition.Classification.Options.{check_and_set_cmd_line_options_lem}

abbrev only_basic : Views
only_basic = record { has_basic = true; has_standard = false; has_more = false; has_all = false }

-- It selects the further views as well.
basic_selects_more : is_set (check_and_set_cmd_line_options false only_basic) more ≡ true
unfolding check_and_set_cmd_line_options
basic_selects_more = refl

check_and_set_cmd_line_options_lem_example :
    (check_and_set_cmd_line_options true only_basic ≡ only_basic)
    × (is_set (check_and_set_cmd_line_options false only_basic) basic ≡ true)
    × (is_set (check_and_set_cmd_line_options false only_basic) standard ≡ true)
    × ((is_set (check_and_set_cmd_line_options false only_basic) more ≡ true)
        ↔ ((is_set only_basic more ≡ true) ⊎ (is_set only_basic standard ≡ false)))
    × (is_set (check_and_set_cmd_line_options false only_basic) all_views
        ≡ is_set only_basic all_views)
check_and_set_cmd_line_options_lem_example = check_and_set_cmd_line_options_lem only_basic
