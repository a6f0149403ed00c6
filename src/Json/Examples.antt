-- ===== src/Json/Examples.antt =====
-- A condensation of the nodes 0 and 1, of which 1 stands for the instruction 21, in a loop 7.
use iterator_recognition.Prelude.{
  ℕ, ◌||◌, ◌≡◌, refl, true, Option, none, some, [], ◌∷◌, ◌==◌, if◌then◌else◌,
}
use iterator_recognition.CondensationGraph.{CondensationNode}
use iterator_recognition.Recognition.{LoopsMap, units}
use iterator_recognition.Json.{Printed, LoopDebugInfo, extract, result_json, map_json}
use iterator_recognition.Json.Values.{traverse}
use iterator_recognition.Json.Report.{read_report, Reads, entry_text, map_json-Reads}
use iterator_recognition.Json.Results.{read_result, property_text, result_json-Reads}

abbrev io : Printed
io = record {
  print = λ i. if i == 21 then "%a = load i32, i32* %p" else "br label %exit";
  loop_latch = λ l. if l == 7 || l == 9 then some 3 else none;
  terminator = λ b. 30;
  start_loc = λ l.
      if l == 9
      then none
      else some (record { line = 12; column = 5; subprogram = some ("main", "a.c") });
}

abbrev unit_of : ℕ → Option ℕ
unit_of n = if n == 1 then some 21 else none

abbrev nodes : CondensationNode
nodes = record { nodes = 0 ∷ 1 ∷ []; out_edges = []; in_edges = [] }

abbrev in_loop : ℕ → LoopsMap
in_loop l = ((0, nodes), l ∷ []) ∷ []

-- The loop 8 does not have one latch.
no_report : map_json io unit_of (in_loop 8) ≡ none
unfolding map_json traverse
no_report = refl

-- The loop 9 has no debug location.
no_location : map_json io unit_of (in_loop 9) ≡ none
unfolding map_json traverse
no_location = refl

abbrev loop_data : LoopDebugInfo
loop_data = record { line = 12; column = 5; function = "main"; filename = "a.c" }

report_described :
    traverse (entry_text io unit_of) (in_loop 7)
    ≡ some (("%a = load i32, i32* %p" ∷ [], ("br label %exit", loop_data) ∷ []) ∷ [])
unfolding traverse units extract
report_described = refl

map_json-Reads_example :
    Reads read_report
      (map_json io unit_of (in_loop 7))
      (traverse (entry_text io unit_of) (in_loop 7))
map_json-Reads_example = map_json-Reads io unit_of (in_loop 7)

result_json-Reads_example :
    Reads read_result
      (result_json io ((7, true, "due to operations") ∷ []))
      (traverse (property_text io) ((7, true, "due to operations") ∷ []))
result_json-Reads_example = result_json-Reads io ((7, true, "due to operations") ∷ [])
