-- ===== src/Json/Results.antt =====
-- The report of the verdicts, read back.
use Prim.Native.String.{String}
use iterator_recognition.Prelude.{ℕ, refl, Bool, Option, none, some, List}
use iterator_recognition.Json.{Printed, loop_json, property_json, result_json}
use iterator_recognition.Json.Values.{
  Json, boolean, array, object, Items, nil, cons, Fields, end, field, ◌>>=◌, traverse, items_of,
}
use iterator_recognition.Json.Values
use iterator_recognition.Json.Report.{
  get, get_text, get_array, list_of-items_of, LoopText, read_loop, Reads, ReadsAll, traverse-Reads,
  loop_text, loop_json-Reads,
}

abbrev get_boolean : Json → Option Bool
get_boolean (boolean b) = some b
get_boolean _ = none

abbrev pub PropertyText : Type 0
PropertyText = LoopText × Bool × String

read_property : Json → Option PropertyText
unfolding read_loop
read_property j = do
  loop ← get "loop" j >>= read_loop
  commutative ← get "commutative" j >>= get_boolean
  remark ← get "remark" j >>= get_text
  some (loop, commutative, remark)

unfoldable pub read_result : Json → Option (List PropertyText)
unfolding traverse read_property
read_result j = get "static commutativity" j >>= get_array >>= traverse read_property

module _ (io : Printed) where
  abbrev pub property_text : ℕ × Bool × String → Option PropertyText
  property_text (l, commutative, remark) = loop_text io l >>= λ t. some (t, commutative, remark)

  property_json-Reads :
      (p : ℕ × Bool × String) → Reads read_property (property_json io p) (property_text p)
  unfolding property_json read_property
  property_json-Reads (l, commutative, remark) =
      go (loop_json io l) (loop_text io l) (loop_json-Reads io l)
    where
      go :
          (o : Option Json) (s : Option LoopText)
          → Reads read_loop o s
          → Reads read_property
              (o >>= λ loop. some (
                object (
                  field "loop" loop (
                    field "commutative"
                      (boolean commutative)
                      (field "remark" (Values.text remark) end)))))
              (s >>= λ t. some (t, commutative, remark))
      go none none h = tt
      go (some j) (some t) h = rw h refl
      go none (some t) h = absurd h
      go (some j) none h = absurd h

  -- The report of the verdicts fails exactly where one of the loops does not have one latch or has
  -- no debug location, and else
  -- it can be read back: each loop, in order, its verdict, and its remark.
  pub result_json-Reads :
      (ps : List (ℕ × Bool × String))
      → Reads read_result (result_json io ps) (traverse property_text ps)
  unfolding result_json read_result
  result_json-Reads ps =
      go (traverse (property_json io) ps) (traverse property_text ps)
        (traverse-Reads read_property (property_json io) property_text property_json-Reads ps)
    where
      go :
          (os : Option (List Json)) (ss : Option (List PropertyText))
          → ReadsAll read_property os ss
          → Reads read_result
              (os >>= λ js. some (object (field "static commutativity" (array (items_of js)) end)))
              ss
      go none none h = tt
      go (some js) (some ts) h = rw (list_of-items_of js) h
      go none (some ts) h = absurd h
      go (some js) none h = absurd h
