-- ===== src/Json/Report.antt =====
-- The report of the condensations and their loops, read back.
use Prim.Native.String.{String}
use text.Mathlib.Text.{◌==◌ as str_eq}
use iterator_recognition.Prelude.{
  ℕ, ◌≡◌, refl, ap, inl, inr, Option, none, some, List, [], ◌∷◌, map, arith, if◌then◌else◌,
  Option-cases,
}
use iterator_recognition.Recognition.{NodeRef, LoopsMap, units}
use iterator_recognition.Json.{
  Printed, DebugLoc, LoopDebugInfo, function_and_file, extract, debug_info_json, loop_json,
  condensation_json, entry_json, map_json,
}
use iterator_recognition.Json.Values.{
  Json, boolean, array, object, Items, nil, cons, Fields, end, field, ◌>>=◌, traverse, items_of,
}
use iterator_recognition.Json.Values

-- A reader of the report.
abbrev pub list_of : Items → List Json
list_of nil = []
list_of (cons x xs) = x ∷ list_of xs

abbrev pub get_field : String → Fields → Option Json
get_field k end = none
get_field k (field j v fs) = if str_eq j k then some v else get_field k fs

abbrev pub get : String → Json → Option Json
get k (object fs) = get_field k fs
get k _ = none

abbrev pub get_text : Json → Option String
get_text (Values.text s) = some s
get_text _ = none

abbrev get_num : Json → Option ℕ
get_num (Values.num n) = some n
get_num _ = none

abbrev pub get_array : Json → Option (List Json)
get_array (array xs) = some (list_of xs)
get_array _ = none

pub list_of-items_of : (xs : List Json) → list_of (items_of xs) ≡ xs
list_of-items_of [] = refl
list_of-items_of (x ∷ xs) = ap (λ ys. x ∷ ys) (list_of-items_of xs)

read_debug_info : Json → Option LoopDebugInfo
read_debug_info j = do
  line ← get "line" j >>= get_num
  column ← get "column" j >>= get_num
  function ← get "function" j >>= get_text
  filename ← get "filename" j >>= get_text
  some (record { line = line; column = column; function = function; filename = filename })

-- What the report says of a loop.
abbrev pub LoopText : Type 0
LoopText = String × LoopDebugInfo

unfoldable pub read_loop : Json → Option LoopText
unfolding read_debug_info
read_loop j = do
  latch ← get "latch" j >>= get_text
  info ← get "di" j >>= read_debug_info
  some (latch, info)

read_entry : Json → Option (List String × List LoopText)
unfolding traverse read_loop
read_entry j = do
  members ← get "condensation" j >>= get_array >>= traverse get_text
  loops ← get "loops" j >>= get_array >>= traverse read_loop
  some (members, loops)

unfoldable pub read_report : Json → Option (List (List String × List LoopText))
unfolding traverse read_entry
read_report j = get "condensations" j >>= get_array >>= traverse read_entry

-- A conversion that fails where its specification is none, and else is read back as it.
abbrev pub Reads : {A : Type 0} → (Json → Option A) → Option Json → Option A → Type 0
Reads read none none = Unit
Reads read (some j) (some a) = read j ≡ some a
Reads read _ _ = ⊥

-- The same for lists.
abbrev pub ReadsAll :
    {A : Type 0} → (Json → Option A) → Option (List Json) → Option (List A) → Type 0
ReadsAll read none none = Unit
ReadsAll read (some js) (some as') = traverse read js ≡ some as'
ReadsAll read _ _ = ⊥

pub traverse-Reads :
    {A B : Type 0} (read : Json → Option B) (f : A → Option Json) (spec : A → Option B)
    → ((a : A) → Reads read (f a) (spec a))
    → (xs : List A) → ReadsAll read (traverse f xs) (traverse spec xs)
unfolding traverse
traverse-Reads read f spec each [] = refl
traverse-Reads {A} {B} read f spec each (x ∷ xs) =
    go (f x) (spec x) (traverse f xs) (traverse spec xs) (each x)
      (traverse-Reads read f spec each xs)
  where
    go :
        (o : Option Json) (s : Option B) (os : Option (List Json)) (ss : Option (List B))
        → Reads read o s
        → ReadsAll read os ss
        → ReadsAll read
            (o >>= λ y. os >>= λ ys. some (y ∷ ys))
            (s >>= λ y. ss >>= λ ys. some (y ∷ ys))
    go none none os ss h k = tt
    go (some j) (some b) none none h k = tt
    go (some j) (some b) (some js) (some bs) h k = ground (arith, h, k)
    go none (some b) os ss h k = absurd h
    go (some j) none os ss h k = absurd h
    go (some j) (some b) none (some bs) h k = absurd k
    go (some j) (some b) (some js) none h k = absurd k

traverse-texts :
    (print : ℕ → String) (us : List ℕ)
    → traverse get_text (map (λ u. Values.text (print u)) us) ≡ some (map print us)
unfolding traverse
traverse-texts print [] = refl
traverse-texts print (u ∷ us) = ground (arith, traverse-texts print us)

module _ (io : Printed) where
  -- Where a loop stands, as its location says: the name and the file of the subprogram around it, or
  -- two empty texts.
  abbrev pub place_of : DebugLoc → LoopDebugInfo
  place_of loc = elim loc.subprogram [
    | none ↦ record { line = loc.line; column = loc.column; function = ""; filename = "" }
    | some (name, file) ↦ record {
      line = loc.line;
      column = loc.column;
      function = name;
      filename = file;
    }
  ]

  -- What there is to say of a loop, if it has one latch and a location: the text of its latch's
  -- terminator, and where it stands.
  abbrev pub loop_text : ℕ → Option LoopText
  loop_text l = elim (io.loop_latch l) [
    | none ↦ none
    | some latch ↦ elim (io.start_loc l) [
      | none ↦ none
      | some loc ↦ some (io.print (io.terminator latch), place_of loc)
    ]
  ]

  pub loop_json-Reads : (l : ℕ) → Reads read_loop (loop_json io l) (loop_text l)
  unfolding loop_json extract read_loop read_debug_info debug_info_json
  loop_json-Reads l = elim (Option-cases (io.loop_latch l)) [
    | inl e ↦ rw (e, loop_json, loop_text) tt
    | inr (latch, e) ↦ elim (Option-cases (io.start_loc l)) [
      | inl q ↦ rw (e, loop_json, loop_text) (rw (q, loop_json, extract, loop_text) tt)
      | inr (loc, q) ↦ elim (Option-cases loc.subprogram) [
        | inl p ↦
            rw (e, loop_json, loop_text)
              (rw (q, loop_json, extract, loop_text) (rw (p, place_of, function_and_file) refl))
        | inr (named, p) ↦
            rw (e, loop_json, loop_text)
              (rw (q, loop_json, extract, loop_text) (rw (p, place_of, function_and_file) refl))
      ]
    ]
  ]

module _ (io : Printed) (unit : ℕ → Option ℕ) where
  -- The texts of a condensation's instructions, and its loops.
  abbrev pub entry_text : NodeRef × List ℕ → Option (List String × List LoopText)
  entry_text (cn, loops) =
      traverse (loop_text io) loops >>= λ texts. some (map io.print (units unit cn.1.nodes), texts)

  entry_json-Reads : (e : NodeRef × List ℕ) → Reads read_entry (entry_json io unit e) (entry_text e)
  unfolding entry_json read_entry condensation_json
  entry_json-Reads (cn, loops) =
      go (traverse (loop_json io) loops) (traverse (loop_text io) loops)
        (traverse-Reads read_loop (loop_json io) (loop_text io) (loop_json-Reads io) loops)
    where
      go :
          (os : Option (List Json)) (ss : Option (List LoopText))
          → ReadsAll read_loop os ss
          → Reads read_entry
              (os >>= λ js. some (
                object (
                  field "condensation"
                    (condensation_json io unit cn.1)
                    (field "loops" (array (items_of js)) end))))
              (ss >>= λ ts. some (map io.print (units unit cn.1.nodes), ts))
      go none none h = tt
      go (some js) (some ts) h =
          let us = units unit cn.1.nodes in
          rw
            (
              list_of-items_of (map (λ u. Values.text (io.print u)) us),
              traverse-texts io.print us,
              list_of-items_of js,
              h,
            )
            refl
      go none (some ts) h = absurd h
      go (some js) none h = absurd h

  -- The report of the condensations and their loops fails exactly where one of the loops does not have
  -- one latch or has no debug location, and else it can be read back: for each condensation, in order, the texts of its
  -- instructions, and for each of its loops the text of its latch's terminator, and where it stands.
  pub map_json-Reads :
      (m : LoopsMap) → Reads read_report (map_json io unit m) (traverse entry_text m)
  unfolding map_json read_report
  map_json-Reads m =
      go (traverse (entry_json io unit) m) (traverse entry_text m)
        (traverse-Reads read_entry (entry_json io unit) entry_text entry_json-Reads m)
    where
      go :
          (os : Option (List Json)) (ss : Option (List (List String × List LoopText)))
          → ReadsAll read_entry os ss
          → Reads read_report
              (os >>= λ js. some (object (field "condensations" (array (items_of js)) end)))
              ss
      go none none h = tt
      go (some js) (some ts) h = rw (list_of-items_of js) h
      go none (some ts) h = absurd h
      go (some js) none h = absurd h
