-- ===== src/DispositionTracker.antt =====
-- include/IteratorRecognition/Analysis/DispositionTracker.hpp and
-- lib/Analysis/DispositionTracker.cpp: whether an access varies with a loop's iterator, by the indices
-- of the address computations on it.
pub mod Nest
pub mod Parts
pub mod Exact
mod Examples
use mathlib.Core.WellFounded.{Acc}
use iterator_recognition.Prelude.{
  ℕ, zero, suc, ◌+◌, ◌-◌, ◌≤◌, ◌<◌, ◌≡◌, refl, sym, ap, ◌∙◌, subst, ◌≢◌, ◌↔◌, ◌⊎◌, inl, inr, Bool,
  true, false, not, ◌&&◌, ◌||◌, Option, none, some, List, [], ◌∷◌, ◌++◌, map, arith, ltb, leb, ◌==◌,
  if◌then◌else◌, ==_iff, ==_refl, Bool-cases, &&_iff, ||_iff, not_iff, Bool-ext, Option-cases,
  length, ◌∈◌, ∈-append, any, all, filter, find?, is_empty, any_intro, any_elim, any_iff, all_elim,
  all_intro, all_iff, ∈-filter, find?_elim, find?-none, ∈-map, flat_map, ∈-flat_map, contains,
  contains_iff, sort, unique, IsSorted, IsAscending, ∈-sort, sort-IsSorted, ∈-unique,
  unique-IsAscending, Above-lt, IsAscending-ext, insert, insert_all, erase, ∈-insert, ∈-insert_all,
  ∈-erase, IsDistinct,
}
use iterator_recognition.Ir.{
  Ir, LoopInfo, is_inst, ValueKind, Opcode, constant, argument, unhandled, instruction,
  get_element_ptr,
}
use iterator_recognition.Recognition.{
  IteratorInfo, is_iterator, get_iterator_info_for, IsParent, nest_wf,
}
use iterator_recognition.ValueClassification.{find_payload_values}
use iterator_recognition.Worklist.{
  Action, stop, go, small_vector, push_back_all, nothing_skipped, loop,
}

pub data AccessDisposition : Type 0 where
  unknown invariant variant : AccessDisposition

-- `TopL` and `Infos`.
pub record DispositionTracker : Type 0 where
  pub top_loop : Option ℕ
  pub infos : List IteratorInfo

abbrev is_gep : ValueKind → Bool
is_gep (instruction get_element_ptr) = true
is_gep (instruction o) = false
is_gep constant = false
is_gep argument = false
is_gep unhandled = false

abbrev is_some_of : Option ℕ → ℕ → Bool
is_some_of none l = false
is_some_of (some k) l = k == l

module _ (ir : Ir) (li : LoopInfo) where
  -- `while (topL->getParentLoop()) topL = topL->getParentLoop();`
  unfoldable pub top_from : (l : ℕ) → Acc (IsParent li) l → ℕ
  top_from l (Acc.intro _ outer) = elim (Option-cases (li.parent_loop l)) [
    | inl e ↦ l
    | inr (p, e) ↦ top_from p (outer p e)
  ]

  unfoldable pub top_of : ℕ → ℕ
  unfolding top_from nest_wf
  top_of l = top_from l (nest_wf li l)

  -- The loop that fills `Infos`; none, where a loop has no information.
  unfoldable pub infos_within : List IteratorInfo → ℕ → List ℕ → Option (List IteratorInfo)
  unfolding get_iterator_info_for
  infos_within known top [] = some []
  infos_within known top (e ∷ es) =
      let rest = infos_within known top es in
      if contains (li.blocks top) (li.header e)
      then elim (get_iterator_info_for known e) [
        | none ↦ none
        | some info ↦ elim rest [ none ↦ none | some infos ↦ some (info ∷ infos) ]
      ]
      else rest

  -- `init`, over the information of `ITRInfo`; with whether it filled `Infos` anew.
  unfoldable pub init :
      List IteratorInfo → ℕ → DispositionTracker → Option (DispositionTracker × Bool)
  unfolding top_of infos_within
  init known cur t =
      if is_some_of t.top_loop (top_of cur)
      then some (t, false)
      else elim (infos_within known (top_of cur) li.loops_in_preorder) [
        | none ↦ none
        | some infos ↦ some (record { top_loop = some (top_of cur); infos = infos }, true)
      ]

  unfoldable pub tracks_iterator : List IteratorInfo → ℕ → ℕ → Bool → Bool
  unfolding is_iterator
  tracks_iterator infos i cur with_sub_loops =
      if with_sub_loops
      then any (λ e. (cur == e.cur_loop || li.contains_loop cur e.cur_loop) && is_iterator e i)
          infos
      else any (λ e. e.cur_loop == cur && is_iterator e i) infos

  -- `geps`, of the users of the query.
  unfoldable pub payload_geps : List ℕ → List ℕ → List ℕ → List ℕ
  unfolding insert
  payload_geps payload [] geps = geps
  payload_geps payload (u ∷ us) geps =
      payload_geps payload us
        (if is_gep (ir.kind u) && contains payload u then insert u geps else geps)

  -- The indices of the address computations, those that are instructions.
  unfoldable pub index_insts : List ℕ → List ℕ
  index_insts geps = flat_map (λ u. filter (is_inst ir) (ir.indices u)) geps

  unfoldable pub next : ℕ → List ℕ
  next v = filter (is_inst ir) (ir.operands v)

  unfoldable pub visit :
      List IteratorInfo → ℕ → Bool → ℕ → AccessDisposition → Action AccessDisposition
  unfolding tracks_iterator
  visit infos cur with_sub_loops v d =
      if tracks_iterator infos v cur with_sub_loops then stop variant else go d

  -- The geps, and the search from their indices.
  unfoldable pub search_geps : ℕ → List IteratorInfo → ℕ → Bool → List ℕ → Option AccessDisposition
  unfolding loop push_back_all next visit index_insts
  search_geps fuel infos cur with_sub_loops geps =
      if is_empty geps
      then some invariant
      else loop small_vector nothing_skipped next (visit infos cur with_sub_loops) fuel
          (push_back_all (index_insts geps) []) [] invariant

  unfoldable pub disposition_with : ℕ → List IteratorInfo → ℕ → ℕ → Bool → Option AccessDisposition
  unfolding tracks_iterator find_payload_values payload_geps search_geps
  disposition_with fuel infos query cur with_sub_loops =
      if is_inst ir query && tracks_iterator infos query cur with_sub_loops
      then some invariant
      else elim (find? (λ e. e.cur_loop == cur) infos) [
        | none ↦ none
        | some info ↦
            search_geps fuel infos cur with_sub_loops
              (payload_geps (find_payload_values ir li info []) (ir.users query) [])
      ]

  -- `getDisposition`
  unfoldable pub get_disposition :
      ℕ
      → List IteratorInfo
      → DispositionTracker
      → ℕ
      → ℕ
      → Bool
      → Option (AccessDisposition × DispositionTracker)
  unfolding init disposition_with
  get_disposition fuel known t query cur with_sub_loops = elim (init known cur t) [
    | none ↦ none
    | some (t', filled) ↦ elim (disposition_with fuel t'.infos query cur with_sub_loops) [
      | none ↦ none
      | some d ↦ some (d, t')
    ]
  ]
