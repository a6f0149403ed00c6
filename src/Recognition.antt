-- ===== src/Recognition.antt =====
-- include/IteratorRecognition/Analysis/IteratorRecognition.hpp and
-- lib/Analysis/IteratorRecognition.cpp: which instructions of a loop are its iterator.
mod Loops
mod Members
pub mod Sources
pub mod Blocks
mod Examples
use mathlib.Core.WellFounded.{Acc}
use mathlib.Core.Option
use iterator_recognition.Prelude.{
  ℕ, zero, suc, ◌+◌, ◌-◌, ◌≤◌, ◌<◌, ◌≡◌, refl, sym, ap, ◌∙◌, subst, ◌≢◌, ◌↔◌, ◌⊎◌, inl, inr, Bool,
  true, false, not, ◌&&◌, ◌||◌, Option, none, some, List, [], ◌∷◌, ◌++◌, map, arith, ltb, leb, ◌==◌,
  if◌then◌else◌, ==_iff, ==_refl, Bool-cases, &&_iff, ||_iff, not_iff, Bool-ext, Option-cases,
  length, ◌∈◌, ∈-append, any, all, filter, find?, is_empty, any_intro, any_elim, any_iff, all_elim,
  all_intro, all_iff, ∈-filter, find?_elim, find?-none, ∈-map, flat_map, ∈-flat_map, contains,
  contains_iff, sort, unique, IsSorted, IsAscending, ∈-sort, sort-IsSorted, ∈-unique,
  unique-IsAscending, Above-lt, IsAscending-ext, insert, insert_all, erase, ∈-insert, ∈-insert_all,
  ∈-erase, IsDistinct, acc_of_measure,
}
use iterator_recognition.Ir.{Ir, LoopInfo}
use iterator_recognition.Extras.{is_not_null_unit, unique_inplace}
use iterator_recognition.CondensationGraph.{CondensationNode, Condensations, enumerate, condense}

-- The loop is never null here: the default constructor, which leaves it so, is not called.
pub record IteratorInfo : Type 0 where
  pub cur_loop : ℕ
  pub cur_instructions : List ℕ

unfoldable pub get_num_instructions : IteratorInfo → ℕ
get_num_instructions info = length info.cur_instructions

unfoldable pub is_iterator : IteratorInfo → ℕ → Bool
is_iterator info inst = contains info.cur_instructions inst

-- A pointer to a condensation: its address, and what stands there.
abbrev pub NodeRef : Type 0
NodeRef = ℕ × CondensationNode

abbrev pub LoopsMap : Type 0
LoopsMap = List (NodeRef × List ℕ)

-- The instructions of the members that are not the virtual root.
unfoldable pub units : (ℕ → Option ℕ) → List ℕ → List ℕ
unfolding is_not_null_unit
units unit [] = []
units unit (n ∷ ns) = elim (unit n) [ none ↦ units unit ns | some u ↦ u ∷ units unit ns ]

pub record RecognitionInfo : Type 0 where
  pub cg : Condensations
  pub loops_map : LoopsMap
  pub iterators_info : List IteratorInfo

module _ (li : LoopInfo) where
  abbrev pub IsParent : ℕ → ℕ → Type 0
  IsParent p l = li.parent_loop l ≡ some p

  -- `while (loop) { loops.insert(loop); loop = loop->getParentLoop(); }`, from a loop on. The loop
  -- ends because a loop nest is well founded, which the last argument says.
  unfoldable pub enclosing : (l : ℕ) → Acc IsParent l → List ℕ
  enclosing l (Acc.intro _ outer) = elim (Option-cases (li.parent_loop l)) [
    | inl e ↦ l ∷ []
    | inr (p, e) ↦ l ∷ enclosing p (outer p e)
  ]

  unfoldable pub nest_wf : (l : ℕ) → Acc IsParent l
  unfolding acc_of_measure
  nest_wf = acc_of_measure IsParent li.loop_depth (λ p l e. li.parent_loop_depth l p e)

  unfoldable pub loops_around : Option ℕ → List ℕ
  unfolding enclosing nest_wf
  loops_around none = []
  loops_around (some l) = enclosing l (nest_wf l)

  module _ (parent : ℕ → ℕ) (unit : ℕ → Option ℕ) where
    unfoldable pub loops_of : List ℕ → List ℕ → List ℕ
    unfolding loops_around insert_all
    loops_of [] loops = loops
    loops_of (u ∷ us) loops = loops_of us (insert_all (loops_around (li.loop_for (parent u))) loops)

    unfoldable pub map_condensation_to_loops : Condensations → LoopsMap
    unfolding loops_of units
    map_condensation_to_loops cg =
        map (λ (cn : NodeRef). (cn, loops_of (units unit cn.1.nodes) [])) (enumerate 0 cg.nodes)

    unfoldable pub loop_condensations : LoopsMap → ℕ → List NodeRef
    loop_condensations m l = map (λ e. e.0) (filter (λ e. contains e.1 l) m)

    unfoldable pub work_found : List NodeRef → NodeRef → Bool
    work_found cns cn = any (λ ccn. any (λ c. c.0 == ccn) cns) cn.1.in_edges

    -- The body of the loop over the loops.
    unfoldable pub iterator_info : LoopsMap → ℕ → IteratorInfo
    unfolding loop_condensations work_found units unique_inplace
    iterator_info m l =
        let cns = loop_condensations m l in
        let inst = flat_map (λ cn. if work_found cns cn then [] else units unit cn.1.nodes) cns in
        record { cur_loop = l; cur_instructions = unique_inplace inst }

    unfoldable pub recognize_iterator : LoopsMap → List IteratorInfo
    unfolding iterator_info
    recognize_iterator m = map (iterator_info m) li.loops_in_preorder

    -- The constructor of `IteratorRecognitionInfo`, without its statistics.
    unfoldable pub recognize : (ℕ → List ℕ) → (ℕ → List ℕ) → List (List ℕ) → Option RecognitionInfo
    unfolding condense map_condensation_to_loops recognize_iterator
    recognize children inverse_children sccs =
        Option.map
          (λ cg.
            let m = map_condensation_to_loops cg in
            record { cg = cg; loops_map = m; iterators_info = recognize_iterator m })
          (condense children inverse_children unit sccs)

unfoldable pub get_iterator_info_for : List IteratorInfo → ℕ → Option IteratorInfo
get_iterator_info_for infos l = find? (λ e. e.cur_loop == l) infos

-- The iterator instructions of a loop; none, if the loop is not known.
unfoldable pub get_iterators_for : List IteratorInfo → ℕ → List ℕ
get_iterators_for infos l = elim (find? (λ e. e.cur_loop == l) infos) [
  | none ↦ []
  | some e ↦ e.cur_instructions
]
