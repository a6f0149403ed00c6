-- ===== src/ValueClassification.antt =====
-- lib/Analysis/ValueClassification.cpp: the iterator and the payload values of a loop, and how the
-- payload's values live across it. Sets of instructions are lists in the order of insertion.
pub mod Values
pub mod Live
pub mod Split
mod Examples
use iterator_recognition.Prelude.{
  ℕ, zero, suc, ◌+◌, ◌-◌, ◌≤◌, ◌<◌, ◌≡◌, refl, sym, ap, ◌∙◌, subst, ◌≢◌, ◌↔◌, ◌⊎◌, inl, inr, Bool,
  true, false, not, ◌&&◌, ◌||◌, Option, none, some, List, [], ◌∷◌, ◌++◌, map, arith, ltb, leb, ◌==◌,
  if◌then◌else◌, ==_iff, ==_refl, Bool-cases, &&_iff, ||_iff, not_iff, Bool-ext, Option-cases,
  length, ◌∈◌, ∈-append, any, all, filter, find?, is_empty, any_intro, any_elim, any_iff, all_elim,
  all_intro, all_iff, ∈-filter, find?_elim, find?-none, ∈-map, flat_map, ∈-flat_map, contains,
  contains_iff, sort, unique, IsSorted, IsAscending, ∈-sort, sort-IsSorted, ∈-unique,
  unique-IsAscending, Above-lt, IsAscending-ext, insert, insert_all, erase, ∈-insert, ∈-insert_all,
  ∈-erase, IsDistinct,
}
use iterator_recognition.Ir.{Ir, LoopInfo, is_inst, Opcode, phi, instruction, ValueKind}
use iterator_recognition.Recognition.{IteratorInfo, is_iterator}

-- `make_loop_inst_range`: the instructions of a loop's blocks.
unfoldable pub make_loop_inst_range : Ir → LoopInfo → ℕ → List ℕ
make_loop_inst_range ir li l = flat_map ir.insts (li.blocks l)

abbrev pub is_phi_kind : ValueKind → Bool
is_phi_kind (instruction phi) = true
is_phi_kind _ = false

abbrev pub is_phi : Ir → ℕ → Bool
is_phi ir v = is_phi_kind (ir.kind v)

-- The three sets that `SplitVirtRegPayloadLiveValues` fills.
pub record LiveSplit : Type 0 where
  pub live_in : List ℕ
  pub live_thru : List ℕ
  pub live_out : List ℕ

module _ (ir : Ir) where
  -- Some use of `e` is by an instruction outside the payload: the loop with `hasAllUsesIn`.
  unfoldable pub has_use_outside : List ℕ → ℕ → Bool
  has_use_outside payload e =
      any (λ user. is_inst ir user && not (contains payload user)) (ir.users e)

  module _ (li : LoopInfo) (info : IteratorInfo) where
    unfoldable pub is_used_by_payload : ℕ → Bool
    unfolding is_iterator
    is_used_by_payload e =
        any
          (λ user.
            is_inst ir user
            && not (is_iterator info user)
            && contains (li.blocks info.cur_loop) (ir.parent user))
          (ir.users e)

    unfoldable pub find_iterator_values_in : List ℕ → List ℕ → List ℕ
    unfolding is_used_by_payload insert
    find_iterator_values_in [] values = values
    find_iterator_values_in (e ∷ es) values =
        find_iterator_values_in es (if is_used_by_payload e then insert e values else values)

    unfoldable pub find_iterator_values : List ℕ → List ℕ
    unfolding find_iterator_values_in
    find_iterator_values values = find_iterator_values_in info.cur_instructions values

    unfoldable pub find_payload_values_in : List ℕ → List ℕ → List ℕ
    unfolding is_iterator insert
    find_payload_values_in [] values = values
    find_payload_values_in (e ∷ es) values =
        find_payload_values_in es (if not (is_iterator info e) then insert e values else values)

    unfoldable pub find_payload_values : List ℕ → List ℕ
    unfolding find_payload_values_in make_loop_inst_range
    find_payload_values values =
        find_payload_values_in (make_loop_inst_range ir li info.cur_loop) values

  -- The sets `MemLiveInThru` and `MemLiveOut`.
  unfoldable pub find_mem_payload_live_values : List ℕ → List ℕ × List ℕ → List ℕ × List ℕ
  unfolding insert
  find_mem_payload_live_values [] live = live
  find_mem_payload_live_values (e ∷ es) (in_thru, out) = find_mem_payload_live_values es (
    if ir.may_read_from_memory e then insert e in_thru else in_thru,
    if ir.may_write_to_memory e then insert e out else out,
  )

  -- The loop over the operands of one payload value, on the sets `visited` and `VirtRegLive`.
  unfoldable pub visit_operands : List ℕ → List ℕ → List ℕ × List ℕ → List ℕ × List ℕ
  unfolding insert
  visit_operands payload [] s = s
  visit_operands payload (u ∷ us) (visited, live) = visit_operands payload us (
      if is_inst ir u && (not (contains visited u) && not (contains payload u))
      then (insert u visited, insert u live)
      else (visited, live))

  unfoldable pub find_virt_reg_live_in : List ℕ → List ℕ → List ℕ × List ℕ → List ℕ × List ℕ
  unfolding visit_operands has_use_outside insert
  find_virt_reg_live_in payload [] s = s
  find_virt_reg_live_in payload (e ∷ es) (visited, live) = find_virt_reg_live_in payload es (
      visit_operands payload (ir.operands e)
        (insert e visited, if has_use_outside payload e then insert e live else live))

  unfoldable pub find_virt_reg_payload_live_values : List ℕ → List ℕ → List ℕ
  unfolding find_virt_reg_live_in
  find_virt_reg_payload_live_values payload live =
      (find_virt_reg_live_in payload payload ([], live)).1

  unfoldable pub find_direct_uses_of : List ℕ → List ℕ → List ℕ → List ℕ
  unfolding insert
  find_direct_uses_of others [] direct = direct
  find_direct_uses_of others (user ∷ users) direct =
      find_direct_uses_of others users
        (if is_inst ir user && contains others user then insert user direct else direct)

  unfoldable pub find_direct_uses_of_in : List ℕ → List ℕ → List ℕ → List ℕ
  unfolding find_direct_uses_of
  find_direct_uses_of_in [] others direct = direct
  find_direct_uses_of_in (e ∷ es) others direct =
      find_direct_uses_of_in es others (find_direct_uses_of others (ir.users e) direct)

  module _ (dominates : ℕ → ℕ → Bool) where
    -- Some use outside the payload comes after the definition: the loop with `hasUsesAfter`.
    unfoldable pub has_uses_after : List ℕ → ℕ → Bool
    has_uses_after payload e =
        any
          (λ user.
            (is_inst ir user && not (contains payload user))
            && (dominates e user || is_phi ir user))
          (ir.users e)

    unfoldable pub split_virt_reg_payload_live_values : List ℕ → List ℕ → LiveSplit → LiveSplit
    unfolding has_uses_after insert
    split_virt_reg_payload_live_values payload [] s = s
    split_virt_reg_payload_live_values payload (e ∷ es) s =
        split_virt_reg_payload_live_values payload es (
          if contains payload e
          then record s { live_out = insert e s.live_out }
          else if has_uses_after payload e
          then record s { live_thru = insert e s.live_thru }
          else record s { live_in = insert e s.live_in })
