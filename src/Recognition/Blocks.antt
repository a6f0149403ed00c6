-- ===== src/Recognition/Blocks.antt =====
-- lib/Analysis/IteratorRecognition.cpp, lines 55 to 228: the blocks and the inner loops that hold no
-- iterator instruction. The assertions, that the loop queried is the iterator's or inside it, are
-- left out: they are compiled away in a release build, and no branch depends on them.
pub mod Queries
pub mod Subloops
mod Examples
use iterator_recognition.Prelude.{
  ℕ, zero, suc, ◌+◌, ◌-◌, ◌≤◌, ◌<◌, ◌≡◌, refl, sym, ap, ◌∙◌, subst, ◌≢◌, ◌↔◌, ◌⊎◌, inl, inr, Bool,
  true, false, not, ◌&&◌, ◌||◌, Option, none, some, List, [], ◌∷◌, ◌++◌, map, arith, ltb, leb, ◌==◌,
  if◌then◌else◌, ==_iff, ==_refl, Bool-cases, &&_iff, ||_iff, not_iff, Bool-ext, Option-cases,
  length, ◌∈◌, ∈-append, any, all, filter, find?, is_empty, any_intro, any_elim, any_iff, all_elim,
  all_intro, all_iff, ∈-filter, find?_elim, find?-none, ∈-map, flat_map, ∈-flat_map, contains,
  contains_iff, sort, unique, IsSorted, IsAscending, ∈-sort, sort-IsSorted, ∈-unique,
  unique-IsAscending, Above-lt, IsAscending-ext, insert, insert_all, erase, ∈-insert, ∈-insert_all,
  ∈-erase, IsDistinct,
}
use iterator_recognition.Ir.{Ir, LoopInfo}
use iterator_recognition.Recognition.{IteratorInfo, is_iterator}

module _ (ir : Ir) (li : LoopInfo) (info : IteratorInfo) where
  unfoldable pub it_blocks : List ℕ
  unfolding insert_all
  it_blocks = insert_all (map ir.parent info.cur_instructions) []

  -- The header and the latches are passed over.
  unfoldable pub is_skipped : ℕ → ℕ → Bool
  is_skipped l e = e == li.header l || li.is_loop_latch l e

  unfoldable pub has_payload_only_blocks_in : ℕ → List ℕ → Bool
  unfolding is_skipped it_blocks
  has_payload_only_blocks_in l [] = false
  has_payload_only_blocks_in l (e ∷ es) =
      let rest = has_payload_only_blocks_in l es in
      if is_skipped l e then rest else if not (contains it_blocks e) then true else rest

  unfoldable pub has_payload_only_blocks : ℕ → Bool
  unfolding has_payload_only_blocks_in
  has_payload_only_blocks l = has_payload_only_blocks_in l (li.blocks l)

  -- `blocks` is the vector that the caller hands in.
  unfoldable pub get_payload_only_blocks_in : ℕ → List ℕ → List ℕ → List ℕ
  unfolding is_skipped it_blocks
  get_payload_only_blocks_in l [] blocks = blocks
  get_payload_only_blocks_in l (e ∷ es) blocks = get_payload_only_blocks_in l es (
      if is_skipped l e
      then blocks
      else if not (contains it_blocks e)
      then blocks ++ e ∷ []
      else blocks)

  unfoldable pub get_payload_only_blocks : ℕ → List ℕ → List ℕ
  unfolding get_payload_only_blocks_in
  get_payload_only_blocks l blocks = get_payload_only_blocks_in l (li.blocks l) blocks

  -- Some instruction of the block is not in the iterator.
  unfoldable pub has_payload_inst : ℕ → Bool
  unfolding is_iterator
  has_payload_inst e = any (λ i. not (is_iterator info i)) (ir.insts e)

  unfoldable pub has_mixed_blocks : ℕ → Bool
  unfolding get_payload_only_blocks has_payload_inst
  has_mixed_blocks l =
      let blocks = get_payload_only_blocks l [] in
      any (λ e. contains blocks e && has_payload_inst e) (li.blocks l)

  unfoldable pub get_mixed_blocks_in : List ℕ → List ℕ → List ℕ → List ℕ
  unfolding has_payload_inst
  get_mixed_blocks_in blocks [] mixed = mixed
  get_mixed_blocks_in blocks (e ∷ es) mixed = get_mixed_blocks_in blocks es (
      if not (contains blocks e)
      then mixed
      else if has_payload_inst e
      then mixed ++ e ∷ []
      else mixed)

  unfoldable pub get_mixed_blocks : ℕ → List ℕ → List ℕ
  unfolding get_payload_only_blocks get_mixed_blocks_in
  get_mixed_blocks l mixed = get_mixed_blocks_in (get_payload_only_blocks l []) (li.blocks l) mixed

  -- How many blocks stand before the first that is not in `blocks`.
  unfoldable pub block_count : List ℕ → List ℕ → ℕ
  block_count blocks [] = 0
  block_count blocks (b ∷ bs) =
      let rest = block_count blocks bs in if not (contains blocks b) then 0 else suc rest

  unfoldable pub is_payload_only_subloop : List ℕ → ℕ → Bool
  unfolding block_count
  is_payload_only_subloop blocks e = block_count blocks (li.blocks e) == length (li.blocks e)

  unfoldable pub has_payload_only_subloops : ℕ → Bool
  unfolding get_payload_only_blocks is_payload_only_subloop
  has_payload_only_subloops l =
      any (is_payload_only_subloop (get_payload_only_blocks l [])) (li.sub_loops info.cur_loop)

  unfoldable pub get_payload_only_subloops : ℕ → List ℕ → List ℕ
  unfolding get_payload_only_blocks is_payload_only_subloop
  get_payload_only_subloops l sub_loops =
      sub_loops
      ++ filter (is_payload_only_subloop (get_payload_only_blocks l []))
          (li.sub_loops info.cur_loop)
