-- ===== src/Recognition/Blocks/Subloops.antt =====
-- What the queries for inner loops answer.
use iterator_recognition.Prelude.{
  ℕ, ◌≡◌, refl, sym, ◌∙◌, ◌↔◌, ◌⊎◌, inl, inr, not, List, [], ◌∷◌, arith, ◌==◌, length, ◌∈◌, all,
  is_empty, all_iff, ∈-filter, contains, contains_iff,
}
use iterator_recognition.Ir.{Ir, LoopInfo}
use iterator_recognition.Recognition.{IteratorInfo}
use iterator_recognition.Recognition.Blocks.{
  get_payload_only_blocks, block_count, is_payload_only_subloop, has_payload_only_subloops,
  get_payload_only_subloops,
}
use iterator_recognition.Recognition.Blocks.Queries.{
  any-filter, IsPayloadOnly, ∈-get_payload_only_blocks,
}

module _ (ir : Ir) (li : LoopInfo) (info : IteratorInfo) where
  -- The loop that counts blocks up to the first that is not payload-only decides whether all are.
  is_payload_only_subloop_lem :
      (blocks : List ℕ) (e : ℕ)
      → is_payload_only_subloop ir li info blocks e ≡ all (contains blocks) (li.blocks e)
  unfolding is_payload_only_subloop
  is_payload_only_subloop_lem blocks e = count_lem (li.blocks e)
    where
      count_lem :
          (bs : List ℕ) → (block_count ir li info blocks bs == length bs) ≡ all (contains blocks) bs
      count_lem [] = refl
      count_lem (b ∷ bs) = ground (arith, count_lem bs)

  -- The inner loops found are those directly inside the iterator's loop all of whose blocks are
  -- payload-only blocks of the loop queried; the test says whether there is one.
  pub ∈-get_payload_only_subloops :
      (l e : ℕ)
      → (e ∈ get_payload_only_subloops ir li info l [] ↔ (
          (e ∈ li.sub_loops info.cur_loop)
          × ((b : ℕ) → b ∈ li.blocks e → IsPayloadOnly ir li info l b)))
        × (has_payload_only_subloops ir li info l
            ≡ not (is_empty (get_payload_only_subloops ir li info l [])))
  unfolding get_payload_only_subloops has_payload_only_subloops
  ∈-get_payload_only_subloops l e =
      let blocks = get_payload_only_blocks ir li info l [] in
      let test = is_payload_only_subloop ir li info blocks in
      let kept = ∈-filter test e (li.sub_loops info.cur_loop) in
      let same = is_payload_only_subloop_lem blocks e in
      let every = all_iff (contains blocks) (li.blocks e) in
      let found : (b : ℕ) → b ∈ blocks ↔ ((b ∈ []) ⊎ IsPayloadOnly ir li info l b) =
        λ b. ∈-get_payload_only_blocks ir li info l b [] in
      (
        (
          λ m.
              let (place, passed) = kept.0 m in
              (
                place,
                λ b n.
                    elim ((found b).0
                      ((contains_iff blocks b).0 (every.0 (sym same ∙ passed) b n))) [
                        | inl x ↦ absurd x
                        | inr p ↦ p
                      ],
              ),
          λ (place, clear). kept.1 (
            place,
            same ∙ every.1 (λ b n. (contains_iff blocks b).1 ((found b).1 (inr (clear b n)))),
          ),
        ),
        any-filter test (li.sub_loops info.cur_loop),
      )
