-- ===== src/Recognition/Blocks/Queries.antt =====
-- What the block queries answer.
use iterator_recognition.Prelude.{
  ℕ, ◌≡◌, refl, sym, ap, ◌∙◌, subst, ◌≢◌, ◌↔◌, ◌⊎◌, inl, inr, Bool, true, false, not, ◌&&◌, List,
  [], ◌∷◌, ◌++◌, map, arith, Bool-cases, &&_iff, ◌∈◌, ∈-append, any, filter, is_empty, ∈-filter,
  ∈-map, contains, contains_iff, insert_all, ∈-insert_all,
}
use mathlib.Core.List.{append_assoc, append-nil}
use iterator_recognition.Ir.{Ir, LoopInfo}
use iterator_recognition.Recognition.{IteratorInfo, is_iterator}
use iterator_recognition.Recognition.Blocks.{
  it_blocks, is_skipped, has_payload_only_blocks_in, has_payload_only_blocks,
  get_payload_only_blocks_in, get_payload_only_blocks, has_payload_inst, has_mixed_blocks,
  get_mixed_blocks_in, get_mixed_blocks,
}

pub any-filter : (p : ℕ → Bool) (xs : List ℕ) → any p xs ≡ not (is_empty (filter p xs))
any-filter p [] = refl
any-filter p (x ∷ xs) = ground (arith, any-filter p xs)

module _ (ir : Ir) (li : LoopInfo) (info : IteratorInfo) where
  -- A block of the loop, not its header nor a latch, with no iterator instruction in it.
  abbrev pub IsPayloadOnly : ℕ → ℕ → Type 0
  IsPayloadOnly l b =
      (b ∈ li.blocks l)
      × (b ≢ li.header l)
      × (li.is_loop_latch l b ≡ false)
      × ((i : ℕ) → i ∈ info.cur_instructions → ir.parent i ≢ b)

  ∈-it_blocks :
      (b : ℕ)
      → (contains (it_blocks ir li info) b ≡ true)
        ↔ ((i : ℕ) × (i ∈ info.cur_instructions) × (b ≡ ir.parent i))
  unfolding it_blocks
  ∈-it_blocks b =
      let blocks = map ir.parent info.cur_instructions in
      let parents = ∈-map ir.parent b info.cur_instructions in
      let all_blocks = ∈-insert_all b blocks [] in
      let tested = contains_iff (insert_all blocks []) b in
      (
        λ h. elim (all_blocks.0 (tested.0 h)) [ inl m ↦ parents.0 m | inr n ↦ absurd n ],
        λ p. tested.1 (all_blocks.1 (inl (parents.1 p))),
      )

  ∈-get_in :
      (l b : ℕ) (es blocks : List ℕ)
      → b ∈ get_payload_only_blocks_in ir li info l es blocks ↔ (
          (b ∈ blocks)
          ⊎ ((b ∈ es)
              × (is_skipped ir li info l b ≡ false)
              × (contains (it_blocks ir li info) b ≡ false)))
  unfolding get_payload_only_blocks_in
  ∈-get_in l b [] blocks = ground arith
  ∈-get_in l b (e ∷ es) blocks = ground (
    arith,
    ∈-get_in l b es blocks,
    ∈-get_in l b es (blocks ++ e ∷ []),
    ∈-append b blocks (e ∷ []),
  )

  -- The blocks found are those of the loop, but for its header and latches, that hold no iterator
  -- instruction; they are added to those that the caller's vector holds.
  pub ∈-get_payload_only_blocks :
      (l b : ℕ) (blocks : List ℕ)
      → b ∈ get_payload_only_blocks ir li info l blocks ↔ ((b ∈ blocks) ⊎ IsPayloadOnly l b)
  unfolding get_payload_only_blocks is_skipped
  ∈-get_payload_only_blocks l b blocks =
      let lem = ∈-get_in l b (li.blocks l) blocks in
      let its = ∈-it_blocks b in
      (
        λ m. elim (lem.0 m) [
          | inl old ↦ inl old
          | inr (place, kept, free) ↦ inr (
            place,
            λ e. absurd (ground arith),
            ground arith,
            λ i n e. absurd (ground (arith, its.1 (i, n, sym e))),
          )
        ],
        λ h. elim h [
          | inl old ↦ lem.1 (inl old)
          | inr (place, no_header, no_latch, free) ↦ lem.1 (
              inr (
                place,
                ground arith,
                elim (Bool-cases (contains (it_blocks ir li info) b)) [
                  | inl e ↦ let (i, n, q) = its.0 e in absurd (free i n (sym q))
                  | inr e ↦ e
                ],
              ))
        ],
      )

  has-get_in :
      (l : ℕ) (es blocks : List ℕ)
      → is_empty (get_payload_only_blocks_in ir li info l es blocks)
        ≡ (is_empty blocks && not (has_payload_only_blocks_in ir li info l es))
  unfolding get_payload_only_blocks_in has_payload_only_blocks_in
  has-get_in l [] blocks = ground arith
  has-get_in l (e ∷ es) blocks =
      ground
        (arith, has-get_in l es blocks, has-get_in l es (blocks ++ e ∷ []), is_empty-snoc e blocks)
    where
      is_empty-snoc : (e : ℕ) (xs : List ℕ) → is_empty (xs ++ e ∷ []) ≡ false
      is_empty-snoc e [] = refl
      is_empty-snoc e (x ∷ xs) = refl

  has_payload_only_blocks_lem :
      (l : ℕ)
      → has_payload_only_blocks ir li info l
        ≡ not (is_empty (get_payload_only_blocks ir li info l []))
  unfolding has_payload_only_blocks get_payload_only_blocks
  has_payload_only_blocks_lem l = ground (arith, has-get_in l (li.blocks l) [])

  abbrev is_mixed : List ℕ → ℕ → Bool
  is_mixed blocks e = contains blocks e && has_payload_inst ir li info e

  mixed_in_lem :
      (blocks es mixed : List ℕ)
      → get_mixed_blocks_in ir li info blocks es mixed ≡ mixed ++ filter (is_mixed blocks) es
  unfolding get_mixed_blocks_in
  mixed_in_lem blocks [] mixed = sym (append-nil mixed)
  mixed_in_lem blocks (e ∷ es) mixed = elim (Bool-cases (contains blocks e)) [
    | inr p ↦ rw (p, get_mixed_blocks_in) (ground (arith, mixed_in_lem blocks es mixed))
    | inl p ↦ elim (Bool-cases (has_payload_inst ir li info e)) [
      | inr q ↦ rw (p, q, get_mixed_blocks_in) (mixed_in_lem blocks es mixed)
      | inl q ↦
          rw (p, q, get_mixed_blocks_in)
            (mixed_in_lem blocks es (mixed ++ e ∷ [])
              ∙ append_assoc mixed (e ∷ []) (filter (is_mixed blocks) es))
    ]
  ]

  has_mixed_blocks_lem :
      (l : ℕ) → has_mixed_blocks ir li info l ≡ not (is_empty (get_mixed_blocks ir li info l []))
  unfolding has_mixed_blocks get_mixed_blocks
  has_mixed_blocks_lem l =
      let blocks = get_payload_only_blocks ir li info l [] in
      rw (mixed_in_lem blocks (li.blocks l) []) (any-filter (is_mixed blocks) (li.blocks l))

  ∈-get_mixed_blocks :
      (l b : ℕ)
      → ((i c : ℕ) → i ∈ ir.insts c → ir.parent i ≡ c)
      → b ∈ get_mixed_blocks ir li info l [] ↔ (IsPayloadOnly l b × (ir.insts b ≢ []))
  unfolding get_mixed_blocks has_payload_inst is_iterator
  ∈-get_mixed_blocks l b parents =
      let blocks = get_payload_only_blocks ir li info l [] in
      let payload : ℕ → Bool = λ i. not (is_iterator info i) in
      let found = ∈-get_payload_only_blocks l b [] in
      let kept = ∈-filter (is_mixed blocks) b (li.blocks l) in
      (
        λ m.
            let (place, both) =
              kept.0 (subst (λ x. b ∈ x) (mixed_in_lem blocks (li.blocks l) []) m) in
            let (listed, some_inst) =
              (&&_iff (contains blocks b) (any payload (ir.insts b))).0 both in
            (
              elim (found.0 ((contains_iff blocks b).0 listed)) [ inl n ↦ absurd n | inr p ↦ p ],
              λ e. absurd (cc (ap (any payload) e)),
            ),
        λ (p, nonempty).
            subst (λ x. b ∈ x) (sym (mixed_in_lem blocks (li.blocks l) []))
              (kept.1 (
                p.0,
                (&&_iff (contains blocks b) (any payload (ir.insts b))).1 (
                  (contains_iff blocks b).1 (found.1 (inr p)),
                  all_payload b p.3 (ir.insts b) (λ i n. parents i b n) nonempty,
                ),
              )),
      )
    where
      all_payload :
          (b : ℕ)
          → ((i : ℕ) → i ∈ info.cur_instructions → ir.parent i ≢ b)
          → (is : List ℕ) → ((i : ℕ) → i ∈ is → ir.parent i ≡ b)
          → is ≢ []
          → any (λ i. not (is_iterator info i)) is ≡ true
      all_payload b free [] home nonempty = absurd (nonempty refl)
      all_payload b free (i ∷ is) home nonempty =
          let out : contains info.cur_instructions i ≡ false =
            elim (Bool-cases (contains info.cur_instructions i)) [
              | inl e ↦
                  absurd (free i ((contains_iff info.cur_instructions i).0 e) (home i (inl refl)))
              | inr e ↦ e
            ] in
          ground (arith, out)

  -- Where the instructions of a block have it for their parent: the blocks that `GetMixedBlocks`
  -- returns hold no iterator instruction at all. They are the payload-only blocks that are not
  -- empty. HasPayloadOnlyBlocks and HasMixedBlocks answer whether GetPayloadOnlyBlocks and
  -- GetMixedBlocks find some block.
  pub ∈-get_mixed_blocks-has_blocks :
      (l b : ℕ)
      → ((i c : ℕ) → i ∈ ir.insts c → ir.parent i ≡ c)
      → (b ∈ get_mixed_blocks ir li info l [] ↔ (IsPayloadOnly l b × (ir.insts b ≢ [])))
        × (has_payload_only_blocks ir li info l
            ≡ not (is_empty (get_payload_only_blocks ir li info l [])))
        × (has_mixed_blocks ir li info l ≡ not (is_empty (get_mixed_blocks ir li info l [])))
  ∈-get_mixed_blocks-has_blocks l b parents =
      (∈-get_mixed_blocks l b parents, has_payload_only_blocks_lem l, has_mixed_blocks_lem l)
