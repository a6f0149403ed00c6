-- ===== src/DispositionTracker/Parts.antt =====
-- What the tracker asks of an instruction, in terms of the loops, the users, the indices and the operands.
use iterator_recognition.Prelude.{
  ℕ, ◌≡◌, ◌↔◌, ◌⊎◌, inl, inr, Bool, true, false, ◌&&◌, ◌||◌, List, [], ◌∷◌, arith, ◌==◌, ◌∈◌,
  filter, any_iff, ∈-filter, ∈-flat_map, contains, contains_iff, insert, ∈-insert,
}
use iterator_recognition.Ir.{Ir, LoopInfo, is_inst, ValueKind, instruction, get_element_ptr}
use iterator_recognition.Recognition.{IteratorInfo, is_iterator}
use iterator_recognition.ValueClassification.{find_payload_values}
use iterator_recognition.ValueClassification.Values.{∈-find_payload_values}
use iterator_recognition.DispositionTracker.{
  is_gep, tracks_iterator, payload_geps, index_insts, next,
}

module _ (ir : Ir) (li : LoopInfo) where
  module _ (infos : List IteratorInfo) (cur : ℕ) where
    -- An iterator instruction of the loop or, where inner loops are considered too, of one inside it.
    abbrev pub IsTracked : Bool → ℕ → Type 0
    IsTracked true v =
        (e : IteratorInfo) × (e ∈ infos)
        × ((cur ≡ e.cur_loop) ⊎ (li.contains_loop cur e.cur_loop ≡ true))
        × (v ∈ e.cur_instructions)
    IsTracked false v =
        (e : IteratorInfo) × (e ∈ infos) × (e.cur_loop ≡ cur) × (v ∈ e.cur_instructions)

    pub tracks_iterator_iff :
        (with_sub_loops : Bool) (v : ℕ)
        → (tracks_iterator ir li infos v cur with_sub_loops ≡ true) ↔ IsTracked with_sub_loops v
    unfolding tracks_iterator is_iterator
    tracks_iterator_iff true v =
        let test : IteratorInfo → Bool = λ e.
          (cur == e.cur_loop || li.contains_loop cur e.cur_loop) && contains e.cur_instructions v in
        let some_info = any_iff test infos in
        (
          λ h.
              let (e, m, q) = some_info.0 h in
              (e, m, ground arith, ground (arith, contains_iff e.cur_instructions v)),
          λ (e, m, q, n). some_info.1 (e, m, ground (arith, contains_iff e.cur_instructions v)),
        )
    tracks_iterator_iff false v =
        let test : IteratorInfo → Bool = λ e. e.cur_loop == cur && contains e.cur_instructions v in
        let some_info = any_iff test infos in
        (
          λ h.
              let (e, m, q) = some_info.0 h in
              (e, m, ground arith, ground (arith, contains_iff e.cur_instructions v)),
          λ (e, m, q, n). some_info.1 (e, m, ground (arith, contains_iff e.cur_instructions v)),
        )

  gep_iff : (k : ValueKind) → (is_gep k ≡ true) ↔ (k ≡ instruction get_element_ptr)
  gep_iff (instruction get_element_ptr) = ground arith
  gep_iff (instruction o) = ground arith
  gep_iff k = ground arith

  module _ (query : ℕ) (info : IteratorInfo) where
    -- An address computation on the query in the payload of the loop.
    abbrev pub IsPayloadGep : ℕ → Type 0
    IsPayloadGep u =
        (u ∈ ir.users query)
        × (ir.kind u ≡ instruction get_element_ptr)
        × (b : ℕ) × (b ∈ li.blocks info.cur_loop)
        × (u ∈ ir.insts b)
        × ¬ (u ∈ info.cur_instructions)

    -- An instruction that is an index of one.
    abbrev pub IsIndex : ℕ → Type 0
    IsIndex v = (u : ℕ) × (v ∈ ir.indices u) × (is_inst ir v ≡ true) × IsPayloadGep u

    ∈-payload_geps :
        (u : ℕ) (payload users geps : List ℕ)
        → u ∈ payload_geps ir li payload users geps
          ↔ ((u ∈ geps) ⊎ ((u ∈ users) × (ir.kind u ≡ instruction get_element_ptr) × (u ∈ payload)))
    unfolding payload_geps
    ∈-payload_geps u payload [] geps = ground arith
    ∈-payload_geps u payload (w ∷ users) geps = ground (
      arith,
      ∈-payload_geps u payload users geps,
      ∈-payload_geps u payload users (insert w geps),
      ∈-insert u w geps,
      gep_iff (ir.kind w),
      contains_iff payload w,
    )

    IsPayloadGep-iff :
        (u : ℕ)
        → u ∈ payload_geps ir li (find_payload_values ir li info []) (ir.users query) []
          ↔ IsPayloadGep u
    IsPayloadGep-iff u =
        let in_payload = ∈-find_payload_values ir li info u [] in
        let geps = ∈-payload_geps u (find_payload_values ir li info []) (ir.users query) [] in
        (
          λ m. elim (geps.0 m) [
            | inl k ↦ absurd k
            | inr (m, k, n) ↦ elim (in_payload.0 n) [
              | inl k ↦ absurd k
              | inr ((b, i, j), free) ↦ (m, k, b, i, j, free)
            ]
          ],
          λ (m, k, b, i, j, free). geps.1 (inr (m, k, in_payload.1 (inr ((b, i, j), free)))),
        )

    pub ∈-index_insts :
        (v : ℕ)
        → v
            ∈ index_insts ir li
                (payload_geps ir li (find_payload_values ir li info []) (ir.users query) [])
          ↔ IsIndex v
    unfolding index_insts
    ∈-index_insts v =
        let payload = find_payload_values ir li info [] in
        let geps = payload_geps ir li payload (ir.users query) [] in
        let here = ∈-flat_map (λ u. filter (is_inst ir) (ir.indices u)) v geps in
        (
          λ m.
              let (u, k, n) = here.0 m in
              let (i, q) = (∈-filter (is_inst ir) v (ir.indices u)).0 n in
              (u, i, q, (IsPayloadGep-iff u).0 k),
          λ (u, i, q, k).
              here.1
                (u, (IsPayloadGep-iff u).1 k, (∈-filter (is_inst ir) v (ir.indices u)).1 (i, q)),
        )

  pub ∈-next : (u v : ℕ) → v ∈ next ir li u ↔ ((v ∈ ir.operands u) × (is_inst ir v ≡ true))
  unfolding next
  ∈-next u v = ∈-filter (is_inst ir) v (ir.operands u)
