-- ===== src/ValueClassification/Values.antt =====
-- Iterator values, payload values, memory and direct uses: which instructions are in each set.
use iterator_recognition.Prelude.{
  ℕ, ◌≡◌, refl, subst, ◌↔◌, ◌⊎◌, inl, inr, Bool, true, not, ◌&&◌, List, [], ◌∷◌, arith,
  if◌then◌else◌, ◌∈◌, any_intro, any_elim, ∈-flat_map, contains, contains_iff, insert, ∈-insert,
}
use iterator_recognition.Ir.{Ir, LoopInfo, is_inst}
use iterator_recognition.Recognition.{IteratorInfo, is_iterator}
use iterator_recognition.ValueClassification.{
  make_loop_inst_range, is_used_by_payload, find_iterator_values_in, find_iterator_values,
  find_payload_values_in, find_payload_values, find_mem_payload_live_values, find_direct_uses_of,
  find_direct_uses_of_in,
}

module _ (ir : Ir) (li : LoopInfo) (info : IteratorInfo) where
  ∈-find_payload_values_in :
      (v : ℕ) (es values : List ℕ)
      → v ∈ find_payload_values_in ir li info es values
        ↔ ((v ∈ values) ⊎ ((v ∈ es) × ¬ (v ∈ info.cur_instructions)))
  unfolding find_payload_values_in is_iterator
  ∈-find_payload_values_in v [] values = ground arith
  ∈-find_payload_values_in v (e ∷ es) values = ground (
    arith,
    ∈-find_payload_values_in v es values,
    ∈-find_payload_values_in v es (insert e values),
    ∈-insert v e values,
    contains_iff info.cur_instructions e,
  )

  pub ∈-find_payload_values :
      (v : ℕ) (values : List ℕ)
      → v ∈ find_payload_values ir li info values ↔ (
          (v ∈ values)
          ⊎ (((b : ℕ) × (b ∈ li.blocks info.cur_loop) × (v ∈ ir.insts b))
              × ¬ (v ∈ info.cur_instructions)))
  unfolding find_payload_values make_loop_inst_range
  ∈-find_payload_values v values =
      let lem = ∈-find_payload_values_in v (make_loop_inst_range ir li info.cur_loop) values in
      let range = ∈-flat_map ir.insts v (li.blocks info.cur_loop) in
      (
        λ m. elim (lem.0 m) [ inl old ↦ inl old | inr (n, free) ↦ inr (range.0 n, free) ],
        λ h. elim h [ inl old ↦ lem.1 (inl old) | inr (n, free) ↦ lem.1 (inr (range.1 n, free)) ],
      )

  -- Some instruction of the loop that is not the iterator's uses the value.
  abbrev pub IsUsedByPayload : ℕ → Type 0
  IsUsedByPayload v =
      (user : ℕ) × (user ∈ ir.users v)
      × (is_inst ir user ≡ true)
      × ¬ (user ∈ info.cur_instructions)
      × (ir.parent user ∈ li.blocks info.cur_loop)

  is_used_by_payload_iff : (v : ℕ) → (is_used_by_payload ir li info v ≡ true) ↔ IsUsedByPayload v
  unfolding is_used_by_payload is_iterator
  is_used_by_payload_iff v =
      let test : ℕ → Bool = λ user.
        is_inst ir user
        && not (contains info.cur_instructions user)
        && contains (li.blocks info.cur_loop) (ir.parent user) in
      (
        λ h.
            let (user, m, t) = any_elim test (ir.users v) h in
            (
              user,
              m,
              ground arith,
              ground (arith, contains_iff info.cur_instructions user),
              ground (arith, contains_iff (li.blocks info.cur_loop) (ir.parent user)),
            ),
        λ (user, m, inst, free, inside). any_intro test (ir.users v) user m (
            ground (
              arith,
              contains_iff info.cur_instructions user,
              contains_iff (li.blocks info.cur_loop) (ir.parent user),
            )),
      )

  ∈-find_iterator_values_in :
      (v : ℕ) (es values : List ℕ)
      → v ∈ find_iterator_values_in ir li info es values
        ↔ ((v ∈ values) ⊎ ((v ∈ es) × (is_used_by_payload ir li info v ≡ true)))
  unfolding find_iterator_values_in
  ∈-find_iterator_values_in v [] values = ground arith
  ∈-find_iterator_values_in v (e ∷ es) values = ground (
    arith,
    ∈-find_iterator_values_in v es values,
    ∈-find_iterator_values_in v es (insert e values),
    ∈-insert v e values,
  )

  ∈-find_iterator_values :
      (v : ℕ) (values : List ℕ)
      → v ∈ find_iterator_values ir li info values
        ↔ ((v ∈ values) ⊎ ((v ∈ info.cur_instructions) × IsUsedByPayload v))
  unfolding find_iterator_values
  ∈-find_iterator_values v values =
      let lem = ∈-find_iterator_values_in v info.cur_instructions values in
      let used = is_used_by_payload_iff v in
      (
        λ m. elim (lem.0 m) [ inl old ↦ inl old | inr (n, u) ↦ inr (n, used.0 u) ],
        λ h. elim h [ inl old ↦ lem.1 (inl old) | inr (n, u) ↦ lem.1 (inr (n, used.1 u)) ],
      )

  -- The payload of a loop is made of the instructions of its blocks that are not its iterator's, and
  -- the iterator values are the iterator instructions that some instruction of the payload uses. Both
  -- are added to what the set held.
  pub ∈-find_payload_values-find_iterator_values :
      (v : ℕ) (values : List ℕ)
      → (v ∈ find_payload_values ir li info values ↔ (
          (v ∈ values)
          ⊎ (((b : ℕ) × (b ∈ li.blocks info.cur_loop) × (v ∈ ir.insts b))
              × ¬ (v ∈ info.cur_instructions))))
        × (v ∈ find_iterator_values ir li info values
            ↔ ((v ∈ values) ⊎ ((v ∈ info.cur_instructions) × IsUsedByPayload v)))
  ∈-find_payload_values-find_iterator_values v values =
      (∈-find_payload_values v values, ∈-find_iterator_values v values)

module _ (ir : Ir) where
  -- The payload values that may read memory, and those that may write it, are added to the two
  -- sets; a value may be in both.
  pub ∈-find_mem_payload_live_values :
      (v : ℕ) (payload in_thru out : List ℕ)
      → (v ∈ (find_mem_payload_live_values ir payload (in_thru, out)).0
          ↔ ((v ∈ in_thru) ⊎ ((v ∈ payload) × (ir.may_read_from_memory v ≡ true))))
        × (v ∈ (find_mem_payload_live_values ir payload (in_thru, out)).1
            ↔ ((v ∈ out) ⊎ ((v ∈ payload) × (ir.may_write_to_memory v ≡ true))))
  unfolding find_mem_payload_live_values
  ∈-find_mem_payload_live_values v [] in_thru out = ground arith
  ∈-find_mem_payload_live_values v (e ∷ es) in_thru out =
      let reads = if ir.may_read_from_memory e then insert e in_thru else in_thru in
      let writes = if ir.may_write_to_memory e then insert e out else out in
      let (r, w) = ∈-find_mem_payload_live_values v es reads writes in
      (ground (arith, r, ∈-insert v e in_thru), ground (arith, w, ∈-insert v e out))

  ∈-find_direct_uses_of :
      (v : ℕ) (others users direct : List ℕ)
      → v ∈ find_direct_uses_of ir others users direct
        ↔ ((v ∈ direct) ⊎ ((v ∈ users) × (is_inst ir v ≡ true) × (v ∈ others)))
  unfolding find_direct_uses_of
  ∈-find_direct_uses_of v others [] direct = ground arith
  ∈-find_direct_uses_of v others (u ∷ us) direct = ground (
    arith,
    ∈-find_direct_uses_of v others us direct,
    ∈-find_direct_uses_of v others us (insert u direct),
    ∈-insert v u direct,
    contains_iff others u,
  )

  -- The direct uses of a set in another, added to what was collected before, are the instructions of
  -- the other set that are users of some value of the first.
  pub ∈-find_direct_uses_of_in :
      (v : ℕ) (values others direct : List ℕ)
      → v ∈ find_direct_uses_of_in ir values others direct ↔ (
          (v ∈ direct)
          ⊎ (((e : ℕ) × (e ∈ values) × (v ∈ ir.users e)) × (is_inst ir v ≡ true) × (v ∈ others)))
  unfolding find_direct_uses_of_in
  ∈-find_direct_uses_of_in v [] others direct = ground arith
  ∈-find_direct_uses_of_in v (e ∷ es) others direct =
      let one = ∈-find_direct_uses_of v others (ir.users e) direct in
      let ih =
        ∈-find_direct_uses_of_in v es others (find_direct_uses_of ir others (ir.users e) direct) in
      (
        λ m. elim (ih.0 m) [
          | inl n ↦ elim (one.0 n) [
            | inl old ↦ inl old
            | inr (u, i, o) ↦ inr ((e, inl refl, u), i, o)
          ]
          | inr ((k, n, u), i, o) ↦ inr ((k, inr n, u), i, o)
        ],
        λ h. elim h [
          | inl old ↦ ih.1 (inl (one.1 (inl old)))
          | inr ((k, inl q, u), i, o) ↦
              ih.1 (inl (one.1 (inr (subst (λ x. v ∈ ir.users x) q u, i, o))))
          | inr ((k, inr n, u), i, o) ↦ ih.1 (inr ((k, n, u), i, o))
        ],
      )
