-- ===== src/Annotator/Instructions.antt =====
-- The data of the instructions, and the flag that the pass returns.
use iterator_recognition.Prelude.{
  ℕ, ◌≡◌, refl, sym, ap, ◌∙◌, subst, inl, inr, Bool, true, false, not, ◌&&◌, ◌||◌, Option, none,
  some, List, [], ◌∷◌, arith, ◌==◌, ==_iff, Bool-cases, Option-cases, any, is_empty, contains,
}
use iterator_recognition.Recognition.{IteratorInfo}
use iterator_recognition.Annotator.{
  is_key, MetadataNodes, Annotations, default_payload_instruction_key, default_loop_key,
  set_loop_id, set_metadata, renew_loop_id, annotate_loop, append_inst, append_range, append,
  append_one, append_payload,
}

abbrev is_some : Option ℕ → Bool
is_some none = false
is_some (some n) = true

-- Whether an instruction has data under a key.
abbrev pub has_metadata : (md : MetadataNodes) → Annotations md → ℕ → ℕ → Bool
has_metadata md s i key = is_some (s.inst_data i key)

-- Whether a value is of the payload: among the instructions of the blocks, and not in the iterator.
abbrev pub is_payload : IteratorInfo → List ℕ → ℕ → Bool
is_payload info is i = contains is i && not (contains info.cur_instructions i)

module _ (md : MetadataNodes) where
  -- An operation that gives data to the instructions of the test, and says so.
  abbrev pub Gives : Annotations md → Annotations md × Bool → (ℕ → ℕ → Bool) → Bool → Type 0
  Gives s r test flag =
      ((i key : ℕ) → has_metadata md r.0 i key ≡ (has_metadata md s i key || test i key))
      × (r.1 ≡ flag)

  annotate_loop-inst_data :
      (key l : ℕ) (s : Annotations md)
      → ((annotate_loop md key l s).0.inst_data ≡ s.inst_data)
        × ((annotate_loop md key l s).1 ≡ false)
  unfolding annotate_loop renew_loop_id set_loop_id
  annotate_loop-inst_data key l s = elim (Option-cases (s.loop_id l)) [
    | inl e ↦ rw (e, annotate_loop) (refl, refl)
    | inr (cur, e) ↦ elim (Bool-cases (any (is_key key) (md.operands s.context cur))) [
      | inl k ↦ rw (e, k, annotate_loop) (refl, refl)
      | inr k ↦ rw (e, k, annotate_loop) (refl, refl)
    ]
  ]

  set_metadata_lem :
      (inst k n : ℕ) (s : Annotations md) (i key : ℕ)
      → has_metadata md (set_metadata md inst k n s) i key
        ≡ (has_metadata md s i key || (i == inst && key == k))
  unfolding set_metadata
  set_metadata_lem inst k n s i key = ground arith

  append_inst-Gives :
      (inst k n : ℕ) (s : Annotations md)
      → Gives s (append_inst md inst k n s) (λ i key. i == inst && key == k) true
  unfolding append_inst
  append_inst-Gives inst k n s = elim (Option-cases (s.inst_data inst k)) [
    | inl e ↦ rw (e, append_inst) (set_metadata_lem inst k n s, refl)
    | inr (held, e) ↦
        let (c, m) = md.concatenate s.context held n in
        rw (e, append_inst) (set_metadata_lem inst k m (record s { context = c }), refl)
  ]

  -- One operation after another.
  pub both-Gives :
      (s s1 s2 : Annotations md) (f1 f2 flag1 flag2 : Bool) (test1 test2 : ℕ → ℕ → Bool)
      → Gives s (s1, f1) test1 flag1
      → Gives s1 (s2, f2) test2 flag2
      → Gives s (s2, f1 || f2) (λ i key. test1 i key || test2 i key) (flag1 || flag2)
  both-Gives s s1 s2 f1 f2 flag1 flag2 test1 test2 (first, q) (others, r) =
      (λ i key. ground (arith, first i key, others i key), ground (arith, q, r))

  pub same-Gives :
      (s : Annotations md) (r : Annotations md × Bool) (test test' : ℕ → ℕ → Bool)
      (flag flag' : Bool)
      → Gives s r test flag
      → ((i key : ℕ) → test i key ≡ test' i key)
      → flag ≡ flag'
      → Gives s r test' flag'
  same-Gives s r test test' flag flag' (given, q) same e =
      (λ i key. ground (arith, given i key, same i key), q ∙ e)

  append_range-Gives :
      (insts : List ℕ) (k n : ℕ) (s : Annotations md)
      → Gives s
          (append_range md insts k n s)
          (λ i key. contains insts i && key == k)
          (not (is_empty insts))
  unfolding append_range
  append_range-Gives [] k n s = (λ i key. ground arith, refl)
  append_range-Gives (x ∷ xs) k n s =
      let (s1, f1) = append_inst md x k n s in
      let (s2, f2) = append_range md xs k n s1 in
      same-Gives s (s2, f1 || f2) (λ i key. (i == x && key == k) || (contains xs i && key == k))
        (λ i key. contains (x ∷ xs) i && key == k) (true || not (is_empty xs)) true
        (both-Gives s s1 s2 f1 f2 true (not (is_empty xs)) (λ i key. i == x && key == k)
          (λ i key. contains xs i && key == k) (append_inst-Gives x k n s)
          (append_range-Gives xs k n s1))
        (λ i key. ground arith) refl

  -- The annotation of the loop gives nothing to an instruction.
  loop_first-Gives :
      (key l : ℕ) (s s2 : Annotations md) (f2 flag : Bool) (test : ℕ → ℕ → Bool)
      → Gives (annotate_loop md key l s).0 (s2, f2) test flag
      → Gives s (s2, (annotate_loop md key l s).1 || f2) test flag
  loop_first-Gives key l s s2 f2 flag test (given, q) =
      let (kept, silent) = annotate_loop-inst_data key l s in
      (
        λ i k. given i k ∙ ap (λ (d : ℕ → ℕ → Option ℕ). is_some (d i k) || test i k) kept,
        ground (arith, silent, q),
      )

  pub append-Gives :
      (insts : List ℕ) (k l loop_key : ℕ) (s : Annotations md)
      → Gives s
          (append md insts k l loop_key s)
          (λ i key. contains insts i && key == k)
          (not (is_empty insts))
  unfolding append
  append-Gives insts k l loop_key s =
      let (s1, changed, id) = annotate_loop md loop_key l s in
      let (s2, f2) = append_range md insts k id s1 in
      loop_first-Gives loop_key l s s2 f2 (not (is_empty insts))
        (λ i key. contains insts i && key == k) (append_range-Gives insts k id s1)

  append_one-Gives :
      (inst k l loop_key : ℕ) (s : Annotations md)
      → Gives s (append_one md inst k l loop_key s) (λ i key. i == inst && key == k) true
  unfolding append_one
  append_one-Gives inst k l loop_key s =
      let (s1, changed, id) = annotate_loop md loop_key l s in
      let (s2, f2) = append_inst md inst k id s1 in
      loop_first-Gives loop_key l s s2 f2 true (λ i key. i == inst && key == k)
        (append_inst-Gives inst k id s1)

  pub append_payload-Gives :
      (info : IteratorInfo) (is : List ℕ) (s : Annotations md)
      → Gives s
          (append_payload md info is s)
          (λ i key. is_payload info is i && key == default_payload_instruction_key)
          (any (λ i. not (contains info.cur_instructions i)) is)
  unfolding append_payload
  append_payload-Gives info [] s = (λ i key. ground arith, refl)
  append_payload-Gives info (x ∷ xs) s =
      let k = default_payload_instruction_key in
      let free : ℕ → Bool = λ i. not (contains info.cur_instructions i) in
      elim (Bool-cases (contains info.cur_instructions x)) [
        | inl e ↦
            let step : append_payload md info (x ∷ xs) s ≡ append_payload md info xs s =
              rw (e, append_payload) refl in
            subst
              (λ (r : Annotations md × Bool).
                Gives s r (λ i key. is_payload info (x ∷ xs) i && key == k) (any free (x ∷ xs)))
              (sym step)
              (same-Gives s (append_payload md info xs s)
                (λ i key. is_payload info xs i && key == k)
                (λ i key. is_payload info (x ∷ xs) i && key == k) (any free xs) (any free (x ∷ xs))
                (append_payload-Gives info xs s)
                (λ i key. elim (Bool-cases (i == x)) [
                  | inl q ↦
                      let same : contains info.cur_instructions i ≡ true =
                        ap (contains info.cur_instructions) ((==_iff i x).0 q) ∙ e in
                      ground (arith, same)
                  | inr q ↦ ground (arith, q)
                ])
                (ground (arith, e)))
        | inr e ↦
            let (s1, f1) = append_one md x k info.cur_loop default_loop_key s in
            let (s2, f2) = append_payload md info xs s1 in
            let step : append_payload md info (x ∷ xs) s ≡ (s2, f1 || f2) =
              rw (e, append_payload) refl in
            subst
              (λ (r : Annotations md × Bool).
                Gives s r (λ i key. is_payload info (x ∷ xs) i && key == k) (any free (x ∷ xs)))
              (sym step)
              (same-Gives s (s2, f1 || f2)
                (λ i key. (i == x && key == k) || (is_payload info xs i && key == k))
                (λ i key. is_payload info (x ∷ xs) i && key == k) (true || any free xs)
                (any free (x ∷ xs))
                (both-Gives s s1 s2 f1 f2 true (any free xs) (λ i key. i == x && key == k)
                  (λ i key. is_payload info xs i && key == k)
                  (append_one-Gives x k info.cur_loop default_loop_key s)
                  (append_payload-Gives info xs s1))
                (λ i key. elim (Bool-cases (i == x)) [
                  | inl q ↦
                      let same : contains info.cur_instructions i ≡ false =
                        ap (contains info.cur_instructions) ((==_iff i x).0 q) ∙ e in
                      ground (arith, same)
                  | inr q ↦ ground (arith, q)
                ])
                (ground (arith, e)))
      ]
