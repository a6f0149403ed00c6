-- ===== src/Annotator/Pass.antt =====
-- What the annotator pass leaves behind, and the flag that it returns.
use iterator_recognition.Prelude.{
  ℕ, ◌≡◌, refl, sym, ◌∙◌, subst, ◌↔◌, inl, inr, Bool, true, false, not, ◌&&◌, ◌||◌, List, [], ◌∷◌,
  arith, ltb, ◌==◌, ==_refl, Bool-cases, any, is_empty, any_intro, any_elim, flat_map, contains,
  contains_iff,
}
use iterator_recognition.Ir.{Ir, LoopInfo}
use iterator_recognition.Recognition.{IteratorInfo}
use iterator_recognition.Annotator.{
  MetadataNodes, Annotations, default_iterator_instruction_key, default_payload_instruction_key,
  default_loop_key, append, append_payload, annotate_info, annotate,
}
use iterator_recognition.Annotator.Instructions.{
  has_metadata, Gives, both-Gives, same-Gives, append-Gives, append_payload-Gives, is_payload,
}

module _ (md : MetadataNodes) (ir : Ir) (li : LoopInfo) (loop_depth_min loop_depth_max : ℕ)
    (annotate_payload : Bool) where
  abbrev loop_insts : IteratorInfo → List ℕ
  loop_insts info = flat_map ir.insts (li.blocks info.cur_loop)

  abbrev is_in_bounds : IteratorInfo → Bool
  is_in_bounds info = not (
      ltb loop_depth_max (li.loop_depth info.cur_loop)
      || ltb (li.loop_depth info.cur_loop) loop_depth_min)

  -- Whether an instruction is annotated for a loop under a key.
  abbrev is_marked : IteratorInfo → ℕ → ℕ → Bool
  is_marked info i key =
      (contains info.cur_instructions i && key == default_iterator_instruction_key)
      || (annotate_payload
          && (is_payload info (loop_insts info) i && key == default_payload_instruction_key))

  abbrev is_changed : IteratorInfo → Bool
  is_changed info =
      not (is_empty info.cur_instructions)
      || (annotate_payload && any (λ i. not (contains info.cur_instructions i)) (loop_insts info))

  -- Whether an instruction is annotated under a key for one of the loops within the bounds.
  abbrev pub is_annotated : List IteratorInfo → ℕ → ℕ → Bool
  is_annotated infos i key = any (λ info. is_in_bounds info && is_marked info i key) infos

  abbrev is_any_changed : List IteratorInfo → Bool
  is_any_changed infos = any (λ info. is_in_bounds info && is_changed info) infos

  annotate_info-Gives :
      (info : IteratorInfo) (s : Annotations md)
      → Gives md s
          (annotate_info md ir li loop_depth_min loop_depth_max annotate_payload info s)
          (is_marked info)
          (is_changed info)
  unfolding annotate_info
  annotate_info-Gives info s =
      let (s1, f1) =
        append md info.cur_instructions default_iterator_instruction_key info.cur_loop
          default_loop_key s in
      let (s2, f2) = append_payload md info (loop_insts info) s1 in
      let test1 : ℕ → ℕ → Bool =
        λ i key. contains info.cur_instructions i && key == default_iterator_instruction_key in
      let test2 : ℕ → ℕ → Bool =
        λ i key. is_payload info (loop_insts info) i && key == default_payload_instruction_key in
      let flag1 = not (is_empty info.cur_instructions) in
      let flag2 = any (λ i. not (contains info.cur_instructions i)) (loop_insts info) in
      let first =
        append-Gives md info.cur_instructions default_iterator_instruction_key info.cur_loop
          default_loop_key s in
      elim (Bool-cases annotate_payload) [
        | inl e ↦
            subst (λ (r : Annotations md × Bool). Gives md s r (is_marked info) (is_changed info))
              (let step : (s2, f1 || f2)
                    ≡ annotate_info md ir li loop_depth_min loop_depth_max annotate_payload info s =
                  rw (e, annotate_info) refl in
                step)
              (same-Gives md s (s2, f1 || f2) (λ i key. test1 i key || test2 i key) (is_marked info)
                (flag1 || flag2) (is_changed info)
                (both-Gives md s s1 s2 f1 f2 flag1 flag2 test1 test2 first
                  (append_payload-Gives md info (loop_insts info) s1))
                (λ i key. ground (arith, e)) (ground (arith, e)))
        | inr e ↦
            subst (λ (r : Annotations md × Bool). Gives md s r (is_marked info) (is_changed info))
              (let step : (s1, f1)
                    ≡ annotate_info md ir li loop_depth_min loop_depth_max annotate_payload info s =
                  rw (e, annotate_info) refl in
                step)
              (same-Gives md s (s1, f1) test1 (is_marked info) flag1 (is_changed info) first
                (λ i key. ground (arith, e)) (ground (arith, e)))
      ]

  annotate-Gives :
      (infos : List IteratorInfo) (s : Annotations md)
      → Gives md s
          (annotate md ir li loop_depth_min loop_depth_max annotate_payload infos s)
          (is_annotated infos)
          (is_any_changed infos)
  unfolding annotate
  annotate-Gives [] s = (λ i key. ground arith, refl)
  annotate-Gives (info ∷ infos) s =
      let run : List IteratorInfo → Annotations md → Annotations md × Bool =
        annotate md ir li loop_depth_min loop_depth_max annotate_payload in
      let (s1, f1) = annotate_info md ir li loop_depth_min loop_depth_max annotate_payload info s in
      let (s2, f2) = run infos s1 in
      let out_of_bounds =
        ltb loop_depth_max (li.loop_depth info.cur_loop)
        || ltb (li.loop_depth info.cur_loop) loop_depth_min in
      elim (Bool-cases out_of_bounds) [
        | inl e ↦
            subst
              (λ (r : Annotations md × Bool).
                Gives md s r (is_annotated (info ∷ infos)) (is_any_changed (info ∷ infos)))
              (let step : run infos s ≡ run (info ∷ infos) s = rw (e, annotate) refl in step)
              (same-Gives md s (run infos s) (is_annotated infos) (is_annotated (info ∷ infos))
                (is_any_changed infos) (is_any_changed (info ∷ infos)) (annotate-Gives infos s)
                (λ i key. rw e refl) (rw e refl))
        | inr e ↦
            subst
              (λ (r : Annotations md × Bool).
                Gives md s r (is_annotated (info ∷ infos)) (is_any_changed (info ∷ infos)))
              (let step : (s2, f1 || f2) ≡ run (info ∷ infos) s = rw (e, annotate) refl in step)
              (same-Gives md s (s2, f1 || f2)
                (λ i key. is_marked info i key || is_annotated infos i key)
                (is_annotated (info ∷ infos)) (is_changed info || is_any_changed infos)
                (is_any_changed (info ∷ infos))
                (both-Gives md s s1 s2 f1 f2 (is_changed info) (is_any_changed infos)
                  (is_marked info) (is_annotated infos) (annotate_info-Gives info s)
                  (annotate-Gives infos s1))
                (λ i key. rw e refl) (rw e refl))
      ]

  -- After the pass, an instruction has data under a key exactly when it had it before, or is annotated
  -- under the key for a loop whose depth is within the bounds: as one of its iterator's instructions
  -- under the iterator key, or, with the option for the payload, as one of the loop's other
  -- instructions under the payload key.
  pub has_metadata-annotate :
      (infos : List IteratorInfo) (s : Annotations md) (i key : ℕ)
      → has_metadata md
          (annotate md ir li loop_depth_min loop_depth_max annotate_payload infos s).0
          i
          key
        ≡ (has_metadata md s i key || is_annotated infos i key)
  has_metadata-annotate infos s i key = (annotate-Gives infos s).0 i key

  is_changed_iff :
      (info : IteratorInfo)
      → (is_changed info ≡ true) ↔ ((i : ℕ) × (key : ℕ) × (is_marked info i key ≡ true))
  is_changed_iff info = (changed, marked)
    where
      nonempty : (is : List ℕ) → is_empty is ≡ false → (i : ℕ) × (contains is i ≡ true)
      nonempty [] h = absurd (ground (arith, h))
      nonempty (x ∷ xs) h = (x, ground (arith, ==_refl x))

      filled : (is : List ℕ) (i : ℕ) → contains is i ≡ true → is_empty is ≡ false
      filled [] i h = absurd (ground (arith, h))
      filled (x ∷ xs) i h = refl

      free : ℕ → Bool
      free i = not (contains info.cur_instructions i)

      changed : is_changed info ≡ true → (i : ℕ) × (key : ℕ) × (is_marked info i key ≡ true)
      changed h = elim (Bool-cases (is_empty info.cur_instructions)) [
        | inl e ↦
            let both : (annotate_payload ≡ true) × (any free (loop_insts info) ≡ true) =
              ground (arith, h, e) in
            let (i, m, f) = any_elim free (loop_insts info) both.1 in
            (i, 1, ground (arith, both.0, f, contains_iff (loop_insts info) i, m))
        | inr e ↦ let (i, m) = nonempty info.cur_instructions e in (i, 0, ground (arith, m))
      ]

      marked : ((i : ℕ) × (key : ℕ) × (is_marked info i key ≡ true)) → is_changed info ≡ true
      marked (i, key, h) = elim (Bool-cases (contains info.cur_instructions i)) [
        | inl e ↦ ground (arith, filled info.cur_instructions i e)
        | inr e ↦
            let both : (annotate_payload ≡ true) × (contains (loop_insts info) i ≡ true) =
              ground (arith, h, e) in
            ground (
              arith,
              both.0,
              any_intro free (loop_insts info) i ((contains_iff (loop_insts info) i).0 both.1)
                  (ground (arith, e)),
            )
      ]

  -- The pass returns that it has changed something exactly when it annotates some instruction.
  pub annotate-changed_iff :
      (infos : List IteratorInfo) (s : Annotations md)
      → ((annotate md ir li loop_depth_min loop_depth_max annotate_payload infos s).1 ≡ true)
        ↔ ((i : ℕ) × (key : ℕ) × (is_annotated infos i key ≡ true))
  annotate-changed_iff infos s =
      let flag = (annotate-Gives infos s).1 in
      (
        λ h.
            let (info, m, c) =
              any_elim (λ info. is_in_bounds info && is_changed info) infos (sym flag ∙ h) in
            let (i, key, k) = (is_changed_iff info).0 (ground (arith, c)) in
            (
              i,
              key,
              any_intro (λ e. is_in_bounds e && is_marked e i key) infos info m
                  (ground (arith, c, k)),
            ),
        λ (i, key, h).
            let (info, m, c) = any_elim (λ e. is_in_bounds e && is_marked e i key) infos h in
            let k = (is_changed_iff info).1 (i, key, ground (arith, c)) in
            flag
            ∙ any_intro (λ e. is_in_bounds e && is_changed e) infos info m (ground (arith, c, k)),
      )
