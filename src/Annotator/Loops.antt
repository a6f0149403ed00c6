-- ===== src/Annotator/Loops.antt =====
-- The IDs of loops.
use iterator_recognition.Prelude.{
  ℕ, ◌≡◌, refl, sym, ap, ◌∙◌, subst, ◌≢◌, inl, inr, Bool, true, false, some, List, [], ◌∷◌, ◌++◌,
  arith, ==_iff, ==_refl, Bool-cases, Option-cases, ◌∈◌, ∈-append, any, any_intro, any_elim,
}
use iterator_recognition.Annotator.{
  Operand, null_operand, md_string, md_node, md_other, is_key, MetadataNodes, Annotations,
  renew_loop_id, set_loop_id, annotate_loop,
}

-- What the operations on nodes are documented to do: the new node has the operands that it is given,
-- but itself for the first.
pub record IsDocumented (md : MetadataNodes) : Type 0 where
  pub loop_id_operands :
      (c : md.Context) (first : Operand) (rest : List Operand)
      → md.operands (md.get_loop_id c (first ∷ rest)).0 (md.get_loop_id c (first ∷ rest)).1
        ≡ md_node (md.get_loop_id c (first ∷ rest)).1 ∷ rest

is_key_self : (key : ℕ) → is_key key (md_string key) ≡ true
is_key_self key = ==_refl key

is_key_elim : (key : ℕ) (o : Operand) → is_key key o ≡ true → o ≡ md_string key
is_key_elim key null_operand h = absurd (ground arith)
is_key_elim key (md_string s) h = ap md_string ((==_iff s key).0 h)
is_key_elim key (md_node n) h = absurd (ground arith)
is_key_elim key (md_other n) h = absurd (ground arith)

has_key_elim : (key : ℕ) (os : List Operand) → any (is_key key) os ≡ true → md_string key ∈ os
has_key_elim key os h =
    let (o, m, k) = any_elim (is_key key) os h in
    subst (λ (x : Operand). x ∈ os) (is_key_elim key o k) m

module _ (md : MetadataNodes) where
  -- The loop is annotated: what annotateLoop returns is its ID, which has the key.
  abbrev pub IsAnnotatedLoop : ℕ → ℕ → Annotations md → ℕ → Type 0
  IsAnnotatedLoop key l s id = (s.loop_id l ≡ some id) × (md_string key ∈ md.operands s.context id)

  -- What was there is kept: the operands of the loop's ID, the other loops' IDs, the instructions' data.
  abbrev pub IsKept : ℕ → Annotations md → Annotations md → ℕ → Type 0
  IsKept l s s' id =
      ((cur : ℕ) (o : Operand)
        → s.loop_id l ≡ some cur
        → o ∈ md.operands s.context cur
        → o ∈ md.operands s'.context id)
      × ((m : ℕ) → m ≢ l → s'.loop_id m ≡ s.loop_id m)
      × (s'.inst_data ≡ s.inst_data)

  abbrev IsDone : ℕ → ℕ → Annotations md → Annotations md × Bool × ℕ → Type 0
  IsDone key l s (s', changed, id) = IsAnnotatedLoop key l s' id × IsKept l s s' id

module _ (md : MetadataNodes) (laws : IsDocumented md) where
  renew_loop_id_lem :
      (key l : ℕ) (kept : List Operand) (s : Annotations md)
      → ((cur : ℕ) → s.loop_id l ≡ some cur → md.operands s.context cur ≡ kept)
      → IsAnnotatedLoop md key l (renew_loop_id md key l kept s).0 (renew_loop_id md key l kept s).2
        × IsKept md l s (renew_loop_id md key l kept s).0 (renew_loop_id md key l kept s).2
  unfolding renew_loop_id set_loop_id
  renew_loop_id_lem key l kept s same =
      let ops = laws.loop_id_operands s.context null_operand (kept ++ md_string key ∷ []) in
      let inside = λ (o : Operand) (m : o ∈ (kept ++ md_string key ∷ [])).
        subst (λ (os : List Operand). o ∈ os) (sym ops) (inr m) in
      (
        (
          ground (arith, ==_refl l),
          inside (md_string key)
              ((∈-append (md_string key) kept (md_string key ∷ [])).1 (inr (inl refl))),
        ),
        (
          λ cur o q m. inside o (
              (∈-append o kept (md_string key ∷ [])).1
                (inl (subst (λ (os : List Operand). o ∈ os) (same cur q) m))),
          λ m n. ground (arith, ==_iff m l, n),
          refl,
        ),
      )

  annotate_loop-keeps :
      (key l : ℕ) (s : Annotations md)
      → IsAnnotatedLoop md key l (annotate_loop md key l s).0 (annotate_loop md key l s).2
        × IsKept md l s (annotate_loop md key l s).0 (annotate_loop md key l s).2
  unfolding annotate_loop
  annotate_loop-keeps key l s = elim (Option-cases (s.loop_id l)) [
    | inl e ↦
        let step : annotate_loop md key l s ≡ renew_loop_id md key l [] s =
          rw (e, annotate_loop) refl in
        subst (IsDone md key l s) (sym step) (renew_loop_id_lem key l [] s (λ cur q. absurd (cc)))
    | inr (cur, e) ↦ elim (Bool-cases (any (is_key key) (md.operands s.context cur))) [
      | inl k ↦
          let step : annotate_loop md key l s ≡ (s, false, cur) = rw (e, k, annotate_loop) refl in
          subst (IsDone md key l s) (sym step) (
            (e, has_key_elim key (md.operands s.context cur) k),
            (
              λ other o q m.
                  let same : cur ≡ other = ground (arith, sym e ∙ q) in
                  subst (λ (n : ℕ). o ∈ md.operands s.context n) (sym same) m,
              λ m n. refl,
              refl,
            ),
          )
      | inr k ↦
          let step : annotate_loop md key l s
              ≡ renew_loop_id md key l (md.operands s.context cur) s =
            rw (e, k, annotate_loop) refl in
          subst (IsDone md key l s) (sym step) (
            renew_loop_id_lem key l (md.operands s.context cur) s (λ other q.
              let same : other ≡ cur = ground (arith, sym q ∙ e) in
              ap (md.operands s.context) same))
    ]
  ]

  annotated_already :
      (key l : ℕ) (s' : Annotations md) (id : ℕ)
      → s'.loop_id l ≡ some id
      → any (is_key key) (md.operands s'.context id) ≡ true
      → annotate_loop md key l s' ≡ (s', false, id)
  unfolding annotate_loop
  annotated_already key l s' id there k = rw (there, k, annotate_loop) refl

  -- Where a new node has the operands it is given: the annotated loop's ID has the key, each operand of
  -- the ID that the loop had is kept, and so are the other loops' IDs and the instructions' data; and
  -- annotated again with the key, the loop keeps its ID, and nothing else changes.
  pub annotate_loop-keeps_again :
      (key l : ℕ) (s : Annotations md)
      → IsAnnotatedLoop md key l (annotate_loop md key l s).0 (annotate_loop md key l s).2
        × IsKept md l s (annotate_loop md key l s).0 (annotate_loop md key l s).2
        × (annotate_loop md key l (annotate_loop md key l s).0
            ≡ ((annotate_loop md key l s).0, false, (annotate_loop md key l s).2))
  annotate_loop-keeps_again key l s =
      let s' = (annotate_loop md key l s).0 in
      let id = (annotate_loop md key l s).2 in
      let ((there, has_key), kept) = annotate_loop-keeps key l s in
      (
        (there, has_key),
        kept,
        annotated_already key l s' id there (
            any_intro (is_key key) (md.operands s'.context id) (md_string key) has_key
              (is_key_self key)),
      )
