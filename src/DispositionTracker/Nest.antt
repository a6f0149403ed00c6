-- ===== src/DispositionTracker/Nest.antt =====
-- The tracker and the loops of one nest.
use iterator_recognition.Prelude.{
  ℕ, ◌≡◌, refl, sym, ap, ◌∙◌, subst, ◌↔◌, ◌⊎◌, inl, inr, Bool, true, false, Option, none, some,
  List, arith, ◌==◌, ==_iff, Bool-cases, Option-cases,
}
use mathlib.Core.WellFounded.{Acc}
use iterator_recognition.Ir.{Ir, LoopInfo}
use iterator_recognition.Recognition.{IteratorInfo, IsParent, nest_wf}
use iterator_recognition.DispositionTracker.{
  DispositionTracker, is_some_of, top_from, top_of, infos_within, init,
}

-- A loop within the other, at any depth.
pub data IsWithin (li : LoopInfo) (top : ℕ) : ℕ → Type 0 where
  itself : IsWithin li top top
  inner : {l p : ℕ} → li.parent_loop l ≡ some p → IsWithin li top p → IsWithin li top l

module _ (ir : Ir) (li : LoopInfo) where
  top_from-IsWithin :
      (top : ℕ)
      → li.parent_loop top ≡ none
      → (l : ℕ) (a : Acc (IsParent li) l) → IsWithin li top l
      → top_from ir li l a ≡ top
  unfolding top_from
  top_from-IsWithin top outermost l (Acc.intro _ outer) itself =
      stays (Option-cases (li.parent_loop top))
    where
      stays :
          (c : (li.parent_loop top ≡ none) ⊎ ((p : ℕ) × (li.parent_loop top ≡ some p)))
          → elim c [ inl e ↦ top | inr (p, e) ↦ top_from ir li p (outer p e) ] ≡ top
      stays (inl e) = refl
      stays (inr (p, e)) = absurd (cc)
  top_from-IsWithin top outermost l (Acc.intro _ outer) (inner {p = q} h w) =
      climbs (λ p e. top_from-IsWithin top outermost p (outer p e))
        (Option-cases (li.parent_loop l))
    where
      climbs :
          ((p : ℕ) (e : li.parent_loop l ≡ some p)
            → IsWithin li top p
            → top_from ir li p (outer p e) ≡ top)
          → (c : (li.parent_loop l ≡ none) ⊎ ((p : ℕ) × (li.parent_loop l ≡ some p)))
          → elim c [ inl e ↦ l | inr (p, e) ↦ top_from ir li p (outer p e) ] ≡ top
      climbs above (inl e) = absurd (cc)
      climbs above (inr (p, e)) =
          let same : q ≡ p = cc in above p e (subst (IsWithin li top) same w)

  top_of-IsWithin :
      (top l : ℕ) → li.parent_loop top ≡ none → IsWithin li top l → top_of ir li l ≡ top
  unfolding top_of
  top_of-IsWithin top l outermost w = top_from-IsWithin top outermost l (nest_wf li l) w

  init_sets :
      (known : List IteratorInfo) (cur : ℕ) (t t' : DispositionTracker) (filled : Bool)
      → init ir li known cur t ≡ some (t', filled)
      → t'.top_loop ≡ some (top_of ir li cur)
  unfolding init
  init_sets known cur t t' filled h = elim (Bool-cases (is_some_of t.top_loop (top_of ir li cur))) [
    | inl e ↦
        let kept : t ≡ t' = ground arith in
        ap (λ (x : DispositionTracker). x.top_loop) (sym kept)
        ∙ set_to t.top_loop (top_of ir li cur) e
    | inr e ↦
        elim (Option-cases (infos_within ir li known (top_of ir li cur) li.loops_in_preorder)) [
          | inl q ↦ absurd (ground arith)
          | inr (infos, q) ↦ ground arith
        ]
  ]
    where
      set_to : (o : Option ℕ) (l : ℕ) → is_some_of o l ≡ true → o ≡ some l
      set_to none l h = absurd (ground arith)
      set_to (some k) l h = ap some ((==_iff k l).0 h)

  init_keeps :
      (known : List IteratorInfo) (cur : ℕ) (t : DispositionTracker)
      → (init ir li known cur t ≡ some (t, false))
        ↔ (is_some_of t.top_loop (top_of ir li cur) ≡ true)
  unfolding init
  init_keeps known cur t = elim (Bool-cases (is_some_of t.top_loop (top_of ir li cur))) [
    | inl e ↦ (λ h. e, λ q. rw (e, init) refl)
    | inr e ↦
        elim (Option-cases (infos_within ir li known (top_of ir li cur) li.loops_in_preorder)) [
          | inl q ↦ (λ h. absurd (ground arith), λ h. absurd (cc))
          | inr (infos, q) ↦ (λ h. absurd (ground arith), λ h. absurd (cc))
        ]
  ]

  -- Set up for a loop, the tracker holds the outermost loop around it; and set up again for another loop
  -- it is left as it is exactly when that loop is in the same nest.
  pub init-again :
      (known : List IteratorInfo) (top top' cur cur' : ℕ)
      → li.parent_loop top ≡ none
      → li.parent_loop top' ≡ none
      → IsWithin li top cur
      → IsWithin li top' cur'
      → (t t' : DispositionTracker) (filled : Bool) → init ir li known cur t ≡ some (t', filled)
      → (t'.top_loop ≡ some top) × ((init ir li known cur' t' ≡ some (t', false)) ↔ (top ≡ top'))
  init-again known top top' cur cur' outermost outermost' w w' t t' filled h =
      let holds : t'.top_loop ≡ some top =
        init_sets known cur t t' filled h ∙ ap some (top_of-IsWithin top cur outermost w) in
      let climbed = top_of-IsWithin top' cur' outermost' w' in
      let test : is_some_of t'.top_loop (top_of ir li cur') ≡ (top == top') =
        rw (holds, climbed) refl in
      let keeps = init_keeps known cur' t' in
      (
        holds,
        (
          λ k. (==_iff top top').0 (sym test ∙ keeps.0 k),
          λ same. keeps.1 (test ∙ (==_iff top top').1 same),
        ),
      )
