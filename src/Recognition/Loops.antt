-- ===== src/Recognition/Loops.antt =====
-- The loops of a condensation: those around a block that holds one of its instructions.
use mathlib.Core.WellFounded.{Acc}
use iterator_recognition.Prelude.{
  ℕ, ◌≡◌, refl, sym, ap, ◌∙◌, subst, ◌↔◌, ◌⊎◌, inl, inr, Option, some, List, [], ◌∷◌, arith,
  Option-cases, ◌∈◌, insert_all, ∈-insert_all,
}
use iterator_recognition.Ir.{LoopInfo}
use iterator_recognition.Recognition.{IsParent, enclosing, nest_wf, loops_around, loops_of, units}

-- Loop `l` holds block `b`: it is the innermost loop of `b`, or around a loop that holds it.
pub data Encloses (li : LoopInfo) (b : ℕ) : ℕ → Type 0 where
  innermost : {l : ℕ} → li.loop_for b ≡ some l → Encloses li b l
  outer : {l p : ℕ} → Encloses li b l → li.parent_loop l ≡ some p → Encloses li b p

pub ∈-units :
    (unit : ℕ → Option ℕ) (u : ℕ) (ns : List ℕ)
    → u ∈ units unit ns ↔ ((n : ℕ) × (n ∈ ns) × (unit n ≡ some u))
unfolding units
∈-units unit u [] = (λ m. absurd m, λ m. absurd m.1)
∈-units unit u (n ∷ ns) = elim (Option-cases (unit n)) [
  | inl e ↦
      rw (e, units)
        (
          λ m. let (k, h, q) = (∈-units unit u ns).0 m in (k, inr h, q),
          λ (k, h, q). elim h [
            | inl same ↦ absurd (ground (arith, ap unit same))
            | inr m ↦ (∈-units unit u ns).1 (k, m, q)
          ],
        )
  | inr (v, e) ↦
      rw (e, units)
        (
          λ m. elim m [
            | inl same ↦ (n, inl refl, e ∙ ap some (sym same))
            | inr later ↦ let (k, h, q) = (∈-units unit u ns).0 later in (k, inr h, q)
          ],
          λ (k, h, q). elim h [
            | inl same ↦ inl (ground (arith, ap unit same))
            | inr m ↦ inr ((∈-units unit u ns).1 (k, m, q))
          ],
        )
]

module _ (li : LoopInfo) where
  -- The loops from `l` outwards.
  data Outwards (l : ℕ) : ℕ → Type 0 where
    here : Outwards l l
    next : {k p : ℕ} → Outwards l k → li.parent_loop k ≡ some p → Outwards l p

  Outwards-cons : {l p k : ℕ} → li.parent_loop l ≡ some p → Outwards p k → Outwards l k
  Outwards-cons e here = next here e
  Outwards-cons e (next r q) = next (Outwards-cons e r) q

  Outwards-cases :
      {l k : ℕ} → Outwards l k → (k ≡ l) ⊎ ((p : ℕ) × (li.parent_loop l ≡ some p) × Outwards p k)
  Outwards-cases here = inl refl
  Outwards-cases {l} (next {k} {p} r q) = elim (Outwards-cases r) [
    | inl e ↦ inr (p, subst (λ x. li.parent_loop x ≡ some p) e q, here)
    | inr (p', e, r') ↦ inr (p', e, next r' q)
  ]

  ∈-enclosing : (l k : ℕ) (w : Acc (IsParent li) l) → k ∈ enclosing li l w ↔ Outwards l k
  unfolding enclosing
  ∈-enclosing l k (Acc.intro _ rest) =
      elim (Option-cases (li.parent_loop l))
        as (λ x.
          k ∈ (elim x [ inl e ↦ l ∷ [] | inr (p, e) ↦ l ∷ enclosing li p (rest p e) ])
          ↔ Outwards l k) [
            | inl e ↦ (
              λ m. elim m [ inl q ↦ subst (Outwards l) (sym q) here | inr n ↦ absurd n ],
              λ r. elim (Outwards-cases r) [ inl q ↦ inl q | inr (p, found, _) ↦ absurd (cc) ],
            )
            | inr (p, e) ↦
                let ih = ∈-enclosing p k (rest p e) in
                (
                  λ m. elim m [
                    | inl q ↦ subst (Outwards l) (sym q) here
                    | inr n ↦ Outwards-cons e (ih.0 n)
                  ],
                  λ r. elim (Outwards-cases r) [
                    | inl q ↦ inl q
                    | inr (p', found, r') ↦
                        let same : p' ≡ p = ground arith in
                        inr (ih.1 (subst (λ x. Outwards x k) same r'))
                  ],
                )
          ]

  Outwards-Encloses : {b l k : ℕ} → li.loop_for b ≡ some l → Outwards l k → Encloses li b k
  Outwards-Encloses e here = innermost e
  Outwards-Encloses e (next r q) = outer (Outwards-Encloses e r) q

  Encloses-Outwards :
      {b k : ℕ} → Encloses li b k → (l : ℕ) × (li.loop_for b ≡ some l) × Outwards l k
  Encloses-Outwards (innermost {l} e) = (l, e, here)
  Encloses-Outwards (outer r q) = let (l, e, o) = Encloses-Outwards r in (l, e, next o q)

  pub ∈-loops_around : (b l : ℕ) → l ∈ loops_around li (li.loop_for b) ↔ Encloses li b l
  unfolding loops_around
  ∈-loops_around b l = elim (Option-cases (li.loop_for b)) [
    | inl e ↦ (
      λ m. absurd (subst (λ o. l ∈ loops_around li o) e m),
      λ r. let (k, found, _) = Encloses-Outwards r in absurd (cc),
    )
    | inr (k, e) ↦
        let inner = ∈-enclosing k l (nest_wf li k) in
        (
          λ m. Outwards-Encloses e (inner.0 (subst (λ o. l ∈ loops_around li o) e m)),
          λ r.
              let (k', found, o) = Encloses-Outwards r in
              let same : k' ≡ k = ground arith in
              subst (λ o. l ∈ loops_around li o) (sym e)
                (inner.1 (subst (λ x. Outwards x l) same o)),
        )
  ]

  module _ (parent : ℕ → ℕ) (unit : ℕ → Option ℕ) where
    pub ∈-loops_of :
        (l : ℕ) (us loops : List ℕ)
        → l ∈ loops_of li parent unit us loops
          ↔ ((l ∈ loops) ⊎ ((u : ℕ) × (u ∈ us) × Encloses li (parent u) l))
    unfolding loops_of
    ∈-loops_of l [] loops = (inl, λ h. elim h [ inl m ↦ m | inr (u, n, r) ↦ absurd n ])
    ∈-loops_of l (u ∷ us) loops =
        let around = loops_around li (li.loop_for (parent u)) in
        let ih = ∈-loops_of l us (insert_all around loops) in
        let step = ∈-insert_all l around loops in
        let inner = ∈-loops_around (parent u) l in
        (
          λ m. elim (ih.0 m) [
            | inl n ↦ elim (step.0 n) [ inl a ↦ inr (u, inl refl, inner.0 a) | inr old ↦ inl old ]
            | inr (v, n, r) ↦ inr (v, inr n, r)
          ],
          λ h. elim h [
            | inl old ↦ ih.1 (inl (step.1 (inr old)))
            | inr (v, inl q, r) ↦
                ih.1 (inl (step.1 (inl (inner.1 (subst (λ x. Encloses li (parent x) l) q r)))))
            | inr (v, inr n, r) ↦ ih.1 (inr (v, n, r))
          ],
        )

    -- Some instruction of the members lies in the loop.
    abbrev pub Touches : List ℕ → ℕ → Type 0
    Touches members l =
        (n : ℕ) × (u : ℕ) × (n ∈ members) × (unit n ≡ some u) × Encloses li (parent u) l

    pub ∈-loops_of_members :
        (l : ℕ) (members : List ℕ)
        → l ∈ loops_of li parent unit (units unit members) [] ↔ Touches members l
    ∈-loops_of_members l members =
        let outer_lem = ∈-loops_of l (units unit members) [] in
        (
          λ m. elim (outer_lem.0 m) [
            | inl n ↦ absurd n
            | inr (u, n, r) ↦ let (k, h, q) = (∈-units unit u members).0 n in (k, u, h, q, r)
          ],
          λ (k, u, h, q, r). outer_lem.1 (inr (u, (∈-units unit u members).1 (k, h, q), r)),
        )
