-- ===== src/DetectOperations/Visits.antt =====
-- What the visits of the detector collect, in whatever order they are made.
use iterator_recognition.Prelude.{
  ℕ, ◌≡◌, refl, sym, ap, ◌∙◌, subst, ◌≢◌, ◌↔◌, ◌⊎◌, inl, inr, some, List, [], ◌∷◌, arith, ◌∈◌,
  ∈-insert,
}
use iterator_recognition.DetectOperations.{
  Detection, Failure, Part, absent, source, operation, passed, failing, take_part,
}
use iterator_recognition.Worklist.{Action, stop, go, Action-cases, visit_all}

module _ (part : ℕ → Part) where
  abbrev visit_part : ℕ → Detection → Action Detection
  visit_part v d = take_part (part v) v d

  -- Whether the visits of a list gather a value, by what is done at it.
  abbrev pub Gathered : Part → ℕ → List ℕ → Type 0
  Gathered p v order = (v ∈ order) × (part v ≡ p)

  pub record Collected (order : List ℕ) (d r : Detection) : Type 0 where
    pub sources : (v : ℕ) → v ∈ r.sources ↔ (Gathered source v order ⊎ (v ∈ d.sources))
    pub operations : (v : ℕ) → v ∈ r.operations ↔ (Gathered operation v order ⊎ (v ∈ d.operations))
    pub failure : r.failure ≡ d.failure
    pub handled : (v : ℕ) (f : Failure) → v ∈ order → part v ≢ failing f

  part-cong : (v w : ℕ) → v ≡ w → part v ≡ part w
  part-cong v w e = ap part e

  -- One visit more, before the others.
  Collected-visit :
      (w : ℕ) (order : List ℕ) (d d' r : Detection) (p : Part)
      → part w ≡ p
      → take_part p w d ≡ go d'
      → Collected order d' r
      → Collected (w ∷ order) d r
  unfolding take_part
  Collected-visit w order d d' r absent e h c = record {
    sources = λ v. ground (arith, h, c.sources v, part-cong v w);
    operations = λ v. ground (arith, h, c.operations v, part-cong v w);
    failure = ground (arith, h, c.failure);
    handled = λ v f m. ground (arith, c.handled v f, part-cong v w);
  }
  Collected-visit w order d d' r passed e h c = record {
    sources = λ v. ground (arith, h, c.sources v, part-cong v w);
    operations = λ v. ground (arith, h, c.operations v, part-cong v w);
    failure = ground (arith, h, c.failure);
    handled = λ v f m. ground (arith, c.handled v f, part-cong v w);
  }
  Collected-visit w order d d' r source e h c = record {
    sources = λ v. ground (arith, h, c.sources v, part-cong v w, ∈-insert v w d.sources);
    operations = λ v. ground (arith, h, c.operations v, part-cong v w);
    failure = ground (arith, h, c.failure);
    handled = λ v f m. ground (arith, c.handled v f, part-cong v w);
  }
  Collected-visit w order d d' r operation e h c = record {
    sources = λ v. ground (arith, h, c.sources v, part-cong v w);
    operations = λ v. ground (arith, h, c.operations v, part-cong v w, ∈-insert v w d.operations);
    failure = ground (arith, h, c.failure);
    handled = λ v f m. ground (arith, c.handled v f, part-cong v w);
  }
  Collected-visit w order d d' r (failing f) e h c = absurd (ground arith)

  pub visits_ended :
      (order : List ℕ) (d r : Detection) → visit_all visit_part order d ≡ go r → Collected order d r
  unfolding visit_all
  visits_ended [] d r h =
      let same : d ≡ r = cc in
      subst (Collected [] d) same (record {
        sources = λ v. ground arith;
        operations = λ v. ground arith;
        failure = refl;
        handled = λ v f m. absurd m;
      })
  visits_ended (w ∷ order) d r h = elim (Action-cases (take_part (part w) w d)) [
    | inl (d', e) ↦ absurd (ground arith)
    | inr (d', e) ↦
        Collected-visit w order d d' r (part w) refl e (visits_ended order d' r (ground arith))
  ]

  stopped_at :
      (p : Part) (w : ℕ) (d d' : Detection)
      → take_part p w d ≡ stop d'
      → (f : Failure) × (p ≡ failing f) × (d'.failure ≡ some f)
  unfolding take_part
  stopped_at absent w d d' e = absurd (ground arith)
  stopped_at source w d d' e = absurd (ground arith)
  stopped_at operation w d d' e = absurd (ground arith)
  stopped_at passed w d d' e = absurd (ground arith)
  stopped_at (failing f) w d d' e = (f, refl, ground arith)

  -- A visit that leaves the loop has failed.
  pub visits_stopped :
      (order : List ℕ) (d r : Detection)
      → visit_all visit_part order d ≡ stop r
      → (v : ℕ) × (f : Failure) × (v ∈ order) × (part v ≡ failing f) × (r.failure ≡ some f)
  unfolding visit_all
  visits_stopped [] d r h = absurd (ground arith)
  visits_stopped (w ∷ order) d r h = elim (Action-cases (take_part (part w) w d)) [
    | inl (d', e) ↦
        let (f, k, q) = stopped_at (part w) w d d' e in
        let same : d' ≡ r = ground arith in
        (w, f, inl refl, k, ap (λ (x : Detection). x.failure) (sym same) ∙ q)
    | inr (d', e) ↦
        let (v, f, m, k, q) = visits_stopped order d' r (ground arith) in (v, f, inr m, k, q)
  ]
