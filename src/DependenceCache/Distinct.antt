-- ===== src/DependenceCache/Distinct.antt =====
-- Which instructions the cache says it contains.
use iterator_recognition.Prelude.{
  ℕ, ◌≡◌, refl, sym, ap, ◌∙◌, ◌↔◌, ◌⊎◌, inl, inr, true, List, [], ◌∷◌, arith, Bool-cases, ◌∈◌,
  insert, ∈-insert,
}
use iterator_recognition.DependenceCache.{
  AliasAnalysis, DependenceCache, is_dependence, record_dependence, record_after, record_pairs,
  calculate,
}
use iterator_recognition.DependenceCache.Pairs.{Before}

module _ (aa : AliasAnalysis) where
  -- Whether `v` is an end of a dependence of `i1` on one of `rest`.
  abbrev HasEnd : ℕ → ℕ → List ℕ → Type 0
  HasEnd v i1 [] = ⊥
  HasEnd v i1 (i2 ∷ rest) =
      ((is_dependence aa i1 i2 ≡ true) × ((v ≡ i1) ⊎ (v ≡ i2))) ⊎ HasEnd v i1 rest

  -- Whether `v` is an end of a dependence between two instructions of a list, the first before the
  -- second.
  abbrev pub IsEnd : ℕ → List ℕ → Type 0
  IsEnd v insts =
      (a : ℕ) × (b : ℕ) × Before a b insts × (is_dependence aa a b ≡ true) × ((v ≡ a) ⊎ (v ≡ b))

  ∈-record_after-distinct :
      (v i1 : ℕ) (rest : List ℕ) (c : DependenceCache aa)
      → v ∈ (record_after aa i1 rest c).distinct_instructions
        ↔ (HasEnd v i1 rest ⊎ (v ∈ c.distinct_instructions))
  unfolding record_after record_dependence
  ∈-record_after-distinct v i1 [] c = ground arith
  ∈-record_after-distinct v i1 (i2 ∷ rest) c = elim (Bool-cases (is_dependence aa i1 i2)) [
    | inl e ↦
        rw (e, record_after)
          (ground (
            arith,
            ∈-record_after-distinct v i1 rest (record_dependence aa i1 i2 c),
            ∈-insert v i2 (insert i1 c.distinct_instructions),
            ∈-insert v i1 c.distinct_instructions,
          ))
    | inr e ↦ rw (e, record_after) (ground (arith, ∈-record_after-distinct v i1 rest c))
  ]

  HasEnd-elim :
      (v i1 : ℕ) (rest : List ℕ)
      → HasEnd v i1 rest
      → (b : ℕ) × (b ∈ rest) × (is_dependence aa i1 b ≡ true) × ((v ≡ i1) ⊎ (v ≡ b))
  HasEnd-elim v i1 [] h = absurd h
  HasEnd-elim v i1 (i2 ∷ rest) (inl (e, h)) = (i2, inl refl, e, h)
  HasEnd-elim v i1 (i2 ∷ rest) (inr h) =
      let (b, m, e, q) = HasEnd-elim v i1 rest h in (b, inr m, e, q)

  HasEnd-intro :
      (v i1 : ℕ) (rest : List ℕ) (b : ℕ)
      → b ∈ rest
      → is_dependence aa i1 b ≡ true
      → (v ≡ i1) ⊎ (v ≡ b)
      → HasEnd v i1 rest
  HasEnd-intro v i1 [] b m e q = absurd m
  HasEnd-intro v i1 (i2 ∷ rest) b (inl p) e q =
      inl (ap (is_dependence aa i1) (sym p) ∙ e, elim q [ inl r ↦ inl r | inr r ↦ inr (r ∙ p) ])
  HasEnd-intro v i1 (i2 ∷ rest) b (inr m) e q = inr (HasEnd-intro v i1 rest b m e q)

  ∈-record_pairs-distinct :
      (v : ℕ) (insts : List ℕ) (c : DependenceCache aa)
      → v ∈ (record_pairs aa insts c).distinct_instructions
        ↔ (IsEnd v insts ⊎ (v ∈ c.distinct_instructions))
  unfolding record_pairs
  ∈-record_pairs-distinct v [] c = (inr, λ h. elim h [ inl (a, b, m, e, q) ↦ absurd m | inr m ↦ m ])
  ∈-record_pairs-distinct v (i1 ∷ rest) c =
      let later = ∈-record_pairs-distinct v rest (record_after aa i1 rest c) in
      let here = ∈-record_after-distinct v i1 rest c in
      (
        λ h. elim (later.0 h) [
          | inl (a, b, m, e, q) ↦ inl (a, b, inr m, e, q)
          | inr m ↦ elim (here.0 m) [
            | inl k ↦ let (b, n, e, q) = HasEnd-elim v i1 rest k in inl (i1, b, inl (refl, n), e, q)
            | inr n ↦ inr n
          ]
        ],
        λ h. elim h [
          | inl (a, b, inr m, e, q) ↦ later.1 (inl (a, b, m, e, q))
          | inl (a, b, inl (p, n), e, q) ↦ later.1 (
              inr (
                here.1 (
                  inl (
                    HasEnd-intro v i1 rest b n (ap (λ (k : ℕ). is_dependence aa k b) (sym p) ∙ e)
                      (elim q [ inl r ↦ inl (r ∙ p) | inr r ↦ inr r ])))))
          | inr m ↦ later.1 (inr (here.1 (inr m)))
        ],
      )

  -- After a calculation, the cache contains exactly the instructions that it contained before and
  -- the ends of the dependences between two of the instructions, the first before the second.
  pub ∈-calculate-distinct_instructions :
      (v : ℕ) (insts : List ℕ) (c : DependenceCache aa)
      → v ∈ (calculate aa insts c).distinct_instructions
        ↔ (IsEnd v insts ⊎ (v ∈ c.distinct_instructions))
  unfolding calculate
  ∈-calculate-distinct_instructions v insts c =
      ∈-record_pairs-distinct v insts (record c { dependences = [] })
