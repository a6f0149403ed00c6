-- ===== src/DependenceCache/Pairs.antt =====
-- Which pairs of instructions a calculation records.
use iterator_recognition.Prelude.{
  ℕ, ◌≡◌, ap, subst, ◌↔◌, ◌⊎◌, inl, inr, true, false, List, [], ◌∷◌, arith, ◌==◌, ==_iff,
  Bool-cases, &&_iff, ◌∈◌, ∈-append, any, any_elim,
}
use iterator_recognition.DependenceCache.{
  AliasAnalysis, Entry, DependenceCache, has_key, insert_dependence, is_dependence,
  record_dependence, record_after, record_pairs, calculate,
}

-- Whether `a` stands before `b` in a list.
abbrev pub Before : ℕ → ℕ → List ℕ → Type 0
Before a b [] = ⊥
Before a b (x ∷ xs) = ((a ≡ x) × (b ∈ xs)) ⊎ Before a b xs

module _ (aa : AliasAnalysis) where
  open aa use {ModRefInfo, get_mod_ref_info, is_mod_set, is_no_mod_ref}

  -- The cache keeps the alias analysis' data.
  abbrev IsConsistent : List (Entry aa) → Type 0
  IsConsistent es = (a b : ℕ) (d : ModRefInfo) → ((a, b), d) ∈ es → d ≡ get_mod_ref_info b a

  abbrev IsEntry : ℕ → ℕ → ModRefInfo → ℕ → ℕ → Type 0
  IsEntry a b d i1 i2 = (a ≡ i1) × (b ≡ i2) × (d ≡ get_mod_ref_info b a)

  IsEntry-iff :
      (a b i1 i2 : ℕ) (d : ModRefInfo)
      → (◌≡◌ {A = Entry aa} ((a, b), d) ((i1, i2), get_mod_ref_info i2 i1)) ↔ IsEntry a b d i1 i2
  IsEntry-iff a b i1 i2 d =
      (λ e. (ap (λ (x : Entry aa). x.0.0) e, ap (λ (x : Entry aa). x.0.1) e, cc), λ (p, q, r). cc)

  key_there :
      (a b i1 i2 : ℕ) (d : ModRefInfo) (es : List (Entry aa))
      → IsConsistent es
      → any (has_key aa i1 i2) es ≡ true
      → IsEntry a b d i1 i2
      → ((a, b), d) ∈ es
  key_there a b i1 i2 d es ok h (p, q, r) =
      let (((a', b'), d'), m, k) = any_elim (has_key aa i1 i2) es h in
      let both = (&&_iff (a' == i1) (b' == i2)).0 k in
      let pa : a' ≡ i1 = (==_iff a' i1).0 both.0 in
      let pb : b' ≡ i2 = (==_iff b' i2).0 both.1 in
      let pd : d' ≡ get_mod_ref_info b' a' = ok a' b' d' m in
      let same : ◌≡◌ {A = Entry aa} ((a', b'), d') ((a, b), d) = cc in
      subst (λ (x : Entry aa). x ∈ es) same m

  ∈-insert_dependence :
      (a b i1 i2 : ℕ) (d : ModRefInfo) (es : List (Entry aa))
      → IsConsistent es
      → ((a, b), d) ∈ insert_dependence aa i1 i2 (get_mod_ref_info i2 i1) es
        ↔ (IsEntry a b d i1 i2 ⊎ (((a, b), d) ∈ es))
  unfolding insert_dependence
  ∈-insert_dependence a b i1 i2 d es ok = elim (Bool-cases (any (has_key aa i1 i2) es)) [
    | inl e ↦ rw e (inr, λ h. elim h [ inl k ↦ key_there a b i1 i2 d es ok e k | inr m ↦ m ])
    | inr e ↦ rw e (
        ground (
          arith,
          ∈-append ((a, b), d) es (((i1, i2), get_mod_ref_info i2 i1) ∷ []),
          IsEntry-iff a b i1 i2 d,
        ))
  ]

  -- What the inner loop adds, of the instructions of `rest`.
  abbrev Added : ℕ → ℕ → ModRefInfo → ℕ → List ℕ → Type 0
  Added a b d i1 rest =
      (a ≡ i1) × (b ∈ rest) × (is_dependence aa a b ≡ true) × (d ≡ get_mod_ref_info b a)

  insert_dependence-IsConsistent :
      (i1 i2 : ℕ) (es : List (Entry aa))
      → IsConsistent es
      → IsConsistent (insert_dependence aa i1 i2 (get_mod_ref_info i2 i1) es)
  insert_dependence-IsConsistent i1 i2 es ok a b d m =
      elim ((∈-insert_dependence a b i1 i2 d es ok).0 m) [ inl (p, q, r) ↦ r | inr n ↦ ok a b d n ]

  is_dependence-cong :
      (a b i1 i2 : ℕ) → a ≡ i1 → b ≡ i2 → is_dependence aa a b ≡ is_dependence aa i1 i2
  is_dependence-cong a b i1 i2 p q = cc

  ∈-record_after :
      (a b : ℕ) (d : ModRefInfo) (i1 : ℕ) (rest : List ℕ) (c : DependenceCache aa)
      → IsConsistent c.dependences
      → ((a, b), d) ∈ (record_after aa i1 rest c).dependences
        ↔ (Added a b d i1 rest ⊎ (((a, b), d) ∈ c.dependences))
  unfolding record_after record_dependence
  ∈-record_after a b d i1 [] c ok = ground arith
  ∈-record_after a b d i1 (i2 ∷ rest) c ok = elim (Bool-cases (is_dependence aa i1 i2)) [
    | inl e ↦
        rw (e, record_after)
          (ground (
            arith,
            ∈-record_after a b d i1 rest (record_dependence aa i1 i2 c)
                (insert_dependence-IsConsistent i1 i2 c.dependences ok),
            ∈-insert_dependence a b i1 i2 d c.dependences ok,
            is_dependence-cong a b i1 i2,
          ))
    | inr e ↦
        rw (e, record_after)
          (ground (arith, ∈-record_after a b d i1 rest c ok, is_dependence-cong a b i1 i2))
  ]

  record_after-IsConsistent :
      (i1 : ℕ) (rest : List ℕ) (c : DependenceCache aa)
      → IsConsistent c.dependences
      → IsConsistent (record_after aa i1 rest c).dependences
  record_after-IsConsistent i1 rest c ok a b d m = elim ((∈-record_after a b d i1 rest c ok).0 m) [
    | inl (p, q, r, t) ↦ t
    | inr n ↦ ok a b d n
  ]

  ∈-record_pairs :
      (a b : ℕ) (d : ModRefInfo) (insts : List ℕ) (c : DependenceCache aa)
      → IsConsistent c.dependences
      → ((a, b), d) ∈ (record_pairs aa insts c).dependences ↔ (
          (Before a b insts × (is_dependence aa a b ≡ true) × (d ≡ get_mod_ref_info b a))
          ⊎ (((a, b), d) ∈ c.dependences))
  unfolding record_pairs
  ∈-record_pairs a b d [] c ok = ground arith
  ∈-record_pairs a b d (i1 ∷ rest) c ok = ground (
    arith,
    ∈-record_pairs a b d rest (record_after aa i1 rest c) (record_after-IsConsistent i1 rest c ok),
    ∈-record_after a b d i1 rest c ok,
  )

  -- Whatever the cache held before: after a calculation, an entry for two instructions is in the
  -- cache exactly when the first stands before the second, the second may modify what the first
  -- accesses, the first has an effect on what the second accesses, and the entry's data is the
  -- second's effect.
  pub ∈-calculate :
      (a b : ℕ) (d : ModRefInfo) (insts : List ℕ) (c : DependenceCache aa)
      → ((a, b), d) ∈ (calculate aa insts c).dependences ↔ (
          Before a b insts
          × (is_mod_set (get_mod_ref_info b a) ≡ true)
          × (is_no_mod_ref (get_mod_ref_info a b) ≡ false)
          × (d ≡ get_mod_ref_info b a))
  unfolding calculate is_dependence
  ∈-calculate a b d insts c =
      ground
        (arith, ∈-record_pairs a b d insts (record c { dependences = [] }) (λ x y e m. absurd m))
