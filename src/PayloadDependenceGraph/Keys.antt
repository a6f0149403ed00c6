-- ===== src/PayloadDependenceGraph/Keys.antt =====
-- A calculation records each pair once, so the dependences stand for edges apart from each other.
use iterator_recognition.Prelude.{
  ℕ, ◌≡◌, refl, ap, ◌∙◌, inl, inr, Bool, true, false, ◌||◌, List, [], ◌∷◌, ◌++◌, map, arith, ◌==◌,
  ==_iff, Bool-cases, &&_iff, Bool-ext, any,
}
use iterator_recognition.DependenceCache.{
  AliasAnalysis, Entry, DependenceCache, has_key, insert_dependence, is_dependence,
  record_dependence, record_after, record_pairs, calculate,
}
use iterator_recognition.GraphUpdater.{DependenceGraph}
use iterator_recognition.GraphUpdater.RoundTrip.{is_fresh, is_apart}

module _ (aa : AliasAnalysis) where
  -- No pair twice.
  abbrev pub KeysApart : List (Entry aa) → Type 0
  KeysApart [] = Unit
  KeysApart (((a, b), d) ∷ es) = (any (has_key aa a b) es ≡ false) × KeysApart es

  any-snoc :
      (p : Entry aa → Bool) (es : List (Entry aa)) (e : Entry aa)
      → any p (es ++ e ∷ []) ≡ (any p es || p e)
  any-snoc p [] e = ground arith
  any-snoc p (k ∷ es) e = ground (arith, any-snoc p es e)

  KeysApart-snoc :
      (a b : ℕ) (d : aa.ModRefInfo) (es : List (Entry aa))
      → any (has_key aa a b) es ≡ false
      → KeysApart es
      → KeysApart (es ++ ((a, b), d) ∷ [])
  KeysApart-snoc a b d [] h k = (refl, tt)
  KeysApart-snoc a b d (((x, y), c) ∷ es) h k = (
    any-snoc (has_key aa x y) es ((a, b), d)
        ∙ ground (arith, h, k.0, ==_iff x a, ==_iff y b, ==_iff a x, ==_iff b y),
    KeysApart-snoc a b d es (ground arith) k.1,
  )

  KeysApart-record_dependence :
      (i1 i2 : ℕ) (c : DependenceCache aa)
      → KeysApart c.dependences
      → KeysApart (record_dependence aa i1 i2 c).dependences
  unfolding record_dependence insert_dependence
  KeysApart-record_dependence i1 i2 c k = elim (Bool-cases (any (has_key aa i1 i2) c.dependences)) [
    | inl e ↦ rw (e, insert_dependence) k
    | inr e ↦
        rw (e, insert_dependence)
          (KeysApart-snoc i1 i2 (aa.get_mod_ref_info i2 i1) c.dependences e k)
  ]

  KeysApart-record_after :
      (i1 : ℕ) (rest : List ℕ) (c : DependenceCache aa)
      → KeysApart c.dependences
      → KeysApart (record_after aa i1 rest c).dependences
  unfolding record_after
  KeysApart-record_after i1 [] c k = k
  KeysApart-record_after i1 (i2 ∷ rest) c k = elim (Bool-cases (is_dependence aa i1 i2)) [
    | inl e ↦
        rw (e, record_after)
          (KeysApart-record_after i1 rest (record_dependence aa i1 i2 c)
            (KeysApart-record_dependence i1 i2 c k))
    | inr e ↦ rw (e, record_after) (KeysApart-record_after i1 rest c k)
  ]

  KeysApart-record_pairs :
      (insts : List ℕ) (c : DependenceCache aa)
      → KeysApart c.dependences
      → KeysApart (record_pairs aa insts c).dependences
  unfolding record_pairs
  KeysApart-record_pairs [] c k = k
  KeysApart-record_pairs (i1 ∷ rest) c k =
      KeysApart-record_pairs rest (record_after aa i1 rest c) (KeysApart-record_after i1 rest c k)

  pub KeysApart-calculate :
      (insts : List ℕ) (c : DependenceCache aa) → KeysApart (calculate aa insts c).dependences
  unfolding calculate
  KeysApart-calculate insts c = KeysApart-record_pairs insts (record c { dependences = [] }) tt

  module _ (dg : DependenceGraph)
      (injective : (u v : ℕ) → dg.get_node u ≡ dg.get_node v → u ≡ v) where
    same_node : (u v : ℕ) → (dg.get_node u == dg.get_node v) ≡ (u == v)
    same_node u v = Bool-ext (dg.get_node u == dg.get_node v) (u == v) (
      λ h. (==_iff u v).1 (injective u v ((==_iff (dg.get_node u) (dg.get_node v)).0 h)),
      λ h. (==_iff (dg.get_node u) (dg.get_node v)).1 (ap dg.get_node ((==_iff u v).0 h)),
    )

    is_fresh-keys :
        (a b : ℕ) (es : List (Entry aa))
        → any (has_key aa a b) es ≡ false
        → is_fresh dg (dg.get_node a) (dg.get_node b) (map (λ (e : Entry aa). e.0) es) ≡ true
    is_fresh-keys a b [] h = refl
    is_fresh-keys a b (((x, y), d) ∷ es) h =
        ground (arith, is_fresh-keys a b es, same_node x a, same_node y b)

    pub KeysApart-is_apart :
        (es : List (Entry aa)) → KeysApart es → is_apart dg (map (λ (e : Entry aa). e.0) es) ≡ true
    KeysApart-is_apart [] k = refl
    KeysApart-is_apart (((a, b), d) ∷ es) k =
        (&&_iff (is_fresh dg (dg.get_node a) (dg.get_node b) (map (λ (e : Entry aa). e.0) es))
            (is_apart dg (map (λ (e : Entry aa). e.0) es))).1
          (is_fresh-keys a b es k.0, KeysApart-is_apart es k.1)
