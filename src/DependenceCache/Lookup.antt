-- ===== src/DependenceCache/Lookup.antt =====
-- What a lookup finds after a calculation.
use iterator_recognition.Prelude.{
  ℕ, ◌≡◌, refl, sym, ap, ◌∙◌, subst, ◌↔◌, inl, inr, true, false, none, some, List, arith, ◌==◌,
  ==_iff, ==_refl, &&_iff, Option-cases, find?_elim, find?-none,
}
use iterator_recognition.DependenceCache.{
  AliasAnalysis, Entry, DependenceCache, has_key, calculate, get_data,
}
use iterator_recognition.DependenceCache.Pairs.{Before, ∈-calculate}

module _ (aa : AliasAnalysis) where
  open aa use {ModRefInfo, get_mod_ref_info, is_mod_set, is_no_mod_ref}

  -- Whether a calculation over `insts` records the pair.
  abbrev pub IsRecorded : ℕ → ℕ → List ℕ → Type 0
  IsRecorded a b insts =
      Before a b insts
      × (is_mod_set (get_mod_ref_info b a) ≡ true)
      × (is_no_mod_ref (get_mod_ref_info a b) ≡ false)

  found_entry :
      (a b : ℕ) (insts : List ℕ) (c : DependenceCache aa) (e : Entry aa)
      → get_data aa (calculate aa insts c) a b ≡ some e
      → (e ≡ ((a, b), get_mod_ref_info b a)) × IsRecorded a b insts
  unfolding get_data
  found_entry a b insts c ((x, y), d) h =
      let (m, k) = find?_elim (has_key aa a b) (calculate aa insts c).dependences ((x, y), d) h in
      let both = (&&_iff (x == a) (y == b)).0 k in
      let p : x ≡ a = (==_iff x a).0 both.0 in
      let q : y ≡ b = (==_iff y b).0 both.1 in
      let (before, writes, reads, r) = (∈-calculate aa x y d insts c).0 m in
      let same : ◌≡◌ {A = Entry aa} ((x, y), d) ((a, b), get_mod_ref_info b a) = cc in
      (same, subst (λ (k : Entry aa). IsRecorded k.0.0 k.0.1 insts) same (before, writes, reads))

  -- Whatever the cache held before: a lookup of two instructions after a calculation finds an entry
  -- exactly when the first stands before the second, the second may modify what the first accesses
  -- and the first has an effect on what the second accesses, and what it finds is the pair with the
  -- second's effect.
  pub get_data-calculate :
      (a b : ℕ) (insts : List ℕ) (c : DependenceCache aa) (e : Entry aa)
      → (get_data aa (calculate aa insts c) a b ≡ some e)
        ↔ ((e ≡ ((a, b), get_mod_ref_info b a)) × IsRecorded a b insts)
  unfolding get_data
  get_data-calculate a b insts c e = (found_entry a b insts c e, λ (p, recorded). found p recorded)
    where
      missing : get_data aa (calculate aa insts c) a b ≡ none → IsRecorded a b insts → ⊥
      missing n (before, writes, reads) =
          let clear : has_key aa a b ((a, b), get_mod_ref_info b a) ≡ false =
            find?-none (has_key aa a b) (calculate aa insts c).dependences n
              ((a, b), get_mod_ref_info b a)
              ((∈-calculate aa a b (get_mod_ref_info b a) insts c).1
                (before, writes, reads, refl)) in
          ground (arith, clear, ==_refl a, ==_refl b)

      found :
          e ≡ ((a, b), get_mod_ref_info b a)
          → IsRecorded a b insts
          → get_data aa (calculate aa insts c) a b ≡ some e
      found p recorded = elim (Option-cases (get_data aa (calculate aa insts c) a b)) [
        | inl n ↦ absurd (missing n recorded)
        | inr (w, h) ↦ h ∙ ap some ((found_entry a b insts c w h).0 ∙ sym p)
      ]
