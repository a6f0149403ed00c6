-- ===== src/Commutativity/Verdict.antt =====
-- The verdict of the nested loops, with their flags and breaks, against a plain statement.
use iterator_recognition.Prelude.{
  ℕ, ◌≡◌, refl, sym, ◌∙◌, ◌≢◌, ◌↔◌, ◌⊎◌, inl, inr, Bool, true, false, not, ◌&&◌, ◌||◌, List, [],
  ◌∷◌, arith, if◌then◌else◌, Bool-cases, &&_iff, ◌∈◌, all, is_empty, all_iff,
}
use iterator_recognition.Ir.{Ir}
use iterator_recognition.Variance.{
  IteratorVarianceValue, invariant, variant, is_variant, is_invariant, VarianceCache,
  get_or_insert_variance,
}
use iterator_recognition.Variance.Cache.{IsConsistent, get_or_insert_variance_lem}
use iterator_recognition.Commutativity.{
  Message, due_to_iterator_variance, due_to_operations, insert_message, LoadModifyStore,
  is_commutative, Progress, analyze_sources, analyze_all, analyze,
}

all-or_empty : (p : ℕ → Bool) (xs : List ℕ) → (if is_empty xs then true else all p xs) ≡ all p xs
all-or_empty p [] = refl
all-or_empty p (x ∷ xs) = refl

module _ (ir : Ir) (get_variance : ℕ → IteratorVarianceValue) where
  -- An operation that counts as commutative: a binary operator or a unary instruction.
  abbrev pub IsCommutative : ℕ → Type 0
  IsCommutative o = (ir.is_binary_op o ≡ true) ⊎ (ir.is_unary_instruction o ≡ true)

  -- Target and source are both invariant, or one varies and all operations commute.
  abbrev pub IsSafe : LoadModifyStore → ℕ → Type 0
  IsSafe lms src =
      ((get_variance lms.target ≡ invariant) × (get_variance src ≡ invariant))
      ⊎ (((get_variance lms.target ≡ variant) ⊎ (get_variance src ≡ variant))
          × ((o : ℕ) → o ∈ lms.operations → IsCommutative o))

  abbrev is_safe : IteratorVarianceValue → List ℕ → ℕ → Bool
  is_safe res1 operations src =
      (is_invariant res1 && is_invariant (get_variance src))
      || ((is_variant res1 || is_variant (get_variance src)) && all (is_commutative ir) operations)

  abbrev Sources : IteratorVarianceValue → List ℕ → List ℕ → Progress → Progress → Type 0
  Sources res1 operations sources s r =
      IsConsistent get_variance r.cache
      × (r.stop_processing ≡ (s.stop_processing || not (all (is_safe res1 operations) sources)))
      × (r.has_commutative_ops ≡ (
          if is_empty sources
          then s.has_commutative_ops
          else all (is_safe res1 operations) sources))

  analyze_sources_lem :
      (res1 : IteratorVarianceValue) (operations sources : List ℕ) (s : Progress)
      → IsConsistent get_variance s.cache
      → Sources res1 operations sources s
          (analyze_sources ir get_variance res1 operations sources s)
  unfolding analyze_sources
  analyze_sources_lem res1 operations [] s ok = (ok, ground arith, refl)
  analyze_sources_lem res1 operations (src ∷ rest) s ok =
      let (res2, valid) = get_or_insert_variance_lem get_variance s.cache src ok in
      let after = (get_or_insert_variance get_variance s.cache src).1 in
      let v = get_variance src in
      let going = λ (ms : List Message). record s {
        has_commutative_ops = true;
        used_messages = ms;
        cache = after;
      } in
      let safe_on = λ (ms : List Message).
        let r = analyze_sources ir get_variance res1 operations rest (going ms) in
        let (c, stop, has) = analyze_sources_lem res1 operations rest (going ms) valid in
        let every = all (is_safe res1 operations) rest in
        let out : IsConsistent get_variance r.cache
            × (r.stop_processing ≡ (s.stop_processing || not every))
            × (r.has_commutative_ops ≡ every) =
          (c, stop, has ∙ all-or_empty (is_safe res1 operations) rest) in
        out in
      elim (Bool-cases (is_invariant res1 && is_invariant v)) [
        | inl e ↦
            rw (res2, e, analyze_sources)
              (safe_on (insert_message due_to_iterator_variance s.used_messages))
        | inr e ↦ elim (Bool-cases (is_variant res1 || is_variant v)) [
          | inl f ↦ elim (Bool-cases (all (is_commutative ir) operations)) [
            | inl g ↦
                rw (res2, e, f, g, analyze_sources)
                  (safe_on (insert_message due_to_operations s.used_messages))
            | inr g ↦ rw (res2, e, f, g, analyze_sources) (valid, ground arith, ground arith)
          ]
          | inr f ↦ rw (res2, e, f, analyze_sources) (valid, ground arith, ground arith)
        ]
      ]

  abbrev update_safe : LoadModifyStore → Bool
  update_safe lms =
      not (is_empty lms.sources)
      && all (is_safe (get_variance lms.target) lms.operations) lms.sources

  -- What the loop over the updates leaves, from a state whose verdict is false once it has stopped.
  analyze_all_lem :
      (ls : List LoadModifyStore) (s : Progress)
      → IsConsistent get_variance s.cache
      → (s.stop_processing ≡ true → s.has_commutative_ops ≡ false)
      → (analyze_all ir get_variance ls s).has_commutative_ops ≡ (
          if is_empty ls
          then s.has_commutative_ops
          else not s.stop_processing && all update_safe ls)
  unfolding analyze_all
  analyze_all_lem [] s ok stopped = refl
  analyze_all_lem (lms ∷ rest) s ok stopped =
      elim (Bool-cases (s.stop_processing || is_empty lms.sources)) [
        | inl e ↦ rw (e, analyze_all) (ground arith)
        | inr e ↦
            let (res1, valid) = get_or_insert_variance_lem get_variance s.cache lms.target ok in
            let after = (get_or_insert_variance get_variance s.cache lms.target).1 in
            let s' = record s { cache = after } in
            let (c, stop, has) =
              analyze_sources_lem (get_variance lms.target) lms.operations lms.sources s' valid in
            let r =
              analyze_sources ir get_variance (get_variance lms.target) lms.operations lms.sources
                s' in
            let ih = analyze_all_lem rest r c (ground (arith, stop, has, e)) in
            rw (e, res1, analyze_all) (ground (arith, ih, stop, has, e))
      ]

  is_commutative_iff : (o : ℕ) → (is_commutative ir o ≡ true) ↔ IsCommutative o
  unfolding is_commutative
  is_commutative_iff o = ground arith

  all-IsCommutative_iff :
      (operations : List ℕ)
      → (all (is_commutative ir) operations ≡ true) ↔ ((o : ℕ) → o ∈ operations → IsCommutative o)
  all-IsCommutative_iff operations =
      let each = all_iff (is_commutative ir) operations in
      (
        λ h o m. (is_commutative_iff o).0 (each.0 h o m),
        λ h. each.1 (λ o m. (is_commutative_iff o).1 (h o m)),
      )

  is_safe_iff :
      (lms : LoadModifyStore) (src : ℕ)
      → (is_safe (get_variance lms.target) lms.operations src ≡ true) ↔ IsSafe lms src
  is_safe_iff lms src = ground (arith, all-IsCommutative_iff lms.operations)

  -- From a cache that agrees with the variance analysis, a loop is judged commutative exactly when
  -- it has updates, and each of them has sources, and is safe with each of its sources: both are
  -- invariant, or one is variant and all operations are binary operators or unary instructions.
  pub analyze_iff :
      (ls : List LoadModifyStore) (cache : VarianceCache)
      → IsConsistent get_variance cache
      → ((analyze ir get_variance ls cache).has_commutative_ops ≡ true) ↔ (
          (ls ≢ [])
          × ((lms : LoadModifyStore)
              → lms ∈ ls
              → (lms.sources ≢ []) × ((src : ℕ) → src ∈ lms.sources → IsSafe lms src)))
  unfolding analyze
  analyze_iff ls cache ok =
      let start : Progress = record {
        has_commutative_ops = false;
        stop_processing = false;
        used_messages = [];
        cache = cache;
      } in
      let verdict = analyze_all_lem ls start ok (λ e. refl) in
      let every = all_iff update_safe ls in
      (
        λ h.
            let (listed, safe) = nonempty_all ls (sym verdict ∙ h) in
            (listed, λ lms m. (update_safe_iff lms).0 (every.0 safe lms m)),
        λ (listed, safe).
            verdict
            ∙ all_nonempty ls listed (every.1 (λ lms m. (update_safe_iff lms).1 (safe lms m))),
      )
    where
      nonempty_all :
          (xs : List LoadModifyStore)
          → (if is_empty xs then false else all update_safe xs) ≡ true
          → (xs ≢ []) × (all update_safe xs ≡ true)
      nonempty_all [] h = cc
      nonempty_all (x ∷ xs) h = (λ e. absurd (cc), h)

      all_nonempty :
          (xs : List LoadModifyStore)
          → xs ≢ []
          → all update_safe xs ≡ true
          → (if is_empty xs then false else all update_safe xs) ≡ true
      all_nonempty [] n h = absurd (n refl)
      all_nonempty (x ∷ xs) n h = h

      update_safe_iff :
          (lms : LoadModifyStore)
          → (update_safe lms ≡ true)
            ↔ ((lms.sources ≢ []) × ((src : ℕ) → src ∈ lms.sources → IsSafe lms src))
      update_safe_iff lms =
          let test = is_safe (get_variance lms.target) lms.operations in
          let each = all_iff test lms.sources in
          (
            λ h.
                let (some_source, safe) =
                  (&&_iff (not (is_empty lms.sources)) (all test lms.sources)).0 h in
                (λ e. absurd (cc), λ src m. (is_safe_iff lms src).0 (each.0 safe src m)),
            λ (some_source, safe). (&&_iff (not (is_empty lms.sources)) (all test lms.sources)).1 (
              not_empty lms.sources some_source,
              each.1 (λ src m. (is_safe_iff lms src).1 (safe src m)),
            ),
          )
        where
          not_empty : (xs : List ℕ) → xs ≢ [] → not (is_empty xs) ≡ true
          not_empty [] n = absurd (n refl)
          not_empty (x ∷ xs) n = refl
