-- ===== src/ShadowDependenceGraph/Dependent.antt =====
-- IsIteratorDependent, a search over operands that does not remember what it has visited.
use iterator_recognition.Prelude.{
  ℕ, zero, suc, ◌≡◌, refl, sym, ap, ◌∙◌, subst, ◌↔◌, ◌⊎◌, inl, inr, Bool, true, false, Option, none,
  some, List, [], ◌∷◌, ◌++◌, arith, if◌then◌else◌, Bool-cases, ◌∈◌, contains,
}
use iterator_recognition.Ir.{Ir, ValueKind, constant, argument, unhandled, instruction, alloca}
use iterator_recognition.Worklist.{
  push_back_all, ∈-push_back_all, nothing_skipped, Reach, root, along,
}

abbrev pub is_alloca : ValueKind → Bool
is_alloca (instruction alloca) = true
is_alloca (instruction o) = false
is_alloca constant = false
is_alloca argument = false
is_alloca unhandled = false

module _ (ir : Ir) (iterator_values : List ℕ) where
  unfoldable pub is_iterator_value : ℕ → Bool
  is_iterator_value v = elim (ir.kind v) [
    | constant ↦ false
    | argument ↦ false
    | unhandled ↦ false
    | instruction o ↦ contains iterator_values v
  ]

  -- What is pushed for a value that does not end the search.
  unfoldable pub onward : ℕ → List ℕ
  onward v = elim (ir.kind v) [
    | constant ↦ []
    | argument ↦ []
    | unhandled ↦ []
    | instruction o ↦ if is_alloca (instruction o) then [] else ir.operands v
  ]

  -- The loop on fuel; `none` means that the fuel ran out.
  unfoldable pub dependent_loop : ℕ → List ℕ → Option Bool
  unfolding is_iterator_value onward push_back_all
  dependent_loop fuel [] = some false
  dependent_loop zero (v ∷ wl) = none
  dependent_loop (suc fuel) (v ∷ wl) = elim (is_iterator_value v) [
    | true ↦ some true
    | false ↦ dependent_loop fuel (push_back_all (onward v) wl)
  ]

  unfoldable pub is_iterator_dependent : ℕ → ℕ → Option Bool
  unfolding dependent_loop
  is_iterator_dependent fuel v = dependent_loop fuel (v ∷ [])

  abbrev pub Comes : List ℕ → ℕ → Type 0
  Comes wl v = Reach nothing_skipped onward wl v

  Comes-back :
      (v : ℕ) (wl : List ℕ) (x : ℕ) → Comes (push_back_all (onward v) wl) x → Comes (v ∷ wl) x
  Comes-back v wl x (root m n) = elim ((∈-push_back_all x (onward v) wl).0 m) [
    | inl k ↦ along (root (inl refl) refl) k n
    | inr k ↦ root (inr k) n
  ]
  Comes-back v wl x (along {u} r m n) = along (Comes-back v wl u r) m n

  Comes-on :
      (v : ℕ) (wl : List ℕ) (x : ℕ)
      → Comes (v ∷ wl) x
      → (x ≡ v) ⊎ Comes (push_back_all (onward v) wl) x
  Comes-on v wl x (root (inl q) n) = inl q
  Comes-on v wl x (root (inr m) n) = inr (root ((∈-push_back_all x (onward v) wl).1 (inr m)) n)
  Comes-on v wl x (along {u} r m n) = elim (Comes-on v wl u r) [
    | inl q ↦
        inr
          (root ((∈-push_back_all x (onward v) wl).1 (inl (subst (λ (k : ℕ). x ∈ onward k) q m))) n)
    | inr r' ↦ inr (along r' m n)
  ]

  found_one :
      (fuel : ℕ) (wl : List ℕ)
      → dependent_loop fuel wl ≡ some true
      → (v : ℕ) × Comes wl v × (is_iterator_value v ≡ true)
  unfolding dependent_loop
  found_one fuel [] h = absurd (ground arith)
  found_one zero (v ∷ wl) h = absurd (ground arith)
  found_one (suc fuel) (v ∷ wl) h = elim (Bool-cases (is_iterator_value v)) [
    | inl e ↦ (v, root (inl refl) refl, e)
    | inr e ↦
        let (x, r, k) =
          found_one fuel (push_back_all (onward v) wl) (rw (e, dependent_loop) at h) in
        (x, Comes-back v wl x r, k)
  ]

  found_none :
      (fuel : ℕ) (wl : List ℕ)
      → dependent_loop fuel wl ≡ some false
      → (v : ℕ) → Comes wl v
      → is_iterator_value v ≡ false
  unfolding dependent_loop
  found_none fuel [] h v r = absurd (nowhere v r)
    where
      nowhere : (v : ℕ) → Comes [] v → ⊥
      nowhere v (root m n) = m
      nowhere v (along {u} r m n) = nowhere u r
  found_none zero (w ∷ wl) h v r = absurd (ground arith)
  found_none (suc fuel) (w ∷ wl) h v r = elim (Bool-cases (is_iterator_value w)) [
    | inl e ↦ absurd (ground arith)
    | inr e ↦ elim (Comes-on w wl v r) [
      | inl q ↦ ap is_iterator_value q ∙ e
      | inr r' ↦ found_none fuel (push_back_all (onward w) wl) (rw (e, dependent_loop) at h) v r'
    ]
  ]

  -- Where the search returns, it returns true exactly when an iterator value is among the values that
  -- it can come to by operands.
  pub is_iterator_dependent_lem :
      (fuel v : ℕ) (b : Bool)
      → is_iterator_dependent fuel v ≡ some b
      → (b ≡ true) ↔ ((x : ℕ) × Comes (v ∷ []) x × (is_iterator_value x ≡ true))
  unfolding is_iterator_dependent
  is_iterator_dependent_lem fuel v true h = (λ e. found_one fuel (v ∷ []) h, λ w. refl)
  is_iterator_dependent_lem fuel v false h =
      (λ e. absurd (cc), λ (x, r, e). absurd (some_iterator (found_none fuel (v ∷ []) h x r) e))
    where
      some_iterator : {c : Bool} → c ≡ false → c ≡ true → ⊥
      some_iterator p q = cc (sym p ∙ q)

  push_back_all-snoc :
      (vs : List ℕ) (v : ℕ) (wl : List ℕ)
      → push_back_all (vs ++ v ∷ []) wl ≡ v ∷ push_back_all vs wl
  unfolding push_back_all
  push_back_all-snoc [] v wl = refl
  push_back_all-snoc (w ∷ vs) v wl = push_back_all-snoc vs v (w ∷ wl)

  loops_on :
      (Cyclic : ℕ → Type 0)
      → ((v : ℕ)
          → Cyclic v
          → (is_iterator_value v ≡ false)
            × ((before : List ℕ) × (w : ℕ) × (onward v ≡ before ++ w ∷ []) × Cyclic w))
      → (fuel v : ℕ) (wl : List ℕ) → Cyclic v
      → dependent_loop fuel (v ∷ wl) ≡ none
  unfolding dependent_loop
  loops_on Cyclic keeps zero v wl c = refl
  loops_on Cyclic keeps (suc fuel) v wl c =
      let (e, (before, w, q, c')) = keeps v c in
      rw (e, dependent_loop)
        (rw q (rw push_back_all-snoc (loops_on Cyclic keeps fuel w (push_back_all before wl) c')))

  -- From a value of a cycle, the last operand of each leading to another of it, none an iterator value,
  -- the search never returns, whatever the fuel.
  pub is_iterator_dependent-diverges :
      (Cyclic : ℕ → Type 0)
      → ((v : ℕ)
          → Cyclic v
          → (is_iterator_value v ≡ false)
            × ((before : List ℕ) × (w : ℕ) × (onward v ≡ before ++ w ∷ []) × Cyclic w))
      → (v : ℕ) → Cyclic v
      → (fuel : ℕ) → is_iterator_dependent fuel v ≡ none
  unfolding is_iterator_dependent
  is_iterator_dependent-diverges Cyclic keeps v c fuel = loops_on Cyclic keeps fuel v [] c
