-- ===== src/Variance/Search/Exact.antt =====
-- The search returns, and what it returns says what the query depends on.
use iterator_recognition.Prelude.{
  ℕ, ◌+◌, ◌≤◌, ◌≡◌, refl, sym, ◌∙◌, subst, ◌≢◌, ◌↔◌, inl, inr, Bool, true, false, some, List, [],
  ◌∷◌, arith, Bool-cases, ◌∈◌, any, any_intro, any_elim,
}
use iterator_recognition.Ir.{unhandled, Ir, LoopInfo}
use iterator_recognition.Recognition.{IteratorInfo}
use iterator_recognition.Variance.{IteratorVarianceValue, unknown, invariant, variant}
use iterator_recognition.Variance.Search.{
  Role, leaf, iterator, given_up, inner, role, next, visit, get_variance,
}
use iterator_recognition.Variance.Search.Visits.{
  is_leaf, is_iterator_role, is_given_up, merged, role_at, visits_ended, visits_stopped,
}
use iterator_recognition.Variance.Search.Roles.{
  IsInIterator, IsOutside, role-iterator, role-leaf, role-given_up,
}
use iterator_recognition.Worklist.{small_vector, nothing_skipped, Reach}
use iterator_recognition.Worklist.Chains.{Chain, Reach-Chain}
use iterator_recognition.Variance.Search.Follows.{IsMadeFrom, ∈-next}
use iterator_recognition.Worklist.Order.{Outcome, ended, stopped, loop-Outcome}
use iterator_recognition.Worklist.Returns.{edge_count, loop-returns}

is_leaf_iff : (r : Role) → (is_leaf r ≡ true) ↔ (r ≡ leaf)
is_leaf_iff leaf = ground arith
is_leaf_iff r = ground arith

is_iterator_role_iff : (r : Role) → (is_iterator_role r ≡ true) ↔ (r ≡ iterator)
is_iterator_role_iff leaf = ground arith
is_iterator_role_iff r = ground arith

is_given_up_iff : (r : Role) → (is_given_up r ≡ true) ↔ (r ≡ given_up)
is_given_up_iff leaf = ground arith
is_given_up_iff r = ground arith

no_other_role :
    (r : Role) → is_leaf r ≡ false → is_iterator_role r ≡ false → r ≢ given_up → r ≡ inner
no_other_role leaf p q n = absurd (ground arith)
no_other_role iterator p q n = absurd (ground arith)
no_other_role given_up p q n = absurd (n refl)
no_other_role inner p q n = refl

module _ (ir : Ir) (loop_info : LoopInfo) (info : IteratorInfo) where
  -- Whether the search comes to `v`.
  abbrev Comes : ℕ → ℕ → Type 0
  Comes query v = Reach nothing_skipped (next ir loop_info info) (query ∷ []) v

  -- What each variance says of the roles of the values that the query depends on.
  abbrev HasRoles : ℕ → IteratorVarianceValue → Type 0
  HasRoles query variant = (v : ℕ) × Comes query v × (role ir loop_info info v ≡ iterator)
  HasRoles query invariant =
      ((v : ℕ) → Comes query v → role ir loop_info info v ≢ iterator)
      × ((v : ℕ) × Comes query v × (role ir loop_info info v ≡ leaf))
  HasRoles query unknown = (v : ℕ) → Comes query v → role ir loop_info info v ≡ inner

  any_none :
      (test : Role → Bool) (order : List ℕ)
      → any (role_at ir loop_info info test) order ≡ false
      → (v : ℕ) → v ∈ order
      → test (role ir loop_info info v) ≡ false
  any_none test order h v m = elim (Bool-cases (test (role ir loop_info info v))) [
    | inr e ↦ e
    | inl e ↦ absurd (ground (arith, any_intro (role_at ir loop_info info test) order v m e))
  ]

  iterator_in :
      (query : ℕ) (order : List ℕ)
      → ((v : ℕ) → v ∈ order → Comes query v)
      → any (role_at ir loop_info info is_iterator_role) order ≡ true
      → HasRoles query variant
  iterator_in query order from h =
      let (v, m, e) = any_elim (role_at ir loop_info info is_iterator_role) order h in
      (v, from v m, (is_iterator_role_iff (role ir loop_info info v)).0 e)

  ended-HasRoles :
      (query : ℕ) (order : List ℕ)
      → ((v : ℕ) → v ∈ order ↔ Comes query v)
      → ((v : ℕ) → Comes query v → role ir loop_info info v ≢ given_up)
      → (iterators leaves : Bool)
      → any (role_at ir loop_info info is_iterator_role) order ≡ iterators
      → any (role_at ir loop_info info is_leaf) order ≡ leaves
      → HasRoles query (merged unknown iterators leaves)
  ended-HasRoles query order all_of handled true leaves p q =
      iterator_in query order (λ v. (all_of v).0) p
  ended-HasRoles query order all_of handled false true p q =
      let (v, m, e) = any_elim (role_at ir loop_info info is_leaf) order q in
      (
        λ w d k. absurd (ground (arith, any_none is_iterator_role order p w ((all_of w).1 d))),
        (v, (all_of v).0 m, (is_leaf_iff (role ir loop_info info v)).0 e),
      )
  ended-HasRoles query order all_of handled false false p q = λ v d.
      let m : v ∈ order = (all_of v).1 d in
      no_other_role (role ir loop_info info v) (any_none is_leaf order q v m)
        (any_none is_iterator_role order p v m) (handled v d)

  Outcome-HasRoles :
      (query : ℕ) (r : IteratorVarianceValue)
      → ((v : ℕ) → Comes query v → role ir loop_info info v ≢ given_up)
      → Outcome
          (visit ir loop_info info)
          nothing_skipped
          (next ir loop_info info)
          (query ∷ [])
          unknown
          r
      → HasRoles query r
  Outcome-HasRoles query r handled (ended order h all_of) =
      subst (HasRoles query) (sym (visits_ended ir loop_info info order unknown r h)) (
        ended-HasRoles query order all_of handled
          (any (role_at ir loop_info info is_iterator_role) order)
          (any (role_at ir loop_info info is_leaf) order) refl refl)
  Outcome-HasRoles query r handled (stopped order h from) =
      let none_given_up : any (role_at ir loop_info info is_given_up) order ≡ false =
        elim (Bool-cases (any (role_at ir loop_info info is_given_up) order)) [
          | inr e ↦ e
          | inl e ↦
              let (v, m, k) = any_elim (role_at ir loop_info info is_given_up) order e in
              absurd (handled v (from v m) ((is_given_up_iff (role ir loop_info info v)).0 k))
        ] in
      let (p, q) = visits_stopped ir loop_info info order unknown r h none_given_up in
      subst (HasRoles query) (sym p)
        (elim q [ inl k ↦ absurd (cc) | inr k ↦ iterator_in query order from k ])

  -- Whether the query's value is made from `v`: the query itself, or one that an instruction of the
  -- loop outside its iterator, on which it depends, is made from.
  abbrev pub DependsOn : ℕ → ℕ → Type 0
  DependsOn query v = Chain (λ u. u ≡ query) (IsMadeFrom ir loop_info info) v

  Comes-DependsOn : (query v : ℕ) → Comes query v ↔ DependsOn query v
  Comes-DependsOn query v =
      Reach-Chain (λ u. u ≡ query) (IsMadeFrom ir loop_info info) nothing_skipped
        (next ir loop_info info) (query ∷ []) (λ u. ground arith)
        (λ u w. let lem = ∈-next ir loop_info info u w in (λ h. lem.0 h.0, λ d. (lem.1 d, refl))) v

  -- What each variance says of the query.
  abbrev pub IsVariance : ℕ → IteratorVarianceValue → Type 0
  IsVariance query variant = (v : ℕ) × DependsOn query v × IsInIterator ir loop_info info v
  IsVariance query invariant =
      ((v : ℕ) → DependsOn query v → ¬ IsInIterator ir loop_info info v)
      × ((v : ℕ) × DependsOn query v × IsOutside ir loop_info info v)
  IsVariance query unknown =
      (v : ℕ)
      → DependsOn query v
      → (¬ IsInIterator ir loop_info info v) × (¬ IsOutside ir loop_info info v)

  HasRoles-IsVariance :
      (query : ℕ) (r : IteratorVarianceValue) → HasRoles query r → IsVariance query r
  HasRoles-IsVariance query variant (v, d, e) =
      (v, (Comes-DependsOn query v).0 d, (role-iterator ir loop_info info v).0 e)
  HasRoles-IsVariance query invariant (nowhere, (v, d, e)) = (
    λ w d' k. nowhere w ((Comes-DependsOn query w).1 d') ((role-iterator ir loop_info info w).1 k),
    (v, (Comes-DependsOn query v).0 d, (role-leaf ir loop_info info v).0 e),
  )
  HasRoles-IsVariance query unknown all_inner = λ v d. (
    λ k.
        not_both (all_inner v ((Comes-DependsOn query v).1 d))
          ((role-iterator ir loop_info info v).1 k),
    λ k.
        not_leaf (all_inner v ((Comes-DependsOn query v).1 d))
          ((role-leaf ir loop_info info v).1 k),
  )
    where
      not_both : {r : Role} → r ≡ inner → r ≡ iterator → ⊥
      not_both p q = cc (sym p ∙ q)

      not_leaf : {r : Role} → r ≡ inner → r ≡ leaf → ⊥
      not_leaf p q = cc (sym p ∙ q)

  -- For a query among finitely many values that the operands stay among, of which none that the query
  -- depends on is of an unhandled class: with fuel for each of their operands the search returns; it
  -- returns variant exactly when the query depends on an instruction of the iterator, invariant when
  -- it depends on no such instruction and on a value from outside the loop, and unknown when it
  -- depends on neither.
  pub get_variance-returns-IsVariance :
      (universe : List ℕ)
      → ((u v : ℕ) → u ∈ universe → IsMadeFrom ir loop_info info u v → v ∈ universe)
      → (query fuel : ℕ) → query ∈ universe
      → ((v : ℕ) → DependsOn query v → ir.kind v ≢ unhandled)
      → 1 + edge_count (next ir loop_info info) universe ≤ fuel
      → (r : IteratorVarianceValue) × (get_variance ir loop_info info fuel query ≡ some r)
        × IsVariance query r
  unfolding get_variance
  get_variance-returns-IsVariance universe closed query fuel inside handled enough =
      let (r, q) =
        loop-returns small_vector nothing_skipped (next ir loop_info info) (visit ir loop_info info)
          universe (λ u v m n. closed u v m ((∈-next ir loop_info info u v).0 n)) fuel (query ∷ [])
          unknown
          (λ v m. elim m [
            | inl e ↦ subst (λ (k : ℕ). k ∈ universe) (sym e) inside
            | inr n ↦ absurd n
          ])
          (omega arith) in
      (
        r,
        q,
        HasRoles-IsVariance query r (
            Outcome-HasRoles query r
              (λ v d e.
                handled v ((Comes-DependsOn query v).0 d) ((role-given_up ir loop_info info v).0 e))
              (loop-Outcome small_vector nothing_skipped (next ir loop_info info)
                (visit ir loop_info info) (query ∷ []) unknown fuel r q)),
      )
