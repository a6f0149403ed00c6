-- ===== src/Variance/Search/Visits.antt =====
-- What the visits of the search come to, in whatever order they are made.
use iterator_recognition.Prelude.{
  ℕ, ◌≡◌, refl, ◌⊎◌, inl, inr, Bool, true, false, List, [], ◌∷◌, arith, if◌then◌else◌, any,
}
use iterator_recognition.Ir.{Ir, LoopInfo}
use iterator_recognition.Recognition.{IteratorInfo}
use iterator_recognition.Variance.{IteratorVarianceValue, unknown, invariant, variant, merge_in}
use iterator_recognition.Variance.Search.{Role, leaf, iterator, given_up, inner, role, visit}
use iterator_recognition.Worklist.{stop, go, visit_all}

abbrev pub is_leaf : Role → Bool
is_leaf leaf = true
is_leaf iterator = false
is_leaf given_up = false
is_leaf inner = false

abbrev pub is_iterator_role : Role → Bool
is_iterator_role iterator = true
is_iterator_role leaf = false
is_iterator_role given_up = false
is_iterator_role inner = false

abbrev pub is_given_up : Role → Bool
is_given_up given_up = true
is_given_up leaf = false
is_given_up iterator = false
is_given_up inner = false

-- The status after visits that met an iterator, or a leaf.
abbrev pub merged : IteratorVarianceValue → Bool → Bool → IteratorVarianceValue
merged variant iterators leaves = variant
merged invariant iterators leaves = if iterators then variant else invariant
merged unknown iterators leaves =
    if iterators then variant else if leaves then invariant else unknown

module _ (ir : Ir) (loop_info : LoopInfo) (info : IteratorInfo) where
  abbrev pub role_at : (Role → Bool) → ℕ → Bool
  role_at test v = test (role ir loop_info info v)

  pub Role-cases : (r : Role) → (r ≡ leaf) ⊎ (r ≡ iterator) ⊎ (r ≡ given_up) ⊎ (r ≡ inner)
  Role-cases leaf = inl refl
  Role-cases iterator = inr (inl refl)
  Role-cases given_up = inr (inr (inl refl))
  Role-cases inner = inr (inr (inr refl))

  pub visits_ended :
      (order : List ℕ) (s r : IteratorVarianceValue)
      → visit_all (visit ir loop_info info) order s ≡ go r
      → r ≡ merged s (any (role_at is_iterator_role) order) (any (role_at is_leaf) order)
  unfolding visit_all visit merge_in
  visits_ended [] unknown r h = ground arith
  visits_ended [] invariant r h = ground arith
  visits_ended [] variant r h = ground arith
  visits_ended (v ∷ order) variant r h = absurd (ground arith)
  visits_ended (v ∷ order) invariant r h = ground (
    arith,
    visits_ended order invariant r,
    visits_ended order variant r,
    Role-cases (role ir loop_info info v),
  )
  visits_ended (v ∷ order) unknown r h = ground (
    arith,
    visits_ended order invariant r,
    visits_ended order variant r,
    visits_ended order unknown r,
    Role-cases (role ir loop_info info v),
  )

  pub visits_stopped :
      (order : List ℕ) (s r : IteratorVarianceValue)
      → visit_all (visit ir loop_info info) order s ≡ stop r
      → any (role_at is_given_up) order ≡ false
      → (r ≡ variant) × ((s ≡ variant) ⊎ (any (role_at is_iterator_role) order ≡ true))
  unfolding visit_all visit merge_in
  visits_stopped [] s r h n = absurd (ground arith)
  visits_stopped (v ∷ order) variant r h n = ground arith
  visits_stopped (v ∷ order) invariant r h n = ground (
    arith,
    visits_stopped order invariant r,
    visits_stopped order variant r,
    Role-cases (role ir loop_info info v),
  )
  visits_stopped (v ∷ order) unknown r h n = ground (
    arith,
    visits_stopped order invariant r,
    visits_stopped order variant r,
    visits_stopped order unknown r,
    Role-cases (role ir loop_info info v),
  )
