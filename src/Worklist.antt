-- ===== src/Worklist.antt =====
-- The loop `while (!workList.empty())` that the analyses share: it takes the last value off the work
-- list, passes over what it has visited, and visits the rest. IteratorVarianceAnalyzer::getVariance,
-- MutationDetector::process and DispositionTracker::getDisposition have it, each with its own visit.
pub mod Order
pub mod Chains
pub mod Returns
use iterator_recognition.Prelude.{
  ℕ, zero, suc, ◌+◌, ◌-◌, ◌≤◌, ◌<◌, ◌≡◌, refl, sym, ap, ◌∙◌, subst, ◌≢◌, ◌↔◌, ◌⊎◌, inl, inr, Bool,
  true, false, not, ◌&&◌, ◌||◌, Option, none, some, List, [], ◌∷◌, ◌++◌, map, arith, ltb, leb, ◌==◌,
  if◌then◌else◌, ==_iff, ==_refl, Bool-cases, &&_iff, ||_iff, not_iff, Bool-ext, Option-cases,
  length, ◌∈◌, ∈-append, any, all, filter, find?, is_empty, any_intro, any_elim, any_iff, all_elim,
  all_intro, all_iff, ∈-filter, find?_elim, find?-none, ∈-map, flat_map, ∈-flat_map, contains,
  contains_iff, sort, unique, IsSorted, IsAscending, ∈-sort, sort-IsSorted, ∈-unique,
  unique-IsAscending, Above-lt, IsAscending-ext, insert, insert_all, erase, ∈-insert, ∈-insert_all,
  ∈-erase, IsDistinct,
}

-- How a work list grows. The last element of the source's vector is the head of the list here.
pub record Pushing : Type 0 where
  pub push_all : List ℕ → List ℕ → List ℕ
  pub ∈-push_all : (v : ℕ) (vs wl : List ℕ) → v ∈ push_all vs wl ↔ ((v ∈ vs) ⊎ (v ∈ wl))
  pub length-push_all : (vs wl : List ℕ) → length (push_all vs wl) ≤ length vs + length wl

-- `SmallVector::push_back`, for each of the values.
unfoldable pub push_back_all : List ℕ → List ℕ → List ℕ
push_back_all [] wl = wl
push_back_all (v ∷ vs) wl = push_back_all vs (v ∷ wl)

-- `SetVector::insert`, for each of the values: one that waits already keeps its place.
unfoldable pub set_insert_all : List ℕ → List ℕ → List ℕ
set_insert_all [] wl = wl
set_insert_all (v ∷ vs) wl = set_insert_all vs (if contains wl v then wl else v ∷ wl)

pub ∈-push_back_all : (v : ℕ) (vs wl : List ℕ) → v ∈ push_back_all vs wl ↔ ((v ∈ vs) ⊎ (v ∈ wl))
unfolding push_back_all
∈-push_back_all v [] wl = ground arith
∈-push_back_all v (w ∷ vs) wl = ground (arith, ∈-push_back_all v vs (w ∷ wl))

pub length-push_back_all : (vs wl : List ℕ) → length (push_back_all vs wl) ≤ length vs + length wl
unfolding push_back_all
length-push_back_all [] wl = omega arith
length-push_back_all (w ∷ vs) wl = omega (arith, length-push_back_all vs (w ∷ wl))

pub ∈-set_insert_all : (v : ℕ) (vs wl : List ℕ) → v ∈ set_insert_all vs wl ↔ ((v ∈ vs) ⊎ (v ∈ wl))
unfolding set_insert_all
∈-set_insert_all v [] wl = ground arith
∈-set_insert_all v (w ∷ vs) wl = elim (Bool-cases (contains wl w)) [
  | inl e ↦
      rw (e, set_insert_all)
        (let here : w ∈ wl = (contains_iff wl w).0 e in
          let again : v ≡ w → v ∈ wl = λ q. subst (λ (k : ℕ). k ∈ wl) (sym q) here in
          ground (arith, ∈-set_insert_all v vs wl, again))
  | inr e ↦ rw (e, set_insert_all) (ground (arith, ∈-set_insert_all v vs (w ∷ wl)))
]

pub length-set_insert_all : (vs wl : List ℕ) → length (set_insert_all vs wl) ≤ length vs + length wl
unfolding set_insert_all
length-set_insert_all [] wl = omega arith
length-set_insert_all (w ∷ vs) wl =
    ground (arith, length-set_insert_all vs (w ∷ wl), length-set_insert_all vs wl)

abbrev pub small_vector : Pushing
small_vector = record {
  push_all = push_back_all;
  ∈-push_all = ∈-push_back_all;
  length-push_all = length-push_back_all;
}

abbrev pub set_vector : Pushing
set_vector = record {
  push_all = set_insert_all;
  ∈-push_all = ∈-set_insert_all;
  length-push_all = length-set_insert_all;
}

-- What a visit does: it leaves the loop, or goes on.
pub data Action (S : Type 0) : Type 0 where
  stop : S → Action S
  go : S → Action S

pub Action-cases : {S : Type 0} (a : Action S) → ((t : S) × (a ≡ stop t)) ⊎ ((t : S) × (a ≡ go t))
Action-cases (stop t) = inl (t, refl)
Action-cases (go t) = inr (t, refl)

-- The values that a loop can come to from its first work list.
pub data Reach (skipped : ℕ → Bool) (next : ℕ → List ℕ) (roots : List ℕ) : ℕ → Type 0 where
  root : {v : ℕ} → v ∈ roots → skipped v ≡ false → Reach skipped next roots v
  along :
      {u v : ℕ}
      → Reach skipped next roots u
      → v ∈ next u
      → skipped v ≡ false
      → Reach skipped next roots v

-- For a loop that passes over what it has visited and nothing else.
abbrev pub nothing_skipped : ℕ → Bool
nothing_skipped v = false

-- The visits alone, in a given order.
unfoldable pub visit_all : {S : Type 0} → (ℕ → S → Action S) → List ℕ → S → Action S
visit_all visit [] s = go s
visit_all visit (v ∷ vs) s = elim (visit v s) [ stop s' ↦ stop s' | go s' ↦ visit_all visit vs s' ]

module _ (p : Pushing) (skipped : ℕ → Bool) (next : ℕ → List ℕ) {S : Type 0}
    (visit : ℕ → S → Action S) where
  -- The loop on fuel, from a work list and the values visited so far; `none` means that the fuel ran
  -- out.
  unfoldable pub loop : ℕ → List ℕ → List ℕ → S → Option S
  loop fuel [] visited s = some s
  loop zero (v ∷ wl) visited s = none
  loop (suc fuel) (v ∷ wl) visited s = elim (skipped v || contains visited v) [
    | true ↦ loop fuel wl visited s
    | false ↦ elim (visit v s) [
      | stop s' ↦ some s'
      | go s' ↦ loop fuel (p.push_all (next v) wl) (visited ++ v ∷ []) s'
    ]
  ]
