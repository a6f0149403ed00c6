-- ===== src/Prelude/Lists.antt =====
-- Lists: membership by recursion, tests over a list, and the length as a native number.
use Prim.Native.Nat.{ℕ, suc}
use mathlib.Core.Path.{◌≡◌, refl, ap, ◌∙◌, subst}
use mathlib.Core.Logic.{◌≢◌, ◌↔◌, ◌⊎◌, inl, inr}
use mathlib.Core.Bool.{Bool, true, false, ◌&&◌, ◌||◌}
use mathlib.Core.List.{List, [], ◌∷◌, ◌++◌, map}
use mathlib.Core.Option.{Option, none, some}
use native.Mathlib.Omega.{arith}
use iterator_recognition.Prelude.Tests.{if◌then◌else◌, ◌==◌, ==_iff, Bool-cases}

abbrev pub length {ℓ} : {A : Type ℓ} → List A → ℕ
length [] = 0
length (x ∷ xs) = suc (length xs)

module _ {A : Type 0} where
  -- Membership as data: the place where the element stands.
  infix 50 ◌∈◌
  abbrev pub ◌∈◌ : A → List A → Type 0
  a ∈ [] = ⊥
  a ∈ (x ∷ xs) = (a ≡ x) ⊎ (a ∈ xs)

  pub ∈-append : (a : A) (xs ys : List A) → a ∈ (xs ++ ys) ↔ ((a ∈ xs) ⊎ (a ∈ ys))
  ∈-append a [] ys = (inr, λ h. elim h [ inl n ↦ absurd n | inr m ↦ m ])
  ∈-append a (x ∷ xs) ys = ground (arith, ∈-append a xs ys)

  pub some_member : (xs : List A) → xs ≢ [] → (x : A) × (x ∈ xs)
  some_member [] n = absurd (n refl)
  some_member (x ∷ xs) n = (x, inl refl)

  pub not_empty : (x : A) (xs : List A) → x ∈ xs → xs ≢ []
  not_empty x xs m e = subst (λ ys. x ∈ ys) e m

  abbrev pub any : (A → Bool) → List A → Bool
  any p [] = false
  any p (x ∷ xs) = p x || any p xs

  abbrev pub all : (A → Bool) → List A → Bool
  all p [] = true
  all p (x ∷ xs) = p x && all p xs

  abbrev pub filter : (A → Bool) → List A → List A
  filter p [] = []
  filter p (x ∷ xs) = let rest = filter p xs in if p x then x ∷ rest else rest

  abbrev pub find? : (A → Bool) → List A → Option A
  find? p [] = none
  find? p (x ∷ xs) = if p x then some x else find? p xs

  abbrev pub is_empty : List A → Bool
  is_empty [] = true
  is_empty (x ∷ xs) = false

  pub any_intro : (p : A → Bool) (xs : List A) (a : A) → a ∈ xs → p a ≡ true → any p xs ≡ true
  any_intro p [] a m h = absurd m
  any_intro p (x ∷ xs) a (inl e) h = ground (arith, ap p e)
  any_intro p (x ∷ xs) a (inr m) h = ground (arith, any_intro p xs a m h)

  pub any_elim : (p : A → Bool) (xs : List A) → any p xs ≡ true → (a : A) × (a ∈ xs) × (p a ≡ true)
  any_elim p [] h = cc
  any_elim p (x ∷ xs) h = elim (Bool-cases (p x)) [
    | inl e ↦ (x, inl refl, e)
    | inr e ↦ let (a, m, pa) = any_elim p xs (ground arith) in (a, inr m, pa)
  ]

  pub any_iff :
      (p : A → Bool) (xs : List A) → (any p xs ≡ true) ↔ ((a : A) × (a ∈ xs) × (p a ≡ true))
  any_iff p xs = (any_elim p xs, λ (a, m, h). any_intro p xs a m h)

  pub all_elim : (p : A → Bool) (xs : List A) → all p xs ≡ true → (a : A) → a ∈ xs → p a ≡ true
  all_elim p [] h a m = absurd m
  all_elim p (x ∷ xs) h a (inl e) = ground (arith, ap p e)
  all_elim p (x ∷ xs) h a (inr m) = all_elim p xs (ground arith) a m

  pub all_intro : (p : A → Bool) (xs : List A) → ((a : A) → a ∈ xs → p a ≡ true) → all p xs ≡ true
  all_intro p [] h = refl
  all_intro p (x ∷ xs) h = ground (arith, h x (inl refl), all_intro p xs (λ a m. h a (inr m)))

  pub all_iff : (p : A → Bool) (xs : List A) → (all p xs ≡ true) ↔ ((a : A) → a ∈ xs → p a ≡ true)
  all_iff p xs = (all_elim p xs, all_intro p xs)

  pub ∈-filter : (p : A → Bool) (a : A) (xs : List A) → a ∈ filter p xs ↔ ((a ∈ xs) × (p a ≡ true))
  ∈-filter p a [] = (λ m. absurd m, λ m. absurd m.0)
  ∈-filter p a (x ∷ xs) = elim (Bool-cases (p x)) [
    | inl e ↦ rw e (
      λ h. elim h [
        | inl q ↦ (inl q, ap p q ∙ e)
        | inr m ↦ let (n, pa) = (∈-filter p a xs).0 m in (inr n, pa)
      ],
      λ (h, pa). elim h [ inl q ↦ inl q | inr m ↦ inr ((∈-filter p a xs).1 (m, pa)) ],
    )
    | inr e ↦ rw e (
      λ m. let (n, pa) = (∈-filter p a xs).0 m in (inr n, pa),
      λ (h, pa). elim h [ inl q ↦ absurd (cc (ap p q)) | inr m ↦ (∈-filter p a xs).1 (m, pa) ],
    )
  ]

  pub find?_elim :
      (p : A → Bool) (xs : List A) (a : A) → find? p xs ≡ some a → (a ∈ xs) × (p a ≡ true)
  find?_elim p [] a h = cc
  find?_elim p (x ∷ xs) a h = elim (Bool-cases (p x)) [
    | inl e ↦ let q : a ≡ x = ground arith in (inl q, ap p q ∙ e)
    | inr e ↦ let (m, pa) = find?_elim p xs a (ground arith) in (inr m, pa)
  ]

  pub find?-none : (p : A → Bool) (xs : List A) → find? p xs ≡ none → (a : A) → a ∈ xs → p a ≡ false
  find?-none p [] h a m = absurd m
  find?-none p (x ∷ xs) h a (inl e) = ground (arith, ap p e)
  find?-none p (x ∷ xs) h a (inr m) = find?-none p xs (ground arith) a m

module _ {A B : Type 0} where
  pub ∈-map : (f : A → B) (b : B) (xs : List A) → b ∈ map f xs ↔ ((a : A) × (a ∈ xs) × (b ≡ f a))
  ∈-map f b [] = (λ m. absurd m, λ m. absurd m.1)
  ∈-map f b (x ∷ xs) = (
    λ h. elim h [
      | inl e ↦ (x, inl refl, e)
      | inr m ↦ let (a, n, e) = (∈-map f b xs).0 m in (a, inr n, e)
    ],
    λ (a, h, e). elim h [ inl q ↦ inl (e ∙ ap f q) | inr m ↦ inr ((∈-map f b xs).1 (a, m, e)) ],
  )

  abbrev pub flat_map : (A → List B) → List A → List B
  flat_map f [] = []
  flat_map f (x ∷ xs) = f x ++ flat_map f xs

  pub ∈-flat_map :
      (f : A → List B) (b : B) (xs : List A) → b ∈ flat_map f xs ↔ ((a : A) × (a ∈ xs) × (b ∈ f a))
  ∈-flat_map f b [] = (λ m. absurd m, λ m. absurd m.1)
  ∈-flat_map f b (x ∷ xs) = (
    λ h. elim ((∈-append b (f x) (flat_map f xs)).0 h) [
      | inl m ↦ (x, inl refl, m)
      | inr m ↦ let (a, n, e) = (∈-flat_map f b xs).0 m in (a, inr n, e)
    ],
    λ (a, h, m).
        (∈-append b (f x) (flat_map f xs)).1
          (elim h [ inl q ↦ inl (rw q at m) | inr n ↦ inr ((∈-flat_map f b xs).1 (a, n, m)) ]),
  )

-- `std::find(begin, end, a) != end` and `count(a)` on a container of pointers.
abbrev pub contains : List ℕ → ℕ → Bool
contains [] a = false
contains (x ∷ xs) a = a == x || contains xs a

pub contains_iff : (xs : List ℕ) (a : ℕ) → (contains xs a ≡ true) ↔ (a ∈ xs)
contains_iff [] a = (λ h. cc, λ m. absurd m)
contains_iff (x ∷ xs) a = ground (arith, contains_iff xs a, ==_iff a x)
