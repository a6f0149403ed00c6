-- ===== src/Extras/SetEquality.antt =====
-- operator== on sets.
use iterator_recognition.Prelude.{
  ℕ, ◌≤◌, ◌<◌, ◌≡◌, refl, subst, ◌≢◌, ◌↔◌, inl, inr, true, List, [], ◌∷◌, arith, ==_iff, Bool-cases,
  length, ◌∈◌, all, all_elim, all_intro, contains, contains_iff, erase, ∈-erase, IsDistinct,
}
use iterator_recognition.Extras.{set_eq}

length-erase : (a : ℕ) (xs : List ℕ) → (length (erase a xs) ≤ length xs)
unfolding erase
length-erase a [] = omega arith
length-erase a (x ∷ xs) = ground (arith, length-erase a xs)

length-erase_member : (a : ℕ) (xs : List ℕ) → a ∈ xs → length (erase a xs) < length xs
unfolding erase
length-erase_member a [] m = absurd m
length-erase_member a (x ∷ xs) (inl e) = ground (arith, length-erase a xs, ==_iff a x, ==_iff x a)
length-erase_member a (x ∷ xs) (inr m) =
    ground (arith, length-erase a xs, length-erase_member a xs m)

-- A list without repetition is no longer than one that holds its members.
length-distinct :
    (xs ys : List ℕ) → IsDistinct xs → ((a : ℕ) → a ∈ xs → a ∈ ys) → length xs ≤ length ys
length-distinct [] ys d h = omega arith
length-distinct (x ∷ xs) ys d h =
    let rest = length-distinct xs (erase x ys) d.1 (λ a m.
      let other : a ≢ x =
        λ e. absurd (ground (arith, d.0, (contains_iff xs x).1 (subst (λ k. k ∈ xs) e m))) in
      (∈-erase a x ys).1 (h a (inr m), other)) in
    omega (arith, rest, length-erase_member x ys (h x (inl refl)))

-- On sets without repetition, the equality decides whether they have the same members.
pub set_eq_iff :
    (lhs rhs : List ℕ)
    → IsDistinct lhs
    → IsDistinct rhs
    → (set_eq lhs rhs ≡ true) ↔ ((a : ℕ) → a ∈ lhs ↔ a ∈ rhs)
unfolding set_eq
set_eq_iff lhs rhs d k = (
  λ h a.
      let sizes : length lhs ≡ length rhs = ground (arith, ==_iff (length lhs) (length rhs)) in
      let members : all (λ e. contains rhs e) lhs ≡ true = ground arith in
      let within : (b : ℕ) → b ∈ lhs → b ∈ rhs =
        λ b m. (contains_iff rhs b).0 (all_elim (λ e. contains rhs e) lhs members b m) in
      (
        within a,
        λ m. elim (Bool-cases (contains lhs a)) [
          | inl q ↦ (contains_iff lhs a).0 q
          | inr q ↦
              let shorter = length-distinct lhs (erase a rhs) d (λ b n.
                let other : b ≢ a =
                  λ e. absurd (ground (arith, (contains_iff lhs a).1 (subst (λ k. k ∈ lhs) e n))) in
                (∈-erase b a rhs).1 (within b n, other)) in
              absurd (omega (arith, shorter, length-erase_member a rhs m))
        ],
      ),
  λ same.
      let sizes : length lhs ≡ length rhs = omega (
        arith,
        length-distinct lhs rhs d (λ a m. (same a).0 m),
        length-distinct rhs lhs k (λ a m. (same a).1 m),
      ) in
      let members =
        all_intro (λ e. contains rhs e) lhs (λ a m. (contains_iff rhs a).1 ((same a).0 m)) in
      ground (arith, ==_iff (length lhs) (length rhs)),
)
