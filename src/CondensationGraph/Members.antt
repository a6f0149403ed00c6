-- ===== src/CondensationGraph/Members.antt =====
-- The member map, the set difference and the external edges of one condensation.
use mathlib.Core.Option
use iterator_recognition.Prelude.{
  ℕ, ◌≡◌, refl, sym, ap, ◌∙◌, ◌↔◌, inl, inr, Option, none, some, List, [], ◌∷◌, arith, ◌==◌,
  if◌then◌else◌, ==_iff, Bool-cases, Option-cases, ◌∈◌, find?, flat_map, ∈-flat_map, contains,
  IsAscending, Above-lt,
}
use iterator_recognition.Extras.{unique_inplace}
use iterator_recognition.Extras.Canonical.{∈-unique_inplace, unique_inplace-IsAscending}
use iterator_recognition.CondensationGraph.{
  CondensationNode, MemberMap, at?, emplace, set_entry_node, map_members, map_condensations,
  set_difference, at_each, find_condensation_external_edges,
}

abbrev pub or_else : Option ℕ → Option ℕ → Option ℕ
or_else none o = o
or_else (some c) o = some c

or_else_assoc : (a b c : Option ℕ) → or_else (or_else a b) c ≡ or_else a (or_else b c)
or_else_assoc none b c = refl
or_else_assoc (some x) b c = refl

or_else-none : (a : Option ℕ) → or_else a none ≡ a
or_else-none none = refl
or_else-none (some x) = refl

at?-emplace :
    (n c k : ℕ) (m : MemberMap)
    → at? (emplace n c m) k ≡ or_else (at? m k) (if k == n then some c else none)
unfolding emplace at?
at?-emplace n c k m = elim (Bool-cases (k == n)) [
  | inl e ↦ rw ((==_iff k n).0 e) (ground arith)
  | inr e ↦ ground arith
]

at?-map_members :
    (unit : ℕ → Option ℕ) (cn k : ℕ) (ns : List ℕ) (s : MemberMap × Option ℕ)
    → at? (map_members unit cn ns s).0 k
      ≡ or_else (at? s.0 k) (if contains ns k then some cn else none)
unfolding map_members
at?-map_members unit cn k [] s = sym (or_else-none (at? s.0 k))
at?-map_members unit cn k (n ∷ ns) (n2c, entry) = ground (
  arith,
  at?-map_members unit cn k ns (emplace n cn n2c, set_entry_node unit n cn entry),
  at?-emplace n cn k n2c,
)

abbrev pub first_with : ℕ → List (ℕ × CondensationNode) → Option ℕ
first_with k cns = Option.map (λ c. c.0) (find? (λ c. contains c.1.nodes k) cns)

-- The map sends a member to the first condensation that holds it.
pub at?-map_condensations :
    (unit : ℕ → Option ℕ) (k : ℕ) (cns : List (ℕ × CondensationNode)) (s : MemberMap × Option ℕ)
    → at? (map_condensations unit cns s).0 k ≡ or_else (at? s.0 k) (first_with k cns)
unfolding map_condensations
at?-map_condensations unit k [] s = sym (or_else-none (at? s.0 k))
at?-map_condensations unit k ((cn, node) ∷ rest) s = ground (
  arith,
  at?-map_condensations unit k rest (map_members unit cn node.nodes s),
  at?-map_members unit cn k node.nodes s,
)

pub ∈-set_difference :
    (a : ℕ) (xs ys : List ℕ)
    → IsAscending xs
    → IsAscending ys
    → a ∈ set_difference xs ys ↔ ((a ∈ xs) × ¬ (a ∈ ys))
unfolding set_difference
∈-set_difference a [] ys h k = (λ m. absurd m, λ m. absurd m.0)
∈-set_difference a (x ∷ xs) [] h k = ground arith
∈-set_difference a (x ∷ xs) (y ∷ ys) h k = ground (
  arith,
  ∈-set_difference a xs (y ∷ ys) h.1 k,
  ∈-set_difference a (x ∷ xs) ys h k.1,
  ∈-set_difference a xs ys h.1 k.1,
  Above-lt x a xs h.0,
  Above-lt y a ys k.0,
)

at_each-cons :
    (m : MemberMap) (e : ℕ) (es cs : List ℕ)
    → at_each m (e ∷ es) ≡ some cs
    → (c : ℕ) × (rest : List ℕ) × (at? m e ≡ some c) × (at_each m es ≡ some rest) × (cs ≡ c ∷ rest)
unfolding at_each
at_each-cons m e es cs h = elim (Option-cases (at? m e)) [
  | inl q ↦ absurd (ground arith)
  | inr (c, q) ↦ elim (Option-cases (at_each m es)) [
    | inl p ↦ absurd (ground arith)
    | inr (rest, p) ↦ (c, rest, q, p, ground arith)
  ]
]

∈-at_each :
    (m : MemberMap) (es cs : List ℕ)
    → at_each m es ≡ some cs
    → (d : ℕ) → d ∈ cs ↔ ((e : ℕ) × (e ∈ es) × (at? m e ≡ some d))
unfolding at_each
∈-at_each m [] cs h d =
    let empty : cs ≡ [] = ground arith in rw empty (λ n. absurd n, λ n. absurd n.1)
∈-at_each m (e ∷ es) cs h d =
    let (c, rest, q, p, whole) = at_each-cons m e es cs h in
    let ih = ∈-at_each m es rest p d in
    rw whole (
      λ n. elim n [
        | inl first ↦ (e, inl refl, q ∙ ap some (sym first))
        | inr later ↦ let (x, there, found) = ih.0 later in (x, inr there, found)
      ],
      λ (x, place, found). elim place [
        | inl first ↦ inl (ground (arith, ap (at? m) first))
        | inr later ↦ inr (ih.1 (x, later, found))
      ],
    )

at_each-returns :
    (m : MemberMap) (es : List ℕ)
    → ((e : ℕ) → e ∈ es → (c : ℕ) × (at? m e ≡ some c))
    → (cs : List ℕ) × (at_each m es ≡ some cs)
unfolding at_each
at_each-returns m [] h = ([], refl)
at_each-returns m (e ∷ es) h =
    let (c, found) = h e (inl refl) in
    let (cs, rest) = at_each-returns m es (λ x n. h x (inr n)) in (c ∷ cs, ground arith)

-- The members outside a condensation that the edges of its members lead to.
abbrev pub External : (ℕ → List ℕ) → List ℕ → ℕ → Type 0
External children members e = ((m : ℕ) × (m ∈ members) × (e ∈ children m)) × ¬ (e ∈ members)

module _ (children : ℕ → List ℕ) (members : List ℕ) where
  abbrev external : List ℕ
  external = set_difference (unique_inplace (flat_map children members)) (unique_inplace members)

  ∈-external : (e : ℕ) → e ∈ external ↔ External children members e
  ∈-external e = ground (
    arith,
    ∈-set_difference e (unique_inplace (flat_map children members)) (unique_inplace members)
        (unique_inplace-IsAscending (flat_map children members))
        (unique_inplace-IsAscending members),
    ∈-unique_inplace e members,
    ∈-unique_inplace e (flat_map children members),
    ∈-flat_map children e members,
  )

  -- The edges of a condensation go to the condensations of the external members.
  pub ∈-find_condensation_external_edges :
      (n2c : MemberMap) (cs : List ℕ)
      → find_condensation_external_edges children members n2c ≡ some cs
      → (d : ℕ) → d ∈ cs ↔ ((e : ℕ) × External children members e × (at? n2c e ≡ some d))
  unfolding find_condensation_external_edges
  ∈-find_condensation_external_edges n2c cs h d = elim (Option-cases (at_each n2c external)) [
    | inl q ↦ absurd (ground arith)
    | inr (es, q) ↦
        let whole : cs ≡ unique_inplace es = ground arith in
        let inner = ∈-at_each n2c external es q d in
        let outer = ∈-unique_inplace d es in
        rw whole (
          λ n. let (e, there, found) = inner.0 (outer.0 n) in (e, (∈-external e).0 there, found),
          λ (e, there, found). outer.1 (inner.1 (e, (∈-external e).1 there, found)),
        )
  ]

  pub find_condensation_external_edges-returns :
      (n2c : MemberMap)
      → ((e : ℕ) → External children members e → (c : ℕ) × (at? n2c e ≡ some c))
      → (cs : List ℕ) × (find_condensation_external_edges children members n2c ≡ some cs)
  unfolding find_condensation_external_edges
  find_condensation_external_edges-returns n2c h =
      let (es, q) = at_each-returns n2c external (λ e n. h e ((∈-external e).0 n)) in
      (unique_inplace es, ground arith)
