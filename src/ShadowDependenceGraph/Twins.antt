-- ===== src/ShadowDependenceGraph/Twins.antt =====
-- The pairs of nodes with their copies for the next iteration, and the edges of these.
use iterator_recognition.Prelude.{
  ℕ, ◌+◌, ◌≤◌, ◌≡◌, refl, sym, ap, ◌↔◌, inl, inr, true, some, List, [], ◌∷◌, ◌++◌, arith, ◌==◌,
  ==_iff, ==_refl, Bool-cases, ◌∈◌, any_intro, any_elim, contains, IsDistinct,
}
use iterator_recognition.ShadowDependenceGraph.{SNode, out_edges_at, in_edges_at}
use iterator_recognition.ShadowDependenceGraph.Iterations.{next_of, original_of}
use iterator_recognition.ShadowDependenceGraph.Edges.{has_address}
use iterator_recognition.ShadowDependenceGraph.Iterated.{copies_from, pairs_from, addresses}

pub contains-addresses : (a : ℕ) (ns : List SNode) → contains (addresses ns) a ≡ has_address ns a
contains-addresses a [] = refl
contains-addresses a (n ∷ ns) =
    ground (arith, contains-addresses a ns, ==_iff a n.address, ==_iff n.address a)

pub has_address_intro : (n : SNode) (ns : List SNode) → n ∈ ns → has_address ns n.address ≡ true
has_address_intro n ns m = any_intro (λ k. k.address == n.address) ns n m (==_refl n.address)

pub has_address_elim :
    (a : ℕ) (ns : List SNode) → has_address ns a ≡ true → (n : SNode) × (n ∈ ns) × (a ≡ n.address)
has_address_elim a ns h =
    let (n, m, q) = any_elim (λ (k : SNode). k.address == a) ns h in
    (n, m, sym ((==_iff n.address a).0 q))

pub next_of-lands :
    (i a b : ℕ) (ns : List SNode)
    → next_of (pairs_from i ns) a ≡ some b
    → (i ≤ b) × (has_address (copies_from i ns) b ≡ true)
unfolding next_of
next_of-lands i a b [] h = cc
next_of-lands i a b (n ∷ ns) h = elim (Bool-cases (a == n.address)) [
  | inl q ↦ let e : b ≡ i = ground arith in (omega arith, ground (arith, ==_iff i b))
  | inr q ↦
      let (le, there) = next_of-lands (i + 1) a b ns (ground arith) in (omega arith, ground arith)
]

pub original_of-has_address :
    (i a b : ℕ) (ns : List SNode)
    → original_of (pairs_from i ns) b ≡ some a
    → has_address ns a ≡ true
unfolding original_of
original_of-has_address i a b [] h = cc
original_of-has_address i a b (n ∷ ns) h = elim (Bool-cases (b == i)) [
  | inl q ↦ let e : a ≡ n.address = ground arith in ground (arith, ==_iff n.address a)
  | inr q ↦ let there = original_of-has_address (i + 1) a b ns (ground arith) in ground arith
]

pub has_address-next_of :
    (i a : ℕ) (ns : List SNode)
    → has_address ns a ≡ true
    → (b : ℕ) × (next_of (pairs_from i ns) a ≡ some b)
unfolding next_of
has_address-next_of i a [] h = cc
has_address-next_of i a (n ∷ ns) h = elim (Bool-cases (a == n.address)) [
  | inl q ↦ (i, ground arith)
  | inr q ↦
      let (b, t) =
        has_address-next_of (i + 1) a ns (ground (arith, ==_iff a n.address, ==_iff n.address a)) in
      (b, ground arith)
]

-- The two look-ups of the pairs are inverse to each other.
pub next_of-original_of :
    (i a b : ℕ) (ns : List SNode)
    → IsDistinct (addresses ns)
    → (next_of (pairs_from i ns) a ≡ some b) ↔ (original_of (pairs_from i ns) b ≡ some a)
unfolding next_of original_of
next_of-original_of i a b [] d = ground arith
next_of-original_of i a b (n ∷ ns) d =
    let ih = next_of-original_of (i + 1) a b ns d.1 in
    (
      λ h. elim (Bool-cases (a == n.address)) [
        | inl q ↦ ground (arith, ==_iff a n.address)
        | inr q ↦
            let t : next_of (pairs_from (i + 1) ns) a ≡ some b = ground arith in
            let (le, there) = next_of-lands (i + 1) a b ns t in ground (arith, ih.0 t, ==_iff b i)
      ],
      λ h. elim (Bool-cases (b == i)) [
        | inl q ↦ ground (arith, ==_iff b i, ==_iff a n.address)
        | inr q ↦
            let t : original_of (pairs_from (i + 1) ns) b ≡ some a = ground arith in
            let there = original_of-has_address (i + 1) a b ns t in
            let same = contains-addresses a ns in
            elim (Bool-cases (a == n.address)) [
              | inl e ↦
                  absurd (ground (arith, ap (contains (addresses ns)) ((==_iff a n.address).0 e)))
              | inr e ↦ ground (arith, ih.1 t)
            ]
      ],
    )

pub ∈-copies_from :
    (i : ℕ) (n1 : SNode) (ns : List SNode)
    → n1 ∈ copies_from i ns
    → (n1.is_next_iteration ≡ true)
      × (i ≤ n1.address)
      × ((a : ℕ) × (original_of (pairs_from i ns) n1.address ≡ some a))
unfolding original_of
∈-copies_from i n1 [] m = absurd m
∈-copies_from i n1 (n ∷ ns) (inl e) =
    let at = ap (λ (t : SNode). t.address) e in
    (
      ap (λ (t : SNode). t.is_next_iteration) e,
      omega arith,
      (n.address, ground (arith, ==_iff n1.address i)),
    )
∈-copies_from i n1 (n ∷ ns) (inr m) =
    let (next, le, (a, o)) = ∈-copies_from (i + 1) n1 ns m in
    (next, omega arith, (a, ground (arith, ==_iff n1.address i)))

pub out_edges_at-copies_from :
    (i x : ℕ) (ms ns : List SNode) → out_edges_at (ns ++ copies_from i ms) x ≡ out_edges_at ns x
unfolding out_edges_at
out_edges_at-copies_from i x [] [] = refl
out_edges_at-copies_from i x (m ∷ ms) [] = ground (arith, out_edges_at-copies_from (i + 1) x ms [])
out_edges_at-copies_from i x ms (n ∷ ns) = ground (arith, out_edges_at-copies_from i x ms ns)

pub in_edges_at-copies_from :
    (i x : ℕ) (ms ns : List SNode) → in_edges_at (ns ++ copies_from i ms) x ≡ in_edges_at ns x
unfolding in_edges_at
in_edges_at-copies_from i x [] [] = refl
in_edges_at-copies_from i x (m ∷ ms) [] = ground (arith, in_edges_at-copies_from (i + 1) x ms [])
in_edges_at-copies_from i x ms (n ∷ ns) = ground (arith, in_edges_at-copies_from i x ms ns)

pub out_edges_at-has_address :
    (a e : ℕ) (ns : List SNode) → e ∈ out_edges_at ns a → has_address ns a ≡ true
unfolding out_edges_at
out_edges_at-has_address a e [] m = absurd m
out_edges_at-has_address a e (n ∷ ns) m = elim (Bool-cases (n.address == a)) [
  | inl q ↦ ground arith
  | inr q ↦ ground (arith, out_edges_at-has_address a e ns)
]
