-- ===== src/ShadowDependenceGraph/Iterated.antt =====
-- computeNextIterationNodes: the copies and the pairs that it makes.
use iterator_recognition.Prelude.{
  ℕ, ◌+◌, ◌<◌, ◌≡◌, refl, sym, ap, ◌∙◌, inl, inr, true, false, ◌||◌, List, [], ◌∷◌, ◌++◌, map,
  arith, ◌==◌, ==_iff, Bool-cases, length, ◌∈◌, ∈-append, any, any_elim, contains, IsDistinct,
}
use mathlib.Core.List.{append_assoc, append-nil}
use iterator_recognition.ShadowDependenceGraph.{SNode, make_node}
use iterator_recognition.ShadowDependenceGraph.Iterations.{
  insert_pair, NextNodes, copy_units, copy_nodes,
}

-- The copies of the nodes, from address `i` on, and their pairs.
abbrev pub copies_from : ℕ → List SNode → List SNode
copies_from i [] = []
copies_from i (n ∷ ns) =
    record { address = i; units = n.units; is_next_iteration = true; out_edges = []; in_edges = [] }
    ∷ copies_from (i + 1) ns

abbrev pub pairs_from : ℕ → List SNode → List (ℕ × ℕ)
pairs_from i [] = []
pairs_from i (n ∷ ns) = (n.address, i) ∷ pairs_from (i + 1) ns

abbrev pub addresses : List SNode → List ℕ
addresses ns = map (λ n. n.address) ns

-- Nodes with one unit each and different addresses, of which none is in a pair.
abbrev pub IsSingle : List SNode → Type 0
IsSingle ns = (n : SNode) → n ∈ ns → (u : ℕ) × (n.units ≡ u ∷ [])

-- The pairs are of other nodes than these, and of copies before `i`.
abbrev pub IsApart : List (ℕ × ℕ) → List SNode → ℕ → Type 0
IsApart pairs ns i = (p : ℕ × ℕ) → p ∈ pairs → (contains (addresses ns) p.0 ≡ false) × (p.1 < i)

insert_pair-apart :
    (n : SNode) (ns : List SNode) (i : ℕ) (pairs : List (ℕ × ℕ))
    → IsApart pairs (n ∷ ns) i
    → insert_pair n.address i pairs ≡ pairs ++ (n.address, i) ∷ []
unfolding insert_pair
insert_pair-apart n ns i pairs apart =
    elim (Bool-cases (any (λ (e : ℕ × ℕ). e.0 == n.address || e.1 == i) pairs)) [
      | inl q ↦
          let (e, m, h) = any_elim (λ (e : ℕ × ℕ). e.0 == n.address || e.1 == i) pairs q in
          let (free, lt) = apart e m in absurd (ground (arith, ==_iff e.0 n.address, ==_iff e.1 i))
      | inr q ↦ rw q refl
    ]

abbrev pub result : List SNode → List (ℕ × ℕ) → ℕ → NextNodes
result made pairs i = record { made = made; pairs = pairs; next_address = i }

result-eq :
    (made made' : List SNode) (pairs pairs' : List (ℕ × ℕ)) (i i' : ℕ)
    → made ≡ made'
    → pairs ≡ pairs'
    → i ≡ i'
    → result made pairs i ≡ result made' pairs' i'
result-eq made made' pairs pairs' i i' p q r = rw p (rw q (rw r refl))

abbrev copy_of : ℕ → List ℕ → SNode
copy_of i units = record {
  address = i;
  units = units;
  is_next_iteration = true;
  out_edges = [];
  in_edges = [];
}

copy_units-one :
    (n0 u : ℕ) (us : List ℕ) (s : NextNodes)
    → us ≡ u ∷ []
    → insert_pair n0 s.next_address s.pairs ≡ s.pairs ++ (n0, s.next_address) ∷ []
    → copy_units n0 us s
      ≡ result
          (s.made ++ copy_of s.next_address us ∷ [])
          (s.pairs ++ (n0, s.next_address) ∷ [])
          (s.next_address + 1)
unfolding copy_units make_node
copy_units-one n0 u us s q h = rw q (rw h refl)

IsApart-snoc :
    (n : SNode) (ns : List SNode) (i : ℕ) (pairs : List (ℕ × ℕ))
    → IsDistinct (addresses (n ∷ ns))
    → IsApart pairs (n ∷ ns) i
    → IsApart (pairs ++ (n.address, i) ∷ []) ns (i + 1)
IsApart-snoc n ns i pairs distinct apart p m = elim ((∈-append p pairs ((n.address, i) ∷ [])).0 m) [
  | inl old ↦ let (free, lt) = apart p old in (ground arith, omega arith)
  | inr (inl e) ↦ (
    ap (λ (q : ℕ × ℕ). contains (addresses ns) q.0) e ∙ distinct.0,
    omega (arith, ap (λ (q : ℕ × ℕ). q.1) e),
  )
  | inr (inr x) ↦ absurd x
]

pub copy_nodes-from :
    (ns : List SNode) (s : NextNodes)
    → IsSingle ns
    → IsDistinct (addresses ns)
    → IsApart s.pairs ns s.next_address
    → copy_nodes ns s
      ≡ result
          (s.made ++ copies_from s.next_address ns)
          (s.pairs ++ pairs_from s.next_address ns)
          (s.next_address + length ns)
unfolding copy_nodes
copy_nodes-from [] s single distinct apart =
    result-eq s.made (s.made ++ []) s.pairs (s.pairs ++ []) s.next_address (s.next_address + 0)
      (sym (append-nil s.made)) (sym (append-nil s.pairs)) (omega arith)
copy_nodes-from (n ∷ ns) s single distinct apart =
    let (u, q) = single n (inl refl) in
    let i = s.next_address in
    let made : List SNode = s.made ++ copy_of i n.units ∷ [] in
    let pairs : List (ℕ × ℕ) = s.pairs ++ (n.address, i) ∷ [] in
    let first = copy_units-one n.address u n.units s q (insert_pair-apart n ns i s.pairs apart) in
    let rest =
      copy_nodes-from ns (result made pairs (i + 1)) (λ k m. single k (inr m)) distinct.1
        (IsApart-snoc n ns i s.pairs distinct apart) in
    ap (copy_nodes ns) first
    ∙ rest
    ∙ result-eq (made ++ copies_from (i + 1) ns) (s.made ++ copies_from i (n ∷ ns))
        (pairs ++ pairs_from (i + 1) ns) (s.pairs ++ pairs_from i (n ∷ ns)) (i + 1 + length ns)
        (i + length (n ∷ ns))
        (append_assoc s.made (copy_of i n.units ∷ []) (copies_from (i + 1) ns))
        (append_assoc s.pairs ((n.address, i) ∷ []) (pairs_from (i + 1) ns)) (omega arith)
