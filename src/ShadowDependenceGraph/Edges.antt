-- ===== src/ShadowDependenceGraph/Edges.antt =====
-- The edges that computeEdges makes, at both of their ends.
use iterator_recognition.Prelude.{
  ℕ, ◌≡◌, refl, ◌∙◌, ◌↔◌, ◌⊎◌, inl, inr, Bool, true, ◌&&◌, some, List, [], ◌∷◌, ◌++◌, arith, ◌==◌,
  if◌then◌else◌, ==_iff, Option-cases, ◌∈◌, ∈-append, any,
}
use iterator_recognition.ShadowDependenceGraph.{
  SourceGraph, SNode, SGraph, node_of, out_edges_at, in_edges_at, push_out_edge, push_in_edge,
  add_edges, compute_edges_of, compute_edges,
}

abbrev pub has_address : List SNode → ℕ → Bool
has_address ns a = any (λ n. n.address == a) ns

-- Whether the map's entries point to nodes that are there.
abbrev pub IsPointing : List (ℕ × ℕ) → List SNode → Type 0
IsPointing m ns = (u a : ℕ) → node_of m u ≡ some a → has_address ns a ≡ true

pub has_address-push_out_edge :
    (a c x : ℕ) (ns : List SNode) → has_address (push_out_edge a c ns) x ≡ has_address ns x
unfolding push_out_edge
has_address-push_out_edge a c x [] = refl
has_address-push_out_edge a c x (n ∷ ns) = ground (arith, has_address-push_out_edge a c x ns)

pub has_address-push_in_edge :
    (c a x : ℕ) (ns : List SNode) → has_address (push_in_edge c a ns) x ≡ has_address ns x
unfolding push_in_edge
has_address-push_in_edge c a x [] = refl
has_address-push_in_edge c a x (n ∷ ns) = ground (arith, has_address-push_in_edge c a x ns)

pub in_edges_at-push_out_edge :
    (a c x : ℕ) (ns : List SNode) → in_edges_at (push_out_edge a c ns) x ≡ in_edges_at ns x
unfolding push_out_edge in_edges_at
in_edges_at-push_out_edge a c x [] = refl
in_edges_at-push_out_edge a c x (n ∷ ns) = ground (arith, in_edges_at-push_out_edge a c x ns)

pub out_edges_at-push_in_edge :
    (c a x : ℕ) (ns : List SNode) → out_edges_at (push_in_edge c a ns) x ≡ out_edges_at ns x
unfolding push_in_edge out_edges_at
out_edges_at-push_in_edge c a x [] = refl
out_edges_at-push_in_edge c a x (n ∷ ns) = ground (arith, out_edges_at-push_in_edge c a x ns)

pub in_edges_at-push_in_edge :
    (c a x : ℕ) (ns : List SNode)
    → in_edges_at (push_in_edge c a ns) x
      ≡ (if x == c && has_address ns c then in_edges_at ns x ++ a ∷ [] else in_edges_at ns x)
unfolding push_in_edge in_edges_at
in_edges_at-push_in_edge c a x [] = ground arith
in_edges_at-push_in_edge c a x (n ∷ ns) = ground (arith, in_edges_at-push_in_edge c a x ns)

pub out_edges_at-push_out_edge :
    (a c x : ℕ) (ns : List SNode)
    → out_edges_at (push_out_edge a c ns) x
      ≡ (if x == a && has_address ns a then out_edges_at ns x ++ c ∷ [] else out_edges_at ns x)
unfolding push_out_edge out_edges_at
out_edges_at-push_out_edge a c x [] = ground arith
out_edges_at-push_out_edge a c x (n ∷ ns) = ground (arith, out_edges_at-push_out_edge a c x ns)

has_address-link :
    (a c x : ℕ) (ns : List SNode)
    → has_address (push_in_edge c a (push_out_edge a c ns)) x ≡ has_address ns x
has_address-link a c x ns =
    has_address-push_in_edge c a x (push_out_edge a c ns) ∙ has_address-push_out_edge a c x ns

∈-in_edges-link :
    (a c x y : ℕ) (ns : List SNode)
    → has_address ns c ≡ true
    → y ∈ in_edges_at (push_in_edge c a (push_out_edge a c ns)) x
      ↔ (((y ≡ a) × (x ≡ c)) ⊎ (y ∈ in_edges_at ns x))
∈-in_edges-link a c x y ns h = rw in_edges_at-push_in_edge (
    rw has_address-push_out_edge (
      rw in_edges_at-push_out_edge
        (ground (arith, ∈-append y (in_edges_at ns x) (a ∷ []), ==_iff x c))))

∈-out_edges-link :
    (a c x y : ℕ) (ns : List SNode)
    → has_address ns a ≡ true
    → y ∈ out_edges_at (push_in_edge c a (push_out_edge a c ns)) x
      ↔ (((y ≡ c) × (x ≡ a)) ⊎ (y ∈ out_edges_at ns x))
∈-out_edges-link a c x y ns h = rw out_edges_at-push_in_edge (
    rw out_edges_at-push_out_edge
      (ground (arith, ∈-append y (out_edges_at ns x) (c ∷ []), ==_iff x a)))

module _ (source : SourceGraph) (m : List (ℕ × ℕ)) where
  -- Whether one of the nodes of the source has its copy at `c`.
  abbrev pub HasCopy : List ℕ → ℕ → Type 0
  HasCopy [] c = ⊥
  HasCopy (e ∷ es) c = (node_of m (source.unit e) ≡ some c) ⊎ HasCopy es c

  -- Whether an edge of the source leads from a node with its copy at `x` to one with its copy at `y`.
  abbrev pub HasEdge : List ℕ → ℕ → ℕ → Type 0
  HasEdge [] x y = ⊥
  HasEdge (n ∷ ns) x y =
      ((node_of m (source.unit n) ≡ some x) × HasCopy (source.children n) y) ⊎ HasEdge ns x y

  has_address-add_edges :
      (sn x : ℕ) (es : List ℕ) (ns : List SNode)
      → has_address (add_edges source m sn es ns) x ≡ has_address ns x
  unfolding add_edges
  has_address-add_edges sn x [] ns = refl
  has_address-add_edges sn x (e ∷ es) ns = elim (Option-cases (node_of m (source.unit e))) [
    | inl q ↦ rw (q, add_edges) (has_address-add_edges sn x es ns)
    | inr (c, q) ↦
        rw (q, add_edges)
          (has_address-add_edges sn x es (push_in_edge c sn (push_out_edge sn c ns))
            ∙ has_address-link sn c x ns)
  ]

  IsPointing-link :
      (a c : ℕ) (ns : List SNode)
      → IsPointing m ns
      → IsPointing m (push_in_edge c a (push_out_edge a c ns))
  IsPointing-link a c ns ok u b h = has_address-link a c b ns ∙ ok u b h

  ∈-add_edges :
      (sn x y : ℕ) (es : List ℕ) (ns : List SNode)
      → IsPointing m ns
      → has_address ns sn ≡ true
      → (y ∈ in_edges_at (add_edges source m sn es ns) x
          ↔ (((y ≡ sn) × HasCopy es x) ⊎ (y ∈ in_edges_at ns x)))
        × (y ∈ out_edges_at (add_edges source m sn es ns) x
            ↔ (((x ≡ sn) × HasCopy es y) ⊎ (y ∈ out_edges_at ns x)))
  unfolding add_edges
  ∈-add_edges sn x y [] ns ok h = ground arith
  ∈-add_edges sn x y (e ∷ es) ns ok h = elim (Option-cases (node_of m (source.unit e))) [
    | inl q ↦ rw (q, add_edges) (let rest = ∈-add_edges sn x y es ns ok h in ground arith)
    | inr (c, q) ↦
        rw (q, add_edges)
          (let rest =
              ∈-add_edges sn x y es (push_in_edge c sn (push_out_edge sn c ns))
                (IsPointing-link sn c ns ok) (has_address-link sn c sn ns ∙ h) in
            ground (
              arith,
              ∈-in_edges-link sn c x y ns (ok (source.unit e) c q),
              ∈-out_edges-link sn c x y ns h,
            ))
  ]

  IsPointing-add_edges :
      (sn : ℕ) (es : List ℕ) (ns : List SNode)
      → IsPointing m ns
      → IsPointing m (add_edges source m sn es ns)
  IsPointing-add_edges sn es ns ok u b h = has_address-add_edges sn b es ns ∙ ok u b h

  ∈-compute_edges_of :
      (x y : ℕ) (rest : List ℕ) (ns : List SNode)
      → IsPointing m ns
      → (y ∈ in_edges_at (compute_edges_of source m rest ns) x
          ↔ (HasEdge rest y x ⊎ (y ∈ in_edges_at ns x)))
        × (y ∈ out_edges_at (compute_edges_of source m rest ns) x
            ↔ (HasEdge rest x y ⊎ (y ∈ out_edges_at ns x)))
  unfolding compute_edges_of
  ∈-compute_edges_of x y [] ns ok = ground arith
  ∈-compute_edges_of x y (n ∷ rest) ns ok = elim (Option-cases (node_of m (source.unit n))) [
    | inl q ↦
        rw (q, compute_edges_of) (let tail = ∈-compute_edges_of x y rest ns ok in ground arith)
    | inr (sn, q) ↦
        rw (q, compute_edges_of)
          (let tail =
              ∈-compute_edges_of x y rest (add_edges source m sn (source.children n) ns)
                (IsPointing-add_edges sn (source.children n) ns ok) in
            let first = ∈-add_edges sn x y (source.children n) ns ok (ok (source.unit n) sn q) in
            ground arith)
  ]

-- On a graph whose map points to its nodes, an edge is among the out-edges of the node at `x` after
-- computeEdges exactly when it was before, or the source has an edge between two nodes with copies at
-- `x` and `y`; and it is among the in-edges of the node at `y` under the same condition.
pub ∈-compute_edges :
    (source : SourceGraph) (g : SGraph) (x y : ℕ)
    → IsPointing g.unit_to_node g.nodes
    → (y ∈ out_edges_at (compute_edges source g).nodes x
        ↔ (HasEdge source g.unit_to_node source.nodes x y ⊎ (y ∈ out_edges_at g.nodes x)))
      × (x ∈ in_edges_at (compute_edges source g).nodes y
          ↔ (HasEdge source g.unit_to_node source.nodes x y ⊎ (x ∈ in_edges_at g.nodes y)))
unfolding compute_edges
∈-compute_edges source g x y ok = (
  (∈-compute_edges_of source g.unit_to_node x y source.nodes g.nodes ok).1,
  (∈-compute_edges_of source g.unit_to_node y x source.nodes g.nodes ok).0,
)
