-- ===== src/GraphUpdater/Restore.antt =====
-- Taking the edits back restores every edge of the dependence graph.
use iterator_recognition.Prelude.{
  ℕ, ◌≡◌, refl, ap, ◌∙◌, ◌≢◌, Bool, true, false, ◌&&◌, Option, none, some, arith, ◌==◌,
  if◌then◌else◌, ==_iff, ==_refl, &&_iff,
}
use iterator_recognition.GraphUpdater.{
  DependenceGraph, UpdateAction, noop, connect, disconnect, update_info, perform_update,
}

abbrev pub same_edge : ℕ → ℕ → ℕ → ℕ → Bool
same_edge s d x y = x == s && y == d

-- What the operations are documented to do to the edges.
pub record IsEdited (dg : DependenceGraph) : Type 0 where
  pub add_edge :
      (g : dg.Graph) (s d x y : ℕ) (i : dg.EdgeInfo)
      → dg.get_edge_info g s d ≡ none
      → dg.get_edge_info (dg.add_dependent_node g s d i) x y
        ≡ (if same_edge s d x y then some i else dg.get_edge_info g x y)
  pub remove_edge :
      (g : dg.Graph) (s d x y : ℕ)
      → dg.get_edge_info (dg.remove_dependent_node g s d) x y
        ≡ (if same_edge s d x y then none else dg.get_edge_info g x y)
  pub set_edge :
      (g : dg.Graph) (s d x y : ℕ) (i : dg.EdgeInfo)
      → dg.get_edge_info g s d ≢ none
      → dg.get_edge_info (dg.set_edge_info g s d i) x y
        ≡ (if same_edge s d x y then some i else dg.get_edge_info g x y)
  pub has_edge :
      (g : dg.Graph) (s d : ℕ) → dg.has_edge_with g s d ≡ false → dg.get_edge_info g s d ≡ none
  -- An info that is not memory is memory's whole.
  pub only_memory :
      (i : dg.EdgeInfo) → dg.is_set (dg.without_memory i) ≡ false → dg.memory_part i ≡ i

module _ (dg : DependenceGraph) (laws : IsEdited dg) where
  open dg use {Graph, EdgeInfo, get_edge_info, get_node}

  abbrev pub Same : Graph → Graph → Type 0
  Same g h = (x y : ℕ) → get_edge_info g x y ≡ get_edge_info h x y

  at_edge :
      (g : Graph) (s d x y : ℕ)
      → same_edge s d x y ≡ true
      → get_edge_info g x y ≡ get_edge_info g s d
  at_edge g s d x y h =
      let both = (&&_iff (x == s) (y == d)).0 h in
      ap (λ (k : ℕ). get_edge_info g k y) ((==_iff x s).0 both.0)
      ∙ ap (get_edge_info g s) ((==_iff y d).0 both.1)

  -- An edit of the edge from `s` to `d` and the one that takes it back, where the edge is `o`.
  pub data Inverse (s d : ℕ) (o : Option EdgeInfo)
      : UpdateAction dg → UpdateAction dg → Type 0 where
    nothing : Inverse s d o (noop s d) (noop s d)
    connected : (i : EdgeInfo) → o ≡ none → Inverse s d o (connect s d i) (disconnect s d)
    disconnected : (i : EdgeInfo) → o ≡ some i → Inverse s d o (disconnect s d) (connect s d i)
    updated : (i j : EdgeInfo) → o ≡ some j → Inverse s d o (update_info s d i) (update_info s d j)

  -- The edit changes no other edge.
  pub Inverse-elsewhere :
      {s d : ℕ} {o : Option EdgeInfo} {a u : UpdateAction dg}
      → Inverse s d o a u
      → (g : Graph) → get_edge_info g s d ≡ o
      → (x y : ℕ) → same_edge s d x y ≡ false
      → get_edge_info (perform_update dg a g) x y ≡ get_edge_info g x y
  unfolding perform_update
  Inverse-elsewhere nothing g e x y other = refl
  Inverse-elsewhere {s} {d} (connected i q) g e x y other =
      ground (arith, laws.add_edge g s d x y i (e ∙ q), other)
  Inverse-elsewhere {s} {d} (disconnected i q) g e x y other =
      ground (arith, laws.remove_edge g s d x y, other)
  Inverse-elsewhere {s} {d} (updated i j q) g e x y other =
      ground (arith, laws.set_edge g s d x y i (λ n. absurd (cc)), other)

  -- Taken back on a graph with the edges that the edit left, every edge is as it was.
  pub Inverse-restores :
      {s d : ℕ} {o : Option EdgeInfo} {a u : UpdateAction dg}
      → Inverse s d o a u
      → (g h : Graph) → get_edge_info g s d ≡ o
      → Same h (perform_update dg a g)
      → Same (perform_update dg u h) g
  unfolding perform_update
  Inverse-restores nothing g h e same x y = same x y
  Inverse-restores {s} {d} (connected i q) g h e same x y = ground (
    arith,
    laws.remove_edge h s d x y,
    same x y,
    laws.add_edge g s d x y i (e ∙ q),
    at_edge g s d x y,
    e,
    q,
  )
  Inverse-restores {s} {d} (disconnected i q) g h e same x y =
      let gone : get_edge_info h s d ≡ none =
        ground (arith, same s d, laws.remove_edge g s d s d, ==_refl s, ==_refl d) in
      ground (
        arith,
        laws.add_edge h s d x y i gone,
        same x y,
        laws.remove_edge g s d x y,
        at_edge g s d x y,
        e,
        q,
      )
  Inverse-restores {s} {d} (updated i j q) g h e same x y =
      let there : get_edge_info g s d ≢ none = λ n. absurd (cc) in
      let kept : get_edge_info h s d ≡ some i =
        ground (arith, same s d, laws.set_edge g s d s d i there, ==_refl s, ==_refl d) in
      ground (
        arith,
        laws.set_edge h s d x y j (λ n. absurd (cc)),
        same x y,
        laws.set_edge g s d x y i there,
        at_edge g s d x y,
        e,
        q,
      )
