-- ===== src/GraphUpdater/Examples.antt =====
-- A dependence graph given by its edges, edited and restored.
use iterator_recognition.Prelude.{
  ℕ, ◌≡◌, refl, sym, ap, ◌≢◌, Bool, true, false, ◌||◌, Option, none, some, List, [], ◌∷◌, arith,
  ltb, if◌then◌else◌, ◌∈◌,
}
use iterator_recognition.Variance.{IteratorVarianceValue, unknown, invariant, variant}
use iterator_recognition.GraphUpdater.{DependenceGraph, make_actions, execute_all, execute_reversed}
use iterator_recognition.GraphUpdater.Restore.{same_edge, IsEdited}
use iterator_recognition.GraphUpdater.RoundTrip.{is_fresh, execute_reversed-execute_all}
use iterator_recognition.GraphUpdater.Edited.{IsPresent, edited_edge, execute_all-edited}
use iterator_recognition.Variance.Cache.{IsConsistent}
use iterator_recognition.Variance.{cached}

-- Flags: whether a dependence is through memory, and whether it is another one.
abbrev Flags : Type 0
Flags = Bool × Bool

abbrev with_edge : (ℕ → ℕ → Option Flags) → ℕ → ℕ → Option Flags → ℕ → ℕ → Option Flags
with_edge g s d o x y = if same_edge s d x y then o else g x y

abbrev is_edge : Option Flags → Bool
is_edge none = false
is_edge (some i) = true

abbrev edges : DependenceGraph
edges = record {
  Graph = ℕ → ℕ → Option Flags;
  EdgeInfo = Flags;
  get_edge_info = λ g x y. g x y;
  has_edge_with = λ g x y. is_edge (g x y);
  add_dependent_node = λ g s d i. with_edge g s d (some i);
  remove_dependent_node = λ g s d. with_edge g s d none;
  set_edge_info = λ g s d i. with_edge g s d (some i);
  is_set = λ i. i.0 || i.1;
  memory_part = λ i. (i.0, false);
  without_memory = λ i. (false, i.1);
  get_node = λ v. v;
  determine_hazard = λ s d. (ltb s d, false);
}

no_edge : (o : Option Flags) → is_edge o ≡ false → o ≡ none
no_edge none h = refl
no_edge (some i) h = absurd (ground arith)

edges_laws : IsEdited edges
edges_laws = record {
  add_edge = λ g s d x y i h. refl;
  remove_edge = λ g s d x y. refl;
  set_edge = λ g s d x y i h. refl;
  has_edge = λ g s d h. no_edge (g s d) h;
  only_memory = λ i h. ap (λ (b : Bool). (i.0, b)) (sym h);
}

abbrev start : ℕ → ℕ → Option Flags
start = with_edge (with_edge (λ x y. none) 1 2 (some (true, false))) 3 4 (some (true, true))

abbrev variance : ℕ → IteratorVarianceValue
variance v = if ltb v 5 then variant else if ltb v 8 then invariant else unknown

abbrev deps : List (ℕ × ℕ)
deps = (1, 2) ∷ (3, 4) ∷ (5, 6) ∷ (8, 1) ∷ []

unfoldable edited : ℕ → ℕ → Option Flags
unfolding make_actions execute_all
edited = execute_all edges (make_actions edges variance start [] deps).0 start

removed : edited 1 2 ≡ none
unfolding edited
removed = refl

reset : edited 3 4 ≡ some (false, true)
unfolding edited
reset = refl

added : edited 5 6 ≡ some (true, false)
unfolding edited
added = refl

execute_reversed-execute_all_example :
    execute_reversed edges
      (make_actions edges variance start [] deps).1
      (execute_all edges (make_actions edges variance start [] deps).0 start)
      3
      4
    ≡ start 3 4
execute_reversed-execute_all_example =
    execute_reversed-execute_all edges edges_laws variance start [] deps refl 3 4

edge_present : (o : Option Flags) → is_edge o ≡ true → o ≢ none
edge_present none h e = absurd (ground arith)
edge_present (some i) h e = cc

edges_present : IsPresent edges
edges_present = record { has_edge = λ g s d h. edge_present (g s d) h }

nothing_cached : IsConsistent variance []
unfolding cached
nothing_cached q v h = cc

execute_all-edited_example :
    ((src dst : ℕ)
      → (src, dst) ∈ deps
      → edited src dst
        ≡ edited_edge edges edges_laws edges_present
            (variance src)
            (variance dst)
            (ltb src dst, false)
            (start src dst))
    × ((x y : ℕ) → is_fresh edges x y deps ≡ true → edited x y ≡ start x y)
unfolding edited
execute_all-edited_example =
    execute_all-edited edges edges_laws edges_present variance start [] deps refl nothing_cached
