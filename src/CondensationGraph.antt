-- ===== src/CondensationGraph.antt =====
-- include/IteratorRecognition/Support/CondensationGraph.hpp: the graph of strongly connected
-- components. A condensation is an element of the vector `Nodes`; its address is its index, which
-- orders as the addresses do. The components come from `llvm::scc_iterator`, a parameter.
mod Members
pub mod Vectors
pub mod Edges
pub mod Entry
mod Examples
use iterator_recognition.Prelude.{
  ℕ, zero, suc, ◌+◌, ◌-◌, ◌≤◌, ◌<◌, ◌≡◌, refl, sym, ap, ◌∙◌, subst, ◌≢◌, ◌↔◌, ◌⊎◌, inl, inr, Bool,
  true, false, not, ◌&&◌, ◌||◌, Option, none, some, List, [], ◌∷◌, ◌++◌, map, arith, ltb, leb, ◌==◌,
  if◌then◌else◌, ==_iff, ==_refl, Bool-cases, &&_iff, ||_iff, not_iff, Bool-ext, Option-cases,
  length, ◌∈◌, ∈-append, any, all, filter, find?, is_empty, any_intro, any_elim, any_iff, all_elim,
  all_intro, all_iff, ∈-filter, find?_elim, find?-none, ∈-map, flat_map, ∈-flat_map, contains,
  contains_iff, sort, unique, IsSorted, IsAscending, ∈-sort, sort-IsSorted, ∈-unique,
  unique-IsAscending, Above-lt, IsAscending-ext, insert, insert_all, erase, ∈-insert, ∈-insert_all,
  ∈-erase, IsDistinct,
}
use mathlib.Core.Option
use iterator_recognition.Extras.{is_null_unit, unique_inplace}

pub record CondensationNode : Type 0 where
  pub nodes : List ℕ
  pub out_edges : List ℕ
  pub in_edges : List ℕ

-- `EntryNode` has no initial value: `none` until it is assigned.
pub record Condensations : Type 0 where
  pub nodes : List CondensationNode
  pub entry_node : Option ℕ

-- The elements of a vector with their addresses, from address `i` on.
abbrev pub enumerate {ℓ} : {A : Type ℓ} → ℕ → List A → List (ℕ × A)
enumerate i [] = []
enumerate i (x ∷ xs) = (i, x) ∷ enumerate (suc i) xs

-- `std::map` from a member to its condensation.
abbrev pub MemberMap : Type 0
MemberMap = List (ℕ × ℕ)

unfoldable pub at? : MemberMap → ℕ → Option ℕ
at? [] n = none
at? ((m, c) ∷ rest) n = let later = at? rest n in if n == m then some c else later

-- `emplace` keeps the entry that is there.
unfoldable pub emplace : ℕ → ℕ → MemberMap → MemberMap
unfolding at?
emplace n c m = elim (at? m n) [ none ↦ (n, c) ∷ m | some d ↦ m ]

unfoldable pub set_entry_node : (ℕ → Option ℕ) → ℕ → ℕ → Option ℕ → Option ℕ
unfolding is_null_unit
set_entry_node unit n cn entry = if is_null_unit unit n then some cn else entry

-- The body of the first loop of `computeEdges` for one condensation.
unfoldable pub map_members :
    (ℕ → Option ℕ) → ℕ → List ℕ → MemberMap × Option ℕ → MemberMap × Option ℕ
unfolding emplace set_entry_node
map_members unit cn [] s = s
map_members unit cn (n ∷ ns) (n2c, entry) =
    map_members unit cn ns (emplace n cn n2c, set_entry_node unit n cn entry)

unfoldable pub map_condensations :
    (ℕ → Option ℕ) → List (ℕ × CondensationNode) → MemberMap × Option ℕ → MemberMap × Option ℕ
unfolding map_members
map_condensations unit [] s = s
map_condensations unit ((cn, node) ∷ rest) s =
    map_condensations unit rest (map_members unit cn node.nodes s)

-- `std::set_difference` on two ascending ranges.
unfoldable pub set_difference : List ℕ → List ℕ → List ℕ
set_difference [] ys = []
set_difference (x ∷ xs) [] = x ∷ xs
set_difference (x ∷ xs) (y ∷ ys) = elim (ltb x y) [
  | true ↦ x ∷ set_difference xs (y ∷ ys)
  | false ↦ elim (ltb y x) [ true ↦ set_difference (x ∷ xs) ys | false ↦ set_difference xs ys ]
]

-- `Map.at(e)` throws for a member that no condensation has: `none`.
unfoldable pub at_each : MemberMap → List ℕ → Option (List ℕ)
unfolding at?
at_each m [] = some []
at_each m (e ∷ es) = elim (at? m e) [
  | none ↦ none
  | some c ↦ Option.map (λ cs. c ∷ cs) (at_each m es)
]

unfoldable pub find_condensation_external_edges :
    (ℕ → List ℕ) → List ℕ → MemberMap → Option (List ℕ)
unfolding unique_inplace set_difference at_each
find_condensation_external_edges children members n2c =
    let current = unique_inplace members in
    let reachable = unique_inplace (flat_map children members) in
    let external = set_difference reachable current in
    Option.map unique_inplace (at_each n2c external)

unfoldable pub make_nodes : List (List ℕ) → List CondensationNode
make_nodes [] = []
make_nodes (scc ∷ sccs) = record { nodes = scc; out_edges = []; in_edges = [] } ∷ make_nodes sccs

-- The graph whose components are condensed, by its traits: `children` follows the edges,
-- `inverse_children` goes against them, and `unit` is the instruction of a node.
module _ (children inverse_children : ℕ → List ℕ) (unit : ℕ → Option ℕ) where
  -- The body of the second loop of `computeEdges`.
  unfoldable pub connect : MemberMap → CondensationNode → Option CondensationNode
  unfolding find_condensation_external_edges
  connect n2c cn = elim (find_condensation_external_edges children cn.nodes n2c) [
    | none ↦ none
    | some outs ↦
        Option.map (λ ins. record { nodes = cn.nodes; out_edges = outs; in_edges = ins })
          (find_condensation_external_edges inverse_children cn.nodes n2c)
  ]

  unfoldable pub connect_all : MemberMap → List CondensationNode → Option (List CondensationNode)
  unfolding connect
  connect_all n2c [] = some []
  connect_all n2c (cn ∷ cns) = elim (connect n2c cn) [
    | none ↦ none
    | some cn' ↦ Option.map (λ rest. cn' ∷ rest) (connect_all n2c cns)
  ]

  unfoldable pub compute_edges : List CondensationNode → Option Condensations
  unfolding map_condensations connect_all
  compute_edges cns =
      let (n2c, entry) = map_condensations unit (enumerate 0 cns) ([], none) in
      Option.map (λ done. record { nodes = done; entry_node = entry }) (connect_all n2c cns)

  -- The constructor: a vector of nodes, then their edges.
  unfoldable pub condense : List (List ℕ) → Option Condensations
  unfolding make_nodes compute_edges
  condense sccs = compute_edges (make_nodes sccs)

-- `find`: the first condensation that holds the member.
unfoldable pub find : Condensations → ℕ → Option (ℕ × CondensationNode)
find g n = find? (λ c. contains c.1.nodes n) (enumerate 0 g.nodes)
