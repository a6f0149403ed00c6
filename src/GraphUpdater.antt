-- ===== src/GraphUpdater.antt =====
-- include/IteratorRecognition/Analysis/GraphUpdater.hpp: edits of the dependence graph, each made
-- with the edit that takes it back. Steps 1 and 5 of PayloadDependenceGraphAnalysis::run
-- (lib/Analysis/Passes/PayloadDependenceGraphPass.cpp) make, execute and take them back.
pub mod Restore
pub mod RoundTrip
mod Unchanged
mod Edited
mod Memory
mod Examples
use iterator_recognition.Prelude.{
  ℕ, zero, suc, ◌+◌, ◌-◌, ◌≤◌, ◌<◌, ◌≡◌, refl, sym, ap, ◌∙◌, subst, ◌≢◌, ◌↔◌, ◌⊎◌, inl, inr, Bool,
  true, false, not, ◌&&◌, ◌||◌, Option, none, some, List, [], ◌∷◌, ◌++◌, map, arith, ltb, leb, ◌==◌,
  if◌then◌else◌, ==_iff, ==_refl, Bool-cases, &&_iff, ||_iff, not_iff, Bool-ext, Option-cases,
  length, ◌∈◌, ∈-append, any, all, filter, find?, is_empty, any_intro, any_elim, any_iff, all_elim,
  all_intro, all_iff, ∈-filter, find?_elim, find?-none, ∈-map, flat_map, ∈-flat_map, contains,
  contains_iff, sort, unique, IsSorted, IsAscending, ∈-sort, sort-IsSorted, ∈-unique,
  unique-IsAscending, Above-lt, IsAscending-ext, insert, insert_all, erase, ∈-insert, ∈-insert_all,
  ∈-erase, IsDistinct,
}
use iterator_recognition.Variance.{
  IteratorVarianceValue, unknown, invariant, variant, is_variant, is_invariant, VarianceCache,
  get_or_insert_variance,
}

abbrev pub is_unknown : IteratorVarianceValue → Bool
is_unknown unknown = true
is_unknown invariant = false
is_unknown variant = false

-- The dependence graph of Pedigree, by its operations: nodes are addresses, and an edge has an info,
-- a set of flags of which some say that the dependence is through memory.
pub record DependenceGraph : Type 1 where
  pub Graph : Type 0
  pub EdgeInfo : Type 0
  pub get_edge_info : Graph → ℕ → ℕ → Option EdgeInfo
  pub has_edge_with : Graph → ℕ → ℕ → Bool
  pub add_dependent_node : Graph → ℕ → ℕ → EdgeInfo → Graph
  pub remove_dependent_node : Graph → ℕ → ℕ → Graph
  pub set_edge_info : Graph → ℕ → ℕ → EdgeInfo → Graph
  -- Whether any flag is set; `info & DO_Memory`; `info` with `DO_Memory` reset.
  pub is_set : EdgeInfo → Bool
  pub memory_part : EdgeInfo → EdgeInfo
  pub without_memory : EdgeInfo → EdgeInfo
  pub get_node : ℕ → ℕ
  pub determine_hazard : ℕ → ℕ → EdgeInfo

module _ (dg : DependenceGraph) where
  open dg use {
    Graph, EdgeInfo, get_edge_info, has_edge_with, add_dependent_node, remove_dependent_node,
    set_edge_info, is_set, memory_part, without_memory, get_node, determine_hazard,
  }

  pub data UpdateAction : Type 0 where
    noop : ℕ → ℕ → UpdateAction
    connect : ℕ → ℕ → EdgeInfo → UpdateAction
    disconnect : ℕ → ℕ → UpdateAction
    update_info : ℕ → ℕ → EdgeInfo → UpdateAction

  unfoldable pub perform_update : UpdateAction → Graph → Graph
  perform_update (noop src dst) g = g
  perform_update (connect src dst info) g = add_dependent_node g src dst info
  perform_update (disconnect src dst) g = remove_dependent_node g src dst
  perform_update (update_info src dst info) g = set_edge_info g src dst info

  -- An edit and the one that takes it back; none, if the two pointers stay empty.
  abbrev pub ActionPair : Type 0
  ActionPair = Option (UpdateAction × UpdateAction)

  unfoldable pub create_connect : ℕ → ℕ → EdgeInfo → ActionPair
  create_connect src dst info = some (connect src dst info, disconnect src dst)

  unfoldable pub create_disconnect : ℕ → ℕ → EdgeInfo → ActionPair
  create_disconnect src dst info = some (disconnect src dst, connect src dst info)

  unfoldable pub create_update : ℕ → ℕ → EdgeInfo → EdgeInfo → ActionPair
  create_update src dst new_info old_info =
      some (update_info src dst new_info, update_info src dst old_info)

  -- The branch for a variant end: the edge's memory flags are taken off.
  unfoldable pub create_variant : Graph → ℕ → ℕ → ActionPair
  unfolding create_update create_disconnect
  create_variant g src_node dst_node = elim (get_edge_info g src_node dst_node) [
    | none ↦ none
    | some info ↦
        if is_set info && is_set (memory_part info)
        then (if is_set (without_memory info)
            then create_update src_node dst_node (without_memory info) info
            else create_disconnect src_node dst_node (memory_part info))
        else none
  ]

  -- The branch for an invariant end: a hazard without an edge gets one.
  unfoldable pub create_invariant : Graph → ℕ → ℕ → ActionPair
  unfolding create_connect
  create_invariant g src dst =
      if not (has_edge_with g (get_node src) (get_node dst)) && is_set (determine_hazard src dst)
      then create_connect (get_node src) (get_node dst) (determine_hazard src dst)
      else none

  unfoldable pub create_for :
      Graph → IteratorVarianceValue → IteratorVarianceValue → ℕ → ℕ → ActionPair
  unfolding create_variant create_invariant
  create_for g src_iv dst_iv src dst =
      let src_node = get_node src in
      let dst_node = get_node dst in
      if is_unknown src_iv || is_unknown dst_iv
      then some (noop src_node dst_node, noop src_node dst_node)
      else if is_variant src_iv || is_variant dst_iv
      then create_variant g src_node dst_node
      else if is_invariant src_iv || is_invariant dst_iv
      then create_invariant g src dst
      else none

  -- `create`, which asks the variance analysis of both ends and fills its cache.
  unfoldable pub create :
      (ℕ → IteratorVarianceValue) → Graph → VarianceCache → ℕ → ℕ → ActionPair × VarianceCache
  unfolding create_for get_or_insert_variance
  create get_variance g cache src dst =
      let (src_iv, cache1) = get_or_insert_variance get_variance cache src in
      let (dst_iv, cache2) = get_or_insert_variance get_variance cache1 dst in
      (create_for g src_iv dst_iv src dst, cache2)

  -- The queues `dos` and `undos`, made for every dependence before any is executed.
  unfoldable pub make_actions :
      (ℕ → IteratorVarianceValue)
      → Graph
      → VarianceCache
      → List (ℕ × ℕ)
      → List UpdateAction × List UpdateAction
  unfolding create
  make_actions get_variance g cache [] = ([], [])
  make_actions get_variance g cache ((src, dst) ∷ deps) =
      let (v, cache') = create get_variance g cache src dst in
      let (dos, undos) = make_actions get_variance g cache' deps in
      elim v [ none ↦ (dos, undos) | some (a, u) ↦ (a ∷ dos, u ∷ undos) ]

  -- `std::for_each(dos.begin(), dos.end(), …)`
  unfoldable pub execute_all : List UpdateAction → Graph → Graph
  unfolding perform_update
  execute_all [] g = g
  execute_all (a ∷ as') g = execute_all as' (perform_update a g)

  -- `std::for_each(undos.rbegin(), undos.rend(), …)`: the last first.
  unfoldable pub execute_reversed : List UpdateAction → Graph → Graph
  unfolding perform_update
  execute_reversed [] g = g
  execute_reversed (u ∷ us) g = perform_update u (execute_reversed us g)
