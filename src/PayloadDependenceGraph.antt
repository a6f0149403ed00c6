-- ===== src/PayloadDependenceGraph.antt =====
-- include/IteratorRecognition/Support/LoopRPO.hpp and PayloadDependenceGraphAnalysis::run of
-- lib/Analysis/Passes/PayloadDependenceGraphPass.cpp: the analyses put together, loop by loop.
pub mod Keys
pub mod Judged
mod Cache
mod Updates
pub mod Returns
pub mod Targets
pub mod Detected
pub mod Restored
pub mod Verdict
mod Samples
mod Examples
use iterator_recognition.Prelude.{
  ℕ, zero, suc, ◌+◌, ◌-◌, ◌≤◌, ◌<◌, ◌≡◌, refl, sym, ap, ◌∙◌, subst, ◌≢◌, ◌↔◌, ◌⊎◌, inl, inr, Bool,
  true, false, not, ◌&&◌, ◌||◌, Option, none, some, List, [], ◌∷◌, ◌++◌, map, arith, ltb, leb, ◌==◌,
  if◌then◌else◌, ==_iff, ==_refl, Bool-cases, &&_iff, ||_iff, not_iff, Bool-ext, Option-cases,
  length, ◌∈◌, ∈-append, any, all, filter, find?, is_empty, any_intro, any_elim, any_iff, all_elim,
  all_intro, all_iff, ∈-filter, find?_elim, find?-none, ∈-map, flat_map, ∈-flat_map, contains,
  contains_iff, sort, unique, IsSorted, IsAscending, ∈-sort, sort-IsSorted, ∈-unique,
  unique-IsAscending, Above-lt, IsAscending-ext, insert, insert_all, erase, ∈-insert, ∈-insert_all,
  ∈-erase, IsDistinct,
}
use mathlib.Core.List.{reverse}
use iterator_recognition.Ir.{Ir, LoopInfo}
use iterator_recognition.Recognition.{IteratorInfo, get_iterator_info_for}
use iterator_recognition.ValueClassification.{
  LiveSplit, find_payload_values, find_virt_reg_payload_live_values,
  split_virt_reg_payload_live_values,
}
use iterator_recognition.Variance.{IteratorVarianceValue, VarianceCache, get_or_insert_variance}
use iterator_recognition.Commutativity.{LoadModifyStore, Message, analyze}
use iterator_recognition.DependenceCache.{AliasAnalysis, DependenceCache, Entry, calculate}
use iterator_recognition.GraphUpdater.{
  DependenceGraph, UpdateAction, make_actions, execute_all, execute_reversed,
}
use iterator_recognition.ShadowDependenceGraph.{
  SourceGraph, SGraph, empty_graph, compute_nodes, compute_edges,
}
use iterator_recognition.DetectOperations.{CallsAndPhis, Failure, process}

-- LoopRPO: the instructions of the loop's blocks in reverse post-order, those that the predicate takes.
unfoldable pub loop_rpo : Ir → List ℕ → (ℕ → Bool) → List ℕ
loop_rpo ir blocks pred = filter pred (flat_map ir.insts blocks)

-- The cache of the variance analysis once the edits are made.
unfoldable pub cache_after :
    (ℕ → IteratorVarianceValue) → VarianceCache → List (ℕ × ℕ) → VarianceCache
unfolding get_or_insert_variance
cache_after get_variance cache [] = cache
cache_after get_variance cache ((src, dst) ∷ deps) =
    cache_after get_variance
      (get_or_insert_variance get_variance (get_or_insert_variance get_variance cache src).1 dst).1
      deps

-- An update with nothing collected yet.
unfoldable pub update_of : ℕ → LoadModifyStore
update_of t = record { target = t; sources = []; operations = [] }

-- The updates of the second ends of the dependences, each target once.
unfoldable pub updates_of : List (ℕ × ℕ) → List ℕ → List LoadModifyStore
unfolding update_of insert
updates_of [] unique_targets = []
updates_of ((src, dst) ∷ deps) unique_targets =
    let passed_over = updates_of deps unique_targets in
    let rest = updates_of deps (insert dst unique_targets) in
    if contains unique_targets dst then passed_over else update_of dst ∷ rest

-- A loop's entry in the result, with the remarks of the two analyses.
pub record LoopProperties : Type 0 where
  pub cur_loop : ℕ
  pub is_commutative : Bool
  pub failures : List Failure
  pub messages : List Message

-- Whether a function is named by the white list, or there is no such list.
unfoldable pub is_processed : List ℕ → ℕ → Bool
is_processed white_list name = if is_empty white_list then true else contains white_list name

-- What the pass asks of LLVM and of Pedigree besides: the blocks of a loop in reverse post-order,
-- dominance, the bounds on the depth of loops, and the dependence graph as a graph of nodes.
pub record PassInput (dg : DependenceGraph) : Type 0 where
  pub blocks_rpo : ℕ → List ℕ
  pub dominates : ℕ → ℕ → Bool
  pub loop_depth_min : ℕ
  pub loop_depth_max : ℕ
  pub view : dg.Graph → SourceGraph

module _ (ir : Ir) (li : LoopInfo) (more : CallsAndPhis) (aa : AliasAnalysis) (dg : DependenceGraph)
    (input : PassInput dg) (variance : IteratorInfo → ℕ → IteratorVarianceValue) (fuel : ℕ) where
  -- The instructions of the payload that may read or write memory, in the order of the traversal.
  unfoldable pub mod_ref_insts : IteratorInfo → List ℕ → List ℕ
  unfolding loop_rpo
  mod_ref_insts info payload =
      loop_rpo ir (input.blocks_rpo info.cur_loop)
        (λ i. (ir.may_read_from_memory i || ir.may_write_to_memory i) && contains payload i)

  unfoldable pub no_dependences : DependenceCache aa
  no_dependences = record { dependences = []; distinct_instructions = [] }

  unfoldable pub dependence_cache : IteratorInfo → List ℕ → DependenceCache aa
  unfolding mod_ref_insts calculate no_dependences
  dependence_cache info payload = calculate aa (mod_ref_insts info payload) no_dependences

  unfoldable pub keys_of : DependenceCache aa → List (ℕ × ℕ)
  keys_of dc = map (λ (e : Entry aa). e.0) dc.dependences

  -- Step 2: the shadow graph of the payload, of the dependence graph as the edits left it.
  unfoldable pub shadow_of : List ℕ → dg.Graph → SGraph
  unfolding compute_nodes compute_edges
  shadow_of payload g =
      compute_edges (input.view g)
        (compute_nodes (input.view g) (λ n. contains payload ((input.view g).unit n)) empty_graph)

  -- `md.process` for each update; none, if the fuel runs out.
  unfoldable pub process_all :
      DependenceCache aa
      → SGraph
      → ℕ
      → List LoadModifyStore
      → Option (List LoadModifyStore × List Failure)
  unfolding process
  process_all dc sdg l [] = some ([], [])
  process_all dc sdg l (e ∷ es) = elim (process ir li more aa dc sdg l fuel e) [
    | none ↦ none
    | some (e', failure) ↦ elim (process_all dc sdg l es) [
      | none ↦ none
      | some (es', failures) ↦
          some (e' ∷ es', elim failure [ none ↦ failures | some f ↦ f ∷ failures ])
    ]
  ]

  unfoldable pub live_split : List ℕ → LiveSplit
  unfolding find_virt_reg_payload_live_values split_virt_reg_payload_live_values
  live_split payload =
      split_virt_reg_payload_live_values ir input.dominates payload
        (find_virt_reg_payload_live_values ir payload [])
        (record { live_in = []; live_thru = []; live_out = [] })

  -- `lms`: the values that live out of the loop, and then the targets of dependences.
  unfoldable pub updates : List ℕ → DependenceCache aa → List LoadModifyStore
  unfolding update_of updates_of keys_of live_split
  updates payload dc = map update_of (live_split payload).live_out ++ updates_of (keys_of dc) []

  -- Steps 3 and 4, on the graph as the edits left it.
  unfoldable pub judge :
      IteratorInfo → List ℕ → DependenceCache aa → dg.Graph → Option LoopProperties
  unfolding shadow_of process_all updates analyze cache_after keys_of
  judge info payload dc g =
      elim (process_all dc (shadow_of payload g) info.cur_loop (updates payload dc)) [
        | none ↦ none
        | some (lms, failures) ↦
            let verdict =
              analyze ir (variance info) lms (cache_after (variance info) [] (keys_of dc)) in
            some (record {
              cur_loop = info.cur_loop;
              is_commutative = verdict.has_commutative_ops;
              failures = failures;
              messages = verdict.used_messages;
            })
      ]

  -- Steps 1 to 5 for a loop with a payload.
  unfoldable pub analyze_payload :
      IteratorInfo → List ℕ → dg.Graph → Option (dg.Graph × LoopProperties)
  unfolding dependence_cache keys_of make_actions execute_all judge execute_reversed
  analyze_payload info payload g =
      let dc = dependence_cache info payload in
      let (dos, undos) = make_actions dg (variance info) g [] (keys_of dc) in
      let g1 = execute_all dg dos g in
      elim (judge info payload dc g1) [
        | none ↦ none
        | some p ↦ some (execute_reversed dg undos g1, p)
      ]

  -- The loop over the loops, from the innermost: `loopTraversal`.
  unfoldable pub analyze_loops :
      List IteratorInfo
      → List ℕ
      → dg.Graph
      → List LoopProperties
      → Option (dg.Graph × List LoopProperties)
  unfolding get_iterator_info_for find_payload_values analyze_payload
  analyze_loops infos [] g result = some (g, result)
  analyze_loops infos (l ∷ ls) g result =
      let next = analyze_loops infos ls g result in
      if ltb input.loop_depth_max (li.loop_depth l) || ltb (li.loop_depth l) input.loop_depth_min
      then next
      else elim (get_iterator_info_for infos l) [
        | none ↦ next
        | some info ↦
            if is_empty (find_payload_values ir li info [])
            then next
            else elim (analyze_payload info (find_payload_values ir li info []) g) [
              | none ↦ none
              | some (g', p) ↦ analyze_loops infos ls g' (result ++ p ∷ [])
            ]
      ]

  -- `run`, with the white list and the name of the function.
  unfoldable pub run :
      List ℕ → ℕ → List IteratorInfo → dg.Graph → Option (dg.Graph × List LoopProperties)
  unfolding is_processed analyze_loops
  run white_list name infos g =
      if is_processed white_list name
      then analyze_loops infos (reverse li.loops_in_preorder) g []
      else some (g, [])
