-- ===== src/GraphUpdater/Memory.antt =====
-- What the edits leave of the dependences through memory.
use iterator_recognition.Variance.Cache.{IsConsistent}
use iterator_recognition.Prelude.{
  ℕ, ◌≡◌, refl, sym, ap, ◌∙◌, subst, ◌≢◌, inl, inr, Bool, true, false, ◌&&◌, ◌||◌, Option, none,
  some, List, arith, if◌then◌else◌, ==_refl, Option-cases, ◌∈◌,
}
use iterator_recognition.Variance.{IteratorVarianceValue, is_variant, VarianceCache}
use iterator_recognition.GraphUpdater.{
  is_unknown, DependenceGraph, ActionPair, create_disconnect, create_update, create_variant,
  create_for, make_actions, perform_update, execute_all,
}
use iterator_recognition.GraphUpdater.Restore.{IsEdited}
use iterator_recognition.GraphUpdater.RoundTrip.{is_apart, Agrees-self}
use iterator_recognition.GraphUpdater.Unchanged.{perform_first, edges-first}

-- What the tests of the flags are documented to answer.
pub record IsFlagged (dg : DependenceGraph) : Type 0 where
  pub set_memory : (i : dg.EdgeInfo) → dg.is_set i ≡ false → dg.is_set (dg.memory_part i) ≡ false
  pub reset_memory : (i : dg.EdgeInfo) → dg.is_set (dg.memory_part (dg.without_memory i)) ≡ false

module _ (dg : DependenceGraph) (laws : IsEdited dg) (flags : IsFlagged dg) where
  open dg use {Graph, EdgeInfo, get_edge_info, is_set, memory_part, without_memory, get_node}

  -- Whether an edge, if there is one, is not through memory.
  abbrev pub IsClear : Option EdgeInfo → Type 0
  IsClear o = (i : EdgeInfo) → o ≡ some i → is_set (memory_part i) ≡ false

  variant_clears :
      (s d : ℕ) (info : EdgeInfo) (h : Graph) (memory other : Bool)
      → is_set info && is_set (memory_part info) ≡ memory
      → get_edge_info h s d ≡ some info
      → IsClear (
          get_edge_info
            (perform_first dg laws
              (if memory
                then (if other
                    then create_update dg s d (without_memory info) info
                    else create_disconnect dg s d (memory_part info))
                else none)
              h)
            s
            d)
  unfolding create_update create_disconnect perform_update
  variant_clears s d info h false other m e i q =
      let same : info ≡ i = ground arith in
      ground (arith, flags.set_memory info, ap is_set (ap memory_part same))
  variant_clears s d info h true true m e i q =
      let there : get_edge_info h s d ≢ none = λ n. absurd (cc) in
      let same : without_memory info ≡ i =
        ground (arith, laws.set_edge h s d s d (without_memory info) there, ==_refl s, ==_refl d) in
      ap is_set (ap memory_part (sym same)) ∙ flags.reset_memory info
  variant_clears s d info h true false m e i q =
      ground (arith, laws.remove_edge h s d s d, ==_refl s, ==_refl d)

  create_variant-IsClear :
      (g h : Graph) (s d : ℕ)
      → get_edge_info h s d ≡ get_edge_info g s d
      → IsClear (get_edge_info (perform_first dg laws (create_variant dg g s d) h) s d)
  unfolding create_variant
  create_variant-IsClear g h s d same = elim (Option-cases (get_edge_info g s d)) [
    | inl e ↦ rw (e, create_variant) (λ i q. absurd (cc))
    | inr (info, e) ↦
        rw (e, create_variant)
          (variant_clears s d info h (is_set info && is_set (memory_part info))
            (is_set (without_memory info)) refl (same ∙ e))
  ]

  create_for-variant :
      (g : Graph) (src_iv dst_iv : IteratorVarianceValue) (src dst : ℕ)
      → is_unknown src_iv || is_unknown dst_iv ≡ false
      → is_variant src_iv || is_variant dst_iv ≡ true
      → create_for dg g src_iv dst_iv src dst ≡ create_variant dg g (get_node src) (get_node dst)
  unfolding create_for
  create_for-variant g src_iv dst_iv src dst known some_variant =
      rw (known, create_for) (rw some_variant refl)

  pub first-IsClear :
      (g h : Graph) (src_iv dst_iv : IteratorVarianceValue) (src dst : ℕ)
      → is_unknown src_iv || is_unknown dst_iv ≡ false
      → is_variant src_iv || is_variant dst_iv ≡ true
      → get_edge_info h (get_node src) (get_node dst)
        ≡ get_edge_info g (get_node src) (get_node dst)
      → IsClear (
          get_edge_info
            (perform_first dg laws (create_for dg g src_iv dst_iv src dst) h)
            (get_node src)
            (get_node dst))
  first-IsClear g h src_iv dst_iv src dst known varies same =
      subst
        (λ (v : ActionPair dg).
          IsClear (get_edge_info (perform_first dg laws v h) (get_node src) (get_node dst)))
        (sym (create_for-variant g src_iv dst_iv src dst known varies))
        (create_variant-IsClear g h (get_node src) (get_node dst) same)

  -- For dependences that stand for edges apart from each other, where the operations of the
  -- dependence graph and the tests of the flags do as documented, and the cache agrees with the
  -- variance analysis: once the edits made for them are executed, no dependence between two ends of
  -- known variance, one of them variant, is through memory.
  pub execute_all-make_actions :
      (get_variance : ℕ → IteratorVarianceValue)
      → (g : Graph) (cache : VarianceCache) (deps : List (ℕ × ℕ)) (src dst : ℕ)
      → is_apart dg deps ≡ true
      → IsConsistent get_variance cache
      → (src, dst) ∈ deps
      → is_unknown (get_variance src) || is_unknown (get_variance dst) ≡ false
      → is_variant (get_variance src) || is_variant (get_variance dst) ≡ true
      → (i : EdgeInfo)
      → get_edge_info
          (execute_all dg (make_actions dg get_variance g cache deps).0 g)
          (get_node src)
          (get_node dst)
        ≡ some i
      → is_set (memory_part i) ≡ false
  execute_all-make_actions get_variance g cache deps src dst apart ok m known varies =
      edges-first dg laws get_variance g cache deps g (src, dst) (λ dep o. IsClear o)
        (λ k same.
          first-IsClear g k (get_variance src) (get_variance dst) src dst known varies same)
        apart (Agrees-self dg laws deps g) ok m
