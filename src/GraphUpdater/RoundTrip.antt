-- ===== src/GraphUpdater/RoundTrip.antt =====
-- The queues that are made for the dependences of a loop restore the graph.
use iterator_recognition.Prelude.{
  ℕ, ◌≡◌, refl, sym, ap, ◌∙◌, inl, inr, Bool, true, false, not, ◌&&◌, ◌||◌, Option, none, some,
  List, [], ◌∷◌, if◌then◌else◌, &&_iff, not_iff, Option-cases,
}
use iterator_recognition.Variance.{
  IteratorVarianceValue, is_variant, is_invariant, VarianceCache, get_or_insert_variance,
}
use iterator_recognition.GraphUpdater.{
  is_unknown, DependenceGraph, UpdateAction, noop, ActionPair, create_connect, create_disconnect,
  create_update, create_variant, create_invariant, create_for, create, make_actions, perform_update,
  execute_all, execute_reversed,
}
use iterator_recognition.GraphUpdater.Restore.{
  same_edge, IsEdited, Same, Inverse, nothing, connected, disconnected, updated, Inverse-elsewhere,
  Inverse-restores,
}

module _ (dg : DependenceGraph) where
  open dg use {
    Graph, EdgeInfo, get_edge_info, has_edge_with, is_set, memory_part, without_memory, get_node,
    determine_hazard,
  }

  -- Whether no dependence stands for the edge from `s` to `d`.
  abbrev pub is_fresh : ℕ → ℕ → List (ℕ × ℕ) → Bool
  is_fresh s d [] = true
  is_fresh s d ((src, dst) ∷ deps) =
      not (same_edge s d (get_node src) (get_node dst)) && is_fresh s d deps

  -- Whether the dependences stand for edges apart from each other.
  abbrev pub is_apart : List (ℕ × ℕ) → Bool
  is_apart [] = true
  is_apart ((src, dst) ∷ deps) = is_fresh (get_node src) (get_node dst) deps && is_apart deps

  module _ (laws : IsEdited dg) where
    -- No edit, or one with its inverse.
    pub data Reversible (s d : ℕ) (o : Option EdgeInfo) : ActionPair dg → Type 0 where
      no_edit : Reversible s d o none
      an_edit : {a u : UpdateAction dg} → Inverse dg laws s d o a u → Reversible s d o (some (a, u))

    variant_edit :
        (s d : ℕ) (info : EdgeInfo) (memory other : Bool)
        → is_set (without_memory info) ≡ other
        → Reversible s d (some info) (
            if memory
            then (if other
                then create_update dg s d (without_memory info) info
                else create_disconnect dg s d (memory_part info))
            else none)
    unfolding create_update create_disconnect
    variant_edit s d info false other e = no_edit
    variant_edit s d info true true e = an_edit (updated (without_memory info) info refl)
    variant_edit s d info true false e =
        an_edit (disconnected (memory_part info) (ap some (sym (laws.only_memory info e))))

    create_variant-Reversible :
        (g : Graph) (s d : ℕ) → Reversible s d (get_edge_info g s d) (create_variant dg g s d)
    unfolding create_variant
    create_variant-Reversible g s d = elim (Option-cases (get_edge_info g s d)) [
      | inl e ↦ rw (e, create_variant) no_edit
      | inr (info, e) ↦
          rw (e, create_variant)
            (variant_edit s d info (is_set info && is_set (memory_part info))
              (is_set (without_memory info)) refl)
    ]

    invariant_edit :
        (s d : ℕ) (o : Option EdgeInfo) (info : EdgeInfo) (there hazard : Bool)
        → (there ≡ false → o ≡ none)
        → Reversible s d o (if not there && hazard then create_connect dg s d info else none)
    unfolding create_connect
    invariant_edit s d o info true hazard h = no_edit
    invariant_edit s d o info false false h = no_edit
    invariant_edit s d o info false true h = an_edit (connected info (h refl))

    pub create_for-Reversible :
        (g : Graph) (src_iv dst_iv : IteratorVarianceValue) (src dst : ℕ)
        → Reversible
            (get_node src)
            (get_node dst)
            (get_edge_info g (get_node src) (get_node dst))
            (create_for dg g src_iv dst_iv src dst)
    unfolding create_for create_invariant
    create_for-Reversible g src_iv dst_iv src dst =
        among (is_unknown src_iv || is_unknown dst_iv) (is_variant src_iv || is_variant dst_iv)
          (is_invariant src_iv || is_invariant dst_iv)
      where
        among :
            (b c e : Bool)
            → Reversible
                (get_node src)
                (get_node dst)
                (get_edge_info g (get_node src) (get_node dst))
                (if b
                  then some (noop (get_node src) (get_node dst), noop (get_node src) (get_node dst))
                  else if c
                  then create_variant dg g (get_node src) (get_node dst)
                  else if e
                  then create_invariant dg g src dst
                  else none)
        among true c e = an_edit nothing
        among false true e = create_variant-Reversible g (get_node src) (get_node dst)
        among false false true =
            invariant_edit (get_node src) (get_node dst)
              (get_edge_info g (get_node src) (get_node dst)) (determine_hazard src dst)
              (has_edge_with g (get_node src) (get_node dst)) (is_set (determine_hazard src dst))
              (laws.has_edge g (get_node src) (get_node dst))
        among false false false = no_edit

    abbrev pub queued :
        ActionPair dg
        → List (UpdateAction dg) × List (UpdateAction dg)
        → List (UpdateAction dg) × List (UpdateAction dg)
    queued v queues = elim v [ none ↦ queues | some (a, u) ↦ (a ∷ queues.0, u ∷ queues.1) ]

    -- One edit more, where the other edits are taken back on each graph with the same other edges.
    queued-restores :
        {s d : ℕ} {o : Option EdgeInfo} {v : ActionPair dg}
        → Reversible s d o v
        → (queues : List (UpdateAction dg) × List (UpdateAction dg)) (g : Graph)
        → get_edge_info g s d ≡ o
        → ((h : Graph)
            → ((x y : ℕ) → same_edge s d x y ≡ false → get_edge_info h x y ≡ get_edge_info g x y)
            → Same dg laws (execute_reversed dg queues.1 (execute_all dg queues.0 h)) h)
        → Same dg laws
            (execute_reversed dg (queued v queues).1 (execute_all dg (queued v queues).0 g))
            g
    unfolding execute_all execute_reversed
    queued-restores no_edit queues g e rest = rest g (λ x y h. refl)
    queued-restores (an_edit {a} {u} inv) queues g e rest =
        Inverse-restores dg laws inv g
          (execute_reversed dg queues.1 (execute_all dg queues.0 (perform_update dg a g))) e
          (rest (perform_update dg a g) (Inverse-elsewhere dg laws inv g e))

    -- Whether two graphs have the same edges for the dependences.
    unfoldable pub Agrees : Graph → Graph → List (ℕ × ℕ) → Type 0
    Agrees g h [] = Unit
    Agrees g h ((src, dst) ∷ deps) =
        (get_edge_info h (get_node src) (get_node dst)
          ≡ get_edge_info g (get_node src) (get_node dst))
        × Agrees g h deps

    pub Agrees-fresh :
        (s d : ℕ) (deps : List (ℕ × ℕ)) (g h h' : Graph)
        → is_fresh s d deps ≡ true
        → ((x y : ℕ) → same_edge s d x y ≡ false → get_edge_info h' x y ≡ get_edge_info h x y)
        → Agrees g h deps
        → Agrees g h' deps
    unfolding Agrees
    Agrees-fresh s d [] g h h' fresh same agrees = agrees
    Agrees-fresh s d ((src, dst) ∷ deps) g h h' fresh same agrees =
        let both =
          (&&_iff (not (same_edge s d (get_node src) (get_node dst))) (is_fresh s d deps)).0
            fresh in
        (
          same (get_node src) (get_node dst)
                ((not_iff (same_edge s d (get_node src) (get_node dst))).0 both.0)
              ∙ agrees.0,
          Agrees-fresh s d deps g h h' both.1 same agrees.1,
        )

    pub Agrees-self : (deps : List (ℕ × ℕ)) (g : Graph) → Agrees g g deps
    unfolding Agrees
    Agrees-self [] g = tt
    Agrees-self ((src, dst) ∷ deps) g = (refl, Agrees-self deps g)

    restores-from :
        (get_variance : ℕ → IteratorVarianceValue)
        → (g : Graph) (cache : VarianceCache) (deps : List (ℕ × ℕ)) (h : Graph)
        → is_apart deps ≡ true
        → Agrees g h deps
        → Same dg laws
            (execute_reversed dg
              (make_actions dg get_variance g cache deps).1
              (execute_all dg (make_actions dg get_variance g cache deps).0 h))
            h
    unfolding make_actions create execute_all execute_reversed Agrees
    restores-from get_variance g cache [] h apart agrees = λ x y. refl
    restores-from get_variance g cache ((src, dst) ∷ deps) h apart agrees =
        let both = (&&_iff (is_fresh (get_node src) (get_node dst) deps) (is_apart deps)).0 apart in
        let first = get_or_insert_variance get_variance cache src in
        let second = get_or_insert_variance get_variance first.1 dst in
        queued-restores (create_for-Reversible g first.0 second.0 src dst)
          (make_actions dg get_variance g second.1 deps) h agrees.0
          (λ h' same.
            restores-from get_variance g second.1 deps h' both.1
              (Agrees-fresh (get_node src) (get_node dst) deps g h h' both.0 same agrees.1))

    -- For dependences that stand for edges apart from each other, where the operations of the
    -- dependence graph change its edges as documented: executing the edits made for them, and then
    -- the edits that take them back, the last first, leaves each edge of the graph as it was.
    pub execute_reversed-execute_all :
        (get_variance : ℕ → IteratorVarianceValue)
        → (g : Graph) (cache : VarianceCache) (deps : List (ℕ × ℕ)) → is_apart deps ≡ true
        → (x y : ℕ)
        → get_edge_info
            (execute_reversed dg
              (make_actions dg get_variance g cache deps).1
              (execute_all dg (make_actions dg get_variance g cache deps).0 g))
            x
            y
          ≡ get_edge_info g x y
    execute_reversed-execute_all get_variance g cache deps apart =
        restores-from get_variance g cache deps g apart (Agrees-self deps g)
