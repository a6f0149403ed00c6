-- ===== src/GraphUpdater/Unchanged.antt =====
-- The edges that the edits leave alone, and the edges that they are for.
use iterator_recognition.Variance.Cache.{IsConsistent, get_or_insert_variance_lem}
use iterator_recognition.Prelude.{
  ℕ, ◌≡◌, refl, sym, ◌∙◌, subst, inl, inr, true, false, not, Option, none, some, List, [], ◌∷◌,
  arith, ==_iff, &&_iff, not_iff, ◌∈◌,
}
use iterator_recognition.Variance.{IteratorVarianceValue, VarianceCache, get_or_insert_variance}
use iterator_recognition.GraphUpdater.{
  DependenceGraph, UpdateAction, ActionPair, create_for, create, make_actions, perform_update,
  execute_all,
}
use iterator_recognition.GraphUpdater.Restore.{same_edge, IsEdited, Inverse-elsewhere}
use iterator_recognition.GraphUpdater.RoundTrip.{
  is_fresh, is_apart, Reversible, no_edit, an_edit, create_for-Reversible, queued, Agrees,
  Agrees-fresh,
}

module _ (dg : DependenceGraph) (laws : IsEdited dg) where
  open dg use {Graph, EdgeInfo, get_edge_info, is_set, memory_part, without_memory, get_node}

  abbrev pub perform_first : ActionPair dg → Graph → Graph
  perform_first v g = elim v [ none ↦ g | some (a, u) ↦ perform_update dg a g ]

  same_edge_sym : (s d x y : ℕ) → same_edge s d x y ≡ false → same_edge x y s d ≡ false
  same_edge_sym s d x y h = ground (arith, ==_iff x s, ==_iff s x, ==_iff y d, ==_iff d y)

  queued-unchanged :
      {s d : ℕ} {o : Option EdgeInfo} {v : ActionPair dg}
      → Reversible dg laws s d o v
      → (queues : List (UpdateAction dg) × List (UpdateAction dg)) (g : Graph)
      → get_edge_info g s d ≡ o
      → (x y : ℕ)
      → ((h : Graph)
          → ((x y : ℕ) → same_edge s d x y ≡ false → get_edge_info h x y ≡ get_edge_info g x y)
          → get_edge_info (execute_all dg queues.0 h) x y ≡ get_edge_info h x y)
      → get_edge_info (execute_all dg (queued dg laws v queues).0 g) x y
        ≡ get_edge_info (perform_first v g) x y
  unfolding execute_all
  queued-unchanged no_edit queues g e x y rest = rest g (λ x y h. refl)
  queued-unchanged (an_edit {a} {u} inv) queues g e x y rest =
      rest (perform_update dg a g) (Inverse-elsewhere dg laws inv g e)

  pub first-unchanged :
      {x y : ℕ} {o : Option EdgeInfo} {v : ActionPair dg}
      → Reversible dg laws x y o v
      → (k : Graph) → get_edge_info k x y ≡ o
      → (s d : ℕ) → same_edge x y s d ≡ false
      → get_edge_info (perform_first v k) s d ≡ get_edge_info k s d
  first-unchanged no_edit k e s d other = refl
  first-unchanged (an_edit inv) k e s d other = Inverse-elsewhere dg laws inv k e s d other

  pub queued-first :
      (v : ActionPair dg) (queues : List (UpdateAction dg) × List (UpdateAction dg)) (g : Graph)
      → execute_all dg (queued dg laws v queues).0 g ≡ execute_all dg queues.0 (perform_first v g)
  unfolding execute_all
  queued-first none queues g = refl
  queued-first (some (a, u)) queues g = refl

  pub unchanged :
      (get_variance : ℕ → IteratorVarianceValue)
      → (g : Graph) (cache : VarianceCache) (deps : List (ℕ × ℕ)) (h : Graph) (s d : ℕ)
      → is_fresh dg s d deps ≡ true
      → is_apart dg deps ≡ true
      → Agrees dg laws g h deps
      → get_edge_info (execute_all dg (make_actions dg get_variance g cache deps).0 h) s d
        ≡ get_edge_info h s d
  unfolding make_actions create execute_all Agrees
  unchanged get_variance g cache [] h s d fresh apart agrees = refl
  unchanged get_variance g cache ((src, dst) ∷ deps) h s d fresh apart agrees =
      let first = get_or_insert_variance get_variance cache src in
      let second = get_or_insert_variance get_variance first.1 dst in
      let apart_both =
        (&&_iff (is_fresh dg (get_node src) (get_node dst) deps) (is_apart dg deps)).0 apart in
      let fresh_both =
        (&&_iff (not (same_edge s d (get_node src) (get_node dst))) (is_fresh dg s d deps)).0
          fresh in
      let made = create_for-Reversible dg laws g first.0 second.0 src dst in
      queued-unchanged made (make_actions dg get_variance g second.1 deps) h agrees.0 s d
        (λ h' same. unchanged get_variance g second.1 deps h' s d fresh_both.1 apart_both.1 (
          Agrees-fresh dg laws (get_node src) (get_node dst) deps g h h' apart_both.0 same
            agrees.1))
      ∙ first-unchanged made h agrees.0 s d (
          same_edge_sym s d (get_node src) (get_node dst)
            ((not_iff (same_edge s d (get_node src) (get_node dst))).0 fresh_both.0))

  abbrev Holds :
      (ℕ → IteratorVarianceValue) → Graph → (ℕ × ℕ → Option EdgeInfo → Type 0) → ℕ × ℕ → Type 0
  Holds get_variance g P dep =
      (k : Graph)
      → get_edge_info k (get_node dep.0) (get_node dep.1)
        ≡ get_edge_info g (get_node dep.0) (get_node dep.1)
      → P dep (
          get_edge_info
            (perform_first (create_for dg g (get_variance dep.0) (get_variance dep.1) dep.0 dep.1)
              k)
            (get_node dep.0) (get_node dep.1))

  first_holds :
      (get_variance : ℕ → IteratorVarianceValue)
      → (g h : Graph) (P : ℕ × ℕ → Option EdgeInfo → Type 0) (e : ℕ × ℕ) → Holds get_variance g P e
      → (sv dv : IteratorVarianceValue) → sv ≡ get_variance e.0
      → dv ≡ get_variance e.1
      → get_edge_info h (get_node e.0) (get_node e.1)
        ≡ get_edge_info g (get_node e.0) (get_node e.1)
      → P e (
          get_edge_info
            (perform_first (create_for dg g sv dv e.0 e.1) h)
            (get_node e.0)
            (get_node e.1))
  first_holds get_variance g h P e given sv dv qs qd same = rw (qs, qd) (given h same)

  -- What holds of the edge of a dependence once its own edit is performed, holds once all are.
  pub edges-first :
      (get_variance : ℕ → IteratorVarianceValue)
      → (g : Graph) (cache : VarianceCache) (deps : List (ℕ × ℕ)) (h : Graph)
      → (dep : ℕ × ℕ) (P : ℕ × ℕ → Option EdgeInfo → Type 0) → Holds get_variance g P dep
      → is_apart dg deps ≡ true
      → Agrees dg laws g h deps
      → IsConsistent get_variance cache
      → dep ∈ deps
      → P dep (
          get_edge_info
            (execute_all dg (make_actions dg get_variance g cache deps).0 h)
            (get_node dep.0)
            (get_node dep.1))
  unfolding make_actions create execute_all Agrees
  edges-first get_variance g cache [] h dep P given apart agrees ok m = absurd m
  edges-first get_variance g cache ((src, dst) ∷ deps) h dep P given apart agrees ok m =
      let first = get_or_insert_variance get_variance cache src in
      let first_ok = get_or_insert_variance_lem get_variance cache src ok in
      let second = get_or_insert_variance get_variance first.1 dst in
      let second_ok = get_or_insert_variance_lem get_variance first.1 dst first_ok.1 in
      let both =
        (&&_iff (is_fresh dg (get_node src) (get_node dst) deps) (is_apart dg deps)).0 apart in
      let v = create_for dg g first.0 second.0 src dst in
      let queues = make_actions dg get_variance g second.1 deps in
      let made = create_for-Reversible dg laws g first.0 second.0 src dst in
      let h' = perform_first v h in
      let agrees' : Agrees dg laws g h' deps =
        Agrees-fresh dg laws (get_node src) (get_node dst) deps g h h' both.0
          (first-unchanged made h agrees.0) agrees.1 in
      subst (λ (k : Graph). P dep (get_edge_info k (get_node dep.0) (get_node dep.1)))
        (sym (queued-first v queues h))
        (elim m [
          | inr n ↦
              edges-first get_variance g second.1 deps h' dep P given both.1 agrees' second_ok.1 n
          | inl p ↦
              subst
                (λ (e : ℕ × ℕ).
                  P e (get_edge_info (execute_all dg queues.0 h') (get_node e.0) (get_node e.1)))
                (sym p)
                (subst (P (src, dst))
                  (sym (
                    unchanged get_variance g second.1 deps h' (get_node src) (get_node dst) both.0
                      both.1 agrees'))
                  (first_holds get_variance g h P (src, dst)
                    (subst (Holds get_variance g P) p given) first.0 second.0 first_ok.0 second_ok.0
                    agrees.0))
        ])
