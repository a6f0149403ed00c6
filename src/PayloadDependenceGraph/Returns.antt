-- ===== src/PayloadDependenceGraph/Returns.antt =====
-- The pass returns, if its fuel covers the operands of the payload, and with which verdict.
use iterator_recognition.Prelude.{
  ℕ, ◌+◌, ◌≤◌, ◌≡◌, refl, sym, ap, ◌∙◌, subst, ◌≢◌, ◌↔◌, ◌⊎◌, inl, inr, true, Option, none, some,
  List, [], ◌∈◌, some_member, not_empty,
}
use iterator_recognition.Ir.{Ir, LoopInfo}
use iterator_recognition.Recognition.{IteratorInfo}
use iterator_recognition.Variance.{IteratorVarianceValue, invariant, variant, VarianceCache}
use iterator_recognition.Variance.Cache.{IsConsistent}
use iterator_recognition.Commutativity.{LoadModifyStore, analyze}
use iterator_recognition.Commutativity.Verdict.{IsCommutative, IsSafe, analyze_iff}
use iterator_recognition.DependenceCache.{AliasAnalysis, DependenceCache}
use iterator_recognition.GraphUpdater.{DependenceGraph}
use iterator_recognition.ShadowDependenceGraph.{SGraph}
use iterator_recognition.DetectOperations.{CallsAndPhis, Failure}
use iterator_recognition.DetectOperations.Exact.{MadeFrom}
use iterator_recognition.DetectOperations.Parts
use iterator_recognition.DetectOperations.Operands.{every_operand}
use iterator_recognition.Worklist.Returns.{edge_count}
use iterator_recognition.PayloadDependenceGraph.{
  PassInput, LoopProperties, update_of, cache_after, dependence_cache, keys_of, shadow_of, updates,
  judge,
}
use iterator_recognition.PayloadDependenceGraph.Targets.{IsTarget, ∈-updates, IsTarget-payload}
use iterator_recognition.PayloadDependenceGraph.Detected.{
  IsHandled, IsDone, IsDone-IsHandled, AreDone, process_all-returns,
}
use iterator_recognition.PayloadDependenceGraph.Cache.{cache_after-IsConsistent, nothing_cached}

module _ (ir : Ir) (li : LoopInfo) (more : CallsAndPhis) (aa : AliasAnalysis) (dg : DependenceGraph)
    (input : PassInput dg) (variance : IteratorInfo → ℕ → IteratorVarianceValue) (fuel : ℕ)
    (info : IteratorInfo) (payload : List ℕ) (g : dg.Graph) where
  abbrev dc : DependenceCache aa
  dc = dependence_cache ir li more aa dg input variance fuel info payload

  abbrev sdg : SGraph
  sdg = shadow_of ir li more aa dg input variance fuel payload g

  -- Whether the update of a target is made from a source, or an operation, on the shadow graph of the
  -- payload.
  abbrev pub IsSource : ℕ → ℕ → Type 0
  IsSource t v =
      MadeFrom ir li more aa dc sdg info.cur_loop t v
      × Parts.IsSource ir li more aa dc sdg info.cur_loop v

  abbrev pub IsOperation : ℕ → ℕ → Type 0
  IsOperation t v =
      (MadeFrom ir li more aa dc sdg info.cur_loop t v
        × Parts.IsOperation ir li more aa dc sdg info.cur_loop v)
      × (v ≢ t)

  -- An update commutes: it has sources, and with each of them either both ends are invariant, or one
  -- is variant and its operations count as commutative.
  abbrev pub IsUpdateSafe : ℕ → Type 0
  IsUpdateSafe t =
      ((v : ℕ) × IsSource t v)
      × ((v : ℕ)
          → IsSource t v
          → ((variance info t ≡ invariant) × (variance info v ≡ invariant))
            ⊎ (((variance info t ≡ variant) ⊎ (variance info v ≡ variant))
                × ((o : ℕ) → IsOperation t o → IsCommutative ir (variance info) o)))

  -- A loop's updates are there, and each of them commutes.
  abbrev pub IsLoopSafe : Type 0
  IsLoopSafe =
      ((t : ℕ) × IsTarget ir li more aa dg input variance fuel info payload t)
      × ((t : ℕ) → IsTarget ir li more aa dg input variance fuel info payload t → IsUpdateSafe t)

  -- The detector handles every update of the loop.
  abbrev pub AreHandled : Type 0
  AreHandled =
      (t : ℕ)
      → IsTarget ir li more aa dg input variance fuel info payload t
      → IsHandled ir li more aa dc sdg info.cur_loop t

  module _ (universe : List ℕ)
      (closed : (u v : ℕ) → u ∈ universe → v ∈ every_operand ir more u → v ∈ universe)
      (enough : 1 + edge_count (every_operand ir more) universe ≤ fuel)
      (inside : (v : ℕ) → v ∈ payload → v ∈ universe) where
    abbrev detected : List LoadModifyStore
    detected = updates ir li more aa dg input variance fuel payload dc

    target-update_of :
        (t : ℕ)
        → IsTarget ir li more aa dg input variance fuel info payload t
        → update_of t ∈ detected
    unfolding update_of
    target-update_of t h =
        (∈-updates ir li more aa dg input variance fuel info payload (update_of t)).1 (refl, h)

    -- An update that is done, without a failure, is safe as the detector found it exactly when it is
    -- safe in terms of what its target is made from.
    IsDone-IsUpdateSafe :
        (e' : LoadModifyStore) (t : ℕ)
        → IsDone ir li more aa dc sdg info.cur_loop (update_of t) e' none
        → ((e'.sources ≢ []) × ((src : ℕ) → src ∈ e'.sources → IsSafe ir (variance info) e' src))
          ↔ IsUpdateSafe t
    unfolding update_of
    IsDone-IsUpdateSafe e' t (same, (sources, operations, handled)) =
        let v_same : variance info e'.target ≡ variance info t = ap (variance info) same in
        let source_of : (v : ℕ) → v ∈ e'.sources → IsSource t v =
          λ v m. elim ((sources v).0 m) [ inl s ↦ s | inr n ↦ absurd n ] in
        let operation_of : (o : ℕ) → o ∈ e'.operations → IsOperation t o = λ o m.
          let (either, other) = (operations o).0 m in
          (elim either [ inl s ↦ s | inr n ↦ absurd n ], other) in
        (
          λ (listed, safe).
              let (v, m) = some_member e'.sources listed in
              (
                (v, source_of v m),
                λ src h. elim (safe src ((sources src).1 (inl h))) [
                  | inl (a, b) ↦ inl (sym v_same ∙ a, b)
                  | inr (varies, all_commute) ↦ inr (
                    elim varies [ inl a ↦ inl (sym v_same ∙ a) | inr b ↦ inr b ],
                    λ o (h', other). all_commute o ((operations o).1 (inl h', other)),
                  )
                ],
              ),
          λ ((v, h), safe). (
            not_empty v e'.sources ((sources v).1 (inl h)),
            λ src m. elim (safe src (source_of src m)) [
              | inl (a, b) ↦ inl (v_same ∙ a, b)
              | inr (varies, all_commute) ↦ inr (
                elim varies [ inl a ↦ inl (v_same ∙ a) | inr b ↦ inr b ],
                λ o n. all_commute o (operation_of o n),
              )
            ],
          ),
        )

    IsDone-update_of :
        (e e' : LoadModifyStore) (f : Option Failure)
        → AreHandled
        → e ∈ detected
        → IsDone ir li more aa dc sdg info.cur_loop e e' f
        → IsTarget ir li more aa dg input variance fuel info payload e.target
          × IsDone ir li more aa dc sdg info.cur_loop (update_of e.target) e' none
    IsDone-update_of e e' f handled m done =
        let (made, t) = (∈-updates ir li more aa dg input variance fuel info payload e).0 m in
        let no_failure =
          (IsDone-IsHandled ir li more aa dc sdg info.cur_loop e e' f done).1
            (handled e.target t) in
        (
          t,
          subst (λ (k : LoadModifyStore). IsDone ir li more aa dc sdg info.cur_loop k e' none) made
              (subst (IsDone ir li more aa dc sdg info.cur_loop e e') no_failure done),
        )

    -- The verdict of the analyser on what the detector found.
    verdict_iff :
        (es' : List LoadModifyStore) (fs : List Failure) (cache : VarianceCache)
        → AreDone ir li more aa dc sdg info.cur_loop detected es' fs
        → IsConsistent (variance info) cache
        → AreHandled
        → ((analyze ir (variance info) es' cache).has_commutative_ops ≡ true) ↔ IsLoopSafe
    unfolding update_of
    verdict_iff es' fs cache (none_left, back, forth) ok handled =
        let verdict = analyze_iff ir (variance info) es' cache ok in
        (
          λ h.
              let (listed, safe) = verdict.0 h in
              let (e', m) = some_member es' listed in
              let (e, f, n, done) = back e' m in
              (
                (e.target, (IsDone-update_of e e' f handled n done).0),
                λ t target.
                    let (k', f', m', done') = forth (update_of t) (target-update_of t target) in
                    (IsDone-IsUpdateSafe k' t
                        (IsDone-update_of (update_of t) k' f' handled (target-update_of t target)
                          done').1).0
                      (safe k' m'),
              ),
          λ ((t, target), safe).
              let (e', f, m, done) = forth (update_of t) (target-update_of t target) in
              verdict.1 (
                not_empty e' es' m,
                λ k' m'.
                    let (k, f', n', done') = back k' m' in
                    let (target', exact) = IsDone-update_of k k' f' handled n' done' in
                    (IsDone-IsUpdateSafe k' k.target exact).1 (safe k.target target'),
              ),
        )

    pub judge-returns :
        (p : LoopProperties) × (judge ir li more aa dg input variance fuel info payload dc g
          ≡ some p)
        × ((p.failures ≡ []) ↔ AreHandled)
        × (AreHandled → (p.is_commutative ≡ true) ↔ IsLoopSafe)
    unfolding judge
    judge-returns =
        let member = ∈-updates ir li more aa dg input variance fuel info payload in
        let (es', fs, made, done) =
          process_all-returns ir li more aa dg input variance fuel universe closed enough dc sdg
            info.cur_loop detected
            (λ e m. inside e.target (
              IsTarget-payload ir li more aa dg input variance fuel info payload e.target
                ((member e).0 m).1)) in
        let cache =
          cache_after (variance info) [] (keys_of ir li more aa dg input variance fuel dc) in
        let verdict = analyze ir (variance info) es' cache in
        (
          record {
            cur_loop = info.cur_loop;
            is_commutative = verdict.has_commutative_ops;
            failures = fs;
            messages = verdict.used_messages;
          },
          rw (made, judge) refl,
          (
            λ q t target. done.0.0 q (update_of t) (target-update_of t target),
            λ handled. done.0.1 (λ e m. handled e.target ((member e).0 m).1),
          ),
          verdict_iff es' fs cache done (
              cache_after-IsConsistent (variance info) []
                (keys_of ir li more aa dg input variance fuel dc) (nothing_cached (variance info))),
        )
