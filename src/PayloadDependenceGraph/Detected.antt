-- ===== src/PayloadDependenceGraph/Detected.antt =====
-- What the detector makes of the updates of a loop, one after another.
use iterator_recognition.Prelude.{
  ℕ, ◌+◌, ◌≤◌, ◌≡◌, refl, sym, subst, ◌↔◌, inl, inr, Option, none, some, List, [], ◌∷◌, arith,
  Option-cases, ◌∈◌,
}
use iterator_recognition.Ir.{Ir, LoopInfo}
use iterator_recognition.Recognition.{IteratorInfo}
use iterator_recognition.Variance.{IteratorVarianceValue}
use iterator_recognition.Commutativity.{LoadModifyStore}
use iterator_recognition.DependenceCache.{AliasAnalysis, DependenceCache}
use iterator_recognition.GraphUpdater.{DependenceGraph}
use iterator_recognition.ShadowDependenceGraph.{SGraph}
use iterator_recognition.DetectOperations.{CallsAndPhis, Failure, detect, process}
use iterator_recognition.DetectOperations.Parts.{IsUnhandled}
use iterator_recognition.DetectOperations.Exact.{MadeFrom, IsProcessed, process-returns-IsProcessed}
use iterator_recognition.DetectOperations.Operands.{every_operand, pushed-IsPart, edge_count-pushed}
use iterator_recognition.Worklist.Returns.{edge_count}
use iterator_recognition.PayloadDependenceGraph.{PassInput, process_all}

module _ (ir : Ir) (li : LoopInfo) (more : CallsAndPhis) (aa : AliasAnalysis)
    (dc : DependenceCache aa) (sdg : SGraph) (l : ℕ) where
  -- Whether a target is made from no instruction that the detector cannot handle.
  abbrev pub IsHandled : ℕ → Type 0
  IsHandled t =
      (v : ℕ) (f : Failure)
      → MadeFrom ir li more aa dc sdg l t v
      → ¬ IsUnhandled ir li more aa dc sdg l v f

  abbrev pub IsDone : LoadModifyStore → LoadModifyStore → Option Failure → Type 0
  IsDone e e' failure = (e'.target ≡ e.target) × IsProcessed ir li more aa dc sdg l e e' failure

  -- What is found of a list of updates.
  abbrev pub AreDone : List LoadModifyStore → List LoadModifyStore → List Failure → Type 0
  AreDone es es' fs =
      ((fs ≡ []) ↔ ((e : LoadModifyStore) → e ∈ es → IsHandled e.target))
      × ((e' : LoadModifyStore)
          → e' ∈ es'
          → (e : LoadModifyStore) × (f : Option Failure) × (e ∈ es) × IsDone e e' f)
      × ((e : LoadModifyStore)
          → e ∈ es
          → (e' : LoadModifyStore) × (f : Option Failure) × (e' ∈ es') × IsDone e e' f)

  pub IsDone-IsHandled :
      (e e' : LoadModifyStore) (failure : Option Failure)
      → IsDone e e' failure
      → (failure ≡ none) ↔ IsHandled e.target
  IsDone-IsHandled e e' none (t, (sources, operations, handled)) = (λ q. handled, λ h. refl)
  IsDone-IsHandled e e' (some f) (t, (v, made, q)) = (λ n. absurd (cc), λ h. absurd (h v f made q))

module _ (ir : Ir) (li : LoopInfo) (more : CallsAndPhis) (aa : AliasAnalysis) (dg : DependenceGraph)
    (input : PassInput dg) (variance : IteratorInfo → ℕ → IteratorVarianceValue) (fuel : ℕ)
    (universe : List ℕ)
    (closed : (u v : ℕ) → u ∈ universe → v ∈ every_operand ir more u → v ∈ universe)
    (enough : 1 + edge_count (every_operand ir more) universe ≤ fuel) (dc : DependenceCache aa)
    (sdg : SGraph) (l : ℕ) where
  process-target :
      (e e' : LoadModifyStore) (failure : Option Failure)
      → process ir li more aa dc sdg l fuel e ≡ some (e', failure)
      → e'.target ≡ e.target
  unfolding process
  process-target e e' failure h = elim (Option-cases (detect ir li more aa dc sdg l fuel e)) [
    | inl q ↦ absurd (ground arith)
    | inr (d, q) ↦ ground arith
  ]

  abbrev added : Option Failure → List Failure → List Failure
  added failure fs = elim failure [ none ↦ fs | some f ↦ f ∷ fs ]

  added_iff :
      (failure : Option Failure) (fs : List Failure)
      → (added failure fs ≡ []) ↔ ((failure ≡ none) × (fs ≡ []))
  added_iff none fs = (λ h. (refl, h), λ h. h.1)
  added_iff (some f) fs = (λ h. absurd (cc), λ (q, r). absurd (cc))

  pub process_all-returns :
      (es : List LoadModifyStore)
      → ((e : LoadModifyStore) → e ∈ es → e.target ∈ universe)
      → (es' : List LoadModifyStore) × (fs : List Failure) × (process_all ir li more aa dg input
            variance fuel dc sdg l es
          ≡ some (es', fs))
        × AreDone ir li more aa dc sdg l es es' fs
  unfolding process_all
  process_all-returns [] inside =
      ([], [], refl, ((λ q e m. absurd m, λ h. refl), λ e' m. absurd m, λ e m. absurd m))
  process_all-returns (e ∷ es) inside =
      let (e', failure, made, exact) =
        process-returns-IsProcessed ir li more aa dc sdg l universe
          (λ u v m n. closed u v m ((pushed-IsPart ir li more aa dc sdg l u).1 v n)) e fuel
          (inside e (inl refl))
          (omega (arith, enough, edge_count-pushed ir li more aa dc sdg l universe)) in
      let (es', fs, rest, (none_left, back, forth)) =
        process_all-returns es (λ k m. inside k (inr m)) in
      let done : IsDone ir li more aa dc sdg l e e' failure =
        (process-target e e' failure made, exact) in
      let first = IsDone-IsHandled ir li more aa dc sdg l e e' failure done in
      let split = added_iff failure fs in
      (
        e' ∷ es',
        added failure fs,
        rw (made, rest, process_all) refl,
        (
          (
            λ q k m. elim m [
              | inl same ↦
                  subst (λ (x : LoadModifyStore). IsHandled ir li more aa dc sdg l x.target)
                    (sym same) (first.0 (split.0 q).0)
              | inr n ↦ none_left.0 (split.0 q).1 k n
            ],
            λ h. split.1 (first.1 (h e (inl refl)), none_left.1 (λ k m. h k (inr m))),
          ),
          λ k m. elim m [
            | inl same ↦ (
              e,
              failure,
              inl refl,
              subst (λ (x : LoadModifyStore). IsDone ir li more aa dc sdg l e x failure) (sym same)
                  done,
            )
            | inr n ↦ let (x, f, m', d) = back k n in (x, f, inr m', d)
          ],
          λ k m. elim m [
            | inl same ↦ (
              e',
              failure,
              inl refl,
              subst (λ (x : LoadModifyStore). IsDone ir li more aa dc sdg l x e' failure) (sym same)
                  done,
            )
            | inr n ↦ let (x, f, m', d) = forth k n in (x, f, inr m', d)
          ],
        ),
      )
