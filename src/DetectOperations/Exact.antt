-- ===== src/DetectOperations/Exact.antt =====
-- The detector returns, and what it collects is what the target's update is made of.
use iterator_recognition.Prelude.{
  ℕ, ◌+◌, ◌≤◌, ◌≡◌, refl, sym, ap, ◌∙◌, subst, ◌≢◌, ◌↔◌, ◌⊎◌, inl, inr, true, Option, none, some,
  List, [], ◌∷◌, arith, ◌∈◌, erase, ∈-erase,
}
use iterator_recognition.Ir.{Ir, LoopInfo, is_inst}
use iterator_recognition.Commutativity.{LoadModifyStore}
use iterator_recognition.DependenceCache.{AliasAnalysis, DependenceCache}
use iterator_recognition.ShadowDependenceGraph.{SGraph}
use iterator_recognition.DetectOperations.{
  CallsAndPhis, Failure, Detection, Part, source, operation, failing, part, pushed, visit,
  is_no_inst, detect, process,
}
use iterator_recognition.DetectOperations.Visits.{visits_ended, visits_stopped}
use iterator_recognition.Worklist.{set_vector, Reach}
use iterator_recognition.Worklist.Chains.{Chain, Reach-Chain}
use iterator_recognition.DetectOperations.Parts.{
  IsSource, IsOperation, IsUnhandled, IsFedBy, part-source, part-operation, part-failing, ∈-pushed,
}
use iterator_recognition.Worklist.Order.{Outcome, ended, stopped, loop-Outcome}
use iterator_recognition.Worklist.Returns.{edge_count, loop-returns}

module _ (ir : Ir) (loop_info : LoopInfo) (more : CallsAndPhis) (aa : AliasAnalysis)
    (dc : DependenceCache aa) (sdg : SGraph) (cur_loop : ℕ) where
  -- Whether the search comes to the instruction.
  abbrev Comes : ℕ → ℕ → Type 0
  Comes target v =
      Reach (is_no_inst ir loop_info more aa dc sdg cur_loop)
        (pushed ir loop_info more aa dc sdg cur_loop) (target ∷ []) v

  abbrev part_here : ℕ → Part
  part_here = part ir loop_info more aa dc sdg cur_loop

  abbrev PartOf : Part → ℕ → ℕ → Type 0
  PartOf p target v = Comes target v × (part ir loop_info more aa dc sdg cur_loop v ≡ p)

  -- What `process` does to an update, by the parts of the instructions.
  abbrev IsTaken : LoadModifyStore → LoadModifyStore → Option Failure → Type 0
  IsTaken lms lms' none =
      ((v : ℕ) → v ∈ lms'.sources ↔ (PartOf source lms.target v ⊎ (v ∈ lms.sources)))
      × ((v : ℕ)
          → v ∈ lms'.operations
            ↔ ((PartOf operation lms.target v ⊎ (v ∈ lms.operations)) × (v ≢ lms.target)))
      × ((v : ℕ) (f : Failure)
          → Comes lms.target v
          → part ir loop_info more aa dc sdg cur_loop v ≢ failing f)
  IsTaken lms lms' (some f) = (v : ℕ) × PartOf (failing f) lms.target v

  abbrev start : LoadModifyStore → Detection
  start lms = record { sources = lms.sources; operations = lms.operations; failure = none }

  Outcome-IsTaken :
      (lms : LoadModifyStore) (d : Detection)
      → Outcome
          (visit ir loop_info more aa dc sdg cur_loop)
          (is_no_inst ir loop_info more aa dc sdg cur_loop)
          (pushed ir loop_info more aa dc sdg cur_loop)
          (lms.target ∷ [])
          (start lms)
          d
      → (fail : Option Failure) → d.failure ≡ fail
      → IsTaken lms
          (record {
            target = lms.target;
            sources = d.sources;
            operations = erase lms.target d.operations;
          })
          fail
  unfolding visit
  Outcome-IsTaken lms d (ended order h all_of) none q =
      let c = visits_ended part_here order (start lms) d h in
      (
        λ v. ground (arith, c.sources v, all_of v),
        λ v. ground (arith, c.operations v, all_of v, ∈-erase v lms.target d.operations),
        λ v f m e. c.handled v f ((all_of v).1 m) e,
      )
  Outcome-IsTaken lms d (ended order h all_of) (some f) q =
      let c = visits_ended part_here order (start lms) d h in let no = c.failure in absurd (cc)
  Outcome-IsTaken lms d (stopped order h from) none q =
      let (v, f, m, k, e) = visits_stopped part_here order (start lms) d h in absurd (cc)
  Outcome-IsTaken lms d (stopped order h from) (some f) q =
      let (v, f', m, k, e) = visits_stopped part_here order (start lms) d h in
      let same : f' ≡ f = cc in (v, (from v m, k ∙ ap failing same))

  -- Whether the update of the target is made from the instruction: the target itself, if it is one, or
  -- what feeds one that the update is made from.
  abbrev pub MadeFrom : ℕ → ℕ → Type 0
  MadeFrom target v =
      Chain (λ u. (u ≡ target) × (is_inst ir u ≡ true))
        (IsFedBy ir loop_info more aa dc sdg cur_loop) v

  Comes-MadeFrom : (target v : ℕ) → Comes target v ↔ MadeFrom target v
  Comes-MadeFrom target v =
      Reach-Chain (λ u. (u ≡ target) × (is_inst ir u ≡ true))
        (IsFedBy ir loop_info more aa dc sdg cur_loop)
        (is_no_inst ir loop_info more aa dc sdg cur_loop)
        (pushed ir loop_info more aa dc sdg cur_loop) (target ∷ []) (λ u. ground arith)
        (∈-pushed ir loop_info more aa dc sdg cur_loop) v

  -- What `process` does to an update.
  abbrev pub IsProcessed : LoadModifyStore → LoadModifyStore → Option Failure → Type 0
  IsProcessed lms lms' none =
      ((v : ℕ)
        → v ∈ lms'.sources ↔ (
            (MadeFrom lms.target v × IsSource ir loop_info more aa dc sdg cur_loop v)
            ⊎ (v ∈ lms.sources)))
      × ((v : ℕ)
          → v ∈ lms'.operations ↔ (
              ((MadeFrom lms.target v × IsOperation ir loop_info more aa dc sdg cur_loop v)
                ⊎ (v ∈ lms.operations))
              × (v ≢ lms.target)))
      × ((v : ℕ) (f : Failure)
          → MadeFrom lms.target v
          → ¬ IsUnhandled ir loop_info more aa dc sdg cur_loop v f)
  IsProcessed lms lms' (some f) =
      (v : ℕ) × MadeFrom lms.target v × IsUnhandled ir loop_info more aa dc sdg cur_loop v f

  part-MadeFrom :
      (p : Part) (Is : ℕ → Type 0)
      → ((v : ℕ) → (part ir loop_info more aa dc sdg cur_loop v ≡ p) ↔ Is v)
      → (target v : ℕ) → PartOf p target v ↔ (MadeFrom target v × Is v)
  part-MadeFrom p Is each target v = (
    λ (c, q). ((Comes-MadeFrom target v).0 c, (each v).0 q),
    λ (m, h). ((Comes-MadeFrom target v).1 m, (each v).1 h),
  )

  IsTaken-IsProcessed :
      (lms lms' : LoadModifyStore) (fail : Option Failure)
      → IsTaken lms lms' fail
      → IsProcessed lms lms' fail
  IsTaken-IsProcessed lms lms' none (sources, operations, handled) = (
    λ v. ground (
      arith,
      sources v,
      part-MadeFrom source (IsSource ir loop_info more aa dc sdg cur_loop)
          (part-source ir loop_info more aa dc sdg cur_loop) lms.target v,
    ),
    λ v. ground (
      arith,
      operations v,
      part-MadeFrom operation (IsOperation ir loop_info more aa dc sdg cur_loop)
          (part-operation ir loop_info more aa dc sdg cur_loop) lms.target v,
    ),
    λ v f m h.
        handled v f ((Comes-MadeFrom lms.target v).1 m)
          ((part-failing ir loop_info more aa dc sdg cur_loop v f).1 h),
  )
  IsTaken-IsProcessed lms lms' (some f) (v, (c, q)) = (
    v,
    (Comes-MadeFrom lms.target v).0 c,
    (part-failing ir loop_info more aa dc sdg cur_loop v f).0 q,
  )

  -- For a target among finitely many values that the operands stay among: with fuel for each of their
  -- operands the detector returns. It reports no failure exactly when the target is made from no
  -- instruction that it cannot handle; its sources are then those that the update had and the sources
  -- that the target is made from, and its operations those that the update had and the operations that
  -- the target is made from, less the target.
  pub process-returns-IsProcessed :
      (universe : List ℕ)
      → ((u v : ℕ)
          → u ∈ universe
          → v ∈ pushed ir loop_info more aa dc sdg cur_loop u
          → v ∈ universe)
      → (lms : LoadModifyStore) (fuel : ℕ) → lms.target ∈ universe
      → 1 + edge_count (pushed ir loop_info more aa dc sdg cur_loop) universe ≤ fuel
      → (lms' : LoadModifyStore) × (fail : Option Failure) × (process ir loop_info more aa dc sdg
            cur_loop fuel lms
          ≡ some (lms', fail))
        × IsProcessed lms lms' fail
  unfolding process detect
  process-returns-IsProcessed universe closed lms fuel inside enough =
      let skip = is_no_inst ir loop_info more aa dc sdg cur_loop in
      let next = pushed ir loop_info more aa dc sdg cur_loop in
      let act = visit ir loop_info more aa dc sdg cur_loop in
      let (d, q) =
        loop-returns set_vector skip next act universe closed fuel (lms.target ∷ []) (start lms)
          (λ v m. elim m [
            | inl e ↦ subst (λ (k : ℕ). k ∈ universe) (sym e) inside
            | inr n ↦ absurd n
          ])
          (omega arith) in
      (
        record {
          target = lms.target;
          sources = d.sources;
          operations = erase lms.target d.operations;
        },
        d.failure,
        rw (q, process) refl,
        IsTaken-IsProcessed lms
            (record {
              target = lms.target;
              sources = d.sources;
              operations = erase lms.target d.operations;
            })
            d.failure
            (Outcome-IsTaken lms d
              (loop-Outcome set_vector skip next act (lms.target ∷ []) (start lms) fuel d q)
              d.failure refl),
      )
