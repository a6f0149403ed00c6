-- ===== src/PayloadDependenceGraph/Targets.antt =====
-- The targets of the updates that are collected for a loop.
use iterator_recognition.Prelude.{
  ℕ, ◌≡◌, refl, sym, ap, subst, ◌↔◌, ◌⊎◌, inl, inr, Bool, true, false, ◌&&◌, ◌||◌, List, [], ◌∷◌,
  map, arith, ◌∈◌, ∈-append, ∈-filter, ∈-map, flat_map, contains, contains_iff,
}
use iterator_recognition.Ir.{Ir, LoopInfo, is_inst}
use iterator_recognition.Recognition.{IteratorInfo}
use iterator_recognition.ValueClassification.{find_virt_reg_payload_live_values}
use iterator_recognition.ValueClassification.Live.{∈-find_virt_reg_payload_live_values}
use iterator_recognition.ValueClassification.Split.{∈-split_virt_reg_payload_live_values}
use iterator_recognition.Variance.{IteratorVarianceValue}
use iterator_recognition.Commutativity.{LoadModifyStore}
use iterator_recognition.DependenceCache.{AliasAnalysis, Entry}
use iterator_recognition.DependenceCache.Pairs.{Before, ∈-calculate}
use iterator_recognition.GraphUpdater.{DependenceGraph}
use iterator_recognition.DetectOperations.{CallsAndPhis}
use iterator_recognition.PayloadDependenceGraph.{
  PassInput, loop_rpo, update_of, updates_of, dependence_cache, mod_ref_insts, no_dependences,
  keys_of, live_split, updates,
}
use iterator_recognition.PayloadDependenceGraph.Updates.{∈-updates_of, ∈-map-update_of}

module _ (ir : Ir) (li : LoopInfo) (more : CallsAndPhis) (aa : AliasAnalysis) (dg : DependenceGraph)
    (input : PassInput dg) (variance : IteratorInfo → ℕ → IteratorVarianceValue) (fuel : ℕ) where
  -- Whether a payload value is used outside the payload.
  abbrev pub IsLiveOut : List ℕ → ℕ → Type 0
  IsLiveOut payload t =
      (t ∈ payload)
      × ((user : ℕ) × (user ∈ ir.users t) × (is_inst ir user ≡ true) × ¬ (user ∈ payload))

  -- Whether, of the payload's instructions that access memory, one before it depends on it: the target
  -- may modify what the other accesses, and the other has an effect on what the target accesses.
  abbrev pub IsDependence : IteratorInfo → List ℕ → ℕ → ℕ → Type 0
  IsDependence info payload a t =
      Before a t (mod_ref_insts ir li more aa dg input variance fuel info payload)
      × (aa.is_mod_set (aa.get_mod_ref_info t a) ≡ true)
      × (aa.is_no_mod_ref (aa.get_mod_ref_info a t) ≡ false)

  -- What a loop's updates are collected for.
  abbrev pub IsTarget : IteratorInfo → List ℕ → ℕ → Type 0
  IsTarget info payload t = IsLiveOut payload t ⊎ ((a : ℕ) × IsDependence info payload a t)

  ∈-live_out :
      (payload : List ℕ) (t : ℕ)
      → t ∈ (live_split ir li more aa dg input variance fuel payload).live_out ↔ IsLiveOut payload t
  unfolding live_split
  ∈-live_out payload t =
      let live = find_virt_reg_payload_live_values ir payload [] in
      let split =
        (∈-split_virt_reg_payload_live_values ir payload input.dominates t live
          (record { live_in = []; live_thru = []; live_out = [] })).0 in
      let found = ∈-find_virt_reg_payload_live_values ir payload t [] in
      (
        λ m. elim (split.0 m) [
          | inl n ↦ absurd n
          | inr (alive, inside) ↦ elim (found.0 alive) [
            | inl n ↦ absurd n
            | inr (inl used) ↦ used
            | inr (inr (fed, outer)) ↦ absurd (outer.1 inside)
          ]
        ],
        λ h. split.1 (inr (found.1 (inr (inl h)), h.0)),
      )

  ∈-keys_of :
      (info : IteratorInfo) (payload : List ℕ) (a t : ℕ)
      → (a, t)
          ∈ keys_of ir li more aa dg input variance fuel
              (dependence_cache ir li more aa dg input variance fuel info payload)
        ↔ IsDependence info payload a t
  unfolding keys_of dependence_cache
  ∈-keys_of info payload a t =
      let insts = mod_ref_insts ir li more aa dg input variance fuel info payload in
      let dc = dependence_cache ir li more aa dg input variance fuel info payload in
      let none_yet = no_dependences ir li more aa dg input variance fuel in
      let each = ∈-map (λ (e : Entry aa). e.0) (a, t) dc.dependences in
      (
        λ m.
            let (((x, y), d), n, q) = each.0 m in
            let (before, writes, reads, same) = (∈-calculate aa x y d insts none_yet).0 n in
            let pa : a ≡ x = ap (λ (p : ℕ × ℕ). p.0) q in
            let pt : t ≡ y = ap (λ (p : ℕ × ℕ). p.1) q in
            subst (λ (p : ℕ × ℕ). IsDependence info payload p.0 p.1) (sym q)
              (before, writes, reads),
        λ (before, writes, reads). each.1 (
          ((a, t), aa.get_mod_ref_info t a),
          (∈-calculate aa a t (aa.get_mod_ref_info t a) insts none_yet).1
              (before, writes, reads, refl),
          refl,
        ),
      )

  pub ∈-updates :
      (info : IteratorInfo) (payload : List ℕ) (e : LoadModifyStore)
      → e
          ∈ updates ir li more aa dg input variance fuel payload
              (dependence_cache ir li more aa dg input variance fuel info payload)
        ↔ ((e ≡ update_of e.target) × IsTarget info payload e.target)
  unfolding updates
  ∈-updates info payload e =
      let out = (live_split ir li more aa dg input variance fuel payload).live_out in
      let keys =
        keys_of ir li more aa dg input variance fuel
          (dependence_cache ir li more aa dg input variance fuel info payload) in
      let both = ∈-append e (map update_of out) (updates_of keys []) in
      let first = ∈-map-update_of e out in
      let second = ∈-updates_of e keys [] in
      let live = ∈-live_out payload e.target in
      (
        λ m. elim (both.0 m) [
          | inl n ↦ let (made, t) = first.0 n in (made, inl (live.0 t))
          | inr n ↦
              let (made, (a, k), free) = second.0 n in
              (made, inr (a, (∈-keys_of info payload a e.target).0 k))
        ],
        λ (made, t). elim t [
          | inl l ↦ both.1 (inl (first.1 (made, live.1 l)))
          | inr (a, k) ↦
              both.1 (inr (second.1 (made, (a, (∈-keys_of info payload a e.target).1 k), λ n. n)))
        ],
      )

  Before-∈ : (a b : ℕ) (insts : List ℕ) → Before a b insts → b ∈ insts
  Before-∈ a b [] h = absurd h
  Before-∈ a b (x ∷ xs) (inl h) = inr h.1
  Before-∈ a b (x ∷ xs) (inr h) = inr (Before-∈ a b xs h)

  mod_ref_insts-payload :
      (info : IteratorInfo) (payload : List ℕ) (v : ℕ)
      → v ∈ mod_ref_insts ir li more aa dg input variance fuel info payload
      → v ∈ payload
  unfolding mod_ref_insts loop_rpo
  mod_ref_insts-payload info payload v m =
      let test : ℕ → Bool =
        λ i. (ir.may_read_from_memory i || ir.may_write_to_memory i) && contains payload i in
      ground (
        arith,
        contains_iff payload v,
        (∈-filter test v (flat_map ir.insts (input.blocks_rpo info.cur_loop))).0 m,
      )

  pub IsTarget-payload :
      (info : IteratorInfo) (payload : List ℕ) (t : ℕ) → IsTarget info payload t → t ∈ payload
  IsTarget-payload info payload t (inl live) = live.0
  IsTarget-payload info payload t (inr (a, (before, writes, reads))) =
      mod_ref_insts-payload info payload t
        (Before-∈ a t (mod_ref_insts ir li more aa dg input variance fuel info payload) before)
