-- ===== src/DispositionTracker/Exact.antt =====
-- What the tracker answers.
use iterator_recognition.Prelude.{
  ℕ, ◌+◌, ◌≤◌, ◌≡◌, refl, sym, ap, ◌∙◌, subst, ◌↔◌, ◌⊎◌, inl, inr, Bool, true, false, ◌&&◌, some,
  List, [], ◌∷◌, arith, ◌==◌, Bool-cases, length, ◌∈◌, find?,
}
use iterator_recognition.Ir.{Ir, LoopInfo, is_inst}
use iterator_recognition.Recognition.{IteratorInfo}
use iterator_recognition.ValueClassification.{find_payload_values}
use iterator_recognition.DispositionTracker.{
  AccessDisposition, unknown, invariant, variant, tracks_iterator, payload_geps, index_insts, next,
  visit, search_geps, disposition_with,
}
use iterator_recognition.Worklist.{
  stop, go, small_vector, push_back_all, ∈-push_back_all, nothing_skipped, visit_all, Reach, root,
  along,
}
use iterator_recognition.Worklist.Chains.{Chain, Reach-Chain}
use iterator_recognition.DispositionTracker.Parts.{
  IsTracked, tracks_iterator_iff, IsIndex, ∈-index_insts, ∈-next,
}
use iterator_recognition.Worklist.Order.{Outcome, ended, stopped, loop-Outcome}
use iterator_recognition.Worklist.Returns.{edge_count, loop-returns}

Reach-roots :
    (next : ℕ → List ℕ) (xs ys : List ℕ)
    → ((v : ℕ) → v ∈ xs → v ∈ ys)
    → (v : ℕ) → Reach nothing_skipped next xs v
    → Reach nothing_skipped next ys v
Reach-roots next xs ys inside v (root m n) = root (inside v m) n
Reach-roots next xs ys inside v (along {u} r m n) = along (Reach-roots next xs ys inside u r) m n

module _ (ir : Ir) (li : LoopInfo) where
  module _ (infos : List IteratorInfo) (cur : ℕ) (with_sub_loops : Bool) where
    -- Whether a search from the address computations comes to the instruction.
    abbrev Comes : List ℕ → ℕ → Type 0
    Comes geps v = Reach nothing_skipped (next ir li) (index_insts ir li geps) v

    abbrev tracked : ℕ → Bool
    tracked v = tracks_iterator ir li infos v cur with_sub_loops

    -- What a disposition says of a query, by the tests.
    abbrev IsAnswer : ℕ → List ℕ → AccessDisposition → Type 0
    IsAnswer query geps variant =
        ((is_inst ir query && tracks_iterator ir li infos query cur with_sub_loops) ≡ false)
        × ((v : ℕ) × Comes geps v × (tracks_iterator ir li infos v cur with_sub_loops ≡ true))
    IsAnswer query geps invariant =
        ((is_inst ir query && tracks_iterator ir li infos query cur with_sub_loops) ≡ true)
        ⊎ ((v : ℕ) → Comes geps v → tracks_iterator ir li infos v cur with_sub_loops ≡ false)
    IsAnswer query geps unknown = ⊥

    -- Whether operands lead from an index of an address computation on the query to the instruction.
    abbrev pub IndexedBy : ℕ → IteratorInfo → ℕ → Type 0
    IndexedBy query info v =
        Chain (IsIndex ir li query info) (λ u w. (w ∈ ir.operands u) × (is_inst ir w ≡ true)) v

    -- What each disposition says of a query, for a loop with this iterator.
    abbrev pub IsDisposition : ℕ → IteratorInfo → AccessDisposition → Type 0
    IsDisposition query info variant =
        ¬ ((is_inst ir query ≡ true) × IsTracked ir li infos cur with_sub_loops query)
        × ((v : ℕ) × IndexedBy query info v × IsTracked ir li infos cur with_sub_loops v)
    IsDisposition query info invariant =
        ((is_inst ir query ≡ true) × IsTracked ir li infos cur with_sub_loops query)
        ⊎ ((v : ℕ) → IndexedBy query info v → ¬ IsTracked ir li infos cur with_sub_loops v)
    IsDisposition query info unknown = ⊥

    abbrev geps_of : ℕ → IteratorInfo → List ℕ
    geps_of query info = payload_geps ir li (find_payload_values ir li info []) (ir.users query) []

    Comes-IndexedBy :
        (query : ℕ) (info : IteratorInfo) (v : ℕ)
        → Comes (geps_of query info) v ↔ IndexedBy query info v
    Comes-IndexedBy query info v =
        Reach-Chain (IsIndex ir li query info) (λ u w. (w ∈ ir.operands u) × (is_inst ir w ≡ true))
          nothing_skipped (next ir li) (index_insts ir li (geps_of query info))
          (λ w. ground (arith, ∈-index_insts ir li query info w))
          (λ u w. ground (arith, ∈-next ir li u w)) v

    query_iff :
        (query : ℕ)
        → ((is_inst ir query && tracks_iterator ir li infos query cur with_sub_loops) ≡ true)
          ↔ ((is_inst ir query ≡ true) × IsTracked ir li infos cur with_sub_loops query)
    query_iff query = ground (arith, tracks_iterator_iff ir li infos cur with_sub_loops query)

    IsAnswer-IsDisposition :
        (query : ℕ) (info : IteratorInfo) (d : AccessDisposition)
        → IsAnswer query (geps_of query info) d
        → IsDisposition query info d
    IsAnswer-IsDisposition query info variant (free, (v, c, t)) = (
      λ q. absurd (let found = (query_iff query).1 q in cc),
      (
        v,
        (Comes-IndexedBy query info v).0 c,
        (tracks_iterator_iff ir li infos cur with_sub_loops v).0 t,
      ),
    )
    IsAnswer-IsDisposition query info invariant (inl q) = inl ((query_iff query).0 q)
    IsAnswer-IsDisposition query info invariant (inr none_found) = inr (λ v c t.
        let missed = none_found v ((Comes-IndexedBy query info v).1 c) in
        let found = (tracks_iterator_iff ir li infos cur with_sub_loops v).1 t in absurd (cc))
    IsAnswer-IsDisposition query info unknown h = absurd h

    visits_ended :
        (order : List ℕ) (d r : AccessDisposition)
        → visit_all (visit ir li infos cur with_sub_loops) order d ≡ go r
        → (r ≡ d) × ((v : ℕ) → v ∈ order → tracked v ≡ false)
    unfolding visit_all visit
    visits_ended [] d r h = (ground arith, λ v m. absurd m)
    visits_ended (w ∷ order) d r h = elim (Bool-cases (tracked w)) [
      | inl e ↦ absurd (ground arith)
      | inr e ↦
          let (p, q) = visits_ended order d r (rw (e, visit_all) at h) in
          (p, λ v m. elim m [ inl k ↦ ap tracked k ∙ e | inr k ↦ q v k ])
    ]

    visits_stopped :
        (order : List ℕ) (d r : AccessDisposition)
        → visit_all (visit ir li infos cur with_sub_loops) order d ≡ stop r
        → (r ≡ variant) × ((v : ℕ) × (v ∈ order) × (tracked v ≡ true))
    unfolding visit_all visit
    visits_stopped [] d r h = absurd (ground arith)
    visits_stopped (w ∷ order) d r h = elim (Bool-cases (tracked w)) [
      | inl e ↦ (ground arith, (w, inl refl, e))
      | inr e ↦ let (p, (v, m, k)) = visits_stopped order d r (ground arith) in (p, (v, inr m, k))
    ]

    Outcome-IsAnswer :
        (query : ℕ) (geps : List ℕ) (r : AccessDisposition)
        → is_inst ir query && tracks_iterator ir li infos query cur with_sub_loops ≡ false
        → Outcome
            (visit ir li infos cur with_sub_loops)
            nothing_skipped
            (next ir li)
            (push_back_all (index_insts ir li geps) [])
            invariant
            r
        → IsAnswer query geps r
    Outcome-IsAnswer query geps r other (ended order h all_of) =
        let (p, q) = visits_ended order invariant r h in
        subst (IsAnswer query geps) (sym p) (
          inr (λ v d. q v (
            (all_of v).1 (
              Reach-roots (next ir li) (index_insts ir li geps)
                (push_back_all (index_insts ir li geps) [])
                (λ w m. (∈-push_back_all w (index_insts ir li geps) []).1 (inl m)) v d))))
    Outcome-IsAnswer query geps r other (stopped order h from) =
        let (p, (v, m, e)) = visits_stopped order invariant r h in
        subst (IsAnswer query geps) (sym p) (
          other,
          (
            v,
            Reach-roots (next ir li) (push_back_all (index_insts ir li geps) [])
                (index_insts ir li geps)
                (λ w m. elim ((∈-push_back_all w (index_insts ir li geps) []).0 m) [
                  | inl k ↦ k
                  | inr k ↦ absurd k
                ])
                v (from v m),
            e,
          ),
        )

    search_geps-returns :
        (universe : List ℕ)
        → ((u v : ℕ) → u ∈ universe → v ∈ next ir li u → v ∈ universe)
        → (query fuel : ℕ) (geps : List ℕ) → ((v : ℕ) → v ∈ index_insts ir li geps → v ∈ universe)
        → length (push_back_all (index_insts ir li geps) []) + edge_count (next ir li) universe
          ≤ fuel
        → is_inst ir query && tracks_iterator ir li infos query cur with_sub_loops ≡ false
        → (d : AccessDisposition) × (search_geps ir li fuel infos cur with_sub_loops geps ≡ some d)
          × IsAnswer query geps d
    unfolding search_geps index_insts
    search_geps-returns universe closed query fuel [] inside enough other =
        (invariant, refl, inr (λ v d. absurd (nowhere v d)))
      where
        nowhere : (v : ℕ) → Comes [] v → ⊥
        nowhere v (root m n) = m
        nowhere v (along {u} r m n) = nowhere u r
    search_geps-returns universe closed query fuel (g ∷ geps) inside enough other =
        let roots = push_back_all (index_insts ir li (g ∷ geps)) [] in
        let (r, q) =
          loop-returns small_vector nothing_skipped (next ir li)
            (visit ir li infos cur with_sub_loops) universe closed fuel roots invariant
            (λ v m. elim ((∈-push_back_all v (index_insts ir li (g ∷ geps)) []).0 m) [
              | inl k ↦ inside v k
              | inr k ↦ absurd k
            ])
            enough in
        (
          r,
          q,
          Outcome-IsAnswer query (g ∷ geps) r other (
              loop-Outcome small_vector nothing_skipped (next ir li)
                (visit ir li infos cur with_sub_loops) roots invariant fuel r q),
        )

    -- For a loop that the tracker has the information of, and a query the indices of whose address
    -- computations in the payload are among finitely many instructions that the operands stay among: with
    -- fuel for the indices and the operands the search returns. The answer is variant exactly when the
    -- query is no iterator instruction itself, of the loop or, if inner loops are considered, of one
    -- inside it, and operands lead from an index to one; otherwise it is invariant.
    pub disposition_with-returns-IsDisposition :
        (universe : List ℕ)
        → ((u v : ℕ) → u ∈ universe → v ∈ ir.operands u → is_inst ir v ≡ true → v ∈ universe)
        → (query fuel : ℕ) (info : IteratorInfo) → find? (λ e. e.cur_loop == cur) infos ≡ some info
        → ((v : ℕ) → IsIndex ir li query info v → v ∈ universe)
        → length (
              push_back_all
                (index_insts ir li
                  (payload_geps ir li (find_payload_values ir li info []) (ir.users query) []))
                [])
            + edge_count (next ir li) universe
          ≤ fuel
        → (d : AccessDisposition) × (disposition_with ir li fuel infos query cur with_sub_loops
            ≡ some d)
          × IsDisposition query info d
    unfolding disposition_with
    disposition_with-returns-IsDisposition universe closed query fuel info known inside enough =
        elim (Bool-cases
          (is_inst ir query && tracks_iterator ir li infos query cur with_sub_loops)) [
            | inl e ↦ (invariant, rw (e, disposition_with) refl, inl ((query_iff query).0 e))
            | inr e ↦
                let (d, q, is_right) =
                  search_geps-returns universe
                    (λ u v m n. let (i, k) = (∈-next ir li u v).0 n in closed u v m i k) query fuel
                    (geps_of query info) (λ v m. inside v ((∈-index_insts ir li query info v).0 m))
                    enough e in
                (
                  d,
                  rw (e, disposition_with) (rw (known, disposition_with) q),
                  IsAnswer-IsDisposition query info d is_right,
                )
          ]
