-- ===== src/PayloadDependenceGraph/Updates.antt =====
-- The updates that are collected for values and for dependences.
use iterator_recognition.Prelude.{
  ℕ, ◌≡◌, sym, ap, ◌∙◌, subst, ◌↔◌, inl, inr, List, [], ◌∷◌, ◌++◌, map, arith, ◌==◌, ==_iff,
  Bool-cases, ◌∈◌, ∈-append, ∈-map, contains, contains_iff,
}
use iterator_recognition.Commutativity.{LoadModifyStore}
use iterator_recognition.PayloadDependenceGraph.{update_of, updates_of}

pub ∈-updates_of :
    (e : LoadModifyStore) (deps : List (ℕ × ℕ)) (seen : List ℕ)
    → e ∈ updates_of deps seen
      ↔ ((e ≡ update_of e.target) × ((a : ℕ) × ((a, e.target) ∈ deps)) × ¬ (e.target ∈ seen))
unfolding updates_of update_of
∈-updates_of e [] seen = (λ m. absurd m, λ h. absurd h.1.1)
∈-updates_of e ((a, b) ∷ deps) seen = elim (Bool-cases (contains seen b)) [
  | inl k ↦
      let ih = ∈-updates_of e deps seen in
      let held = (contains_iff seen b).0 k in
      rw (k, updates_of)
        (
          λ m. let (made, (x, n), free) = ih.0 m in (made, (x, inr n), free),
          λ (made, (x, n), free). elim n [
            | inl q ↦
                absurd (free (subst (λ (t : ℕ). t ∈ seen) (sym (ap (λ (p : ℕ × ℕ). p.1) q)) held))
            | inr n' ↦ ih.1 (made, (x, n'), free)
          ],
        )
  | inr k ↦
      let ih = ∈-updates_of e deps (seen ++ b ∷ []) in
      let fresh = λ (m : b ∈ seen). let c = (contains_iff seen b).1 m in let no : ⊥ = cc in no in
      rw (k, updates_of)
        (
          λ m. elim m [
            | inl q ↦
                let t : e.target ≡ b = ap (λ (x : LoadModifyStore). x.target) q in
                (
                  q ∙ ap update_of (sym t),
                  (a, inl (ap (λ (y : ℕ). (a, y)) t)),
                  λ n. fresh (subst (λ (y : ℕ). y ∈ seen) t n),
                )
            | inr n ↦
                let (made, (x, n'), free) = ih.0 n in
                (made, (x, inr n'), λ held. free ((∈-append e.target seen (b ∷ [])).1 (inl held)))
          ],
          λ (made, (x, n), free). elim (Bool-cases (e.target == b)) [
            | inl same ↦ inl (made ∙ ap update_of ((==_iff e.target b).0 same))
            | inr other ↦ inr (
                ih.1 (
                  made,
                  elim n [
                    | inl q ↦
                        let t = ap (λ (p : ℕ × ℕ). p.1) q in
                        absurd (ground (arith, ==_iff e.target b, t, other))
                    | inr n' ↦ (x, n')
                  ],
                  λ held. elim ((∈-append e.target seen (b ∷ [])).0 held) [
                    | inl old ↦ free old
                    | inr (inl q) ↦ ground (arith, ==_iff e.target b, q, other)
                    | inr (inr none_left) ↦ absurd none_left
                  ],
                ))
          ],
        )
]

pub ∈-map-update_of :
    (e : LoadModifyStore) (vs : List ℕ)
    → e ∈ map update_of vs ↔ ((e ≡ update_of e.target) × (e.target ∈ vs))
unfolding update_of
∈-map-update_of e vs =
    let each = ∈-map update_of e vs in
    (
      λ m.
          let (v, n, q) = each.0 m in
          let t : e.target ≡ v = ap (λ (x : LoadModifyStore). x.target) q in
          (q ∙ ap update_of (sym t), subst (λ (y : ℕ). y ∈ vs) (sym t) n),
      λ (made, n). each.1 (e.target, n, made),
    )
