-- ===== src/GraphUpdater/Edited.antt =====
-- Each edge of the dependence graph, once the edits are executed.
use iterator_recognition.Variance.Cache.{IsConsistent}
use iterator_recognition.Prelude.{
  ℕ, ◌≡◌, refl, ◌∙◌, ◌≢◌, inl, inr, true, false, ◌&&◌, ◌||◌, Option, none, some, List, arith,
  if◌then◌else◌, ==_refl, Bool-cases, Option-cases, ◌∈◌,
}
use iterator_recognition.Variance.{
  IteratorVarianceValue, unknown, invariant, variant, is_invariant, is_variant, VarianceCache,
}
use iterator_recognition.GraphUpdater.{
  is_unknown, DependenceGraph, create_disconnect, create_update, create_variant, create_invariant,
  create_connect, create_for, make_actions, perform_update, execute_all,
}
use iterator_recognition.GraphUpdater.Restore.{IsEdited}
use iterator_recognition.GraphUpdater.RoundTrip.{is_fresh, is_apart, Agrees-self}
use iterator_recognition.GraphUpdater.Unchanged.{perform_first, unchanged, edges-first}

-- What the look-up of an edge is documented to answer.
pub record IsPresent (dg : DependenceGraph) : Type 0 where
  pub has_edge :
      (g : dg.Graph) (s d : ℕ) → dg.has_edge_with g s d ≡ true → dg.get_edge_info g s d ≢ none

module _ (dg : DependenceGraph) (laws : IsEdited dg) (present : IsPresent dg) where
  open dg use {
    Graph, EdgeInfo, get_edge_info, has_edge_with, is_set, memory_part, without_memory, get_node,
    determine_hazard,
  }

  -- An edge less its memory part; none, if it has no other.
  abbrev without_memory_edge : Option EdgeInfo → Option EdgeInfo
  without_memory_edge none = none
  without_memory_edge (some i) =
      if is_set i && is_set (memory_part i)
      then (if is_set (without_memory i) then some (without_memory i) else none)
      else some i

  -- An edge, or the hazard where there is none.
  abbrev hazard_edge : EdgeInfo → Option EdgeInfo → Option EdgeInfo
  hazard_edge hazard none = if is_set hazard then some hazard else none
  hazard_edge hazard (some i) = some i

  -- What becomes of the edge that a dependence stands for.
  abbrev pub edited_edge :
      IteratorVarianceValue → IteratorVarianceValue → EdgeInfo → Option EdgeInfo → Option EdgeInfo
  edited_edge src_iv dst_iv hazard o =
      if is_unknown src_iv || is_unknown dst_iv
      then o
      else if is_variant src_iv || is_variant dst_iv
      then without_memory_edge o
      else hazard_edge hazard o

  variant_edited :
      (g h : Graph) (s d : ℕ)
      → get_edge_info h s d ≡ get_edge_info g s d
      → get_edge_info (perform_first dg laws (create_variant dg g s d) h) s d
        ≡ without_memory_edge (get_edge_info g s d)
  unfolding create_variant create_update create_disconnect perform_update
  variant_edited g h s d same = elim (Option-cases (get_edge_info g s d)) [
    | inl e ↦ rw (e, create_variant) (same ∙ e)
    | inr (info, e) ↦
        let there : get_edge_info h s d ≡ some info = same ∙ e in
        elim (Bool-cases (is_set info && is_set (memory_part info))) [
          | inr m ↦ rw (e, m, create_variant) there
          | inl m ↦ elim (Bool-cases (is_set (without_memory info))) [
            | inl w ↦
                rw (e, m, w, create_variant)
                  (ground (
                    arith,
                    laws.set_edge h s d s d (without_memory info) (λ n. let no : ⊥ = cc in no),
                    ==_refl s,
                    ==_refl d,
                  ))
            | inr w ↦
                rw (e, m, w, create_variant)
                  (ground (arith, laws.remove_edge h s d s d, ==_refl s, ==_refl d))
          ]
        ]
  ]

  invariant_edited :
      (g h : Graph) (src dst : ℕ)
      → get_edge_info h (get_node src) (get_node dst)
        ≡ get_edge_info g (get_node src) (get_node dst)
      → get_edge_info
          (perform_first dg laws (create_invariant dg g src dst) h)
          (get_node src)
          (get_node dst)
        ≡ hazard_edge (determine_hazard src dst) (get_edge_info g (get_node src) (get_node dst))
  unfolding create_invariant create_connect perform_update
  invariant_edited g h src dst same =
      let s = get_node src in
      let d = get_node dst in
      let hazard = determine_hazard src dst in
      elim (Bool-cases (has_edge_with g s d)) [
        | inl b ↦ elim (Option-cases (get_edge_info g s d)) [
          | inl q ↦ absurd (present.has_edge g s d b q)
          | inr (i, q) ↦ rw (b, q, create_invariant) (same ∙ q)
        ]
        | inr b ↦
            let q : get_edge_info g s d ≡ none = laws.has_edge g s d b in
            elim (Bool-cases (is_set hazard)) [
              | inl z ↦
                  rw (b, q, z, create_invariant)
                    (ground
                      (arith, laws.add_edge h s d s d hazard (same ∙ q), ==_refl s, ==_refl d))
              | inr z ↦ rw (b, q, z, create_invariant) (same ∙ q)
            ]
      ]

  invariant_else :
      (a b : IteratorVarianceValue)
      → is_unknown a || is_unknown b ≡ false
      → is_variant a || is_variant b ≡ false
      → is_invariant a || is_invariant b ≡ true
  invariant_else unknown b h k = cc
  invariant_else invariant b h k = refl
  invariant_else variant b h k = cc

  first-edited :
      (g h : Graph) (src_iv dst_iv : IteratorVarianceValue) (src dst : ℕ)
      → get_edge_info h (get_node src) (get_node dst)
        ≡ get_edge_info g (get_node src) (get_node dst)
      → get_edge_info
          (perform_first dg laws (create_for dg g src_iv dst_iv src dst) h)
          (get_node src)
          (get_node dst)
        ≡ edited_edge src_iv dst_iv
            (determine_hazard src dst)
            (get_edge_info g (get_node src) (get_node dst))
  unfolding create_for perform_update
  first-edited g h src_iv dst_iv src dst same =
      elim (Bool-cases (is_unknown src_iv || is_unknown dst_iv)) [
        | inl e ↦ rw (e, create_for) same
        | inr e ↦ elim (Bool-cases (is_variant src_iv || is_variant dst_iv)) [
          | inl v ↦ rw (e, v, create_for) (variant_edited g h (get_node src) (get_node dst) same)
          | inr v ↦
              rw (e, v, invariant_else src_iv dst_iv e v, create_for)
                (invariant_edited g h src dst same)
        ]
      ]

  -- For dependences that stand for edges apart from each other, where the operations of the dependence
  -- graph do to its edges as documented, and the cache agrees with the variance analysis: once the
  -- edits made for them are executed, the edge of each dependence is what it was, if the variance of an
  -- end is unknown; what is left of it without its memory flags, if an end is variant; and otherwise
  -- what it was, or the hazard between the ends, where there was no edge. Every other edge is what it
  -- was.
  pub execute_all-edited :
      (get_variance : ℕ → IteratorVarianceValue)
      → (g : Graph) (cache : VarianceCache) (deps : List (ℕ × ℕ)) → is_apart dg deps ≡ true
      → IsConsistent get_variance cache
      → ((src dst : ℕ)
          → (src, dst) ∈ deps
          → get_edge_info
              (execute_all dg (make_actions dg get_variance g cache deps).0 g)
              (get_node src)
              (get_node dst)
            ≡ edited_edge
                (get_variance src)
                (get_variance dst)
                (determine_hazard src dst)
                (get_edge_info g (get_node src) (get_node dst)))
        × ((x y : ℕ)
            → is_fresh dg x y deps ≡ true
            → get_edge_info (execute_all dg (make_actions dg get_variance g cache deps).0 g) x y
              ≡ get_edge_info g x y)
  execute_all-edited get_variance g cache deps apart ok =
      let agrees = Agrees-self dg laws deps g in
      (
        λ src dst m.
            edges-first dg laws get_variance g cache deps g (src, dst)
              (λ dep o.
                o
                ≡ edited_edge (get_variance dep.0) (get_variance dep.1)
                    (determine_hazard dep.0 dep.1)
                    (get_edge_info g (get_node dep.0) (get_node dep.1)))
              (λ k same. first-edited g k (get_variance src) (get_variance dst) src dst same) apart
              agrees ok m,
        λ x y fresh. unchanged dg laws get_variance g cache deps g x y fresh apart agrees,
      )
