-- ===== src/Commutativity.antt =====
-- include/IteratorRecognition/Analysis/StaticCommutativityAnalyzer.hpp: do the updates that a loop
-- makes to memory and registers commute?
pub mod Verdict
mod Examples
use iterator_recognition.Prelude.{
  ℕ, zero, suc, ◌+◌, ◌-◌, ◌≤◌, ◌<◌, ◌≡◌, refl, sym, ap, ◌∙◌, subst, ◌≢◌, ◌↔◌, ◌⊎◌, inl, inr, Bool,
  true, false, not, ◌&&◌, ◌||◌, Option, none, some, List, [], ◌∷◌, ◌++◌, map, arith, ltb, leb, ◌==◌,
  if◌then◌else◌, ==_iff, ==_refl, Bool-cases, &&_iff, ||_iff, not_iff, Bool-ext, Option-cases,
  length, ◌∈◌, ∈-append, any, all, filter, find?, is_empty, any_intro, any_elim, any_iff, all_elim,
  all_intro, all_iff, ∈-filter, find?_elim, find?-none, ∈-map, flat_map, ∈-flat_map, contains,
  contains_iff, sort, unique, IsSorted, IsAscending, ∈-sort, sort-IsSorted, ∈-unique,
  unique-IsAscending, Above-lt, IsAscending-ext, insert, insert_all, erase, ∈-insert, ∈-insert_all,
  ∈-erase, IsDistinct,
}
use iterator_recognition.Ir.{Ir}
use iterator_recognition.Variance.{
  IteratorVarianceValue, is_variant, is_invariant, VarianceCache, get_or_insert_variance,
}

-- include/IteratorRecognition/Analysis/DetectOperations.hpp
pub record LoadModifyStore : Type 0 where
  pub target : ℕ
  pub sources : List ℕ
  pub operations : List ℕ

unfoldable pub is_commutative : Ir → ℕ → Bool
is_commutative ir i = ir.is_binary_op i || ir.is_unary_instruction i

-- The remarks, each for the text that the source puts into `usedMessages`.
pub data Message : Type 0 where
  due_to_empty_sources : Message
  due_to_iterator_variance : Message
  due_to_operations : Message
  not_due_to_operations : Message
  due_to_unhandled_case : Message

abbrev pub same_message : Message → Message → Bool
same_message due_to_empty_sources due_to_empty_sources = true
same_message due_to_iterator_variance due_to_iterator_variance = true
same_message due_to_operations due_to_operations = true
same_message not_due_to_operations not_due_to_operations = true
same_message due_to_unhandled_case due_to_unhandled_case = true
same_message _ _ = false

unfoldable pub insert_message : Message → List Message → List Message
insert_message m ms = if any (same_message m) ms then ms else m ∷ ms

-- The variables of `analyze`, and the cache of the variance analysis that it calls.
pub record Progress : Type 0 where
  pub has_commutative_ops : Bool
  pub stop_processing : Bool
  pub used_messages : List Message
  pub cache : VarianceCache

module _ (ir : Ir) (get_variance : ℕ → IteratorVarianceValue) where
  -- The loop over the sources of one update; a branch that does not go on is a `break`.
  unfoldable pub analyze_sources : IteratorVarianceValue → List ℕ → List ℕ → Progress → Progress
  unfolding is_commutative insert_message get_or_insert_variance
  analyze_sources res1 operations [] s = s
  analyze_sources res1 operations (src ∷ rest) s =
      let (res2, cache) = get_or_insert_variance get_variance s.cache src in
      let on_variance = analyze_sources res1 operations rest (record s {
        has_commutative_ops = true;
        used_messages = insert_message due_to_iterator_variance s.used_messages;
        cache = cache;
      }) in
      let on_operations = analyze_sources res1 operations rest (record s {
        has_commutative_ops = true;
        used_messages = insert_message due_to_operations s.used_messages;
        cache = cache;
      }) in
      if is_invariant res1 && is_invariant res2
      then on_variance
      else if is_variant res1 || is_variant res2
      then (if all (is_commutative ir) operations then on_operations else record {
        has_commutative_ops = false;
        stop_processing = true;
        used_messages = insert_message not_due_to_operations s.used_messages;
        cache = cache;
      })
      else record {
        has_commutative_ops = false;
        stop_processing = true;
        used_messages = insert_message due_to_unhandled_case s.used_messages;
        cache = cache;
      }

  -- The loop over the updates.
  unfoldable pub analyze_all : List LoadModifyStore → Progress → Progress
  unfolding analyze_sources
  analyze_all [] s = s
  analyze_all (lms ∷ rest) s =
      let (res1, cache) = get_or_insert_variance get_variance s.cache lms.target in
      let next =
        analyze_all rest
          (analyze_sources res1 lms.operations lms.sources (record s { cache = cache })) in
      if s.stop_processing || is_empty lms.sources
      then record s {
        has_commutative_ops = false;
        used_messages = insert_message due_to_empty_sources s.used_messages;
      }
      else next

  -- The verdict, the remarks, and the cache that is left.
  unfoldable pub analyze : List LoadModifyStore → VarianceCache → Progress
  unfolding analyze_all
  analyze lms cache = analyze_all lms (record {
    has_commutative_ops = false;
    stop_processing = false;
    used_messages = [];
    cache = cache;
  })
