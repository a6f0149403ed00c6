-- ===== src/Variance/Search.antt =====
-- include/IteratorRecognition/Analysis/IteratorValueTracking.hpp: getVariance, which follows a value's
-- operands to the instructions of the iterator.
pub mod Visits
pub mod Roles
pub mod Follows
pub mod Exact
mod Examples
use iterator_recognition.Prelude.{
  ℕ, zero, suc, ◌+◌, ◌-◌, ◌≤◌, ◌<◌, ◌≡◌, refl, sym, ap, ◌∙◌, subst, ◌≢◌, ◌↔◌, ◌⊎◌, inl, inr, Bool,
  true, false, not, ◌&&◌, ◌||◌, Option, none, some, List, [], ◌∷◌, ◌++◌, map, arith, ltb, leb, ◌==◌,
  if◌then◌else◌, ==_iff, ==_refl, Bool-cases, &&_iff, ||_iff, not_iff, Bool-ext, Option-cases,
  length, ◌∈◌, ∈-append, any, all, filter, find?, is_empty, any_intro, any_elim, any_iff, all_elim,
  all_intro, all_iff, ∈-filter, find?_elim, find?-none, ∈-map, flat_map, ∈-flat_map, contains,
  contains_iff, sort, unique, IsSorted, IsAscending, ∈-sort, sort-IsSorted, ∈-unique,
  unique-IsAscending, Above-lt, IsAscending-ext, insert, insert_all, erase, ∈-insert, ∈-insert_all,
  ∈-erase, IsDistinct,
}
use iterator_recognition.Ir.{
  Ir, LoopInfo, ValueKind, Opcode, constant, argument, unhandled, instruction, load, store, select,
  phi, binary_operator, cmp, cast, get_element_ptr, call, alloca, other,
}
use iterator_recognition.Recognition.{IteratorInfo, is_iterator}
use iterator_recognition.Variance.{
  IteratorVarianceValue, unknown, invariant, variant, is_variant, merge_in,
}
use iterator_recognition.Worklist.{
  Action, stop, go, small_vector, push_back_all, nothing_skipped, loop,
}

-- The operands that the search goes on to from an instruction.
unfoldable pub followed_operands : Ir → Opcode → ℕ → List ℕ
followed_operands ir load v = ir.pointer_operand v ∷ []
followed_operands ir store v = ir.pointer_operand v ∷ []
followed_operands ir select v = ir.operand v 1 ∷ ir.operand v 2 ∷ []
followed_operands ir phi v = ir.incoming_values v
followed_operands ir binary_operator v = ir.operands v
followed_operands ir cast v = ir.operands v
followed_operands ir get_element_ptr v = ir.pointer_operand v ∷ ir.indices v
followed_operands ir cmp v = []
followed_operands ir call v = []
followed_operands ir alloca v = []
followed_operands ir other v = []

-- What the search does at a value: it merges a variance in and goes on, it gives up, or it goes on to
-- the operands.
pub data Role : Type 0 where
  leaf iterator given_up inner : Role

module _ (ir : Ir) (loop_info : LoopInfo) (info : IteratorInfo) where
  unfoldable pub role : ℕ → Role
  unfolding is_iterator
  role v = elim (ir.kind v) [
    | constant ↦ leaf
    | argument ↦ leaf
    | unhandled ↦ given_up
    | instruction o ↦
        if not (loop_info.contains_inst info.cur_loop v)
        then leaf
        else if is_iterator info v
        then iterator
        else inner
  ]

  unfoldable pub next : ℕ → List ℕ
  unfolding role followed_operands
  next v = elim (role v) [
    | inner ↦ elim (ir.kind v) [
      | instruction o ↦ followed_operands ir o v
      | constant ↦ []
      | argument ↦ []
      | unhandled ↦ []
    ]
    | leaf ↦ []
    | iterator ↦ []
    | given_up ↦ []
  ]

  unfoldable pub visit : ℕ → IteratorVarianceValue → Action IteratorVarianceValue
  unfolding role merge_in
  visit v status = if is_variant status then stop status else elim (role v) [
    | leaf ↦ go (merge_in status invariant).0
    | given_up ↦ stop (merge_in status unknown).0
    | iterator ↦ go (merge_in status variant).0
    | inner ↦ go status
  ]

  unfoldable pub get_variance : ℕ → ℕ → Option IteratorVarianceValue
  unfolding loop push_back_all next visit
  get_variance fuel query =
      loop small_vector nothing_skipped next visit fuel (query ∷ []) [] unknown
