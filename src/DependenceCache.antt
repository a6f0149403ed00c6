-- ===== src/DependenceCache.antt =====
-- include/IteratorRecognition/Analysis/DependenceCache.hpp: the pairs of instructions between which
-- the alias analysis sees a dependence through memory.
pub mod Pairs
pub mod Lookup
pub mod Distinct
pub mod Bounds
mod Examples
use iterator_recognition.Prelude.{
  contains, ℕ, zero, suc, ◌+◌, ◌-◌, ◌≤◌, ◌<◌, ◌≡◌, refl, sym, ap, ◌∙◌, subst, ◌≢◌, ◌↔◌, ◌⊎◌, inl,
  inr, Bool, true, false, not, ◌&&◌, ◌||◌, Option, none, some, List, [], ◌∷◌, ◌++◌, map, arith, ltb,
  leb, ◌==◌, if◌then◌else◌, ==_iff, ==_refl, Bool-cases, &&_iff, ||_iff, not_iff, Bool-ext,
  Option-cases, length, ◌∈◌, ∈-append, any, all, filter, find?, is_empty, any_intro, any_elim,
  any_iff, all_elim, all_intro, all_iff, ∈-filter, find?_elim, find?-none, ∈-map, flat_map,
  ∈-flat_map, contains, contains_iff, sort, unique, IsSorted, IsAscending, ∈-sort, sort-IsSorted,
  ∈-unique, unique-IsAscending, Above-lt, IsAscending-ext, insert, insert_all, erase, ∈-insert,
  ∈-insert_all, ∈-erase, IsDistinct,
}

-- What the cache asks of LLVM: the effect of an instruction, the first, on the location that another
-- one, the second, accesses; and the two tests on an effect.
pub record AliasAnalysis : Type 1 where
  pub ModRefInfo : Type 0
  pub get_mod_ref_info : ℕ → ℕ → ModRefInfo
  pub is_mod_set : ModRefInfo → Bool
  pub is_no_mod_ref : ModRefInfo → Bool

module _ (aa : AliasAnalysis) where
  open aa use {ModRefInfo, get_mod_ref_info, is_mod_set, is_no_mod_ref}

  -- The entries of the map vector, in the order of insertion.
  abbrev pub Entry : Type 0
  Entry = (ℕ × ℕ) × ModRefInfo

  pub record DependenceCache : Type 0 where
    pub dependences : List Entry
    pub distinct_instructions : List ℕ

  abbrev pub has_key : ℕ → ℕ → Entry → Bool
  has_key a b e = e.0.0 == a && e.0.1 == b

  -- `Dependences.insert`, which keeps an entry that is there.
  unfoldable pub insert_dependence : ℕ → ℕ → ModRefInfo → List Entry → List Entry
  insert_dependence a b d es = if any (has_key a b) es then es else es ++ ((a, b), d) ∷ []

  unfoldable pub is_dependence : ℕ → ℕ → Bool
  is_dependence i1 i2 =
      is_mod_set (get_mod_ref_info i2 i1) && not (is_no_mod_ref (get_mod_ref_info i1 i2))

  unfoldable pub record_dependence : ℕ → ℕ → DependenceCache → DependenceCache
  unfolding insert_dependence insert
  record_dependence i1 i2 c = record {
    dependences = insert_dependence i1 i2 (get_mod_ref_info i2 i1) c.dependences;
    distinct_instructions = insert i2 (insert i1 c.distinct_instructions);
  }

  -- The inner loop.
  unfoldable pub record_after : ℕ → List ℕ → DependenceCache → DependenceCache
  unfolding is_dependence record_dependence
  record_after i1 [] c = c
  record_after i1 (i2 ∷ rest) c =
      record_after i1 rest (if is_dependence i1 i2 then record_dependence i1 i2 c else c)

  -- The outer loop.
  unfoldable pub record_pairs : List ℕ → DependenceCache → DependenceCache
  unfolding record_after
  record_pairs [] c = c
  record_pairs (i1 ∷ rest) c = record_pairs rest (record_after i1 rest c)

  -- `calculate`, which clears the dependences and not the distinct instructions.
  unfoldable pub calculate : List ℕ → DependenceCache → DependenceCache
  unfolding record_pairs
  calculate insts c = record_pairs insts (record c { dependences = [] })

  unfoldable pub get_data : DependenceCache → ℕ → ℕ → Option Entry
  get_data c i1 i2 = find? (has_key i1 i2) c.dependences

  -- `contains`
  unfoldable pub contains_instruction : DependenceCache → ℕ → Bool
  contains_instruction c i = contains c.distinct_instructions i
