-- ===== src/DependenceCache/Examples.antt =====
-- The dependences of three instructions, of which the second writes what the others access.
use iterator_recognition.Prelude.{
  ℕ, ◌+◌, ◌≤◌, ◌≡◌, refl, ◌↔◌, ◌⊎◌, Bool, true, not, ◌||◌, some, List, [], ◌∷◌, ◌==◌, length, ◌∈◌,
}
use Prim.Native.Nat.{◌*◌}
use iterator_recognition.DependenceCache.{AliasAnalysis, DependenceCache, calculate, get_data}
use iterator_recognition.DependenceCache.Bounds.{IsKeyed, calculate-IsKeyed-length}
use iterator_recognition.DependenceCache.Lookup.{IsRecorded, get_data-calculate}
use iterator_recognition.DependenceCache.Distinct.{IsEnd, ∈-calculate-distinct_instructions}

-- An effect is whether it modifies and whether it refers; instruction 2 modifies, all refer.
abbrev effects : AliasAnalysis
effects = record {
  ModRefInfo = Bool × Bool;
  get_mod_ref_info = λ i j. (i == 2, true);
  is_mod_set = λ m. m.0;
  is_no_mod_ref = λ m. not (m.0 || m.1);
}

abbrev insts : List ℕ
insts = 1 ∷ 2 ∷ 3 ∷ []

-- A cache with an older calculation's entry.
abbrev old : DependenceCache effects
old = record { dependences = ((7, 8), (true, true)) ∷ []; distinct_instructions = 7 ∷ 8 ∷ [] }

recorded : (calculate effects insts old).dependences ≡ ((1, 2), (true, true)) ∷ []
unfolding calculate
recorded = refl

-- The older calculation's instructions are still there.
kept : (calculate effects insts old).distinct_instructions ≡ 7 ∷ 8 ∷ 1 ∷ 2 ∷ []
unfolding calculate
kept = refl

get_data-calculate_example :
    (get_data effects (calculate effects insts old) 1 2 ≡ some ((1, 2), (true, true))) ↔ (
      (◌≡◌ {A = (ℕ × ℕ) × (Bool × Bool)} ((1, 2), (true, true)) ((1, 2), (true, true)))
      × IsRecorded effects 1 2 insts)
get_data-calculate_example = get_data-calculate effects 1 2 insts old ((1, 2), (true, true))

∈-calculate-distinct_instructions_example :
    2 ∈ (calculate effects insts old).distinct_instructions
    ↔ (IsEnd effects 2 insts ⊎ (2 ∈ old.distinct_instructions))
∈-calculate-distinct_instructions_example = ∈-calculate-distinct_instructions effects 2 insts old

calculate-IsKeyed-length_example :
    IsKeyed effects (calculate effects insts old).dependences
    × (2 * length (calculate effects insts old).dependences + length insts
        ≤ length insts * length insts)
calculate-IsKeyed-length_example = calculate-IsKeyed-length effects insts old
