-- ===== src/DependenceCache/Bounds.antt =====
-- How many entries a calculation records.
use iterator_recognition.Prelude.{
  ℕ, ◌+◌, ◌≤◌, ◌≡◌, refl, inl, inr, Bool, false, ◌||◌, List, [], ◌∷◌, ◌++◌, arith, ==_iff,
  Bool-cases, length, any,
}
use Prim.Native.Nat.{◌*◌}
use iterator_recognition.DependenceCache.{
  AliasAnalysis, Entry, DependenceCache, has_key, insert_dependence, is_dependence,
  record_dependence, record_after, record_pairs, calculate,
}

module _ (aa : AliasAnalysis) where
  open aa use {ModRefInfo, get_mod_ref_info}

  -- No key twice.
  abbrev pub IsKeyed : List (Entry aa) → Type 0
  IsKeyed [] = Unit
  IsKeyed (e ∷ es) = (any (has_key aa e.0.0 e.0.1) es ≡ false) × IsKeyed es

  length-snoc : (es : List (Entry aa)) (e : Entry aa) → length (es ++ e ∷ []) ≡ length es + 1
  length-snoc [] e = refl
  length-snoc (x ∷ es) e = omega (arith, length-snoc es e)

  any-snoc :
      (p : Entry aa → Bool) (es : List (Entry aa)) (e : Entry aa)
      → any p (es ++ e ∷ []) ≡ (any p es || p e)
  any-snoc p [] e = ground arith
  any-snoc p (x ∷ es) e = ground (arith, any-snoc p es e)

  snoc-IsKeyed :
      (es : List (Entry aa)) (e : Entry aa)
      → IsKeyed es
      → any (has_key aa e.0.0 e.0.1) es ≡ false
      → IsKeyed (es ++ e ∷ [])
  snoc-IsKeyed [] e k h = (refl, tt)
  snoc-IsKeyed (x ∷ es) e k h = (
    ground (
      arith,
      any-snoc (has_key aa x.0.0 x.0.1) es e,
      k.0,
      ==_iff e.0.0 x.0.0,
      ==_iff x.0.0 e.0.0,
      ==_iff e.0.1 x.0.1,
      ==_iff x.0.1 e.0.1,
    ),
    snoc-IsKeyed es e k.1 (ground arith),
  )

  insert_dependence-bounds :
      (i1 i2 : ℕ) (d : ModRefInfo) (es : List (Entry aa))
      → IsKeyed es
      → IsKeyed (insert_dependence aa i1 i2 d es)
        × (length (insert_dependence aa i1 i2 d es) ≤ length es + 1)
  unfolding insert_dependence
  insert_dependence-bounds i1 i2 d es k = elim (Bool-cases (any (has_key aa i1 i2) es)) [
    | inl old ↦ rw old (k, omega arith)
    | inr new ↦
        let e : Entry aa = ((i1, i2), d) in
        rw new (snoc-IsKeyed es e k new, omega (arith, length-snoc es e))
  ]

  record_after-bounds :
      (i1 : ℕ) (rest : List ℕ) (c : DependenceCache aa)
      → IsKeyed c.dependences
      → IsKeyed (record_after aa i1 rest c).dependences
        × (length (record_after aa i1 rest c).dependences ≤ length c.dependences + length rest)
  unfolding record_after record_dependence
  record_after-bounds i1 [] c k = (k, omega arith)
  record_after-bounds i1 (i2 ∷ rest) c k = elim (Bool-cases (is_dependence aa i1 i2)) [
    | inl q ↦
        let (first, le) = insert_dependence-bounds i1 i2 (get_mod_ref_info i2 i1) c.dependences k in
        let (ih, le') = record_after-bounds i1 rest (record_dependence aa i1 i2 c) first in
        rw (q, record_after) (ih, omega arith)
    | inr q ↦
        let (ih, le) = record_after-bounds i1 rest c k in rw (q, record_after) (ih, omega arith)
  ]

  record_pairs-bounds :
      (insts : List ℕ) (c : DependenceCache aa)
      → IsKeyed c.dependences
      → IsKeyed (record_pairs aa insts c).dependences
        × (2 * length (record_pairs aa insts c).dependences + length insts
            ≤ 2 * length c.dependences + length insts * length insts)
  unfolding record_pairs
  record_pairs-bounds [] c k = (k, omega arith)
  record_pairs-bounds (i1 ∷ rest) c k =
      let (mid, le) = record_after-bounds i1 rest c k in
      let (end, le') = record_pairs-bounds rest (record_after aa i1 rest c) mid in
      (end, omega arith)

  -- A calculation records each ordered pair at most once, and no more pairs than the n instructions
  -- have: at most n (n - 1) / 2.
  pub calculate-IsKeyed-length :
      (insts : List ℕ) (c : DependenceCache aa)
      → IsKeyed (calculate aa insts c).dependences
        × (2 * length (calculate aa insts c).dependences + length insts
            ≤ length insts * length insts)
  unfolding calculate
  calculate-IsKeyed-length insts c =
      let (keyed, le) = record_pairs-bounds insts (record c { dependences = [] }) tt in
      (keyed, omega arith)
