-- ===== src/Variance/Search/Roles.antt =====
-- The roles that the search gives to values, in terms of the loop and its iterator.
use iterator_recognition.Prelude.{
  ℕ, ◌≡◌, refl, ◌↔◌, ◌⊎◌, inl, inr, true, false, arith, ◌∈◌, contains_iff,
}
use iterator_recognition.Ir.{
  Ir, LoopInfo, is_inst, ValueKind, constant, argument, unhandled, instruction, Opcode,
}
use iterator_recognition.Recognition.{IteratorInfo, is_iterator}
use iterator_recognition.Variance.Search.{leaf, iterator, given_up, inner, role}

pub ValueKind-cases :
    (k : ValueKind)
    → (k ≡ constant) ⊎ (k ≡ argument) ⊎ (k ≡ unhandled) ⊎ ((o : Opcode) × (k ≡ instruction o))
ValueKind-cases constant = inl refl
ValueKind-cases argument = inr (inl refl)
ValueKind-cases unhandled = inr (inr (inl refl))
ValueKind-cases (instruction o) = inr (inr (inr (o, refl)))

module _ (ir : Ir) (loop_info : LoopInfo) (info : IteratorInfo) where
  -- An instruction of the loop's iterator.
  abbrev pub IsInIterator : ℕ → Type 0
  IsInIterator v =
      (is_inst ir v ≡ true)
      × (loop_info.contains_inst info.cur_loop v ≡ true)
      × (v ∈ info.cur_instructions)

  -- A constant, an argument, or an instruction outside the loop.
  abbrev pub IsOutside : ℕ → Type 0
  IsOutside v =
      (ir.kind v ≡ constant)
      ⊎ (ir.kind v ≡ argument)
      ⊎ ((is_inst ir v ≡ true) × (loop_info.contains_inst info.cur_loop v ≡ false))

  pub role-iterator : (v : ℕ) → (role ir loop_info info v ≡ iterator) ↔ IsInIterator v
  unfolding role is_iterator
  role-iterator v =
      ground (arith, ValueKind-cases (ir.kind v), contains_iff info.cur_instructions v)

  pub role-leaf : (v : ℕ) → (role ir loop_info info v ≡ leaf) ↔ IsOutside v
  unfolding role
  role-leaf v = ground (arith, ValueKind-cases (ir.kind v))

  pub role-given_up : (v : ℕ) → (role ir loop_info info v ≡ given_up) ↔ (ir.kind v ≡ unhandled)
  unfolding role
  role-given_up v = ground (arith, ValueKind-cases (ir.kind v))

  -- An instruction of the loop outside its iterator, of the class `o`.
  abbrev pub IsInner : Opcode → ℕ → Type 0
  IsInner o v =
      (ir.kind v ≡ instruction o)
      × (loop_info.contains_inst info.cur_loop v ≡ true)
      × ¬ (v ∈ info.cur_instructions)

  pub role-inner : (v : ℕ) → (role ir loop_info info v ≡ inner) ↔ ((o : Opcode) × IsInner o v)
  unfolding role is_iterator
  role-inner v =
      let held = contains_iff info.cur_instructions v in
      (
        λ h. elim (ValueKind-cases (ir.kind v)) [
          | inl e ↦ absurd (ground arith)
          | inr (inl e) ↦ absurd (ground arith)
          | inr (inr (inl e)) ↦ absurd (ground arith)
          | inr (inr (inr (o, e))) ↦ (o, (e, ground arith, ground (arith, held)))
        ],
        λ (o, (e, inside, free)). ground (arith, held),
      )
