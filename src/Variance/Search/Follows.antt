-- ===== src/Variance/Search/Follows.antt =====
-- The operands that the search goes on to, class by class.
use iterator_recognition.Prelude.{ℕ, ◌≡◌, refl, subst, ◌↔◌, ◌⊎◌, inl, inr, arith, ◌∈◌}
use iterator_recognition.Ir.{
  Ir, LoopInfo, Opcode, load, store, select, phi, binary_operator, cast, get_element_ptr,
}
use iterator_recognition.Recognition.{IteratorInfo}
use iterator_recognition.Variance.Search.{
  Role, leaf, iterator, given_up, inner, role, followed_operands, next,
}
use iterator_recognition.Variance.Search.Roles.{IsInner, role-inner}

module _ (ir : Ir) (loop_info : LoopInfo) (info : IteratorInfo) where
  -- An instruction of the loop outside its iterator is made from the pointer of a load or a store, the
  -- two values that a select chooses from, the incoming values of a phi, the operands of a binary
  -- operator or a cast, and the pointer and the indices of an address computation.
  abbrev pub IsMadeFrom : ℕ → ℕ → Type 0
  IsMadeFrom v w =
      ((IsInner ir loop_info info load v ⊎ IsInner ir loop_info info store v)
        × (w ≡ ir.pointer_operand v))
      ⊎ (IsInner ir loop_info info select v × ((w ≡ ir.operand v 1) ⊎ (w ≡ ir.operand v 2)))
      ⊎ (IsInner ir loop_info info phi v × (w ∈ ir.incoming_values v))
      ⊎ ((IsInner ir loop_info info binary_operator v ⊎ IsInner ir loop_info info cast v)
          × (w ∈ ir.operands v))
      ⊎ (IsInner ir loop_info info get_element_ptr v
          × ((w ≡ ir.pointer_operand v) ⊎ (w ∈ ir.indices v)))

  -- The same by the class of the instruction.
  abbrev MadeBy : Opcode → ℕ → ℕ → Type 0
  MadeBy o v w =
      (((o ≡ load) ⊎ (o ≡ store)) × (w ≡ ir.pointer_operand v))
      ⊎ ((o ≡ select) × ((w ≡ ir.operand v 1) ⊎ (w ≡ ir.operand v 2)))
      ⊎ ((o ≡ phi) × (w ∈ ir.incoming_values v))
      ⊎ (((o ≡ binary_operator) ⊎ (o ≡ cast)) × (w ∈ ir.operands v))
      ⊎ ((o ≡ get_element_ptr) × ((w ≡ ir.pointer_operand v) ⊎ (w ∈ ir.indices v)))

  followed_operands-MadeBy : (o : Opcode) (v w : ℕ) → w ∈ followed_operands ir o v ↔ MadeBy o v w
  unfolding followed_operands
  followed_operands-MadeBy load v w = ground arith
  followed_operands-MadeBy o v w = ground arith

  ∈-next-inner :
      (o : Opcode) (v w : ℕ)
      → IsInner ir loop_info info o v
      → w ∈ next ir loop_info info v ↔ w ∈ followed_operands ir o v
  unfolding next
  ∈-next-inner o v w h =
      let e = (role-inner ir loop_info info v).1 (o, h) in
      rw (e, next) (rw (h.0, next) (λ m. m, λ m. m))

  MadeBy-IsMadeFrom :
      (o : Opcode) (v w : ℕ) → IsInner ir loop_info info o v → MadeBy o v w → IsMadeFrom v w
  MadeBy-IsMadeFrom o v w h d =
      let at : (k : Opcode) → o ≡ k → IsInner ir loop_info info k v =
        λ k q. subst (λ c. IsInner ir loop_info info c v) q h in
      elim d [
        | inl (inl q, e) ↦ inl (inl (at _ q), e)
        | inl (inr q, e) ↦ inl (inr (at _ q), e)
        | inr (inl (q, e)) ↦ inr (inl (at _ q, e))
        | inr (inr (inl (q, m))) ↦ inr (inr (inl (at _ q, m)))
        | inr (inr (inr (inl (inl q, m)))) ↦ inr (inr (inr (inl (inl (at _ q), m))))
        | inr (inr (inr (inl (inr q, m)))) ↦ inr (inr (inr (inl (inr (at _ q), m))))
        | inr (inr (inr (inr (q, m)))) ↦ inr (inr (inr (inr (at _ q, m))))
      ]

  IsMadeFrom-MadeBy :
      (v w : ℕ) → IsMadeFrom v w → (o : Opcode) × IsInner ir loop_info info o v × MadeBy o v w
  IsMadeFrom-MadeBy v w d = elim d [
    | inl (inl h, e) ↦ (load, h, inl (inl refl, e))
    | inl (inr h, e) ↦ (store, h, inl (inr refl, e))
    | inr (inl (h, e)) ↦ (select, h, inr (inl (refl, e)))
    | inr (inr (inl (h, m))) ↦ (phi, h, inr (inr (inl (refl, m))))
    | inr (inr (inr (inl (inl h, m)))) ↦ (binary_operator, h, inr (inr (inr (inl (inl refl, m)))))
    | inr (inr (inr (inl (inr h, m)))) ↦ (cast, h, inr (inr (inr (inl (inr refl, m)))))
    | inr (inr (inr (inr (h, m)))) ↦ (get_element_ptr, h, inr (inr (inr (inr (refl, m)))))
  ]

  next-role :
      (r : Role) (v w : ℕ) → role ir loop_info info v ≡ r → w ∈ next ir loop_info info v → r ≡ inner
  unfolding next
  next-role inner v w e m = refl
  next-role leaf v w e m = absurd (rw (e, next) at m)
  next-role iterator v w e m = absurd (rw (e, next) at m)
  next-role given_up v w e m = absurd (rw (e, next) at m)

  pub ∈-next : (v w : ℕ) → w ∈ next ir loop_info info v ↔ IsMadeFrom v w
  ∈-next v w = (
    λ m.
        let e = next-role (role ir loop_info info v) v w refl m in
        let (o, h) = (role-inner ir loop_info info v).0 e in
        MadeBy-IsMadeFrom o v w h ((followed_operands-MadeBy o v w).0 ((∈-next-inner o v w h).0 m)),
    λ d.
        let (o, h, by) = IsMadeFrom-MadeBy v w d in
        (∈-next-inner o v w h).1 ((followed_operands-MadeBy o v w).1 by),
  )
