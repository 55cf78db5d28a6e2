-- ===== src/Divergence/Sound.antt =====
-- src/CLSmith/Divergence.cpp: what the analysis calls convergent is the same in all threads, for
-- expressions whose assignments have a single target.
use clsmith.Prelude.{
  ℕ, suc, ◌≡◌, Bool, true, false, ◌&&◌, ◌||◌, Option, none, some, [], ◌∷◌, if◌then◌else◌, ltb,
  ==_iff, arith, &&_elim, ◌⊎◌, inl, inr, not, Bool-cases,
}
use clsmith.Variables.{Variable, Store}
use clsmith.Divergence.{State}
use clsmith.Divergence.Expressions.{
  Expr, constant, variable, address_of, assignment, comma, unary, binary, cl_expression,
  indirect_level, assign_scalar, assign_pointer, is_expression_divergent,
  get_expression_variable_references, is_ordered,
}
use clsmith.Divergence.Ensures.{
  Ensures, Ensures-bind, Ensures-last, Ensures-fail, Ensures-if, Ensures-weaken, Ensures-keep,
}
use clsmith.Divergence.Targets.{
  Reached, dereference_pointer_variable_lem, Covers, any_divergent_lem,
}
use clsmith.Divergence.Threads.{Machine}
use clsmith.Divergence.Operands.{
  comma_operands, binary_operands, ordered_operand, is_plain, has_plain_operands, plain-Ensures,
  ordered-SameValue,
}
use clsmith.Divergence.Values.{
  variable-SameValue, constant-SameValue, address-SameValue, cl_expression-SameValue,
  comma-SameValue, comma-SameReferences, unary-SameValue, binary-SameValue, constant-SameReferences,
  address-SameReferences, variable-SameReferences, assignment-SameReferences,
}
use clsmith.Divergence.Assignments.{
  SameValue, SameReferences, has_one_target, single_targets, single_references,
  assign_scalar-SameValue, assign_pointer-SameReferences,
}

-- The condition on the second part, in the state that the first one leaves.
pub next_single :
    (m : Option (Bool × State)) (f : State → Bool) (b d : Bool) (st1 : State)
    → (b && (elim m [ none ↦ true | some (_, st1) ↦ f st1 ])) ≡ true
    → m ≡ some (d, st1)
    → f st1 ≡ true
next_single m f b d st1 h e = let t : (b && f st1) ≡ true = rw e at h in ground (arith, t)

module _ (s : Store) (this : ℕ) (machine : Machine) (own1 own2 : ℕ → ℕ) where
  -- Both branches of `IsAssignmentDivergent`, from the analyses of the right side.
  assignment-SameValue :
      (v : Variable) (n : ℕ) (e : Expr) (st : State)
      → has_one_target s this v n st ≡ true
      → (ltb n (indirect_level s v) ≡ true
          → Ensures
              (get_expression_variable_references s this e)
              st
              (SameReferences s this machine own1 own2 e st))
      → (ltb n (indirect_level s v) ≡ false
          → Ensures (is_expression_divergent s this e) st (SameValue s this machine own1 own2 e st))
      → Ensures
          (if ltb n (indirect_level s v)
            then assign_pointer s this v n (get_expression_variable_references s this e)
            else assign_scalar s this v n (is_expression_divergent s this e))
          st
          (SameValue s this machine own1 own2 (assignment v n e) st)
  assignment-SameValue v n e st one p q =
      Ensures-if (ltb n (indirect_level s v)) _ _ st _
        (λ l. assign_pointer-SameReferences s this machine own1 own2 v n e _ st one (p l))
        (λ l. assign_scalar-SameValue s this machine own1 own2 v n e _ st l one (q l))

  -- What the proof about the operands needs of the second one.
  Operand : ℕ → Expr → State → Bool → State → Type 0
  Operand op b st1 c st2 =
      SameValue s this machine own1 own2 b st1 c st2
      × ((is_ordered op ≡ false) ⊎ ((is_plain b ≡ true) × (st2 ≡ st1)))

  second-Operand :
      (op : ℕ) (b : Expr) (st1 : State)
      → (not (is_ordered op) || is_plain b) ≡ true
      → Ensures (is_expression_divergent s this b) st1 (SameValue s this machine own1 own2 b st1)
      → Ensures (is_expression_divergent s this b) st1 (Operand op b st1)
  unfolding Operand Ensures
  second-Operand op b st1 u h c st2 e = (
    h c st2 e,
    elim (Bool-cases (is_ordered op)) [
      | inl o ↦ let p = ordered_operand op b u o in inr (p, plain-Ensures s this b st1 p c st2 e)
      | inr o ↦ inl o
    ],
  )

  operands :
      (op : ℕ) (a b : Expr) (st st1 st2 : State) (d c : Bool)
      → SameValue s this machine own1 own2 a st d st1
      → Operand op b st1 c st2
      → SameValue s this machine own1 own2 (binary op a b) st (d || c) st2
  unfolding Operand
  operands op a b st st1 st2 d c k (l, inl o) =
      binary-SameValue s this machine own1 own2 op a b st st1 st2 d c o k l
  operands op a b st st1 st2 d c k (l, inr (p, same)) =
      ordered-SameValue s this machine own1 own2 op a b st st1 st2 d c p same k l

  mutual
    unfolding has_plain_operands is_expression_divergent get_expression_variable_references
        single_targets single_references

    pub sound :
        (e : Expr) (st : State)
        → has_plain_operands e ≡ true
        → single_targets s this e st ≡ true
        → Ensures (is_expression_divergent s this e) st (SameValue s this machine own1 own2 e st)
    sound (constant k) st u h =
        Ensures-last (λ _. false) (λ st. st) st _
          (constant-SameValue s this machine own1 own2 k st false)
    sound (variable v n) st u h = variable-SameValue s this machine own1 own2 v n st
    sound (address_of v) st u h =
        Ensures-weaken _ st (λ c st'. Covers s this st (v ∷ []) c × (st' ≡ st)) _
          (any_divergent_lem s this (v ∷ []) st)
          (λ c st' (_, same). rw same (address-SameValue s this machine own1 own2 v st c))
    sound (assignment v n e) st u h =
        assignment-SameValue v n e st (ground (arith, h))
          (λ l. sound_references e st u (ground (arith, h, l)))
          (λ l. sound e st u (ground (arith, h, l)))
    sound (comma a b) st u h =
        Ensures-bind _ _ st _ _
          (Ensures-keep _ st _ (sound a st ((comma_operands a b u).0) ((&&_elim h).0)))
          (λ d st1 (q, k).
            Ensures-weaken _ st1 _ _
              (sound b st1 ((comma_operands a b u).1) (next_single _ _ _ d st1 h q))
              (λ c st2 l. comma-SameValue s this machine own1 own2 a b st st1 st2 d c k l))
    sound (unary op a) st u h =
        Ensures-weaken _ st _ _ (sound a st u h)
          (λ d st1 k. unary-SameValue s this machine own1 own2 op a st st1 d k)
    sound (binary op a b) st u h =
        Ensures-bind _ _ st _ _
          (Ensures-keep _ st _ (sound a st ((binary_operands op a b u).0) ((&&_elim h).0)))
          (λ d st1 (q, k).
            Ensures-bind _ _ st1 _ _
              (second-Operand op b st1 ((binary_operands op a b u).2)
                (sound b st1 ((binary_operands op a b u).1) (next_single _ _ _ d st1 h q)))
              (λ c st2 l.
                Ensures-last (λ _. d || c) (λ st. st) st2 _ (operands op a b st st1 st2 d c k l)))
    sound (cl_expression d i) st u h =
        Ensures-last (λ _. d) (λ st. st) st _
          (cl_expression-SameValue s this machine own1 own2 d i st)

    pub sound_references :
        (e : Expr) (st : State)
        → has_plain_operands e ≡ true
        → single_references s this e st ≡ true
        → Ensures
            (get_expression_variable_references s this e)
            st
            (SameReferences s this machine own1 own2 e st)
    sound_references (constant k) st u h =
        Ensures-last (λ _. ([], false)) (λ st. st) st _
          (constant-SameReferences s this machine own1 own2 k st)
    sound_references (variable v n) st u h =
        Ensures-weaken _ st (λ r st'. Reached s this st (suc n) (v ∷ []) r × (st' ≡ st)) _
          (dereference_pointer_variable_lem s this v (suc n) st)
          (λ r st' (k, same). rw same (variable-SameReferences s this machine own1 own2 v n st r k))
    sound_references (address_of v) st u h =
        Ensures-last (λ _. (v ∷ [], false)) (λ st. st) st _
          (address-SameReferences s this machine own1 own2 v st)
    sound_references (assignment v n e) st u h =
        let zero : n ≡ 0 = (==_iff n 0).0 (ground (arith, h)) in
        Ensures-bind _ _ st (SameValue s this machine own1 own2 (assignment v n e) st) _
          (assignment-SameValue v n e st (ground (arith, h))
            (λ l. sound_references e st u (ground (arith, h, l)))
            (λ l. sound e st u (ground (arith, h, l))))
          (λ d st1 k.
            Ensures-weaken _ st1 (λ r st'. Reached s this st1 1 (v ∷ []) r × (st' ≡ st1)) _
              (dereference_pointer_variable_lem s this v 1 st1)
              (λ r st' (find, same).
                rw (same, zero)
                  (assignment-SameReferences s this machine own1 own2 v e st st1 d r (rw zero at k)
                    find)))
    sound_references (comma a b) st u h =
        Ensures-bind _ _ st _ _
          (Ensures-keep _ st _ (sound a st ((comma_operands a b u).0) ((&&_elim h).0)))
          (λ d st1 (q, k).
            Ensures-weaken _ st1 _ _
              (sound_references b st1 ((comma_operands a b u).1) (next_single _ _ _ d st1 h q))
              (λ r st2 l. comma-SameReferences s this machine own1 own2 a b st st1 st2 d r k l))
    sound_references (unary op a) st u h = Ensures-fail st _
    sound_references (binary op a b) st u h = Ensures-fail st _
    sound_references (cl_expression d i) st u h = Ensures-fail st _
