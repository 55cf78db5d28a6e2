-- ===== src/Divergence/Total.antt =====
-- src/CLSmith/Divergence.cpp: the analysis has a result for every well-formed expression that two
-- threads in agreement can evaluate.
use clsmith.Prelude.{
  ℕ, suc, ◌≡◌, refl, inl, inr, Bool, true, false, ◌&&◌, ◌||◌, List, [], ◌∷◌, if◌then◌else◌, ltb,
  leb, arith, &&_elim, Bool-cases,
}
use clsmith.Variables.{Variable, Store}
use clsmith.Divergence.{State, M}
use clsmith.Divergence.Expressions.{
  Expr, constant, variable, address_of, assignment, comma, unary, binary, cl_expression,
  indirect_level, dereference_pointer_variable, assign_scalar, assign_pointer,
  is_expression_divergent, get_expression_variable_references, is_ordered,
}
use clsmith.Divergence.Targets.{Reached, dereference_pointer_variable_lem}
use clsmith.Divergence.Defined.{
  Defined, left, right, left_operand, right_operand, operand, right_side, left_side, read_from,
}
use clsmith.Divergence.Threads.{num, target, Machine}
use clsmith.Divergence.Assignments.{single_targets, single_references}
use clsmith.Divergence.Operands.{
  comma_operands, binary_operands, ordered_operand, has_plain_operands, plain-Yields,
}
use clsmith.Divergence.Sound.{next_single}
use clsmith.Divergence.Yields.{
  Yields, Yields-bind, Yields-read, Yields-last, Yields-if, any_divergent-Yields,
  dereference_pointer_variable-Yields,
}

module _ (s : Store) where
  -- No variable is dereferenced more often than its type allows, and what is assigned to a pointer
  -- is an expression that may have an address.
  unfoldable mutual
    pub is_typed : Expr → Bool
    is_typed (constant k) = true
    is_typed (variable v n) = leb n (indirect_level s v)
    is_typed (address_of v) = true
    is_typed (assignment v n e) =
        leb n (indirect_level s v)
        && (if ltb n (indirect_level s v) then is_pointer_typed e else is_typed e)
    is_typed (comma a b) = is_typed a && is_typed b
    is_typed (unary op a) = is_typed a
    is_typed (binary op a b) = is_typed a && is_typed b
    is_typed (cl_expression d i) = true

    pub is_pointer_typed : Expr → Bool
    is_pointer_typed (constant k) = true
    is_pointer_typed (variable v n) = ltb n (indirect_level s v)
    is_pointer_typed (address_of v) = true
    is_pointer_typed (assignment v n e) = ltb n (indirect_level s v) && is_pointer_typed e
    is_pointer_typed (comma a b) = is_typed a && is_pointer_typed b
    is_pointer_typed _ = false

module _ (s : Store) (this : ℕ) where
  assign_scalar-Yields :
      (v : Variable) (n : ℕ) (rhs : M Bool) (st : State)
      → Yields (dereference_pointer_variable s this v n) st
      → Yields rhs st
      → Yields (assign_scalar s this v n rhs) st
  unfolding assign_scalar
  assign_scalar-Yields v n rhs st y z =
      Yields-read _ _ st (Reached s this st n (v ∷ []))
        (dereference_pointer_variable_lem s this v n st) y
        (λ (targets, _) _. Yields-bind _ _ st z (λ d st1 _. Yields-last (λ _. d) _ st1))

  assign_pointer-Yields :
      (v : Variable) (n : ℕ) (rhs : M (List Variable × Bool)) (st : State)
      → Yields (dereference_pointer_variable s this v n) st
      → Yields rhs st
      → Yields (assign_pointer s this v n rhs) st
  unfolding assign_pointer
  assign_pointer-Yields v n rhs st y z =
      Yields-read _ _ st (Reached s this st n (v ∷ []))
        (dereference_pointer_variable_lem s this v n st) y
        (λ (targets, c) _. Yields-bind _ _ st z (λ (refs, d) st1 _. Yields-last (λ _. d) _ st1))

module _ (s : Store) (this : ℕ) (machine : Machine) (own1 own2 : ℕ → ℕ)
    (plain : (v : Variable) → (s v).is_array ≡ false) where
  assignment-Yields :
      (v : Variable) (n : ℕ) (e : Expr) (st : State)
      → leb n (indirect_level s v) ≡ true
      → Defined s this machine own1 own2 (assignment v n e) st
      → (ltb n (indirect_level s v) ≡ true
          → Yields (get_expression_variable_references s this e) st)
      → (ltb n (indirect_level s v) ≡ false → Yields (is_expression_divergent s this e) st)
      → Yields
          (if ltb n (indirect_level s v)
            then assign_pointer s this v n (get_expression_variable_references s this e)
            else assign_scalar s this v n (is_expression_divergent s this e))
          st
  assignment-Yields v n e st l d p q =
      let y = left_side s this machine own1 own2 plain v n e st l d in
      Yields-if (ltb n (indirect_level s v)) _ _ st
        (λ t. assign_pointer-Yields s this v n _ st y (p t))
        (λ t. assign_scalar-Yields s this v n _ st y (q t))

  -- A pointer is dereferenced once: its own address is the first target whatever the memory holds.
  pointer-Yields :
      (v : Variable) (n : ℕ) (st : State)
      → ltb n (indirect_level s v) ≡ true
      → Yields (dereference_pointer_variable s this v 1) st
  unfolding target
  pointer-Yields v n st l =
      dereference_pointer_variable-Yields s this plain v 0 1 st (λ _. num 0) v
        (λ x y e. absurd (ground (arith, e))) refl (inr refl) (ground (arith, l))

  mutual
    unfolding has_plain_operands is_expression_divergent get_expression_variable_references
        single_targets single_references is_typed is_pointer_typed

    pub total :
        (e : Expr) (st : State)
        → is_typed s e ≡ true
        → has_plain_operands e ≡ true
        → single_targets s this e st ≡ true
        → Defined s this machine own1 own2 e st
        → Yields (is_expression_divergent s this e) st
    total (constant k) st t u h d = Yields-last (λ _. false) (λ st. st) st
    total (variable v n) st t u h d =
        Yields-bind _ _ st (read_from s this machine own1 own2 plain v n n st (inl refl) t d)
          (λ (vars, c) st1 _.
            Yields-if c _ _ st1 (λ _. Yields-last (λ _. true) (λ st. st) st1)
              (λ _. any_divergent-Yields s this plain vars st1))
    total (address_of v) st t u h d = any_divergent-Yields s this plain (v ∷ []) st
    total (assignment v n e) st t u h d =
        assignment-Yields v n e st (ground (arith, t)) d
          (λ l.
            total_references e st (ground (arith, t, l)) u (ground (arith, h, l))
              (right_side s this machine own1 own2 v n e st d))
          (λ l.
            total e st (ground (arith, t, l)) u (ground (arith, h, l))
              (right_side s this machine own1 own2 v n e st d))
    total (comma a b) st t u h d =
        Yields-bind _ _ st
          (total a st ((&&_elim t).0) ((comma_operands a b u).0) ((&&_elim h).0)
            (left s this machine own1 own2 a b st d))
          (λ c st1 q.
            total b st1 ((&&_elim t).1) ((comma_operands a b u).1) (next_single _ _ _ c st1 h q) (
              right s this machine own1 own2 a b st st1 c ((comma_operands a b u).0) ((&&_elim h).0)
                q d))
    total (unary op a) st t u h d = total a st t u h (operand s this machine own1 own2 op a st d)
    total (binary op a b) st t u h d =
        Yields-bind _ _ st
          (total a st ((&&_elim t).0) ((binary_operands op a b u).0) ((&&_elim h).0)
            (left_operand s this machine own1 own2 op a b st d))
          (λ c st1 q.
            Yields-bind _ _ st1
              (elim (Bool-cases (is_ordered op)) [
                | inl o ↦
                    plain-Yields s this plain b st1
                      (ordered_operand op b ((binary_operands op a b u).2) o)
                | inr o ↦
                    total b st1 ((&&_elim t).1) ((binary_operands op a b u).1)
                      (next_single _ _ _ c st1 h q)
                      (right_operand s this machine own1 own2 op a b st st1 c o
                        ((binary_operands op a b u).0) ((&&_elim h).0) q d)
              ])
              (λ c' st2 _. Yields-last (λ _. c || c') (λ st. st) st2))
    total (cl_expression c i) st t u h d = Yields-last (λ _. c) (λ st. st) st

    total_references :
        (e : Expr) (st : State)
        → is_pointer_typed s e ≡ true
        → has_plain_operands e ≡ true
        → single_references s this e st ≡ true
        → Defined s this machine own1 own2 e st
        → Yields (get_expression_variable_references s this e) st
    total_references (constant k) st t u h d = Yields-last (λ _. ([], false)) (λ st. st) st
    total_references (variable v n) st t u h d =
        read_from s this machine own1 own2 plain v n (suc n) st (inr refl) (ground (arith, t)) d
    total_references (address_of v) st t u h d = Yields-last (λ _. (v ∷ [], false)) (λ st. st) st
    total_references (assignment v n e) st t u h d =
        Yields-bind _ _ st
          (assignment-Yields v n e st (ground (arith, t)) d
            (λ l.
              total_references e st (ground (arith, t, l)) u (ground (arith, h, l))
                (right_side s this machine own1 own2 v n e st d))
            (λ l. absurd (ground (arith, t, l))))
          (λ c st1 q. pointer-Yields v n st1 (ground (arith, t)))
    total_references (comma a b) st t u h d =
        Yields-bind _ _ st
          (total a st ((&&_elim t).0) ((comma_operands a b u).0) ((&&_elim h).0)
            (left s this machine own1 own2 a b st d))
          (λ c st1 q.
            total_references b st1 ((&&_elim t).1) ((comma_operands a b u).1)
              (next_single _ _ _ c st1 h q)
              (right s this machine own1 own2 a b st st1 c ((comma_operands a b u).0)
                ((&&_elim h).0) q d))
    total_references (unary op a) st t u h d = absurd (ground (arith, t))
    total_references (binary op a b) st t u h d = absurd (ground (arith, t))
    total_references (cl_expression c i) st t u h d = absurd (ground (arith, t))
