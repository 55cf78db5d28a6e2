-- ===== src/Divergence/Assignments.antt =====
-- src/CLSmith/Divergence.cpp: an assignment to a single target keeps the threads in agreement.
use clsmith.Prelude.{
  ℕ, ◌≡◌, Bool, true, false, ◌&&◌, ◌||◌, none, some, List, [], ◌∷◌, if◌then◌else◌, ltb, leb, ◌==◌,
  length, arith,
}
use clsmith.Variables.{Variable, Store}
use clsmith.Variables.Sets.{is_variable_in_set}
use clsmith.Variables.Membership.{var_eq_refl}
use clsmith.Divergence.{State, M}
use clsmith.Divergence.Expressions.{
  Expr, assignment, comma, unary, binary, indirect_level, dereference_pointer_variable,
  assign_scalar, assign_pointer, is_expression_divergent,
}
use clsmith.Divergence.Ensures.{Ensures, Ensures-bind, Reads, Ensures-read, Ensures-last}
use clsmith.Divergence.Targets.{Reached, dereference_pointer_variable_lem}
use clsmith.Divergence.Threads.{Value, addr, Memory, Machine, Agree}
use clsmith.Divergence.Steps.{Evaluates, eval-assignment}
use clsmith.Divergence.Assigned.{Agree-set_all, Agree-reseat_all}

module _ (s : Store) (this : ℕ) where
  -- The left side of an assignment has at most one target.
  unfoldable pub has_one_target : Variable → ℕ → State → Bool
  has_one_target v n st = elim (dereference_pointer_variable s this v n st) [
    | none ↦ true
    | some ((targets, _), _) ↦ leb (length targets) 1
  ]

  -- Every assignment in the expression has at most one target when the analysis comes to it, and one
  -- whose value is used as a pointer has a variable on its left side.
  unfoldable mutual
    pub single_targets : Expr → State → Bool
    single_targets (assignment v n e) st =
        has_one_target v n st
        && (if ltb n (indirect_level s v) then single_references e st else single_targets e st)
    single_targets (comma a b) st =
        single_targets a st && (elim (is_expression_divergent s this a st) [
          | none ↦ true
          | some (_, st1) ↦ single_targets b st1
        ])
    single_targets (unary op a) st = single_targets a st
    single_targets (binary op a b) st =
        single_targets a st && (elim (is_expression_divergent s this a st) [
          | none ↦ true
          | some (_, st1) ↦ single_targets b st1
        ])
    single_targets _ st = true

    pub single_references : Expr → State → Bool
    single_references (assignment v n e) st =
        n == 0
        && (has_one_target v n st
            && (if ltb n (indirect_level s v) then single_references e st else single_targets e st))
    single_references (comma a b) st =
        single_targets a st && (elim (is_expression_divergent s this a st) [
          | none ↦ true
          | some (_, st1) ↦ single_references b st1
        ])
    single_references _ st = true

-- What holds after two threads evaluate an expression: they agree, and where the analysis says that
-- the value is convergent, it is the same in both.
module _ (s : Store) (this : ℕ) (machine : Machine) (own1 own2 : ℕ → ℕ) where
  abbrev pub SameValue : Expr → State → Bool → State → Type 0
  SameValue e st d st' =
      (m1 m2 m1' m2' : Memory) (x1 x2 : Value)
      → Agree s this st m1 m2
      → Evaluates s machine own1 e m1 x1 m1'
      → Evaluates s machine own2 e m2 x2 m2'
      → Agree s this st' m1' m2' × (d ≡ false → x1 ≡ x2)

  abbrev pub SameReferences : Expr → State → List Variable × Bool → State → Type 0
  SameReferences e st (refs, d) st' =
      (m1 m2 m1' m2' : Memory) (x1 x2 : Value)
      → Agree s this st m1 m2
      → Evaluates s machine own1 e m1 x1 m1'
      → Evaluates s machine own2 e m2 x2 m2'
      → Agree s this st' m1' m2'
        × (d ≡ false → x1 ≡ x2)
        × ((u : Variable) → x1 ≡ addr u → is_variable_in_set refs u ≡ true)
        × ((u : Variable) → x2 ≡ addr u → is_variable_in_set refs u ≡ true)

  pub itself : (v : Variable) → is_variable_in_set (v ∷ []) v ≡ true
  unfolding is_variable_in_set
  itself v = ground (arith, var_eq_refl v)

  unfoldable pub OneTarget : State → Variable → ℕ → List Variable × Bool → Type 0
  OneTarget st v n (targets, d) =
      Reached s this st n (v ∷ []) (targets, d) × (leb (length targets) 1 ≡ true)

  pub one_target_lem :
      (v : Variable) (n : ℕ) (st : State)
      → has_one_target s this v n st ≡ true
      → Reads (dereference_pointer_variable s this v n) st (OneTarget st v n)
  unfolding has_one_target OneTarget Ensures
  one_target_lem v n st h (targets, d) st' e =
      let (r, same) = dereference_pointer_variable_lem s this v n st (targets, d) st' e in
      ((r, rw (has_one_target, e) at h), same)

  pub assign_scalar-SameValue :
      (v : Variable) (n : ℕ) (e : Expr) (rhs : M Bool) (st : State)
      → ltb n (indirect_level s v) ≡ false
      → has_one_target s this v n st ≡ true
      → Ensures rhs st (SameValue e st)
      → Ensures (assign_scalar s this v n rhs) st (SameValue (assignment v n e) st)
  unfolding assign_scalar OneTarget is_variable_in_set
  assign_scalar-SameValue v n e rhs st l one h =
      Ensures-read _ _ st (OneTarget st v n) _ (one_target_lem v n st one)
        (λ (targets, _) (r, single). Ensures-bind _ _ st (SameValue e st) _ h (λ d st1 k.
          Ensures-last _ _ st1 (SameValue (assignment v n e) st) (λ m1 m2 m1' m2' x1 x2 a v1 v2.
            let (w1, n1, t1, y1, e1, f1) = eval-assignment s machine own1 v n e m1 m1' x1 v1 in
            let (w2, n2, t2, y2, e2, f2) = eval-assignment s machine own2 v n e m2 m2' x2 v2 in
            let (b, same) = k m1 m2 n1 n2 x1 x2 a y1 y2 in
            (
              rw (single, e1, e2)
                  (Agree-set_all s this st1 n1 n2 targets (d || st1.divergent) w1 w2 x1 x2 b single
                    (r.0 m1 v w1 a.points1 (itself v) t1) (r.0 m2 v w2 a.points2 (itself v) t2)
                    (λ q. same (ground (arith, q))) (ground (arith, l, f1))
                    (ground (arith, l, f2))),
              same,
            ))))

  pub assign_pointer-SameReferences :
      (v : Variable) (n : ℕ) (e : Expr) (rhs : M (List Variable × Bool)) (st : State)
      → has_one_target s this v n st ≡ true
      → Ensures rhs st (SameReferences e st)
      → Ensures (assign_pointer s this v n rhs) st (SameValue (assignment v n e) st)
  unfolding assign_pointer OneTarget
  assign_pointer-SameReferences v n e rhs st one h =
      Ensures-read _ _ st (OneTarget st v n) _ (one_target_lem v n st one)
        (λ (targets, deref_div) (r, single).
          Ensures-bind _ _ st (SameReferences e st) _ h (λ (refs, d) st1 k.
            Ensures-last _ _ st1 (SameValue (assignment v n e) st) (λ m1 m2 m1' m2' x1 x2 a v1 v2.
              let (w1, n1, t1, y1, e1, f1) = eval-assignment s machine own1 v n e m1 m1' x1 v1 in
              let (w2, n2, t2, y2, e2, f2) = eval-assignment s machine own2 v n e m2 m2' x2 v2 in
              let (b, same, g1, g2) = k m1 m2 n1 n2 x1 x2 a y1 y2 in
              (
                rw (e1, e2)
                    (Agree-reseat_all s this st1 n1 n2 targets refs
                      (d || (deref_div || st1.divergent)) w1 w2 x1 x2 b single
                      (r.0 m1 v w1 a.points1 (itself v) t1) (r.0 m2 v w2 a.points2 (itself v) t2)
                      (λ q. same (ground (arith, q))) g1 g2),
                same,
              ))))
