-- ===== src/Divergence/Expressions.antt =====
-- src/CLSmith/Divergence.cpp: which expressions may have different values in different threads, and
-- what an assignment changes. Calls of functions of the program are not among the expressions here.
use clsmith.Prelude.{
  ℕ, zero, suc, Bool, true, false, ◌||◌, none, some, List, [], ◌∷◌, if◌then◌else◌, ltb, leb, length,
  ◌==◌,
}
use clsmith.Types.Conversion.{get_indirect_level}
use clsmith.Variables.{Variable, Store}
use clsmith.Variables.Sets.{add_variables_to_set}
use clsmith.Divergence.{
  State, M, ◌>>=◌, ◌>>◌, pure, is_variable_divergent, set_variable_divergence, derefs_to,
  insert_derefs,
}

-- A variable is read through a number of dereferences, or (at the indirection -1) its address is
-- taken. An assignment has the variable of its left side and the number of dereferences there.
-- A `CLExpression` says itself whether it is divergent.
pub data Expr : Type 0 where
  constant : ℕ → Expr
  variable : Variable → (level : ℕ) → Expr
  address_of : Variable → Expr
  assignment : Variable → (level : ℕ) → Expr → Expr
  comma : Expr → Expr → Expr
  unary : (op : ℕ) → Expr → Expr
  binary : (op : ℕ) → Expr → Expr → Expr
  cl_expression : (is_divergent : Bool) → ℕ → Expr

-- The binary operators are numbered as `eBinaryOps` has them.
abbrev pub e_and : ℕ
e_and = 11

abbrev pub e_or : ℕ
e_or = 12

-- `IsOrderedStandardFunc`: the operators that may skip their second operand.
unfoldable pub is_ordered : ℕ → Bool
is_ordered op = op == e_and || op == e_or

module _ (s : Store) where
  unfoldable pub indirect_level : Variable → ℕ
  indirect_level v = elim ((s v).type) [ none ↦ 0 | some t ↦ get_indirect_level t ]

  -- `SetVariableDivergence` for each variable of a set.
  unfoldable pub set_all : List Variable → Bool → State → State
  set_all [] b st = st
  set_all (v ∷ vs) b st = set_all vs b (set_variable_divergence s v b st)

  -- Each variable of the set may from now on point to the references, too.
  unfoldable pub reseat_all : List Variable → List Variable → Bool → State → State
  reseat_all [] refs b st = st
  reseat_all (v ∷ vs) refs b st =
      reseat_all vs refs b (set_variable_divergence s v b (insert_derefs s v refs st))

module _ (s : Store) (this : ℕ) where
  -- One round of the loop of `DereferencePointerVariable`.
  unfoldable pub deref_level : List Variable → M (List Variable × Bool)
  deref_level [] = pure ([], false)
  deref_level (v ∷ vs) = do
    d ← is_variable_divergent s this v
    (next, e) ← deref_level vs
    λ st. some (((add_variables_to_set (derefs_to s st v) next).0, d || e), st)

  -- At each level there must be something to dereference.
  unfoldable pub dereference : ℕ → List Variable → M (List Variable × Bool)
  dereference zero vs = pure (vs, false)
  dereference (suc n) [] = λ st. none
  dereference (suc n) (v ∷ vs) = do
    (next, d) ← deref_level (v ∷ vs)
    (last, e) ← dereference n next
    pure (last, d || e)

  unfoldable pub dereference_pointer_variable : Variable → ℕ → M (List Variable × Bool)
  dereference_pointer_variable v n =
      if ltb (indirect_level s v) n then (λ st. none) else dereference n (v ∷ [])

  unfoldable pub any_divergent : List Variable → M Bool
  any_divergent [] = pure false
  any_divergent (v ∷ vs) = do
    d ← is_variable_divergent s this v
    (if d then pure true else any_divergent vs)

  -- `IsAssignmentDivergent` of a value that is no pointer. With several targets, a variable is not
  -- set to convergent.
  unfoldable pub assign_scalar : Variable → ℕ → M Bool → M Bool
  assign_scalar v n rhs = do
    (targets, deref_div) ← dereference_pointer_variable v n
    ass_div ← rhs
    λ st. some (
      ass_div,
      if leb (length targets) 1 || (ass_div || st.divergent)
          then set_all s targets (ass_div || st.divergent) st
          else st,
    )

  -- `IsAssignmentDivergent` of a pointer.
  unfoldable pub assign_pointer : Variable → ℕ → M (List Variable × Bool) → M Bool
  assign_pointer v n rhs = do
    (targets, deref_div) ← dereference_pointer_variable v n
    (refs, rhs_div) ← rhs
    λ st. some (rhs_div, reseat_all s targets refs (rhs_div || (deref_div || st.divergent)) st)

  unfoldable mutual
    pub is_expression_divergent : Expr → M Bool
    is_expression_divergent (constant k) = pure false
    is_expression_divergent (variable v n) = do
      (vars, d) ← dereference_pointer_variable v n
      (if d then pure true else any_divergent vars)
    is_expression_divergent (address_of v) = any_divergent (v ∷ [])
    is_expression_divergent (assignment v n e) =
        if ltb n (indirect_level s v)
        then assign_pointer v n (get_expression_variable_references e)
        else assign_scalar v n (is_expression_divergent e)
    is_expression_divergent (comma a b) = is_expression_divergent a >> is_expression_divergent b
    is_expression_divergent (unary op a) = is_expression_divergent a
    is_expression_divergent (binary op a b) = do
      d ← is_expression_divergent a
      e ← is_expression_divergent b
      pure (d || e)
    is_expression_divergent (cl_expression d i) = pure d

    -- The variables that a pointer expression may point to. A nested assignment is followed by a
    -- look at the variable of its left side.
    pub get_expression_variable_references : Expr → M (List Variable × Bool)
    get_expression_variable_references (constant k) = pure ([], false)
    get_expression_variable_references (variable v n) = dereference_pointer_variable v (suc n)
    get_expression_variable_references (address_of v) = pure (v ∷ [], false)
    get_expression_variable_references (assignment v n e) =
        (if ltb n (indirect_level s v)
          then assign_pointer v n (get_expression_variable_references e)
          else assign_scalar v n (is_expression_divergent e))
        >> dereference_pointer_variable v 1
    get_expression_variable_references (comma a b) =
        is_expression_divergent a >> get_expression_variable_references b
    get_expression_variable_references _ = λ st. none
