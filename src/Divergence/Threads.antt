-- ===== src/Divergence/Threads.antt =====
-- What the analysis is about: threads that run the same code on memories of their own. An expression
-- is evaluated as C does it; where that is undefined, and where a number is stored as a pointer's
-- target is needed, there is no result. A left side is evaluated before the right side. Each variable
-- has a cell of its own in a memory, so the memories are for programs without structs and unions.
use clsmith.Prelude.{
  ℕ, zero, suc, ◌≡◌, refl, ◌⊎◌, inl, inr, Bool, true, false, not, ◌&&◌, Option, none, some,
  if◌then◌else◌, ltb, ◌==◌,
}
use clsmith.Variables.{Variable, Store, var_eq}
use clsmith.Variables.Sets.{is_variable_in_set}
use clsmith.Divergence.{State, derefs_to}
use clsmith.Divergence.Saved.{may_diverge}
use clsmith.Divergence.Expressions.{
  Expr, constant, variable, address_of, assignment, comma, unary, binary, cl_expression,
  indirect_level, is_ordered, e_or,
}

-- The null pointer is a number.
pub data Value : Type 0 where
  num : ℕ → Value
  addr : Variable → Value

pub Value-cases : (x : Value) → ((k : ℕ) × (x ≡ num k)) ⊎ ((w : Variable) × (x ≡ addr w))
Value-cases (num k) = inl (k, refl)
Value-cases (addr w) = inr (w, refl)

abbrev pub Memory : Type 0
Memory = Variable → Value

abbrev pub assign_to : Memory → Variable → Value → Memory
assign_to m v x w = if var_eq v w then x else m w

unfoldable pub target : Memory → ℕ → Variable → Option Variable
target m zero v = some v
target m (suc n) v = elim (m v) [ num _ ↦ none | addr w ↦ target m n w ]

abbrev pub is_address : Value → Bool
is_address (num _) = false
is_address (addr _) = true

-- A value that is not zero.
abbrev pub is_true : Value → Bool
is_true (num k) = not (k == 0)
is_true (addr _) = true

-- What the operators compute and what the convergent OpenCL expressions are, which is the same in
-- all threads.
pub record Machine : Type 0 where
  pub unary_value : ℕ → Value → ℕ
  pub binary_value : ℕ → Value → Value → ℕ
  pub shared_value : ℕ → ℕ

infixl 5 ◌>>=◌
abbrev pub ◌>>=◌ : {A B : Type 0} → Option A → (A → Option B) → Option B
none >>= f = none
some a >>= f = f a

module _ (s : Store) (machine : Machine) where
  -- An address is only stored where the left side is a pointer.
  unfoldable pub store : Variable → ℕ → Variable → Value × Memory → Option (Value × Memory)
  store v n w (x, m) =
      if is_address x && not (ltb n (indirect_level s v)) then none else some (x, assign_to m w x)

  -- `&&` and `||` do not evaluate the second operand where the first one decides.
  abbrev pub decides : ℕ → Value → Bool
  decides op x = is_ordered op && (if op == e_or then is_true x else not (is_true x))

  abbrev pub decided_value : ℕ → Value
  decided_value op = num (if op == e_or then 1 else 0)

  unfoldable pub binary_step :
      ℕ → Value → Memory → Option (Value × Memory) → Option (Value × Memory)
  binary_step op x m second =
      if decides op x
      then some (decided_value op, m)
      else (do (y, m') ← second; some (num (machine.binary_value op x y), m'))

  -- `own` is what the divergent OpenCL expressions are in this thread.
  unfoldable pub eval : (ℕ → ℕ) → Expr → Memory → Option (Value × Memory)
  unfolding store binary_step
  eval own (constant k) m = some (num k, m)
  eval own (variable v n) m = do w ← target m n v; some (m w, m)
  eval own (address_of v) m = some (addr v, m)
  eval own (assignment v n e) m = do w ← target m n v; r ← eval own e m; store v n w r
  eval own (comma a b) m = do (_, m') ← eval own a m; eval own b m'
  eval own (unary op a) m = do (x, m') ← eval own a m; some (num (machine.unary_value op x), m')
  eval own (binary op a b) m = do (x, m1) ← eval own a m; binary_step op x m1 (eval own b m1)
  eval own (cl_expression d i) m = some (num (if d then own i else machine.shared_value i), m)

-- Where an address is in the memory, the state knows the variable as a target.
abbrev pub Points : Store → State → Memory → Type 0
Points s st m = (v w : Variable) → m v ≡ addr w → is_variable_in_set (derefs_to s st v) w ≡ true

-- Two threads have the same values in all variables that the state calls convergent.
pub record Agree (s : Store) (this : ℕ) (st : State) (m1 m2 : Memory) : Type 0 where
  pub same : (v : Variable) → may_diverge s this st v ≡ false → m1 v ≡ m2 v
  pub points1 : Points s st m1
  pub points2 : Points s st m2
