-- ===== src/Divergence/Defined.antt =====
-- Two threads that can evaluate an expression can evaluate its parts.
use clsmith.Prelude.{ℕ, suc, ◌⊎◌, ◌≡◌, inl, refl, Bool, true, false, some, leb, arith}
use clsmith.Variables.{Variable, Store}
use clsmith.Divergence.{State}
use clsmith.Divergence.Expressions.{
  Expr, variable, assignment, comma, unary, binary, indirect_level, dereference_pointer_variable,
  is_expression_divergent, is_ordered,
}
use clsmith.Divergence.Ensures.{Ensures}
use clsmith.Divergence.Threads.{Value, Memory, Machine, Agree}
use clsmith.Divergence.Steps.{
  Evaluates, eval-assignment, eval-variable, eval-comma, eval-unary, eval-binary, eval-Second,
}
use clsmith.Divergence.Assignments.{single_targets}
use clsmith.Divergence.Operands.{has_plain_operands}
use clsmith.Divergence.Sound.{sound}
use clsmith.Divergence.Yields.{Yields, dereference_pointer_variable-Yields}

module _ (s : Store) (this : ℕ) (machine : Machine) (own1 own2 : ℕ → ℕ) where
  -- Two threads in agreement can evaluate the expression.
  pub record Defined (e : Expr) (st : State) : Type 0 where
    pub m1 : Memory
    pub m2 : Memory
    pub m1' : Memory
    pub m2' : Memory
    pub x1 : Value
    pub x2 : Value
    pub agree : Agree s this st m1 m2
    pub first : Evaluates s machine own1 e m1 x1 m1'
    pub second : Evaluates s machine own2 e m2 x2 m2'

  pub left : (a b : Expr) (st : State) → Defined (comma a b) st → Defined a st
  left a b st d =
      let (y1, n1, p1, q1) = eval-comma s machine own1 a b d.m1 d.m1' d.x1 d.first in
      let (y2, n2, p2, q2) = eval-comma s machine own2 a b d.m2 d.m2' d.x2 d.second in
      record {
        m1 = d.m1;
        m2 = d.m2;
        m1' = n1;
        m2' = n2;
        x1 = y1;
        x2 = y2;
        agree = d.agree;
        first = p1;
        second = p2;
      }

  pub right :
      (a b : Expr) (st st1 : State) (c : Bool)
      → has_plain_operands a ≡ true
      → single_targets s this a st ≡ true
      → is_expression_divergent s this a st ≡ some (c, st1)
      → Defined (comma a b) st
      → Defined b st1
  unfolding Ensures
  right a b st st1 c u h e d =
      let (y1, n1, p1, q1) = eval-comma s machine own1 a b d.m1 d.m1' d.x1 d.first in
      let (y2, n2, p2, q2) = eval-comma s machine own2 a b d.m2 d.m2' d.x2 d.second in
      record {
        m1 = n1;
        m2 = n2;
        m1' = d.m1';
        m2' = d.m2';
        x1 = d.x1;
        x2 = d.x2;
        agree =
            (sound s this machine own1 own2 a st u h c st1 e d.m1 d.m2 n1 n2 y1 y2 d.agree p1 p2).0;
        first = q1;
        second = q2;
      }

  pub left_operand : (op : ℕ) (a b : Expr) (st : State) → Defined (binary op a b) st → Defined a st
  left_operand op a b st d =
      let (y1, n1, p1, r1) = eval-binary s machine own1 op a b d.m1 d.m1' d.x1 d.first in
      let (y2, n2, p2, r2) = eval-binary s machine own2 op a b d.m2 d.m2' d.x2 d.second in
      record {
        m1 = d.m1;
        m2 = d.m2;
        m1' = n1;
        m2' = n2;
        x1 = y1;
        x2 = y2;
        agree = d.agree;
        first = p1;
        second = p2;
      }

  pub right_operand :
      (op : ℕ) (a b : Expr) (st st1 : State) (c : Bool)
      → is_ordered op ≡ false
      → has_plain_operands a ≡ true
      → single_targets s this a st ≡ true
      → is_expression_divergent s this a st ≡ some (c, st1)
      → Defined (binary op a b) st
      → Defined b st1
  unfolding Ensures
  right_operand op a b st st1 c o u h e d =
      let (y1, n1, p1, r1) = eval-binary s machine own1 op a b d.m1 d.m1' d.x1 d.first in
      let (y2, n2, p2, r2) = eval-binary s machine own2 op a b d.m2 d.m2' d.x2 d.second in
      let (z1, q1, e1) = eval-Second s machine own1 op b y1 n1 d.x1 d.m1' o r1 in
      let (z2, q2, e2) = eval-Second s machine own2 op b y2 n2 d.x2 d.m2' o r2 in
      record {
        m1 = n1;
        m2 = n2;
        m1' = d.m1';
        m2' = d.m2';
        x1 = z1;
        x2 = z2;
        agree =
            (sound s this machine own1 own2 a st u h c st1 e d.m1 d.m2 n1 n2 y1 y2 d.agree p1 p2).0;
        first = q1;
        second = q2;
      }

  pub operand : (op : ℕ) (a : Expr) (st : State) → Defined (unary op a) st → Defined a st
  operand op a st d =
      let (y1, p1, e1) = eval-unary s machine own1 op a d.m1 d.m1' d.x1 d.first in
      let (y2, p2, e2) = eval-unary s machine own2 op a d.m2 d.m2' d.x2 d.second in
      record {
        m1 = d.m1;
        m2 = d.m2;
        m1' = d.m1';
        m2' = d.m2';
        x1 = y1;
        x2 = y2;
        agree = d.agree;
        first = p1;
        second = p2;
      }

  pub right_side :
      (v : Variable) (n : ℕ) (e : Expr) (st : State) → Defined (assignment v n e) st → Defined e st
  right_side v n e st d =
      let (w1, n1, t1, y1, q1, f1) = eval-assignment s machine own1 v n e d.m1 d.m1' d.x1 d.first in
      let (w2, n2, t2, y2, q2, f2) =
        eval-assignment s machine own2 v n e d.m2 d.m2' d.x2 d.second in
      record {
        m1 = d.m1;
        m2 = d.m2;
        m1' = n1;
        m2' = n2;
        x1 = d.x1;
        x2 = d.x2;
        agree = d.agree;
        first = y1;
        second = y2;
      }

  pub left_side :
      ((v : Variable) → (s v).is_array ≡ false)
      → (v : Variable) (n : ℕ) (e : Expr) (st : State) → leb n (indirect_level s v) ≡ true
      → Defined (assignment v n e) st
      → Yields (dereference_pointer_variable s this v n) st
  left_side plain v n e st l d =
      let (w, n1, t, y, q, f) = eval-assignment s machine own1 v n e d.m1 d.m1' d.x1 d.first in
      dereference_pointer_variable-Yields s this plain v n n st d.m1 w d.agree.points1 t (inl refl)
        (ground (arith, l))

  -- What a variable's last pointer refers to is looked up once more than it is dereferenced.
  pub read_from :
      ((v : Variable) → (s v).is_array ≡ false)
      → (v : Variable) (n k : ℕ) (st : State) → (k ≡ n) ⊎ (k ≡ suc n)
      → leb k (indirect_level s v) ≡ true
      → Defined (variable v n) st
      → Yields (dereference_pointer_variable s this v k) st
  read_from plain v n k st c l d =
      let (w, t, q, f) = eval-variable s machine own1 v n d.m1 d.m1' d.x1 d.first in
      dereference_pointer_variable-Yields s this plain v n k st d.m1 w d.agree.points1 t c
        (ground (arith, l))
