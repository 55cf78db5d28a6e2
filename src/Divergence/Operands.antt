-- ===== src/Divergence/Operands.antt =====
-- src/CLSmith/Divergence.cpp: the second operand of `&&` and `||`, which the analysis takes to be
-- evaluated. Where it changes no variable, it makes no difference that a thread may skip it.
use clsmith.Prelude.{
  ℕ, zero, suc, ◌≡◌, refl, sym, ap, ◌∙◌, inl, inr, Bool, true, false, not, ◌&&◌, ◌||◌, [], ◌∷◌, ltb,
  ◌==◌, &&_elim, arith,
}
use mathlib.Core.Option.{some-injective}
use clsmith.Variables.{Variable, Store}
use clsmith.Divergence.{State}
use clsmith.Divergence.Expressions.{
  Expr, constant, variable, address_of, assignment, comma, unary, binary, cl_expression, is_ordered,
  is_expression_divergent, dereference_pointer_variable, dereference, indirect_level,
}
use clsmith.Divergence.Ensures.{
  Ensures, Ensures-bind, Ensures-read, Ensures-last, Ensures-if, Ensures-weaken,
}
use clsmith.Divergence.Targets.{
  Reached, dereference_pointer_variable_lem, Covers, any_divergent_lem,
}
use clsmith.Divergence.Threads.{Value, num, Memory, Machine, eval, decides}
use clsmith.Divergence.Steps.{Evaluates, Second, eval-binary, eval-variable, eval-comma, eval-unary}
use clsmith.Divergence.Assignments.{SameValue}
use clsmith.Divergence.Yields.{Yields, Yields-bind, Yields-last, Yields-if, any_divergent-Yields}

-- An expression that assigns nothing and dereferences nothing.
unfoldable pub is_plain : Expr → Bool
is_plain (constant k) = true
is_plain (variable v n) = n == 0
is_plain (address_of v) = true
is_plain (assignment v n e) = false
is_plain (comma a b) = is_plain a && is_plain b
is_plain (unary op a) = is_plain a
is_plain (binary op a b) = is_plain a && is_plain b
is_plain (cl_expression d i) = true

-- The second operand of each `&&` and `||` is such an expression.
unfoldable pub has_plain_operands : Expr → Bool
has_plain_operands (assignment v n e) = has_plain_operands e
has_plain_operands (comma a b) = has_plain_operands a && has_plain_operands b
has_plain_operands (unary op a) = has_plain_operands a
has_plain_operands (binary op a b) =
    has_plain_operands a && has_plain_operands b && (not (is_ordered op) || is_plain b)
has_plain_operands _ = true

pub comma_operands :
    (a b : Expr)
    → has_plain_operands (comma a b) ≡ true
    → (has_plain_operands a ≡ true) × (has_plain_operands b ≡ true)
unfolding has_plain_operands
comma_operands a b u = &&_elim u

pub binary_operands :
    (op : ℕ) (a b : Expr)
    → has_plain_operands (binary op a b) ≡ true
    → (has_plain_operands a ≡ true)
      × (has_plain_operands b ≡ true)
      × ((not (is_ordered op) || is_plain b) ≡ true)
unfolding has_plain_operands
binary_operands op a b u = ground (arith, u)

pub ordered_operand :
    (op : ℕ) (b : Expr)
    → (not (is_ordered op) || is_plain b) ≡ true
    → is_ordered op ≡ true
    → is_plain b ≡ true
ordered_operand op b u o = ground (arith, u, o)

module _ (s : Store) (machine : Machine) (own : ℕ → ℕ) where
  pub plain-still :
      (e : Expr) (m m' : Memory) (x : Value)
      → is_plain e ≡ true
      → Evaluates s machine own e m x m'
      → m' ≡ m
  unfolding is_plain eval
  plain-still (constant k) m m' x p v = sym (ap (λ r. r.1) (some-injective (num k, m) (x, m') v))
  plain-still (variable u n) m m' x p v =
      let (w, t, e, f) = eval-variable s machine own u n m m' x v in f
  plain-still (address_of u) m m' x p v = sym (ap (λ r. r.1) (some-injective (_, m) (x, m') v))
  plain-still (assignment u n e) m m' x p v = absurd (ground (arith, p))
  plain-still (comma a b) m m' x p v =
      let (y, n, q, r) = eval-comma s machine own a b m m' x v in
      plain-still b n m' x (ground (arith, p)) r ∙ plain-still a m n y (ground (arith, p)) q
  plain-still (unary op a) m m' x p v =
      let (y, q, e) = eval-unary s machine own op a m m' x v in plain-still a m m' y p q
  plain-still (binary op a b) m m' x p v =
      let (y, n, q, r) = eval-binary s machine own op a b m m' x v in
      let first = plain-still a m n y (ground (arith, p)) q in
      elim r [
        | inl (t, same, e) ↦ same ∙ first
        | inr (t, z, w, e) ↦ plain-still b n m' z (ground (arith, p)) w ∙ first
      ]
  plain-still (cl_expression d i) m m' x p v = sym (ap (λ r. r.1) (some-injective (_, m) (x, m') v))

  -- Whether it is skipped or not, a plain second operand leaves the memory.
  Second-still :
      (op : ℕ) (b : Expr) (y : Value) (m1 : Memory) (x : Value) (m' : Memory)
      → is_plain b ≡ true
      → Second s machine own op b y m1 x m'
      → m' ≡ m1
  Second-still op b y m1 x m' p (inl (t, same, e)) = same
  Second-still op b y m1 x m' p (inr (t, z, w, e)) = plain-still b m1 m' z p w

module _ (s : Store) (this : ℕ) where
  -- The analysis of a plain expression leaves the state.
  pub plain-Ensures :
      (e : Expr) (st : State)
      → is_plain e ≡ true
      → Ensures (is_expression_divergent s this e) st (λ d st'. st' ≡ st)
  unfolding is_plain is_expression_divergent
  plain-Ensures (constant k) st p = Ensures-last (λ _. false) (λ st. st) st _ refl
  plain-Ensures (variable v n) st p =
      Ensures-read _ _ st (Reached s this st n (v ∷ [])) _
        (dereference_pointer_variable_lem s this v n st)
        (λ (vars, d) r.
          Ensures-if d _ _ st _ (λ _. Ensures-last (λ _. true) (λ st. st) st _ refl)
            (λ _.
              Ensures-weaken _ st (λ c st'. Covers s this st vars c × (st' ≡ st)) _
                (any_divergent_lem s this vars st) (λ c st' (_, same). same)))
  plain-Ensures (address_of v) st p =
      Ensures-weaken _ st (λ c st'. Covers s this st (v ∷ []) c × (st' ≡ st)) _
        (any_divergent_lem s this (v ∷ []) st) (λ c st' (_, same). same)
  plain-Ensures (assignment v n e) st p = absurd (ground (arith, p))
  plain-Ensures (comma a b) st p =
      Ensures-bind _ _ st _ _ (plain-Ensures a st (ground (arith, p))) (λ d st1 q.
        Ensures-weaken _ st1 _ _ (plain-Ensures b st1 (ground (arith, p))) (λ c st2 r. r ∙ q))
  plain-Ensures (unary op a) st p = plain-Ensures a st p
  plain-Ensures (binary op a b) st p =
      Ensures-bind _ _ st _ _ (plain-Ensures a st (ground (arith, p))) (λ d st1 q.
        Ensures-bind _ _ st1 _ _ (plain-Ensures b st1 (ground (arith, p)))
          (λ c st2 r. Ensures-last (λ _. d || c) (λ st. st) st2 _ (r ∙ q)))
  plain-Ensures (cl_expression d i) st p = Ensures-last (λ _. d) (λ st. st) st _ refl

  variable-Yields :
      (v : Variable) (n : ℕ) (st : State)
      → (n == 0) ≡ true
      → Yields (dereference_pointer_variable s this v n) st
  unfolding dereference_pointer_variable dereference
  variable-Yields v zero st p =
      Yields-if (ltb (indirect_level s v) 0) _ _ st (λ e. absurd (ground (arith, e)))
        (λ _. Yields-last (λ _. (v ∷ [], false)) (λ st. st) st)
  variable-Yields v (suc n) st p = absurd (ground (arith, p))

  -- It fails no assertion, whether a thread can evaluate the expression or not.
  pub plain-Yields :
      ((v : Variable) → (s v).is_array ≡ false)
      → (e : Expr) (st : State) → is_plain e ≡ true
      → Yields (is_expression_divergent s this e) st
  unfolding is_plain is_expression_divergent
  plain-Yields plain (constant k) st p = Yields-last (λ _. false) (λ st. st) st
  plain-Yields plain (variable v n) st p =
      Yields-bind _ _ st (variable-Yields v n st p) (λ (vars, d) st1 _.
        Yields-if d _ _ st1 (λ _. Yields-last (λ _. true) (λ st. st) st1)
          (λ _. any_divergent-Yields s this plain vars st1))
  plain-Yields plain (address_of v) st p = any_divergent-Yields s this plain (v ∷ []) st
  plain-Yields plain (assignment v n e) st p = absurd (ground (arith, p))
  plain-Yields plain (comma a b) st p =
      Yields-bind _ _ st (plain-Yields plain a st (ground (arith, p)))
        (λ d st1 _. plain-Yields plain b st1 (ground (arith, p)))
  plain-Yields plain (unary op a) st p = plain-Yields plain a st p
  plain-Yields plain (binary op a b) st p =
      Yields-bind _ _ st (plain-Yields plain a st (ground (arith, p))) (λ d st1 _.
        Yields-bind _ _ st1 (plain-Yields plain b st1 (ground (arith, p)))
          (λ c st2 _. Yields-last (λ _. d || c) (λ st. st) st2))
  plain-Yields plain (cl_expression d i) st p = Yields-last (λ _. d) (λ st. st) st

module _ (s : Store) (this : ℕ) (machine : Machine) (own1 own2 : ℕ → ℕ) where
  -- The threads agree after an operator whose second operand each of them may skip.
  pub ordered-SameValue :
      (op : ℕ) (a b : Expr) (st st1 st2 : State) (d c : Bool)
      → is_plain b ≡ true
      → st2 ≡ st1
      → SameValue s this machine own1 own2 a st d st1
      → SameValue s this machine own1 own2 b st1 c st2
      → SameValue s this machine own1 own2 (binary op a b) st (d || c) st2
  ordered-SameValue op a b st st1 st2 d c p same h k m1 m2 m1' m2' x1 x2 g v1 v2 =
      let (y1, n1, p1, r1) = eval-binary s machine own1 op a b m1 m1' x1 v1 in
      let (y2, n2, p2, r2) = eval-binary s machine own2 op a b m2 m2' x2 v2 in
      let (g1, equal) = h m1 m2 n1 n2 y1 y2 g p1 p2 in
      let still1 = Second-still s machine own1 op b y1 n1 x1 m1' p r1 in
      let still2 = Second-still s machine own2 op b y2 n2 x2 m2' p r2 in
      (
        rw (same, still1, still2) g1,
        λ f.
            let first : y1 ≡ y2 = equal (ground (arith, f)) in
            let both : decides s machine op y1 ≡ decides s machine op y2 =
              ap (decides s machine op) first in
            elim r1 as (λ r. x1 ≡ x2) [
              | inl (t1, _, e1) ↦ elim r2 as (λ r. x1 ≡ x2) [
                | inl (t2, _, e2) ↦ e1 ∙ sym e2
                | inr (t2, _, _, _) ↦ absurd (ground (arith, t1, t2, both))
              ]
              | inr (t1, z1, w1, e1) ↦ elim r2 as (λ r. x1 ≡ x2) [
                | inl (t2, _, _) ↦ absurd (ground (arith, t1, t2, both))
                | inr (t2, z2, w2, e2) ↦
                    let (_, same') = k n1 n2 m1' m2' z1 z2 g1 w1 w2 in
                    rw (e1, e2, first, same' (ground (arith, f))) refl
              ]
            ],
      )
