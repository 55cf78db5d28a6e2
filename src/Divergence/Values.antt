-- ===== src/Divergence/Values.antt =====
-- src/CLSmith/Divergence.cpp: what two threads have after each kind of expression.
use clsmith.Prelude.{
  ℕ, suc, ◌≡◌, refl, sym, ap, ◌∙◌, Bool, true, false, ◌||◌, some, List, [], ◌∷◌, if◌then◌else◌,
  arith,
}
use mathlib.Core.Option.{some-injective}
use clsmith.Variables.{Variable, Store}
use clsmith.Variables.Membership.{var_eq_refl}
use clsmith.Variables.Sets.{is_variable_in_set}
use clsmith.Divergence.{State}
use clsmith.Divergence.Expressions.{
  Expr, constant, variable, address_of, assignment, comma, unary, binary, cl_expression,
  is_expression_divergent, is_ordered,
}
use clsmith.Divergence.Ensures.{Ensures, Ensures-read, Ensures-last, Ensures-if, Ensures-weaken}
use clsmith.Divergence.Targets.{
  target-suc, Reached, dereference_pointer_variable_lem, Covers, any_divergent_lem,
}
use clsmith.Divergence.Threads.{Value, num, addr, Memory, target, Machine, eval}
use clsmith.Divergence.Steps.{
  Evaluates, eval-assignment, eval-variable, eval-comma, eval-unary, eval-binary, eval-Second,
}
use clsmith.Divergence.Assignments.{SameValue, SameReferences, itself}

module _ (s : Store) (this : ℕ) (machine : Machine) (own1 own2 : ℕ → ℕ) where
  pub variable-SameValue :
      (v : Variable) (n : ℕ) (st : State)
      → Ensures
          (is_expression_divergent s this (variable v n))
          st
          (SameValue s this machine own1 own2 (variable v n) st)
  unfolding is_expression_divergent
  variable-SameValue v n st =
      Ensures-read _ _ st (Reached s this st n (v ∷ [])) _
        (dereference_pointer_variable_lem s this v n st)
        (λ (vars, d) r.
          Ensures-if d _ _ st _
            (λ e.
              Ensures-last (λ _. true) (λ st. st) st _
                (λ m1 m2 m1' m2' x1 x2 a v1 v2.
                  let (w1, t1, e1, f1) = eval-variable s machine own1 v n m1 m1' x1 v1 in
                  let (w2, t2, e2, f2) = eval-variable s machine own2 v n m2 m2' x2 v2 in
                  (rw (f1, f2) a, λ q. absurd (ground (arith, q)))))
            (λ e.
              Ensures-weaken _ st (λ c st'. Covers s this st vars c × (st' ≡ st)) _
                (any_divergent_lem s this vars st)
                (λ c st' (k, same) m1 m2 m1' m2' x1 x2 a v1 v2.
                  let (w1, t1, e1, f1) = eval-variable s machine own1 v n m1 m1' x1 v1 in
                  let (w2, t2, e2, f2) = eval-variable s machine own2 v n m2 m2' x2 v2 in
                  (
                    rw (same, f1, f2) a,
                    λ q.
                        let i : is_variable_in_set vars w1 ≡ true =
                          r.0 m1 v w1 a.points1 (itself s this machine own1 own2 v) t1 in
                        let t : some w1 ≡ some w2 =
                          sym t1 ∙ r.1 m1 m2 v a (itself s this machine own1 own2 v) e ∙ t2 in
                        let w : w1 ≡ w2 = some-injective w1 w2 t in
                        e1 ∙ a.same w1 (k w1 i q) ∙ rw (w, e2) refl,
                  ))))

  -- An expression that changes no memory.
  still-SameValue :
      (e : Expr) (st : State) (d : Bool) (x : (ℕ → ℕ) → Value)
      → ((own : ℕ → ℕ) (m : Memory) → eval s machine own e m ≡ some (x own, m))
      → (d ≡ false → x own1 ≡ x own2)
      → SameValue s this machine own1 own2 e st d st
  still-SameValue e st d x h k m1 m2 m1' m2' x1 x2 a v1 v2 =
      let q1 = some-injective (x own1, m1) (x1, m1') (sym (h own1 m1) ∙ v1) in
      let q2 = some-injective (x own2, m2) (x2, m2') (sym (h own2 m2) ∙ v2) in
      (
        rw (← ap (λ r. r.1) q1, ← ap (λ r. r.1) q2) a,
        λ f. sym (ap (λ r. r.0) q1) ∙ k f ∙ ap (λ r. r.0) q2,
      )

  pub constant-SameValue :
      (k : ℕ) (st : State) (d : Bool) → SameValue s this machine own1 own2 (constant k) st d st
  unfolding eval
  constant-SameValue k st d =
      still-SameValue (constant k) st d (λ _. num k) (λ own m. refl) (λ _. refl)

  pub address-SameValue :
      (v : Variable) (st : State) (d : Bool)
      → SameValue s this machine own1 own2 (address_of v) st d st
  unfolding eval
  address-SameValue v st d =
      still-SameValue (address_of v) st d (λ _. addr v) (λ own m. refl) (λ _. refl)

  pub cl_expression-SameValue :
      (d : Bool) (i : ℕ) (st : State)
      → SameValue s this machine own1 own2 (cl_expression d i) st d st
  unfolding eval
  cl_expression-SameValue d i st =
      still-SameValue (cl_expression d i) st d
        (λ own. num (if d then own i else machine.shared_value i)) (λ own m. refl) (λ f. rw f refl)

  pub comma-SameValue :
      (a b : Expr) (st st1 st2 : State) (d c : Bool)
      → SameValue s this machine own1 own2 a st d st1
      → SameValue s this machine own1 own2 b st1 c st2
      → SameValue s this machine own1 own2 (comma a b) st c st2
  comma-SameValue a b st st1 st2 d c h k m1 m2 m1' m2' x1 x2 g v1 v2 =
      let (y1, n1, p1, q1) = eval-comma s machine own1 a b m1 m1' x1 v1 in
      let (y2, n2, p2, q2) = eval-comma s machine own2 a b m2 m2' x2 v2 in
      k n1 n2 m1' m2' x1 x2 (h m1 m2 n1 n2 y1 y2 g p1 p2).0 q1 q2

  pub comma-SameReferences :
      (a b : Expr) (st st1 st2 : State) (d : Bool) (r : List Variable × Bool)
      → SameValue s this machine own1 own2 a st d st1
      → SameReferences s this machine own1 own2 b st1 r st2
      → SameReferences s this machine own1 own2 (comma a b) st r st2
  comma-SameReferences a b st st1 st2 d r h k m1 m2 m1' m2' x1 x2 g v1 v2 =
      let (y1, n1, p1, q1) = eval-comma s machine own1 a b m1 m1' x1 v1 in
      let (y2, n2, p2, q2) = eval-comma s machine own2 a b m2 m2' x2 v2 in
      k n1 n2 m1' m2' x1 x2 (h m1 m2 n1 n2 y1 y2 g p1 p2).0 q1 q2

  pub unary-SameValue :
      (op : ℕ) (a : Expr) (st st1 : State) (d : Bool)
      → SameValue s this machine own1 own2 a st d st1
      → SameValue s this machine own1 own2 (unary op a) st d st1
  unary-SameValue op a st st1 d h m1 m2 m1' m2' x1 x2 g v1 v2 =
      let (y1, p1, q1) = eval-unary s machine own1 op a m1 m1' x1 v1 in
      let (y2, p2, q2) = eval-unary s machine own2 op a m2 m2' x2 v2 in
      let (k, same) = h m1 m2 m1' m2' y1 y2 g p1 p2 in (k, λ f. rw (q1, q2, same f) refl)

  -- Both operands are evaluated.
  pub binary-SameValue :
      (op : ℕ) (a b : Expr) (st st1 st2 : State) (d c : Bool)
      → is_ordered op ≡ false
      → SameValue s this machine own1 own2 a st d st1
      → SameValue s this machine own1 own2 b st1 c st2
      → SameValue s this machine own1 own2 (binary op a b) st (d || c) st2
  binary-SameValue op a b st st1 st2 d c o h k m1 m2 m1' m2' x1 x2 g v1 v2 =
      let (y1, n1, p1, r1) = eval-binary s machine own1 op a b m1 m1' x1 v1 in
      let (y2, n2, p2, r2) = eval-binary s machine own2 op a b m2 m2' x2 v2 in
      let (z1, q1, e1) = eval-Second s machine own1 op b y1 n1 x1 m1' o r1 in
      let (z2, q2, e2) = eval-Second s machine own2 op b y2 n2 x2 m2' o r2 in
      let (g1, same) = h m1 m2 n1 n2 y1 y2 g p1 p2 in
      let (g2, same') = k n1 n2 m1' m2' z1 z2 g1 q1 q2 in
      (g2, λ f. rw (e1, e2, same (ground (arith, f)), same' (ground (arith, f))) refl)

  value_of :
      (own : ℕ → ℕ) (e : Expr) (m m' : Memory) (y x : Value)
      → eval s machine own e m ≡ some (y, m)
      → Evaluates s machine own e m x m'
      → y ≡ x
  value_of own e m m' y x h v = ap (λ r. r.0) (some-injective (y, m) (x, m') (sym h ∙ v))

  named_in : (v u : Variable) → addr v ≡ addr u → is_variable_in_set (v ∷ []) u ≡ true
  named_in v u e = let same : v ≡ u = cc in rw (← same) (itself s this machine own1 own2 v)

  pub constant-SameReferences :
      (k : ℕ) (st : State) → SameReferences s this machine own1 own2 (constant k) st ([], false) st
  unfolding eval
  constant-SameReferences k st m1 m2 m1' m2' x1 x2 g v1 v2 =
      let (a, same) = constant-SameValue k st false m1 m2 m1' m2' x1 x2 g v1 v2 in
      (
        a,
        same,
        λ u e. absurd (ground (arith, value_of own1 (constant k) m1 m1' (num k) x1 refl v1, e)),
        λ u e. absurd (ground (arith, value_of own2 (constant k) m2 m2' (num k) x2 refl v2, e)),
      )

  pub address-SameReferences :
      (v : Variable) (st : State)
      → SameReferences s this machine own1 own2 (address_of v) st (v ∷ [], false) st
  unfolding eval
  address-SameReferences v st m1 m2 m1' m2' x1 x2 g v1 v2 =
      let (a, same) = address-SameValue v st false m1 m2 m1' m2' x1 x2 g v1 v2 in
      (
        a,
        same,
        λ u e. named_in v u (value_of own1 (address_of v) m1 m1' (addr v) x1 refl v1 ∙ e),
        λ u e. named_in v u (value_of own2 (address_of v) m2 m2' (addr v) x2 refl v2 ∙ e),
      )

  pub variable-SameReferences :
      (v : Variable) (n : ℕ) (st : State) (r : List Variable × Bool)
      → Reached s this st (suc n) (v ∷ []) r
      → SameReferences s this machine own1 own2 (variable v n) st r st
  unfolding target
  variable-SameReferences v n st r (find, _, same) m1 m2 m1' m2' x1 x2 a v1 v2 =
      let (w1, t1, e1, f1) = eval-variable s machine own1 v n m1 m1' x1 v1 in
      let (w2, t2, e2, f2) = eval-variable s machine own2 v n m2 m2' x2 v2 in
      let here = itself s this machine own1 own2 v in
      (
        rw (f1, f2) a,
        λ f.
            let (t, q) = same m1 m2 v w1 n refl a here f t1 in
            let w : w1 ≡ w2 = some-injective w1 w2 (sym t ∙ t2) in e1 ∙ q ∙ rw (w, e2) refl,
        λ u e. find m1 v u a.points1 here (target-suc s this m1 n v w1 u t1 (sym e1 ∙ e)),
        λ u e. find m2 v u a.points2 here (target-suc s this m2 n v w2 u t2 (sym e2 ∙ e)),
      )

  -- The value of a nested assignment to a variable is read off that variable.
  pub assignment-SameReferences :
      (v : Variable) (e : Expr) (st st1 : State) (d : Bool) (r : List Variable × Bool)
      → SameValue s this machine own1 own2 (assignment v 0 e) st d st1
      → Reached s this st1 1 (v ∷ []) r
      → SameReferences s this machine own1 own2 (assignment v 0 e) st r st1
  unfolding target
  assignment-SameReferences v e st st1 d r h (find, _, same) m1 m2 m1' m2' x1 x2 a v1 v2 =
      let (b, _) = h m1 m2 m1' m2' x1 x2 a v1 v2 in
      let p1 : m1' v ≡ x1 = stored own1 m1 m1' x1 v1 in
      let p2 : m2' v ≡ x2 = stored own2 m2 m2' x2 v2 in
      let here = itself s this machine own1 own2 v in
      (
        b,
        λ f. sym p1 ∙ (same m1' m2' v v 0 refl b here f refl).1 ∙ p2,
        λ u q. find m1' v u b.points1 here (target-suc s this m1' 0 v v u refl (p1 ∙ q)),
        λ u q. find m2' v u b.points2 here (target-suc s this m2' 0 v v u refl (p2 ∙ q)),
      )
    where
      stored :
          (own : ℕ → ℕ) (m m' : Memory) (x : Value)
          → Evaluates s machine own (assignment v 0 e) m x m'
          → m' v ≡ x
      stored own m m' x c =
          let (w, n, t, y, q, f) = eval-assignment s machine own v 0 e m m' x c in
          let same : v ≡ w = some-injective v w t in rw (q, ← same, var_eq_refl v) refl
