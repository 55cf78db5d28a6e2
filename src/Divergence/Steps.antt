-- ===== src/Divergence/Steps.antt =====
-- What a thread did when an expression had a value.
use clsmith.Prelude.{
  ℕ, ◌≡◌, sym, ap, ◌∙◌, ◌⊎◌, inl, inr, true, false, not, ◌&&◌, some, ltb, Bool-cases, Option-cases,
  arith,
}
use mathlib.Core.Option.{some-injective}
use clsmith.Variables.{Variable, Store}
use clsmith.Divergence.Expressions.{
  Expr, variable, assignment, comma, unary, binary, indirect_level, is_ordered,
}
use clsmith.Divergence.Threads.{
  Value, num, Memory, assign_to, target, is_address, Machine, store, eval, decides, decided_value,
  binary_step,
}

module _ (s : Store) (machine : Machine) (own : ℕ → ℕ) where
  abbrev pub Evaluates : Expr → Memory → Value → Memory → Type 0
  Evaluates e m x m' = eval s machine own e m ≡ some (x, m')

  pub eval-assignment :
      (v : Variable) (n : ℕ) (e : Expr) (m m'' : Memory) (x : Value)
      → Evaluates (assignment v n e) m x m''
      → (w : Variable) × (m' : Memory) × (target m n v ≡ some w)
        × Evaluates e m x m'
        × (m'' ≡ assign_to m' w x)
        × ((is_address x && not (ltb n (indirect_level s v))) ≡ false)
  unfolding eval store
  eval-assignment v n e m m'' x h = elim (Option-cases (target m n v)) [
    | inl a ↦ absurd (ground (arith, rw (eval, a) at h))
    | inr (w, a) ↦ elim (Option-cases (eval s machine own e m)) [
      | inl b ↦ absurd (ground (arith, rw (eval, a, b) at h))
      | inr ((y, m'), b) ↦ elim (Bool-cases (is_address y && not (ltb n (indirect_level s v)))) [
        | inl c ↦ absurd (ground (arith, rw (eval, a, b, store, c) at h))
        | inr c ↦
            let q =
              some-injective (y, assign_to m' w y) (x, m'') (rw (eval, a, b, store, c) at h) in
            let e1 : y ≡ x = ap (λ r. r.0) q in
            let e2 : assign_to m' w y ≡ m'' = ap (λ r. r.1) q in
            (w, m', a, rw e1 at b, sym e2 ∙ ap (λ (t : Value). assign_to m' w t) e1, rw e1 at c)
      ]
    ]
  ]

  pub eval-variable :
      (v : Variable) (n : ℕ) (m m' : Memory) (x : Value)
      → Evaluates (variable v n) m x m'
      → (w : Variable) × (target m n v ≡ some w) × (x ≡ m w) × (m' ≡ m)
  unfolding eval
  eval-variable v n m m' x h = elim (Option-cases (target m n v)) [
    | inl a ↦ absurd (ground (arith, rw (eval, a) at h))
    | inr (w, a) ↦
        let q = some-injective (m w, m) (x, m') (rw (eval, a) at h) in
        (w, a, sym (ap (λ r. r.0) q), sym (ap (λ r. r.1) q))
  ]

  pub eval-comma :
      (a b : Expr) (m m' : Memory) (x : Value)
      → Evaluates (comma a b) m x m'
      → (y : Value) × (m1 : Memory) × Evaluates a m y m1 × Evaluates b m1 x m'
  unfolding eval
  eval-comma a b m m' x h = elim (Option-cases (eval s machine own a m)) [
    | inl c ↦ absurd (ground (arith, rw (eval, c) at h))
    | inr ((y, m1), c) ↦ (y, m1, c, rw (eval, c) at h)
  ]

  pub eval-unary :
      (op : ℕ) (a : Expr) (m m' : Memory) (x : Value)
      → Evaluates (unary op a) m x m'
      → (y : Value) × Evaluates a m y m' × (x ≡ num (machine.unary_value op y))
  unfolding eval
  eval-unary op a m m' x h = elim (Option-cases (eval s machine own a m)) [
    | inl c ↦ absurd (ground (arith, rw (eval, c) at h))
    | inr ((y, m1), c) ↦
        let q = some-injective (num (machine.unary_value op y), m1) (x, m') (rw (eval, c) at h) in
        let e : m1 ≡ m' = ap (λ r. r.1) q in (y, rw e at c, sym (ap (λ r. r.0) q))
  ]

  -- The second operand is skipped, or it has a value.
  abbrev pub Second : ℕ → Expr → Value → Memory → Value → Memory → Type 0
  Second op b y m1 x m' =
      ((decides s machine op y ≡ true) × (m' ≡ m1) × (x ≡ decided_value s machine op))
      ⊎ ((decides s machine op y ≡ false)
          × (z : Value) × Evaluates b m1 z m'
          × (x ≡ num (machine.binary_value op y z)))

  pub eval-binary :
      (op : ℕ) (a b : Expr) (m m' : Memory) (x : Value)
      → Evaluates (binary op a b) m x m'
      → (y : Value) × (m1 : Memory) × Evaluates a m y m1 × Second op b y m1 x m'
  unfolding eval binary_step
  eval-binary op a b m m' x h = elim (Option-cases (eval s machine own a m)) [
    | inl c ↦ absurd (ground (arith, rw (eval, c) at h))
    | inr ((y, m1), c) ↦ (
      y,
      m1,
      c,
      elim (Bool-cases (decides s machine op y)) [
        | inl t ↦
            let q =
              some-injective (decided_value s machine op, m1) (x, m') (rw (eval, c, t) at h) in
            inl (t, sym (ap (λ r. r.1) q), sym (ap (λ r. r.0) q))
        | inr t ↦ elim (Option-cases (eval s machine own b m1)) [
          | inl d ↦ absurd (ground (arith, rw (eval, c, t, d) at h))
          | inr ((z, m2), d) ↦
              let q =
                some-injective (num (machine.binary_value op y z), m2) (x, m')
                  (rw (eval, c, t, d) at h) in
              let e : m2 ≡ m' = ap (λ r. r.1) q in inr (t, z, rw e at d, sym (ap (λ r. r.0) q))
        ]
      ],
    )
  ]

  pub eval-Second :
      (op : ℕ) (b : Expr) (y : Value) (m1 : Memory) (x : Value) (m' : Memory)
      → is_ordered op ≡ false
      → Second op b y m1 x m'
      → (z : Value) × Evaluates b m1 z m' × (x ≡ num (machine.binary_value op y z))
  eval-Second op b y m1 x m' o (inl (t, _, _)) = absurd (ground (arith, o, t))
  eval-Second op b y m1 x m' o (inr (t, z, w, e)) = (z, w, e)
