-- ===== src/Divergence/Assigned.antt =====
-- src/CLSmith/Divergence.cpp: threads that agree still do so after an assignment to a single target.
use clsmith.Prelude.{
  ℕ, ◌≡◌, sym, ◌∙◌, inl, inr, Bool, true, false, ◌&&◌, ◌||◌, List, [], ◌∷◌, if◌then◌else◌, leb,
  length, Bool-cases, arith,
}
use clsmith.Variables.{Variable, Store, var_eq}
use clsmith.Variables.Sets.{is_variable_in_set}
use clsmith.Variables.Membership.{var_eq_refl, var_eq_sound}
use clsmith.Divergence.{State, derefs_to}
use clsmith.Divergence.Saved.{may_diverge}
use clsmith.Divergence.Expressions.{set_all, reseat_all}
use clsmith.Divergence.Updates.{
  may_diverge-set_all, derefs_to-set_all, may_diverge-reseat_all, in_reseat_all,
}
use clsmith.Divergence.Threads.{Value, num, addr, Memory, assign_to, is_address, Points, Agree}

one_target :
    (vs : List Variable) (v w : Variable)
    → leb (length vs) 1 ≡ true
    → is_variable_in_set vs v ≡ true
    → is_variable_in_set vs w ≡ true
    → v ≡ w
unfolding is_variable_in_set
one_target [] v w h i j = absurd (ground (arith, i))
one_target (x ∷ []) v w h i j =
    sym (var_eq_sound x v (ground (arith, i))) ∙ var_eq_sound x w (ground (arith, j))
one_target (x ∷ y ∷ vs) v w h i j = absurd (ground (arith, h))

-- Another variable than one of the set.
elsewhere :
    (vs : List Variable) (w v : Variable)
    → is_variable_in_set vs w ≡ true
    → is_variable_in_set vs v ≡ false
    → var_eq w v ≡ false
elsewhere vs w v i j = elim (Bool-cases (var_eq w v)) [
  | inl e ↦
      let same : w ≡ v = var_eq_sound w v e in
      let t : is_variable_in_set vs v ≡ true = rw (← same) i in absurd (ground (arith, j, t))
  | inr e ↦ e
]

module _ (s : Store) (this : ℕ) where
  -- The values of the variables after both threads have assigned to the only target.
  same_after :
      (st st' : State) (m1 m2 : Memory) (vs : List Variable) (b : Bool) (w1 w2 : Variable)
      (x1 x2 : Value)
      → ((v : Variable)
          → may_diverge s this st' v
            ≡ (if is_variable_in_set vs v then b else may_diverge s this st v))
      → Agree s this st m1 m2
      → leb (length vs) 1 ≡ true
      → is_variable_in_set vs w1 ≡ true
      → is_variable_in_set vs w2 ≡ true
      → (b ≡ false → x1 ≡ x2)
      → (v : Variable) → may_diverge s this st' v ≡ false
      → assign_to m1 w1 x1 v ≡ assign_to m2 w2 x2 v
  same_after st st' m1 m2 vs b w1 w2 x1 x2 u a one i1 i2 h v c =
      elim (Bool-cases (is_variable_in_set vs v)) [
        | inl i ↦
            let e1 : w1 ≡ v = one_target vs w1 v one i1 i in
            let e2 : w2 ≡ v = one_target vs w2 v one i2 i in
            rw (e1, e2, var_eq_refl v) (h (ground (arith, u v, i, c)))
        | inr i ↦
            rw (elsewhere vs w1 v i1 i, elsewhere vs w2 v i2 i)
              (a.same v (ground (arith, u v, i, c)))
      ]

  -- What one thread's memory may point to after the assignment.
  Points-after :
      (st st' : State) (m : Memory) (vs refs : List Variable) (w : Variable) (x : Value)
      → ((v u : Variable)
          → is_variable_in_set (derefs_to s st' v) u ≡ (
              is_variable_in_set (derefs_to s st v) u
              || (is_variable_in_set vs v && is_variable_in_set refs u)))
      → Points s st m
      → is_variable_in_set vs w ≡ true
      → ((u : Variable) → x ≡ addr u → is_variable_in_set refs u ≡ true)
      → Points s st' (assign_to m w x)
  Points-after st st' m vs refs w x k p i h v u e = elim (Bool-cases (var_eq w v)) [
    | inl c ↦
        let same : w ≡ v = var_eq_sound w v c in
        let i' : is_variable_in_set vs v ≡ true = rw (← same) i in
        ground (arith, k v u, i', h u (rw c at e))
    | inr c ↦ ground (arith, k v u, p v u (rw c at e))
  ]

  pub Agree-reseat_all :
      (st : State) (m1 m2 : Memory) (vs refs : List Variable) (b : Bool) (w1 w2 : Variable)
      (x1 x2 : Value)
      → Agree s this st m1 m2
      → leb (length vs) 1 ≡ true
      → is_variable_in_set vs w1 ≡ true
      → is_variable_in_set vs w2 ≡ true
      → (b ≡ false → x1 ≡ x2)
      → ((u : Variable) → x1 ≡ addr u → is_variable_in_set refs u ≡ true)
      → ((u : Variable) → x2 ≡ addr u → is_variable_in_set refs u ≡ true)
      → Agree s this (reseat_all s vs refs b st) (assign_to m1 w1 x1) (assign_to m2 w2 x2)
  Agree-reseat_all st m1 m2 vs refs b w1 w2 x1 x2 a one i1 i2 h r1 r2 = record {
    same =
        same_after st (reseat_all s vs refs b st) m1 m2 vs b w1 w2 x1 x2
          (may_diverge-reseat_all s this vs refs b st) a one i1 i2 h;
    points1 =
        Points-after st (reseat_all s vs refs b st) m1 vs refs w1 x1
          (in_reseat_all s this vs refs b st) a.points1 i1 r1;
    points2 =
        Points-after st (reseat_all s vs refs b st) m2 vs refs w2 x2
          (in_reseat_all s this vs refs b st) a.points2 i2 r2;
  }

  number_only :
      (x : Value) (u : Variable)
      → is_address x ≡ false
      → x ≡ addr u
      → is_variable_in_set [] u ≡ true
  number_only (num k) u h e = cc
  number_only (addr w) u h e = absurd (ground (arith, h))

  in_set_all :
      (vs : List Variable) (b : Bool) (st : State) (v u : Variable)
      → is_variable_in_set (derefs_to s (set_all s vs b st) v) u ≡ (
          is_variable_in_set (derefs_to s st v) u
          || (is_variable_in_set vs v && is_variable_in_set [] u))
  unfolding is_variable_in_set
  in_set_all vs b st v u = rw (derefs_to-set_all s this vs b st v) (ground arith)

  pub Agree-set_all :
      (st : State) (m1 m2 : Memory) (vs : List Variable) (b : Bool) (w1 w2 : Variable)
      (x1 x2 : Value)
      → Agree s this st m1 m2
      → leb (length vs) 1 ≡ true
      → is_variable_in_set vs w1 ≡ true
      → is_variable_in_set vs w2 ≡ true
      → (b ≡ false → x1 ≡ x2)
      → is_address x1 ≡ false
      → is_address x2 ≡ false
      → Agree s this (set_all s vs b st) (assign_to m1 w1 x1) (assign_to m2 w2 x2)
  Agree-set_all st m1 m2 vs b w1 w2 x1 x2 a one i1 i2 h n1 n2 = record {
    same =
        same_after st (set_all s vs b st) m1 m2 vs b w1 w2 x1 x2
          (may_diverge-set_all s this vs b st) a one i1 i2 h;
    points1 =
        Points-after st (set_all s vs b st) m1 vs [] w1 x1 (in_set_all vs b st) a.points1 i1
          (λ u. number_only x1 u n1);
    points2 =
        Points-after st (set_all s vs b st) m2 vs [] w2 x2 (in_set_all vs b st) a.points2 i2
          (λ u. number_only x2 u n2);
  }
