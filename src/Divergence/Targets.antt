-- ===== src/Divergence/Targets.antt =====
-- src/CLSmith/Divergence.cpp: the loops that read the state find all variables that a thread reaches.
use mathlib.Core.Option.{some-injective}
use clsmith.Prelude.{
  ℕ, zero, suc, ◌≡◌, refl, sym, ◌∙◌, inl, inr, Bool, true, false, not, ◌||◌, ◌&&◌, none, some, List,
  [], ◌∷◌, ltb, Bool-cases, arith,
}
use clsmith.Variables.{Variable, Store, var_eq}
use clsmith.Variables.Sets.{is_variable_in_set, add_variables_to_set}
use clsmith.Variables.Membership.{var_eq_sound}
use clsmith.Variables.Union.{add_variables_to_set_union}
use clsmith.Divergence.{State, is_found, search_variable, is_variable_divergent, derefs_to}
use clsmith.Divergence.Saved.{may_diverge}
use clsmith.Divergence.Expressions.{
  deref_level, dereference, dereference_pointer_variable, any_divergent, indirect_level,
}
use clsmith.Divergence.Ensures.{
  Ensures, Reads, Ensures-read, Ensures-last, Ensures-fail, Ensures-if, Ensures-weaken,
}
use clsmith.Divergence.Threads.{Value-cases, addr, Memory, target, Points, Agree}

module _ (s : Store) (this : ℕ) where
  -- A test reads the state and changes nothing.
  pub is_variable_divergent_lem :
      (v : Variable) (st : State)
      → Reads (is_variable_divergent s this v) st (λ d. d ≡ may_diverge s this st v)
  unfolding is_variable_divergent Ensures
  is_variable_divergent_lem v st d st' h =
      elim (Bool-cases ((s v).is_array && not (is_found (search_variable s this st v)))) [
        | inl e ↦ absurd (ground (arith, e, h))
        | inr e ↦ (ground (arith, e, h), ground (arith, e, h))
      ]

  -- What one round finds, at the variables of a set.
  abbrev pub Level : State → List Variable → List Variable × Bool → Type 0
  Level st vs (next, d) =
      ((v : Variable)
        → is_variable_in_set vs v ≡ true
        → d ≡ false
        → may_diverge s this st v ≡ false)
      × ((v w : Variable)
          → is_variable_in_set vs v ≡ true
          → is_variable_in_set (derefs_to s st v) w ≡ true
          → is_variable_in_set next w ≡ true)

  Level-cons :
      (st : State) (v : Variable) (vs next : List Variable) (d e : Bool)
      → d ≡ may_diverge s this st v
      → Level st vs (next, e)
      → Level st (v ∷ vs) ((add_variables_to_set (derefs_to s st v) next).0, d || e)
  unfolding is_variable_in_set
  Level-cons st v vs next d e p (h, k) = (
    λ w m f. elim (Bool-cases (var_eq v w)) [
      | inl c ↦ let same : v ≡ w = var_eq_sound v w c in rw (← same) (ground (arith, p, f))
      | inr c ↦ h w (ground (arith, m, c)) (ground (arith, f))
    ],
    λ w x m n. elim (Bool-cases (var_eq v w)) [
      | inl c ↦
          let same : v ≡ w = var_eq_sound v w c in
          let n' : is_variable_in_set (derefs_to s st v) x ≡ true = rw same n in
          ground (arith, (add_variables_to_set_union (derefs_to s st v) next).0 x, n')
      | inr c ↦ ground (
        arith,
        (add_variables_to_set_union (derefs_to s st v) next).0 x,
        k w x (ground (arith, m, c)) n,
      )
    ],
  )

  pub deref_level_lem :
      (vs : List Variable) (st : State) → Reads (deref_level s this vs) st (Level st vs)
  unfolding deref_level is_variable_in_set
  deref_level_lem [] st =
      Ensures-last (λ _. ([], false)) (λ st. st) st (λ r st'. Level st [] r × (st' ≡ st))
        ((λ v h. absurd (ground (arith, h)), λ v w h. absurd (ground (arith, h))), refl)
  deref_level_lem (v ∷ vs) st =
      Ensures-read _ _ st (λ d. d ≡ may_diverge s this st v) _ (is_variable_divergent_lem v st)
        (λ d p. Ensures-read _ _ st (Level st vs) _ (deref_level_lem vs st) (λ (next, e) l.
          Ensures-last (λ st. ((add_variables_to_set (derefs_to s st v) next).0, d || e)) (λ st. st)
            st (λ r st'. Level st (v ∷ vs) r × (st' ≡ st)) (Level-cons st v vs next d e p l, refl)))

  pub target-suc :
      (m : Memory) (n : ℕ) (v w u : Variable)
      → target m n v ≡ some w
      → m w ≡ addr u
      → target m (suc n) v ≡ some u
  unfolding target
  target-suc m zero v w u t e =
      let e' : m v ≡ addr u = rw (some-injective v w t) e in rw (target, e') refl
  target-suc m (suc n) v w u t e = elim (Value-cases (m v)) [
    | inl (x, c) ↦ let z : none ≡ some w = rw (target, c) at t in absurd (ground (arith, z))
    | inr (y, c) ↦ rw (target, c) (target-suc m n y w u (rw (target, c) at t) e)
  ]

  -- The pointers that are read last are the same in both threads where none on the way may diverge.
  abbrev pub SamePointers : State → ℕ → List Variable → Bool → Type 0
  SamePointers st n vs d =
      (m1 m2 : Memory) (v w : Variable) (k : ℕ)
      → n ≡ suc k
      → Agree s this st m1 m2
      → is_variable_in_set vs v ≡ true
      → d ≡ false
      → target m1 k v ≡ some w
      → (target m2 k v ≡ some w) × (m1 w ≡ m2 w)

  SamePointers-suc :
      (st : State) (n : ℕ) (vs next : List Variable) (d e : Bool)
      → Level st vs (next, d)
      → SamePointers st n next e
      → SamePointers st (suc n) vs (d || e)
  unfolding target
  SamePointers-suc st n vs next d e (h, k) t m1 m2 v w zero q a i f r =
      (r, rw (← some-injective v w r) (a.same v (h v i (ground (arith, f)))))
  SamePointers-suc st n vs next d e (h, k) t m1 m2 v w (suc j) q a i f r =
      elim (Value-cases (m1 v)) [
        | inl (x, c) ↦ let z : none ≡ some w = rw (target, c) at r in absurd (ground (arith, z))
        | inr (u, c) ↦
            let (r', same) =
              t m1 m2 u w j (omega (arith, q)) a (k v u i (a.points1 v u c)) (ground (arith, f))
                (rw (target, c) at r) in
            let c' : m2 v ≡ addr u = sym (a.same v (h v i (ground (arith, f)))) ∙ c in
            (rw (target, c') r', same)
      ]

  -- What the dereferencing of a set finds: every target, and where nothing on the way may diverge,
  -- the same one in both threads.
  abbrev pub Reached : State → ℕ → List Variable → List Variable × Bool → Type 0
  Reached st n vs (last, d) =
      ((m : Memory) (v w : Variable)
        → Points s st m
        → is_variable_in_set vs v ≡ true
        → target m n v ≡ some w
        → is_variable_in_set last w ≡ true)
      × ((m1 m2 : Memory) (v : Variable)
          → Agree s this st m1 m2
          → is_variable_in_set vs v ≡ true
          → d ≡ false
          → target m1 n v ≡ target m2 n v)
      × SamePointers st n vs d

  Reached-suc :
      (st : State) (n : ℕ) (vs next last : List Variable) (d e : Bool)
      → Level st vs (next, d)
      → Reached st n next (last, e)
      → Reached st (suc n) vs (last, d || e)
  unfolding target
  Reached-suc st n vs next last d e (h, k) (r, t, p) = (
    λ m v w p i q. elim (Value-cases (m v)) [
      | inl (j, c) ↦ let z : none ≡ some w = rw (target, c) at q in absurd (ground (arith, z))
      | inr (u, c) ↦ r m u w p (k v u i (p v u c)) (rw (target, c) at q)
    ],
    λ m1 m2 v a i f.
        let same : m1 v ≡ m2 v = a.same v (h v i (ground (arith, f))) in
        elim (Value-cases (m2 v)) [
          | inl (j, c) ↦ rw (target, same, c) refl
          | inr (u, c) ↦
              rw (target, same, c) (t m1 m2 u a (k v u i (a.points2 v u c)) (ground (arith, f)))
        ],
    SamePointers-suc st n vs next d e (h, k) p,
  )

  dereference_lem :
      (n : ℕ) (vs : List Variable) (st : State)
      → Reads (dereference s this n vs) st (Reached st n vs)
  unfolding dereference target
  dereference_lem zero vs st =
      Ensures-last (λ _. (vs, false)) (λ st. st) st (λ r st'. Reached st 0 vs r × (st' ≡ st))
        (
          (
            λ m v w p i q. rw (← some-injective v w q) i,
            λ m1 m2 v a i f. refl,
            λ m1 m2 v w k q a i f r. absurd (omega (arith, q)),
          ),
          refl,
        )
  dereference_lem (suc n) [] st = Ensures-fail st (λ r st'. Reached st (suc n) [] r × (st' ≡ st))
  dereference_lem (suc n) (v ∷ vs) st =
      Ensures-read _ _ st (Level st (v ∷ vs)) _ (deref_level_lem (v ∷ vs) st) (λ (next, d) l.
        Ensures-read _ _ st (Reached st n next) _ (dereference_lem n next st) (λ (last, e) r.
          Ensures-last (λ _. (last, d || e)) (λ st. st) st
            (λ r st'. Reached st (suc n) (v ∷ vs) r × (st' ≡ st))
            (Reached-suc st n (v ∷ vs) next last d e l r, refl)))

  pub dereference_pointer_variable_lem :
      (v : Variable) (n : ℕ) (st : State)
      → Reads (dereference_pointer_variable s this v n) st (Reached st n (v ∷ []))
  unfolding dereference_pointer_variable
  dereference_pointer_variable_lem v n st =
      Ensures-if (ltb (indirect_level s v) n) _ _ st (λ r st'. Reached st n (v ∷ []) r × (st' ≡ st))
        (λ _. Ensures-fail st (λ r st'. Reached st n (v ∷ []) r × (st' ≡ st)))
        (λ _. dereference_lem n (v ∷ []) st)

  -- The test of a set.
  abbrev pub Covers : State → List Variable → Bool → Type 0
  Covers st vs d =
      (v : Variable) → is_variable_in_set vs v ≡ true → d ≡ false → may_diverge s this st v ≡ false

  pub any_divergent_lem :
      (vs : List Variable) (st : State) → Reads (any_divergent s this vs) st (Covers st vs)
  unfolding any_divergent is_variable_in_set
  any_divergent_lem [] st =
      Ensures-last (λ _. false) (λ st. st) st _ ((λ v h f. absurd (ground (arith, h))), refl)
  any_divergent_lem (v ∷ vs) st =
      Ensures-read _ _ st (λ d. d ≡ may_diverge s this st v) _ (is_variable_divergent_lem v st)
        (λ d p.
          Ensures-if d _ _ st _
            (λ e.
              Ensures-last (λ _. true) (λ st. st) st _
                ((λ w h f. absurd (ground (arith, f))), refl))
            (λ e.
              Ensures-weaken _ st (λ c st'. Covers st vs c × (st' ≡ st)) _ (any_divergent_lem vs st)
                (λ c st' (h, same). (
                  λ w m f. elim (Bool-cases (var_eq v w)) [
                    | inl q ↦
                        let eq : v ≡ w = var_eq_sound v w q in rw (← eq) (ground (arith, p, e))
                    | inr q ↦ h w (ground (arith, m, q)) f
                  ],
                  same,
                ))))
