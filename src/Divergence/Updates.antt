-- ===== src/Divergence/Updates.antt =====
-- src/CLSmith/Divergence.cpp: what the updates of the state change.
use clsmith.Prelude.{
  ℕ, ◌≡◌, refl, ◌∙◌, inl, inr, Bool, true, false, ◌||◌, ◌&&◌, some, List, [], ◌∷◌, if◌then◌else◌,
  Bool-cases, arith,
}
use clsmith.Variables.{Variable, Store, var_eq, is_global}
use clsmith.Variables.Sets.{is_variable_in_set}
use clsmith.Variables.Membership.{var_eq_sound, var_eq_symm}
use clsmith.Variables.Union.{add_variables_to_set_union}
use clsmith.Divergence.{
  variable_key, find, State, search_variable, set_variable_divergence, derefs_to, insert_derefs,
  insert_at,
}
use clsmith.Divergence.Maps.{find-put}
use clsmith.Divergence.Saved.{may_diverge, own_map, below, or_else, search_variable_lem}
use clsmith.Divergence.Expressions.{set_all, reseat_all}

in_insert_at :
    (v : Variable) (refs : List Variable) (m : Variable → List Variable) (w x : Variable)
    → is_variable_in_set (insert_at v refs m w) x
      ≡ (is_variable_in_set (m w) x || (var_eq v w && is_variable_in_set refs x))
in_insert_at v refs m w x = elim (Bool-cases (var_eq v w)) [
  | inl e ↦ rw e ((add_variables_to_set_union (m w) refs).0 x)
  | inr e ↦ rw e (ground arith)
]

module _ (s : Store) (this : ℕ) where
  -- Two variables of which one is global are not the same.
  differ : (v w : Variable) → is_global s v ≡ true → is_global s w ≡ false → var_eq v w ≡ false
  differ v w g h = elim (Bool-cases (var_eq v w)) [
    | inl e ↦
        let same : v ≡ w = var_eq_sound v w e in
        let t : is_global s v ≡ false = rw same h in absurd (ground (arith, g, t))
    | inr e ↦ e
  ]

  find-own_map :
      (v : Variable) (b : Bool) (st : State) (w : Variable)
      → find (own_map s this (set_variable_divergence s v b st) w) w
        ≡ (if var_eq v w then some b else find (own_map s this st w) w)
  unfolding set_variable_divergence
  find-own_map v b st w = elim (Bool-cases (is_global s v)) [
    | inl g ↦ elim (Bool-cases (is_global s w)) [
      | inl h ↦ rw (g, h) (find-put st.global_var_div v w b)
      | inr h ↦ rw (differ v w g h, g, h) refl
    ]
    | inr g ↦ elim (Bool-cases (is_global s w)) [
      | inl h ↦ rw (var_eq_symm v w, differ w v h g, g, h) refl
      | inr h ↦ rw (g, h) (find-put st.variable_div v w b)
    ]
  ]

  below-set_variable_divergence :
      (v : Variable) (b : Bool) (st : State) (w : Variable)
      → below s this (set_variable_divergence s v b st) w ≡ below s this st w
  unfolding set_variable_divergence
  below-set_variable_divergence v b st w = elim (Bool-cases (is_global s v)) [
    | inl g ↦ rw g refl
    | inr g ↦ rw g refl
  ]

  pub may_diverge-set_variable_divergence :
      (v : Variable) (b : Bool) (st : State) (w : Variable)
      → may_diverge s this (set_variable_divergence s v b st) w
        ≡ (if var_eq v w then b else may_diverge s this st w)
  unfolding or_else
  may_diverge-set_variable_divergence v b st w = elim (Bool-cases (var_eq v w)) [
    | inl e ↦
        rw
          (
            search_variable_lem s this (set_variable_divergence s v b st) w,
            find-own_map v b st w,
            e,
          )
          refl
    | inr e ↦
        rw
          (
            search_variable_lem s this (set_variable_divergence s v b st) w,
            find-own_map v b st w,
            e,
            below-set_variable_divergence v b st w,
            search_variable_lem s this st w,
          )
          refl
  ]

  pub derefs_to-set_variable_divergence :
      (v : Variable) (b : Bool) (st : State) (w : Variable)
      → derefs_to s (set_variable_divergence s v b st) w ≡ derefs_to s st w
  unfolding set_variable_divergence derefs_to
  derefs_to-set_variable_divergence v b st w = elim (Bool-cases (is_global s v)) [
    | inl g ↦ rw g refl
    | inr g ↦ rw g refl
  ]

  pub may_diverge-insert_derefs :
      (v : Variable) (refs : List Variable) (st : State) (w : Variable)
      → may_diverge s this (insert_derefs s v refs st) w ≡ may_diverge s this st w
  unfolding insert_derefs search_variable
  may_diverge-insert_derefs v refs st w = elim (Bool-cases (is_global s v)) [
    | inl g ↦ rw g refl
    | inr g ↦ rw g refl
  ]

  -- A variable points to new references just where they are put there.
  pub in_insert_derefs :
      (v : Variable) (refs : List Variable) (st : State) (w x : Variable)
      → is_variable_in_set (derefs_to s (insert_derefs s v refs st) w) x
        ≡ (is_variable_in_set (derefs_to s st w) x || (var_eq v w && is_variable_in_set refs x))
  unfolding insert_derefs derefs_to
  in_insert_derefs v refs st w x = elim (Bool-cases (is_global s v)) [
    | inl g ↦ elim (Bool-cases (is_global s w)) [
      | inl h ↦ rw (g, h) (in_insert_at v refs st.global_var_derefs_to w x)
      | inr h ↦ rw (differ v w g h, g, h) (ground arith)
    ]
    | inr g ↦ elim (Bool-cases (is_global s w)) [
      | inl h ↦ rw (var_eq_symm v w, differ w v h g, g, h) (ground arith)
      | inr h ↦ rw (g, h) (in_insert_at v refs st.var_derefs_to w x)
    ]
  ]

  pub may_diverge-set_all :
      (vs : List Variable) (b : Bool) (st : State) (w : Variable)
      → may_diverge s this (set_all s vs b st) w
        ≡ (if is_variable_in_set vs w then b else may_diverge s this st w)
  unfolding set_all is_variable_in_set
  may_diverge-set_all [] b st w = refl
  may_diverge-set_all (v ∷ vs) b st w = ground (
    arith,
    may_diverge-set_all vs b (set_variable_divergence s v b st) w,
    may_diverge-set_variable_divergence v b st w,
  )

  pub derefs_to-set_all :
      (vs : List Variable) (b : Bool) (st : State) (w : Variable)
      → derefs_to s (set_all s vs b st) w ≡ derefs_to s st w
  unfolding set_all
  derefs_to-set_all [] b st w = refl
  derefs_to-set_all (v ∷ vs) b st w =
      derefs_to-set_all vs b (set_variable_divergence s v b st) w
      ∙ derefs_to-set_variable_divergence v b st w

  abbrev reseated : Variable → List Variable → Bool → State → State
  reseated v refs b st = set_variable_divergence s v b (insert_derefs s v refs st)

  may_diverge-reseated :
      (v : Variable) (refs : List Variable) (b : Bool) (st : State) (w : Variable)
      → may_diverge s this (reseated v refs b st) w
        ≡ (if var_eq v w then b else may_diverge s this st w)
  may_diverge-reseated v refs b st w =
      may_diverge-set_variable_divergence v b (insert_derefs s v refs st) w
      ∙ rw (may_diverge-insert_derefs v refs st w) refl

  pub may_diverge-reseat_all :
      (vs refs : List Variable) (b : Bool) (st : State) (w : Variable)
      → may_diverge s this (reseat_all s vs refs b st) w
        ≡ (if is_variable_in_set vs w then b else may_diverge s this st w)
  unfolding reseat_all is_variable_in_set
  may_diverge-reseat_all [] refs b st w = refl
  may_diverge-reseat_all (v ∷ vs) refs b st w = ground (
    arith,
    may_diverge-reseat_all vs refs b (reseated v refs b st) w,
    may_diverge-reseated v refs b st w,
  )

  pub in_reseat_all :
      (vs refs : List Variable) (b : Bool) (st : State) (w x : Variable)
      → is_variable_in_set (derefs_to s (reseat_all s vs refs b st) w) x ≡ (
          is_variable_in_set (derefs_to s st w) x
          || (is_variable_in_set vs w && is_variable_in_set refs x))
  unfolding reseat_all is_variable_in_set
  in_reseat_all [] refs b st w x = ground arith
  in_reseat_all (v ∷ vs) refs b st w x =
      in_reseat_all vs refs b (reseated v refs b st) w x
      ∙ rw (derefs_to-set_variable_divergence v b (insert_derefs s v refs st) w)
          (ground (arith, in_insert_derefs v refs st w x))
