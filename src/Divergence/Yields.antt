-- ===== src/Divergence/Yields.antt =====
-- src/CLSmith/Divergence.cpp: where the loops that read the state fail no assertion.
use clsmith.Prelude.{
  ℕ, zero, suc, ◌≡◌, ◌⊎◌, refl, inl, inr, Bool, true, false, ◌||◌, none, some, List, [], ◌∷◌,
  if◌then◌else◌, ltb, arith,
}
use clsmith.Variables.{Variable, Store}
use clsmith.Variables.Sets.{is_variable_in_set, add_variables_to_set}
use clsmith.Variables.Membership.{var_eq_refl}
use clsmith.Divergence.{State, M, ◌>>=◌, is_set, search_variable, is_variable_divergent, derefs_to}
use clsmith.Divergence.Expressions.{
  deref_level, dereference, dereference_pointer_variable, any_divergent, indirect_level,
}
use clsmith.Divergence.Ensures.{Ensures, Reads}
use clsmith.Divergence.Targets.{Level, deref_level_lem}
use clsmith.Divergence.Threads.{Value-cases, Memory, target, Points}

-- No assertion fails.
unfoldable pub Yields : {A : Type 0} → M A → State → Type 0
Yields {A} m st = (a : A) × (st' : State) × (m st ≡ some (a, st'))

pub Yields-bind :
    {A B : Type 0} (m : M A) (f : A → M B) (st : State)
    → Yields m st
    → ((a : A) (st1 : State) → m st ≡ some (a, st1) → Yields (f a) st1)
    → Yields (m >>= f) st
unfolding Yields
Yields-bind m f st (a, st1, e) k = let (b, st2, q) = k a st1 e in (b, st2, rw (◌>>=◌, e) q)

pub Yields-read :
    {A B : Type 0} (m : M A) (f : A → M B) (st : State) (P : A → Type 0)
    → Reads m st P
    → Yields m st
    → ((a : A) → P a → Yields (f a) st)
    → Yields (m >>= f) st
unfolding Ensures
Yields-read m f st P r y k =
    Yields-bind m f st y (λ a st1 e. let (p, same) = r a st1 e in rw same (k a p))

pub Yields-last :
    {A : Type 0} (f : State → A) (g : State → State) (st : State)
    → Yields (λ st. some (f st, g st)) st
unfolding Yields
Yields-last f g st = (f st, g st, refl)

pub Yields-if :
    {A : Type 0} (b : Bool) (m n : M A) (st : State)
    → (b ≡ true → Yields m st)
    → (b ≡ false → Yields n st)
    → Yields (if b then m else n) st
Yields-if true m n st g h = g refl
Yields-if false m n st g h = h refl

module _ (s : Store) (this : ℕ) (plain : (v : Variable) → (s v).is_array ≡ false) where
  pub is_variable_divergent-Yields :
      (v : Variable) (st : State) → Yields (is_variable_divergent s this v) st
  unfolding is_variable_divergent Yields
  is_variable_divergent-Yields v st =
      (is_set (search_variable s this st v), st, rw (is_variable_divergent, plain v) refl)

  deref_level-Yields : (vs : List Variable) (st : State) → Yields (deref_level s this vs) st
  unfolding deref_level
  deref_level-Yields [] st = Yields-last (λ _. ([], false)) (λ st. st) st
  deref_level-Yields (v ∷ vs) st =
      Yields-bind _ _ st (is_variable_divergent-Yields v st) (λ d st1 _.
        Yields-bind _ _ st1 (deref_level-Yields vs st1) (λ (next, e) st2 _.
          Yields-last (λ st. ((add_variables_to_set (derefs_to s st v) next).0, d || e)) (λ st. st)
            st2))

  pub any_divergent-Yields : (vs : List Variable) (st : State) → Yields (any_divergent s this vs) st
  unfolding any_divergent
  any_divergent-Yields [] st = Yields-last (λ _. false) (λ st. st) st
  any_divergent-Yields (v ∷ vs) st =
      Yields-bind _ _ st (is_variable_divergent-Yields v st) (λ d st1 _.
        Yields-if d _ _ st1 (λ _. Yields-last (λ _. true) (λ st. st) st1)
          (λ _. any_divergent-Yields vs st1))

  dereference-step :
      (n : ℕ) (x : Variable) (xs : List Variable) (st : State) (v u : Variable)
      → is_variable_in_set (x ∷ xs) v ≡ true
      → is_variable_in_set (derefs_to s st v) u ≡ true
      → ((next : List Variable)
          → is_variable_in_set next u ≡ true
          → Yields (dereference s this n next) st)
      → Yields (dereference s this (suc n) (x ∷ xs)) st
  unfolding dereference
  dereference-step n x xs st v u i p y =
      Yields-read _ _ st (Level s this st (x ∷ xs)) (deref_level_lem s this (x ∷ xs) st)
        (deref_level-Yields (x ∷ xs) st)
        (λ (next, d) l.
          Yields-bind _ _ st (y next (l.1 v u i p))
            (λ (last, e) st1 _. Yields-last (λ _. (last, d || e)) (λ st. st) st1))

  -- The set is never empty where a thread has something to dereference.
  dereference-Yields :
      (n : ℕ) (vs : List Variable) (st : State) (m : Memory) (v w : Variable)
      → Points s st m
      → is_variable_in_set vs v ≡ true
      → target m n v ≡ some w
      → Yields (dereference s this n vs) st × Yields (dereference s this (suc n) vs) st
  unfolding dereference is_variable_in_set target
  dereference-Yields n [] st m v w p i t = absurd (ground (arith, i))
  dereference-Yields zero (x ∷ xs) st m v w p i t = (
    Yields-last (λ _. (x ∷ xs, false)) (λ st. st) st,
    Yields-bind _ _ st (deref_level-Yields (x ∷ xs) st)
        (λ (next, d) st1 _. Yields-last (λ _. (next, d || false)) (λ st. st) st1),
  )
  dereference-Yields (suc n) (x ∷ xs) st m v w p i t = elim (Value-cases (m v)) [
    | inl (j, c) ↦ let z : none ≡ some w = rw (target, c) at t in absurd (ground (arith, z))
    | inr (u, c) ↦
        let rest = λ (next : List Variable) (h : is_variable_in_set next u ≡ true).
          dereference-Yields n next st m u w p h (rw (target, c) at t) in
        (
          dereference-step n x xs st v u i (p v u c) (λ next h. (rest next h).0),
          dereference-step (suc n) x xs st v u i (p v u c) (λ next h. (rest next h).1),
        )
  ]

  pub dereference_pointer_variable-Yields :
      (v : Variable) (n k : ℕ) (st : State) (m : Memory) (w : Variable)
      → Points s st m
      → target m n v ≡ some w
      → (k ≡ n) ⊎ (k ≡ suc n)
      → ltb (indirect_level s v) k ≡ false
      → Yields (dereference_pointer_variable s this v k) st
  unfolding dereference_pointer_variable is_variable_in_set
  dereference_pointer_variable-Yields v n k st m w p t c l =
      let (y, z) = dereference-Yields n (v ∷ []) st m v w p (ground (arith, var_eq_refl v)) t in
      Yields-if (ltb (indirect_level s v) k) _ _ st (λ e. absurd (ground (arith, e, l)))
        (λ _. elim c [ inl e ↦ rw e y | inr e ↦ rw e z ])
