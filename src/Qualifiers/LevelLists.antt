-- ===== src/Qualifiers/LevelLists.antt =====
-- src/CVQualifiers.cpp: levels that are absent, and the levels that are chosen for a new variable.
use clsmith.Prelude.{
  ℕ, zero, suc, ◌≡◌, refl, Bool, true, false, ◌&&◌, List, [], ◌∷◌, ◌++◌, map, length, All,
  length-map, ap, some, Bool-cases, inl, inr, arith, pos,
}
use clsmith.Options.{CgOptions}
use clsmith.Qualifiers.{level_after_deref}
use clsmith.Qualifiers.Generate.{make_scalar_volatiles, make_scalar_consts, clear_pointers}
use clsmith.Qualifiers.Fresh.{pointer_levels, own_level, consts_of, volatiles_of}

-- The qualifier of the variable itself is absent.
abbrev pub LastIsFalse : List Bool → Type 0
LastIsFalse [] = ⊥
LastIsFalse (x ∷ []) = x ≡ false
LastIsFalse (x ∷ y ∷ ls) = LastIsFalse (y ∷ ls)

abbrev pub AllFalse : List Bool → Type 0
AllFalse = All (λ b. b ≡ false)

-- No level is const and volatile at once.
abbrev pub NeverBoth : List Bool → List Bool → Type 0
NeverBoth (c ∷ cs) (v ∷ vs) = ((c && v) ≡ false) × NeverBoth cs vs
NeverBoth _ _ = Unit

pub LastIsFalse-level :
    (ls : List Bool) → LastIsFalse ls → level_after_deref ls (pos 0) ≡ some false
unfolding level_after_deref
LastIsFalse-level [] h = absurd h
LastIsFalse-level (x ∷ []) h = ground arith
LastIsFalse-level (x ∷ y ∷ ls) h = ground (arith, LastIsFalse-level (y ∷ ls) h)

pub LastIsFalse-snoc : (xs : List Bool) → LastIsFalse (xs ++ false ∷ [])
LastIsFalse-snoc [] = refl
LastIsFalse-snoc (x ∷ []) = refl
LastIsFalse-snoc (x ∷ y ∷ xs) = LastIsFalse-snoc (y ∷ xs)

pub AllFalse-map : (xs : List Bool) → AllFalse (map (λ _. false) xs)
AllFalse-map [] = tt
AllFalse-map (x ∷ xs) = (refl, AllFalse-map xs)

LastIsFalse-all : (x : Bool) (xs : List Bool) → AllFalse (x ∷ xs) → LastIsFalse (x ∷ xs)
LastIsFalse-all x [] h = h.0
LastIsFalse-all x (y ∷ xs) h = LastIsFalse-all y xs h.1

LastIsFalse-clear : (xs : List Bool) → LastIsFalse xs → LastIsFalse (clear_pointers xs)
unfolding clear_pointers
LastIsFalse-clear [] h = h
LastIsFalse-clear (x ∷ []) h = h
LastIsFalse-clear (x ∷ y ∷ xs) h =
    LastIsFalse-all false (map (λ _. false) xs) (refl, AllFalse-map xs)

pub LastIsFalse-map : (xs : List Bool) → LastIsFalse xs → LastIsFalse (map (λ _. false) xs)
LastIsFalse-map [] h = h
LastIsFalse-map (x ∷ xs) h = LastIsFalse-all false (map (λ _. false) xs) (refl, AllFalse-map xs)

AllFalse-clear : (xs : List Bool) → AllFalse xs → AllFalse (clear_pointers xs)
unfolding clear_pointers
AllFalse-clear [] h = tt
AllFalse-clear (x ∷ xs) h = (h.0, AllFalse-map xs)

length-clear_pointers : (xs : List Bool) → length (clear_pointers xs) ≡ length xs
unfolding clear_pointers
length-clear_pointers [] = refl
length-clear_pointers (x ∷ xs) = ap suc (length-map xs (λ _. false))

NeverBoth-map_left : (cs vs : List Bool) → NeverBoth (map (λ _. false) cs) vs
NeverBoth-map_left [] vs = tt
NeverBoth-map_left (c ∷ cs) [] = tt
NeverBoth-map_left (c ∷ cs) (v ∷ vs) = (refl, NeverBoth-map_left cs vs)

pub NeverBoth-map_right : (cs vs : List Bool) → NeverBoth cs (map (λ _. false) vs)
NeverBoth-map_right [] vs = tt
NeverBoth-map_right (c ∷ cs) [] = tt
NeverBoth-map_right (c ∷ cs) (v ∷ vs) = (ground arith, NeverBoth-map_right cs vs)

NeverBoth-clear_left : (cs vs : List Bool) → NeverBoth cs vs → NeverBoth (clear_pointers cs) vs
unfolding clear_pointers
NeverBoth-clear_left [] vs h = tt
NeverBoth-clear_left (c ∷ cs) [] h = tt
NeverBoth-clear_left (c ∷ cs) (v ∷ vs) h = (h.0, NeverBoth-map_left cs vs)

NeverBoth-clear_right : (cs vs : List Bool) → NeverBoth cs vs → NeverBoth cs (clear_pointers vs)
unfolding clear_pointers
NeverBoth-clear_right [] vs h = tt
NeverBoth-clear_right (c ∷ cs) [] h = tt
NeverBoth-clear_right (c ∷ cs) (v ∷ vs) h = (h.0, NeverBoth-map_right cs vs)

abbrev pub Exclusive : CgOptions → Bool × Bool → Type 0
Exclusive o l = o.allow_const_volatile ≡ false → (l.0 && l.1) ≡ false

pub NeverBoth-pairs :
    (o : CgOptions) (ls : List (Bool × Bool))
    → All (Exclusive o) ls
    → o.allow_const_volatile ≡ false
    → NeverBoth (consts_of ls) (volatiles_of ls)
NeverBoth-pairs o [] h e = tt
NeverBoth-pairs o (l ∷ ls) h e = (h.0 e, NeverBoth-pairs o ls h.1 e)

module _ (genrand : ℕ → ℕ) (o : CgOptions) (const_prob volatile_prob : ℕ) where
  pub pointer_levels_lem :
      (n k : ℕ)
      → (length (pointer_levels genrand o const_prob volatile_prob n k).0 ≡ n)
        × All (Exclusive o) (pointer_levels genrand o const_prob volatile_prob n k).0
  unfolding pointer_levels
  pointer_levels_lem zero k = (refl, tt)
  pointer_levels_lem (suc n) k =
      let ih = pointer_levels_lem n (suc (suc k)) in (ap suc ih.0, (λ e. ground arith, ih.1))

  pub own_level_lem :
      (volatile_ok const_ok : Bool) (k : ℕ)
      → Exclusive o (own_level genrand o const_prob volatile_prob volatile_ok const_ok k).0
        × (const_ok ≡ false
            → (own_level genrand o const_prob volatile_prob volatile_ok const_ok k).0.0 ≡ false)
        × (volatile_ok ≡ false
            → (own_level genrand o const_prob volatile_prob volatile_ok const_ok k).0.1 ≡ false)
  unfolding own_level
  own_level_lem true true k = (λ e. ground arith, λ e. cc, λ e. cc)
  own_level_lem true false k = (λ e. refl, λ e. refl, λ e. cc)
  own_level_lem false true k = (λ e. ground arith, λ e. cc, λ e. refl)
  own_level_lem false false k = (λ e. refl, λ e. refl, λ e. refl)

pub length-scalar_consts :
    (o : CgOptions) (cs : List Bool) → length (make_scalar_consts o cs) ≡ length cs
unfolding make_scalar_consts
length-scalar_consts o cs = ground (arith, length-clear_pointers cs)

pub length-scalar_volatiles :
    (o : CgOptions) (vs : List Bool) → length (make_scalar_volatiles o vs) ≡ length vs
unfolding make_scalar_volatiles
length-scalar_volatiles o vs = ground (arith, length-clear_pointers vs)

pub LastIsFalse-scalar_consts :
    (o : CgOptions) (cs : List Bool) → LastIsFalse cs → LastIsFalse (make_scalar_consts o cs)
unfolding make_scalar_consts
LastIsFalse-scalar_consts o cs h = elim (Bool-cases o.const_pointers) [
  | inl e ↦ rw e h
  | inr e ↦ rw e (LastIsFalse-clear cs h)
]

pub LastIsFalse-scalar_volatiles :
    (o : CgOptions) (vs : List Bool) → LastIsFalse vs → LastIsFalse (make_scalar_volatiles o vs)
unfolding make_scalar_volatiles
LastIsFalse-scalar_volatiles o vs h = elim (Bool-cases o.volatile_pointers) [
  | inl e ↦ rw e h
  | inr e ↦ rw e (LastIsFalse-clear vs h)
]

pub AllFalse-scalar_volatiles :
    (o : CgOptions) (vs : List Bool) → AllFalse vs → AllFalse (make_scalar_volatiles o vs)
unfolding make_scalar_volatiles
AllFalse-scalar_volatiles o vs h = elim (Bool-cases o.volatile_pointers) [
  | inl e ↦ rw e h
  | inr e ↦ rw e (AllFalse-clear vs h)
]

pub NeverBoth-scalar :
    (o : CgOptions) (cs vs : List Bool)
    → NeverBoth cs vs
    → NeverBoth (make_scalar_consts o cs) (make_scalar_volatiles o vs)
unfolding make_scalar_consts make_scalar_volatiles
NeverBoth-scalar o cs vs h = elim (Bool-cases o.const_pointers) [
  | inl e ↦ elim (Bool-cases o.volatile_pointers) [
    | inl f ↦ rw (e, f) h
    | inr f ↦ rw (e, f) (NeverBoth-clear_right cs vs h)
  ]
  | inr e ↦ elim (Bool-cases o.volatile_pointers) [
    | inl f ↦ rw (e, f) (NeverBoth-clear_left cs vs h)
    | inr f ↦ rw (e, f) (NeverBoth-clear_left cs _ (NeverBoth-clear_right cs vs h))
  ]
]
