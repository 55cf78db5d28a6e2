-- ===== src/Variables/Containers.antt =====
-- src/Variable.cpp: `get_container_union` finds the innermost union that a variable is in.
use clsmith.Prelude.{
  ℕ, ◌≡◌, refl, ◌∙◌, ◌⊎◌, inl, inr, Bool, true, false, none, some, Bool-cases, arith,
}
use clsmith.Types.{is_union}
use clsmith.Variables.{
  Variable, named, member, Store, type_holds, has_type, nearest_union, get_container_union,
}
use clsmith.Variables.Matching.{Inside, itself, deeper}

abbrev pub is_union_var : Store → Variable → Bool
is_union_var s v = type_holds is_union ((s v).type)

-- A union that the variable is or is nested in, with no other such union inside it.
pub record IsInnermostUnion (s : Store) (v u : Variable) : Type 0 where
  pub around : Inside u v
  pub is_one : is_union_var s u ≡ true
  pub innermost : (w : Variable) → Inside w v → is_union_var s w ≡ true → Inside w u

nearest_union-here :
    (s : Store) (v : Variable) → is_union_var s v ≡ true → nearest_union s v ≡ some v
unfolding nearest_union
nearest_union-here s (named i) h = rw h refl
nearest_union-here s (member p i) h = rw h refl

nearest_union-up :
    (s : Store) (p : Variable) (i : ℕ)
    → is_union_var s (member p i) ≡ false
    → nearest_union s (member p i) ≡ nearest_union s p
unfolding nearest_union
nearest_union-up s p i h = rw h refl

nearest_union-top :
    (s : Store) (i : ℕ) → is_union_var s (named i) ≡ false → nearest_union s (named i) ≡ none
unfolding nearest_union
nearest_union-top s i h = rw h refl

innermost_itself : (s : Store) (v : Variable) → is_union_var s v ≡ true → IsInnermostUnion s v v
innermost_itself s v h = record { around = itself; is_one = h; innermost = λ w i k. i }

innermost_up :
    (s : Store) (p u : Variable) (i : ℕ)
    → is_union_var s (member p i) ≡ false
    → IsInnermostUnion s p u
    → IsInnermostUnion s (member p i) u
innermost_up s p u i h n = record {
  around = deeper n.around;
  is_one = n.is_one;
  innermost = λ w k e. outside w k e;
}
  where
    outside : (w : Variable) → Inside w (member p i) → is_union_var s w ≡ true → Inside w u
    outside w itself e = absurd (ground (arith, h, e))
    outside w (deeper k) e = n.innermost w k e

-- What the search yields.
abbrev Searched : Store → Variable → Type 0
Searched s v =
    ((u : Variable) × (nearest_union s v ≡ some u) × IsInnermostUnion s v u)
    ⊎ ((nearest_union s v ≡ none) × ((w : Variable) → Inside w v → is_union_var s w ≡ false))

searched : (s : Store) (v : Variable) → Searched s v
searched s (named i) = elim (Bool-cases (is_union_var s (named i))) [
  | inl h ↦ inl (named i, nearest_union-here s (named i) h, innermost_itself s (named i) h)
  | inr h ↦ inr (nearest_union-top s i h, λ w k. alone i h w k)
]
  where
    alone :
        (i : ℕ)
        → is_union_var s (named i) ≡ false
        → (w : Variable) → Inside w (named i)
        → is_union_var s w ≡ false
    alone i h w itself = h
searched s (member p i) = elim (Bool-cases (is_union_var s (member p i))) [
  | inl h ↦ inl (member p i, nearest_union-here s (member p i) h, innermost_itself s (member p i) h)
  | inr h ↦ elim (searched s p) [
    | inl (u, e, n) ↦ inl (u, nearest_union-up s p i h ∙ e, innermost_up s p u i h n)
    | inr (e, a) ↦ inr (nearest_union-up s p i h ∙ e, λ w k. above h a w k)
  ]
]
  where
    above :
        is_union_var s (member p i) ≡ false
        → ((w : Variable) → Inside w p → is_union_var s w ≡ false)
        → (w : Variable) → Inside w (member p i)
        → is_union_var s w ≡ false
    above h a w itself = h
    above h a w (deeper k) = a w k

-- For a variable with a type, `get_container_union` returns the innermost union that the variable is
-- or is nested in, and NULL exactly when there is none.
pub get_container_union_innermost :
    (s : Store) (v : Variable)
    → has_type ((s v).type) ≡ true
    → ((u : Variable) × (get_container_union s v ≡ some u) × IsInnermostUnion s v u)
      ⊎ ((get_container_union s v ≡ none)
          × ((w : Variable) → Inside w v → is_union_var s w ≡ false))
unfolding get_container_union
get_container_union_innermost s v t = rw t (searched s v)
