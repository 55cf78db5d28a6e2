-- ===== src/Effects/Races.antt =====
-- src/Effect.cpp: `has_race_with` as a statement on the accesses of both effects.
use clsmith.Prelude.{
  ◌≡◌, ap, ◌↔◌, ◌⊎◌, inl, inr, Bool, true, ◌||◌, List, [], ◌∷◌, any, Bool-cases, All, ||_elim,
  arith,
}
use clsmith.Variables.{Variable, Store, var_eq, matches_var}
use clsmith.Variables.Sets.{is_variable_in_set}
use clsmith.Variables.Membership.{var_eq_refl, var_eq_sound}
use clsmith.Effects.{Effect, non_empty_intersection, has_race_with}
use clsmith.Variables.Matching.{Inside, IsTyped, matches_var_iff}

-- A variable of the one set and one of the other, with one of them inside the other.
abbrev pub Overlap : List Variable → List Variable → Type 0
Overlap va vb =
    (a : Variable) × (b : Variable) × (is_variable_in_set va a ≡ true)
    × (is_variable_in_set vb b ≡ true)
    × (Inside a b ⊎ Inside b a)

pub any_elim :
    (f : Variable → Bool) (vs : List Variable)
    → any f vs ≡ true
    → (v : Variable) × (is_variable_in_set vs v ≡ true) × (f v ≡ true)
unfolding is_variable_in_set
any_elim f [] h = absurd (ground arith)
any_elim f (x ∷ vs) h = elim (Bool-cases (f x)) [
  | inl e ↦ (x, ground (arith, var_eq_refl x), e)
  | inr e ↦ let (v, m, g) = any_elim f vs (ground arith) in (v, ground arith, g)
]

pub any_intro :
    (f : Variable → Bool) (vs : List Variable) (v : Variable)
    → is_variable_in_set vs v ≡ true
    → f v ≡ true
    → any f vs ≡ true
unfolding is_variable_in_set
any_intro f [] v m h = ground arith
any_intro f (x ∷ vs) v m h = elim (Bool-cases (var_eq x v)) [
  | inl e ↦ let same : f x ≡ f v = ap f (var_eq_sound x v e) in ground arith
  | inr e ↦ ground (arith, any_intro f vs v)
]

IsTyped-in_set :
    (s : Store) (vs : List Variable) (v : Variable)
    → All (IsTyped s) vs
    → is_variable_in_set vs v ≡ true
    → IsTyped s v
unfolding is_variable_in_set
IsTyped-in_set s [] v t m = absurd (ground (arith, m))
IsTyped-in_set s (x ∷ vs) v t m = elim (Bool-cases (var_eq x v)) [
  | inl e ↦ rw (← var_eq_sound x v e) t.0
  | inr e ↦ IsTyped-in_set s vs v t.1 (ground arith)
]

non_empty_intersection_iff :
    (s : Store) (va vb : List Variable)
    → All (IsTyped s) va
    → All (IsTyped s) vb
    → (non_empty_intersection s va vb ≡ true) ↔ Overlap va vb
unfolding non_empty_intersection
non_empty_intersection_iff s va vb ta tb = (
  λ h.
      let (a, m, g) = any_elim (λ a. any (λ b. matches_var s a b || matches_var s b a) vb) va h in
      let (b, k, f) = any_elim (λ b. matches_var s a b || matches_var s b a) vb g in
      (
        a,
        b,
        m,
        k,
        elim (||_elim f) [
          | inl e ↦ inl ((matches_var_iff s a b (IsTyped-in_set s vb b tb k)).0 e)
          | inr e ↦ inr ((matches_var_iff s b a (IsTyped-in_set s va a ta m)).0 e)
        ],
      ),
  λ (a, b, m, k, o).
      let meet : (matches_var s a b || matches_var s b a) ≡ true = elim o [
        | inl i ↦ ground (arith, (matches_var_iff s a b (IsTyped-in_set s vb b tb k)).1 i)
        | inr i ↦ ground (arith, (matches_var_iff s b a (IsTyped-in_set s va a ta m)).1 i)
      ] in
      any_intro (λ a. any (λ b. matches_var s a b || matches_var s b a) vb) va a m
        (any_intro (λ b. matches_var s a b || matches_var s b a) vb b k meet),
)

-- All variables of an effect are typed.
abbrev pub IsTypedEffect : Store → Effect → Type 0
IsTypedEffect s e = All (IsTyped s) e.read_vars × All (IsTyped s) e.write_vars

-- Two effects on typed variables race exactly when one of them writes a variable, the other one
-- reads or writes a variable, and one of these is the other or nested in it.
pub has_race_with_iff :
    (s : Store) (e f : Effect)
    → IsTypedEffect s e
    → IsTypedEffect s f
    → (has_race_with s e f ≡ true) ↔ (
        Overlap e.read_vars f.write_vars
        ⊎ Overlap e.write_vars f.read_vars
        ⊎ Overlap e.write_vars f.write_vars)
unfolding has_race_with
has_race_with_iff s e f te tf =
    let rw_ = non_empty_intersection_iff s e.read_vars f.write_vars te.0 tf.1 in
    let wr = non_empty_intersection_iff s e.write_vars f.read_vars te.1 tf.0 in
    let ww = non_empty_intersection_iff s e.write_vars f.write_vars te.1 tf.1 in
    (
      λ h. elim (||_elim h) [
        | inl a ↦ elim (||_elim a) [ inl b ↦ inl (rw_.0 b) | inr b ↦ inr (inl (wr.0 b)) ]
        | inr c ↦ inr (inr (ww.0 c))
      ],
      λ o. elim o [
        | inl a ↦ ground (arith, rw_.1 a)
        | inr (inl b) ↦ ground (arith, wr.1 b)
        | inr (inr c) ↦ ground (arith, ww.1 c)
      ],
    )
