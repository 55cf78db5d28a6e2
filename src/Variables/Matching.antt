-- ===== src/Variables/Matching.antt =====
-- src/Variable.cpp: `match` as the nesting of variables.
use clsmith.Prelude.{sym, ◌∙◌, ℕ, ◌≡◌, ap, ◌↔◌, inl, inr, true, false, Bool-cases, arith}
use clsmith.Variables.{
  Variable, named, member, Store, var_eq, matches_var, has_field_var, is_reached, is_aggregate_var,
  has_type,
}
use clsmith.Variables.Membership.{var_eq_refl, var_eq_sound}

-- A variable, and all the fields that it has at any depth.
pub data Inside (v : Variable) : Variable → Type 0 where
  itself : Inside v v
  deeper : {p : Variable} {i : ℕ} → Inside v p → Inside v (member p i)

-- A variable with a type, every parent of which is a struct or union.
abbrev pub IsTyped : Store → Variable → Type 0
IsTyped s (named i) = has_type ((s (named i)).type) ≡ true
IsTyped s (member p i) =
    (has_type ((s (member p i)).type) ≡ true) × (is_aggregate_var s p ≡ true) × IsTyped s p

is_reached_sound : (v w : Variable) → is_reached v w ≡ true → Inside v w
unfolding is_reached
is_reached_sound v (named j) h = rw (var_eq_sound (named j) v h) itself
is_reached_sound v (member p j) h = elim (Bool-cases (var_eq (member p j) v)) [
  | inl e ↦ rw (var_eq_sound (member p j) v e) itself
  | inr e ↦ deeper (is_reached_sound v p (ground arith))
]

reached_itself : (v : Variable) → is_reached v v ≡ true
unfolding is_reached
reached_itself (named i) = var_eq_refl (named i)
reached_itself (member p i) = ground (arith, var_eq_refl (member p i))

is_reached_complete : {v w : Variable} → Inside v w → is_reached v w ≡ true
unfolding is_reached
is_reached_complete {v} itself = reached_itself v
is_reached_complete {v} (deeper h) = ground (arith, is_reached_complete h)

is_aggregate_var-Inside :
    (s : Store) {v w : Variable}
    → IsTyped s w
    → Inside v w
    → var_eq v w ≡ false
    → is_aggregate_var s v ≡ true
is_aggregate_var-Inside s {v} t itself n = ground (arith, var_eq_refl v)
is_aggregate_var-Inside s {v} t (deeper {p} h) n = elim (Bool-cases (var_eq v p)) [
  | inl e ↦ let same : v ≡ p = var_eq_sound v p e in rw same (t.1)
  | inr e ↦ is_aggregate_var-Inside s t.2 h e
]

has_type-IsTyped : (s : Store) (w : Variable) → IsTyped s w → has_type ((s w).type) ≡ true
has_type-IsTyped s (named i) t = t
has_type-IsTyped s (member p i) t = t.0

reached_of_eq : (v w : Variable) → var_eq v w ≡ true → is_reached v w ≡ true
reached_of_eq v w e = ap (is_reached v) (sym (var_eq_sound v w e)) ∙ reached_itself v

-- `match` of typed variables decides whether the second one is the first or nested in it.
pub matches_var_iff :
    (s : Store) (v w : Variable) → IsTyped s w → (matches_var s v w ≡ true) ↔ Inside v w
unfolding matches_var has_field_var
matches_var_iff s v w t = (
  λ h. is_reached_sound v w (ground (arith, reached_of_eq v w)),
  λ h. elim (Bool-cases (var_eq v w)) [
    | inl e ↦ ground arith
    | inr e ↦
        let one : is_aggregate_var s v ≡ true = is_aggregate_var-Inside s t h e in
        let two : is_reached v w ≡ true = is_reached_complete h in
        ground (arith, has_type-IsTyped s w t)
  ],
)
