-- ===== src/Facts/Death.antt =====
-- src/FactPointTo.cpp: what `mark_dead_var` changes.
use clsmith.Prelude.{
  ℕ, suc, ◌≡◌, refl, sym, ap, ◌∙◌, ◌⊎◌, inl, inr, Bool, true, false, not, Option, none, some, List,
  [], ◌∷◌, ◌++◌, any, length, set, Bool-cases, if◌then◌else◌, ℤ, pos, negsuc, arith,
}
use mathlib.Core.Option.{some-injective}
use clsmith.Effects.Nested.{Nested, IsShallow}
use clsmith.Variables.Matching.{Inside, itself}
use clsmith.Variables.{Variable, Store, matches_var}
use clsmith.Variables.Sets.{find_from, find_variable_in_set, is_missing}
use clsmith.Facts.PointTo.{FactPointTo, garbage_ptr}
use clsmith.Facts.Dead.{or_else, find_field_variable_in_set, erase_at, mark_dead_var}
use clsmith.Facts.Positions.{
  found_here, found_later, Cut, Cut-find_from, or_else_elim, or_else-IsMissed, or_else_total,
  IsMissed, field_position, field_search_total, field_search_complete, erase_at-cut, set-cut,
}

-- The search for the variable, then for its fields.
abbrev search : Store → ℕ → List Variable → Variable → Option ℤ
search s n vars v =
    or_else (some (find_variable_in_set s vars v)) (find_field_variable_in_set s n vars v)

-- What a search for the variable or its fields yields.
found_position :
    (s : Store) (n : ℕ) (vars : List Variable) (v : Variable) (k : ℕ)
    → search s n vars v ≡ some (pos k)
    → (w : Variable) × Inside v w × Cut s vars w 0 k
unfolding find_variable_in_set
found_position s n vars v k h =
    elim (or_else_elim (some (find_variable_in_set s vars v))
      (find_field_variable_in_set s n vars v) k h) [
        | inl x ↦ (v, itself, Cut-find_from s 0 vars v k (some-injective _ _ x))
        | inr x ↦
            let (w, d, y) = field_position s n vars v k x in (w, d, Cut-find_from s 0 vars w k y)
      ]

-- Whether the fact lists `garbage` already.
abbrev pub has_garbage : Store → FactPointTo → Bool
has_garbage s f = not (is_missing (find_variable_in_set s f.point_to_vars garbage_ptr))

mark_found :
    (s : Store) (n : ℕ) (f : FactPointTo) (v : Variable) (k : ℕ)
    → search s n f.point_to_vars v ≡ some (pos k)
    → mark_dead_var s n f v
      ≡ some (
          some (
            if has_garbage s f
            then record f { point_to_vars = erase_at f.point_to_vars k }
            else record f { point_to_vars = set f.point_to_vars k garbage_ptr }))
unfolding mark_dead_var
mark_found s n f v k h = rw (mark_dead_var, h) refl

mark_missing :
    (s : Store) (n : ℕ) (f : FactPointTo) (v : Variable) (k : ℕ)
    → search s n f.point_to_vars v ≡ some (negsuc k)
    → mark_dead_var s n f v ≡ some none
unfolding mark_dead_var
mark_missing s n f v k h = rw (mark_dead_var, h) refl

unmatched_from :
    (s : Store) (i : ℕ) (vars : List Variable) (v : Variable)
    → is_missing (find_from s i vars v) ≡ true
    → any (λ d. matches_var s d v) vars ≡ false
unfolding find_from
unmatched_from s i [] v h = refl
unmatched_from s i (x ∷ vars) v h = elim (Bool-cases (matches_var s x v)) [
  | inl m ↦ absurd (ground (arith, sym (ap is_missing (found_here s i x v vars m)) ∙ h))
  | inr m ↦
      let rest : is_missing (find_from s (suc i) vars v) ≡ true =
        sym (ap is_missing (found_later s i x v vars m)) ∙ h in
      ground (arith, unmatched_from s (suc i) vars v rest)
]

nothing_matches :
    (s : Store) (vars : List Variable) (v : Variable)
    → IsMissed (some (find_variable_in_set s vars v))
    → any (λ d. matches_var s d v) vars ≡ false
unfolding find_variable_in_set
nothing_matches s vars v (k, e) =
    unmatched_from s 0 vars v (ap is_missing (some-injective (find_from s 0 vars v) (negsuc k) e))

sign_of : (a : ℤ) → ((k : ℕ) × (a ≡ pos k)) ⊎ ((k : ℕ) × (a ≡ negsuc k))
sign_of (pos k) = inl (k, refl)
sign_of (negsuc k) = inr (k, refl)

changed :
    (s : Store) (f : FactPointTo) (w : Variable) (k : ℕ) (cut : Cut s f.point_to_vars w 0 k)
    → (if has_garbage s f
        then record f { point_to_vars = erase_at f.point_to_vars k }
        else record f { point_to_vars = set f.point_to_vars k garbage_ptr })
      ≡ record f {
        point_to_vars = if has_garbage s f then cut.0 ++ cut.2 else cut.0 ++ (garbage_ptr ∷ cut.2);
      }
changed s f w k (xs, d, ys, e, l, t) =
    let at : k ≡ length xs = omega (arith, l) in
    let whole : erase_at f.point_to_vars k ≡ xs ++ ys =
      ap (λ r. erase_at r k) e ∙ ap (erase_at (xs ++ (d ∷ ys))) at ∙ erase_at-cut xs d ys in
    let new : set f.point_to_vars k garbage_ptr ≡ xs ++ (garbage_ptr ∷ ys) =
      ap (λ r. set r k garbage_ptr) e
      ∙ ap (λ i. set (xs ++ (d ∷ ys)) i garbage_ptr) at
      ∙ set-cut xs d garbage_ptr ys in
    elim (Bool-cases (has_garbage s f)) [
      | inl g ↦ rw g (ap (λ r. record f { point_to_vars = r }) whole)
      | inr g ↦ rw g (ap (λ r. record f { point_to_vars = r }) new)
    ]

-- Where the fuel is the depth to which structs and unions are nested in the variable, `mark_dead_var`
-- ends. It returns no fact, and then no pointee matches the dead variable or a field that it has at
-- any depth; or it returns a fact on the same pointer with one pointee changed, which matches the
-- dead variable or something nested in it: the pointee is erased where the fact lists `garbage`
-- already, and is replaced by `garbage` where it does not.
pub mark_dead_var_changes :
    (s : Store) (n : ℕ) (f : FactPointTo) (v : Variable)
    → IsShallow s n v
    → ((mark_dead_var s n f v ≡ some none)
        × (any (λ d. matches_var s d v) f.point_to_vars ≡ false)
        × ((w : Variable) → Nested s v w → any (λ d. matches_var s d w) f.point_to_vars ≡ false))
      ⊎ ((xs : List Variable) × (d : Variable) × (ys : List Variable) × (w : Variable)
          × (f.point_to_vars ≡ xs ++ (d ∷ ys))
          × Inside v w
          × (matches_var s d w ≡ true)
          × (mark_dead_var s n f v
              ≡ some (
                  some (record f {
                    point_to_vars = if has_garbage s f then xs ++ ys else xs ++ (garbage_ptr ∷ ys);
                  }))))
mark_dead_var_changes s n f v b =
    let vars = f.point_to_vars in
    let (z, e) =
      or_else_total (find_variable_in_set s vars v) (find_field_variable_in_set s n vars v)
        (field_search_total s n vars v b) in
    elim (sign_of z) [
      | inl (k, h) ↦
          let at : search s n vars v ≡ some (pos k) = e ∙ ap some h in
          let (w, d, cut) = found_position s n vars v k at in
          let (xs, x, ys, q, l, t) = cut in
          inr (
            xs,
            x,
            ys,
            w,
            q,
            d,
            t,
            mark_found s n f v k at ∙ ap (λ g. some (some g)) (changed s f w k cut),
          )
      | inr (k, h) ↦
          let at : search s n vars v ≡ some (negsuc k) = e ∙ ap some h in
          let (own, fields) = or_else-IsMissed (some (find_variable_in_set s vars v)) _ (k, at) in
          inl (
            mark_missing s n f v k at,
            nothing_matches s vars v own,
            λ w d. nothing_matches s vars w (field_search_complete s n vars d fields),
          )
    ]
