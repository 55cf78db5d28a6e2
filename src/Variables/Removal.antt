-- ===== src/Variables/Removal.antt =====
-- src/Variable.cpp: `remove_field_vars` ends, and leaves the top variables.
use clsmith.Prelude.{
  ℕ, zero, suc, ◌+◌, ◌≤◌, ◌≡◌, refl, sym, ap, ◌∙◌, inl, inr, Bool, true, false, ◌||◌, List, [], ◌∷◌,
  ◌++◌, length, any, any-append, All, All-append, Bool-cases, arith, some,
}
use clsmith.Variables.{Variable, named, member, var_eq, is_field_var, get_top_container}
use clsmith.Variables.Sets.{is_variable_in_set, remove_from, remove_field_vars}
use clsmith.Variables.Membership.{var_eq_sound, is_variable_in_set-append}

-- The variable at the top of one of the set is the given one.
abbrev pub has_top : List Variable → Variable → Bool
has_top vs w = any (λ v. var_eq (get_top_container v) w) vs

abbrev pub IsTop : Variable → Type 0
IsTop v = is_field_var v ≡ false

-- The visits that the loop makes for the elements that are left.
abbrev visits : List Variable → ℕ
visits [] = 0
visits (named i ∷ vs) = suc (visits vs)
visits (member p i ∷ vs) = suc (suc (visits vs))

IsTop-get_top_container : (v : Variable) → IsTop (get_top_container v)
unfolding get_top_container
IsTop-get_top_container (named i) = refl
IsTop-get_top_container (member p i) = IsTop-get_top_container p

top_of_top : (v : Variable) → get_top_container (get_top_container v) ≡ get_top_container v
unfolding get_top_container
top_of_top (named i) = refl
top_of_top (member p i) = top_of_top p

visits-snoc :
    (vs : List Variable) (t : Variable) → IsTop t → visits (vs ++ (t ∷ [])) ≡ suc (visits vs)
visits-snoc [] (named i) h = refl
visits-snoc [] (member p i) h = absurd (ground (arith, h))
visits-snoc (named i ∷ vs) t h = ap suc (visits-snoc vs t h)
visits-snoc (member p i ∷ vs) t h = ap (λ n. suc (suc n)) (visits-snoc vs t h)

visits-length : (vs : List Variable) → visits vs ≤ length vs + length vs
visits-length [] = omega arith
visits-length (named i ∷ vs) = omega (arith, visits-length vs)
visits-length (member p i ∷ vs) = omega (arith, visits-length vs)

has_top_of_member :
    (vs : List Variable) (t : Variable)
    → get_top_container t ≡ t
    → is_variable_in_set vs t ≡ true
    → has_top vs t ≡ true
unfolding is_variable_in_set
has_top_of_member [] t e h = ground (arith, h)
has_top_of_member (v ∷ vs) t e h = elim (Bool-cases (var_eq v t)) [
  | inl x ↦
      let same : get_top_container v ≡ t = ap get_top_container (var_eq_sound v t x) ∙ e in
      let found : var_eq (get_top_container v) t ≡ true =
        ap (λ u. var_eq u t) (same ∙ sym (var_eq_sound v t x)) ∙ x in
      ground arith
  | inr x ↦ ground (arith, has_top_of_member vs t e)
]

-- A top variable that is in the set already adds nothing.
absorbed :
    (before rest : List Variable) (t w : Variable)
    → get_top_container t ≡ t
    → is_variable_in_set (before ++ rest) t ≡ true
    → (is_variable_in_set before w || has_top rest w)
      ≡ (is_variable_in_set before w || (var_eq t w || has_top rest w))
absorbed before rest t w e h = elim (Bool-cases (var_eq t w)) [
  | inl x ↦
      let same : t ≡ w = var_eq_sound t w x in
      let place : (is_variable_in_set before t || is_variable_in_set rest t) ≡ true =
        sym (is_variable_in_set-append before rest t) ∙ h in
      let found : (is_variable_in_set before t || has_top rest t) ≡ true =
        ground (arith, has_top_of_member rest t e) in
      let there : (is_variable_in_set before w || has_top rest w) ≡ true =
        ap (λ u. is_variable_in_set before u || has_top rest u) (sym same) ∙ found in
      ground arith
  | inr x ↦ ground arith
]

moved :
    (before rest : List Variable) (t w : Variable)
    → get_top_container t ≡ t
    → (is_variable_in_set before w || has_top (rest ++ (t ∷ [])) w)
      ≡ (is_variable_in_set before w || (var_eq t w || has_top rest w))
moved before rest t w e =
    let last : has_top (rest ++ (t ∷ [])) w ≡ (has_top rest w || has_top (t ∷ []) w) =
      any-append (λ v. var_eq (get_top_container v) w) rest (t ∷ []) in
    let own : var_eq (get_top_container t) w ≡ var_eq t w = ap (λ u. var_eq u w) e in ground arith

-- What the loop makes of the elements before the position and those that are left.
abbrev Removed : List Variable → List Variable → List Variable → Type 0
Removed before rest r =
    All IsTop r
    × ((w : Variable) → is_variable_in_set r w ≡ (is_variable_in_set before w || has_top rest w))

remove_from_lem :
    (n : ℕ) (before rest : List Variable)
    → visits rest ≤ n
    → All IsTop before
    → (r : List Variable) × (remove_from n before rest ≡ some r) × Removed before rest r
unfolding remove_from is_variable_in_set get_top_container
remove_from_lem zero before [] l h = (before, refl, (h, λ w. ground arith))
remove_from_lem zero before (named i ∷ rest) l h = absurd (omega (arith, l))
remove_from_lem zero before (member p i ∷ rest) l h = absurd (omega (arith, l))
remove_from_lem (suc n) before [] l h = (before, refl, (h, λ w. ground arith))
remove_from_lem (suc n) before (named i ∷ rest) l h =
    let (r, run, (t, m)) =
      remove_from_lem n (before ++ (named i ∷ [])) rest (omega (arith, l))
        (All-append IsTop before (named i ∷ []) h (refl, tt)) in
    (r, run, (t, λ w. m w ∙ ground (arith, is_variable_in_set-append before (named i ∷ []) w)))
remove_from_lem (suc n) before (member p i ∷ rest) l h =
    let top = get_top_container (member p i) in
    elim (Bool-cases (is_variable_in_set (before ++ rest) top)) [
      | inl e ↦
          let (r, run, (t, m)) = remove_from_lem n before rest (omega (arith, l)) h in
          (r, rw (remove_from, e) run, (t, λ w. m w ∙ absorbed before rest top w (top_of_top p) e))
      | inr e ↦
          let (r, run, (t, m)) =
            remove_from_lem n before (rest ++ (top ∷ []))
              (omega (arith, l, visits-snoc rest top (IsTop-get_top_container (member p i)))) h in
          (r, rw (remove_from, e) run, (t, λ w. m w ∙ moved before rest top w (top_of_top p)))
    ]

-- The loop of `remove_field_vars` ends within two visits for each element of the set. It leaves only
-- variables that are no fields, and these are exactly the variables at the top of those of the set.
pub remove_field_vars_tops :
    (set : List Variable)
    → (r : List Variable) × (remove_field_vars set ≡ some r)
      × (remove_from (length set + length set) [] set ≡ some r)
      × All IsTop r
      × ((w : Variable) → is_variable_in_set r w ≡ has_top set w)
unfolding remove_field_vars is_variable_in_set
remove_field_vars_tops set =
    let (r, run, (t, m)) =
      remove_from_lem (length set + length set) [] set (visits-length set) tt in
    (r, run, run, t, m)
