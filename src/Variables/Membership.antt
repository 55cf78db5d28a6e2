-- ===== src/Variables/Membership.antt =====
-- src/Variable.cpp: the address of a variable, and the sets of variables as sets.
use clsmith.Prelude.{
  sym, ◌∙◌, suc, ◌≤◌, ◌≡◌, refl, ap, ◌↔◌, inl, inr, true, false, ◌||◌, List, [], ◌∷◌, ◌++◌, length,
  ==_refl, ==_symm, ==_iff, Bool-cases, eq_of_iff, arith,
}
use clsmith.Variables.{Variable, named, member, var_eq}
use clsmith.Variables.Sets.{is_variable_in_set, all_in_set, equal_variable_sets, sub_variable_sets}

pub var_eq_refl : (v : Variable) → var_eq v v ≡ true
unfolding var_eq
var_eq_refl (named i) = ==_refl i
var_eq_refl (member p i) = ground (arith, var_eq_refl p)

pub var_eq_sound : (v w : Variable) → var_eq v w ≡ true → v ≡ w
unfolding var_eq
var_eq_sound (named i) (named j) h = ap named ((==_iff i j).0 h)
var_eq_sound (named i) (member q j) h = ground arith
var_eq_sound (member p i) (named j) h = ground arith
var_eq_sound (member p i) (member q j) h =
    let e : p ≡ q = var_eq_sound p q (ground arith) in let f : i ≡ j = ground arith in cc

pub var_eq_symm : (v w : Variable) → var_eq v w ≡ var_eq w v
unfolding var_eq
var_eq_symm (named i) (named j) = ==_symm i j
var_eq_symm (named i) (member q j) = refl
var_eq_symm (member p i) (named j) = refl
var_eq_symm (member p i) (member q j) = ground (arith, var_eq_symm p q, ==_symm i j)

pub is_variable_in_set-append :
    (vs ws : List Variable) (v : Variable)
    → is_variable_in_set (vs ++ ws) v ≡ (is_variable_in_set vs v || is_variable_in_set ws v)
unfolding is_variable_in_set
is_variable_in_set-append [] ws v = refl
is_variable_in_set-append (x ∷ vs) ws v = ground (arith, is_variable_in_set-append vs ws v)

-- No variable stands in the set twice, which `add_variable_to_set` keeps.
abbrev pub IsSetOfVariables : List Variable → Type 0
IsSetOfVariables [] = Unit
IsSetOfVariables (v ∷ vs) = (is_variable_in_set vs v ≡ false) × IsSetOfVariables vs

abbrev without : Variable → List Variable → List Variable
without v [] = []
without v (x ∷ xs) = elim (var_eq x v) [ true ↦ xs | false ↦ x ∷ without v xs ]

length-without :
    (v : Variable) (vs : List Variable)
    → is_variable_in_set vs v ≡ true
    → suc (length (without v vs)) ≡ length vs
unfolding is_variable_in_set
length-without v [] h = ground arith
length-without v (x ∷ xs) h = ground (arith, length-without v xs)

in_without :
    (v w : Variable) (vs : List Variable)
    → is_variable_in_set vs w ≡ true
    → var_eq v w ≡ false
    → is_variable_in_set (without v vs) w ≡ true
unfolding is_variable_in_set
in_without v w [] h n = ground arith
in_without v w (x ∷ xs) h n = elim (Bool-cases (var_eq x v)) [
  | inl e ↦ let same : x ≡ v = var_eq_sound x v e in ground arith
  | inr e ↦ ground (arith, in_without v w xs)
]

pub all_in_set_sound :
    (vs ws : List Variable) (v : Variable)
    → all_in_set vs ws ≡ true
    → is_variable_in_set vs v ≡ true
    → is_variable_in_set ws v ≡ true
unfolding all_in_set is_variable_in_set
all_in_set_sound [] ws v h m = ground arith
all_in_set_sound (x ∷ vs) ws v h m = elim (Bool-cases (var_eq x v)) [
  | inl e ↦ let same : x ≡ v = var_eq_sound x v e in ground arith
  | inr e ↦ all_in_set_sound vs ws v (ground arith) (ground arith)
]

pub all_in_set_complete :
    (vs ws : List Variable)
    → ((v : Variable) → is_variable_in_set vs v ≡ true → is_variable_in_set ws v ≡ true)
    → all_in_set vs ws ≡ true
unfolding all_in_set is_variable_in_set
all_in_set_complete [] ws h = refl
all_in_set_complete (x ∷ vs) ws h = ground (
  arith,
  h x (ground (arith, var_eq_refl x)),
  all_in_set_complete vs ws (λ v m. h v (ground arith)),
)

apart :
    (x v : Variable) (vs : List Variable)
    → is_variable_in_set vs x ≡ false
    → is_variable_in_set vs v ≡ true
    → var_eq x v ≡ false
apart x v vs n m = elim (Bool-cases (var_eq x v)) [
  | inl e ↦ let same : x ≡ v = var_eq_sound x v e in ground arith
  | inr e ↦ e
]

-- A duplicate-free set is no longer than a set that has all its variables.
shorter :
    (vs ws : List Variable) → IsSetOfVariables vs → all_in_set vs ws ≡ true → length vs ≤ length ws
unfolding all_in_set is_variable_in_set
shorter [] ws d h = omega arith
shorter (x ∷ vs) ws d h =
    let rest : length vs ≤ length (without x ws) = shorter vs (without x ws) d.1 (
      all_in_set_complete vs (without x ws) (λ v m.
        in_without x v ws (all_in_set_sound vs ws v (ground arith) m) (apart x v vs d.0 m))) in
    omega (arith, rest, length-without x ws (ground arith))

-- A set that is as long as one it is in has all its variables.
onto :
    (set1 set2 : List Variable) (v : Variable)
    → IsSetOfVariables set1
    → length set1 ≡ length set2
    → all_in_set set1 set2 ≡ true
    → is_variable_in_set set2 v ≡ true
    → is_variable_in_set set1 v ≡ true
onto set1 set2 v d l h m = elim (Bool-cases (is_variable_in_set set1 v)) [
  | inl e ↦ e
  | inr e ↦
      let avoids =
        all_in_set_complete set1 (without v set2)
          (λ w k. in_without v w set2 (all_in_set_sound set1 set2 w h k) (apart v w set1 e k)) in
      let fits : length set1 ≤ length (without v set2) = shorter set1 (without v set2) d avoids in
      absurd (omega (arith, fits, l, length-without v set2 m))
]

-- `sub_variable_sets` of a duplicate-free set decides whether all its variables are in the other.
pub sub_variable_sets_iff :
    (set1 set2 : List Variable)
    → IsSetOfVariables set1
    → (sub_variable_sets set1 set2 ≡ true)
      ↔ ((v : Variable) → is_variable_in_set set1 v ≡ true → is_variable_in_set set2 v ≡ true)
unfolding sub_variable_sets
sub_variable_sets_iff set1 set2 d = (
  λ h v. all_in_set_sound set1 set2 v (ground arith),
  λ h.
      let within = all_in_set_complete set1 set2 h in
      let fits : length set1 ≤ length set2 = shorter set1 set2 d within in ground arith,
)

-- `equal_variable_sets` of duplicate-free sets decides whether both have the same variables, in
-- whatever order.
pub equal_variable_sets_iff :
    (set1 set2 : List Variable)
    → IsSetOfVariables set1
    → IsSetOfVariables set2
    → (equal_variable_sets set1 set2 ≡ true)
      ↔ ((v : Variable) → is_variable_in_set set1 v ≡ is_variable_in_set set2 v)
unfolding equal_variable_sets
equal_variable_sets_iff set1 set2 d1 d2 = (
  λ h v.
      eq_of_iff (is_variable_in_set set1 v) (is_variable_in_set set2 v)
        (all_in_set_sound set1 set2 v (ground arith))
        (onto set1 set2 v d1 (ground arith) (ground arith)),
  λ h.
      let there = all_in_set_complete set1 set2 (λ v m. sym (h v) ∙ m) in
      let back = all_in_set_complete set2 set1 (λ v m. h v ∙ m) in
      let fits : length set1 ≤ length set2 = shorter set1 set2 d1 there in
      let fits_back : length set2 ≤ length set1 = shorter set2 set1 d2 back in ground arith,
)
