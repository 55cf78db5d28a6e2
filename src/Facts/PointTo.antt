-- ===== src/Facts/PointTo.antt =====
-- src/FactPointTo.h, src/FactPointTo.cpp: what a pointer may point to.
use clsmith.Prelude.{
  ℕ, zero, suc, Bool, true, false, not, ◌&&◌, ◌||◌, Option, none, some, List, [], ◌∷◌, ◌==◌, ltb,
  if◌then◌else◌, length, any, ℤ, pos, negsuc,
}
use clsmith.Variables.{Variable, named, Store, var_eq, loose_match, has_type}
use clsmith.Variables.Sets.{
  is_variable_in_set, add_variables_to_set, equal_variable_sets, sub_variable_sets,
  find_variable_in_set, is_missing,
}
use clsmith.Facts.{FactClass, find_related_fact}

pub record FactPointTo : Type 0 where
  pub var : Variable
  pub point_to_vars : List Variable

-- The dummy variables, which `make_dummy_static_variable` makes before all others.
abbrev pub null_ptr : Variable
null_ptr = named 0

abbrev pub garbage_ptr : Variable
garbage_ptr = named 1

abbrev pub tbd_ptr : Variable
tbd_ptr = named 2

abbrev pub is_special_ptr : Variable → Bool
is_special_ptr p = var_eq p null_ptr || var_eq p garbage_ptr || var_eq p tbd_ptr

-- The fact about a pointer that is not initialized, and those that `make_facts` makes; it passes
-- over the special variables, which have no type.
abbrev pub uninitialized : Variable → FactPointTo
uninitialized v = record { var = v; point_to_vars = garbage_ptr ∷ [] }

unfoldable pub make_facts : Store → List Variable → List Variable → List FactPointTo
make_facts s [] pointees = []
make_facts s (v ∷ vars) pointees =
    let rest = make_facts s vars pointees in
    if has_type ((s v).type) then record { var = v; point_to_vars = pointees } ∷ rest else rest

unfoldable pub is_null : FactPointTo → Bool
is_null f = is_variable_in_set f.point_to_vars null_ptr

unfoldable pub is_tbd_only : FactPointTo → Bool
is_tbd_only f = length f.point_to_vars == 1 && is_variable_in_set f.point_to_vars tbd_ptr

unfoldable pub is_dead : Store → FactPointTo → Bool
is_dead s f = not (is_missing (find_variable_in_set s f.point_to_vars garbage_ptr))

-- `point_to`: the variable, or one that overlaps with it up to array indices and union fields.
unfoldable pub point_to : Store → FactPointTo → Variable → Bool
point_to s f v = any (λ w. loose_match s v w || loose_match s w v) f.point_to_vars

unfoldable pub is_related : FactPointTo → FactPointTo → Bool
is_related f g = var_eq f.var g.var

unfoldable pub equal : FactPointTo → FactPointTo → Bool
equal f g = var_eq f.var g.var && equal_variable_sets f.point_to_vars g.point_to_vars

-- `join` and `join_visits`; the flag that the source returns says whether a variable came in.
unfoldable pub join : FactPointTo → FactPointTo → FactPointTo × Bool
join f g =
    if is_related f g
    then (let (vars, changed) = add_variables_to_set f.point_to_vars g.point_to_vars in
        (record f { point_to_vars = vars }, changed))
    else (f, false)

unfoldable pub join_visits : FactPointTo → FactPointTo → FactPointTo × Bool
join_visits f g =
    if is_related f g && not (is_tbd_only g)
    then (let mine = if is_tbd_only f then [] else f.point_to_vars in
        let (vars, changed) = add_variables_to_set mine g.point_to_vars in
        (record f { point_to_vars = vars }, changed))
    else (f, false)

unfoldable pub imply : FactPointTo → FactPointTo → Bool
imply f g = is_related f g && sub_variable_sets g.point_to_vars f.point_to_vars

abbrev pub point_to_class : FactClass FactPointTo
point_to_class = record {
  is_related = is_related;
  equal = equal;
  imply = imply;
  join = λ f g. (join f g).0;
  join_visits = λ f g. (join_visits f g).0;
}

unfoldable pub merge_pointees_from :
    List FactPointTo → List Variable → List Variable → Option (List Variable)
merge_pointees_from facts pointee_vars [] = some pointee_vars
merge_pointees_from facts pointee_vars (p ∷ ptrs) = elim (is_special_ptr p) [
  | true ↦ merge_pointees_from facts pointee_vars ptrs
  | false ↦ elim (find_related_fact point_to_class facts (uninitialized p)) [
    | none ↦ none
    | some f ↦
        merge_pointees_from facts ((add_variables_to_set pointee_vars f.point_to_vars).0) ptrs
  ]
]

-- What the pointers point to; `none` is the failed assertion that there is a fact about each.
unfoldable pub merge_pointees_of_pointers :
    List Variable → List FactPointTo → Option (List Variable)
merge_pointees_of_pointers ptrs facts = merge_pointees_from facts [] ptrs

unfoldable pub merge_pointees_steps : ℕ → List Variable → List FactPointTo → Option (List Variable)
merge_pointees_steps zero tmp facts = some tmp
merge_pointees_steps (suc n) tmp facts = elim (merge_pointees_of_pointers tmp facts) [
  | none ↦ none
  | some next ↦ merge_pointees_steps n next facts
]

unfoldable pub merge_pointees_of_pointer : Variable → ℤ → List FactPointTo → Option (List Variable)
merge_pointees_of_pointer ptr (negsuc n) facts = some (ptr ∷ [])
merge_pointees_of_pointer ptr (pos n) facts = merge_pointees_steps n (ptr ∷ []) facts

-- `is_valid_ptr`, with the two probabilities of the options.
unfoldable pub is_valid_ptr : Store → ℕ → ℕ → Variable → List FactPointTo → Bool
is_valid_ptr s null_prob dead_prob p facts =
    elim (find_related_fact point_to_class facts (uninitialized p)) [
      | none ↦ false
      | some fact ↦
          (ltb 0 null_prob || not (is_null fact)) && (ltb 0 dead_prob || not (is_dead s fact))
    ]

unfoldable pub is_dangling_ptr : Store → ℕ → Variable → List FactPointTo → Bool
is_dangling_ptr s dead_prob p facts =
    elim (find_related_fact point_to_class facts (uninitialized p)) [
      | none ↦ false
      | some fact ↦ is_dead s fact && dead_prob == 0
    ]
