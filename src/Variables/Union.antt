-- ===== src/Variables/Union.antt =====
-- src/Variable.cpp: `add_variables_to_set` as the union of sets.
use clsmith.Prelude.{◌≡◌, refl, inl, inr, false, not, ◌||◌, List, [], ◌∷◌, ◌++◌, Bool-cases, arith}
use clsmith.Variables.{Variable, var_eq}
use clsmith.Variables.Sets.{
  is_variable_in_set, add_variable_to_set, add_variables_to_set, all_in_set,
}
use clsmith.Variables.Membership.{
  var_eq_refl, var_eq_symm, var_eq_sound, is_variable_in_set-append, IsSetOfVariables,
}

in_add_variable :
    (set : List Variable) (x v : Variable)
    → is_variable_in_set ((add_variable_to_set set x).0) v
      ≡ (is_variable_in_set set v || var_eq x v)
unfolding add_variable_to_set is_variable_in_set
in_add_variable set x v = elim (Bool-cases (var_eq x v)) [
  | inl e ↦
      let same : x ≡ v = var_eq_sound x v e in
      ground (arith, is_variable_in_set-append set (x ∷ []) v, var_eq_refl x)
  | inr e ↦ ground (arith, is_variable_in_set-append set (x ∷ []) v)
]

IsSetOfVariables-append :
    (set : List Variable) (x : Variable)
    → is_variable_in_set set x ≡ false
    → IsSetOfVariables set
    → IsSetOfVariables (set ++ (x ∷ []))
unfolding is_variable_in_set
IsSetOfVariables-append [] x h d = (refl, tt)
IsSetOfVariables-append (y ∷ set) x h d = (
  ground (arith, is_variable_in_set-append set (x ∷ []) y, var_eq_symm x y),
  IsSetOfVariables-append set x (ground arith) d.1,
)

IsSetOfVariables-add :
    (set : List Variable) (x : Variable)
    → IsSetOfVariables set
    → IsSetOfVariables ((add_variable_to_set set x).0)
unfolding add_variable_to_set
IsSetOfVariables-add set x d = elim (Bool-cases (is_variable_in_set set x)) [
  | inl e ↦ rw e d
  | inr e ↦ rw e (IsSetOfVariables-append set x e d)
]

in_add_variables :
    (set new_set : List Variable) (v : Variable)
    → is_variable_in_set ((add_variables_to_set set new_set).0) v
      ≡ (is_variable_in_set set v || is_variable_in_set new_set v)
unfolding add_variables_to_set is_variable_in_set
in_add_variables set [] v = ground arith
in_add_variables set (x ∷ new_set) v =
    ground
      (arith, in_add_variables ((add_variable_to_set set x).0) new_set v, in_add_variable set x v)

IsSetOfVariables-add_variables :
    (set new_set : List Variable)
    → IsSetOfVariables set
    → IsSetOfVariables ((add_variables_to_set set new_set).0)
unfolding add_variables_to_set
IsSetOfVariables-add_variables set [] d = d
IsSetOfVariables-add_variables set (x ∷ new_set) d =
    IsSetOfVariables-add_variables ((add_variable_to_set set x).0) new_set
      (IsSetOfVariables-add set x d)

changed-add_variables :
    (set new_set : List Variable)
    → (add_variables_to_set set new_set).1 ≡ not (all_in_set new_set set)
unfolding add_variables_to_set all_in_set add_variable_to_set
changed-add_variables set [] = refl
changed-add_variables set (x ∷ new_set) = elim (Bool-cases (is_variable_in_set set x)) [
  | inl e ↦ rw e (changed-add_variables set new_set)
  | inr e ↦ rw e refl
]

-- `add_variables_to_set` forms the union: it has the variables of both sets and no others, it has
-- no duplicate when the set had none, and its flag says whether a new variable came in.
pub add_variables_to_set_union :
    (set new_set : List Variable)
    → ((v : Variable)
        → is_variable_in_set ((add_variables_to_set set new_set).0) v
          ≡ (is_variable_in_set set v || is_variable_in_set new_set v))
      × (IsSetOfVariables set → IsSetOfVariables ((add_variables_to_set set new_set).0))
      × ((add_variables_to_set set new_set).1 ≡ not (all_in_set new_set set))
add_variables_to_set_union set new_set = (
  in_add_variables set new_set,
  IsSetOfVariables-add_variables set new_set,
  changed-add_variables set new_set,
)
