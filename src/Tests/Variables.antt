-- ===== src/Tests/Variables.antt =====
-- src/Variable.cpp on sets of three variables.
use clsmith.Prelude.{◌≡◌, refl, true, some, All, List, [], ◌∷◌}
use clsmith.Variables.Removal.{IsTop, has_top, remove_field_vars_tops}
use clsmith.Variables.{get_top_container, Variable, named, member, var_eq}
use clsmith.Variables.Sets.{
  remove_field_vars, remove_from, is_variable_in_set, add_variables_to_set, add_variable_to_set,
}
use clsmith.Variables.Membership.{IsSetOfVariables}

abbrev a : Variable
a = named 3

abbrev b : Variable
b = named 4

abbrev a_f0 : Variable
a_f0 = member a 0

abbrev ab : List Variable
ab = a ∷ b ∷ []

abbrev ba : List Variable
ba = b ∷ a ∷ []

ab_distinct : IsSetOfVariables ab
unfolding is_variable_in_set var_eq
ab_distinct = (refl, (refl, tt))

ba_distinct : IsSetOfVariables ba
unfolding is_variable_in_set var_eq
ba_distinct = (refl, (refl, tt))

field_comes_in : add_variables_to_set ab (a_f0 ∷ a ∷ []) ≡ (a ∷ b ∷ a_f0 ∷ [], true)
unfolding add_variables_to_set add_variable_to_set is_variable_in_set var_eq
field_comes_in = refl

remove_field_vars_tops_example :
    (r : List Variable) × (remove_field_vars (a_f0 ∷ b ∷ a ∷ []) ≡ some r)
    × (remove_from 6 [] (a_f0 ∷ b ∷ a ∷ []) ≡ some r)
    × All IsTop r
    × ((w : Variable) → is_variable_in_set r w ≡ has_top (a_f0 ∷ b ∷ a ∷ []) w)
remove_field_vars_tops_example = remove_field_vars_tops (a_f0 ∷ b ∷ a ∷ [])

field_goes : remove_field_vars (a_f0 ∷ b ∷ []) ≡ some (b ∷ a ∷ [])
unfolding remove_field_vars remove_from is_variable_in_set get_top_container var_eq
field_goes = refl
