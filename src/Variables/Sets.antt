-- ===== src/Variables/Sets.antt =====
-- src/Variable.cpp: vectors of variables used as sets.
use clsmith.Prelude.{
  ℕ, zero, suc, ◌+◌, Bool, true, false, not, ◌&&◌, ◌||◌, List, [], ◌∷◌, ◌++◌, ◌==◌, if◌then◌else◌,
  length, leb, Option, none, some, ℤ, pos, negsuc,
}
use clsmith.Variables.{Variable, Store, var_eq, matches_var, get_top_container, is_field_var}

unfoldable pub find_from : Store → ℕ → List Variable → Variable → ℤ
find_from s i [] v = negsuc 0
find_from s i (x ∷ xs) v =
    let rest = find_from s (suc i) xs v in if matches_var s x v then pos i else rest

-- The position of the first variable that matches, or -1.
unfoldable pub find_variable_in_set : Store → List Variable → Variable → ℤ
find_variable_in_set s set v = find_from s 0 set v

unfoldable pub is_variable_in_set : List Variable → Variable → Bool
is_variable_in_set [] v = false
is_variable_in_set (x ∷ set) v = var_eq x v || is_variable_in_set set v

-- The new set, and whether it is changed.
unfoldable pub add_variable_to_set : List Variable → Variable → List Variable × Bool
add_variable_to_set set v =
    if not (is_variable_in_set set v) then (set ++ (v ∷ []), true) else (set, false)

unfoldable pub add_variables_to_set : List Variable → List Variable → List Variable × Bool
add_variables_to_set set [] = (set, false)
add_variables_to_set set (v ∷ new_set) =
    let (set1, c) = add_variable_to_set set v in
    let (set2, d) = add_variables_to_set set1 new_set in (set2, c || d)

-- The loop of `equal_variable_sets` and `sub_variable_sets`.
unfoldable pub all_in_set : List Variable → List Variable → Bool
all_in_set [] set = true
all_in_set (v ∷ vs) set = is_variable_in_set set v && all_in_set vs set

unfoldable pub equal_variable_sets : List Variable → List Variable → Bool
equal_variable_sets set1 set2 = length set1 == length set2 && all_in_set set1 set2

unfoldable pub sub_variable_sets : List Variable → List Variable → Bool
sub_variable_sets set1 set2 = leb (length set1) (length set2) && all_in_set set1 set2

abbrev pub is_missing : ℤ → Bool
is_missing (pos _) = false
is_missing (negsuc _) = true

-- The variables of the second set that no variable of the first one matches.
unfoldable pub unmatched : Store → List Variable → List Variable → List Variable
unmatched s set1 [] = []
unmatched s set1 (v ∷ set2) =
    let rest = unmatched s set1 set2 in
    if is_missing (find_variable_in_set s set1 v) then v ∷ rest else rest

unfoldable pub combine_variable_sets : Store → List Variable → List Variable → List Variable
combine_variable_sets s set1 set2 = set1 ++ unmatched s set1 set2

-- The loop of `remove_field_vars`: the elements before the position, those still to visit, and
-- fuel for the visits, where `none` is fuel that is used up. A field is erased and its top variable
-- is put at the end unless it is there.
unfoldable pub remove_from : ℕ → List Variable → List Variable → Option (List Variable)
remove_from zero before [] = some before
remove_from zero before (v ∷ rest) = none
remove_from (suc n) before [] = some before
remove_from (suc n) before (v ∷ rest) = elim (is_field_var v) [
  | true ↦ elim (is_variable_in_set (before ++ rest) (get_top_container v)) [
    | true ↦ remove_from n before rest
    | false ↦ remove_from n before (rest ++ (get_top_container v ∷ []))
  ]
  | false ↦ remove_from n (before ++ (v ∷ [])) rest
]

-- Every field is visited once, and so is every variable that is put at the end.
unfoldable pub remove_field_vars : List Variable → Option (List Variable)
remove_field_vars set = remove_from (length set + length set) [] set
