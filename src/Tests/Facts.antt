-- ===== src/Tests/Facts.antt =====
-- src/Fact.cpp, src/FactPointTo.cpp on two pointers and their pointees.
use clsmith.Prelude.{
  none, ◌++◌, if◌then◌else◌, false, ◌≡◌, refl, ◌⊎◌, inl, inr, true, false, not, some, List, [], ◌∷◌,
  All, any, zero, suc, arith,
}
use clsmith.Types.{CType, simple, int, struct, end, field}
use clsmith.Variables.{Variable, VarInfo, named, member, var_eq, has_field_var, is_reached}
use clsmith.Variables.Sets.{is_variable_in_set}
use clsmith.Variables.Membership.{IsSetOfVariables}
use clsmith.Facts.{find_related_fact, merge_facts}
use clsmith.Facts.Environments.{merge_facts_upper_bound}
use clsmith.Facts.Merging.{Implies, Survives}
use clsmith.Facts.PointTo.{
  FactPointTo, point_to_class, null_ptr, garbage_ptr, tbd_ptr, is_related, imply, join,
  merge_pointees_of_pointers,
}
use clsmith.Facts.Joins.{IsValid, point_to_laws, join_least_upper_bound}
use clsmith.Qualifiers.{of_levels}
use clsmith.Variables.{Store, matches_var}
use clsmith.Variables.Sets.{find_variable_in_set, find_from}
use clsmith.Variables.Matching.{Inside}
use clsmith.Facts.Dead.{mark_dead_var, find_field_variable_in_set, first_position}
use clsmith.Effects.Nested.{Nested, IsShallow}
use clsmith.Facts.Death.{has_garbage, mark_dead_var_changes}
use clsmith.Facts.Pointees.{IsKnown, may_point_to, merge_pointees_of_pointers_union}

abbrev p : Variable
p = named 5

abbrev q : Variable
q = named 6

abbrev x : Variable
x = named 7

abbrev p_null : FactPointTo
p_null = record { var = p; point_to_vars = null_ptr ∷ [] }

abbrev p_x : FactPointTo
p_x = record { var = p; point_to_vars = x ∷ [] }

abbrev p_tbd : FactPointTo
p_tbd = record { var = p; point_to_vars = tbd_ptr ∷ [] }

abbrev q_x : FactPointTo
q_x = record { var = q; point_to_vars = x ∷ garbage_ptr ∷ [] }

p_null_valid : IsValid p_null
unfolding is_variable_in_set
p_null_valid = (refl, tt)

p_x_valid : IsValid p_x
unfolding is_variable_in_set
p_x_valid = (refl, tt)

q_x_valid : IsValid q_x
unfolding is_variable_in_set var_eq
q_x_valid = (refl, (refl, tt))

same_pointer : is_related p_null p_x ≡ true
unfolding is_related var_eq
same_pointer = refl

join_least_upper_bound_example :
    (imply ((join p_null p_x).0) p_null ≡ true)
    × (imply ((join p_null p_x).0) p_x ≡ true)
    × ((h : FactPointTo)
        → imply h p_null ≡ true
        → imply h p_x ≡ true
        → imply h ((join p_null p_x).0) ≡ true)
    × IsValid ((join p_null p_x).0)
    × ((join p_null p_x).1 ≡ not (imply p_null p_x))
join_least_upper_bound_example =
    join_least_upper_bound p_null p_x p_null_valid p_x_valid same_pointer

merge_facts_upper_bound_example :
    All
      (Implies point_to_class IsValid point_to_laws
        ((merge_facts point_to_class (p_null ∷ []) (q_x ∷ p_x ∷ [])).0))
      (q_x ∷ p_x ∷ [])
    × ((g f : FactPointTo)
        → find_related_fact point_to_class (p_null ∷ []) g ≡ some f
        → Survives point_to_class IsValid point_to_laws
            ((merge_facts point_to_class (p_null ∷ []) (q_x ∷ p_x ∷ [])).0)
            g
            f)
    × All IsValid ((merge_facts point_to_class (p_null ∷ []) (q_x ∷ p_x ∷ [])).0)
    × ((merge_facts point_to_class (p_null ∷ []) (q_x ∷ p_x ∷ [])).1 ≡ false
        → (merge_facts point_to_class (p_null ∷ []) (q_x ∷ p_x ∷ [])).0 ≡ p_null ∷ [])
merge_facts_upper_bound_example =
    merge_facts_upper_bound point_to_class IsValid point_to_laws (p_null ∷ []) (q_x ∷ p_x ∷ [])
      (p_null_valid, tt) (q_x_valid, (p_x_valid, tt))

both_pointers-IsKnown : All (IsKnown (p_null ∷ q_x ∷ [])) (p ∷ q ∷ null_ptr ∷ [])
unfolding find_related_fact is_related var_eq
both_pointers-IsKnown = (inr (p_null, refl), (inr (q_x, refl), (inl refl, tt)))

merge_pointees_of_pointers_union_example :
    (r : List Variable) × (merge_pointees_of_pointers (p ∷ q ∷ null_ptr ∷ []) (p_null ∷ q_x ∷ [])
      ≡ some r)
    × IsSetOfVariables r
    × ((w : Variable)
        → is_variable_in_set r w ≡ any (may_point_to (p_null ∷ q_x ∷ []) w) (p ∷ q ∷ null_ptr ∷ []))
merge_pointees_of_pointers_union_example =
    merge_pointees_of_pointers_union (p_null ∷ q_x ∷ []) (p ∷ q ∷ null_ptr ∷ [])
      both_pointers-IsKnown

abbrev plain : VarInfo
plain = record {
  name = [];
  type = some (simple int);
  is_access_once = false;
  is_array = false;
  qfer = of_levels [] [];
  collective = none;
  field_count = 0;
}

-- `x` is a struct with two fields, of which the second is a struct with one field.
abbrev one_field : CType
one_field = struct 1 false (field (simple int) (of_levels [] []) none end)

abbrev nest : Store
nest (named i) = record plain {
  type = some (
      struct 2 false
        (field (simple int) (of_levels [] []) none (field one_field (of_levels [] []) none end)));
  field_count = 2;
}
nest (member (named i) zero) = plain
nest (member (named i) (suc k)) = record plain { type = some one_field; field_count = 1 }
nest (member (member p i) k) = plain

nest-x-IsShallow : IsShallow nest 2 x
nest-x-IsShallow zero l zero k = absurd (omega (arith, k))
nest-x-IsShallow zero l (suc j) k = absurd (omega (arith, k))
nest-x-IsShallow (suc i) l j k = refl

-- A pointer to the innermost field of `x`.
abbrev p_inner : FactPointTo
p_inner = record q_x { point_to_vars = member (member x 1) 0 ∷ null_ptr ∷ [] }

mark_dead_var_changes_example :
    ((mark_dead_var nest 2 p_inner x ≡ some none)
      × (any (λ d. matches_var nest d x) p_inner.point_to_vars ≡ false)
      × ((w : Variable)
          → Nested nest x w
          → any (λ d. matches_var nest d w) p_inner.point_to_vars ≡ false))
    ⊎ ((xs : List Variable) × (d : Variable) × (ys : List Variable) × (w : Variable)
        × (p_inner.point_to_vars ≡ xs ++ (d ∷ ys))
        × Inside x w
        × (matches_var nest d w ≡ true)
        × (mark_dead_var nest 2 p_inner x
            ≡ some (
                some (record p_inner {
                  point_to_vars =
                      if has_garbage nest p_inner then xs ++ ys else xs ++ (garbage_ptr ∷ ys);
                }))))
mark_dead_var_changes_example = mark_dead_var_changes nest 2 p_inner x nest-x-IsShallow

dead_field_goes :
    mark_dead_var nest 2 p_inner x
    ≡ some (some (record p_inner { point_to_vars = garbage_ptr ∷ null_ptr ∷ [] }))
unfolding mark_dead_var find_variable_in_set find_from matches_var var_eq has_field_var is_reached
    find_field_variable_in_set first_position
dead_field_goes = refl
