-- ===== src/Facts/Pointees.antt =====
-- src/FactPointTo.cpp: `merge_pointees_of_pointers` collects the pointees of several pointers.
use clsmith.Prelude.{
  ◌≡◌, refl, ◌∙◌, ◌⊎◌, inl, inr, Bool, true, false, not, ◌&&◌, ◌||◌, Option, none, some, List, [],
  ◌∷◌, Bool-cases, any, All, arith,
}
use clsmith.Variables.{Variable}
use clsmith.Variables.Sets.{is_variable_in_set, add_variables_to_set}
use clsmith.Variables.Membership.{IsSetOfVariables}
use clsmith.Variables.Union.{add_variables_to_set_union}
use clsmith.Facts.{find_related_fact}
use clsmith.Facts.PointTo.{
  FactPointTo, point_to_class, uninitialized, is_special_ptr, merge_pointees_from,
  merge_pointees_of_pointers,
}

abbrev pub fact_of : List FactPointTo → Variable → Option FactPointTo
fact_of facts p = find_related_fact point_to_class facts (uninitialized p)

-- The environment has a fact on the pointer, or the pointer is one of the special variables.
abbrev pub IsKnown : List FactPointTo → Variable → Type 0
IsKnown facts p = (is_special_ptr p ≡ true) ⊎ ((f : FactPointTo) × (fact_of facts p ≡ some f))

-- The fact on the pointer lists the variable.
abbrev pub may_point_to : List FactPointTo → Variable → Variable → Bool
may_point_to facts w p =
    not (is_special_ptr p)
    && elim (fact_of facts p) [ none ↦ false | some f ↦ is_variable_in_set f.point_to_vars w ]

-- The result of a search from a set that is already collected.
abbrev Collected : List FactPointTo → List Variable → List Variable → Type 0
Collected facts acc ptrs =
    (r : List Variable) × (merge_pointees_from facts acc ptrs ≡ some r)
    × IsSetOfVariables r
    × ((w : Variable)
        → is_variable_in_set r w ≡ (is_variable_in_set acc w || any (may_point_to facts w) ptrs))

collected :
    (facts : List FactPointTo) (acc ptrs : List Variable)
    → IsSetOfVariables acc
    → All (IsKnown facts) ptrs
    → Collected facts acc ptrs
unfolding merge_pointees_from
collected facts acc [] d k = (acc, refl, d, λ w. ground arith)
collected facts acc (p ∷ ptrs) d k = elim (Bool-cases (is_special_ptr p)) [
  | inl s ↦
      let (r, e, n, m) = collected facts acc ptrs d k.1 in
      (r, rw (merge_pointees_from, s) e, n, λ w. m w ∙ ground (arith, s))
  | inr s ↦ elim k.0 [
    | inl t ↦ absurd (ground (arith, s, t))
    | inr (f, t) ↦
        let (known, fresh, _) = add_variables_to_set_union acc f.point_to_vars in
        let (r, e, n, m) =
          collected facts ((add_variables_to_set acc f.point_to_vars).0) ptrs (fresh d) k.1 in
        let head : (w : Variable) → may_point_to facts w p ≡ is_variable_in_set f.point_to_vars w =
          λ w. rw (s, t) refl in
        (r, rw (merge_pointees_from, s, t) e, n, λ w. m w ∙ ground (arith, known w, head w))
  ]
]

-- Where the environment has a fact on each pointer, the search returns a set without duplicates of
-- exactly the variables that the fact on one of the pointers lists; the special variables `null`,
-- `garbage` and `tbd` among the pointers add nothing.
pub merge_pointees_of_pointers_union :
    (facts : List FactPointTo) (ptrs : List Variable)
    → All (IsKnown facts) ptrs
    → (r : List Variable) × (merge_pointees_of_pointers ptrs facts ≡ some r)
      × IsSetOfVariables r
      × ((w : Variable) → is_variable_in_set r w ≡ any (may_point_to facts w) ptrs)
unfolding merge_pointees_of_pointers is_variable_in_set
merge_pointees_of_pointers_union facts ptrs k =
    let (r, e, n, m) = collected facts [] ptrs tt k in (r, e, n, m)
