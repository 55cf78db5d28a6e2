-- ===== src/Facts/Dead.antt =====
-- src/FactPointTo.cpp, src/Variable.cpp: `mark_dead_var`, when a variable that a pointer may point to
-- goes out of scope.
use clsmith.Prelude.{
  ℕ, zero, suc, not, Option, none, some, List, [], ◌∷◌, set, if◌then◌else◌, ℤ, pos, negsuc,
}
use clsmith.Variables.{Variable, Store, field_vars, is_aggregate_var}
use clsmith.Variables.Sets.{find_variable_in_set, is_missing}
use clsmith.Facts.PointTo.{FactPointTo, garbage_ptr}

-- The position that is found, or else the other one; `none` is a search whose fuel is used up.
abbrev pub or_else : Option ℤ → Option ℤ → Option ℤ
or_else none b = none
or_else (some (pos a)) b = some (pos a)
or_else (some (negsuc a)) b = b

unfoldable pub first_position : (Variable → Option ℤ) → List Variable → Option ℤ
first_position q [] = some (negsuc 0)
first_position q (f ∷ fs) = or_else (q f) (first_position q fs)

-- Its fuel is the depth to which structs and unions are nested in each other.
unfoldable pub find_field_variable_in_set : Store → ℕ → List Variable → Variable → Option ℤ
find_field_variable_in_set s zero vars v = if is_aggregate_var s v then none else some (negsuc 0)
find_field_variable_in_set s (suc n) vars v =
    if is_aggregate_var s v
    then first_position
        (λ f.
          or_else (some (find_variable_in_set s vars f)) (find_field_variable_in_set s n vars f))
        (field_vars s v)
    else some (negsuc 0)

abbrev pub erase_at : List Variable → ℕ → List Variable
erase_at [] k = []
erase_at (x ∷ xs) zero = xs
erase_at (x ∷ xs) (suc k) = x ∷ erase_at xs k

-- The new fact, or `some none` for the null pointer where no update is necessary.
unfoldable pub mark_dead_var : Store → ℕ → FactPointTo → Variable → Option (Option FactPointTo)
mark_dead_var s n f v =
    let vars = f.point_to_vars in
    elim (or_else (some (find_variable_in_set s vars v)) (find_field_variable_in_set s n vars v)) [
      | none ↦ none
      | some p ↦ elim p [
        | pos k ↦ some (
            some (
              if not (is_missing (find_variable_in_set s vars garbage_ptr))
              then record f { point_to_vars = erase_at vars k }
              else record f { point_to_vars = set vars k garbage_ptr }))
        | negsuc k ↦ some none
      ]
    ]
