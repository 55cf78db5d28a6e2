-- ===== src/Tests/Enumerator.antt =====
-- src/Enumerator.h on an enumerator with three elements.
use clsmith.Prelude.{
  ℕ, ◌≡◌, ◌↔◌, refl, Bool, true, false, some, none, List, [], ◌∷◌, arith, get_elem?,
}
use clsmith.Enumerator.{
  Enumerator, Entry, no_elements, add_elem, add_bool_elem, add_bool_elem_of_bool, add_object, find,
  insert_at, lower_bound, name_eq, name_less, shifted, for_each, begin, reset_pos, decrement,
}
use clsmith.Enumerator.Digits.{total, rank, IsBelow, nil, cons}
use clsmith.Enumerator.Wheels.{bounds, values}
use clsmith.Enumerator.Steps.{IsReady}
use clsmith.Enumerator.Fresh.{Built, from_none, by_elem, by_bool_elem, by_bool_elem_of_bool}
use clsmith.Enumerator.Rounds.{note_values, visits_all}
use clsmith.Enumerator.Choices.{get_all_qualifiers, get_all_qualifiers_lem, pairs, choices}

abbrev entry : ℕ → ℕ → Bool → Entry
entry name bound b = (
  name ∷ [],
  record { bound = bound; current_value = 0; is_bool = b; bool_value = false; changed = false },
)

abbrev one : Enumerator
one = record { objs = entry 98 3 false ∷ []; forward_pos = 1; backward_pos = 1 }

abbrev two : Enumerator
two = record { objs = entry 97 2 true ∷ entry 98 3 false ∷ []; forward_pos = 2; backward_pos = 2 }

abbrev three : Enumerator
three = record {
  objs = entry 97 2 true ∷ entry 98 3 false ∷ entry 99 1 true ∷ [];
  forward_pos = 3;
  backward_pos = 3;
}

three-Built : Built three
unfolding add_elem add_bool_elem add_bool_elem_of_bool add_object find insert_at lower_bound name_eq
    name_less shifted
three-Built = by_bool_elem_of_bool {e = two} (99 ∷ []) false refl (
    by_bool_elem {e = one} (97 ∷ []) 30 refl (by_elem {e = no_elements} (98 ∷ []) 3 refl from_none))

visits_all_example :
    (vss : List (List ℕ)) × (for_each note_values 7 three ≡ some vss)
    × ((i : ℕ) (vs : List ℕ)
        → (get_elem? vss i ≡ some vs)
          ↔ (IsBelow (bounds three.objs) vs × (rank (bounds three.objs) vs ≡ i)))
unfolding total bounds
visits_all_example = visits_all three 7 three-Built (omega arith) (omega arith)

abbrev ready : Enumerator
ready = record three { forward_pos = 2; backward_pos = 1 }

ready-IsReady : IsReady ready
unfolding bounds values
ready-IsReady = record {
  below = cons (omega arith) (cons (omega arith) (cons (omega arith) nil));
  forward = refl;
  backward = refl;
}

-- With a single element, `reset_pos` moves an iterator before the first one.
begin_of_one : begin one ≡ none
unfolding begin reset_pos decrement
begin_of_one = refl

get_all_qualifiers_lem_example :
    get_all_qualifiers 5 30 100 ≡ some (pairs (choices 30) (choices 100))
get_all_qualifiers_lem_example = get_all_qualifiers_lem 30 100
