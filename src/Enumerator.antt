-- ===== src/Enumerator.antt =====
-- src/Enumerator.h, for the names that the program uses it with (`Enumerator<string>`): an odometer
-- over named wheels, kept in a map. The map is a list in the order of its keys and an iterator into
-- it is an index, so that `objs_.end()` is the length. `none` stands for a failed assertion and for
-- what C++ leaves undefined: a decrement of `begin()` or an iterator at the end that is read.
pub mod Digits
pub mod Wheels
pub mod Steps
pub mod Next
pub mod Fresh
pub mod Rounds
pub mod Choices
use clsmith.Prelude.{
  ℕ, zero, suc, ◌+◌, Bool, true, false, not, ◌&&◌, ◌||◌, Option, none, some, List, [], ◌∷◌, map,
  ltb, leb, ◌==◌, if◌then◌else◌, length, get_elem?, set,
}

pub record EnumObject : Type 0 where
  pub bound : ℕ
  pub current_value : ℕ
  pub is_bool : Bool
  pub bool_value : Bool
  pub changed : Bool

-- `EnumObject::next`, which takes its increment back where it leaves the bound.
unfoldable pub next_value : EnumObject → EnumObject × Bool
next_value o =
    if ltb (suc o.current_value) o.bound
    then (record o { current_value = suc o.current_value; changed = true }, true)
    else (o, false)

unfoldable pub good_value : EnumObject → Bool
good_value o = ltb o.current_value o.bound

unfoldable pub clear_value : EnumObject → EnumObject
clear_value o = record o { current_value = 0 }

unfoldable pub reset_changed : EnumObject → EnumObject
reset_changed o = record o { changed = false }

abbrev pub Name : Type 0
Name = List ℕ

abbrev pub Entry : Type 0
Entry = Name × EnumObject

pub record Enumerator : Type 0 where
  pub objs : List Entry
  pub forward_pos : ℕ
  pub backward_pos : ℕ

abbrev pub no_elements : Enumerator
no_elements = record { objs = []; forward_pos = 0; backward_pos = 0 }

-- The order and the equality of strings.
unfoldable pub name_less : Name → Name → Bool
name_less [] [] = false
name_less [] (_ ∷ _) = true
name_less (_ ∷ _) [] = false
name_less (a ∷ cs) (b ∷ ds) =
    let rest = name_less cs ds in if ltb a b then true else if ltb b a then false else rest

unfoldable pub name_eq : Name → Name → Bool
name_eq [] [] = true
name_eq (a ∷ cs) (b ∷ ds) = a == b && name_eq cs ds
name_eq _ _ = false

-- `objs_.find(name)`.
unfoldable pub find : List Entry → Name → Option EnumObject
find [] name = none
find (x ∷ xs) name = let rest = find xs name in if name_eq x.0 name then some x.1 else rest

-- `objs_[name] = obj` for a name that the map does not have. The iterators of a map stay at their
-- elements, so an index from the new element on moves by one.
unfoldable pub lower_bound : List Entry → Name → ℕ
lower_bound [] name = 0
lower_bound (x ∷ xs) name =
    let rest = lower_bound xs name in if name_less x.0 name then suc rest else 0

unfoldable pub insert_at : ℕ → Entry → List Entry → List Entry
insert_at zero y xs = y ∷ xs
insert_at (suc i) y [] = y ∷ []
insert_at (suc i) y (x ∷ xs) = x ∷ insert_at i y xs

unfoldable pub shifted : ℕ → ℕ → ℕ
shifted i p = if leb i p then suc p else p

-- The common part of the three operations that add an element, with the assertions that the name is
-- new and that the bound is positive.
unfoldable pub add_object : Enumerator → Name → ℕ → Bool → Bool → Option Enumerator
add_object e name bound is_bool bool_value = elim (find e.objs name) [
  | some _ ↦ none
  | none ↦ elim (ltb 0 bound) [
    | false ↦ none
    | true ↦
        let i = lower_bound e.objs name in
        let obj : EnumObject = record {
          bound = bound;
          current_value = 0;
          is_bool = is_bool;
          bool_value = bool_value;
          changed = false;
        } in
        some (record {
          objs = insert_at i (name, obj) e.objs;
          forward_pos = shifted i e.forward_pos;
          backward_pos = shifted i e.backward_pos;
        })
  ]
]

unfoldable pub add_elem : Enumerator → Name → ℕ → Option Enumerator
add_elem e name bound = add_object e name bound false false

unfoldable pub add_bool_elem_of_bool : Enumerator → Name → Bool → Option Enumerator
add_bool_elem_of_bool e name value = add_object e name (if value then 2 else 1) true false

-- The value is a probability in percent.
abbrev pub percent_bound : ℕ → ℕ
percent_bound p = if p == 0 || p == 100 then 1 else 2

unfoldable pub add_bool_elem : Enumerator → Name → ℕ → Option Enumerator
add_bool_elem e name value = add_object e name (percent_bound value) true (value == 100)

abbrev pub number : Bool → ℕ
number b = if b then 1 else 0

unfoldable pub get_elem : Enumerator → Name → Option ℕ
get_elem e name = elim (find e.objs name) [
  | none ↦ none
  | some o ↦ some (
      if o.is_bool
      then (if o.bound == 1 then number o.bool_value else number (not (o.current_value == 0)))
      else o.current_value)
]

unfoldable pub is_changed : Enumerator → Name → Option Bool
is_changed e name = elim (find e.objs name) [ none ↦ none | some o ↦ some o.changed ]

-- `--` of an iterator, which is undefined at `begin()`.
unfoldable pub decrement : ℕ → Option ℕ
decrement zero = none
decrement (suc p) = some p

-- From `objs_.end()` to the last element, and from there to the one before it.
unfoldable pub reset_pos : Enumerator → Option Enumerator
unfolding decrement
reset_pos e = elim (decrement (length e.objs)) [
  | none ↦ none
  | some forward ↦ elim (decrement forward) [
    | none ↦ none
    | some backward ↦ some (record e { forward_pos = forward; backward_pos = backward })
  ]
]

unfoldable pub reset_all_changed : Enumerator → Enumerator
reset_all_changed e = record e { objs = map (λ x. (x.0, reset_changed x.1)) e.objs }

-- The loop of `reset_after_backward_pos` over the elements from an index on.
unfoldable pub clear_from : ℕ → List Entry → List Entry
clear_from i [] = []
clear_from zero (x ∷ xs) = (x.0, clear_value x.1) ∷ clear_from zero xs
clear_from (suc i) (x ∷ xs) = x ∷ clear_from i xs

unfoldable pub reset_after_backward_pos : Enumerator → Enumerator
reset_after_backward_pos e = record e {
  objs = clear_from (suc e.backward_pos) e.objs;
  forward_pos = suc e.backward_pos;
}

-- A pointer to the enumerator is `true`, and the NULL that ends the loop is `false`.
abbrev pub Cursor : Type 0
Cursor = Bool × Enumerator

unfoldable pub begin : Enumerator → Option Cursor
begin e = elim (reset_pos e) [
  | none ↦ none
  | some f ↦ elim (get_elem? f.objs f.forward_pos) [
    | none ↦ none
    | some x ↦ some (not (f.forward_pos == 0 && not (good_value x.1)), f)
  ]
]

abbrev pub move_on : Enumerator → Option Cursor
move_on e = elim (reset_pos (reset_after_backward_pos e)) [ none ↦ none | some f ↦ some (true, f) ]

abbrev pub put : Enumerator → ℕ → Name → EnumObject → Enumerator
put e p name o = record e { objs = set e.objs p (name, o); backward_pos = p }

-- The recursion of `roll_back_current_pos`, by the backward position.
unfoldable pub roll_back_from : ℕ → Enumerator → Option Cursor
roll_back_from zero e = elim (get_elem? e.objs 0) [
  | none ↦ none
  | some x ↦
      let (o, moved) = next_value x.1 in
      if moved then move_on (put e 0 x.0 o) else some (false, put e 0 x.0 o)
]
roll_back_from (suc p) e = elim (get_elem? e.objs (suc p)) [
  | none ↦ none
  | some x ↦
      let (o, moved) = next_value x.1 in
      let rest = roll_back_from p (put e (suc p) x.0 o) in
      if moved then move_on (put e (suc p) x.0 o) else rest
]

unfoldable pub roll_back_current_pos : Enumerator → Option Cursor
roll_back_current_pos e = roll_back_from e.backward_pos e

-- `next` calls itself only after `reset_pos`, and then its position is the last: two calls are
-- enough.
unfoldable pub next_within : ℕ → Enumerator → Option Cursor
next_within zero e = none
next_within (suc n) e =
    let f = reset_all_changed e in
    elim (get_elem? f.objs f.forward_pos) [
      | none ↦ none
      | some x ↦
          let (o, moved) = next_value x.1 in
          let g : Enumerator = record f { objs = set f.objs f.forward_pos (x.0, o) } in
          elim moved [
            | true ↦ some (true, g)
            | false ↦
                let h : Enumerator = record g { forward_pos = suc g.forward_pos } in
                elim (h.forward_pos == length h.objs) [
                  | true ↦ roll_back_current_pos h
                  | false ↦ elim (reset_pos h) [ none ↦ none | some r ↦ next_within n r ]
                ]
          ]
    ]

unfoldable pub next : Enumerator → Option Cursor
next e = next_within 2 e

-- The loop `for (i = e.begin(); i != e.end(); i = i->next())` of the clients, with fuel for its
-- rounds; `visit` is its body.
module _ {A : Type 0} (visit : Enumerator → Option A) where
  unfoldable pub for_each_from : ℕ → Cursor → Option (List A)
  for_each_from zero c = none
  for_each_from (suc n) (i, e) = elim i [
    | false ↦ some []
    | true ↦ elim (visit e) [
      | none ↦ none
      | some a ↦ elim (next e) [
        | none ↦ none
        | some c ↦ elim (for_each_from n c) [ none ↦ none | some rest ↦ some (a ∷ rest) ]
      ]
    ]
  ]

  unfoldable pub for_each : ℕ → Enumerator → Option (List A)
  for_each n e = elim (begin e) [ none ↦ none | some c ↦ for_each_from n c ]
