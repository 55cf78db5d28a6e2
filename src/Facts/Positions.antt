-- ===== src/Facts/Positions.antt =====
-- src/FactPointTo.cpp: where a dead variable or one of its fields stands in a set of pointees.
use clsmith.Prelude.{
  ℕ, zero, suc, ◌+◌, ◌≡◌, refl, sym, ap, ◌∙◌, ◌⊎◌, ◌<◌, Option, none, some, inl, inr, true, false,
  List, [], ◌∷◌, ◌++◌, map, length, set, Bool-cases, ℤ, pos, negsuc, arith,
}
use clsmith.Variables.Matching.{Inside, itself, deeper}
use clsmith.Variables.{
  member, indices_below, Variable, Store, matches_var, field_vars, is_aggregate_var,
}
use mathlib.Core.Option.{some-injective}
use clsmith.Effects.Nested.{Nested, direct, within, IsShallow, map-suc}
use clsmith.Variables.Sets.{find_from, find_variable_in_set}
use clsmith.Facts.Dead.{or_else, first_position, find_field_variable_in_set, erase_at}

pub found_here :
    (s : Store) (i : ℕ) (x v : Variable) (vars : List Variable)
    → matches_var s x v ≡ true
    → find_from s i (x ∷ vars) v ≡ pos i
unfolding find_from
found_here s i x v vars m = rw m refl

pub found_later :
    (s : Store) (i : ℕ) (x v : Variable) (vars : List Variable)
    → matches_var s x v ≡ false
    → find_from s i (x ∷ vars) v ≡ find_from s (suc i) vars v
unfolding find_from
found_later s i x v vars m = rw m refl

-- The set is cut at the position, into what is before it, the element there, and what is after.
abbrev pub Cut : Store → List Variable → Variable → ℕ → ℕ → Type 0
Cut s vars v i k =
    (xs : List Variable) × (d : Variable) × (ys : List Variable) × (vars ≡ xs ++ (d ∷ ys))
    × (length xs + i ≡ k)
    × (matches_var s d v ≡ true)

pub Cut-find_from :
    (s : Store) (i : ℕ) (vars : List Variable) (v : Variable) (k : ℕ)
    → find_from s i vars v ≡ pos k
    → Cut s vars v i k
unfolding find_from
Cut-find_from s i [] v k h = absurd (ground (arith, h))
Cut-find_from s i (x ∷ vars) v k h = elim (Bool-cases (matches_var s x v)) [
  | inl m ↦
      let at : pos i ≡ pos k = sym (found_here s i x v vars m) ∙ h in
      let same : i ≡ k = cc in ([], x, vars, refl, omega (arith, same), m)
  | inr m ↦
      let (xs, d, ys, e, l, t) =
        Cut-find_from s (suc i) vars v k (sym (found_later s i x v vars m) ∙ h) in
      (x ∷ xs, d, ys, ap (λ r. x ∷ r) e, omega (arith, l), t)
]

pub or_else_elim :
    (a b : Option ℤ) (k : ℕ) → or_else a b ≡ some (pos k) → (a ≡ some (pos k)) ⊎ (b ≡ some (pos k))
or_else_elim none b k h = inl h
or_else_elim (some (pos a)) b k h = inl h
or_else_elim (some (negsuc a)) b k h = inr h

-- Nothing is found.
abbrev pub IsMissed : Option ℤ → Type 0
IsMissed a = (k : ℕ) × (a ≡ some (negsuc k))

pub or_else-IsMissed : (a b : Option ℤ) → IsMissed (or_else a b) → IsMissed a × IsMissed b
or_else-IsMissed none b (k, h) = absurd (ground (arith, h))
or_else-IsMissed (some (pos a)) b (k, h) = absurd (ground (arith, h))
or_else-IsMissed (some (negsuc a)) b m = ((a, refl), m)

pub or_else_total :
    (a : ℤ) (b : Option ℤ) → (z : ℤ) × (b ≡ some z) → (z : ℤ) × (or_else (some a) b ≡ some z)
or_else_total (pos a) b d = (pos a, refl)
or_else_total (negsuc a) b d = d

position_of :
    (q : Variable → Option ℤ) (f : ℕ → Variable) (is : List ℕ) (k : ℕ)
    → first_position q (map f is) ≡ some (pos k)
    → (i : ℕ) × (q (f i) ≡ some (pos k))
unfolding first_position
position_of q f [] k h = absurd (ground (arith, h))
position_of q f (i ∷ is) k h = elim (or_else_elim (q (f i)) (first_position q (map f is)) k h) [
  | inl e ↦ (i, e)
  | inr e ↦ position_of q f is k e
]

first-IsMissed :
    (q : Variable → Option ℤ) (f : ℕ → Variable) (n i : ℕ)
    → i < n
    → IsMissed (first_position q (map f (indices_below n)))
    → IsMissed (q (f i))
unfolding first_position
first-IsMissed q f zero i l m = absurd (omega (arith, l))
first-IsMissed q f (suc n) zero l m = (or_else-IsMissed (q (f 0)) _ m).0
first-IsMissed q f (suc n) (suc i) l m =
    let (k, h) =
      (or_else-IsMissed (q (f 0)) (first_position q (map f (map suc (indices_below n)))) m).1 in
    first-IsMissed q (λ j. f (suc j)) n i (omega (arith, l))
      (k, ap (first_position q) (sym (map-suc f (indices_below n))) ∙ h)

first_total :
    (q : Variable → Option ℤ) (f : ℕ → Variable) (n : ℕ)
    → ((i : ℕ) → i < n → (z : ℤ) × (q (f i) ≡ some z))
    → (z : ℤ) × (first_position q (map f (indices_below n)) ≡ some z)
unfolding first_position
first_total q f zero h = (negsuc 0, refl)
first_total q f (suc n) h =
    let (z, e) = first_total q (λ j. f (suc j)) n (λ i l. h (suc i) (omega (arith, l))) in
    let rest = ap (first_position q) (map-suc f (indices_below n)) ∙ e in
    let (y, d) = h 0 (omega arith) in
    let (w, g) = or_else_total y (first_position q (map f (map suc (indices_below n)))) (z, rest) in
    (w, ap (λ a. or_else a (first_position q (map f (map suc (indices_below n))))) d ∙ g)

Inside-field : {v : Variable} (i : ℕ) {w : Variable} → Inside (member v i) w → Inside v w
Inside-field i itself = deeper itself
Inside-field i (deeper k) = deeper (Inside-field i k)

-- The search for a field, then for what is nested in it.
abbrev field_search : Store → ℕ → List Variable → Variable → Option ℤ
field_search s n vars f =
    or_else (some (find_variable_in_set s vars f)) (find_field_variable_in_set s n vars f)

search_fields :
    (s : Store) (n : ℕ) (vars : List Variable) (v : Variable)
    → is_aggregate_var s v ≡ true
    → find_field_variable_in_set s (suc n) vars v
      ≡ first_position (field_search s n vars) (field_vars s v)
unfolding find_field_variable_in_set
search_fields s n vars v a = rw a refl

search_none :
    (s : Store) (n : ℕ) (vars : List Variable) (v : Variable)
    → is_aggregate_var s v ≡ false
    → find_field_variable_in_set s n vars v ≡ some (negsuc 0)
unfolding find_field_variable_in_set
search_none s zero vars v a = rw a refl
search_none s (suc n) vars v a = rw a refl

search_out_of_fuel :
    (s : Store) (vars : List Variable) (v : Variable)
    → is_aggregate_var s v ≡ true
    → find_field_variable_in_set s zero vars v ≡ none
unfolding find_field_variable_in_set
search_out_of_fuel s vars v a = rw a refl

pub field_position :
    (s : Store) (n : ℕ) (vars : List Variable) (v : Variable) (k : ℕ)
    → find_field_variable_in_set s n vars v ≡ some (pos k)
    → (w : Variable) × Inside v w × (find_variable_in_set s vars w ≡ pos k)
field_position s zero vars v k h = elim (Bool-cases (is_aggregate_var s v)) [
  | inl a ↦
      let z : none ≡ some (pos k) = sym (search_out_of_fuel s vars v a) ∙ h in
      absurd (ground (arith, z))
  | inr a ↦
      let z : some (negsuc 0) ≡ some (pos k) = sym (search_none s zero vars v a) ∙ h in
      absurd (ground (arith, z))
]
field_position s (suc n) vars v k h = elim (Bool-cases (is_aggregate_var s v)) [
  | inl a ↦
      let (i, e) =
        position_of (field_search s n vars) (member v) (indices_below ((s v).field_count)) k
          (sym (search_fields s n vars v a) ∙ h) in
      elim (or_else_elim (some (find_variable_in_set s vars (member v i)))
        (find_field_variable_in_set s n vars (member v i)) k e) [
          | inl x ↦ (member v i, deeper itself, some-injective _ _ x)
          | inr x ↦
              let (w, d, y) = field_position s n vars (member v i) k x in (w, Inside-field i d, y)
        ]
  | inr a ↦
      let z : some (negsuc 0) ≡ some (pos k) = sym (search_none s (suc n) vars v a) ∙ h in
      absurd (ground (arith, z))
]

-- With fuel for the depth the search ends.
pub field_search_total :
    (s : Store) (n : ℕ) (vars : List Variable) (v : Variable)
    → IsShallow s n v
    → (z : ℤ) × (find_field_variable_in_set s n vars v ≡ some z)
field_search_total s zero vars v b = (negsuc 0, search_none s zero vars v b)
field_search_total s (suc n) vars v b = elim (Bool-cases (is_aggregate_var s v)) [
  | inl a ↦
      let (z, e) = first_total (field_search s n vars) (member v) ((s v).field_count) (λ i l.
        or_else_total (find_variable_in_set s vars (member v i)) _
          (field_search_total s n vars (member v i) (b i l))) in
      (z, search_fields s n vars v a ∙ e)
  | inr a ↦ (negsuc 0, search_none s (suc n) vars v a)
]

-- Where it finds nothing, no field at any depth is in the set.
pub field_search_complete :
    (s : Store) (n : ℕ) (vars : List Variable) {v w : Variable}
    → Nested s v w
    → IsMissed (find_field_variable_in_set s n vars v)
    → IsMissed (some (find_variable_in_set s vars w))
field_search_complete s zero vars {v} (direct i a l) (k, h) =
    let z : none ≡ some (negsuc k) = sym (search_out_of_fuel s vars v a) ∙ h in
    absurd (ground (arith, z))
field_search_complete s zero vars {v} (within i a l d) (k, h) =
    let z : none ≡ some (negsuc k) = sym (search_out_of_fuel s vars v a) ∙ h in
    absurd (ground (arith, z))
field_search_complete s (suc n) vars {v} (direct i a l) (k, h) =
    (or_else-IsMissed (some (find_variable_in_set s vars (member v i))) _ (
      first-IsMissed (field_search s n vars) (member v) ((s v).field_count) i l
        (k, sym (search_fields s n vars v a) ∙ h))).0
field_search_complete s (suc n) vars {v} (within i a l d) (k, h) =
    field_search_complete s n vars d (
      (or_else-IsMissed (some (find_variable_in_set s vars (member v i))) _ (
        first-IsMissed (field_search s n vars) (member v) ((s v).field_count) i l
          (k, sym (search_fields s n vars v a) ∙ h))).1)

pub erase_at-cut :
    (xs : List Variable) (d : Variable) (ys : List Variable)
    → erase_at (xs ++ (d ∷ ys)) (length xs) ≡ xs ++ ys
erase_at-cut [] d ys = refl
erase_at-cut (x ∷ xs) d ys = ap (λ r. x ∷ r) (erase_at-cut xs d ys)

pub set-cut :
    (xs : List Variable) (d g : Variable) (ys : List Variable)
    → set (xs ++ (d ∷ ys)) (length xs) g ≡ xs ++ (g ∷ ys)
set-cut [] d g ys = refl
set-cut (x ∷ xs) d g ys = ap (λ r. x ∷ r) (set-cut xs d g ys)
