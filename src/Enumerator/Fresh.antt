-- ===== src/Enumerator/Fresh.antt =====
-- src/Enumerator.h: the enumerators that the operations of the class build.
use mathlib.Core.Option.{some-injective}
use clsmith.Prelude.{
  ℕ, zero, suc, ◌<◌, ◌≡◌, inl, inr, refl, ap, Bool, true, false, some, List, [], ◌∷◌, arith, ltb,
  Bool-cases, Option-cases,
}
use clsmith.Enumerator.{
  Enumerator, Entry, add_object, no_elements, Name, add_elem, add_bool_elem, add_bool_elem_of_bool,
  insert_at, find, lower_bound,
}
use clsmith.Enumerator.Digits.{rank, nil, cons}
use clsmith.Enumerator.Wheels.{bounds, values, number, AreBelow}

-- The enumerators that the operations of the class build.
pub data Built : Enumerator → Type 0 where
  from_none : Built no_elements
  by_elem :
      {e f : Enumerator} (name : Name) (bound : ℕ)
      → add_elem e name bound ≡ some f
      → Built e
      → Built f
  by_bool_elem :
      {e f : Enumerator} (name : Name) (value : ℕ)
      → add_bool_elem e name value ≡ some f
      → Built e
      → Built f
  by_bool_elem_of_bool :
      {e f : Enumerator} (name : Name) (value : Bool)
      → add_bool_elem_of_bool e name value ≡ some f
      → Built e
      → Built f

-- Every element is at zero, below its bound.
pub data IsFresh : List Entry → Type 0 where
  fresh_nil : IsFresh []
  fresh_cons :
      {x : Entry} {xs : List Entry}
      → 0 < x.1.bound
      → x.1.current_value ≡ 0
      → IsFresh xs
      → IsFresh (x ∷ xs)

IsFresh-insert_at :
    (i : ℕ) (y : Entry) (xs : List Entry)
    → 0 < y.1.bound
    → y.1.current_value ≡ 0
    → IsFresh xs
    → IsFresh (insert_at i y xs)
unfolding insert_at
IsFresh-insert_at zero y xs h z f = fresh_cons h z f
IsFresh-insert_at (suc i) y [] h z f = fresh_cons h z f
IsFresh-insert_at (suc i) y (x ∷ xs) h z (fresh_cons k w f) =
    fresh_cons k w (IsFresh-insert_at i y xs h z f)

IsFresh-add_object :
    (e f : Enumerator) (name : Name) (bound : ℕ) (b v : Bool)
    → add_object e name bound b v ≡ some f
    → IsFresh e.objs
    → IsFresh f.objs
unfolding add_object
IsFresh-add_object e f name bound b v h r = elim (Option-cases (find e.objs name)) [
  | inr (o, q) ↦ absurd (ground (arith, rw (add_object, q) at h))
  | inl q ↦ elim (Bool-cases (ltb 0 bound)) [
    | inl p ↦
        rw (← ap (λ (g : Enumerator). g.objs) (some-injective _ _ (rw (add_object, q, p) at h)))
          (IsFresh-insert_at (lower_bound e.objs name) _ e.objs (ground (arith, p)) refl r)
    | inr p ↦ absurd (ground (arith, rw (add_object, q, p) at h))
  ]
]

pub IsFresh-Built : (e : Enumerator) → Built e → IsFresh e.objs
unfolding add_elem add_bool_elem add_bool_elem_of_bool
IsFresh-Built e0 from_none = fresh_nil
IsFresh-Built e0 (by_elem {e = d} name bound h b) =
    IsFresh-add_object d e0 name bound false false h (IsFresh-Built d b)
IsFresh-Built e0 (by_bool_elem {e = d} name value h b) =
    IsFresh-add_object d e0 name _ true _ h (IsFresh-Built d b)
IsFresh-Built e0 (by_bool_elem_of_bool {e = d} name value h b) =
    IsFresh-add_object d e0 name _ true false h (IsFresh-Built d b)

pub AreBelow-IsFresh : (xs : List Entry) → IsFresh xs → AreBelow xs
unfolding bounds values
AreBelow-IsFresh xs0 fresh_nil = nil
AreBelow-IsFresh xs0 (fresh_cons h z f) = cons (omega (arith, h, z)) (AreBelow-IsFresh _ f)

pub number-IsFresh : (xs : List Entry) → IsFresh xs → number xs ≡ 0
unfolding number rank bounds values
number-IsFresh xs0 fresh_nil = refl
number-IsFresh xs0 (fresh_cons {xs} h z f) = rw z (omega (arith, number-IsFresh xs f))
