-- ===== src/Enumerator/Wheels.antt =====
-- src/Enumerator.h: what an increment and a clearing do to the number that the elements spell.
use clsmith.Prelude.{
  ℕ, zero, suc, ◌<◌, ◌≤◌, ◌≡◌, refl, sym, ◌∙◌, ap, Bool, false, some, List, [], ◌∷◌, map, arith,
  get_elem?, set, drop, length,
}
use mathlib.Core.Option.{some-injective}
use clsmith.Enumerator.{
  Entry, clear_value, reset_changed, clear_from, Enumerator, reset_all_changed,
}
use clsmith.Enumerator.Digits.{total, rank, IsBelow, cons}

unfoldable pub bounds : List Entry → List ℕ
bounds [] = []
bounds (x ∷ xs) = x.1.bound ∷ bounds xs

unfoldable pub values : List Entry → List ℕ
values [] = []
values (x ∷ xs) = x.1.current_value ∷ values xs

-- What no step changes: the names, the bounds and the kinds of the elements.
abbrev pub wheel : Entry → Entry
wheel x = (x.0, record x.1 { current_value = 0; changed = false })

unfoldable pub wheels : List Entry → List Entry
wheels [] = []
wheels (x ∷ xs) = wheel x ∷ wheels xs

unfoldable pub number : List Entry → ℕ
number xs = rank (bounds xs) (values xs)

-- The elements spell the last number.
unfoldable pub IsLast : List Entry → Type 0
IsLast xs = suc (number xs) ≡ total (bounds xs)

bounds-wheels : (xs : List Entry) → bounds (wheels xs) ≡ bounds xs
unfolding bounds wheels
bounds-wheels [] = refl
bounds-wheels (x ∷ xs) = ap (λ bs. x.1.bound ∷ bs) (bounds-wheels xs)

pub bounds-same : (xs ys : List Entry) → wheels xs ≡ wheels ys → bounds xs ≡ bounds ys
bounds-same xs ys h = sym (bounds-wheels xs) ∙ ap bounds h ∙ bounds-wheels ys

pub wheels-clear_from : (i : ℕ) (xs : List Entry) → wheels (clear_from i xs) ≡ wheels xs
unfolding wheels clear_from clear_value
wheels-clear_from i [] = refl
wheels-clear_from zero (x ∷ xs) = ap (λ ys. wheel x ∷ ys) (wheels-clear_from zero xs)
wheels-clear_from (suc i) (x ∷ xs) = ap (λ ys. wheel x ∷ ys) (wheels-clear_from i xs)

-- Writing the value of one element.
abbrev pub with_value : Entry → ℕ → Bool → Entry
with_value x v c = (x.0, record x.1 { current_value = v; changed = c })

pub wheels-set :
    (xs : List Entry) (p : ℕ) (x : Entry) (v : ℕ) (c : Bool)
    → get_elem? xs p ≡ some x
    → wheels (set xs p (with_value x v c)) ≡ wheels xs
unfolding wheels
wheels-set [] p x v c h = refl
wheels-set (y ∷ ys) zero x v c h = rw (some-injective y x h) refl
wheels-set (y ∷ ys) (suc p) x v c h = ap (λ zs. wheel y ∷ zs) (wheels-set ys p x v c h)

pub number-clear_from : (xs : List Entry) → number (clear_from zero xs) ≡ 0
unfolding number rank bounds values clear_from clear_value
number-clear_from [] = refl
number-clear_from (x ∷ xs) = omega (arith, number-clear_from xs)

pub total_same :
    (xs ys : List Entry) → wheels xs ≡ wheels ys → total (bounds xs) ≡ total (bounds ys)
total_same xs ys h = ap total (bounds-same xs ys h)

-- The elements after a position are at their last values: one more at the position, and zero after
-- it, is the next number.
pub number_step :
    (xs : List Entry) (p : ℕ) (x : Entry) (c : Bool)
    → get_elem? xs p ≡ some x
    → IsLast (drop (suc p) xs)
    → number (clear_from (suc p) (set xs p (with_value x (suc x.1.current_value) c)))
      ≡ suc (number xs)
unfolding IsLast number rank total bounds values clear_from
number_step [] p x c h l = absurd (ground (arith, h))
number_step (y ∷ ys) zero x c h l =
    let t = total_same (clear_from 0 ys) ys (wheels-clear_from 0 ys) in
    let z : rank (bounds (clear_from 0 ys)) (values (clear_from 0 ys)) ≡ 0 = number-clear_from ys in
    rw (t, ← ap (λ (w : Entry). w.1.current_value) (some-injective y x h)) (omega (arith, z, l))
number_step (y ∷ ys) (suc p) x c h l =
    let zs = clear_from (suc p) (set ys p (with_value x (suc x.1.current_value) c)) in
    let t = total_same zs ys (wheels-clear_from (suc p) _ ∙ wheels-set ys p x _ c h) in
    let ih : rank (bounds zs) (values zs) ≡ suc (rank (bounds ys) (values ys)) =
      number_step ys p x c h l in
    rw t (omega (arith, ih))

abbrev pub AreBelow : List Entry → Type 0
AreBelow xs = IsBelow (bounds xs) (values xs)

pub AreBelow-clear_from : (i : ℕ) (xs : List Entry) → AreBelow xs → AreBelow (clear_from i xs)
unfolding bounds values clear_from clear_value
AreBelow-clear_from i [] b = b
AreBelow-clear_from zero (x ∷ xs) (cons h b) =
    cons (omega (arith, h)) (AreBelow-clear_from zero xs b)
AreBelow-clear_from (suc i) (x ∷ xs) (cons h b) = cons h (AreBelow-clear_from i xs b)

pub AreBelow-set :
    (xs : List Entry) (p : ℕ) (x : Entry) (v : ℕ) (c : Bool)
    → v < x.1.bound
    → AreBelow xs
    → AreBelow (set xs p (with_value x v c))
unfolding bounds values
AreBelow-set [] p x v c l b = b
AreBelow-set (y ∷ ys) zero x v c l (cons h b) = cons l b
AreBelow-set (y ∷ ys) (suc p) x v c l (cons h b) = cons h (AreBelow-set ys p x v c l b)

length-wheels : (xs : List Entry) → length (wheels xs) ≡ length xs
unfolding wheels
length-wheels [] = refl
length-wheels (x ∷ xs) = ap suc (length-wheels xs)

pub length_same : (xs ys : List Entry) → wheels xs ≡ wheels ys → length xs ≡ length ys
length_same xs ys h = sym (length-wheels xs) ∙ ap length h ∙ length-wheels ys

wheels-reset : (xs : List Entry) → wheels (map (λ x. (x.0, reset_changed x.1)) xs) ≡ wheels xs
unfolding wheels reset_changed
wheels-reset [] = refl
wheels-reset (x ∷ xs) = ap (λ ys. wheel x ∷ ys) (wheels-reset xs)

values-reset : (xs : List Entry) → values (map (λ x. (x.0, reset_changed x.1)) xs) ≡ values xs
unfolding values reset_changed
values-reset [] = refl
values-reset (x ∷ xs) = ap (λ vs. x.1.current_value ∷ vs) (values-reset xs)

pub wheels-reset_all_changed : (e : Enumerator) → wheels (reset_all_changed e).objs ≡ wheels e.objs
unfolding reset_all_changed
wheels-reset_all_changed e = wheels-reset e.objs

pub values-reset_all_changed : (e : Enumerator) → values (reset_all_changed e).objs ≡ values e.objs
unfolding reset_all_changed
values-reset_all_changed e = values-reset e.objs

pub set_same : (xs : List Entry) (p : ℕ) (x : Entry) → get_elem? xs p ≡ some x → set xs p x ≡ xs
set_same [] p x h = refl
set_same (y ∷ ys) zero x h = ap (λ z. z ∷ ys) (sym (some-injective y x h))
set_same (y ∷ ys) (suc p) x h = ap (λ zs. y ∷ zs) (set_same ys p x h)

-- The last value at a position, and last values after it.
pub IsLast-drop :
    (xs : List Entry) (p : ℕ) (x : Entry)
    → get_elem? xs p ≡ some x
    → suc x.1.current_value ≡ x.1.bound
    → IsLast (drop (suc p) xs)
    → IsLast (drop p xs)
unfolding IsLast number rank total bounds values
IsLast-drop [] p x h e l = absurd (ground (arith, h))
IsLast-drop (y ∷ ys) zero x h e l =
    let e' : suc y.1.current_value ≡ y.1.bound = rw (some-injective y x h) e in
    rw (← e') (omega (arith, l))
IsLast-drop (y ∷ ys) (suc p) x h e l = IsLast-drop ys p x h e l

pub get_below :
    (xs : List Entry) (p : ℕ) (x : Entry)
    → get_elem? xs p ≡ some x
    → AreBelow xs
    → x.1.current_value < x.1.bound
unfolding bounds values
get_below [] p x h b = absurd (ground (arith, h))
get_below (y ∷ ys) zero x h (cons l b) = rw (← some-injective y x h) l
get_below (y ∷ ys) (suc p) x h (cons l b) = get_below ys p x h b

-- Elements with the same wheels and values.
pub number_same :
    (xs ys : List Entry) → wheels xs ≡ wheels ys → values xs ≡ values ys → number xs ≡ number ys
unfolding number
number_same xs ys w v = rw (bounds-same xs ys w, v) refl

pub IsLast-same :
    (xs ys : List Entry) → wheels xs ≡ wheels ys → values xs ≡ values ys → IsLast xs → IsLast ys
unfolding IsLast
IsLast-same xs ys w v l = rw (← number_same xs ys w v, ← total_same xs ys w) l

pub AreBelow-same :
    (xs ys : List Entry) → wheels xs ≡ wheels ys → values xs ≡ values ys → AreBelow xs → AreBelow ys
AreBelow-same xs ys w v b = rw (← bounds-same xs ys w, ← v) b

-- What comes after the last element.
pub clear_from_end : (i : ℕ) (xs : List Entry) → length xs ≤ i → clear_from i xs ≡ xs
unfolding clear_from
clear_from_end i [] h = refl
clear_from_end zero (x ∷ xs) h = absurd (omega (arith, h))
clear_from_end (suc i) (x ∷ xs) h = ap (λ ys. x ∷ ys) (clear_from_end i xs (omega (arith, h)))

pub IsLast-drop_end : (i : ℕ) (xs : List Entry) → length xs ≤ i → IsLast (drop i xs)
unfolding IsLast number rank total bounds
IsLast-drop_end zero [] h = refl
IsLast-drop_end (suc i) [] h = refl
IsLast-drop_end zero (x ∷ xs) h = absurd (omega (arith, h))
IsLast-drop_end (suc i) (x ∷ xs) h = IsLast-drop_end i xs (omega (arith, h))
