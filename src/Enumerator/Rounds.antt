-- ===== src/Enumerator/Rounds.antt =====
-- src/Enumerator.h: the tuples that the loop over an enumerator visits.
use mathlib.Core.Option.{some-injective}
use native.Mathlib.Nat.{zero-add}
use clsmith.Prelude.{
  get_elem_lt, ℕ, zero, suc, ◌+◌, ◌-◌, ◌<◌, ◌≤◌, ◌≡◌, ◌↔◌, inl, inr, refl, ap, sym, true, false,
  Option, some, List, [], ◌∷◌, arith, ◌==◌, get_elem?, length,
}
use clsmith.Enumerator.{Enumerator, for_each_from, for_each, begin}
use clsmith.Enumerator.Digits.{total, rank, rank_lt, rank_unique, IsBelow}
use clsmith.Enumerator.Wheels.{bounds, values, number, IsLast, AreBelow, bounds-same}
use clsmith.Enumerator.Steps.{reset_pos_lem, IsReady}
use clsmith.Enumerator.Next.{next_lem}
use clsmith.Enumerator.Fresh.{Built, IsFresh-Built, AreBelow-IsFresh, number-IsFresh}

-- The body that notes the values.
abbrev pub note_values : Enumerator → Option (List ℕ)
note_values e = some (values e.objs)

-- A list holds the tuples below the bounds in the order of their numbers, from the number `k` on.
abbrev pub Lists : List ℕ → ℕ → List (List ℕ) → Type 0
Lists bs k vss =
    (i : ℕ) (vs : List ℕ) → (get_elem? vss i ≡ some vs) ↔ (IsBelow bs vs × (rank bs vs ≡ k + i))

Lists-nil : (bs : List ℕ) → Lists bs (total bs) []
Lists-nil bs i vs =
    (λ h. absurd (ground (arith, h)), λ (b, e). absurd (omega (arith, rank_lt b, e)))

-- The tuple at `ws` comes before those with larger numbers.
Lists-step :
    (bs ws : List ℕ) (vss : List (List ℕ))
    → IsBelow bs ws
    → Lists bs (suc (rank bs ws)) vss
    → Lists bs (rank bs ws) (ws ∷ vss)
Lists-step bs ws vss b l zero vs = (
  λ h. rw (← some-injective ws vs h) (b, omega arith),
  λ (c, e). ap some (rank_unique b c (omega (arith, e))),
)
Lists-step bs ws vss b l (suc i) vs =
    let h = l i vs in
    (λ g. ((h.0 g).0, omega (arith, (h.0 g).1)), λ (c, e). h.1 (c, omega (arith, e)))

Lists-before :
    (e f : Enumerator) (vss : List (List ℕ))
    → AreBelow e.objs
    → bounds f.objs ≡ bounds e.objs
    → number f.objs ≡ suc (number e.objs)
    → Lists (bounds f.objs) (number f.objs) vss
    → Lists (bounds e.objs) (number e.objs) (values e.objs ∷ vss)
unfolding number
Lists-before e f vss b q k l = Lists-step (bounds e.objs) (values e.objs) vss b (rw (← k, ← q) l)

loop_end : (n : ℕ) (e : Enumerator) → 0 < n → for_each_from note_values n (false, e) ≡ some []
unfolding for_each_from
loop_end zero e h = absurd (omega (arith, h))
loop_end (suc n) e h = refl

Visits : ℕ → Enumerator → Type 0
Visits n e =
    (vss : List (List ℕ)) × (for_each_from note_values n (true, e) ≡ some vss)
    × Lists (bounds e.objs) (number e.objs) vss

from_lem :
    (n : ℕ) (e : Enumerator) → IsReady e → total (bounds e.objs) < n + number e.objs → Visits n e
unfolding for_each_from number Visits IsLast
from_lem zero e r h = absurd (omega (arith, h, rank_lt r.below))
from_lem (suc n) e r h = elim (next_lem e r) [
  | inl a ↦
      let q = bounds-same a.after.objs e.objs a.same in
      let (vss, run, l) = from_lem n a.after a.ready (omega (arith, h, ap total q, a.number_suc)) in
      (
        values e.objs ∷ vss,
        rw (for_each_from, a.result, run) refl,
        Lists-before e a.after vss r.below q a.number_suc l,
      )
  | inr a ↦ (
    values e.objs ∷ [],
    rw (for_each_from, a.result, loop_end n a.after (omega (arith, h, a.last))) refl,
    Lists-step (bounds e.objs) (values e.objs) [] r.below (rw a.last (Lists-nil (bounds e.objs))),
  )
]

begin_lem :
    (e : Enumerator) (n : ℕ)
    → length e.objs ≡ suc (suc n)
    → begin e ≡ some (true, record e { forward_pos = suc n; backward_pos = n })
unfolding begin
begin_lem e n h =
    let (x, g) = get_elem_lt e.objs (suc n) (omega (arith, h)) in
    let t : (suc n == 0) ≡ false = ground arith in rw (begin, reset_pos_lem e n h, g, t) refl

-- The loop over an enumerator that has at least two elements ends, with fuel for one round more
-- than there are tuples below the bounds of its elements; and it visits each of these tuples exactly
-- once, in the order of the numbers that they spell: the round `i` is at `vs` just where `vs` is
-- below the bounds and its number is `i`.
pub visits_all :
    (e : Enumerator) (n : ℕ)
    → Built e
    → 2 ≤ length e.objs
    → total (bounds e.objs) < n
    → (vss : List (List ℕ)) × (for_each note_values n e ≡ some vss)
      × ((i : ℕ) (vs : List ℕ)
          → (get_elem? vss i ≡ some vs)
            ↔ (IsBelow (bounds e.objs) vs × (rank (bounds e.objs) vs ≡ i)))
unfolding for_each Visits
visits_all e n b two h =
    let m = length e.objs - 2 in
    let len : length e.objs ≡ suc (suc m) = omega (arith, two) in
    let f : Enumerator = record e { forward_pos = suc m; backward_pos = m } in
    let fresh = IsFresh-Built e b in
    let ready : IsReady f = record {
      below = AreBelow-IsFresh e.objs fresh;
      forward = sym len;
      backward = sym len;
    } in
    let z = number-IsFresh e.objs fresh in
    let (vss, run, l) = from_lem n f ready (omega (arith, h, z)) in
    (vss, rw (for_each, begin_lem e m len) run, λ i vs. rw (z, zero-add) at (l i vs))
