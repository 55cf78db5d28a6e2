-- ===== src/Enumerator/Steps.antt =====
-- src/Enumerator.h: what `next` does to an enumerator that `begin` has set up.
use clsmith.Prelude.{
  get_elem_lt, ℕ, zero, suc, ◌<◌, ◌≡◌, ◌⊎◌, inl, inr, refl, ap, sym, ◌∙◌, true, false, Option, some,
  arith, ltb, get_elem?, set, drop, length,
}
use clsmith.Enumerator.{
  EnumObject, Entry, Enumerator, Cursor, next_value, clear_from, reset_pos,
  reset_after_backward_pos, roll_back_from, move_on, put,
}
use clsmith.Enumerator.Wheels.{
  values, wheels, number, IsLast, AreBelow, number_step, AreBelow-clear_from, AreBelow-set,
  length_same, set_same, IsLast-drop, get_below, wheels-clear_from, wheels-set, with_value,
  number_same, IsLast-same,
}

-- Between two steps of the loop: at least two elements, all below their bounds, and the positions at
-- the last two.
pub record IsReady (e : Enumerator) : Type 0 where
  pub below : AreBelow e.objs
  pub forward : suc e.forward_pos ≡ length e.objs
  pub backward : suc (suc e.backward_pos) ≡ length e.objs

-- The step goes to the tuple with the next number.
pub record Advances (e : Enumerator) (r : Option Cursor) : Type 0 where
  pub after : Enumerator
  pub result : r ≡ some (true, after)
  pub ready : IsReady after
  pub same : wheels after.objs ≡ wheels e.objs
  pub number_suc : number after.objs ≡ suc (number e.objs)

-- The step returns NULL, at the last tuple.
pub record Ends (e : Enumerator) (r : Option Cursor) : Type 0 where
  pub after : Enumerator
  pub result : r ≡ some (false, after)
  pub last : IsLast e.objs

pub reset_pos_lem :
    (e : Enumerator) (n : ℕ)
    → length e.objs ≡ suc (suc n)
    → reset_pos e ≡ some (record e { forward_pos = suc n; backward_pos = n })
unfolding reset_pos
reset_pos_lem e n h = rw (reset_pos, h) refl

pub next_value_moves :
    (o : EnumObject)
    → suc o.current_value < o.bound
    → next_value o ≡ (record o { current_value = suc o.current_value; changed = true }, true)
unfolding next_value
next_value_moves o h =
    let t : ltb (suc o.current_value) o.bound ≡ true = ground (arith, h) in rw t refl

pub next_value_stays : (o : EnumObject) → suc o.current_value ≡ o.bound → next_value o ≡ (o, false)
unfolding next_value
next_value_stays o h =
    let t : ltb (suc o.current_value) o.bound ≡ false = ground (arith, h) in rw t refl

advance :
    (e : Enumerator) (p n : ℕ) (x : Entry)
    → get_elem? e.objs p ≡ some x
    → length e.objs ≡ suc (suc n)
    → AreBelow e.objs
    → IsLast (drop (suc p) e.objs)
    → suc x.1.current_value < x.1.bound
    → Advances e (
        move_on
          (put e p x.0 (record x.1 { current_value = suc x.1.current_value; changed = true })))
unfolding reset_after_backward_pos
advance e p n x g len b l h =
    let ys = set e.objs p (with_value x (suc x.1.current_value) true) in
    let w : wheels (clear_from (suc p) ys) ≡ wheels e.objs =
      wheels-clear_from (suc p) ys ∙ wheels-set e.objs p x (suc x.1.current_value) true g in
    let len' : length (clear_from (suc p) ys) ≡ suc (suc n) = length_same _ _ w ∙ len in
    let mid : Enumerator = record {
      objs = clear_from (suc p) ys;
      forward_pos = suc p;
      backward_pos = p;
    } in
    record {
      after = record mid { forward_pos = suc n; backward_pos = n };
      result = rw (move_on, reset_pos_lem mid n len') refl;
      ready = record {
        below = AreBelow-clear_from (suc p) ys (AreBelow-set e.objs p x _ true h b);
        forward = sym len';
        backward = sym len';
      };
      same = w;
      number_suc = number_step e.objs p x true g l;
    }

-- The outcome is about the wheels and the values only.
pub same_elements :
    (e e' : Enumerator) (r : Option Cursor)
    → wheels e'.objs ≡ wheels e.objs
    → values e'.objs ≡ values e.objs
    → Advances e' r ⊎ Ends e' r
    → Advances e r ⊎ Ends e r
same_elements e e' r w v (inl a) = inl (record {
  after = a.after;
  result = a.result;
  ready = a.ready;
  same = a.same ∙ w;
  number_suc = a.number_suc ∙ ap suc (number_same _ _ w v);
})
same_elements e e' r w v (inr a) =
    inr (record { after = a.after; result = a.result; last = IsLast-same _ _ w v a.last })

pub suc_cases : (c b : ℕ) → c < b → (suc c < b) ⊎ (suc c ≡ b)
suc_cases c zero h = absurd (omega (arith, h))
suc_cases zero (suc zero) h = inr refl
suc_cases zero (suc (suc b)) h = inl (omega arith)
suc_cases (suc c) (suc b) h = elim (suc_cases c b (omega (arith, h))) [
  | inl x ↦ inl (omega (arith, x))
  | inr x ↦ inr (ap suc x)
]

-- At a position below which every element is at its last value.
pub roll_back_lem :
    (p n : ℕ) (e : Enumerator)
    → length e.objs ≡ suc (suc n)
    → p < suc (suc n)
    → AreBelow e.objs
    → IsLast (drop (suc p) e.objs)
    → Advances e (roll_back_from p e) ⊎ Ends e (roll_back_from p e)
unfolding roll_back_from
roll_back_lem zero n e len lt b l =
    let (x, g) = get_elem_lt e.objs 0 (omega (arith, len)) in
    elim (suc_cases x.1.current_value x.1.bound (get_below e.objs 0 x g b)) [
      | inl h ↦ inl (rw (roll_back_from, g, next_value_moves x.1 h) (advance e 0 n x g len b l h))
      | inr h ↦ inr (record {
        after = put e 0 x.0 x.1;
        result = rw (roll_back_from, g, next_value_stays x.1 h) refl;
        last = IsLast-drop e.objs 0 x g h l;
      })
    ]
roll_back_lem (suc p) n e len lt b l =
    let (x, g) = get_elem_lt e.objs (suc p) (omega (arith, len, lt)) in
    elim (suc_cases x.1.current_value x.1.bound (get_below e.objs (suc p) x g b)) [
      | inl h ↦
          inl (rw (roll_back_from, g, next_value_moves x.1 h) (advance e (suc p) n x g len b l h))
      | inr h ↦
          let e' = put e (suc p) x.0 x.1 in
          let q : e'.objs ≡ e.objs = set_same e.objs (suc p) x g in
          let ih =
            roll_back_lem p n e' (rw q len) (omega (arith, lt)) (rw q b)
              (rw q (IsLast-drop e.objs (suc p) x g h l)) in
          rw (roll_back_from, g, next_value_stays x.1 h)
            (same_elements e e' (roll_back_from p e') (ap wheels q) (ap values q) ih)
    ]
