-- ===== src/Enumerator/Next.antt =====
-- src/Enumerator.h: `next` of an enumerator that `begin` has set up, from its last element on.
use clsmith.Prelude.{
  get_elem_lt, ℕ, suc, ◌<◌, ◌≡◌, ◌⊎◌, inl, inr, refl, ap, sym, ◌∙◌, Bool, true, some, arith, ◌==◌,
  get_elem?, set, drop, length,
}
use clsmith.Enumerator.{
  EnumObject, Entry, Enumerator, reset_all_changed, roll_back_from, roll_back_current_pos,
  next_within, next,
}
use clsmith.Enumerator.Wheels.{
  values, wheels, number, IsLast, AreBelow, number_step, AreBelow-set, length_same, set_same,
  IsLast-drop, get_below, wheels-set, with_value, AreBelow-same, clear_from_end, IsLast-drop_end,
  wheels-reset_all_changed, values-reset_all_changed,
}
use clsmith.Enumerator.Steps.{
  IsReady, Advances, Ends, next_value_moves, next_value_stays, same_elements, suc_cases,
  roll_back_lem,
}

-- The increment of the last element.
forward_moves :
    (e : Enumerator) (k : ℕ) (x : Entry)
    → IsReady e
    → get_elem? (reset_all_changed e).objs e.forward_pos ≡ some x
    → AreBelow (reset_all_changed e).objs
    → length (reset_all_changed e).objs ≡ length e.objs
    → suc x.1.current_value < x.1.bound
    → Advances (reset_all_changed e) (next_within (suc k) e)
unfolding reset_all_changed next_within
forward_moves e k x r g b len h =
    let f = reset_all_changed e in
    let p = e.forward_pos in
    let ys = set f.objs p (with_value x (suc x.1.current_value) true) in
    let w : wheels ys ≡ wheels f.objs = wheels-set f.objs p x _ true g in
    let len' : length ys ≡ length f.objs = length_same _ _ w in
    let last = IsLast-drop_end (suc p) f.objs (omega (arith, len, r.forward)) in
    let m = next_value_moves x.1 h in
    record {
      after = record f { objs = ys };
      result = rw (next_within, g, m, ap (λ (r : EnumObject × Bool). r.0) m) refl;
      ready = record {
        below = AreBelow-set f.objs p x _ true h b;
        forward = r.forward ∙ sym len ∙ sym len';
        backward = r.backward ∙ sym len ∙ sym len';
      };
      same = w;
      number_suc =
          ap number (sym (clear_from_end (suc p) ys (omega (arith, len, len', r.forward))))
          ∙ number_step f.objs p x true g last;
    }

-- The last element at its last value.
forward_stays :
    (e : Enumerator) (k : ℕ) (x : Entry)
    → IsReady e
    → get_elem? (reset_all_changed e).objs e.forward_pos ≡ some x
    → AreBelow (reset_all_changed e).objs
    → length (reset_all_changed e).objs ≡ length e.objs
    → suc x.1.current_value ≡ x.1.bound
    → Advances (reset_all_changed e) (next_within (suc k) e)
      ⊎ Ends (reset_all_changed e) (next_within (suc k) e)
unfolding reset_all_changed roll_back_current_pos next_within
forward_stays e k x r g b len h =
    let f = reset_all_changed e in
    let p = e.forward_pos in
    let n = e.backward_pos in
    let e' : Enumerator = record f { objs = set f.objs p x; forward_pos = suc p } in
    let q : e'.objs ≡ f.objs = set_same f.objs p x g in
    let t : (suc p == length e'.objs) ≡ true = rw q (ground (arith, len, r.forward)) in
    let last : IsLast (drop p f.objs) =
      IsLast-drop f.objs p x g h (IsLast-drop_end (suc p) f.objs (omega (arith, len, r.forward))) in
    let pn : p ≡ suc n = omega (arith, r.forward, r.backward) in
    let m = next_value_stays x.1 h in
    let o = ap (λ (r : EnumObject × Bool). r.0) m in
    rw (next_within, g, m, o, t, o)
      (same_elements f e' (roll_back_from n e') (ap wheels q) (ap values q) (
        roll_back_lem n n e' (rw q (len ∙ sym r.backward)) (omega arith) (rw q b)
          (rw (q, ← pn) last)))

next_from_reset :
    (e : Enumerator) (k : ℕ)
    → IsReady e
    → Advances (reset_all_changed e) (next_within (suc k) e)
      ⊎ Ends (reset_all_changed e) (next_within (suc k) e)
next_from_reset e k r =
    let f = reset_all_changed e in
    let w = wheels-reset_all_changed e in
    let v = values-reset_all_changed e in
    let len : length f.objs ≡ length e.objs = length_same _ _ w in
    let b : AreBelow f.objs = AreBelow-same _ _ (sym w) (sym v) r.below in
    let (x, g) = get_elem_lt f.objs e.forward_pos (omega (arith, len, r.forward)) in
    elim (suc_cases x.1.current_value x.1.bound (get_below f.objs e.forward_pos x g b)) [
      | inl h ↦ inl (forward_moves e k x r g b len h)
      | inr h ↦ forward_stays e k x r g b len h
    ]

-- From a tuple that is not the last one, `next` returns the enumerator at the tuple with the next
-- number, ready for another step; from the last tuple it returns NULL.
pub next_lem : (e : Enumerator) → IsReady e → Advances e (next e) ⊎ Ends e (next e)
unfolding next
next_lem e r =
    same_elements e (reset_all_changed e) (next_within 2 e) (wheels-reset_all_changed e)
      (values-reset_all_changed e) (next_from_reset e 1 r)
