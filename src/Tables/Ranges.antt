-- ===== src/Tables/Ranges.antt =====
-- src/ProbabilityTable.h: a table that is filled in any order maps each number to the entry of the
-- least key above it.
use mathlib.Core.Option.{some-injective}
use mathlib.Core.List.{Memᴰ}
use mathlib.Core.List.Memᴰ.{head, tail}
use clsmith.Prelude.{
  ℕ, ◌<◌, ◌≤◌, ◌≡◌, ◌⊎◌, ◌↔◌, inl, inr, refl, ap, true, false, none, some, List, [], ◌∷◌, ltb,
  Bool-cases, Option-cases, arith,
}
use clsmith.Tables.{ProbabilityTable, empty_table, insert_sorted, add_elem, find_greater, get_value}

module _ {Value : Type 0} where
  -- The table after the entries have been added, the last one of the list first.
  abbrev pub table_of : List (ℕ × Value) → ProbabilityTable Value
  table_of [] = empty_table
  table_of (e ∷ es) = add_elem (table_of es) e.0 e.1

  -- No key is less than `b`, and the keys do not decrease.
  pub data IsSorted : ℕ → List (ℕ × Value) → Type 0 where
    sorted_nil : {b : ℕ} → IsSorted b []
    sorted_cons :
        {b : ℕ} {e : ℕ × Value} {es : List (ℕ × Value)}
        → b ≤ e.0
        → IsSorted e.0 es
        → IsSorted b (e ∷ es)

  kept_or_new :
      (es : List (ℕ × Value)) (t e : ℕ × Value)
      → Memᴰ e (insert_sorted es t).0
      → (e ≡ t) ⊎ Memᴰ e es
  unfolding insert_sorted
  kept_or_new [] t e (head q) = inl q
  kept_or_new [] t e (tail m) = inr m
  kept_or_new (x ∷ es) t e m = elim (Bool-cases (ltb t.0 x.0)) [
    | inl h ↦ first (rw (insert_sorted, h) at m)
    | inr h ↦ later (kept_or_new es t e) (rw (insert_sorted, h) at m)
  ]
    where
      first : Memᴰ e (t ∷ x ∷ es) → (e ≡ t) ⊎ Memᴰ e (x ∷ es)
      first (head q) = inl q
      first (tail n) = inr n

      later :
          (Memᴰ e (insert_sorted es t).0 → (e ≡ t) ⊎ Memᴰ e es)
          → Memᴰ e (x ∷ (insert_sorted es t).0)
          → (e ≡ t) ⊎ Memᴰ e (x ∷ es)
      later ih (head q) = inr (head q)
      later ih (tail n) = elim (ih n) [ inl q ↦ inl q | inr k ↦ inr (tail k) ]

  new_in : (es : List (ℕ × Value)) (t : ℕ × Value) → Memᴰ t (insert_sorted es t).0
  unfolding insert_sorted
  new_in [] t = head refl
  new_in (x ∷ es) t = elim (Bool-cases (ltb t.0 x.0)) [
    | inl h ↦ rw (insert_sorted, h) (head refl)
    | inr h ↦ rw (insert_sorted, h) (tail (new_in es t))
  ]

  kept_in : (es : List (ℕ × Value)) (t e : ℕ × Value) → Memᴰ e es → Memᴰ e (insert_sorted es t).0
  unfolding insert_sorted
  kept_in [] t e m = tail m
  kept_in (x ∷ es) t e m = elim (Bool-cases (ltb t.0 x.0)) [
    | inl h ↦ rw (insert_sorted, h) (tail m)
    | inr h ↦ rw (insert_sorted, h) (later (kept_in es t e) m)
  ]
    where
      later :
          (Memᴰ e es → Memᴰ e (insert_sorted es t).0)
          → Memᴰ e (x ∷ es)
          → Memᴰ e (x ∷ (insert_sorted es t).0)
      later ih (head q) = head q
      later ih (tail n) = tail (ih n)

  IsSorted-insert_sorted :
      (b : ℕ) (es : List (ℕ × Value)) (t : ℕ × Value)
      → b ≤ t.0
      → IsSorted b es
      → IsSorted b (insert_sorted es t).0
  unfolding insert_sorted
  IsSorted-insert_sorted b [] t h s = sorted_cons h sorted_nil
  IsSorted-insert_sorted b (x ∷ es) t h (sorted_cons g s) = elim (Bool-cases (ltb t.0 x.0)) [
    | inl l ↦ rw (insert_sorted, l) (sorted_cons h (sorted_cons (ground (arith, l)) s))
    | inr l ↦
        rw (insert_sorted, l)
          (sorted_cons g (IsSorted-insert_sorted x.0 es t (ground (arith, l)) s))
  ]

  -- An insertion at the end is after keys that are no greater.
  at_end :
      (es : List (ℕ × Value)) (t e : ℕ × Value)
      → (insert_sorted es t).1 ≡ true
      → Memᴰ e es
      → e.0 ≤ t.0
  unfolding insert_sorted
  at_end [] t e q m = elim m [ ]
  at_end (x ∷ es) t e q m = elim (Bool-cases (ltb t.0 x.0)) [
    | inl h ↦ absurd (ground (arith, rw (insert_sorted, h) at q))
    | inr h ↦ below (λ n. at_end es t e (rw (insert_sorted, h) at q) n) (ground (arith, h)) m
  ]
    where
      below : (Memᴰ e es → e.0 ≤ t.0) → x.0 ≤ t.0 → Memᴰ e (x ∷ es) → e.0 ≤ t.0
      below ih l (head q) = rw (ap (λ (r : ℕ × Value). r.0) q) l
      below ih l (tail n) = ih n

  not_at_end :
      (es : List (ℕ × Value)) (t : ℕ × Value)
      → (insert_sorted es t).1 ≡ false
      → (e : ℕ × Value) × Memᴰ e es × (t.0 < e.0)
  unfolding insert_sorted
  not_at_end [] t q = absurd (ground (arith, q))
  not_at_end (x ∷ es) t q = elim (Bool-cases (ltb t.0 x.0)) [
    | inl h ↦ (x, head refl, ground (arith, h))
    | inr h ↦ let (e, m, l) = not_at_end es t (rw (insert_sorted, h) at q) in (e, tail m, l)
  ]

  -- The keys are in order, and the greatest one is remembered.
  record IsTable (p : ProbabilityTable Value) : Type 0 where
    sorted : IsSorted 0 p.table
    greatest : (e : ℕ × Value) → Memᴰ e p.table → e.0 ≤ p.curr_max_key
    held : (0 < p.curr_max_key) → (e : ℕ × Value) × Memᴰ e p.table × (e.0 ≡ p.curr_max_key)

  IsTable-add_elem :
      (p : ProbabilityTable Value) (k : ℕ) (v : Value) → IsTable p → IsTable (add_elem p k v)
  unfolding add_elem
  IsTable-add_elem p k v h = elim (Bool-cases (insert_sorted p.table (k, v)).1) [
    | inl q ↦ record {
      sorted = IsSorted-insert_sorted 0 p.table (k, v) (omega arith) h.sorted;
      greatest = λ e m. rw q (elim (kept_or_new p.table (k, v) e m) [
        | inl r ↦ rw r (omega arith)
        | inr n ↦ at_end p.table (k, v) e q n
      ]);
      held = λ l. ((k, v), new_in p.table (k, v), rw q refl);
    }
    | inr q ↦
        let (g, n, l) = not_at_end p.table (k, v) q in
        let top : k < p.curr_max_key = omega (arith, l, h.greatest g n) in
        record {
          sorted = IsSorted-insert_sorted 0 p.table (k, v) (omega arith) h.sorted;
          greatest = λ e m. rw q (elim (kept_or_new p.table (k, v) e m) [
            | inl r ↦ rw r (omega (arith, top))
            | inr n ↦ h.greatest e n
          ]);
          held = λ z.
              let (e, m, r) = h.held (omega (arith, top)) in
              (e, kept_in p.table (k, v) e m, rw q r);
        }
  ]

  sorted_lower :
      (b : ℕ) (es : List (ℕ × Value)) (f : ℕ × Value) → IsSorted b es → Memᴰ f es → b ≤ f.0
  sorted_lower b [] f s m = elim m [ ]
  sorted_lower b (x ∷ es) f (sorted_cons g s) (head q) = rw (ap (λ (r : ℕ × Value). r.0) q) g
  sorted_lower b (x ∷ es) f (sorted_cons g s) (tail m) = omega (arith, g, sorted_lower x.0 es f s m)

  -- The first entry above a number is one with the least key.
  find_greater-some :
      (b : ℕ) (es : List (ℕ × Value)) (k : ℕ) (e : ℕ × Value)
      → IsSorted b es
      → find_greater es k ≡ some e
      → Memᴰ e es × (k < e.0) × ((f : ℕ × Value) → Memᴰ f es → k < f.0 → e.0 ≤ f.0)
  unfolding find_greater
  find_greater-some b [] k e s q = absurd (ground (arith, q))
  find_greater-some b (x ∷ es) k e (sorted_cons g s) q = elim (Bool-cases (ltb k x.0)) [
    | inl h ↦
        let r : x ≡ e = some-injective x e (rw (find_greater, h) at q) in
        rw (← r) (head refl, ground (arith, h), λ f m l. least f m)
    | inr h ↦
        let (m, l, least) = find_greater-some x.0 es k e s (rw (find_greater, h) at q) in
        (tail m, l, λ f n z. beyond f (ground (arith, h)) (least f) n z)
  ]
    where
      least : (f : ℕ × Value) → Memᴰ f (x ∷ es) → x.0 ≤ f.0
      least f (head r) = rw (ap (λ (t : ℕ × Value). t.0) r) (omega arith)
      least f (tail m) = sorted_lower x.0 es f s m

      beyond :
          (f : ℕ × Value)
          → x.0 ≤ k
          → (Memᴰ f es → k < f.0 → e.0 ≤ f.0)
          → Memᴰ f (x ∷ es)
          → k < f.0
          → e.0 ≤ f.0
      beyond f w ih (head r) z = absurd (omega (arith, w, z, ap (λ (t : ℕ × Value). t.0) r))
      beyond f w ih (tail m) z = ih m z

  find_greater-none :
      (es : List (ℕ × Value)) (k : ℕ) (e : ℕ × Value)
      → find_greater es k ≡ none
      → Memᴰ e es
      → e.0 ≤ k
  unfolding find_greater
  find_greater-none [] k e q m = elim m [ ]
  find_greater-none (x ∷ es) k e q m = elim (Bool-cases (ltb k x.0)) [
    | inl h ↦ absurd (ground (arith, rw (find_greater, h) at q))
    | inr h ↦
        below (λ n. find_greater-none es k e (rw (find_greater, h) at q) n) (ground (arith, h)) m
  ]
    where
      below : (Memᴰ e es → e.0 ≤ k) → x.0 ≤ k → Memᴰ e (x ∷ es) → e.0 ≤ k
      below ih l (head r) = rw (ap (λ (t : ℕ × Value). t.0) r) l
      below ih l (tail n) = ih n

  IsTable-table_of : (es : List (ℕ × Value)) → IsTable (table_of es)
  IsTable-table_of [] = record {
    sorted = sorted_nil;
    greatest = λ e m. elim m [ ];
    held = λ z. absurd (omega (arith, z));
  }
  IsTable-table_of (e ∷ es) = IsTable-add_elem (table_of es) e.0 e.1 (IsTable-table_of es)

  Mem-table_of : (es : List (ℕ × Value)) (e : ℕ × Value) → Memᴰ e (table_of es).table ↔ Memᴰ e es
  unfolding add_elem
  Mem-table_of [] e = (λ m. m, λ m. m)
  Mem-table_of (x ∷ es) e = (
    λ m. elim (kept_or_new (table_of es).table x e m) [
      | inl q ↦ head q
      | inr n ↦ tail ((Mem-table_of es e).0 n)
    ],
    back (λ n. (Mem-table_of es e).1 n),
  )
    where
      back :
          (Memᴰ e es → Memᴰ e (table_of es).table)
          → Memᴰ e (x ∷ es)
          → Memᴰ e (insert_sorted (table_of es).table x).0
      back ih (head q) = rw q (new_in (table_of es).table x)
      back ih (tail n) = kept_in (table_of es).table x e (ih n)

  -- A table that the entries have been added to, in any order, maps a number to the value of an
  -- entry with the least key above it; where no key is above it, the assertion fails.
  pub get_value_least :
      (es : List (ℕ × Value)) (k : ℕ)
      → ((e : ℕ × Value) × Memᴰ e es
          × (k < e.0)
          × ((f : ℕ × Value) → Memᴰ f es → k < f.0 → e.0 ≤ f.0)
          × (get_value (table_of es) k ≡ some e.1))
        ⊎ (((e : ℕ × Value) → Memᴰ e es → e.0 ≤ k) × (get_value (table_of es) k ≡ none))
  unfolding get_value
  get_value_least es k = elim (Bool-cases (ltb k (table_of es).curr_max_key)) [
    | inl h ↦ elim (Option-cases (find_greater (table_of es).table k)) [
      | inl q ↦
          let (e, m, r) = (IsTable-table_of es).held (ground (arith, h)) in
          absurd (omega (arith, r, find_greater-none (table_of es).table k e q m, above h))
      | inr (e, q) ↦
          let (m, l, least) =
            find_greater-some 0 (table_of es).table k e (IsTable-table_of es).sorted q in
          inl (
            e,
            (Mem-table_of es e).0 m,
            l,
            λ f n z. least f ((Mem-table_of es f).1 n) z,
            rw (get_value, h, q) refl,
          )
    ]
    | inr h ↦ inr (
      λ e m. omega (arith, (IsTable-table_of es).greatest e ((Mem-table_of es e).1 m), not_above h),
      rw (get_value, h) refl,
    )
  ]
    where
      above : ltb k (table_of es).curr_max_key ≡ true → k < (table_of es).curr_max_key
      above h = ground (arith, h)

      not_above : ltb k (table_of es).curr_max_key ≡ false → (table_of es).curr_max_key ≤ k
      not_above h = ground (arith, h)
