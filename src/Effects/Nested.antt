-- ===== src/Effects/Nested.antt =====
-- src/Effect.cpp: `field_is_read` and `field_is_written` search all nested fields.
use clsmith.Prelude.{
  ℕ, zero, suc, ◌<◌, ◌≡◌, refl, sym, ap, ◌∙◌, ◌↔◌, inl, inr, Bool, true, false, ◌||◌, List, [], ◌∷◌,
  map, any, Bool-cases, &&_elim, arith,
}
use clsmith.Variables.{Variable, member, Store, is_aggregate_var, indices_below}
use clsmith.Effects.{Effect, is_read, is_written}
use clsmith.Effects.Partial.{field_found, field_is_read, field_is_written}

-- A field of a struct or union, or one nested in such a field.
pub data Nested (s : Store) : Variable → Variable → Type 0 where
  direct :
      {v : Variable} (i : ℕ)
      → is_aggregate_var s v ≡ true
      → i < (s v).field_count
      → Nested s v (member v i)
  within :
      {v w : Variable} (i : ℕ)
      → is_aggregate_var s v ≡ true
      → i < (s v).field_count
      → Nested s (member v i) w
      → Nested s v w

-- Structs and unions are nested in the variable to at most the given depth.
abbrev pub IsShallow : Store → ℕ → Variable → Type 0
IsShallow s zero v = is_aggregate_var s v ≡ false
IsShallow s (suc n) v = (i : ℕ) → i < (s v).field_count → IsShallow s n (member v i)

pub map-suc : (f : ℕ → Variable) (xs : List ℕ) → map f (map suc xs) ≡ map (λ i. f (suc i)) xs
map-suc f [] = refl
map-suc f (x ∷ xs) = ap (λ r. f (suc x) ∷ r) (map-suc f xs)

any-below :
    (q : Variable → Bool) (f : ℕ → Variable) (n : ℕ)
    → any q (map f (indices_below n)) ≡ true
    → (i : ℕ) × (i < n) × (q (f i) ≡ true)
any-below q f zero h = absurd (ground (arith, h))
any-below q f (suc n) h = elim (Bool-cases (q (f 0))) [
  | inl e ↦ (0, omega arith, e)
  | inr e ↦
      let rest : any q (map (λ i. f (suc i)) (indices_below n)) ≡ true =
        ap (any q) (sym (map-suc f (indices_below n))) ∙ ground arith in
      let (i, l, k) = any-below q (λ i. f (suc i)) n rest in (suc i, omega (arith, l), k)
]

below-any :
    (q : Variable → Bool) (f : ℕ → Variable) (n i : ℕ)
    → i < n
    → q (f i) ≡ true
    → any q (map f (indices_below n)) ≡ true
below-any q f zero i l h = absurd (omega (arith, l))
below-any q f (suc n) zero l h = ground arith
below-any q f (suc n) (suc i) l h =
    let rest : any q (map f (map suc (indices_below n))) ≡ true =
      ap (any q) (map-suc f (indices_below n))
      ∙ below-any q (λ j. f (suc j)) n i (omega (arith, l)) h in
    ground arith

found_sound :
    (s : Store) (p : Variable → Bool) (n : ℕ) (v : Variable)
    → field_found s p n v ≡ true
    → (w : Variable) × Nested s v w × (p w ≡ true)
unfolding field_found
found_sound s p zero v h = absurd (ground (arith, h))
found_sound s p (suc n) v h =
    let (a, b) = &&_elim h in
    let (i, l, k) = any-below (λ f. p f || field_found s p n f) (member v) ((s v).field_count) b in
    elim (Bool-cases (p (member v i))) [
      | inl e ↦ (member v i, direct i a l, e)
      | inr e ↦
          let (w, d, x) = found_sound s p n (member v i) (ground arith) in (w, within i a l d, x)
    ]

found_complete :
    (s : Store) (p : Variable → Bool) (n : ℕ) {v w : Variable}
    → IsShallow s n v
    → Nested s v w
    → p w ≡ true
    → field_found s p n v ≡ true
unfolding field_found
found_complete s p zero b (direct i a l) h = ground arith
found_complete s p zero b (within i a l d) h = ground arith
found_complete s p (suc n) {v} b (direct i a l) h =
    let here =
      below-any (λ f. p f || field_found s p n f) (member v) ((s v).field_count) i l
        (ground arith) in
    ground arith
found_complete s p (suc n) {v} b (within i a l d) h =
    let deep = found_complete s p n (b i l) d h in
    let here =
      below-any (λ f. p f || field_found s p n f) (member v) ((s v).field_count) i l
        (ground arith) in
    ground arith

-- With fuel for the depth to which structs and unions are nested in a variable, `field_is_read` and
-- `field_is_written` say exactly whether some field at any depth of it is read or written.
pub field_is_read_iff :
    (s : Store) (n : ℕ) (e : Effect) (v : Variable)
    → IsShallow s n v
    → ((field_is_read s n e v ≡ true) ↔ ((w : Variable) × Nested s v w × (is_read s e w ≡ true)))
      × ((field_is_written s n e v ≡ true)
          ↔ ((w : Variable) × Nested s v w × (is_written e w ≡ true)))
field_is_read_iff s n e v b = (
  (found_sound s (is_read s e) n v, λ (w, d, h). found_complete s (is_read s e) n b d h),
  (found_sound s (is_written e) n v, λ (w, d, h). found_complete s (is_written e) n b d h),
)
