-- ===== src/Types/Wellformed.antt =====
-- src/Type.cpp: the steps of `make_random_struct_type`.
use native.Mathlib.Nat.{mod-lt}
use mathlib.Core.Option.{some-injective}
use clsmith.Prelude.{
  get_elem_lt, ℕ, zero, suc, ◌+◌, ◌%◌, ◌<◌, ◌≤◌, ◌≡◌, inl, inr, refl, Bool, false, none, some, List,
  [], ◌∷◌, ◌++◌, length, get_elem?, Option-cases, arith,
}
use clsmith.Random.Gives.{Gives, Gives-done, Gives-if, Gives-lift, Gives-draw, Hits, Gives-rnd_upto}
use clsmith.Types.{CType}
use clsmith.Types.Legal.{Made, Made-append, Made-empty, Made-IsLegal, IsLegal, IsLegalField}
use clsmith.Types.Structs.{
  StructSetting, NewField, rejects, choose_filter, field_qualifiers, make_regular_field,
  make_one_struct_field, make_full_bitfields_struct_fields, make_normal_struct_fields, field_count,
  is_packed, make_random_struct_type, make_struct_fields, make_struct,
}
use clsmith.Types.Bitfields.{make_one_bitfield-Made, field_count-bound}

zero_right : (m n : ℕ) → m ≡ n + 0 → m ≡ n
zero_right m n h = omega (arith, h)

suc_right : (m n i : ℕ) → m ≡ n + suc i → m ≡ suc n + i
suc_right m n i h = omega (arith, h)

from_zero : (n : ℕ) → n ≡ 0 + n
from_zero n = omega arith

module _ (c : StructSetting) (all_types : List CType) where
  module _ (genrand : ℕ → ℕ) where
    module _ (fuel : ℕ) where
      -- A type that the filter accepts is drawn in time.
      unfoldable pub Accepts : ℕ → Type 0
      Accepts v =
          (t : CType) × (get_elem? all_types v ≡ some t)
          × (rejects c t ≡ false)
          × Hits genrand fuel (length all_types) v

      occupied : (xs : List CType) (i : ℕ) (t : CType) → get_elem? xs i ≡ some t → 0 < length xs
      occupied [] i t h = absurd (ground (arith, h))
      occupied (x ∷ xs) i t h = omega arith

      choose_filter-defined :
          (v : ℕ)
          → Accepts v
          → (k : ℕ)
          → (b : Bool) × (choose_filter c all_types (genrand k % length all_types) ≡ some b)
      unfolding Accepts choose_filter
      choose_filter-defined v (t, e, r, h) k =
          let (u, q) =
            get_elem_lt all_types (genrand k % length all_types)
              (mod-lt (genrand k) (occupied all_types v t e)) in
          (rejects c u, rw (choose_filter, q) refl)

      accepted :
          (i : ℕ)
          → choose_filter c all_types i ≡ some false
          → (t : CType) × (get_elem? all_types i ≡ some t) × (rejects c t ≡ false)
      unfolding choose_filter
      accepted i h = elim (Option-cases (get_elem? all_types i)) [
        | inl e ↦
            let z : none ≡ some false = rw (choose_filter, e) at h in absurd (ground (arith, z))
        | inr (t, e) ↦ (t, e, some-injective (rejects c t) false (rw (choose_filter, e) at h))
      ]

      make_regular_field-Made :
          (n : ℕ) (fs : List NewField)
          → Made c all_types n fs
          → (i : ℕ) → choose_filter c all_types i ≡ some false
          → Gives (Made c all_types (suc n)) (make_regular_field c genrand fuel all_types fs i)
      unfolding make_regular_field IsLegalField
      make_regular_field-Made n fs m i q =
          let (t, e, r) = accepted i q in
          rw (make_regular_field, e)
            (Gives-lift (Made c all_types (suc n))
              (λ k.
                let (qual, k') = field_qualifiers c genrand t k in
                (fs ++ (record { type = t; qualifiers = qual; bit_length = none } ∷ []), k'))
              (λ k. Made-append c all_types n fs _ m (i, e, r)))

      make_one_struct_field-Made :
          (v : ℕ)
          → Accepts v
          → (n : ℕ) (fs : List NewField) → Made c all_types n fs
          → Gives (Made c all_types (suc n)) (make_one_struct_field c genrand fuel all_types fs)
      unfolding make_one_struct_field Accepts choose_filter
      make_one_struct_field-Made v (t', e', r', hit) n fs m =
          Gives-draw (λ i. choose_filter c all_types i ≡ some false) (Made c all_types (suc n)) _ _
            (Gives-rnd_upto genrand (length all_types) (choose_filter c all_types)
              (choose_filter-defined v (t', e', r', hit)) fuel v hit
              (rw (choose_filter, e', r') refl))
            (make_regular_field-Made n fs m)

      module _ (v : ℕ) (a : Accepts v) (p : 0 < c.options.int_size) where
        full-Made :
            (m i n : ℕ) (fs : List NewField)
            → m ≡ n + i
            → Made c all_types n fs
            → Gives
                (Made c all_types m)
                (make_full_bitfields_struct_fields c genrand fuel all_types i fs)
        unfolding make_full_bitfields_struct_fields
        full-Made m zero n fs e g = Gives-done (Made c all_types m) fs (rw (zero_right m n e) g)
        full-Made m (suc i) n fs e g =
            Gives-draw (λ b. Unit) (Made c all_types m) _ _ (Gives-lift (λ b. Unit) _ (λ k. tt))
              (λ b _.
                Gives-draw (Made c all_types (suc n)) (Made c all_types m) _ _
                  (Gives-if (Made c all_types (suc n)) b _ _ (make_one_struct_field-Made v a n fs g)
                    (make_one_bitfield-Made c all_types genrand p n fs g))
                  (λ gs h. full-Made m i (suc n) gs (suc_right m n i e) h))

        normal-Made :
            (m i n : ℕ) (fs : List NewField)
            → m ≡ n + i
            → Made c all_types n fs
            → Gives (Made c all_types m) (make_normal_struct_fields c genrand fuel all_types i fs)
        unfolding make_normal_struct_fields
        normal-Made m zero n fs e g = Gives-done (Made c all_types m) fs (rw (zero_right m n e) g)
        normal-Made m (suc i) n fs e g =
            Gives-draw (λ b. Unit) (Made c all_types m) _ _ (Gives-lift (λ b. Unit) _ (λ k. tt))
              (λ b _.
                Gives-draw (Made c all_types (suc n)) (Made c all_types m) _ _
                  (Gives-if (Made c all_types (suc n)) b _ _
                    (make_one_bitfield-Made c all_types genrand p n fs g)
                    (make_one_struct_field-Made v a n fs g))
                  (λ gs h. normal-Made m i (suc n) gs (suc_right m n i e) h))

        make_struct_fields-Made :
            (n : ℕ) → Gives (Made c all_types n) (make_struct_fields c genrand fuel all_types n)
        unfolding make_struct_fields
        make_struct_fields-Made n =
            Gives-draw (λ b. Unit) (Made c all_types n) _ _ (Gives-lift (λ b. Unit) _ (λ k. tt))
              (λ b _.
                Gives-if (Made c all_types n) b _ _
                  (full-Made n n 0 [] (from_zero n) (Made-empty c all_types))
                  (normal-Made n n 0 [] (from_zero n) (Made-empty c all_types)))

        make_struct-IsLegal :
            (n sid : ℕ) (fs : List NewField)
            → 0 < n
            → n ≤ c.max_struct_fields
            → Made c all_types n fs
            → Gives (IsLegal c all_types) (make_struct c genrand sid fs)
        unfolding make_struct
        make_struct-IsLegal n sid fs h g m =
            Gives-lift (IsLegal c all_types) _
              (λ k. Made-IsLegal c all_types n fs h g m sid (is_packed c genrand fs k).0)

        -- Where the size of an int and the largest number of fields are positive, and a type that the
        -- filter for fields accepts is always drawn in time, `make_random_struct_type` gives a struct,
        -- whatever has been drawn before. It has at least one field and at most max_struct_fields. A
        -- bit-field is shorter than an int and has type int or uint, and it has length 0 only if a field
        -- with another length stands directly before it. Any other field has one of all types, which the
        -- filter accepts, and the structs among the fields are nested less deep than
        -- max_nested_struct_level, or there are none.
        pub make_random_struct_type-IsLegal :
            0 < c.max_struct_fields
            → (sid : ℕ)
            → Gives (IsLegal c all_types) (make_random_struct_type c genrand fuel all_types sid)
        unfolding make_random_struct_type
        make_random_struct_type-IsLegal q sid =
            Gives-draw (λ n. (0 < n) × (n ≤ c.max_struct_fields)) (IsLegal c all_types) _ _
              (Gives-lift (λ n. (0 < n) × (n ≤ c.max_struct_fields)) (field_count c genrand)
                (field_count-bound c all_types genrand q))
              (λ n (h, g).
                Gives-draw (Made c all_types n) (IsLegal c all_types)
                  (make_struct_fields c genrand fuel all_types n) _ (make_struct_fields-Made n)
                  (λ fs m. make_struct-IsLegal n sid fs h g m))
