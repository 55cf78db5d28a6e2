-- ===== src/Types/Bitfields.antt =====
-- src/Type.cpp: the length of a bit-field, and the number of fields.
use native.Mathlib.Nat.{mod-lt}
use clsmith.Prelude.{
  ℕ, suc, ◌-◌, ◌%◌, ◌<◌, ◌≤◌, ◌≡◌, ◌⊎◌, inl, inr, refl, Bool, true, false, ◌&&◌, List,
  if◌then◌else◌, leb, ◌==◌, Bool-cases, arith,
}
use clsmith.Random.{rnd_below, rnd_flipcoin}
use clsmith.Random.Gives.{Gives, Gives-lift}
use clsmith.Types.{CType, simple, int, uint}
use clsmith.Types.Legal.{Made, Made-append, IsLegalField}
use clsmith.Types.Structs.{
  StructSetting, NewField, no_zero_len, max_length, field_qualifiers, redraw, bitfield_length,
  make_one_bitfield, field_count,
}

module _ (c : StructSetting) (all_types : List CType) where
  module _ (genrand : ℕ → ℕ) where
    -- A second draw is in bounds, and not 0.
    redraw-bound :
        0 < c.options.int_size
        → (k : ℕ) → (0 < (redraw c genrand k).0) × ((redraw c genrand k).0 < max_length c)
    unfolding redraw rnd_below
    redraw-bound p k = elim (Bool-cases (leb (max_length c) 2)) [
      | inl t ↦ absurd (ground (arith, t, p))
      | inr t ↦
          let l : genrand k % (max_length c - 1) < max_length c - 1 =
            mod-lt (genrand k) (ground (arith, t)) in
          rw (redraw, t) (omega arith, omega (arith, l))
    ]

    bitfield_length-bound :
        0 < c.options.int_size
        → (b : Bool) (k : ℕ)
        → ((bitfield_length c genrand b k).0 < max_length c)
          × (((bitfield_length c genrand b k).0 == 0 && b) ≡ false)
    unfolding bitfield_length rnd_below
    bitfield_length-bound p b k = elim (Bool-cases (genrand k % max_length c == 0 && b)) [
      | inl t ↦ let (h, g) = redraw-bound p (suc k) in rw (bitfield_length, t) (g, positive _ b h)
      | inr t ↦
          let l : genrand k % max_length c < max_length c = mod-lt (genrand k) (omega (arith, p)) in
          rw (bitfield_length, t) (l, t)
    ]
      where
        positive : (n : ℕ) (b : Bool) → 0 < n → (n == 0 && b) ≡ false
        positive n b h = ground (arith, h)

    pub make_one_bitfield-Made :
        0 < c.options.int_size
        → (n : ℕ) (fs : List NewField) → Made c all_types n fs
        → Gives (Made c all_types (suc n)) (make_one_bitfield c genrand fs)
    unfolding make_one_bitfield IsLegalField
    make_one_bitfield-Made p n fs m = Gives-lift (Made c all_types (suc n)) _ (λ k.
        let k' =
          (field_qualifiers c genrand (simple int)
            (rnd_flipcoin genrand c.bit_fields_signed_prob k).1).1 in
        let (h, g) = bitfield_length-bound p (no_zero_len fs) k' in
        Made-append c all_types n fs _ m
          (h, g, signed (rnd_flipcoin genrand c.bit_fields_signed_prob k).0))
      where
        signed :
            (b : Bool)
            → (simple (if b then int else uint) ≡ simple int)
              ⊎ (simple (if b then int else uint) ≡ simple uint)
        signed true = inl refl
        signed false = inr refl

    pub field_count-bound :
        0 < c.max_struct_fields
        → (k : ℕ)
        → (0 < (field_count c genrand k).0) × ((field_count c genrand k).0 ≤ c.max_struct_fields)
    unfolding field_count rnd_below
    field_count-bound p k = elim (Bool-cases c.fixed_struct_fields) [
      | inl t ↦ rw (field_count, t) (p, omega arith)
      | inr t ↦
          let l : genrand k % c.max_struct_fields < c.max_struct_fields = mod-lt (genrand k) p in
          rw (field_count, t) (omega arith, omega (arith, l))
    ]
