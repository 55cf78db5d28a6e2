-- ===== src/Types/Structs.antt =====
-- src/Type.cpp: the random struct types. The three vectors of fields, qualifiers and bit-field
-- lengths, which the source extends together, are one list.
use clsmith.Prelude.{
  ℕ, zero, suc, ◌+◌, ◌-◌, ◌*◌, Bool, true, false, not, ◌&&◌, ◌||◌, Option, none, some, List, [],
  ◌∷◌, ◌++◌, if◌then◌else◌, any, leb, ◌==◌, length, get_elem?,
}
use clsmith.Options.{CgOptions}
use clsmith.Random.{
  Random, ◌>>=◌, pure, rnd_flipcoin, flip_if, rnd_below, rnd_upto, draw, done, lift,
}
use clsmith.Qualifiers.{CvQualifiers, read}
use clsmith.Qualifiers.Fresh.{random_type_qualifiers}
use clsmith.Types.{
  CType, SimpleType, simple, struct, Fields, end, field, int, uint, long_long, ulong_long,
  simple_eq, is_aggregate,
}
use clsmith.Types.Size.{get_struct_depth}
use clsmith.Types.Conversion.{get_indirect_level}

-- The options and the probabilities that are read here. `simple_filter` is the filter over the
-- probabilities of the simple types, SIMPLE_TYPES_PROB_FILTER.
pub record StructSetting : Type 0 where
  pub options : CgOptions
  pub max_struct_fields : ℕ
  pub fixed_struct_fields : Bool
  pub bitfields : Bool
  pub packed_struct : Bool
  pub ccomp : Bool
  pub return_structs : Bool
  pub max_nested_struct_level : ℕ
  pub bit_fields_creation_prob : ℕ
  pub bit_fields_signed_prob : ℕ
  pub bit_field_in_normal_struct_prob : ℕ
  pub scalar_field_in_full_bit_fields_prob : ℕ
  pub field_const_prob : ℕ
  pub field_volatile_prob : ℕ
  pub simple_filter : SimpleType → Bool

pub record NewField : Type 0 where
  pub type : CType
  pub qualifiers : CvQualifiers
  -- `none` for the -1 of a regular field.
  pub bit_length : Option ℕ

abbrev pub is_zero_length : Option ℕ → Bool
is_zero_length none = false
is_zero_length (some n) = n == 0

-- `fields_length.empty() || fields_length.back() == 0`.
unfoldable pub no_zero_len : List NewField → Bool
no_zero_len [] = true
no_zero_len (f ∷ []) = is_zero_length f.bit_length
no_zero_len (f ∷ g ∷ fs) = no_zero_len (g ∷ fs)

unfoldable pub to_fields : List NewField → Fields
to_fields [] = end
to_fields (f ∷ fs) = field f.type f.qualifiers f.bit_length (to_fields fs)

abbrev is_long_long : CType → Bool
is_long_long (simple s) = simple_eq s long_long || simple_eq s ulong_long
is_long_long _ = false

unfoldable pub has_aggregate_field : List NewField → Bool
has_aggregate_field fs = any (λ f. is_aggregate f.type) fs

unfoldable pub has_longlong_field : List NewField → Bool
has_longlong_field fs = any (λ f. is_long_long f.type) fs

abbrev is_struct_type : CType → Bool
is_struct_type (struct _ _ _) = true
is_struct_type _ = false

module _ (c : StructSetting) where
  -- What `ChooseRandomTypeFilter` rejects for a field.
  unfoldable pub rejects : CType → Bool
  rejects (simple s) = c.simple_filter s
  rejects t =
      (is_struct_type t && not c.return_structs)
      || leb c.max_nested_struct_level (get_struct_depth t)

  unfoldable pub choose_filter : List CType → ℕ → Option Bool
  choose_filter all_types v = elim (get_elem? all_types v) [
    | none ↦ none
    | some t ↦ some (rejects t)
  ]

  abbrev pub max_length : ℕ
  max_length = c.options.int_size * 8

  module _ (genrand : ℕ → ℕ) where
    -- `random_qualifiers` of a field's type.
    unfoldable pub field_qualifiers : CType → Random CvQualifiers
    field_qualifiers t =
        random_type_qualifiers genrand c.options c.field_const_prob c.field_volatile_prob
          (get_indirect_level t) read true false

    -- What is drawn again for a bit-field that must not have length 0.
    unfoldable pub redraw : Random ℕ
    redraw =
        if leb max_length 2
        then pure 1
        else (do m ← rnd_below genrand (max_length - 1); pure (m + 1))

    unfoldable pub bitfield_length : Bool → Random ℕ
    bitfield_length no_zero = do
      l ← rnd_below genrand max_length
      (if l == 0 && no_zero then redraw else pure l)

    unfoldable pub make_one_bitfield : List NewField → Random (Option (List NewField))
    make_one_bitfield fs = lift (do
      sign ← rnd_flipcoin genrand c.bit_fields_signed_prob
      qual ← field_qualifiers (simple int)
      len ← bitfield_length (no_zero_len fs)
      pure (
          fs
          ++ (record {
            type = simple (if sign then int else uint);
            qualifiers = qual;
            bit_length = some len;
          }
              ∷ [])))

    unfoldable pub field_count : Random ℕ
    field_count =
        if c.fixed_struct_fields
        then pure c.max_struct_fields
        else (do n ← rnd_below genrand c.max_struct_fields; pure (n + 1))

    unfoldable pub is_packed : List NewField → Random Bool
    is_packed fs =
        flip_if genrand
          (c.packed_struct && not (c.ccomp && (has_aggregate_field fs || has_longlong_field fs))) 50

    unfoldable pub make_struct : ℕ → List NewField → Random (Option CType)
    make_struct sid fs = lift (do packed ← is_packed fs; pure (struct sid packed (to_fields fs)))

    module _ (fuel : ℕ) (all_types : List CType) where
      -- A regular field of the type at an index.
      unfoldable pub make_regular_field : List NewField → ℕ → Random (Option (List NewField))
      make_regular_field fs i = elim (get_elem? all_types i) [
        | none ↦ λ k. (none, k)
        | some t ↦ lift (do
          qual ← field_qualifiers t
          pure (fs ++ (record { type = t; qualifiers = qual; bit_length = none } ∷ [])))
      ]

      unfoldable pub make_one_struct_field : List NewField → Random (Option (List NewField))
      make_one_struct_field fs =
          draw (rnd_upto genrand fuel (length all_types) (choose_filter all_types))
            (make_regular_field fs)

      unfoldable pub make_full_bitfields_struct_fields :
          ℕ → List NewField → Random (Option (List NewField))
      make_full_bitfields_struct_fields zero fs = done fs
      make_full_bitfields_struct_fields (suc n) fs =
          draw (lift (rnd_flipcoin genrand c.scalar_field_in_full_bit_fields_prob))
            (λ is_non_bitfield.
              draw (if is_non_bitfield then make_one_struct_field fs else make_one_bitfield fs)
                (make_full_bitfields_struct_fields n))

      unfoldable pub make_normal_struct_fields : ℕ → List NewField → Random (Option (List NewField))
      make_normal_struct_fields zero fs = done fs
      make_normal_struct_fields (suc n) fs =
          draw (lift (flip_if genrand c.bitfields c.bit_field_in_normal_struct_prob))
            (λ is_bitfield.
              draw (if is_bitfield then make_one_bitfield fs else make_one_struct_field fs)
                (make_normal_struct_fields n))

      unfoldable pub make_struct_fields : ℕ → Random (Option (List NewField))
      make_struct_fields field_cnt =
          draw (lift (flip_if genrand c.bitfields c.bit_fields_creation_prob)) (λ is_bitfields.
            if is_bitfields
            then make_full_bitfields_struct_fields field_cnt []
            else make_normal_struct_fields field_cnt [])

      -- The new type has the given sequence id.
      unfoldable pub make_random_struct_type : ℕ → Random (Option CType)
      make_random_struct_type sid =
          draw (lift field_count)
            (λ field_cnt. draw (make_struct_fields field_cnt) (make_struct sid))
