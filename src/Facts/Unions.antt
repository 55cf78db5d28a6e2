-- ===== src/Facts/Unions.antt =====
-- src/FactUnion.h, src/FactUnion.cpp: which field of a union was written last.
use clsmith.Prelude.{
  ℕ, zero, suc, Bool, true, false, not, ◌&&◌, ◌||◌, Option, none, some, List, ◌==◌, leb,
  if◌then◌else◌, ℤ, pos, negsuc,
}
use clsmith.Options.{CgOptions}
use clsmith.Types.{
  CType, simple, pointer, union, struct, Fields, end, field, char, uchar, simple_eq, is_pointer,
}
use clsmith.Types.Size.{size_in_bytes, size_unknown, has_length}
use clsmith.Variables.{Variable, Store, var_eq, is_union_field, member, named}
use clsmith.Facts.{FactClass, find_related_fact}

pub record FactUnion : Type 0 where
  pub var : Variable
  pub last_written_fid : ℤ

-- The two constants.
abbrev pub top : ℤ
top = negsuc 1

abbrev pub bottom : ℤ
bottom = negsuc 0

abbrev pub int_eq : ℤ → ℤ → Bool
int_eq (pos a) (pos b) = a == b
int_eq (negsuc a) (negsuc b) = a == b
int_eq _ _ = false

abbrev pub is_bottom : FactUnion → Bool
is_bottom f = int_eq f.last_written_fid bottom

unfoldable pub is_related : FactUnion → FactUnion → Bool
is_related f g = var_eq f.var g.var

unfoldable pub equal : FactUnion → FactUnion → Bool
equal f g = is_related f g && int_eq f.last_written_fid g.last_written_fid

-- `Type::is_bitfield` of the union.
abbrev pub is_bitfield_at : Fields → ℕ → Bool
is_bitfield_at end i = false
is_bitfield_at (field t q len fs) zero = has_length len
is_bitfield_at (field t q len fs) (suc i) = is_bitfield_at fs i

abbrev pub is_bitfield : Option CType → ℤ → Bool
is_bitfield (some (union i fs)) (pos n) = is_bitfield_at fs n
is_bitfield (some (struct i k fs)) (pos n) = is_bitfield_at fs n
is_bitfield _ _ = false

abbrev pub is_pointer_to_char : CType → Bool
is_pointer_to_char (pointer (simple s)) = simple_eq s char || simple_eq s uchar
is_pointer_to_char _ = false

-- The type of the field, and NULL for the top and the bottom of the lattice.
abbrev pub get_last_written_type : Store → FactUnion → Option CType
get_last_written_type s f = elim f.last_written_fid [
  | pos n ↦ (s (member f.var n)).type
  | negsuc n ↦ none
]

-- The type-sensitive order on the written types, of which NULL must not be read: `none` stands for
-- that. The second type is not read where the size of the first one is unknown.
unfoldable pub is_readable_as : Option CType → Option CType → Bool → Option Bool
is_readable_as none other bit_field = none
is_readable_as (some t) none bit_field =
    if not (is_pointer t) && size_in_bytes t == size_unknown then some false else none
is_readable_as (some t) (some other) bit_field = some (
    if is_pointer t && is_pointer other
    then is_pointer_to_char t
    else if size_in_bytes t == size_unknown || size_in_bytes other == size_unknown
    then false
    else leb (size_in_bytes t) (size_in_bytes other) && not bit_field)

module _ (o : CgOptions) (s : Store) where
  unfoldable pub imply : FactUnion → FactUnion → Option Bool
  imply f g =
      if not (is_related f g)
      then some false
      else if is_bottom f
      then some true
      else if is_bottom g
      then some false
      else if equal f g
      then some true
      else if o.union_read_type_sensitive
      then is_readable_as (get_last_written_type s f) (get_last_written_type s g)
          (is_bitfield ((s f.var).type) g.last_written_fid)
      else some false

  -- The flag says whether the fact is changed.
  unfoldable pub join : FactUnion → FactUnion → Option (FactUnion × Bool)
  join f g =
      if is_related f g
      then elim (imply f g) [
        | none ↦ none
        | some below ↦ if below then some (f, false) else elim (imply g f) [
          | none ↦ none
          | some above ↦ some (
            if above
                then record f { last_written_fid = g.last_written_fid }
                else record f { last_written_fid = bottom },
            true,
          )
        ]
      ]
      else some (f, false)

  -- The results of `imply` and `join` where they are defined, as they all are without the
  -- type-sensitive order.
  abbrev pub implied : FactUnion → FactUnion → Bool
  implied f g = elim (imply f g) [ none ↦ false | some b ↦ b ]

  abbrev pub joined : FactUnion → FactUnion → FactUnion
  joined f g = elim (join f g) [ none ↦ f | some r ↦ r.0 ]

  abbrev pub union_class : FactClass FactUnion
  union_class = record {
    is_related = is_related;
    equal = equal;
    imply = implied;
    join = joined;
    join_visits = joined;
  }

  unfoldable pub is_field_readable : Variable → ℕ → List FactUnion → Option Bool
  is_field_readable v fid facts =
      let tmp : FactUnion = record { var = v; last_written_fid = pos fid } in
      elim (find_related_fact union_class facts tmp) [ none ↦ some false | some fu ↦ imply tmp fu ]

  -- The walk to the field of the innermost union, then the test of that field.
  unfoldable pub is_nonreadable_field : Variable → List FactUnion → Option Bool
  is_nonreadable_field (named i) facts = some false
  is_nonreadable_field (member p i) facts =
      let outer = is_nonreadable_field p facts in
      if is_union_field s (member p i)
      then elim (is_field_readable p i facts) [ none ↦ none | some b ↦ some (not b) ]
      else outer
