-- ===== src/Types/Size.antt =====
-- src/Type.cpp: bit-fields, padding and sizes of types.
use clsmith.Prelude.{
  ℕ, suc, ◌+◌, ◌*◌, ◌/◌, ◌%◌, ◌^◌, Bool, true, false, not, ◌&&◌, ◌||◌, Option, some, none, ◌==◌,
  if◌then◌else◌, ltb, pos,
}
use clsmith.Qualifiers.{is_const_after_deref, is_volatile_after_deref}
use clsmith.Types.{
  SimpleType, void, char, short, int, long, long_long, uchar, ushort, uint, ulong, ulong_long,
  CType, simple, pointer, union, vector, struct, Fields, end, field, is_struct, is_int,
}

-- `SIZE_UNKNOWN`.
abbrev pub size_unknown : ℕ
size_unknown = 0xFFFF

abbrev pub has_length : Option ℕ → Bool
has_length (some _) = true
has_length none = false

-- `has_bitfields`: a bit-field among the fields, or in a struct among them.
unfoldable mutual
  pub has_bitfields : CType → Bool
  has_bitfields (union _ fs) = any_bitfields fs
  has_bitfields (struct _ _ fs) = any_bitfields fs
  has_bitfields _ = false

  pub any_bitfields : Fields → Bool
  any_bitfields end = false
  any_bitfields (field t _ len fs) =
      has_length len || (is_struct t && has_bitfields t) || any_bitfields fs

unfoldable mutual
  pub has_padding : CType → Bool
  has_padding (union _ fs) = any_padding fs
  has_padding (struct _ packed fs) = not packed || any_padding fs
  has_padding _ = false

  pub any_padding : Fields → Bool
  any_padding end = false
  any_padding (field t _ len fs) = has_length len || has_padding t || any_padding fs

unfoldable pub all_bitfields : Fields → Bool
all_bitfields end = true
all_bitfields (field _ _ len fs) = has_length len && all_bitfields fs

unfoldable pub is_full_bitfields_struct : CType → Bool
unfolding all_bitfields
is_full_bitfields_struct (struct _ _ fs) = all_bitfields fs
is_full_bitfields_struct _ = false

unfoldable mutual
  pub contain_pointer_field : CType → Bool
  contain_pointer_field (pointer _) = true
  contain_pointer_field (union _ fs) = any_pointer fs
  contain_pointer_field (struct _ _ fs) = any_pointer fs
  contain_pointer_field _ = false

  pub any_pointer : Fields → Bool
  any_pointer end = false
  any_pointer (field t _ _ fs) = contain_pointer_field t || any_pointer fs

-- `cf.is_const()` on the qualifiers of a field; a failed assertion counts as no.
abbrev pub holds : Option Bool → Bool
holds (some b) = b
holds none = false

unfoldable mutual
  pub is_const_struct_union : CType → Bool
  is_const_struct_union (union _ fs) = any_const fs
  is_const_struct_union (struct _ _ fs) = any_const fs
  is_const_struct_union _ = false

  pub any_const : Fields → Bool
  any_const end = false
  any_const (field t q _ fs) =
      is_const_struct_union t || holds (is_const_after_deref q (pos 0)) || any_const fs

unfoldable mutual
  pub is_volatile_struct_union : CType → Bool
  is_volatile_struct_union (union _ fs) = any_volatile fs
  is_volatile_struct_union (struct _ _ fs) = any_volatile fs
  is_volatile_struct_union _ = false

  pub any_volatile : Fields → Bool
  any_volatile end = false
  any_volatile (field t q _ fs) =
      is_volatile_struct_union t || holds (is_volatile_after_deref q (pos 0)) || any_volatile fs

unfoldable mutual
  pub has_int_field : CType → Bool
  has_int_field (simple s) = is_int (simple s)
  has_int_field (union _ fs) = any_int fs
  has_int_field (struct _ _ fs) = any_int fs
  has_int_field _ = false

  pub any_int : Fields → Bool
  any_int end = false
  any_int (field t _ _ fs) = has_int_field t || any_int fs

-- `get_struct_depth`; the loop keeps the largest depth so far.
unfoldable mutual
  pub get_struct_depth : CType → ℕ
  get_struct_depth (struct _ _ fs) = suc (max_struct_depth 0 fs)
  get_struct_depth _ = 0

  pub max_struct_depth : ℕ → Fields → ℕ
  max_struct_depth deepest end = deepest
  max_struct_depth deepest (field t _ _ fs) =
      let depth = get_struct_depth t in
      max_struct_depth (if ltb deepest depth then depth else deepest) fs

abbrev simple_size : SimpleType → ℕ
simple_size void = 0
simple_size int = 4
simple_size short = 2
simple_size char = 1
simple_size long = 4
simple_size long_long = 8
simple_size uchar = 1
simple_size uint = 4
simple_size ushort = 2
simple_size ulong = 4
simple_size ulong_long = 8

-- `SizeInBytes`. The case of a pointer computes `CGOptions::pointer_size()` and drops it. The size
-- of a bit-field in a union is its length rounded up to a multiple of 8. `unsigned int` has 32 bits.
unfoldable mutual
  pub size_in_bytes : CType → ℕ
  size_in_bytes (simple s) = simple_size s
  size_in_bytes (vector s _) = simple_size s
  size_in_bytes (union _ fs) = union_size 0 fs
  size_in_bytes (struct _ packed fs) =
      if not packed || any_bitfields fs then size_unknown else struct_size 0 fs
  size_in_bytes (pointer _) = 0

  pub union_size : ℕ → Fields → ℕ
  union_size max_size end = max_size
  union_size max_size (field t _ (some len) fs) =
      let sz = (len + 7) / 8 * 8 in
      if sz == size_unknown then sz else union_size (if ltb max_size sz then sz else max_size) fs
  union_size max_size (field t _ none fs) =
      let sz = size_in_bytes t in
      if sz == size_unknown then sz else union_size (if ltb max_size sz then sz else max_size) fs

  pub struct_size : ℕ → Fields → ℕ
  struct_size total end = total
  struct_size total (field t _ len fs) =
      let sz = size_in_bytes t in
      if sz == size_unknown then sz else struct_size ((total + sz) % 2 ^ 32) fs
