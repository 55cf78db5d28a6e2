-- ===== src/Types/Conversion.antt =====
-- src/Type.cpp: signedness, pointer levels and the conversions between types.
use clsmith.Prelude.{
  ℕ, suc, Bool, true, false, not, ◌&&◌, ◌||◌, Option, some, none, ◌==◌, if◌then◌else◌, leb, differ,
}
use clsmith.Options.{CgOptions}
use clsmith.Types.{
  SimpleType, void, char, short, int, long, long_long, uchar, ushort, uint, ulong, ulong_long,
  CType, simple, pointer, vector, simple_eq, type_eq, is_pointer,
}
use clsmith.Types.Size.{size_in_bytes}

unfoldable pub get_indirect_level : CType → ℕ
get_indirect_level (pointer t) = suc (get_indirect_level t)
get_indirect_level _ = 0

unfoldable pub get_base_type : CType → CType
get_base_type (pointer t) = get_base_type t
get_base_type t = t

abbrev unsigned : SimpleType → Bool
unsigned uchar = true
unsigned uint = true
unsigned ushort = true
unsigned ulong = true
unsigned ulong_long = true
unsigned _ = false

unfoldable pub is_signed : CType → Bool
is_signed (simple s) = not (unsigned s)
is_signed (vector s _) = not (unsigned s)
is_signed _ = false

-- The simple type that `to_unsigned` names in its `switch`.
abbrev unsigned_of : SimpleType → Option SimpleType
unsigned_of void = none
unsigned_of char = some uchar
unsigned_of int = some uint
unsigned_of short = some ushort
unsigned_of long = some ulong
unsigned_of long_long = some ulong_long
unsigned_of s = some s

abbrev signed_of : SimpleType → Option SimpleType
signed_of void = none
signed_of uchar = some char
signed_of uint = some int
signed_of ushort = some short
signed_of ulong = some long
signed_of ulong_long = some long_long
signed_of s = some s

-- An unsigned type is returned as it is; any other simple type or vector element gives a simple
-- type.
unfoldable pub to_unsigned : CType → Option CType
to_unsigned (simple s) = elim (unsigned_of s) [ none ↦ none | some u ↦ some (simple u) ]
to_unsigned (vector s n) =
    if unsigned s
    then some (vector s n)
    else elim (unsigned_of s) [ none ↦ none | some u ↦ some (simple u) ]
to_unsigned _ = none

unfoldable pub to_signed : CType → Option CType
to_signed (simple s) = elim (signed_of s) [ none ↦ none | some u ↦ some (simple u) ]
to_signed (vector s n) =
    if unsigned s
    then elim (signed_of s) [ none ↦ none | some u ↦ some (simple u) ]
    else elim (signed_of s) [ none ↦ none | some _ ↦ some (vector s n) ]
to_signed _ = none

abbrev one_of : SimpleType → SimpleType → SimpleType → Bool
one_of s a b = simple_eq s a || simple_eq s b

-- The `switch` of `is_promotable`, from the type `s` to the type `t2`.
unfoldable pub simple_promotable : SimpleType → SimpleType → Bool
simple_promotable char t2 = not (simple_eq t2 void)
simple_promotable uchar t2 = not (simple_eq t2 void)
simple_promotable short t2 = not (simple_eq t2 void) && not (one_of t2 char uchar)
simple_promotable ushort t2 = not (simple_eq t2 void) && not (one_of t2 char uchar)
simple_promotable int t2 =
    not (simple_eq t2 void) && not (one_of t2 char uchar) && not (one_of t2 short ushort)
simple_promotable uint t2 =
    not (simple_eq t2 void) && not (one_of t2 char uchar) && not (one_of t2 short ushort)
simple_promotable long t2 = one_of t2 long ulong || one_of t2 long_long ulong_long
simple_promotable ulong t2 = one_of t2 long ulong || one_of t2 long_long ulong_long
simple_promotable long_long t2 = one_of t2 long_long ulong_long
simple_promotable ulong_long t2 = one_of t2 long_long ulong_long
simple_promotable void t2 = false

unfoldable pub is_promotable : CType → CType → Bool
unfolding simple_promotable
is_promotable (simple s) (simple t) = simple_promotable s t
is_promotable _ _ = false

-- The pointer case of `is_convertable`, over the types pointed to.
unfoldable pub pointee_convertable : CType → CType → Bool
unfolding type_eq size_in_bytes
pointee_convertable (simple a) (simple b) =
    if type_eq (simple a) (simple b)
    then true
    else size_in_bytes (simple a) == size_in_bytes (simple b)
pointee_convertable t u = type_eq t u

unfoldable pub is_convertable : CType → CType → Bool
unfolding type_eq pointee_convertable
is_convertable (simple a) (simple b) =
    if type_eq (simple a) (simple b)
    then true
    else (not (simple_eq a void) && not (simple_eq b void)) || simple_eq a b
is_convertable (pointer t) (pointer u) =
    if type_eq (pointer t) (pointer u) then true else pointee_convertable t u
is_convertable t u = type_eq t u

unfoldable pub is_equivalent : CType → CType → Bool
unfolding type_eq is_signed size_in_bytes
is_equivalent (simple a) t =
    if type_eq (simple a) t
    then true
    else not (differ (is_signed (simple a)) (is_signed t))
      && size_in_bytes (simple a) == size_in_bytes t
is_equivalent t u = type_eq t u

unfoldable pub needs_cast : CType → CType → Bool
unfolding is_equivalent get_base_type
needs_cast t u = is_pointer t && not (is_equivalent (get_base_type t) (get_base_type u))

-- `ptr_type == t`, on the left type.
abbrev points_to : CType → CType → Bool
points_to (pointer t) u = type_eq t u
points_to _ u = false

-- `this` is reached from `t` by at least one dereference.
unfoldable pub is_dereferenced_from : CType → CType → Bool
unfolding type_eq
is_dereferenced_from t (pointer u) = type_eq u t || is_dereferenced_from t u
is_dereferenced_from t _ = false

unfoldable pub is_derivable : CType → CType → Bool
unfolding is_convertable is_dereferenced_from
is_derivable t u =
    if type_eq t u then true else is_convertable t u || is_dereferenced_from t u || points_to t u

pub data MatchType : Type 0 where
  exact convert dereference deref_exact flexible : MatchType

unfoldable pub match_type : CType → CType → MatchType → Bool
unfolding is_derivable
match_type t u exact = type_eq t u
match_type t u convert = is_convertable t u
match_type t u dereference = is_dereferenced_from t u
match_type t u deref_exact = type_eq u t || is_dereferenced_from t u
match_type t u flexible = is_derivable t u

unfoldable pub signed_overflow_possible : CgOptions → CType → Bool
unfolding is_signed size_in_bytes
signed_overflow_possible o (simple s) =
    is_signed (simple s) && leb o.int_size (size_in_bytes (simple s))
signed_overflow_possible o _ = false
