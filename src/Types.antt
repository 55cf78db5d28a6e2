-- ===== src/Types.antt =====
-- src/Type.h, src/Type.cpp: the types of generated programs. A `const Type*` is one of the type
-- objects that are made once each: a simple type by `get_simple_type`, a pointer by
-- `find_pointer_type`, a vector by `GenerateVectorTypes`, and an aggregate by its sequence id `sid`.
-- So `this == t` is `type_eq`, which compares the aggregates by `sid`.
pub mod Bitfields
pub mod Size
pub mod Conversion
pub mod Convertible
pub mod Promotion
pub mod Indirection
pub mod Structs
pub mod Legal
pub mod Wellformed
use clsmith.Prelude.{ℕ, zero, suc, Bool, true, false, not, ◌&&◌, ◌||◌, Option, some, none, ◌==◌}
use clsmith.Qualifiers.{CvQualifiers}

pub data SimpleType : Type 0 where
  void char short int long long_long uchar ushort uint ulong ulong_long : SimpleType

mutual
  pub data CType : Type 0 where
    simple : SimpleType → CType
    pointer : CType → CType
    union : (sid : ℕ) → Fields → CType
    vector : SimpleType → (vector_length : ℕ) → CType
    struct : (sid : ℕ) → (packed : Bool) → Fields → CType

  -- `fields`, `qfers_` and `bitfields_length_`, element by element: the length of a bit-field, and
  -- `none` for the -1 of a regular field.
  pub data Fields : Type 0 where
    end : Fields
    field : CType → CvQualifiers → Option ℕ → Fields → Fields

-- The enumerator's value.
abbrev pub simple_code : SimpleType → ℕ
simple_code void = 0
simple_code char = 1
simple_code short = 2
simple_code int = 3
simple_code long = 4
simple_code long_long = 5
simple_code uchar = 6
simple_code ushort = 7
simple_code uint = 8
simple_code ulong = 9
simple_code ulong_long = 10

abbrev pub simple_eq : SimpleType → SimpleType → Bool
simple_eq a b = simple_code a == simple_code b

unfoldable pub type_eq : CType → CType → Bool
type_eq (simple a) (simple b) = simple_eq a b
type_eq (pointer t) (pointer u) = type_eq t u
type_eq (union i _) (union j _) = i == j
type_eq (vector a n) (vector b m) = simple_eq a b && n == m
type_eq (struct i _ _) (struct j _ _) = i == j
type_eq _ _ = false

abbrev pub is_aggregate : CType → Bool
is_aggregate (struct _ _ _) = true
is_aggregate (union _ _) = true
is_aggregate _ = false

abbrev pub is_struct : CType → Bool
is_struct (struct _ _ _) = true
is_struct _ = false

abbrev pub is_union : CType → Bool
is_union (union _ _) = true
is_union _ = false

abbrev pub is_pointer : CType → Bool
is_pointer (pointer _) = true
is_pointer _ = false

-- `is_int`: a simple type other than void.
abbrev pub is_int : CType → Bool
is_int (simple s) = not (simple_eq s void)
is_int _ = false

abbrev pub ptr_type : CType → Option CType
ptr_type (pointer t) = some t
ptr_type _ = none
