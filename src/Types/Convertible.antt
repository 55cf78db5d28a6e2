-- ===== src/Types/Convertible.antt =====
-- src/Type.cpp: `is_convertable` and `is_promotable` as relations.
use clsmith.Prelude.{◌≡◌, sym, true, not, ◌&&◌, ◌||◌, ◌==◌, Bool-cases, inl, inr, arith}
use clsmith.Types.{
  SimpleType, void, CType, simple, pointer, union, vector, struct, simple_eq, type_eq,
}
use clsmith.Types.Size.{size_in_bytes}
use clsmith.Types.Conversion.{is_convertable, pointee_convertable}

type_eq_refl : (t : CType) → type_eq t t ≡ true
unfolding type_eq
type_eq_refl (simple s) = ground arith
type_eq_refl (pointer t) = type_eq_refl t
type_eq_refl (union i _) = ground arith
type_eq_refl (vector s n) = ground arith
type_eq_refl (struct i _ _) = ground arith

type_eq_symm : (t u : CType) → type_eq t u ≡ true → type_eq u t ≡ true
unfolding type_eq
type_eq_symm (pointer t) (pointer u) h = type_eq_symm t u h
type_eq_symm (simple s) (simple r) h = ground arith
type_eq_symm (union i _) (union j _) h = ground arith
type_eq_symm (vector s n) (vector r m) h = ground arith
type_eq_symm (struct i _ _) (struct j _ _) h = ground arith
type_eq_symm _ _ h = cc

type_eq_trans : (t u v : CType) → type_eq t u ≡ true → type_eq u v ≡ true → type_eq t v ≡ true
unfolding type_eq
type_eq_trans (pointer t) (pointer u) (pointer v) h g = type_eq_trans t u v h g
type_eq_trans (simple s) (simple r) (simple q) h g = ground arith
type_eq_trans (union i _) (union j _) (union k _) h g = ground arith
type_eq_trans (vector s n) (vector r m) (vector q l) h g = ground arith
type_eq_trans (struct i _ _) (struct j _ _) (struct k _ _) h g = ground arith
type_eq_trans _ _ _ h g = cc

-- Pointers to simple types are convertible when those have one size.
pointee_simple :
    (a b : SimpleType)
    → pointee_convertable (simple a) (simple b)
      ≡ (size_in_bytes (simple a) == size_in_bytes (simple b))
unfolding pointee_convertable
pointee_simple a b = ground arith

pointee_of_type_eq : (t u : CType) → type_eq t u ≡ true → pointee_convertable t u ≡ true
unfolding pointee_convertable
pointee_of_type_eq (simple a) (simple b) h = ground arith
pointee_of_type_eq (pointer t) (pointer u) h = h
pointee_of_type_eq (union i _) (union j _) h = h
pointee_of_type_eq (vector s n) (vector r m) h = h
pointee_of_type_eq (struct i _ _) (struct j _ _) h = h
pointee_of_type_eq _ _ h = cc

pointee_symm : (t u : CType) → pointee_convertable t u ≡ true → pointee_convertable u t ≡ true
unfolding pointee_convertable
pointee_symm (simple a) (simple b) h = ground arith
pointee_symm (pointer t) (pointer u) h = type_eq_symm (pointer t) (pointer u) h
pointee_symm (union i f) (union j g) h = type_eq_symm (union i f) (union j g) h
pointee_symm (vector s n) (vector r m) h = type_eq_symm (vector s n) (vector r m) h
pointee_symm (struct i p f) (struct j q g) h = type_eq_symm (struct i p f) (struct j q g) h
pointee_symm (simple a) (pointer u) h = cc
pointee_symm _ _ h = cc

pointee_trans :
    (t u v : CType)
    → pointee_convertable t u ≡ true
    → pointee_convertable u v ≡ true
    → pointee_convertable t v ≡ true
unfolding pointee_convertable
pointee_trans (simple a) (simple b) (simple c) h g =
    ground (arith, pointee_simple a b, pointee_simple b c, pointee_simple a c)
pointee_trans (pointer t) (pointer u) (pointer v) h g = type_eq_trans t u v h g
pointee_trans (union i f) (union j k) (union l m) h g =
    type_eq_trans (union i f) (union j k) (union l m) h g
pointee_trans (vector s n) (vector r m) (vector q l) h g =
    type_eq_trans (vector s n) (vector r m) (vector q l) h g
pointee_trans (struct i p f) (struct j q k) (struct l r m) h g =
    type_eq_trans (struct i p f) (struct j q k) (struct l r m) h g
pointee_trans _ _ _ h g = cc

convertable_pointer :
    (t u : CType) → is_convertable (pointer t) (pointer u) ≡ pointee_convertable t u
unfolding is_convertable
convertable_pointer t u = elim (Bool-cases (type_eq t u)) [
  | inl e ↦ rw e (sym (pointee_of_type_eq t u e))
  | inr e ↦ rw e
]

convertable_simple :
    (a b : SimpleType)
    → is_convertable (simple a) (simple b)
      ≡ (simple_eq a b || (not (simple_eq a void) && not (simple_eq b void)))
unfolding is_convertable
convertable_simple a b = ground arith

convertable_refl : (t : CType) → is_convertable t t ≡ true
unfolding is_convertable
convertable_refl (simple s) = rw (type_eq_refl (simple s))
convertable_refl (pointer t) = rw (type_eq_refl (pointer t))
convertable_refl (union i f) = type_eq_refl (union i f)
convertable_refl (vector s n) = type_eq_refl (vector s n)
convertable_refl (struct i p f) = type_eq_refl (struct i p f)

convertable_symm : (t u : CType) → is_convertable t u ≡ true → is_convertable u t ≡ true
unfolding is_convertable
convertable_symm (simple a) (simple b) h =
    ground (arith, convertable_simple a b, convertable_simple b a)
convertable_symm (pointer t) (pointer u) h =
    ground (arith, convertable_pointer t u, convertable_pointer u t, pointee_symm t u)
convertable_symm (union i f) (union j g) h = type_eq_symm (union i f) (union j g) h
convertable_symm (vector s n) (vector r m) h = type_eq_symm (vector s n) (vector r m) h
convertable_symm (struct i p f) (struct j q g) h = type_eq_symm (struct i p f) (struct j q g) h
convertable_symm _ _ h = cc

convertable_trans :
    (t u v : CType)
    → is_convertable t u ≡ true
    → is_convertable u v ≡ true
    → is_convertable t v ≡ true
unfolding is_convertable
convertable_trans (simple a) (simple b) (simple c) h g =
    ground (arith, convertable_simple a b, convertable_simple b c, convertable_simple a c)
convertable_trans (pointer t) (pointer u) (pointer v) h g = ground (
  arith,
  convertable_pointer t u,
  convertable_pointer u v,
  convertable_pointer t v,
  pointee_trans t u v,
)
convertable_trans (union i f) (union j k) (union l m) h g =
    type_eq_trans (union i f) (union j k) (union l m) h g
convertable_trans (vector s n) (vector r m) (vector q l) h g =
    type_eq_trans (vector s n) (vector r m) (vector q l) h g
convertable_trans (struct i p f) (struct j q k) (struct l r m) h g =
    type_eq_trans (struct i p f) (struct j q k) (struct l r m) h g
convertable_trans _ _ _ h g = cc

-- `is_convertable` is an equivalence relation on types: every type is convertable to itself, from
-- each convertable type back, and through a third type.
pub is_convertable_equivalence :
    (t u v : CType)
    → (is_convertable t t ≡ true)
      × (is_convertable t u ≡ true → is_convertable u t ≡ true)
      × (is_convertable t u ≡ true → is_convertable u v ≡ true → is_convertable t v ≡ true)
is_convertable_equivalence t u v =
    (convertable_refl t, convertable_symm t u, convertable_trans t u v)
