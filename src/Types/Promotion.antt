-- ===== src/Types/Promotion.antt =====
-- src/Type.cpp: `is_promotable` against the integer conversion ranks, and signedness.
use clsmith.Prelude.{ℕ, ◌≤◌, ◌≡◌, true, false, ◌&&◌, some, ltb, leb, arith}
use clsmith.Types.{
  SimpleType, void, char, short, int, long, long_long, uchar, ushort, uint, ulong, ulong_long,
  CType, simple, vector,
}
use clsmith.Types.Size.{size_in_bytes}
use clsmith.Types.Conversion.{is_promotable, is_convertable, is_signed, to_signed, to_unsigned}

-- C's integer conversion ranks.
abbrev pub rank : SimpleType → ℕ
rank void = 0
rank char = 1
rank uchar = 1
rank short = 2
rank ushort = 2
rank int = 3
rank uint = 3
rank long = 4
rank ulong = 4
rank long_long = 5
rank ulong_long = 5

-- A simple type is promotable to exactly the simple types of at least its conversion rank; void is
-- promotable to nothing and nothing is promotable to void.
pub is_promotable-rank :
    (s t : SimpleType)
    → is_promotable (simple s) (simple t)
      ≡ (ltb 0 (rank s) && ltb 0 (rank t) && leb (rank s) (rank t))
unfolding is_promotable
is_promotable-rank s t = ground arith

-- A promotion never goes to a smaller type, and is a conversion.
pub is_promotable-size :
    (t u : CType)
    → is_promotable t u ≡ true
    → (size_in_bytes t ≤ size_in_bytes u) × (is_convertable t u ≡ true)
unfolding is_promotable size_in_bytes is_convertable
is_promotable-size (simple s) (simple t) h = ground arith
is_promotable-size _ _ h = cc

-- `to_unsigned` and `to_signed` yield types of the wanted signedness and of the size of the given
-- type, and from a simple type each undoes the other on its results.
to_unsigned-to_signed :
    (t u : CType)
    → (to_unsigned t ≡ some u → (is_signed u ≡ false) × (size_in_bytes u ≡ size_in_bytes t))
      × (to_signed t ≡ some u → (is_signed u ≡ true) × (size_in_bytes u ≡ size_in_bytes t))
      × ((s r : SimpleType)
          → to_unsigned (simple s) ≡ some (simple r)
          → is_signed (simple s) ≡ true
          → to_signed (simple r) ≡ some (simple s))
unfolding to_unsigned to_signed is_signed size_in_bytes
to_unsigned-to_signed t u = (unsigned_lem t u, signed_lem t u, λ s r e h. back s r e h)
  where
    unsigned_lem :
        (t u : CType)
        → to_unsigned t ≡ some u
        → (is_signed u ≡ false) × (size_in_bytes u ≡ size_in_bytes t)
    unsigned_lem (simple s) u e = ground arith
    unsigned_lem (vector s n) u e = ground arith
    unsigned_lem _ u e = cc

    signed_lem :
        (t u : CType)
        → to_signed t ≡ some u
        → (is_signed u ≡ true) × (size_in_bytes u ≡ size_in_bytes t)
    signed_lem (simple s) u e = ground arith
    signed_lem (vector s n) u e = ground arith
    signed_lem _ u e = cc

    back :
        (s r : SimpleType)
        → to_unsigned (simple s) ≡ some (simple r)
        → is_signed (simple s) ≡ true
        → to_signed (simple r) ≡ some (simple s)
    back s r e h = ground arith
