-- ===== src/Types/Indirection.antt =====
-- src/Type.cpp: pointer levels and dereferences.
use clsmith.Prelude.{ℕ, zero, suc, ◌≡◌, refl, ◌↔◌, ap, inl, inr, true, Bool-cases, arith}
use clsmith.Types.{CType, simple, pointer, type_eq}
use clsmith.Types.Conversion.{get_indirect_level, get_base_type, is_dereferenced_from}

-- The pointer type of `n` levels over `t`.
abbrev pub pointers : ℕ → CType → CType
pointers zero t = t
pointers (suc n) t = pointer (pointers n t)

-- Every type is its base type under as many pointers as its indirection level says, and the base
-- type is no pointer.
pub pointers-get_base_type :
    (t : CType)
    → (pointers (get_indirect_level t) (get_base_type t) ≡ t)
      × (get_indirect_level (get_base_type t) ≡ 0)
unfolding get_indirect_level get_base_type
pointers-get_base_type (pointer t) = let ih = pointers-get_base_type t in (ap pointer ih.0, ih.1)
pointers-get_base_type (simple s) = (refl, refl)
pointers-get_base_type _ = (refl, refl)

derefs_sound :
    (t u : CType)
    → is_dereferenced_from t u ≡ true
    → (n : ℕ) × (v : CType) × (u ≡ pointers (suc n) v) × (type_eq v t ≡ true)
unfolding is_dereferenced_from
derefs_sound t (pointer u) h = elim (Bool-cases (type_eq u t)) [
  | inl e ↦ (0, u, refl, e)
  | inr e ↦ let (n, v, p, q) = derefs_sound t u (rw e at h) in (suc n, v, ap pointer p, q)
]
derefs_sound t (simple s) h = cc
derefs_sound t _ h = cc

derefs_complete :
    (t v : CType) (n : ℕ) → type_eq v t ≡ true → is_dereferenced_from t (pointers (suc n) v) ≡ true
unfolding is_dereferenced_from
derefs_complete t v zero e = rw e
derefs_complete t v (suc n) e = ground (arith, derefs_complete t v n e)

-- `is_dereferenced_from` says exactly that some positive number of dereferences leads from the
-- second type to the first.
pub is_dereferenced_from_iff :
    (t u : CType)
    → (is_dereferenced_from t u ≡ true)
      ↔ ((n : ℕ) × (v : CType) × (u ≡ pointers (suc n) v) × (type_eq v t ≡ true))
is_dereferenced_from_iff t u = (derefs_sound t u, λ (n, v, p, e). rw p (derefs_complete t v n e))
