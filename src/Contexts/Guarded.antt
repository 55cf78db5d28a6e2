-- ===== src/Contexts/Guarded.antt =====
-- src/CGContext.cpp: the checks keep a context safe.
use clsmith.Prelude.{
  ◌≡◌, inl, inr, refl, ap, true, false, ℕ, none, some, Bool-cases, Option-cases, arith,
}
use mathlib.Core.Option.{some-injective}
use clsmith.Facts.Unions.{is_nonreadable_field}
use clsmith.Variables.{Variable, named, member, Store, get_collective, is_array_field, relocate}
use clsmith.Contexts.{CgContext, read_conflict, write_conflict, context_read_var, context_write_var}
use clsmith.Contexts.Checks.{
  Environment, Indices, Setting, read_indices, may_read, may_write, check_read_var, check_write_var,
}
use clsmith.Contexts.Safe.{
  Leads, Leads-here, Leads-none, Leads-succeeds, IsSafeIndices, Follows-context_read_var,
  Follows-context_write_var, Follows-read_indices,
}

-- The guards of the checks leave no conflict.
module _ (s : Store) (t : Setting) where
  may_read-free :
      (c : CgContext) (facts : Environment) (v : Variable)
      → may_read s t c facts v ≡ some true
      → read_conflict s t.depth c v ≡ false
  unfolding may_read
  may_read-free c facts v h =
      elim (Option-cases (is_nonreadable_field t.options s v facts.unions)) [
        | inl e ↦ let z : none ≡ some true = rw (may_read, e) at h in absurd (ground (arith, z))
        | inr (b, e) ↦ let z = some-injective _ true (rw (may_read, e) at h) in ground (arith, z)
      ]

  may_write-free :
      (c : CgContext) (facts : Environment) (v : Variable)
      → may_write s t c facts v ≡ true
      → write_conflict s t.depth c v ≡ false
  unfolding may_write
  may_write-free c facts v h = ground (arith, h)

-- A collective array is not an itemized one.
unfoldable pub HasPlainCollectives : Store → Type 0
HasPlainCollectives s =
    (i c : ℕ) → (s (named i)).collective ≡ some c → (s (named c)).collective ≡ none

relocate_idem :
    (s : Store) → HasPlainCollectives s → (v : Variable) → relocate s (relocate s v) ≡ relocate s v
unfolding HasPlainCollectives relocate
relocate_idem s p (named i) = elim (Option-cases ((s (named i)).collective)) [
  | inl h ↦ rw (relocate, h, relocate, h) refl
  | inr (c, h) ↦ rw (relocate, h, relocate, p i c h) refl
]
relocate_idem s p (member v i) = ap (λ w. member w i) (relocate_idem s p v)

pub get_collective_idem :
    (s : Store)
    → HasPlainCollectives s
    → (v : Variable) → get_collective s (get_collective s v) ≡ get_collective s v
unfolding get_collective
get_collective_idem s p v = elim (Bool-cases (is_array_field s v)) [
  | inl h ↦ elim (Bool-cases (is_array_field s (relocate s v))) [
    | inl g ↦ rw (h, g) (relocate_idem s p v)
    | inr g ↦ rw (h, g) refl
  ]
  | inr h ↦ rw (h, h) refl
]

module _ (s : Store) (plain : HasPlainCollectives s) (t : Setting) {Expression : Type 0}
    (x : Indices Expression) (ix : IsSafeIndices s t.depth x) where
  pub Leads-check_read_var :
      (v : Variable) (facts : Environment) (c : CgContext)
      → Leads s t.depth c (check_read_var s x t v facts c)
  unfolding check_read_var
  Leads-check_read_var v facts c =
      let r = read_indices s x v facts c in
      let f = Follows-read_indices s t.depth x ix v facts c in
      let w = get_collective s v in
      elim (Bool-cases (read_indices s x v facts c).0) [
        | inr h ↦ rw (check_read_var, h) (Leads-here s t.depth false c r.1 f)
        | inl h ↦ elim (Option-cases (may_read s t r.1 facts w)) [
          | inl g ↦ rw (check_read_var, h, g) (Leads-none s t.depth c)
          | inr (false, g) ↦ rw (check_read_var, h, g) (Leads-here s t.depth false c r.1 f)
          | inr (true, g) ↦
              rw (check_read_var, h, g)
                (Leads-succeeds s t.depth c r.1 (context_read_var s r.1 w) f (λ e.
                  Follows-context_read_var s t.depth r.1 e w
                    (rw (get_collective_idem s plain v) (may_read-free s t r.1 facts w g))))
        ]
      ]

  pub Leads-check_write_var :
      (v : Variable) (facts : Environment) (c : CgContext)
      → Leads s t.depth c (check_write_var s x t v facts c)
  unfolding check_write_var
  Leads-check_write_var v facts c =
      let r = read_indices s x v facts c in
      let f = Follows-read_indices s t.depth x ix v facts c in
      let w = get_collective s v in
      elim (Bool-cases (read_indices s x v facts c).0) [
        | inr h ↦ rw (check_write_var, h) (Leads-here s t.depth false c r.1 f)
        | inl h ↦ elim (Bool-cases (may_write s t r.1 facts w)) [
          | inr g ↦ rw (check_write_var, h, g) (Leads-here s t.depth false c r.1 f)
          | inl g ↦
              rw (check_write_var, h, g)
                (Leads-succeeds s t.depth c r.1 (context_write_var s r.1 w) f (λ e.
                  Follows-context_write_var s t.depth r.1 e w
                    (rw (get_collective_idem s plain v) (may_write-free s t r.1 facts w g))))
        ]
      ]
