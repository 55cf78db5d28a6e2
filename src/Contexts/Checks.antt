-- ===== src/Contexts/Checks.antt =====
-- src/CGContext.cpp: the checks before a variable is read or written. An operation returns whether it
-- succeeds and the context after it; `none` is a failed assertion or a read of a null pointer.
use clsmith.Prelude.{
  ℕ, Bool, true, false, not, ◌&&◌, ◌||◌, Option, none, some, List, [], ◌∷◌, if◌then◌else◌,
}
use clsmith.Options.{CgOptions}
use clsmith.Variables.{
  Variable, named, member, Store, get_collective, is_array_field, is_pointer_var,
}
use clsmith.Variables.Qualified.{is_const, is_volatile}
use clsmith.Effects.Partial.{is_read_partially, is_written_partially}
use clsmith.Facts.PointTo.{FactPointTo, is_dangling_ptr}
use clsmith.Facts.Unions.{FactUnion, is_nonreadable_field}
use clsmith.Contexts.{
  CgContext, is_nonreadable, is_nonwritable, context_read_var, context_write_var, has_flag,
  no_dangling_ptr,
}

-- The vector of facts, its two classes apart.
pub record Environment : Type 0 where
  pub points : List FactPointTo
  pub unions : List FactUnion

abbrev pub Outcome : Type 0
Outcome = Option (Bool × CgContext)

-- The expressions that index an array variable: what `visit_facts` returns for one, with the facts
-- and the context after it.
pub record Indices (Expression : Type 0) : Type 0 where
  pub get_indices : Variable → List Expression
  pub visit_facts : Expression → Environment → CgContext → Bool × Environment × CgContext

-- What the checks read of the program's options, and the bound on the nesting of aggregates.
pub record Setting : Type 0 where
  pub options : CgOptions
  pub depth : ℕ
  pub null_pointer_dereference_prob : ℕ
  pub dead_pointer_dereference_prob : ℕ

module _ (s : Store) (t : Setting) where
  -- The guards of `check_read_var`, on the collective variable.
  unfoldable pub may_read : CgContext → Environment → Variable → Option Bool
  may_read c facts v = elim (is_nonreadable_field t.options s v facts.unions) [
    | none ↦ none
    | some nonreadable ↦ some (
        not nonreadable
        && not (is_nonreadable s c v)
        && not (is_written_partially s t.depth c.effect_context v)
        && not (is_volatile s v && not c.effect_context.side_effect_free)
        && not (
            is_pointer_var s v && is_dangling_ptr s t.dead_pointer_dereference_prob v facts.points))
  ]

  -- The guards of `check_write_var`.
  unfoldable pub may_write : CgContext → Environment → Variable → Bool
  may_write c facts v =
      not (is_nonwritable s c v || is_const s v)
      && not (is_written_partially s t.depth c.effect_context v)
      && not (is_read_partially s t.depth c.effect_context v)
      && not (is_volatile s v && not c.effect_context.side_effect_free)
      && not (
          has_flag c.flags no_dangling_ptr
          && is_pointer_var s v
          && is_dangling_ptr s t.dead_pointer_dereference_prob v facts.points)

abbrev pub succeeds : Option CgContext → Outcome
succeeds none = none
succeeds (some c) = some (true, c)

module _ (s : Store) {Expression : Type 0} (x : Indices Expression) where
  unfoldable pub visit_indices : List Expression → Environment → CgContext → Bool × CgContext
  visit_indices [] facts c = (true, c)
  visit_indices (e ∷ es) facts c =
      let (ok, facts', c') = x.visit_facts e facts c in
      elim ok [ false ↦ (false, c') | true ↦ visit_indices es facts' c' ]

  -- A field that is no array itself goes to the nearest array above it, which is the first array
  -- that the walk up its parents meets.
  unfoldable pub read_indices : Variable → Environment → CgContext → Bool × CgContext
  read_indices (named i) facts c =
      if (s (named i)).is_array then visit_indices (x.get_indices (named i)) facts c else (true, c)
  read_indices (member p i) facts c = elim ((s (member p i)).is_array) [
    | true ↦
        let (ok, c') = visit_indices (x.get_indices (member p i)) facts c in
        elim ok [ false ↦ (false, c') | true ↦ read_indices p facts c' ]
    | false ↦ elim (is_array_field s (member p i)) [
      | true ↦ read_indices p facts c
      | false ↦ (true, c)
    ]
  ]

  module _ (t : Setting) where
    unfoldable pub check_read_var : Variable → Environment → CgContext → Outcome
    check_read_var v facts c =
        let (ok, c') = read_indices v facts c in
        let w = get_collective s v in
        elim ok [
          | false ↦ some (false, c')
          | true ↦ elim (may_read s t c' facts w) [
            | none ↦ none
            | some allowed ↦ elim allowed [
              | false ↦ some (false, c')
              | true ↦ succeeds (context_read_var s c' w)
            ]
          ]
        ]

    unfoldable pub check_write_var : Variable → Environment → CgContext → Outcome
    check_write_var v facts c =
        let (ok, c') = read_indices v facts c in
        let w = get_collective s v in
        elim ok [
          | false ↦ some (false, c')
          | true ↦ elim (may_write s t c' facts w) [
            | false ↦ some (false, c')
            | true ↦ succeeds (context_write_var s c' w)
          ]
        ]
