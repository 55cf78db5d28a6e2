-- ===== src/Contexts/Pointed.antt =====
-- src/CGContext.cpp: reading and writing what a pointer points to.
use clsmith.Prelude.{
  ℕ, zero, suc, Bool, true, false, not, ◌&&◌, ◌||◌, none, some, List, [], ◌∷◌, ◌==◌, ltb, length, ℤ,
  pos, negsuc,
}
use clsmith.Variables.{Variable, Store, get_collective}
use clsmith.Variables.Sets.{is_variable_in_set}
use clsmith.Effects.{Effect, copy, assign}
use clsmith.Facts.PointTo.{merge_pointees_of_pointers, null_ptr, garbage_ptr, is_special_ptr}
use clsmith.Contexts.{CgContext}
use clsmith.Contexts.Checks.{
  Environment, Outcome, Indices, Setting, read_indices, check_read_var, check_write_var,
}

-- `*effect_accum = effect_accum_copy`.
unfoldable pub restore : Effect → CgContext → CgContext
restore saved c = record c {
  effect_accum = elim c.effect_accum [ none ↦ none | some e ↦ some (assign e saved) ];
}

-- There is no pointee, or one that the options do not allow.
unfoldable pub is_bad : Setting → List Variable → Bool
is_bad t tmp =
    length tmp == 0
    || (not (ltb 0 t.null_pointer_dereference_prob) && is_variable_in_set tmp null_ptr)
    || (not (ltb 0 t.dead_pointer_dereference_prob) && is_variable_in_set tmp garbage_ptr)

module _ (s : Store) {Expression : Type 0} (x : Indices Expression) (t : Setting) where
  -- The check of each pointee: `writes` for the ultimate pointees of `write_pointed`.
  unfoldable pub check_pointee : Bool → Variable → Environment → CgContext → Outcome
  check_pointee true v facts c = check_write_var s x t v facts c
  check_pointee false v facts c = check_read_var s x t v facts c

  unfoldable pub check_pointees : Bool → List Variable → Environment → CgContext → Outcome
  check_pointees writes [] facts c = some (true, c)
  check_pointees writes (p ∷ ps) facts c = elim (is_special_ptr p) [
    | true ↦ check_pointees writes ps facts c
    | false ↦ elim (check_pointee writes p facts c) [
      | none ↦ none
      | some (ok, c') ↦ elim ok [
        | false ↦ some (false, c')
        | true ↦ check_pointees writes ps facts c'
      ]
    ]
  ]

  -- The loop of `read_pointed` and, with `writes`, of `write_pointed`.
  unfoldable pub trace_pointers :
      Bool → Effect → ℕ → List Variable → Environment → CgContext → Outcome
  trace_pointers writes saved zero tmp facts c = some (true, c)
  trace_pointers writes saved (suc indirect) tmp facts c =
      elim (merge_pointees_of_pointers tmp facts.points) [
        | none ↦ none
        | some pointees ↦ elim (is_bad t pointees) [
          | true ↦ some (false, restore saved c)
          | false ↦ elim (check_pointees (writes && indirect == 0) pointees facts c) [
            | none ↦ none
            | some (ok, c') ↦ elim ok [
              | false ↦ some (false, restore saved c')
              | true ↦ trace_pointers writes saved indirect pointees facts c'
            ]
          ]
        ]
      ]

  -- After the copy of the accumulated effect.
  abbrev pub access_from : Bool → Variable → ℤ → Environment → CgContext → Effect → Outcome
  access_from writes v (negsuc n) facts c e = none
  access_from writes v (pos zero) facts c e = none
  access_from writes v (pos (suc n)) facts c e =
      let (ok, c') = read_indices s x v facts c in
      elim ok [
        | false ↦ some (false, c')
        | true ↦ trace_pointers writes (copy e) (suc n) (get_collective s v ∷ []) facts c'
      ]

  abbrev pub access_pointed : Bool → Variable → ℤ → Environment → CgContext → Outcome
  access_pointed writes v indirect facts c = elim c.effect_accum [
    | none ↦ none
    | some e ↦ access_from writes v indirect facts c e
  ]

  -- Of an expression with the variable and the level of indirection; `none` is the NULL
  -- `effect_accum` that is read, or a failed assertion.
  unfoldable pub read_pointed : Variable → ℤ → Environment → CgContext → Outcome
  read_pointed v indirect facts c = access_pointed false v indirect facts c

  unfoldable pub write_pointed : Variable → ℤ → Environment → CgContext → Outcome
  write_pointed v indirect facts c = access_pointed true v indirect facts c
