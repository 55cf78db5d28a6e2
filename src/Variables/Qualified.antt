-- ===== src/Variables/Qualified.antt =====
-- src/Variable.cpp: whether a variable is const or volatile, by its own qualifiers or by those of
-- the fields of its aggregate type.
use clsmith.Prelude.{ℕ, zero, suc, Bool, true, false, Option, some, none, ℤ, pos, negsuc, List}
use clsmith.Qualifiers.{level_after_deref}
use clsmith.Types.{CType, ptr_type}
use clsmith.Types.Size.{is_const_struct_union, is_volatile_struct_union}
use clsmith.Variables.{Variable, Store}

-- `ptr_type`, so many times; `none` is the failed assertion on NULL.
abbrev pub deref_type : ℕ → CType → Option CType
deref_type zero t = some t
deref_type (suc n) t = elim (ptr_type t) [ none ↦ none | some u ↦ deref_type n u ]

-- Both tests of `is_const_after_deref` and `is_volatile_after_deref`: the level of the qualifiers,
-- then the type that is reached. `none` is an assertion that fails.
unfoldable pub level_or_type : (CType → Bool) → List Bool → Option CType → ℤ → Option Bool
level_or_type p qs t (negsuc n) = some false
level_or_type p qs t (pos n) = elim (level_after_deref qs (pos n)) [
  | none ↦ none
  | some true ↦ some true
  | some false ↦ elim t [
    | none ↦ some false
    | some u ↦ elim (deref_type n u) [ none ↦ none | some w ↦ some (p w) ]
  ]
]

unfoldable pub is_const_after_deref : Store → Variable → ℤ → Option Bool
is_const_after_deref s v n =
    level_or_type is_const_struct_union ((s v).qfer.is_consts) ((s v).type) n

unfoldable pub is_volatile_after_deref : Store → Variable → ℤ → Option Bool
is_volatile_after_deref s v n =
    level_or_type is_volatile_struct_union ((s v).qfer.is_volatiles) ((s v).type) n

-- The result of a test whose assertion holds; a failed assertion ends the program.
abbrev pub asserted : Option Bool → Bool
asserted none = false
asserted (some b) = b

abbrev pub is_const : Store → Variable → Bool
is_const s v = asserted (is_const_after_deref s v (pos 0))

abbrev pub is_volatile : Store → Variable → Bool
is_volatile s v = asserted (is_volatile_after_deref s v (pos 0))
