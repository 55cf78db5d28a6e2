-- ===== src/Effects.antt =====
-- src/Effect.h, src/Effect.cpp: the effect of a piece of generated code, which is the variables that
-- it reads and writes and two flags. A method that changes its effect returns the new one. An effect
-- that is added is never the effect itself, which the source leaves as it is.
pub mod Names
pub mod Partial
pub mod Naming
pub mod Nested
pub mod Coverage
pub mod Addition
pub mod Flags
pub mod Built
pub mod Races
pub mod Consolidation
use clsmith.Prelude.{
  ℕ, zero, suc, ◌+◌, Bool, true, false, not, ◌&&◌, ◌||◌, Option, some, none, List, [], ◌∷◌, ◌++◌,
  if◌then◌else◌, any, ℤ, pos, negsuc, length, ◌==◌,
}
use clsmith.Options.{CgOptions}
use clsmith.Types.{is_struct}
use clsmith.Variables.{
  Variable, named, member, Store, is_global, matches_var, type_holds, is_inside_union_field,
  get_collective, get_container_union, same_address, is_field_var,
}
use clsmith.Variables.Qualified.{is_const, is_volatile, is_volatile_after_deref, asserted}
use clsmith.Variables.Sets.{
  is_variable_in_set, add_variables_to_set, find_variable_in_set, is_missing,
}

pub record Effect : Type 0 where
  pub read_vars : List Variable
  pub write_vars : List Variable
  pub lhs_write_vars : List Variable
  pub pure : Bool
  pub side_effect_free : Bool

-- The constructor, and `clear` of an effect, which keeps the variables of the left side.
abbrev pub empty_effect : Effect
empty_effect = record {
  read_vars = [];
  write_vars = [];
  lhs_write_vars = [];
  pure = true;
  side_effect_free = true;
}

abbrev pub clear : Effect → Effect
clear e = record empty_effect { lhs_write_vars = e.lhs_write_vars }

-- The copy constructor starts with no variables of the left side; an assignment keeps those of its
-- target.
abbrev pub copy : Effect → Effect
copy e = record e { lhs_write_vars = [] }

abbrev pub assign : Effect → Effect → Effect
assign e f = record f { lhs_write_vars = e.lhs_write_vars }

abbrev pub set_lhs_write_vars : Effect → List Variable → Effect
set_lhs_write_vars e vars = record e { lhs_write_vars = vars }

-- A block: the parameters of its function, and the local variables of it and of its parents.
pub record Block : Type 0 where
  pub param : List Variable
  pub local_vars : List (List Variable)

-- The search of `is_read` and `is_written` in a vector: for the variable itself, then for its parent
-- where an access to the parent is an access to its fields.
unfoldable pub covers : (Variable → Bool) → List Variable → Variable → Bool
covers through vs (named i) = is_variable_in_set vs (named i)
covers through vs (member p i) =
    is_variable_in_set vs (member p i) || (through p && covers through vs p)

-- `if (!is_read(v)) read_vars.push_back(v)`, and the same for the writes.
unfoldable pub push : (Variable → Bool) → List Variable → Variable → List Variable
push through vs v = if covers through vs v then vs else vs ++ (v ∷ [])

unfoldable pub push_all : (Variable → Bool) → List Variable → List Variable → List Variable
push_all through vs [] = vs
push_all through vs (w ∷ ws) = push_all through (push through vs w) ws

-- A loop of `consolidate`: the elements before the position and those from it on. The element at
-- the position is still in the vector while its parent is looked up.
unfoldable pub drop_covered : (Variable → Bool) → List Variable → List Variable → List Variable
drop_covered through before [] = before
drop_covered through before (named i ∷ rest) = drop_covered through (before ++ (named i ∷ [])) rest
drop_covered through before (member p i ∷ rest) =
    elim (covers through (before ++ (member p i ∷ rest)) p) [
      | true ↦ drop_covered through before rest
      | false ↦ drop_covered through (before ++ (member p i ∷ [])) rest
    ]

-- A read of a struct is a read of its fields; a read of a union is not.
abbrev pub through_struct : Store → Variable → Bool
through_struct s p = type_holds is_struct ((s p).type)

-- A write of a struct or of a union is a write of its fields.
abbrev pub through_all : Variable → Bool
through_all p = true

abbrev pub is_read : Store → Effect → Variable → Bool
is_read s e v = covers (through_struct s) e.read_vars v

abbrev pub is_written : Effect → Variable → Bool
is_written e v = covers through_all e.write_vars v

module _ (s : Store) where
  -- `pure` and `side_effect_free` after an access: no volatile and no ACCESS_ONCE variable.
  unfoldable pub is_quiet : Variable → Bool
  is_quiet v = not (is_volatile s v) && not ((s v).is_access_once)

  unfoldable pub is_constant : Variable → Bool
  is_constant v = is_const s v && not (is_volatile s v) && not ((s v).is_access_once)

  unfoldable pub read_var : Effect → Variable → Effect
  read_var e v = record e {
    read_vars = push (through_struct s) e.read_vars v;
    pure = e.pure && is_constant v;
    side_effect_free = e.side_effect_free && is_quiet v;
  }

  -- The loop over the levels of indirection, from the outermost.
  unfoldable pub meets_volatile : Variable → ℕ → Bool
  meets_volatile v zero = false
  meets_volatile v (suc n) =
      asserted (is_volatile_after_deref s v (pos (suc n))) || meets_volatile v n

  unfoldable pub access_deref_volatile : CgOptions → Effect → Variable → ℤ → Effect
  access_deref_volatile o e v (negsuc n) = e
  access_deref_volatile o e v (pos n) =
      if o.strict_volatile_rule && meets_volatile v n
      then record e { side_effect_free = false }
      else e

  unfoldable pub write_var : Effect → Variable → Effect
  write_var e v = record e {
    write_vars = push through_all e.write_vars v;
    side_effect_free = e.side_effect_free && is_quiet v;
  }

  unfoldable pub write_var_set : Effect → List Variable → Effect
  write_var_set e [] = e
  write_var_set e (v ∷ vs) = write_var_set (write_var e v) vs

  unfoldable pub add_effect : Effect → Effect → Bool → Effect
  add_effect e f include_lhs_effects = record {
    read_vars = push_all (through_struct s) e.read_vars f.read_vars;
    write_vars = push_all through_all e.write_vars f.write_vars;
    lhs_write_vars =
        if include_lhs_effects
        then (add_variables_to_set e.lhs_write_vars f.lhs_write_vars).0
        else e.lhs_write_vars;
    pure = e.pure && f.pure;
    side_effect_free = e.side_effect_free && f.side_effect_free;
  }

  unfoldable pub is_var_on_stack : Block → Variable → Bool
  is_var_on_stack b v =
      any (λ p. matches_var s p v) b.param
      || any (λ vs. not (is_missing (find_variable_in_set s vs v))) b.local_vars

  -- What leaves a function: a global, or a variable on the stack of a caller. The version without
  -- a call chain is the one with the empty chain.
  unfoldable pub is_external : List Block → Variable → Bool
  is_external call_chain v = is_global s v || any (λ b. is_var_on_stack b v) call_chain

  unfoldable pub read_external : List Block → Effect → Variable → Effect
  read_external chain e v = if is_external chain v then read_var e v else e

  unfoldable pub add_external_reads : List Block → Effect → List Variable → Effect
  add_external_reads chain e [] = e
  add_external_reads chain e (v ∷ vs) = add_external_reads chain (read_external chain e v) vs

  unfoldable pub write_external : List Block → Effect → Variable → Effect
  write_external chain e v =
      if is_external chain v then record (write_var e v) { pure = false } else e

  unfoldable pub add_external_writes : List Block → Effect → List Variable → Effect
  add_external_writes chain e [] = e
  add_external_writes chain e (v ∷ vs) = add_external_writes chain (write_external chain e v) vs

  unfoldable pub add_external_effect : Effect → Effect → List Block → Effect
  add_external_effect e f chain =
      let g = add_external_writes chain (add_external_reads chain e f.read_vars) f.write_vars in
      record g { side_effect_free = g.side_effect_free && f.side_effect_free }

  unfoldable pub consolidate : Effect → Effect
  consolidate e = record e {
    read_vars = drop_covered (through_struct s) [] e.read_vars;
    write_vars = drop_covered through_all [] e.write_vars;
  }

  unfoldable pub non_empty_intersection : List Variable → List Variable → Bool
  non_empty_intersection va vb = any (λ a. any (λ b. matches_var s a b || matches_var s b a) vb) va

  unfoldable pub has_race_with : Effect → Effect → Bool
  has_race_with e f =
      non_empty_intersection e.read_vars f.write_vars
      || non_empty_intersection e.write_vars f.read_vars
      || non_empty_intersection e.write_vars f.write_vars

  unfoldable pub has_global_effect : Effect → Bool
  has_global_effect e = any (is_global s) e.read_vars || any (is_global s) e.write_vars

  unfoldable pub update_purity : Effect → Effect
  update_purity e = if has_global_effect e then record e { pure = false } else e

abbrev pub is_empty : Effect → Bool
is_empty e = length e.read_vars == 0 && length e.write_vars == 0
