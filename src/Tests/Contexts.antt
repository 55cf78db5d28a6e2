-- ===== src/Tests/Contexts.antt =====
-- src/CGContext.cpp in a context whose surroundings write one variable.
use clsmith.Prelude.{
  ◌≡◌, ◌⊎◌, inl, inr, refl, true, false, none, some, [], ◌∷◌, ◌==◌, if◌then◌else◌, pos, arith,
  Bool-cases,
}
use mathlib.Core.Option.{some-injective}
use clsmith.Options.{CgOptions}
use clsmith.Qualifiers.{of_levels, level_after_deref}
use clsmith.Types.{simple, int, pointer}
use clsmith.Variables.{
  named, member, Store, VarInfo, var_eq, matches_var, is_global, get_collective, is_array_field,
  get_container_union, nearest_union, relocate,
}
use clsmith.Variables.Qualified.{is_volatile_after_deref, is_const_after_deref, level_or_type}
use clsmith.Types.Size.{is_volatile_struct_union, is_const_struct_union}
use clsmith.Facts.Unions.{is_nonreadable_field}
use clsmith.Effects.Partial.{is_written_partially, field_found, sibling_found}
use clsmith.Variables.Sets.{
  find_variable_in_set, find_from, is_variable_in_set, add_variables_to_set, add_variable_to_set,
}
use clsmith.Effects.{
  Effect, Block, empty_effect, copy, covers, is_constant, is_quiet, push, read_var,
}
use clsmith.Facts.PointTo.{is_related, null_ptr, merge_pointees_of_pointers, merge_pointees_from}
use clsmith.Contexts.{
  CgContext, Function, in_conflict, get_current_block, last_block, is_nonreadable, context_read_var,
}
use clsmith.Contexts.Checks.{Environment, Indices, Setting, check_read_var, read_indices, may_read}
use clsmith.Contexts.Pointed.{
  read_pointed, trace_pointers, is_bad, restore, check_pointees, check_pointee,
}
use clsmith.Facts.{find_related_fact}
use clsmith.Contexts.Scope.{find_variable_scope, undefined, depth_from, find_variable_scope_frames}
use clsmith.Contexts.Safe.{IsSafe, Follows-refl, IsSafeIndices}
use clsmith.Contexts.Guarded.{HasPlainCollectives}
use clsmith.Contexts.Steps.{nothing, by_read, Made-IsSafe}
use clsmith.Contexts.Restored.{pointed_restores}

abbrev options : CgOptions
options = record {
  match_exact_qualifiers = false;
  volatile_pointers = true;
  const_pointers = true;
  allow_const_volatile = true;
  strict_volatile_rule = true;
  union_read_type_sensitive = true;
  int_size = 4;
}

abbrev setting : Setting
setting = record {
  options = options;
  depth = 2;
  null_pointer_dereference_prob = 0;
  dead_pointer_dereference_prob = 0;
}

abbrev int_var : VarInfo
int_var = record {
  name = 108 ∷ 95 ∷ 52 ∷ [];
  type = some (simple int);
  is_access_once = false;
  is_array = false;
  qfer = of_levels (false ∷ []) (false ∷ []);
  collective = none;
  field_count = 0;
}

abbrev pointer_var : VarInfo
pointer_var = record int_var {
  type = some (pointer (simple int));
  qfer = of_levels (false ∷ false ∷ []) (false ∷ false ∷ []);
}

-- `named 5` is a pointer.
abbrev store : Store
store (named i) = if i == 5 then pointer_var else int_var
store (member p i) = int_var

store-HasPlainCollectives : HasPlainCollectives store
unfolding HasPlainCollectives
store-HasPlainCollectives i c h = elim (Bool-cases (c == 5)) [
  | inl t ↦ rw t refl
  | inr t ↦ rw t refl
]

-- No expression is needed where there is no array.
abbrev no_indices : Indices Unit
no_indices = record { get_indices = λ v. []; visit_facts = λ e facts c. (true, facts, c) }

no_indices-IsSafeIndices : IsSafeIndices store 2 no_indices
unfolding IsSafeIndices
no_indices-IsSafeIndices e facts c = Follows-refl store 2 c

abbrev around : Effect
around = record empty_effect { write_vars = named 8 ∷ []; pure = false; side_effect_free = false }

abbrev at_entry : CgContext
at_entry = record {
  current_func = none;
  blk_depth = 0;
  expr_depth = 0;
  flags = 0;
  call_chain = [];
  curr_blk = none;
  rw_directive = none;
  iv_bounds = [];
  effect_context = around;
  effect_accum = some empty_effect;
  effect_stm = empty_effect;
  atomic_context = false;
  emi_context = false;
}

at_entry-IsSafe : IsSafe store 2 at_entry
unfolding in_conflict
at_entry-IsSafe = record { stm = refl; accum = λ e q. rw (← some-injective empty_effect e q) refl }

abbrev facts : Environment
facts = record {
  points = record { var = named 5; point_to_vars = null_ptr ∷ [] } ∷ [];
  unions = [];
}

abbrev reads_local : Effect
reads_local = record empty_effect { read_vars = named 4 ∷ []; pure = false }

abbrev after_read : CgContext
after_read = record at_entry { effect_accum = some reads_local; effect_stm = reads_local }

local_is_read :
    check_read_var store no_indices setting (named 4) facts at_entry ≡ some (true, after_read)
unfolding check_read_var read_indices may_read is_nonreadable_field get_collective is_array_field
    is_nonreadable is_written_partially covers is_variable_in_set var_eq field_found sibling_found
    get_container_union nearest_union is_volatile_after_deref level_or_type level_after_deref
    context_read_var is_constant is_quiet push read_var relocate is_const_after_deref
    is_volatile_struct_union is_const_struct_union
local_is_read = refl

Made-IsSafe_example : IsSafe store 2 after_read
Made-IsSafe_example =
    Made-IsSafe store store-HasPlainCollectives setting no_indices no_indices-IsSafeIndices at_entry
      after_read (by_read (named 4) facts true after_read nothing local_is_read) at_entry-IsSafe

-- The pointer may point to the local variable, which is read, or to the one that is written around.
abbrev two_pointees : Environment
two_pointees = record {
  points = record { var = named 5; point_to_vars = named 4 ∷ named 8 ∷ [] } ∷ [];
  unions = [];
}

abbrev after_failure : CgContext
after_failure = record at_entry { effect_stm = reads_local }

pointed_is_not_read :
    read_pointed store no_indices setting (named 5) (pos 1) two_pointees at_entry
    ≡ some (false, after_failure)
unfolding read_pointed read_indices trace_pointers merge_pointees_of_pointers merge_pointees_from
    var_eq get_collective is_array_field find_related_fact is_related is_bad add_variables_to_set
    add_variable_to_set is_variable_in_set restore check_pointees check_pointee check_read_var
    may_read is_nonreadable_field is_nonreadable is_written_partially covers field_found
    sibling_found get_container_union nearest_union is_volatile_after_deref level_or_type
    level_after_deref context_read_var is_constant is_quiet push read_var relocate
    is_const_after_deref is_volatile_struct_union is_const_struct_union
pointed_is_not_read = refl

indices_are_read : (read_indices store no_indices (named 5) two_pointees at_entry).0 ≡ true
unfolding read_indices
indices_are_read = refl

pointed_restores_example : copy empty_effect ≡ copy empty_effect
pointed_restores_example =
    pointed_restores store setting no_indices (named 5) (pos 1) two_pointees at_entry after_failure
      empty_effect empty_effect refl indices_are_read (inl pointed_is_not_read) refl

abbrev body : Block
body = record { param = []; local_vars = (named 4 ∷ []) ∷ [] }

abbrev frame : Block
frame = record { param = []; local_vars = (named 6 ∷ []) ∷ [] }

abbrev called : Function
called = record { param = []; stack = body ∷ [] }

abbrev in_callee : CgContext
in_callee = record at_entry { current_func = some called; call_chain = frame ∷ [] }

not_global : is_global store (named 7) ≡ false
unfolding is_global
not_global = refl

current_block : get_current_block in_callee ≡ some body
unfolding get_current_block last_block
current_block = refl

not_in_body : depth_from store 1 body.local_vars (named 7) ≡ none
unfolding depth_from find_variable_in_set find_from matches_var var_eq
not_in_body = refl

not_in_frame : depth_from store 0 frame.local_vars (named 7) ≡ none
unfolding depth_from find_variable_in_set find_from matches_var var_eq
not_in_frame = refl

find_variable_scope_frames_example :
    (find_variable_scope store 9 in_callee (named 7) ≡ none)
    ⊎ (find_variable_scope store 9 in_callee (named 7) ≡ some undefined)
find_variable_scope_frames_example =
    find_variable_scope_frames store in_callee called body [] frame (named 7) 9 not_global refl refl
      current_block not_in_body refl not_in_frame (omega arith)
