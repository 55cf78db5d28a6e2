-- ===== src/Tests/Effects.antt =====
-- src/Effect.cpp on a global struct with two fields and a local integer.
use clsmith.Prelude.{
  ◌+◌, ◌++◌, ◌≡◌, refl, ◌↔◌, ◌⊎◌, ◌&&◌, ◌||◌, true, false, none, some, [], ◌∷◌, ◌==◌, if◌then◌else◌,
}
use clsmith.Qualifiers.{of_levels}
use clsmith.Types.{simple, int, struct, union, end, field, CType}
use clsmith.Variables.{
  Variable, named, member, Store, VarInfo, var_eq, matches_var, has_field_var, is_reached,
}
use clsmith.Variables.Sets.{is_variable_in_set}
use clsmith.Effects.{
  Effect, Block, empty_effect, covers, drop_covered, through_struct, through_all, is_read,
  is_written, read_var, write_var, add_effect, add_external_effect, consolidate, has_race_with,
  non_empty_intersection,
}
use clsmith.Effects.Addition.{
  add_effect_union, add_external_effect_filter, external_vars, all_constant, no_variable,
}
use clsmith.Effects.Flags.{IsSound}
use clsmith.Effects.Built.{from_empty, by_read, by_write, by_add, by_consolidate, Built-IsSound}
use clsmith.Effects.Races.{IsTypedEffect, Overlap, has_race_with_iff}
use clsmith.Effects.Names.{dot, is_read_name, is_written_name}
use clsmith.Effects.Naming.{is_read_name_complete}
use clsmith.Effects.Partial.{field_is_read, field_is_written}
use clsmith.Effects.Nested.{Nested, field_is_read_iff}
use clsmith.Effects.Consolidation.{consolidate_coverage, consolidate-union_field}

abbrev int_var : VarInfo
int_var = record {
  name = 108 ∷ 95 ∷ 52 ∷ [];
  type = some (simple int);
  is_access_once = false;
  is_array = false;
  qfer = of_levels (false ∷ []) (false ∷ []);
  collective = none;
  field_count = 0;
}

abbrev pair_type : CType
pair_type = struct 7 false (
    field (simple int) (of_levels (false ∷ []) (false ∷ [])) none
      (field (simple int) (of_levels (false ∷ []) (false ∷ [])) none end))

-- `g_3`, of the struct type.
abbrev pair_var : VarInfo
pair_var = record int_var { name = 103 ∷ 95 ∷ 51 ∷ []; type = some pair_type; field_count = 2 }

abbrev store : Store
store (named i) = if i == 3 then pair_var else int_var
store (member p i) = int_var

abbrev pair : Variable
pair = named 3

abbrev first : Variable
first = member pair 0

abbrev second : Variable
second = member pair 1

abbrev local : Variable
local = named 4

abbrev reads_first : Effect
reads_first = record empty_effect { read_vars = first ∷ local ∷ []; pure = false }

abbrev writes_pair : Effect
writes_pair = record empty_effect { write_vars = first ∷ pair ∷ []; pure = false }

add_effect_union_example :
    (is_read store (add_effect store reads_first writes_pair true) second
      ≡ (is_read store reads_first second || is_read store writes_pair second))
    × (is_written (add_effect store reads_first writes_pair true) second
        ≡ (is_written reads_first second || is_written writes_pair second))
add_effect_union_example = add_effect_union store reads_first writes_pair true second

abbrev caller : Block
caller = record { param = []; local_vars = (local ∷ []) ∷ [] }

add_external_effect_filter_example :
    (is_read store (add_external_effect store writes_pair reads_first (caller ∷ [])) local ≡ (
      is_read store writes_pair local
      || covers
          (through_struct store)
          (external_vars store (caller ∷ []) reads_first.read_vars)
          local))
    × (is_written (add_external_effect store writes_pair reads_first (caller ∷ [])) local ≡ (
        is_written writes_pair local
        || covers through_all (external_vars store (caller ∷ []) reads_first.write_vars) local))
    × ((add_external_effect store writes_pair reads_first (caller ∷ [])).pure ≡ (
        writes_pair.pure
        && all_constant store (external_vars store (caller ∷ []) reads_first.read_vars)
        && no_variable (external_vars store (caller ∷ []) reads_first.write_vars)))
add_external_effect_filter_example =
    add_external_effect_filter store writes_pair reads_first (caller ∷ []) local

abbrev statement_effect : Effect
statement_effect = consolidate store (
    add_effect store (read_var store empty_effect first) (write_var store empty_effect local) false)

Built-IsSound_example : IsSound store statement_effect
Built-IsSound_example =
    Built-IsSound store statement_effect
      (by_consolidate (by_add false (by_read first from_empty) (by_write local from_empty)))

reads_first_typed : IsTypedEffect store reads_first
reads_first_typed = (((refl, refl, refl), (refl, tt)), tt)

writes_pair_typed : IsTypedEffect store writes_pair
writes_pair_typed = (tt, ((refl, refl, refl), (refl, tt)))

has_race_with_iff_example : (has_race_with store reads_first writes_pair ≡ true) ↔ (
    Overlap reads_first.read_vars writes_pair.write_vars
    ⊎ Overlap reads_first.write_vars writes_pair.read_vars
    ⊎ Overlap reads_first.write_vars writes_pair.write_vars)
has_race_with_iff_example =
    has_race_with_iff store reads_first writes_pair reads_first_typed writes_pair_typed

-- A struct and its second field are read, and a local.
abbrev reads_pair : Effect
reads_pair = record empty_effect {
  read_vars = pair ∷ second ∷ local ∷ [];
  write_vars = first ∷ pair ∷ [];
  pure = false;
}

consolidate_coverage_example :
    (is_written (consolidate store reads_pair) second ≡ is_written reads_pair second)
    × (is_read store (consolidate store reads_pair) second ≡ is_read store reads_pair second)
consolidate_coverage_example = consolidate_coverage store reads_pair second (tt, (refl, (tt, tt)))

read_field_is_dropped : (consolidate store reads_pair).read_vars ≡ pair ∷ local ∷ []
unfolding consolidate drop_covered covers is_variable_in_set var_eq
read_field_is_dropped = refl

-- `g_5`, a union, with a field that is read.
abbrev union_store : Store
union_store (named i) = record pair_var {
  type = some (union 8 (field (simple int) (of_levels (false ∷ []) (false ∷ [])) none end));
  field_count = 1;
}
union_store (member p i) = int_var

abbrev reads_union : Effect
reads_union = record empty_effect { read_vars = named 5 ∷ member (named 5) 0 ∷ []; pure = false }

union_is_read : is_variable_in_set reads_union.read_vars (named 5) ≡ true
unfolding is_variable_in_set var_eq
union_is_read = refl

consolidate-union_field_example :
    (is_read union_store (consolidate union_store reads_union) (named 5) ≡ true)
    × (is_read union_store (consolidate union_store reads_union) (member (named 5) 0) ≡ false)
consolidate-union_field_example =
    consolidate-union_field union_store reads_union 5 0 refl union_is_read

field_is_dropped : (consolidate store writes_pair).write_vars ≡ pair ∷ []
unfolding consolidate drop_covered covers is_variable_in_set var_eq
field_is_dropped = refl

struct_races_with_its_field : has_race_with store reads_first writes_pair ≡ true
unfolding has_race_with non_empty_intersection matches_var has_field_var is_reached var_eq
struct_races_with_its_field = refl

abbrev field_names : (s : Store) → Store
field_names s (named i) = s (named i)
field_names s (member p i) = record (s (member p i)) {
  name = (s p).name ++ (dot ∷ 102 ∷ (48 + i) ∷ []);
}

is_read_name_complete_example :
    (is_read (field_names store) reads_first first ≡ true
      → is_read_name (field_names store) reads_first ((field_names store first).name) ≡ true)
    × (is_written reads_first first ≡ true
        → is_written_name (field_names store) reads_first ((field_names store first).name) ≡ true)
is_read_name_complete_example =
    is_read_name_complete (field_names store) reads_first first ((102 ∷ 48 ∷ [], refl), tt)

field_is_read_iff_example :
    ((field_is_read store 1 reads_first pair ≡ true)
      ↔ ((w : Variable) × Nested store pair w × (is_read store reads_first w ≡ true)))
    × ((field_is_written store 1 reads_first pair ≡ true)
        ↔ ((w : Variable) × Nested store pair w × (is_written reads_first w ≡ true)))
field_is_read_iff_example = field_is_read_iff store 1 reads_first pair (λ i l. refl)
