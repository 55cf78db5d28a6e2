-- ===== src/Tests/Unions.antt =====
-- src/FactUnion.cpp on a union of a pointer, an integer and a char.
use clsmith.Prelude.{
  ◌⊎◌, ◌≡◌, refl, ◌↔◌, Bool, inr, true, false, none, some, [], ◌∷◌, ◌==◌, if◌then◌else◌, pos,
}
use clsmith.Options.{CgOptions}
use clsmith.Qualifiers.{of_levels}
use clsmith.Types.{CType, simple, pointer, union, end, field, int, char}
use clsmith.Variables.{Variable, named, member, Store, VarInfo, var_eq}
use clsmith.Variables.{get_container_union, nearest_union}
use clsmith.Variables.Matching.{Inside}
use clsmith.Variables.Containers.{is_union_var, IsInnermostUnion, get_container_union_innermost}
use clsmith.Facts.{FactLaws, find_related_fact}
use clsmith.Facts.Unions.{
  FactUnion, top, equal, is_readable_as, is_related, imply, join, union_class, is_field_readable,
}
use clsmith.Facts.Fields.{union_join_upper_bound, union_laws}
use clsmith.Facts.Readable.{is_field_readable_iff, pointer_field_readable}

abbrev sensitive_options : CgOptions
sensitive_options = record {
  match_exact_qualifiers = false;
  volatile_pointers = true;
  const_pointers = true;
  allow_const_volatile = true;
  strict_volatile_rule = false;
  union_read_type_sensitive = true;
  int_size = 4;
}

abbrev flat_options : CgOptions
flat_options = record sensitive_options { union_read_type_sensitive = false }

abbrev mixed : CType
mixed = union 9 (
    field (pointer (simple int)) (of_levels (false ∷ false ∷ []) (false ∷ false ∷ [])) none (
      field (simple int) (of_levels (false ∷ []) (false ∷ [])) none
        (field (simple char) (of_levels (false ∷ []) (false ∷ [])) none end)))

abbrev info : CType → VarInfo
info t = record {
  name = 103 ∷ 95 ∷ 51 ∷ [];
  type = some t;
  is_access_once = false;
  is_array = false;
  qfer = of_levels (false ∷ []) (false ∷ []);
  collective = none;
  field_count = 3;
}

abbrev memory : Store
memory (named i) = info mixed
memory (member p i) =
    info (if i == 0 then pointer (simple int) else if i == 1 then simple int else simple char)

abbrev u : Variable
u = named 3

abbrev wrote_int : FactUnion
wrote_int = record { var = u; last_written_fid = pos 1 }

abbrev wrote_char : FactUnion
wrote_char = record { var = u; last_written_fid = pos 2 }

same_union : is_related wrote_int wrote_char ≡ true
unfolding is_related var_eq
same_union = refl

union_join_upper_bound_example :
    (h : FactUnion) × (c : Bool) × (join sensitive_options memory wrote_int wrote_char
      ≡ some (h, c))
    × (imply sensitive_options memory h wrote_int ≡ some true)
    × (imply sensitive_options memory h wrote_char ≡ some true)
    × ((c ≡ true) ↔ (imply sensitive_options memory wrote_int wrote_char ≡ some false))
union_join_upper_bound_example =
    union_join_upper_bound sensitive_options memory wrote_int wrote_char same_union
      (inr (simple int, refl)) (inr (simple char, refl))

-- The type NULL of a fact that says that no field was written is read.
top_is_read :
    imply sensitive_options memory (record { var = u; last_written_fid = top }) wrote_char ≡ none
unfolding imply is_related var_eq equal is_readable_as
top_is_read = refl

union_laws_example :
    ((f g : FactUnion)
      → imply flat_options memory f g ≡ some ((union_class flat_options memory).imply f g))
    × ((f g : FactUnion)
        → (c : Bool) × (join flat_options memory f g
            ≡ some ((union_class flat_options memory).join f g, c)))
    × FactLaws (union_class flat_options memory) (λ f. Unit)
union_laws_example = union_laws flat_options memory refl

is_field_readable_iff_example :
    (b : Bool) × (is_field_readable flat_options memory u 1 (wrote_int ∷ []) ≡ some b)
    × ((b ≡ true) ↔ (
        (f : FactUnion) × (find_related_fact
            (union_class flat_options memory)
            (wrote_int ∷ [])
            (record { var = u; last_written_fid = pos 1 })
          ≡ some f)
        × (f.last_written_fid ≡ pos 1)))
is_field_readable_iff_example = is_field_readable_iff flat_options memory refl u 1 (wrote_int ∷ [])

int_is_found :
    find_related_fact
      (union_class sensitive_options memory)
      (wrote_int ∷ [])
      (record { var = u; last_written_fid = pos 0 })
    ≡ some (record { var = u; last_written_fid = pos 1 })
unfolding find_related_fact is_related var_eq
int_is_found = refl

pointer_field_readable_example :
    is_field_readable sensitive_options memory u 0 (wrote_int ∷ []) ≡ some true
pointer_field_readable_example =
    pointer_field_readable sensitive_options memory u 0 1 (simple int) int (wrote_int ∷ []) refl
      refl refl refl int_is_found

get_container_union_innermost_example :
    ((w : Variable) × (get_container_union memory (member u 1) ≡ some w)
      × IsInnermostUnion memory (member u 1) w)
    ⊎ ((get_container_union memory (member u 1) ≡ none)
        × ((w : Variable) → Inside w (member u 1) → is_union_var memory w ≡ false))
get_container_union_innermost_example = get_container_union_innermost memory (member u 1) refl

field_is_in_its_union : get_container_union memory (member u 1) ≡ some u
unfolding get_container_union nearest_union
field_is_in_its_union = refl
