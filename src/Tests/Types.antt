-- ===== src/Tests/Types.antt =====
-- src/Type.cpp on simple types and pointers.
use clsmith.Prelude.{◌≡◌, refl, ◌≤◌, true}
use clsmith.Types.{short, int, long, uint, CType, simple, pointer}
use clsmith.Types.Size.{size_in_bytes}
use clsmith.Types.Conversion.{is_convertable, is_promotable}
use clsmith.Types.Convertible.{is_convertable_equivalence}
use clsmith.Types.Promotion.{is_promotable-size}

abbrev int_pointer : CType
int_pointer = pointer (simple int)

is_convertable_equivalence_example :
    (is_convertable int_pointer int_pointer ≡ true)
    × (is_convertable int_pointer (pointer (simple uint)) ≡ true
        → is_convertable (pointer (simple uint)) int_pointer ≡ true)
    × (is_convertable int_pointer (pointer (simple uint)) ≡ true
        → is_convertable (pointer (simple uint)) (pointer (simple short)) ≡ true
        → is_convertable int_pointer (pointer (simple short)) ≡ true)
is_convertable_equivalence_example =
    is_convertable_equivalence int_pointer (pointer (simple uint)) (pointer (simple short))

short_promotes : is_promotable (simple short) (simple long) ≡ true
unfolding is_promotable
short_promotes = refl

is_promotable-size_example :
    (size_in_bytes (simple short) ≤ size_in_bytes (simple long))
    × (is_convertable (simple short) (simple long) ≡ true)
is_promotable-size_example = is_promotable-size (simple short) (simple long) short_promotes
