-- ===== src/Effects/Partial.antt =====
-- src/Effect.cpp: effects on a part of an aggregate.
use clsmith.Prelude.{ℕ, zero, suc, Bool, false, ◌&&◌, ◌||◌, List, any}
use clsmith.Variables.{
  Variable, Store, field_vars, is_aggregate_var, get_collective, get_container_union, same_address,
  is_inside_union_field,
}
use clsmith.Effects.{Effect, is_read, is_written}

-- The recursion of `field_is_read` and `field_is_written`. Its fuel is the depth to which structs
-- and unions are nested in each other.
unfoldable pub field_found : Store → (Variable → Bool) → ℕ → Variable → Bool
field_found s p zero v = false
field_found s p (suc n) v =
    is_aggregate_var s v && any (λ f. p f || field_found s p n f) (field_vars s v)

abbrev pub field_is_read : Store → ℕ → Effect → Variable → Bool
field_is_read s n e v = field_found s (is_read s e) n v

abbrev pub field_is_written : Store → ℕ → Effect → Variable → Bool
field_is_written s n e v = field_found s (is_written e) n v

-- `sibling_union_field_is_read` and `sibling_union_field_is_written` on a vector.
unfoldable pub sibling_found : Store → List Variable → Variable → Bool
sibling_found s vs v =
    let you = get_container_union s (get_collective s v) in
    any (λ w. same_address you (get_container_union s (get_collective s w))) vs

abbrev pub sibling_union_field_is_read : Store → Effect → Variable → Bool
sibling_union_field_is_read s e v = sibling_found s e.read_vars v

abbrev pub sibling_union_field_is_written : Store → Effect → Variable → Bool
sibling_union_field_is_written s e v = sibling_found s e.write_vars v

unfoldable pub is_read_partially : Store → ℕ → Effect → Variable → Bool
is_read_partially s n e v =
    is_read s e v || field_is_read s n e v || sibling_union_field_is_read s e v

unfoldable pub is_written_partially : Store → ℕ → Effect → Variable → Bool
is_written_partially s n e v =
    is_written e v || field_is_written s n e v || sibling_union_field_is_written s e v

unfoldable pub union_field_is_read : Store → Effect → Bool
union_field_is_read s e = any (is_inside_union_field s) e.read_vars
