-- ===== src/Variables.antt =====
-- src/Variable.h, src/Variable.cpp: variables and their fields. A `const Variable*` is the address
-- of a variable that was created by itself (`named`) or by `create_field_vars` of its parent, which
-- is the only code that sets `field_var_of`: so `member p i` is `p->field_vars[i]`, and
-- `field_var_of` is its first component. The members that a variable object holds are in a store.
pub mod Sets
pub mod Qualified
pub mod Membership
pub mod Union
pub mod Removal
pub mod Matching
pub mod Containers
use clsmith.Prelude.{
  ℕ, zero, suc, ◌+◌, Bool, true, false, not, ◌&&◌, ◌||◌, Option, some, none, List, [], ◌∷◌, map,
  ◌==◌, if◌then◌else◌, any, ℤ, pos, negsuc,
}
use clsmith.Options.{CgOptions}
use clsmith.Qualifiers.{CvQualifiers, level_after_deref}
use clsmith.Types.{CType, is_aggregate, is_union, is_struct, is_pointer, ptr_type}
use clsmith.Types.Size.{is_const_struct_union, is_volatile_struct_union}

pub data Variable : Type 0 where
  named : (id : ℕ) → Variable
  member : (parent : Variable) → (index : ℕ) → Variable

-- `this == v`.
unfoldable pub var_eq : Variable → Variable → Bool
var_eq (named i) (named j) = i == j
var_eq (member p i) (member q j) = var_eq p q && i == j
var_eq _ _ = false

pub record VarInfo : Type 0 where
  pub name : List ℕ
  -- `none` for the NULL type of a special variable such as `null_ptr`.
  pub type : Option CType
  pub is_access_once : Bool
  pub is_array : Bool
  pub qfer : CvQualifiers
  -- The collective array of an itemized array variable.
  pub collective : Option ℕ
  -- `field_vars.size()`.
  pub field_count : ℕ

abbrev pub Store : Type 0
Store = Variable → VarInfo

abbrev pub field_var_of : Variable → Option Variable
field_var_of (named _) = none
field_var_of (member p _) = some p

abbrev pub is_field_var : Variable → Bool
is_field_var (named _) = false
is_field_var (member _ _) = true

abbrev pub indices_below : ℕ → List ℕ
indices_below zero = []
indices_below (suc n) = zero ∷ map suc (indices_below n)

abbrev pub field_vars : Store → Variable → List Variable
field_vars s v = map (member v) (indices_below ((s v).field_count))

abbrev pub type_holds : (CType → Bool) → Option CType → Bool
type_holds p none = false
type_holds p (some t) = p t

-- `Variable::is_aggregate` and `Variable::is_pointer`.
abbrev pub is_aggregate_var : Store → Variable → Bool
is_aggregate_var s v = type_holds is_aggregate ((s v).type)

abbrev pub is_pointer_var : Store → Variable → Bool
is_pointer_var s v = type_holds is_pointer ((s v).type)

abbrev pub has_type : Option CType → Bool
has_type none = false
has_type (some _) = true

-- `name.find(prefix) == 0`.
abbrev pub starts_with : List ℕ → List ℕ → Bool
starts_with [] name = true
starts_with (c ∷ cs) [] = false
starts_with (c ∷ cs) (d ∷ ds) = c == d && starts_with cs ds

-- "g_" and "l_".
abbrev pub global_prefix : List ℕ
global_prefix = 103 ∷ 95 ∷ []

abbrev pub local_prefix : List ℕ
local_prefix = 108 ∷ 95 ∷ []

unfoldable pub is_global : Store → Variable → Bool
is_global s (named i) = starts_with global_prefix ((s (named i)).name)
is_global s (member p i) = is_global s p

unfoldable pub is_local : Store → Variable → Bool
is_local s v = starts_with local_prefix ((s v).name)

-- The walk of `has_field_var` from a variable up its parents.
unfoldable pub is_reached : Variable → Variable → Bool
is_reached v (named j) = var_eq (named j) v
is_reached v (member p j) = var_eq (member p j) v || is_reached v p

unfoldable pub has_field_var : Store → Variable → Variable → Bool
has_field_var s v w = is_aggregate_var s v && is_reached v w

-- `Variable::match`.
unfoldable pub matches_var : Store → Variable → Variable → Bool
matches_var s v w =
    if is_aggregate_var s v && has_type ((s w).type)
    then var_eq v w || has_field_var s v w
    else var_eq v w

unfoldable pub get_top_container : Variable → Variable
get_top_container (named i) = named i
get_top_container (member p i) = get_top_container p

unfoldable pub is_array_field : Store → Variable → Bool
is_array_field s (named i) = (s (named i)).is_array
is_array_field s (member p i) = is_array_field s p

-- `collective == 0` for an array, or for the array that a field is in.
unfoldable pub is_virtual : Store → Variable → Bool
is_virtual s (named i) =
    (s (named i)).is_array && elim ((s (named i)).collective) [ none ↦ true | some _ ↦ false ]
is_virtual s (member p i) = is_virtual s p

-- The variable at the same path of field ids under the collective array, which `get_collective`
-- reads off the name after its last bracket.
unfoldable pub relocate : Store → Variable → Variable
relocate s (named i) = elim ((s (named i)).collective) [ none ↦ named i | some c ↦ named c ]
relocate s (member p i) = member (relocate s p) i

-- `get_collective` of a variable and of an `ArrayVariable`.
unfoldable pub get_collective : Store → Variable → Variable
get_collective s v = if is_array_field s v then relocate s v else v

unfoldable pub get_named_var : Store → Variable → Variable
get_named_var s v = get_collective s (get_top_container v)

-- The loop of `get_container_union`.
unfoldable pub nearest_union : Store → Variable → Option Variable
nearest_union s (named i) =
    if type_holds is_union ((s (named i)).type) then some (named i) else none
nearest_union s (member p i) =
    let rest = nearest_union s p in
    if type_holds is_union ((s (member p i)).type) then some (member p i) else rest

unfoldable pub get_container_union : Store → Variable → Option Variable
get_container_union s v = if has_type ((s v).type) then nearest_union s v else none

abbrev pub same_address : Option Variable → Option Variable → Bool
same_address (some v) (some w) = var_eq v w
same_address _ _ = false

unfoldable pub loose_match : Store → Variable → Variable → Bool
loose_match s v w =
    let me = get_collective s v in
    let you = get_collective s w in
    matches_var s me you || same_address (get_container_union s you) (get_container_union s me)

unfoldable pub is_union_field : Store → Variable → Bool
is_union_field s (named _) = false
is_union_field s (member p _) = type_holds is_union ((s p).type)

unfoldable pub is_inside_union_field : Store → Variable → Bool
is_inside_union_field s (named _) = false
is_inside_union_field s (member p i) = is_union_field s (member p i) || is_inside_union_field s p

-- The id of a field in its parent; `negsuc 0` is the -1 of a variable that is no field.
unfoldable pub get_field_id : Variable → ℤ
get_field_id (named _) = negsuc 0
get_field_id (member _ i) = pos i
