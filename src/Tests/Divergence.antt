-- ===== src/Tests/Divergence.antt =====
-- src/CLSmith/Divergence.cpp on two local variables and a pointer.
use clsmith.Prelude.{
  ℕ, ◌≡◌, refl, Bool, true, false, none, some, List, any, suc, [], ◌∷◌, if◌then◌else◌, arith, ◌↔◌,
  ◌⊎◌, ◌||◌, ◌&&◌, ◌==◌, zero,
}
use clsmith.Qualifiers.{of_levels}
use clsmith.Types.{simple, int, pointer}
use clsmith.Types.Conversion.{get_indirect_level}
use clsmith.Variables.{Variable, named, Store, VarInfo, var_eq}
use clsmith.Divergence.{
  number_key, variable_key, State, DivMap, at, find, is_found, pop_state, push_state, save_state,
  put,
}
use clsmith.Divergence.Maps.{TurnsTrue}
use clsmith.Divergence.Saved.{
  IsState, may_diverge, own_map, restored, became_divergent, pop_state-push_state,
}
use clsmith.Divergence.Expressions.{
  Expr, constant, variable, binary, e_and, e_or, is_ordered, address_of, assignment, comma,
  cl_expression, indirect_level,
}
use clsmith.Divergence.Threads.{
  num, addr, Memory, assign_to, target, Machine, eval, store, binary_step,
}
use clsmith.Divergence.Marking.{
  SubBlocks, mark_each, is_below, mark_sub_block_divergent_viral, Reaches,
  mark_sub_block_divergent_viral_lem,
}

abbrev x : Variable
x = named 4

abbrev y : Variable
y = named 5

abbrev p : Variable
p = named 6

abbrev local : (is_pointer : Bool) → VarInfo
local b = record {
  name = 108 ∷ 95 ∷ 52 ∷ [];
  type = some (if b then pointer (simple int) else simple int);
  is_access_once = false;
  is_array = false;
  qfer = of_levels (false ∷ []) (false ∷ []);
  collective = none;
  field_count = 0;
}

abbrev variables : Store
variables v = local (var_eq v p)

abbrev start : State
start = record {
  sub_block_div = (0, false) ∷ [];
  variable_div = [];
  divergent_value = false;
  var_derefs_to = λ _. [];
  return_derefs_to = [];
  sub_block = 0;
  divergent = false;
  global_var_div = [];
  global_var_derefs_to = λ _. [];
  saved_states = [];
}

abbrev machine : Machine
machine = record { unary_value = λ _ _. 0; binary_value = λ _ _ _. 1; shared_value = λ i. i }

-- `x = get_id(), p = &y, *p = (3 || x)`.
abbrev code : Expr
code = comma (assignment x 0 (cl_expression true 0)) (
    comma (assignment p 0 (address_of y))
      (assignment p 1 (binary e_or (constant 3) (variable x 0))))

abbrev zeros : Memory
zeros _ = num 0

abbrev after : ℕ → Memory
after i = assign_to (assign_to (assign_to zeros x (num i)) p (addr y)) y (num 1)

-- `(get_id() && (x = 5)), x`: the analysis calls the value convergent, but a thread that has the id 0
-- skips the assignment.
abbrev skipping : Expr
skipping = comma (binary e_and (cl_expression true 0) (assignment x 0 (constant 5))) (variable x 0)

skipping_differs :
    (eval variables machine (λ _. 0) skipping zeros ≡ some (num 0, zeros))
    × (eval variables machine (λ _. 1) skipping zeros ≡ some (num 5, assign_to zeros x (num 5)))
unfolding eval target store binary_step is_ordered var_eq indirect_level get_indirect_level
skipping_differs = (refl, refl)

-- A branch in which `x` becomes divergent.
abbrev branch : State
branch = record start {
  sub_block_div = (1, true) ∷ [];
  variable_div = (x, true) ∷ [];
  saved_states =
      record {
        function_owner = 0;
        statement = 7;
        sub_block_div = (0, false) ∷ [];
        variable_div = [];
        global_var_div = [];
      }
      ∷ [];
}

branch_follows : branch.saved_states ≡ (push_state 0 7 start).saved_states
unfolding push_state save_state
branch_follows = refl

branch-IsState : IsState branch
unfolding find
branch-IsState = record { blocks = (refl, tt); variables = (refl, tt); globals = tt }

pop_state-push_state_example :
    (pop_state 0 7 branch
      ≡ some (became_divergent variables 0 start branch, restored variables 0 start branch))
    × ((v : Variable)
        → may_diverge variables 0 (restored variables 0 start branch) v ≡ (
            may_diverge variables 0 branch v
            || (is_found (find (own_map variables 0 start v) v)
                && may_diverge variables 0 start v)))
    × ((became_divergent variables 0 start branch ≡ true) ↔ (
        ((b : ℕ) × TurnsTrue start.sub_block_div branch.sub_block_div b)
        ⊎ ((v : Variable) × TurnsTrue start.variable_div branch.variable_div v)
        ⊎ ((v : Variable) × TurnsTrue start.global_var_div branch.global_var_div v)))
pop_state-push_state_example =
    pop_state-push_state variables 0 7 start branch branch_follows branch-IsState

-- A sub-block that is followed by another, with a branch below each; the second branch is marked.
abbrev next_linked : ℕ → List ℕ
next_linked b = if b == 0 then 0 ∷ 1 ∷ [] else b ∷ []

abbrev branches_of : ℕ → List ℕ
branches_of b = if b == 0 then 2 ∷ [] else if b == 1 then 3 ∷ [] else []

abbrev four_blocks : SubBlocks
four_blocks = record { linked = next_linked; branches = branches_of }

abbrev all_four : List ℕ
all_four = 0 ∷ 1 ∷ 2 ∷ 3 ∷ []

all_four-closed :
    (b c : ℕ)
    → any (λ x. x == b) all_four ≡ true
    → is_below four_blocks b c ≡ true
    → any (λ x. x == c) all_four ≡ true
all_four-closed zero c i h = ground (arith, h)
all_four-closed (suc zero) c i h = ground (arith, h)
all_four-closed (suc (suc zero)) c i h = ground (arith, h)
all_four-closed (suc (suc (suc zero))) c i h = ground (arith, h)
all_four-closed (suc (suc (suc (suc b)))) c i h = absurd (ground (arith, i))

mark_sub_block_divergent_viral_run :
    mark_sub_block_divergent_viral four_blocks 5 0 ((3, true) ∷ [])
    ≡ some ((3, true) ∷ (0, true) ∷ (2, true) ∷ [])
unfolding mark_sub_block_divergent_viral mark_each put find
mark_sub_block_divergent_viral_run = refl

mark_sub_block_divergent_viral_lem_example :
    (m : DivMap ℕ) × (mark_sub_block_divergent_viral four_blocks 5 0 ((3, true) ∷ []) ≡ some m)
    × (at m 0 ≡ true)
    × ((c : ℕ) → at ((3, true) ∷ []) c ≡ true → at m c ≡ true)
    × ((c : ℕ)
        → at ((3, true) ∷ []) c ≡ false
        → at m c ≡ true
        → Reaches four_blocks 0 c × ((d : ℕ) → is_below four_blocks c d ≡ true → at m d ≡ true))
mark_sub_block_divergent_viral_lem_example =
    mark_sub_block_divergent_viral_lem four_blocks all_four all_four-closed 5 0 ((3, true) ∷ [])
      refl (omega arith)
