-- ===== src/Divergence.antt =====
-- src/CLSmith/Divergence.h, src/CLSmith/Divergence.cpp: the state of the divergence analysis. It marks
-- what may differ between the threads of a kernel. The members of the `FunctionDivergence` that is
-- being processed and those of its `Divergence` are one record; a function, a statement and a
-- sub-block are numbers. A `std::map` to `bool` is a list of pairs, since maps are merged key by key.
pub mod Maps
pub mod Saved
pub mod Expressions
pub mod Updates
pub mod Threads
pub mod Targets
pub mod Defined
pub mod Total
pub mod Convergent
pub mod Yields
pub mod Values
pub mod Assignments
pub mod Steps
pub mod Sound
pub mod Operands
pub mod Marking
pub mod Assigned
pub mod Ensures
use clsmith.Prelude.{
  ◌≡◌, ==_refl, ==_iff, ℕ, Bool, true, false, not, ◌&&◌, ◌||◌, Option, none, some, List, [], ◌∷◌,
  ◌==◌, if◌then◌else◌,
}
use clsmith.Variables.{Variable, VarInfo, Store, var_eq, is_global}
use clsmith.Variables.Membership.{var_eq_refl, var_eq_sound}
use clsmith.Variables.Sets.{add_variables_to_set}

-- The equality of the pointers that are the keys of a map.
pub record Key (K : Type 0) : Type 0 where
  pub eq : K → K → Bool
  pub eq_refl : (k : K) → eq k k ≡ true
  pub eq_sound : (j k : K) → eq j k ≡ true → j ≡ k

instance abbrev pub number_key : Key ℕ
number_key = record { eq = ◌==◌; eq_refl = ==_refl; eq_sound = λ a b h. (==_iff a b).0 h }

instance abbrev pub variable_key : Key Variable
variable_key = record { eq = var_eq; eq_refl = var_eq_refl; eq_sound = var_eq_sound }

abbrev pub is_set : Option Bool → Bool
is_set none = false
is_set (some b) = b

abbrev pub DivMap : Type 0 → Type 0
DivMap K = List (K × Bool)

module _ {K : Type 0} ⦃key : Key K⦄ where
  -- `m.find(k)`.
  unfoldable pub find : DivMap K → K → Option Bool
  find [] k = none
  find ((j, b) ∷ m) k = if key.eq j k then some b else find m k

  -- `m[k] = b`.
  unfoldable pub put : DivMap K → K → Bool → DivMap K
  put [] k b = (k, b) ∷ []
  put ((j, c) ∷ m) k b = if key.eq j k then (j, b) ∷ m else (j, c) ∷ put m k b

  -- `m[k]` where a new entry is false.
  abbrev pub at : DivMap K → K → Bool
  at m k = is_set (find m k)

  -- `MergeMap`: the saved map after the merge, and whether an entry became true.
  unfoldable pub merge_map : DivMap K → DivMap K → DivMap K × Bool
  merge_map saved [] = (saved, false)
  merge_map saved ((k, b) ∷ merger) =
      let d = at saved k in
      let (saved', change) = merge_map (put saved k (d || b)) merger in
      (saved', (not d && b) || change)

-- The states of the maps when a statement was reached, and the function that saved them.
pub record SavedState : Type 0 where
  pub function_owner : ℕ
  pub statement : ℕ
  pub sub_block_div : DivMap ℕ
  pub variable_div : DivMap Variable
  pub global_var_div : DivMap Variable

pub record State : Type 0 where
  pub sub_block_div : DivMap ℕ
  pub variable_div : DivMap Variable
  pub divergent_value : Bool
  pub var_derefs_to : Variable → List Variable
  pub return_derefs_to : List Variable
  pub sub_block : ℕ
  pub divergent : Bool
  pub global_var_div : DivMap Variable
  pub global_var_derefs_to : Variable → List Variable
  -- The back of the vector is the head.
  pub saved_states : List SavedState

-- An assertion that fails is `none`.
abbrev pub M : Type 0 → Type 0
M A = State → Option (A × State)

infixl 5 ◌>>=◌ ◌>>◌
abbrev pub ◌>>=◌ : {A B : Type 0} → M A → (A → M B) → M B
◌>>=◌ m f st = elim (m st) [ none ↦ none | some (a, st') ↦ f a st' ]

abbrev pub ◌>>◌ : {A B : Type 0} → M A → M B → M B
m >> k = m >>= λ _. k

abbrev pub pure : {A : Type 0} → A → M A
pure a st = some (a, st)

module _ {K : Type 0} ⦃key : Key K⦄ (this : ℕ) where
  -- The loop of `SearchMap` over the saved states: the entry, or `none` where there is none.
  unfoldable pub search_saved : (SavedState → DivMap K) → K → Bool → List SavedState → Option Bool
  search_saved save_map item is_global [] = none
  search_saved save_map item is_global (s ∷ saved) =
      let rest = search_saved save_map item is_global saved in
      if not is_global && not (s.function_owner == this)
      then rest
      else elim (find (save_map s) item) [ none ↦ rest | some b ↦ some b ]

  -- `SearchMap`, whose `*found_entry` is whether the result is not `none`.
  unfoldable pub search_map :
      DivMap K → (SavedState → DivMap K) → K → Bool → List SavedState → Option Bool
  search_map mapping save_map item is_global saved = elim (find mapping item) [
    | none ↦ search_saved save_map item is_global saved
    | some b ↦ some b
  ]

abbrev pub is_found : Option Bool → Bool
is_found none = false
is_found (some _) = true

module _ (s : Store) (this : ℕ) where
  unfoldable pub search_variable : State → Variable → Option Bool
  search_variable st v =
      if is_global s v
      then search_map this st.global_var_div (λ t. t.global_var_div) v true st.saved_states
      else search_map this st.variable_div (λ t. t.variable_div) v false st.saved_states

  -- An array must have an entry.
  unfoldable pub is_variable_divergent : Variable → M Bool
  is_variable_divergent v st =
      let d = search_variable st v in
      if (s v).is_array && not (is_found d) then none else some (is_set d, st)

  unfoldable pub is_sub_block_divergent : State → ℕ → Bool
  is_sub_block_divergent st b =
      is_set (search_map this st.sub_block_div (λ t. t.sub_block_div) b false st.saved_states)

abbrev pub insert_at :
    Variable → List Variable → (Variable → List Variable) → Variable → List Variable
insert_at v refs m w = if var_eq v w then (add_variables_to_set (m w) refs).0 else m w

module _ (s : Store) where
  unfoldable pub set_variable_divergence : Variable → Bool → State → State
  set_variable_divergence v b st =
      if is_global s v
      then record st { global_var_div = put st.global_var_div v b }
      else record st { variable_div = put st.variable_div v b }

  -- What `v` may point to.
  unfoldable pub derefs_to : State → Variable → List Variable
  derefs_to st v = if is_global s v then st.global_var_derefs_to v else st.var_derefs_to v

  unfoldable pub insert_derefs : Variable → List Variable → State → State
  insert_derefs v refs st =
      if is_global s v
      then record st { global_var_derefs_to = insert_at v refs st.global_var_derefs_to }
      else record st { var_derefs_to = insert_at v refs st.var_derefs_to }

-- `SaveState`: the maps are moved into the saved state, and start empty.
unfoldable pub save_state : ℕ → ℕ → State → SavedState × State
save_state this statement st = (
  record {
    function_owner = this;
    statement = statement;
    sub_block_div = st.sub_block_div;
    variable_div = st.variable_div;
    global_var_div = st.global_var_div;
  },
  record st { sub_block_div = []; variable_div = []; global_var_div = [] },
)

-- `RestoreAndMergeSavedState`: whether something became divergent, and the new state.
unfoldable pub restore_and_merge_saved_state : SavedState → State → Bool × State
restore_and_merge_saved_state saved st =
    let (blocks, b) = merge_map saved.sub_block_div st.sub_block_div in
    let (vars, v) = merge_map saved.variable_div st.variable_div in
    let (globals, g) = merge_map saved.global_var_div st.global_var_div in
    (
      b || (v || g),
      record st { sub_block_div = blocks; variable_div = vars; global_var_div = globals },
    )

-- `saved_states_.emplace_back(SaveState(statement))`.
unfoldable pub push_state : ℕ → ℕ → State → State
unfolding save_state
push_state this statement st =
    let (saved, st') = save_state this statement st in
    record st' { saved_states = saved ∷ st.saved_states }

-- The state at the back, which this statement must have saved, is restored and popped off. The
-- result is whether something became divergent.
unfoldable pub pop_from : ℕ → ℕ → List SavedState → M Bool
unfolding restore_and_merge_saved_state
pop_from this statement [] st = none
pop_from this statement (saved ∷ rest) st =
    if saved.function_owner == this && saved.statement == statement
    then (let (change, st') = restore_and_merge_saved_state saved st in
        some (change, record st' { saved_states = rest }))
    else none

unfoldable pub pop_state : ℕ → ℕ → M Bool
unfolding pop_from
pop_state this statement st = pop_from this statement st.saved_states st
