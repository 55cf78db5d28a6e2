-- ===== src/Divergence/Saved.antt =====
-- src/CLSmith/Divergence.cpp: what is known of a variable when the state is saved and restored.
use clsmith.Prelude.{
  ℕ, ◌≡◌, refl, ap, ◌∙◌, ◌↔◌, ◌⊎◌, inl, inr, Bool, true, false, ◌&&◌, ◌||◌, Option, none, some,
  List, if◌then◌else◌, ==_refl, Bool-cases, ||_elim, arith,
}
use clsmith.Variables.{Variable, Store, is_global}
use clsmith.Divergence.{
  number_key, variable_key, DivMap, find, is_set, is_found, merge_map, SavedState, State,
  search_saved, search_map, search_variable, restore_and_merge_saved_state, push_state, pop_from,
  pop_state,
}
use clsmith.Divergence.Maps.{IsMap, join, find-merge_map, change-merge_map, TurnsTrue}

or_iff :
    {x y : Bool} {A B : Type 0} → ((x ≡ true) ↔ A) → ((y ≡ true) ↔ B) → ((x || y) ≡ true) ↔ (A ⊎ B)
or_iff {x} {y} a b = (
  λ e. elim (||_elim {a = x} {b = y} e) [ inl p ↦ inl (a.0 p) | inr q ↦ inr (b.0 q) ],
  λ t. elim t [ inl p ↦ ground (arith, a.1 p) | inr q ↦ ground (arith, b.1 q) ],
)

-- `SearchMap` as a choice between the entry of a map and what lies below it.
unfoldable pub or_else : Option Bool → Option Bool → Option Bool
or_else none r = r
or_else (some b) r = some b

or_else_elim : (o r : Option Bool) → (elim o [ none ↦ r | some b ↦ some b ]) ≡ or_else o r
unfolding or_else
or_else_elim none r = refl
or_else_elim (some b) r = refl

is_set-restored :
    (o p r : Option Bool)
    → is_set (or_else (join o p) r)
      ≡ (is_set (or_else p (or_else o r)) || (is_found o && is_set (or_else o r)))
unfolding or_else
is_set-restored none none r = ground arith
is_set-restored none (some b) r = ground arith
is_set-restored (some a) none r = ground arith
is_set-restored (some a) (some b) r = ground arith

-- The three maps of the state have no key twice.
pub record IsState (st : State) : Type 0 where
  pub blocks : IsMap st.sub_block_div
  pub variables : IsMap st.variable_div
  pub globals : IsMap st.global_var_div

module _ (s : Store) (this : ℕ) where
  abbrev pub may_diverge : State → Variable → Bool
  may_diverge st v = is_set (search_variable s this st v)

  -- The map at the current level that has the variable.
  abbrev pub own_map : State → Variable → DivMap Variable
  own_map st v = if is_global s v then st.global_var_div else st.variable_div

  -- Saving the state changes nothing of what is known.
  pub search_variable-push_state :
      (statement : ℕ) (st : State) (v : Variable)
      → search_variable s this (push_state this statement st) v ≡ search_variable s this st v
  unfolding search_variable push_state search_map search_saved find
  search_variable-push_state statement st v = elim (Bool-cases (is_global s v)) [
    | inl g ↦ rw (search_variable, g) refl
    | inr g ↦ rw (search_variable, g, ==_refl this) refl
  ]

  unfoldable pub below_in : Bool → Variable → List SavedState → Option Bool
  below_in g v saved =
      search_saved this (if g then (λ t. t.global_var_div) else (λ t. t.variable_div)) v g saved

  abbrev pub below : State → Variable → Option Bool
  below st v = below_in (is_global s v) v st.saved_states

  -- A saved state of this function lies below the current one.
  below_in-save_state :
      (statement : ℕ) (st : State) (g : Bool) (v : Variable)
      → below_in g v (push_state this statement st).saved_states
        ≡ or_else
            (find (if g then st.global_var_div else st.variable_div) v)
            (below_in g v st.saved_states)
  unfolding below_in search_saved or_else push_state
  below_in-save_state statement st true v =
      or_else_elim (find st.global_var_div v) (below_in true v st.saved_states)
  below_in-save_state statement st false v =
      rw (below_in, ==_refl this) (or_else_elim (find st.variable_div v) _)

  pub search_variable_lem :
      (st : State) (v : Variable)
      → search_variable s this st v ≡ or_else (find (own_map st v) v) (below st v)
  unfolding search_variable search_map below_in or_else
  search_variable_lem st v = elim (Bool-cases (is_global s v)) [
    | inl g ↦ rw (search_variable, below_in, g) (or_else_elim (find st.global_var_div v) _)
    | inr g ↦ rw (search_variable, below_in, g) (or_else_elim (find st.variable_div v) _)
  ]

  abbrev pub restored : State → State → State
  restored st st1 = record st1 {
    sub_block_div = (merge_map st.sub_block_div st1.sub_block_div).0;
    variable_div = (merge_map st.variable_div st1.variable_div).0;
    global_var_div = (merge_map st.global_var_div st1.global_var_div).0;
    saved_states = st.saved_states;
  }

  abbrev pub became_divergent : State → State → Bool
  became_divergent st st1 =
      (merge_map st.sub_block_div st1.sub_block_div).1
      || ((merge_map st.variable_div st1.variable_div).1
          || (merge_map st.global_var_div st1.global_var_div).1)

  -- After a branch, which leaves the saved states as they were when it began.
  module _ (statement : ℕ) (st st1 : State)
      (same : st1.saved_states ≡ (push_state this statement st).saved_states) where
    pub pop_state_lem :
        pop_state this statement st1 ≡ some (became_divergent st st1, restored st st1)
    unfolding pop_state push_state restore_and_merge_saved_state
    pop_state_lem =
        ap (λ l. pop_from this statement l st1) same
        ∙ rw (pop_from, ==_refl this, ==_refl statement) refl

    find-restored :
        IsState st1
        → (v : Variable)
        → find (own_map (restored st st1) v) v
          ≡ join (find (own_map st v) v) (find (own_map st1 v) v)
    find-restored ok v = elim (Bool-cases (is_global s v)) [
      | inl g ↦ rw g (find-merge_map st.global_var_div st1.global_var_div v ok.globals)
      | inr g ↦ rw g (find-merge_map st.variable_div st1.variable_div v ok.variables)
    ]

    may_diverge-restored :
        IsState st1
        → (v : Variable)
        → may_diverge (restored st st1) v
          ≡ (may_diverge st1 v || (is_found (find (own_map st v) v) && may_diverge st v))
    may_diverge-restored ok v =
        rw
          (
            search_variable_lem (restored st st1) v,
            find-restored ok v,
            search_variable_lem st1 v,
            search_variable_lem st v,
            ap (below_in (is_global s v) v) same
                ∙ below_in-save_state statement st (is_global s v) v,
          )
          (is_set-restored (find (own_map st v) v) (find (own_map st1 v) v) (below st v))

    changed :
        IsState st1
        → (became_divergent st st1 ≡ true) ↔ (
            ((b : ℕ) × TurnsTrue st.sub_block_div st1.sub_block_div b)
            ⊎ ((v : Variable) × TurnsTrue st.variable_div st1.variable_div v)
            ⊎ ((v : Variable) × TurnsTrue st.global_var_div st1.global_var_div v))
    changed ok =
        let b = change-merge_map st.sub_block_div st1.sub_block_div ok.blocks in
        let v = change-merge_map st.variable_div st1.variable_div ok.variables in
        let g = change-merge_map st.global_var_div st1.global_var_div ok.globals in
        or_iff b (or_iff v g)

    -- At the end of a branch that leaves the saved states as they were when it began, the state that
    -- was saved is restored and nothing is refused. A variable may diverge from then on if it may at
    -- the end of the branch, or if it may before the branch by an entry that the innermost saved state
    -- itself has; what only states further out say is lost where the branch has an entry. The flag is
    -- true exactly when some entry of the saved state for a sub-block, a local or a global variable
    -- became true.
    pub pop_state-push_state :
        IsState st1
        → (pop_state this statement st1 ≡ some (became_divergent st st1, restored st st1))
          × ((v : Variable)
              → may_diverge (restored st st1) v
                ≡ (may_diverge st1 v || (is_found (find (own_map st v) v) && may_diverge st v)))
          × ((became_divergent st st1 ≡ true) ↔ (
              ((b : ℕ) × TurnsTrue st.sub_block_div st1.sub_block_div b)
              ⊎ ((v : Variable) × TurnsTrue st.variable_div st1.variable_div v)
              ⊎ ((v : Variable) × TurnsTrue st.global_var_div st1.global_var_div v)))
    pop_state-push_state ok = (pop_state_lem, may_diverge-restored ok, changed ok)
