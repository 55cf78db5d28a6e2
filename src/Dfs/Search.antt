-- ===== src/Dfs/Search.antt =====
-- src/DFSRndNumGenerator.cpp: a random choice at the last position that has a number.
use clsmith.Prelude.{
  ℕ, suc, ◌+◌, ◌-◌, ◌≡◌, ◌≤◌, ◌<◌, refl, sym, ap, ◌∙◌, Bool, true, false, Option, none, some, List,
  [], ◌∷◌, ◌++◌, ltb, leb, ◌==◌, length, arith, Bool-cases, inl, inr,
}
use clsmith.Dfs.{
  States, Generator, Generation, choose, generate, in_range, rnd_number, random_choice,
  switch_branch, first_visit, settle, next_valid, is_invalid, set_state, clear_from, zero_values,
  backtrack,
}
use clsmith.Dfs.Sequences.{numbered, add_next}
use clsmith.Dfs.Trails.{Marked, Marked-same, Marked-next, paused}

module _ (max : ℕ) where
  -- No number is chosen from a position on.
  abbrev pub Unset : ℕ → States → Type 0
  Unset n states = (i : ℕ) → n ≤ i → i < max → (states i).init ≡ false

  -- What a choice leads to.
  abbrev pub proceed : (ℕ → Generation) → Option ℕ × Generator → Option (Bool × Generator)
  proceed next r = elim r.0 [ none ↦ some (false, r.1) | some v ↦ generate max (next v) r.1 ]

  abbrev chosen_or_stopped :
      (ℕ → Generation) → Option (Option ℕ × Generator) → Option (Bool × Generator)
  chosen_or_stopped next o = elim o [
    | none ↦ none
    | some (number, g') ↦ elim number [
      | none ↦ some (false, g')
      | some v ↦ generate max (next v) g'
    ]
  ]

  module _ (n bound : ℕ) (filter : Option (ℕ → Bool)) (invalid_nums : List ℕ)
      (next : ℕ → Generation) (pre : List ℕ) (states : States) where
    abbrev asks : Generation
    asks = choose bound filter invalid_nums next

    pub choose_over :
        leb max n ≡ true
        → generate max asks (paused n n pre states) ≡ some (false, paused (suc n) n pre states)
    unfolding generate rnd_number random_choice
    choose_over h = rw (generate, rnd_number, random_choice, h) refl

    settle-in_range :
        (v : ℕ) (g : Generator)
        → in_range bound (some (settle max n bound v g)) ≡ some (settle max n bound v g)
    unfolding settle
    settle-in_range v g = elim (Bool-cases (leb bound v)) [
      | inl e ↦ rw (settle, e) refl
      | inr e ↦ rw (settle, e) (rw e refl)
    ]

    random_choice_first :
        leb max n ≡ false
        → (states n).init ≡ false
        → let v = next_valid (is_invalid filter invalid_nums) bound 0 in
          random_choice max bound filter invalid_nums (paused n n pre states)
          ≡ some (settle max n bound v (paused (suc n) (suc n) pre (zero_values max n n v states)))
    unfolding random_choice first_visit
    random_choice_first h i =
        let within : ltb max n ≡ false = ground (arith, h) in
        let outer : ltb (suc n) n ≡ false = ground arith in
        rw (random_choice, h, within, outer, i) refl

    pub choose_first :
        leb max n ≡ false
        → (states n).init ≡ false
        → let v = next_valid (is_invalid filter invalid_nums) bound 0 in
          generate max asks (paused n n pre states)
          ≡ proceed next
              (settle max n bound v (paused (suc n) (suc n) pre (zero_values max n n v states)))
    unfolding generate rnd_number
    choose_first h i =
        ap (chosen_or_stopped next)
          (ap (in_range bound) (random_choice_first h i) ∙ settle-in_range _ _)

    random_choice_next :
        (v : ℕ)
        → leb max n ≡ false
        → (states n).init ≡ true
        → (states n).value ≡ v
        → random_choice max bound filter invalid_nums (paused n (suc n) pre states)
          ≡ some (
              settle max n bound
                (next_valid (is_invalid filter invalid_nums) (bound - suc v) (suc v))
                (paused (suc n) (suc n) pre states))
    unfolding random_choice switch_branch
    random_choice_next v h i e =
        let within : ltb max (suc n) ≡ false = ground (arith, h) in
        let outer : ltb (suc n) (suc n) ≡ false = ground arith in
        rw (random_choice, h, within, outer, i, sym e) refl

    pub choose_next :
        (v : ℕ)
        → leb max n ≡ false
        → (states n).init ≡ true
        → (states n).value ≡ v
        → generate max asks (paused n (suc n) pre states)
          ≡ proceed next (
              settle max n bound
                (next_valid (is_invalid filter invalid_nums) (bound - suc v) (suc v))
                (paused (suc n) (suc n) pre states))
    unfolding generate rnd_number
    choose_next v h i e =
        ap (chosen_or_stopped next)
          (ap (in_range bound) (random_choice_next v h i e) ∙ settle-in_range _ _)

  -- The generator before the program is generated again.
  abbrev pub stopped : ℕ → States → Generator
  stopped n states = record {
    decision_depth = n;
    current_pos = 0;
    all_done = leb n 0;
    seq = [];
    states = states;
  }

  module _ (n bound : ℕ) (pre : List ℕ) (v : ℕ) (states : States) where
    abbrev pub with_number : States
    with_number = set_state n (record { init = true; value = v }) states

    pub settle_within :
        leb bound v ≡ false
        → n ≡ length pre
        → settle max n bound v (paused (suc n) (suc n) pre states)
          ≡ (some v, paused (suc n) (suc n) (pre ++ (v ∷ [])) with_number)
    unfolding settle
    settle_within h len = rw (settle, h) (rw (add_next n pre v len) refl)

    abbrev pub cleared : States
    cleared = clear_from max n with_number

    pub settle_over :
        leb bound v ≡ true
        → settle max n bound v (paused (suc n) (suc n) pre states)
          ≡ (none, record (stopped n cleared) { current_pos = suc n; seq = numbered 0 pre })
    unfolding settle backtrack
    settle_over h =
        let depth : suc n - 1 ≡ n = omega arith in
        let over : leb (suc n) 1 ≡ leb n 0 = ground arith in
        rw (settle, h, backtrack, depth, over) refl

    -- The numbers before the position stay.
    with_number-before : (i : ℕ) → i < n → with_number i ≡ states i
    with_number-before i h = let apart : (i == n) ≡ false = ground (arith, h) in rw apart refl

    cleared-before : (i : ℕ) → i < n → cleared i ≡ states i
    cleared-before i h =
        let apart : (i == n) ≡ false = ground (arith, h) in
        let before : leb n i ≡ false = ground (arith, h) in rw (before, apart) refl

    pub Marked-with_number :
        n ≡ length pre → Marked 0 pre states → Marked 0 (pre ++ (v ∷ [])) with_number
    Marked-with_number len m =
        let here : ((0 + length pre) == n) ≡ true = ground (arith, len) in
        Marked-next 0 pre v with_number
          (Marked-same 0 pre states with_number
            (λ i a b. with_number-before i (omega (arith, len, b))) m)
          (rw here refl) (rw here refl)

    pub Marked-cleared : n ≡ length pre → Marked 0 pre states → Marked 0 pre cleared
    Marked-cleared len m =
        Marked-same 0 pre states cleared (λ i a b. cleared-before i (omega (arith, len, b))) m

    pub Unset-with_number : Unset (suc n) states → Unset (suc n) with_number
    Unset-with_number u i a b =
        let apart : (i == n) ≡ false = ground (arith, a) in rw apart (u i a b)

    pub Unset-cleared : Unset n cleared
    Unset-cleared i a b =
        let after : leb n i ≡ true = ground (arith, a) in
        let inside : ltb i max ≡ true = ground (arith, b) in rw (after, inside) refl
