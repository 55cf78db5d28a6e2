-- ===== src/Dfs/Cleared.antt =====
-- src/DFSRndNumGenerator.cpp: what the loops over the states from a position on leave as it is.
use clsmith.Prelude.{
  ℕ, ◌-◌, ◌≡◌, ◌<◌, refl, ap, ◌∙◌, true, false, ◌&&◌, some, List, ltb, leb, ◌==◌, length, arith,
  Bool-cases, inl, inr,
}
use clsmith.Dfs.{
  States, Generation, generate, eager_backtracking, need, clear_from, zero_from, zero_values,
}
use clsmith.Dfs.Paths.{is_in_reach}
use clsmith.Dfs.Trails.{Marked, Marked-same, paused}
use clsmith.Dfs.Search.{Unset}

module _ (max : ℕ) where
  zero_from-before : (n i : ℕ) (states : States) → i < n → zero_from max n states i ≡ states i
  zero_from-before n i states h = let before : leb n i ≡ false = ground (arith, h) in rw before refl

  init-zero_from : (n i : ℕ) (states : States) → (zero_from max n states i).init ≡ (states i).init
  init-zero_from n i states = elim (Bool-cases (leb n i && ltb i max)) [
    | inl e ↦ rw e refl
    | inr e ↦ rw e refl
  ]

  module _ (n v : ℕ) (states : States) where
    zero_values-cases :
        (P : States → Type 0)
        → P states
        → ((states' : States) → P states' → P (zero_from max n states'))
        → P (zero_values max n n v states)
    unfolding zero_values
    zero_values-cases P p step = elim (Bool-cases (v == 0)) [
      | inl e ↦ rw (zero_values, e) p
      | inr e ↦ elim (Bool-cases (v == 1)) [
        | inl e' ↦ rw (zero_values, e, e') (step states p)
        | inr e' ↦ rw (zero_values, e, e') (step (zero_from max n states) (step states p))
      ]
    ]

    pub Marked-zero_values :
        (pre : List ℕ)
        → n ≡ length pre
        → Marked 0 pre states
        → Marked 0 pre (zero_values max n n v states)
    unfolding zero_values
    Marked-zero_values pre len m = zero_values-cases (Marked 0 pre) m (λ st k.
        Marked-same 0 pre st (zero_from max n st)
          (λ i a b. zero_from-before n i st (omega (arith, len, b))) k)

    pub Unset-zero_values : Unset max n states → Unset max n (zero_values max n n v states)
    unfolding zero_values
    Unset-zero_values u =
        zero_values-cases (Unset max n) u (λ st k i a b. init-zero_from n i st ∙ k i a b)

  -- A program that needs more choices than are left.
  module _ (n depth_needed : ℕ) (next : Generation) (pre : List ℕ) (states : States) where
    eager_stop :
        is_in_reach max n depth_needed ≡ false
        → eager_backtracking max depth_needed (paused n n pre states)
          ≡ (true, paused n n pre (clear_from max n states))
    unfolding eager_backtracking
    eager_stop h =
        let late : leb n 1 ≡ false = ground (arith, h) in
        let few : leb depth_needed (max - (n - 1)) ≡ false = ground (arith, h, late) in
        let within : ltb n n ≡ false = ground arith in
        rw (eager_backtracking, late, few, within) refl

    pub generate-need_stop :
        is_in_reach max n depth_needed ≡ false
        → generate max (need depth_needed next) (paused n n pre states)
          ≡ some (false, paused n n pre (clear_from max n states))
    unfolding generate
    generate-need_stop h =
        ap (λ r. elim r.0 [ true ↦ some (false, r.1) | false ↦ generate max next r.1 ])
          (eager_stop h)

    pub Marked-clear_from :
        n ≡ length pre → Marked 0 pre states → Marked 0 pre (clear_from max n states)
    Marked-clear_from len m =
        Marked-same 0 pre states (clear_from max n states)
          (λ i a b. let before : leb n i ≡ false = ground (arith, len, b) in rw before refl) m

    pub Unset-clear_from : Unset max n (clear_from max n states)
    Unset-clear_from i a b =
        let after : leb n i ≡ true = ground (arith, a) in
        let inside : ltb i max ≡ true = ground (arith, b) in rw (after, inside) refl
