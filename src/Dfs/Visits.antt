-- ===== src/Dfs/Visits.antt =====
-- src/DFSProgramGenerator.cpp: what the loop outputs from a generation on.
use clsmith.Prelude.{
  ℕ, suc, ◌+◌, ◌≡◌, ◌≤◌, ◌<◌, ◌⊎◌, refl, sym, Bool, true, false, Option, List, [], ◌∷◌, ◌++◌, leb,
  length, length-append, arith, Bool-cases, inl, inr,
}
use mathlib.Core.Path.{subst}
use clsmith.Dfs.{
  States, Generator, Generation, finished, choose, need, generate, next_valid, is_invalid,
  zero_values, reset_state, clear_from, new_generator,
}
use clsmith.Dfs.Rounds.{Visited, Visited-failed, Visited-finished, search}
use clsmith.Dfs.Paths.{paths, rounds, chooses, is_in_reach}
use clsmith.Dfs.Trails.{Marked, paused, Leads, here, Leads-choose, Leads-need, generate-need}
use clsmith.Dfs.Search.{Unset, choose_over, choose_first, stopped}
use clsmith.Dfs.Cleared.{
  Marked-zero_values, Unset-zero_values, generate-need_stop, Marked-clear_from, Unset-clear_from,
}

module _ (max : ℕ) (p : Generation) where
  moved_run :
      (pre : List ℕ) (n count : ℕ) (xs : List (List ℕ)) (r r' : Option (Bool × Generator))
      → r ≡ r'
      → Visited max p pre n count xs r'
      → Visited max p pre n count xs r
  moved_run pre n count xs r r' e t = subst (Visited max p pre n count xs) (sym e) t

  -- From a position on that was not reached yet, all paths are visited.
  visits :
      0 < max
      → (q : Generation) (pre : List ℕ) (n : ℕ) (states : States) → Leads max p 0 pre q
      → n ≡ length pre
      → n ≤ max
      → (0 < n) ⊎ (chooses q ≡ true)
      → Marked 0 pre states
      → Unset max n states
      → Visited max p pre n
          (rounds max q n)
          (paths max q n)
          (generate max q (paused n n pre states))
  unfolding generate paths rounds chooses reset_state
  visits positive finished pre n states l len below asks m u =
      Visited-finished max p pre n states
        (elim asks [ inl h ↦ h | inr e ↦ absurd (ground (arith, e)) ]) m u
  visits positive (choose bound filter invalid_nums next) pre n states l len below asks m u =
      elim (Bool-cases (leb max n)) [
        | inl h ↦
            let more : leb n 0 ≡ false = ground (arith, positive, h) in
            let stop : reset_state (paused (suc n) n pre states) ≡ stopped max n states =
              rw more refl in
            rw h (
              moved_run pre n _ _ _ _
                (choose_over max n bound filter invalid_nums next pre states h)
                (Visited-failed max p pre n (paused (suc n) n pre states) states stop m u))
        | inr h ↦
            let v = next_valid (is_invalid filter invalid_nums) bound 0 in
            rw h (
              moved_run pre n _ _ _ _
                (choose_first max n bound filter invalid_nums next pre states h
                  (u n (omega arith) (ground (arith, h))))
                (search max p bound filter invalid_nums next pre n l len h
                  (λ w st within m1 u1.
                    visits positive (next w) (pre ++ (w ∷ [])) (suc n) st
                      (Leads-choose max l w within)
                      (rw (length-append pre (w ∷ [])) (omega (arith, len))) (ground (arith, h))
                      (inl (omega arith)) m1 u1)
                  bound 0 (zero_values max n n v states) (omega arith)
                  (Marked-zero_values max n v states pre len m)
                  (λ i a b. Unset-zero_values max n v states u i (omega (arith, a)) b)))
      ]
  visits positive (need depth_needed next) pre n states l len below asks m u =
      elim (Bool-cases (is_in_reach max n depth_needed)) [
        | inl h ↦
            let here : 0 + length pre ≡ n = omega (arith, len) in
            rw h (
              moved_run pre n _ _ _ _ (generate-need max n n depth_needed next pre states h) (
                visits positive next pre n states (Leads-need max l (rw here h)) len below asks m
                  u))
        | inr h ↦
            let more : leb n 0 ≡ false = ground (arith, h) in
            let stop : reset_state (paused n n pre (clear_from max n states))
                ≡ stopped max n (clear_from max n states) =
              rw more refl in
            rw h (
              moved_run pre n _ _ _ _ (generate-need_stop max n depth_needed next pre states h) (
                Visited-failed max p pre n (paused n n pre (clear_from max n states))
                  (clear_from max n states) stop
                  (Marked-clear_from max n depth_needed next pre states len m)
                  (Unset-clear_from max n depth_needed next pre states)))
      ]

  pub at_start :
      0 < max
      → chooses p ≡ true
      → Visited max p [] 0
          (rounds max p 0)
          (paths max p 0)
          (generate max p (paused 0 0 [] new_generator.states))
  at_start positive asks =
      visits positive p [] 0 new_generator.states here refl (omega (arith, positive)) (inr asks) tt
        (λ i a b. refl)
