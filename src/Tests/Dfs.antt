-- ===== src/Tests/Dfs.antt =====
-- The exhaustive mode on a program with two choices.
use clsmith.Prelude.{ℕ, zero, suc, ◌≡◌, refl, none, some, [], ◌∷◌, ◌==◌}
use clsmith.Dfs.{filter_invalid_nums, Generation, finished, choose, need}
use clsmith.Dfs.Paths.{paths, branches}

-- The second choice is only there after a 1, and its filter rejects 1.
abbrev second : ℕ → Generation
second zero = finished
second (suc v) = choose 3 (some (λ w. w == 1)) [] (λ _. need 1 finished)

abbrev program : Generation
program = choose 2 none [] second

all_paths : paths 3 program 0 ≡ (0 ∷ []) ∷ (1 ∷ 0 ∷ []) ∷ (1 ∷ 2 ∷ []) ∷ []
unfolding paths branches filter_invalid_nums
all_paths = refl
