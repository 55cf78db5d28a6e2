-- ===== src/Dfs/Paths.antt =====
-- The choices that a program can be generated with, without a generator that tries them.
use clsmith.Prelude.{
  ℕ, zero, suc, ◌+◌, ◌-◌, Bool, true, false, ◌||◌, List, [], ◌∷◌, ◌++◌, map, if◌then◌else◌, leb,
}
use clsmith.Dfs.{Generation, finished, choose, need, is_invalid}

-- What each valid number leads to, in the order of the numbers.
unfoldable pub branches : {A : Type 0} → (ℕ → Bool) → (ℕ → List A) → ℕ → ℕ → List A
branches invalid f v zero = []
branches invalid f v (suc n) =
    let rest = branches invalid f (suc v) n in if invalid v then rest else f v ++ rest

unfoldable pub total : (ℕ → Bool) → (ℕ → ℕ) → ℕ → ℕ → ℕ
total invalid f v zero = 0
total invalid f v (suc n) =
    let rest = total invalid f (suc v) n in if invalid v then rest else suc (f v + rest)

-- Whether the program asks for a number before it is finished.
unfoldable pub chooses : Generation → Bool
chooses finished = false
chooses (choose bound filter invalid_nums next) = true
chooses (need depth_needed next) = chooses next

module _ (max_exhaustive_depth : ℕ) where
  -- After `n` choices, what is needed may be more than there is left after the last of them.
  abbrev pub is_in_reach : ℕ → ℕ → Bool
  is_in_reach n depth_needed = leb n 1 || leb depth_needed (max_exhaustive_depth - (n - 1))

  unfoldable pub paths : Generation → ℕ → List (List ℕ)
  paths finished n = [] ∷ []
  paths (choose bound filter invalid_nums next) n =
      let rest =
        branches (is_invalid filter invalid_nums) (λ v. map (λ vs. v ∷ vs) (paths (next v) (suc n)))
          0 bound in
      if leb max_exhaustive_depth n then [] else rest
  paths (need depth_needed next) n =
      let rest = paths next n in if is_in_reach n depth_needed then rest else []

  -- How often the program is generated, but for the last time at a position.
  unfoldable pub rounds : Generation → ℕ → ℕ
  rounds finished n = 0
  rounds (choose bound filter invalid_nums next) n =
      let rest = total (is_invalid filter invalid_nums) (λ v. rounds (next v) (suc n)) 0 bound in
      if leb max_exhaustive_depth n then 0 else rest
  rounds (need depth_needed next) n =
      let rest = rounds next n in if is_in_reach n depth_needed then rest else 0
