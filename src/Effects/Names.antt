-- ===== src/Effects/Names.antt =====
-- src/Effect.cpp: `is_read` and `is_written` by the name of a variable. A name is its characters.
use clsmith.Prelude.{ℕ, Bool, true, false, ◌&&◌, ◌||◌, List, [], ◌∷◌, map, ◌==◌, if◌then◌else◌, any}
use clsmith.Variables.{Store}
use clsmith.Effects.{Effect}

unfoldable pub name_eq : List ℕ → List ℕ → Bool
name_eq [] [] = true
name_eq (c ∷ cs) (d ∷ ds) = c == d && name_eq cs ds
name_eq _ _ = false

-- '.'.
abbrev pub dot : ℕ
dot = 46

-- What the loop over `find_last_of(".")` cuts off a name: its text before each of its dots. The last
-- round of the loop, past the first dot, compares the same text once more.
unfoldable pub containers : List ℕ → List (List ℕ)
containers [] = []
containers (c ∷ cs) =
    let rest = map (λ p. c ∷ p) (containers cs) in if c == dot then [] ∷ rest else rest

-- The same name, or one of a struct and one of a field in it.
unfoldable pub name_matches : List ℕ → List ℕ → Bool
name_matches rname vname =
    name_eq rname vname
    || any (λ t. name_eq t rname) (containers vname)
    || any (λ t. name_eq t vname) (containers rname)

unfoldable pub is_read_name : Store → Effect → List ℕ → Bool
is_read_name s e vname = any (λ r. name_matches ((s r).name) vname) e.read_vars

unfoldable pub is_written_name : Store → Effect → List ℕ → Bool
is_written_name s e vname = any (λ w. name_matches ((s w).name) vname) e.write_vars
