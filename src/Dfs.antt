-- ===== src/Dfs.antt =====
-- src/DFSRndNumGenerator.cpp, src/LinearSequence.cpp and the loop of src/DFSProgramGenerator.cpp: the
-- exhaustive mode, in which the program is generated again and again, each time with the next of all
-- sequences of choices. `decision_depth_` and `current_pos_` start at -1, so each is one more here.
-- The generation is deterministic in the choices, so it is a tree of them; after a choice of -1 the
-- error is set, and nothing more is generated. The types are made before the loop. A filter draws no numbers of its own. The debugging
-- sequence, the trace and the printed `bound_` and `index_` of a state are left out.
pub mod Paths
pub mod Sequences
pub mod Trails
pub mod Search
pub mod Order
pub mod Outputs
pub mod Rounds
pub mod Cleared
pub mod Visits
pub mod Exhaustive
use clsmith.Prelude.{
  ℕ, zero, suc, ◌-◌, Bool, true, false, ◌&&◌, ◌||◌, Option, none, some, List, [], ◌∷◌,
  if◌then◌else◌, ltb, leb, ◌==◌, length,
}

pub record SearchState : Type 0 where
  pub init : Bool
  pub value : ℕ

-- The vector of states is a function of the position; those below `max_exhaustive_depth` exist.
abbrev pub States : Type 0
States = ℕ → SearchState

-- `seq_map_`, in which a new key comes last.
abbrev pub SeqMap : Type 0
SeqMap = List (ℕ × ℕ)

unfoldable pub add_number : ℕ → ℕ → SeqMap → SeqMap
add_number v k [] = (k, v) ∷ []
add_number v k ((j, w) ∷ m) = if j == k then (j, v) ∷ m else (j, w) ∷ add_number v k m

-- `seq_map_[k]`.
unfoldable pub number_at : SeqMap → ℕ → ℕ
number_at [] k = 0
number_at ((j, w) ∷ m) k = if j == k then w else number_at m k

unfoldable pub numbers_from : SeqMap → ℕ → ℕ → List ℕ
numbers_from m k zero = []
numbers_from m k (suc n) = number_at m k ∷ numbers_from m (suc k) n

-- The numbers that `LinearSequence::get_sequence` prints.
unfoldable pub get_sequence : SeqMap → List ℕ
get_sequence m = numbers_from m 0 (length m)

pub record Generator : Type 0 where
  pub decision_depth : ℕ
  pub current_pos : ℕ
  pub all_done : Bool
  pub seq : SeqMap
  pub states : States

unfoldable pub filter_invalid_nums : List ℕ → ℕ → Bool
filter_invalid_nums [] v = false
filter_invalid_nums (w ∷ ws) v = w == v || filter_invalid_nums ws v

abbrev pub is_filtered : Option (ℕ → Bool) → ℕ → Bool
is_filtered none v = false
is_filtered (some filter) v = filter v

abbrev pub is_invalid : Option (ℕ → Bool) → List ℕ → ℕ → Bool
is_invalid filter invalid_nums v = is_filtered filter v || filter_invalid_nums invalid_nums v

-- The loops past the invalid numbers, with the distance to the bound.
unfoldable pub next_valid : (ℕ → Bool) → ℕ → ℕ → ℕ
next_valid invalid zero v = v
next_valid invalid (suc n) v =
    let rest = next_valid invalid n (suc v) in if invalid v then rest else v

abbrev pub set_state : ℕ → SearchState → States → States
set_state pos x states i = if i == pos then x else states i

abbrev pub is_there : Option (ℕ → Bool) → Bool
is_there none = false
is_there (some _) = true

abbrev pub is_too_large : ℕ → Option ℕ → Bool
is_too_large bound none = false
is_too_large bound (some v) = leb bound v

abbrev pub in_range : ℕ → Option (Option ℕ × Generator) → Option (Option ℕ × Generator)
in_range bound o = elim o [
  | none ↦ none
  | some (number, g) ↦ if is_too_large bound number then none else some (number, g)
]

module _ (max_exhaustive_depth : ℕ) where
  abbrev pub clear_from : ℕ → States → States
  clear_from pos states i =
      if leb pos i && ltb i max_exhaustive_depth
      then record (states i) { init = false }
      else states i

  abbrev pub zero_from : ℕ → States → States
  zero_from pos states i =
      if leb pos i && ltb i max_exhaustive_depth then record (states i) { value = 0 } else states i

  -- The values that the loop past the invalid numbers at a first visit sets to 0: the first round
  -- starts at the depth, and those after it at the position.
  unfoldable pub zero_values : ℕ → ℕ → ℕ → States → States
  zero_values depth pos v states =
      if v == 0 then states else zero_from depth (if v == 1 then states else zero_from pos states)

  -- No number is left at a position.
  unfoldable pub backtrack : ℕ → Generator → Generator
  backtrack pos g = record g {
    decision_depth = g.decision_depth - 1;
    all_done = g.all_done || leb g.decision_depth 1;
    states = clear_from pos g.states;
  }

  -- What follows either loop past the invalid numbers. A number that is not below the bound is put
  -- into the state here in both cases; that state is cleared, and its number is not read again.
  unfoldable pub settle : ℕ → ℕ → ℕ → Generator → Option ℕ × Generator
  settle pos bound v g =
      let g' = record g { states = set_state pos (record { init = true; value = v }) g.states } in
      if leb bound v
      then (none, backtrack pos g')
      else (some v, record g' { seq = add_number v pos g'.seq })

  -- A state whose number is not the one to be changed next. `none` is the failed assertion.
  unfoldable pub revisit_node :
      ℕ → ℕ → Option (ℕ → Bool) → Generator → Option (Option ℕ × Generator)
  revisit_node pos bound filter g =
      let rv = (g.states pos).value in
      if is_there filter && leb bound rv
      then none
      else some (some rv, record g { seq = add_number rv pos g.seq })

  unfoldable pub switch_branch :
      ℕ → ℕ → Option (ℕ → Bool) → List ℕ → Generator → Option ℕ × Generator
  switch_branch pos bound filter invalid_nums g =
      let v = suc (g.states pos).value in
      settle pos bound (next_valid (is_invalid filter invalid_nums) (bound - v) v) g

  unfoldable pub first_visit : ℕ → ℕ → Option (ℕ → Bool) → List ℕ → Generator → Option ℕ × Generator
  first_visit pos bound filter invalid_nums g =
      let v = next_valid (is_invalid filter invalid_nums) bound 0 in
      settle pos bound v (record g {
        decision_depth = suc pos;
        states = zero_values g.decision_depth pos v g.states;
      })

  -- `-1` is `none`.
  unfoldable pub random_choice :
      ℕ → Option (ℕ → Bool) → List ℕ → Generator → Option (Option ℕ × Generator)
  random_choice bound filter invalid_nums g =
      let pos = g.current_pos in
      let g' = record g { current_pos = suc pos } in
      if leb max_exhaustive_depth pos || ltb max_exhaustive_depth g.decision_depth
      then some (none, g')
      else if ltb (suc pos) g.decision_depth && (g.states pos).init
      then revisit_node pos bound filter g'
      else if (g.states pos).init
      then some (switch_branch pos bound filter invalid_nums g')
      else some (first_visit pos bound filter invalid_nums g')

  -- What `rnd_upto` and `rnd_flipcoin` share: the assertion on the number that was chosen.
  unfoldable pub rnd_number :
      ℕ → Option (ℕ → Bool) → List ℕ → Generator → Option (Option ℕ × Generator)
  rnd_number bound filter invalid_nums g =
      in_range bound (random_choice bound filter invalid_nums g)

  abbrev pub rnd_upto : ℕ → Option (ℕ → Bool) → Generator → Option (Option ℕ × Generator)
  rnd_upto n filter = rnd_number n filter []

  -- The numbers 1 and 0 are true and false.
  abbrev pub rnd_flipcoin : ℕ → Option (ℕ → Bool) → Generator → Option (Option ℕ × Generator)
  rnd_flipcoin n filter =
      rnd_number 2 filter (if n == 100 then 0 ∷ [] else if n == 0 then 1 ∷ [] else [])

  -- Whether the program is given up because it needs more choices than are left.
  unfoldable pub eager_backtracking : ℕ → Generator → Bool × Generator
  eager_backtracking depth_needed g =
      if leb g.current_pos 1
      then (false, g)
      else if leb depth_needed (max_exhaustive_depth - (g.current_pos - 1))
      then (false, g)
      else if ltb g.decision_depth g.current_pos
      then (true, g)
      else (
        true,
        record g { decision_depth = g.current_pos; states = clear_from g.current_pos g.states },
      )

-- The program that is generated, as far as it depends on the choices. Each choice is one of
-- `rnd_upto`, or of `rnd_flipcoin` with its two numbers.
pub data Generation : Type 0 where
  finished : Generation
  choose : (bound : ℕ) → Option (ℕ → Bool) → (invalid_nums : List ℕ) → (ℕ → Generation) → Generation
  need : (depth_needed : ℕ) → Generation → Generation

unfoldable pub reset_state : Generator → Generator
reset_state g = record g { current_pos = 0; seq = [] }

abbrev pub new_generator : Generator
new_generator = record {
  decision_depth = 0;
  current_pos = 0;
  all_done = false;
  seq = [];
  states = λ _. record { init = false; value = 0 };
}

module _ (max_exhaustive_depth : ℕ) where
  -- `GenerateFunctions()`, and whether no error is set after it.
  unfoldable pub generate : Generation → Generator → Option (Bool × Generator)
  generate finished g = some (true, g)
  generate (choose bound filter invalid_nums next) g =
      elim (rnd_number max_exhaustive_depth bound filter invalid_nums g) [
        | none ↦ none
        | some (number, g') ↦ elim number [
          | none ↦ some (false, g')
          | some v ↦ generate (next v) g'
        ]
      ]
  generate (need depth_needed next) g =
      let (given_up, g') = eager_backtracking max_exhaustive_depth depth_needed g in
      elim given_up [ true ↦ some (false, g') | false ↦ generate next g' ]

  -- `goGenerator`: the sequences of choices of the programs that are output. `none` is a failed
  -- assertion, or the fuel that is used up.
  unfoldable pub go_generator : ℕ → Generation → Generator → Option (List (List ℕ))
  go_generator zero p g = none
  go_generator (suc fuel) p g = if g.all_done then some [] else elim (generate p g) [
    | none ↦ none
    | some (good, g') ↦ elim (go_generator fuel p (reset_state g')) [
      | none ↦ none
      | some rest ↦ some (if good then get_sequence g'.seq ∷ rest else rest)
    ]
  ]
