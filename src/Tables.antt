-- ===== src/Tables.antt =====
-- src/ProbabilityTable.h, src/Probabilities.cpp, src/VectorFilter.cpp: the tables by which a random number becomes a choice, and the
-- filters that reject numbers. Keys and probabilities are not negative. `none` is a failed assertion.
pub mod Ranges
pub mod Shares
pub mod Draws
use clsmith.Prelude.{
  ℕ, zero, suc, ◌+◌, ◌-◌, ◌%◌, Bool, true, false, not, ◌&&◌, ◌||◌, Option, none, some, List, [],
  ◌∷◌, ◌++◌, if◌then◌else◌, any, ltb, ◌==◌, length,
}
use clsmith.Random.{Random}

-- A table that maps a number to the entry of the least key above it.
pub record ProbabilityTable (Value : Type 0) : Type 0 where
  pub curr_max_key : ℕ
  pub table : List (ℕ × Value)

module _ {Value : Type 0} where
  abbrev pub empty_table : ProbabilityTable Value
  empty_table = record { curr_max_key = 0; table = [] }

  -- The insertion before the first greater key; whether it is at the end.
  unfoldable pub insert_sorted : List (ℕ × Value) → ℕ × Value → List (ℕ × Value) × Bool
  insert_sorted [] t = (t ∷ [], true)
  insert_sorted (e ∷ es) t =
      let (rest, at_end) = insert_sorted es t in
      if ltb t.0 e.0 then (t ∷ e ∷ es, false) else (e ∷ rest, at_end)

  unfoldable pub add_elem : ProbabilityTable Value → ℕ → Value → ProbabilityTable Value
  add_elem p k v =
      let (table, at_end) = insert_sorted p.table (k, v) in
      record { curr_max_key = if at_end then k else p.curr_max_key; table = table }

  -- `find_if` with `my_greater`.
  unfoldable pub find_greater : List (ℕ × Value) → ℕ → Option (ℕ × Value)
  find_greater [] k = none
  find_greater (e ∷ es) k = let rest = find_greater es k in if ltb k e.0 then some e else rest

  unfoldable pub get_value : ProbabilityTable Value → ℕ → Option Value
  get_value p k = elim (ltb k p.curr_max_key) [
    | false ↦ none
    | true ↦ elim (find_greater p.table k) [ none ↦ none | some e ↦ some e.1 ]
  ]

pub record DistributionTable : Type 0 where
  pub max_prob : ℕ
  pub keys : List ℕ
  pub probs : List ℕ

abbrev pub empty_distribution : DistributionTable
empty_distribution = record { max_prob = 0; keys = []; probs = [] }

unfoldable pub add_entry : DistributionTable → ℕ → ℕ → DistributionTable
add_entry d key prob = record {
  max_prob = d.max_prob + prob;
  keys = d.keys ++ (key ∷ []);
  probs = d.probs ++ (prob ∷ []);
}

-- The loops of `key_to_prob` and `rnd_num_to_key` over the two vectors.
unfoldable pub prob_of : List ℕ → List ℕ → ℕ → ℕ
prob_of (k ∷ ks) (p ∷ ps) key = let rest = prob_of ks ps key in if k == key then p else rest
prob_of _ _ key = 0

unfoldable pub key_to_prob : DistributionTable → ℕ → ℕ
key_to_prob d key = prob_of d.keys d.probs key

unfoldable pub key_at : List ℕ → List ℕ → ℕ → Option ℕ
key_at (k ∷ ks) (p ∷ ps) rnd =
    let rest = key_at ks ps (rnd - p) in if ltb rnd p then some k else rest
key_at _ _ rnd = none

unfoldable pub rnd_num_to_key : DistributionTable → ℕ → Option ℕ
rnd_num_to_key d rnd =
    if not (ltb rnd d.max_prob)
    then none
    else if not (length d.keys == length d.probs)
    then none
    else key_at d.keys d.probs rnd

-- `valid` is `valid_filter()`, which the mode of generation fixes; `filter_out` is the flag
-- FILTER_OUT.
pub record VectorFilter : Type 0 where
  pub valid : Bool
  pub vs : List ℕ
  pub ptable : Option DistributionTable
  pub filter_out : Bool

unfoldable pub is_in : List ℕ → ℕ → Bool
is_in vs v = any (λ w. w == v) vs

unfoldable pub add_item : VectorFilter → ℕ → VectorFilter
add_item f item = if is_in f.vs item then f else record f { vs = f.vs ++ (item ∷ []) }

unfoldable pub get_max_prob : VectorFilter → ℕ
get_max_prob f = elim f.ptable [ none ↦ 100 | some d ↦ d.max_prob ]

unfoldable pub lookup : VectorFilter → ℕ → Option ℕ
lookup f v = elim f.valid [
  | false ↦ some v
  | true ↦ elim f.ptable [ none ↦ some v | some d ↦ rnd_num_to_key d v ]
]

unfoldable pub filter : VectorFilter → ℕ → Option Bool
filter f v = elim f.valid [
  | false ↦ some false
  | true ↦ elim (lookup f v) [
    | none ↦ none
    | some w ↦ some (if f.filter_out then is_in f.vs w else not (is_in f.vs w))
  ]
]
