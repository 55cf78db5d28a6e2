-- ===== src/Tests/Tables.antt =====
-- src/ProbabilityTable.h, src/Probabilities.cpp, src/VectorFilter.cpp on tables with three entries.
use mathlib.Core.List.{Memᴰ}
use clsmith.Prelude.{
  ℕ, ◌+◌, ◌*◌, zero, ◌%◌, ◌<◌, ◌≤◌, ◌≡◌, ◌⊎◌, refl, true, false, none, some, List, [], ◌∷◌, arith,
  suc,
}
use clsmith.Random.{rnd_upto}
use clsmith.Tables.{
  DistributionTable, get_value, add_entry, rnd_num_to_key, key_to_prob, key_at, is_in, filter,
  lookup, get_max_prob,
}
use clsmith.Tables.Ranges.{table_of, get_value_least}
use clsmith.Tables.Shares.{
  Built, from_none, by_entry, IsDistinct, count, maps_to, rnd_num_to_key_shares,
}
use clsmith.Tables.Draws.{table_filter, rnd_upto_key}

abbrev scopes : List (ℕ × ℕ)
scopes = (65, 2) ∷ (100, 4) ∷ (35, 1) ∷ []

get_value_least_example :
    ((e : ℕ × ℕ) × Memᴰ e scopes
      × (40 < e.0)
      × ((f : ℕ × ℕ) → Memᴰ f scopes → 40 < f.0 → e.0 ≤ f.0)
      × (get_value (table_of scopes) 40 ≡ some e.1))
    ⊎ (((e : ℕ × ℕ) → Memᴰ e scopes → e.0 ≤ 40) × (get_value (table_of scopes) 40 ≡ none))
get_value_least_example = get_value_least scopes 40

abbrev weights : DistributionTable
weights = record { max_prob = 100; keys = 7 ∷ 8 ∷ 9 ∷ []; probs = 50 ∷ 0 ∷ 50 ∷ [] }

weights-Built : Built weights
unfolding add_entry
weights-Built = by_entry 9 50 (by_entry 8 0 (by_entry 7 50 from_none))

weights-IsDistinct : IsDistinct weights.keys
unfolding IsDistinct is_in
weights-IsDistinct = (refl, (refl, (refl, tt)))

rnd_num_to_key_shares_example :
    ((r : ℕ) → r < 100 → (k : ℕ) × (rnd_num_to_key weights r ≡ some k))
    × ((key : ℕ)
        → count (λ r. maps_to (rnd_num_to_key weights r) key) 100 ≡ key_to_prob weights key)
rnd_num_to_key_shares_example = rnd_num_to_key_shares weights weights-Built weights-IsDistinct

-- The first number is rejected, since its key is 7, and the second one is accepted.
abbrev draws : ℕ → ℕ
draws k = 30 + 40 * k

rejected :
    (j : ℕ) → j < 1 → filter (table_filter weights (7 ∷ [])) (draws (0 + j) % 100) ≡ some true
unfolding filter lookup rnd_num_to_key key_at is_in
rejected zero l = refl
rejected (suc j) l = absurd (omega (arith, l))

accepted : filter (table_filter weights (7 ∷ [])) (draws (0 + 1) % 100) ≡ some false
unfolding filter lookup rnd_num_to_key key_at is_in
accepted = refl

rnd_upto_key_example :
    (v : ℕ) × (key : ℕ) × (rnd_upto draws 2
        (get_max_prob (table_filter weights (7 ∷ [])))
        (filter (table_filter weights (7 ∷ [])))
        0
      ≡ (some v, 2))
    × (lookup (table_filter weights (7 ∷ [])) v ≡ some key)
    × (is_in (7 ∷ []) key ≡ false)
    × (0 < key_to_prob weights key)
rnd_upto_key_example =
    rnd_upto_key draws weights (7 ∷ []) 1 0 weights-Built weights-IsDistinct (omega arith) rejected
      accepted
