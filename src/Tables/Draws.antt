-- ===== src/Tables/Draws.antt =====
-- src/DefaultRndNumGenerator.cpp (`rnd_upto`), src/VectorFilter.cpp: the numbers that pass a filter,
-- and the keys that they stand for.
use mathlib.Core.Option.{some-injective}
use native.Mathlib.Nat.{mod-lt}
use clsmith.Prelude.{
  Option, Bool, ℕ, zero, suc, ◌+◌, ◌-◌, ◌%◌, ◌<◌, ◌≡◌, inl, inr, refl, ◌∙◌, true, false, some, List,
  [], ◌∷◌, ltb, ◌==◌, ==_iff, ==_refl, Bool-cases, arith,
}
use clsmith.Random.{rnd_upto}
use clsmith.Tables.{
  DistributionTable, VectorFilter, key_to_prob, prob_of, key_at, is_in, filter, lookup,
  get_max_prob,
}
use clsmith.Tables.Shares.{
  Built, IsDistinct, prob_of_absent, key_at_total, IsDistribution-Built, key_at_below,
}

module _ (genrand : ℕ → ℕ) where
  -- Where the filter rejects the first `i` numbers that are drawn and accepts the next one, the draw
  -- ends with that number after `i + 1` rounds.
  pub rnd_upto_first :
      (i n : ℕ) (f : ℕ → Option Bool) (k : ℕ)
      → ((j : ℕ) → j < i → f (genrand (k + j) % n) ≡ some true)
      → f (genrand (k + i) % n) ≡ some false
      → rnd_upto genrand (suc i) n f k ≡ (some (genrand (k + i) % n), suc (k + i))
  unfolding rnd_upto
  rnd_upto_first zero n f k before here =
      let z : k + 0 ≡ k = omega arith in
      let here' : f (genrand k % n) ≡ some false = rw z at here in rw (z, rnd_upto, here') refl
  rnd_upto_first (suc i) n f k before here =
      let z : k + 0 ≡ k = omega arith in
      let t : k + suc i ≡ suc k + i = omega arith in
      let now : f (genrand k % n) ≡ some true = rw z at (before 0 (omega arith)) in
      let ih =
        rnd_upto_first i n f (suc k)
          (λ j l.
            let u : k + suc j ≡ suc k + j = omega arith in
            rw u at (before (suc j) (omega (arith, l))))
          (rw t at here) in
      rw (rnd_upto, now, t) ih

-- A number that has a key is in the share of that key.
positive :
    (ks ps : List ℕ) (r key : ℕ) → IsDistinct ks → key_at ks ps r ≡ some key → 0 < prob_of ks ps key
unfolding key_at prob_of IsDistinct
positive [] ps r key d q = absurd (ground (arith, q))
positive (k ∷ ks) [] r key d q = absurd (ground (arith, q))
positive (k ∷ ks) (p ∷ ps) r key (h, d) q = elim (Bool-cases (ltb r p)) [
  | inl l ↦
      let e : k ≡ key = some-injective k key (rw (key_at, l) at q) in
      rw (← e, ==_refl k) (ground (arith, l))
  | inr l ↦
      let ih = positive ks ps (r - p) key d (rw (key_at, l) at q) in
      elim (Bool-cases (k == key)) [
        | inl t ↦
            let e = (==_iff k key).0 t in
            let z : prob_of ks ps key ≡ 0 = rw e at (prob_of_absent ks ps k h) in
            absurd (omega (arith, z, ih))
        | inr t ↦ rw t ih
      ]
]

abbrev pub table_filter : DistributionTable → List ℕ → VectorFilter
table_filter d vs = record { valid = true; vs = vs; ptable = some d; filter_out = true }

module _ (genrand : ℕ → ℕ) where
  -- Through a filter that lists the keys to avoid in a table without a key twice: where the filter
  -- rejects the first `i` numbers that are drawn and accepts the next one, the draw below the table's
  -- maximum ends after `i + 1` rounds, and the key of its number is not one to avoid and has a
  -- probability that is not 0.
  pub rnd_upto_key :
      (d : DistributionTable) (vs : List ℕ) (i k : ℕ)
      → Built d
      → IsDistinct d.keys
      → 0 < d.max_prob
      → ((j : ℕ) → j < i → filter (table_filter d vs) (genrand (k + j) % d.max_prob) ≡ some true)
      → filter (table_filter d vs) (genrand (k + i) % d.max_prob) ≡ some false
      → (v : ℕ) × (key : ℕ) × (rnd_upto genrand
            (suc i)
            (get_max_prob (table_filter d vs))
            (filter (table_filter d vs))
            k
          ≡ (some v, suc (k + i)))
        × (lookup (table_filter d vs) v ≡ some key)
        × (is_in vs key ≡ false)
        × (0 < key_to_prob d key)
  unfolding get_max_prob lookup filter key_to_prob
  rnd_upto_key d vs i k b u m before here =
      let v = genrand (k + i) % d.max_prob in
      let h = IsDistribution-Built d b in
      let l : v < d.max_prob = mod-lt (genrand (k + i)) m in
      let (key, q) = key_at_total d.keys d.probs v h.one_each (omega (arith, l, h.whole)) in
      let r = key_at_below d h v l ∙ q in
      (
        v,
        key,
        rnd_upto_first genrand i d.max_prob (filter (table_filter d vs)) k before here,
        r,
        some-injective _ _ (rw (filter, lookup, r) at here),
        positive d.keys d.probs v key u q,
      )
