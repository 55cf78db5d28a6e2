-- ===== src/Tables/Shares.antt =====
-- src/Probabilities.cpp (`DistributionTable`): each key has its probability's share of the random
-- numbers.
use clsmith.Prelude.{
  ℕ, zero, suc, ◌+◌, ◌-◌, ◌<◌, ◌≡◌, ◌⊎◌, inl, inr, refl, ap, ◌∙◌, Bool, true, false, Option, none,
  some, List, [], ◌∷◌, ◌++◌, ltb, ◌==◌, ==_iff, Bool-cases, arith, if◌then◌else◌, length,
  length-append,
}
use clsmith.Tables.{
  DistributionTable, empty_distribution, add_entry, key_to_prob, rnd_num_to_key, prob_of, key_at,
  is_in,
}

-- How many numbers below `n` pass the test.
unfoldable pub count : (ℕ → Bool) → ℕ → ℕ
count p zero = 0
count p (suc n) = (if p n then 1 else 0) + count p n

pub count_same : (n : ℕ) (p q : ℕ → Bool) → ((r : ℕ) → r < n → p r ≡ q r) → count p n ≡ count q n
unfolding count
count_same zero p q h = refl
count_same (suc n) p q h =
    rw (h n (omega arith), count_same n p q (λ r l. h r (omega (arith, l)))) refl

count-add : (b a : ℕ) (p : ℕ → Bool) → count p (a + b) ≡ count p a + count (λ r. p (a + r)) b
unfolding count
count-add zero a p = let z : a + 0 ≡ a = omega arith in rw z (omega arith)
count-add (suc b) a p =
    let z : a + suc b ≡ suc (a + b) = omega arith in rw z (omega (arith, count-add b a p))

count_always :
    (n : ℕ) (p : ℕ → Bool) (c : Bool)
    → ((r : ℕ) → r < n → p r ≡ c)
    → count p n ≡ (if c then n else 0)
unfolding count
count_always zero p true h = refl
count_always zero p false h = refl
count_always (suc n) p true h =
    rw (h n (omega arith)) (omega (arith, count_always n p true (λ r l. h r (omega (arith, l)))))
count_always (suc n) p false h =
    rw (h n (omega arith)) (omega (arith, count_always n p false (λ r l. h r (omega (arith, l)))))

unfoldable pub sum : List ℕ → ℕ
sum [] = 0
sum (p ∷ ps) = p + sum ps

sum-append : (ps : List ℕ) (q : ℕ) → sum (ps ++ (q ∷ [])) ≡ sum ps + q
unfolding sum
sum-append [] q = omega arith
sum-append (p ∷ ps) q = omega (arith, sum-append ps q)

-- The tables that `add_entry` builds.
pub data Built : DistributionTable → Type 0 where
  from_none : Built empty_distribution
  by_entry : {d : DistributionTable} (key prob : ℕ) → Built d → Built (add_entry d key prob)

pub record IsDistribution (d : DistributionTable) : Type 0 where
  pub one_each : length d.keys ≡ length d.probs
  pub whole : d.max_prob ≡ sum d.probs

pub IsDistribution-Built : (d : DistributionTable) → Built d → IsDistribution d
unfolding add_entry sum
IsDistribution-Built d0 from_none = record { one_each = refl; whole = refl }
IsDistribution-Built d0 (by_entry {d} key prob b) =
    let h = IsDistribution-Built d b in
    record {
      one_each =
          omega
            (arith, h.one_each, length-append d.keys (key ∷ []), length-append d.probs (prob ∷ []));
      whole = omega (arith, h.whole, sum-append d.probs prob);
    }

-- No key is in the table twice.
unfoldable pub IsDistinct : List ℕ → Type 0
IsDistinct [] = Unit
IsDistinct (k ∷ ks) = (is_in ks k ≡ false) × IsDistinct ks

pub prob_of_absent : (ks ps : List ℕ) (key : ℕ) → is_in ks key ≡ false → prob_of ks ps key ≡ 0
unfolding prob_of is_in
prob_of_absent [] ps key h = refl
prob_of_absent (k ∷ ks) [] key h = refl
prob_of_absent (k ∷ ks) (p ∷ ps) key h = ground (arith, h, prob_of_absent ks ps key)

pub key_at_total :
    (ks ps : List ℕ) (r : ℕ)
    → length ks ≡ length ps
    → r < sum ps
    → (k : ℕ) × (key_at ks ps r ≡ some k)
unfolding key_at sum
key_at_total ks [] r e h = absurd (omega (arith, h))
key_at_total [] (p ∷ ps) r e h = absurd (omega (arith, e))
key_at_total (k ∷ ks) (p ∷ ps) r e h = elim (Bool-cases (ltb r p)) [
  | inl l ↦ (k, rw l refl)
  | inr l ↦
      let (j, q) = key_at_total ks ps (r - p) (omega (arith, e)) (ground (arith, l, h)) in
      (j, rw l q)
]

-- The number is mapped to the key.
unfoldable pub maps_to : Option ℕ → ℕ → Bool
maps_to none key = false
maps_to (some k) key = k == key

shares :
    (ks ps : List ℕ) (key : ℕ)
    → length ks ≡ length ps
    → IsDistinct ks
    → count (λ r. maps_to (key_at ks ps r) key) (sum ps) ≡ prob_of ks ps key
unfolding key_at prob_of sum IsDistinct maps_to count
shares [] [] key e d = refl
shares [] (p ∷ ps) key e d = absurd (omega (arith, e))
shares (k ∷ ks) [] key e d = refl
shares (k ∷ ks) (p ∷ ps) key e (h, d) =
    let here =
      count_always p (λ r. maps_to (key_at (k ∷ ks) (p ∷ ps) r) key) (k == key)
        (λ r l. let t : ltb r p ≡ true = ground (arith, l) in rw t refl) in
    let later =
      count_same (sum ps) (λ r. maps_to (key_at (k ∷ ks) (p ∷ ps) (p + r)) key)
        (λ r. maps_to (key_at ks ps r) key) (λ r l. past r) in
    let whole = count-add (sum ps) p (λ r. maps_to (key_at (k ∷ ks) (p ∷ ps) r) key) in
    let ih = shares ks ps key (omega (arith, e)) d in
    split (Bool-cases (k == key)) (whole ∙ (omega (arith, here, later, ih)))
  where
    past : (r : ℕ) → maps_to (key_at (k ∷ ks) (p ∷ ps) (p + r)) key ≡ maps_to (key_at ks ps r) key
    past r =
        let t : ltb (p + r) p ≡ false = ground arith in
        let u : p + r - p ≡ r = omega arith in rw (t, u) refl

    split :
        ((k == key) ≡ true) ⊎ ((k == key) ≡ false)
        → count (λ r. maps_to (key_at (k ∷ ks) (p ∷ ps) r) key) (p + sum ps)
          ≡ (if k == key then p else 0) + prob_of ks ps key
        → count (λ r. maps_to (key_at (k ∷ ks) (p ∷ ps) r) key) (p + sum ps)
          ≡ prob_of (k ∷ ks) (p ∷ ps) key
    split (inl t) w =
        let q = (==_iff k key).0 t in
        let z : prob_of ks ps key ≡ 0 = rw q at (prob_of_absent ks ps k h) in
        ground (arith, t, w, z)
    split (inr t) w = ground (arith, t, w)

pub key_at_below :
    (d : DistributionTable)
    → IsDistribution d
    → (r : ℕ) → r < d.max_prob
    → rnd_num_to_key d r ≡ key_at d.keys d.probs r
unfolding rnd_num_to_key
key_at_below d h r l =
    let t : ltb r d.max_prob ≡ true = ground (arith, l) in
    let e : (length d.keys == length d.probs) ≡ true = ground (arith, h.one_each) in
    rw (rnd_num_to_key, t, e) refl

-- In a table without a key twice, every number below the maximum has a key, and each key has as many
-- of these numbers as its probability says.
pub rnd_num_to_key_shares :
    (d : DistributionTable)
    → Built d
    → IsDistinct d.keys
    → ((r : ℕ) → r < d.max_prob → (k : ℕ) × (rnd_num_to_key d r ≡ some k))
      × ((key : ℕ) → count (λ r. maps_to (rnd_num_to_key d r) key) d.max_prob ≡ key_to_prob d key)
unfolding key_to_prob
rnd_num_to_key_shares d b u =
    let h = IsDistribution-Built d b in
    (
      λ r l.
          let (k, q) = key_at_total d.keys d.probs r h.one_each (omega (arith, l, h.whole)) in
          (k, key_at_below d h r l ∙ q),
      λ key.
          count_same d.max_prob _ _ (λ r l. ap (λ o. maps_to o key) (key_at_below d h r l))
          ∙ ap (count (λ r. maps_to (key_at d.keys d.probs r) key)) h.whole
          ∙ shares d.keys d.probs key h.one_each u,
    )
