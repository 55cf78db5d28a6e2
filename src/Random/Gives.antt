-- ===== src/Random/Gives.antt =====
-- src/DefaultRndNumGenerator.cpp: choices that always end, with a result of which something holds.
use clsmith.Prelude.{
  ℕ, zero, suc, ◌+◌, ◌%◌, ◌<◌, ◌≡◌, inl, inr, refl, ap, if◌then◌else◌, Bool, true, false, Option,
  some, Bool-cases, arith,
}
use clsmith.Random.{Random, draw, done, lift, rnd_upto}

-- Whatever has been drawn before, the choice has a result, and the property holds of it.
unfoldable pub Gives : {A : Type 0} → (A → Type 0) → Random (Option A) → Type 0
Gives {A} P m = (k : ℕ) → (a : A) × (l : ℕ) × (m k ≡ (some a, l)) × P a

pub Gives-done : {A : Type 0} (P : A → Type 0) (a : A) → P a → Gives P (done a)
unfolding Gives
Gives-done P a p k = (a, k, refl, p)

pub Gives-lift :
    {A : Type 0} (P : A → Type 0) (m : Random A) → ((k : ℕ) → P (m k).0) → Gives P (lift m)
unfolding Gives
Gives-lift P m p k = ((m k).0, (m k).1, refl, p k)

pub Gives-draw :
    {A B : Type 0} (P : A → Type 0) (Q : B → Type 0) (m : Random (Option A))
    (f : A → Random (Option B))
    → Gives P m
    → ((a : A) → P a → Gives Q (f a))
    → Gives Q (draw m f)
unfolding Gives
Gives-draw {A} P Q m f g h k =
    let (a, l, q, p) = g k in
    let (b, j, r, z) = h a p l in (b, j, rw (draw, q, ap (λ (t : Option A × ℕ). t.1) q) r, z)

pub Gives-if :
    {A : Type 0} (P : A → Type 0) (b : Bool) (m n : Random (Option A))
    → Gives P m
    → Gives P n
    → Gives P (if b then m else n)
Gives-if P true m n g h = g
Gives-if P false m n g h = h

-- Among the next `fuel` values, whatever has been drawn before, there is one with this remainder.
unfoldable pub Hits : (ℕ → ℕ) → ℕ → ℕ → ℕ → Type 0
Hits genrand fuel n v = (k : ℕ) → (i : ℕ) × (i < fuel) × (genrand (k + i) % n ≡ v)

module _ (genrand : ℕ → ℕ) (n : ℕ) (f : ℕ → Option Bool)
    (defined : (k : ℕ) → (b : Bool) × (f (genrand k % n) ≡ some b)) where
  ends :
      (i fuel k : ℕ)
      → i < fuel
      → f (genrand (k + i) % n) ≡ some false
      → (v : ℕ) × (l : ℕ) × (rnd_upto genrand fuel n f k ≡ (some v, l)) × (f v ≡ some false)
  unfolding rnd_upto
  ends i zero k h q = absurd (omega (arith, h))
  ends zero (suc fuel) k h q =
      let z : k + 0 ≡ k = omega arith in
      let now : f (genrand k % n) ≡ some false = rw z at q in
      (genrand k % n, suc k, rw (rnd_upto, now) refl, now)
  ends (suc i) (suc fuel) k h q =
      let t : k + suc i ≡ suc k + i = omega arith in
      let rest = ends i fuel (suc k) (omega (arith, h)) (rw t at q) in
      elim (Bool-cases (defined k).0) [
        | inr b ↦
            let now = rw b at (defined k).1 in (genrand k % n, suc k, rw (rnd_upto, now) refl, now)
        | inl b ↦ let now = rw b at (defined k).1 in rw (rnd_upto, now) rest
      ]

  -- A filtered choice ends where a value that the filter accepts is drawn in time.
  pub Gives-rnd_upto :
      (fuel v : ℕ)
      → Hits genrand fuel n v
      → f v ≡ some false
      → Gives (λ w. f w ≡ some false) (rnd_upto genrand fuel n f)
  unfolding Gives Hits
  Gives-rnd_upto fuel v hit q k = let (i, h, e) = hit k in ends i fuel k h (rw e q)
