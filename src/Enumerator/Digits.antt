-- ===== src/Enumerator/Digits.antt =====
-- src/Enumerator.h: the mixed radix numbers that the elements of an enumerator spell, the last
-- element being the least significant one.
use clsmith.Prelude.{
  ℕ, zero, suc, ◌+◌, ◌*◌, ◌<◌, ◌≤◌, ◌≡◌, ◌⊎◌, inl, inr, refl, ap, List, [], ◌∷◌, arith,
}

-- The number of tuples whose components are below the bounds.
unfoldable pub total : List ℕ → ℕ
total [] = 1
total (b ∷ bs) = b * total bs

unfoldable pub rank : List ℕ → List ℕ → ℕ
rank (b ∷ bs) (v ∷ vs) = v * total bs + rank bs vs
rank _ _ = 0

-- The tuples below the bounds.
pub data IsBelow : List ℕ → List ℕ → Type 0 where
  nil : IsBelow [] []
  cons : {b v : ℕ} {bs vs : List ℕ} → v < b → IsBelow bs vs → IsBelow (b ∷ bs) (v ∷ vs)

mul_step : (v b t : ℕ) → v < b → v * t + t ≤ b * t
mul_step v zero t h = absurd (omega arith)
mul_step zero (suc b) t h = omega arith
mul_step (suc v) (suc b) t h = omega (arith, mul_step v b t (omega arith))

pub rank_lt : {bs vs : List ℕ} → IsBelow bs vs → rank bs vs < total bs
unfolding rank total
rank_lt nil = omega arith
rank_lt (cons {b} {v} {bs} {vs} h r) = omega (arith, rank_lt r, mul_step v b (total bs) h)

lt_cases : (v w : ℕ) → (v < w) ⊎ ((w < v) ⊎ (v ≡ w))
lt_cases zero zero = inr (inr refl)
lt_cases zero (suc w) = inl (omega arith)
lt_cases (suc v) zero = inr (inl (omega arith))
lt_cases (suc v) (suc w) = ground (arith, lt_cases v w)

-- The number of a tuple determines the tuple.
pub rank_unique :
    {bs vs ws : List ℕ} → IsBelow bs vs → IsBelow bs ws → rank bs vs ≡ rank bs ws → vs ≡ ws
unfolding rank
rank_unique nil nil e = refl
rank_unique (cons {b} {v} {bs} {vs} h r) (cons {v = w} {vs = ws} k t) e = elim (lt_cases v w) [
  | inl x ↦ absurd (omega (arith, rank_lt r, rank_lt t, mul_step v w (total bs) x))
  | inr y ↦ elim y [
    | inl x ↦ absurd (omega (arith, rank_lt r, rank_lt t, mul_step w v (total bs) x))
    | inr x ↦
        let p : v * total bs ≡ w * total bs = ap (λ n. n * total bs) x in
        rw x (ap (λ us. w ∷ us) (rank_unique r t (omega (arith, p))))
  ]
]
