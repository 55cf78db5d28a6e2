-- ===== src/Dfs/Sequences.antt =====
-- src/LinearSequence.cpp: the sequence after numbers were added at the positions from 0 on.
use clsmith.Prelude.{
  ℕ, zero, suc, ◌+◌, ◌≡◌, ◌<◌, refl, ap, ◌∙◌, false, List, [], ◌∷◌, ◌++◌, ◌==◌, ==_refl, ==_iff,
  Bool-cases, inl, inr, length, arith,
}
use clsmith.Dfs.{SeqMap, add_number, number_at, numbers_from, get_sequence}

unfoldable pub numbered : ℕ → List ℕ → SeqMap
numbered n [] = []
numbered n (v ∷ vs) = (n, v) ∷ numbered (suc n) vs

apart : (j k : ℕ) → j < k → (j == k) ≡ false
apart j k h = elim (Bool-cases (j == k)) [
  | inl e ↦ absurd (omega (arith, h, (==_iff j k).0 e))
  | inr e ↦ e
]

add_number-numbered :
    (n : ℕ) (vs : List ℕ) (v : ℕ)
    → add_number v (n + length vs) (numbered n vs) ≡ numbered n (vs ++ (v ∷ []))
unfolding numbered add_number
add_number-numbered n [] v = ap (λ k. (k, v) ∷ []) (omega arith)
add_number-numbered n (w ∷ vs) v =
    let rest = add_number-numbered (suc n) vs v in
    rw (add_number, apart n (n + suc (length vs)) (omega arith))
      (ap (λ m. (n, w) ∷ m) (ap (λ k. add_number v k (numbered (suc n) vs)) (omega arith) ∙ rest))

pub add_next :
    (n : ℕ) (vs : List ℕ) (v : ℕ)
    → n ≡ length vs
    → add_number v n (numbered 0 vs) ≡ numbered 0 (vs ++ (v ∷ []))
add_next n vs v e =
    ap (λ k. add_number v k (numbered 0 vs)) (omega (arith, e)) ∙ add_number-numbered 0 vs v

skip_first :
    (j w : ℕ) (m : SeqMap) (k n : ℕ) → j < k → numbers_from ((j, w) ∷ m) k n ≡ numbers_from m k n
unfolding numbers_from number_at
skip_first j w m k zero h = refl
skip_first j w m k (suc n) h =
    rw (numbers_from, number_at, apart j k h)
      (ap (λ r. number_at m k ∷ r) (skip_first j w m (suc k) n (omega (arith, h))))

numbers_from-numbered :
    (n : ℕ) (vs : List ℕ) → numbers_from (numbered n vs) n (length (numbered n vs)) ≡ vs
unfolding numbers_from numbered number_at
numbers_from-numbered n [] = refl
numbers_from-numbered n (v ∷ vs) = rw (==_refl n) (
    ap (λ r. v ∷ r)
      (skip_first n v (numbered (suc n) vs) (suc n) _ (omega arith)
        ∙ numbers_from-numbered (suc n) vs))

pub get_sequence-numbered : (vs : List ℕ) → get_sequence (numbered 0 vs) ≡ vs
unfolding get_sequence
get_sequence-numbered vs = numbers_from-numbered 0 vs
