-- ===== src/Dfs/Outputs.antt =====
-- The list of outputs, where the loop may not have ended.
use clsmith.Prelude.{
  ℕ, ◌+◌, ◌≡◌, refl, sym, ap, Option, none, some, List, [], ◌∷◌, ◌++◌, map, arith,
}
use mathlib.Core.List.{append_assoc}

abbrev pub emit : List (List ℕ) → Option (List (List ℕ)) → Option (List (List ℕ))
emit xs o = elim o [ none ↦ none | some ys ↦ some (xs ++ ys) ]

pub emit-emit :
    (xs ys : List (List ℕ)) (o : Option (List (List ℕ))) → emit xs (emit ys o) ≡ emit (xs ++ ys) o
emit-emit xs ys none = refl
emit-emit xs ys (some zs) = ap some (sym (append_assoc xs ys zs))

abbrev pub behind : List ℕ → List (List ℕ) → List (List ℕ)
behind pre = map (λ vs. pre ++ vs)

pub behind-append :
    (pre : List ℕ) (xs ys : List (List ℕ)) → behind pre (xs ++ ys) ≡ behind pre xs ++ behind pre ys
behind-append pre [] ys = refl
behind-append pre (x ∷ xs) ys = ap (λ r. (pre ++ x) ∷ r) (behind-append pre xs ys)

pub behind-next :
    (pre : List ℕ) (v : ℕ) (xs : List (List ℕ))
    → behind (pre ++ (v ∷ [])) xs ≡ behind pre (map (λ vs. v ∷ vs) xs)
behind-next pre v [] = refl
behind-next pre v (x ∷ xs) =
    rw (append_assoc pre (v ∷ []) x) (ap (λ r. (pre ++ (v ∷ x)) ∷ r) (behind-next pre v xs))

pub zero_plus : (n : ℕ) → 0 + n ≡ n
zero_plus n = omega arith

pub kept :
    (o : Option (List (List ℕ))) → (elim o [ none ↦ none | some rest ↦ some rest ]) ≡ emit [] o
kept none = refl
kept (some rest) = refl

pub led :
    (x : List ℕ) (o : Option (List (List ℕ)))
    → (elim o [ none ↦ none | some rest ↦ some (x ∷ rest) ]) ≡ emit (x ∷ []) o
led x none = refl
led x (some rest) = refl

pub behind-nil : (xs : List (List ℕ)) → behind [] xs ≡ xs
behind-nil [] = refl
behind-nil (x ∷ xs) = ap (λ r. x ∷ r) (behind-nil xs)
