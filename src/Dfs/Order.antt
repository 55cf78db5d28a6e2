-- ===== src/Dfs/Order.antt =====
-- The paths of a program: which sequences of choices they are, and their order.
use clsmith.Prelude.{
  ℕ, zero, suc, ◌+◌, ◌≡◌, ◌≤◌, ◌<◌, ◌⊎◌, refl, ap, ◌∙◌, inl, inr, Bool, true, false, not, ◌&&◌,
  ◌||◌, List, [], ◌∷◌, ◌++◌, map, ltb, leb, ◌==◌, ==_iff, Bool-cases, All, All-append, arith,
}
use clsmith.Dfs.{Generation, finished, choose, need, is_invalid}
use clsmith.Dfs.Paths.{paths, branches, is_in_reach}

unfoldable pub same_choices : List ℕ → List ℕ → Bool
same_choices [] [] = true
same_choices [] (w ∷ ws) = false
same_choices (v ∷ vs) [] = false
same_choices (v ∷ vs) (w ∷ ws) = v == w && same_choices vs ws

unfoldable pub is_among : List ℕ → List (List ℕ) → Bool
is_among vs [] = false
is_among vs (ws ∷ xs) = same_choices vs ws || is_among vs xs

-- The order of the numbers at the first choice that is not the same.
abbrev pub Before : List ℕ → List ℕ → Type 0
Before [] ws = ⊥
Before (v ∷ vs) [] = ⊥
Before (v ∷ vs) (w ∷ ws) = (v < w) ⊎ ((v ≡ w) × Before vs ws)

abbrev pub Ascending : List (List ℕ) → Type 0
Ascending [] = Unit
Ascending (vs ∷ xs) = All (Before vs) xs × Ascending xs

module _ (max_exhaustive_depth : ℕ) where
  -- The choices that finish the program after `n` earlier ones.
  unfoldable pub is_path : Generation → ℕ → List ℕ → Bool
  is_path finished n [] = true
  is_path finished n (v ∷ vs) = false
  is_path (choose bound filter invalid_nums next) n [] = false
  is_path (choose bound filter invalid_nums next) n (v ∷ vs) =
      ltb n max_exhaustive_depth
      && (ltb v bound && (not (is_invalid filter invalid_nums v) && is_path (next v) (suc n) vs))
  is_path (need depth_needed next) n vs =
      is_in_reach max_exhaustive_depth n depth_needed && is_path next n vs

is_among-append :
    (vs : List ℕ) (xs ys : List (List ℕ))
    → is_among vs (xs ++ ys) ≡ (is_among vs xs || is_among vs ys)
unfolding is_among
is_among-append vs [] ys = refl
is_among-append vs (x ∷ xs) ys = ground (arith, is_among-append vs xs ys)

is_among-map :
    (w v : ℕ) (ws : List ℕ) (xs : List (List ℕ))
    → is_among (w ∷ ws) (map (λ vs. v ∷ vs) xs) ≡ (w == v && is_among ws xs)
unfolding is_among same_choices
is_among-map w v ws [] = ground arith
is_among-map w v ws (x ∷ xs) = ground (arith, is_among-map w v ws xs)

is_among-map_nil : (v : ℕ) (xs : List (List ℕ)) → is_among [] (map (λ vs. v ∷ vs) xs) ≡ false
unfolding is_among same_choices
is_among-map_nil v [] = refl
is_among-map_nil v (x ∷ xs) = is_among-map_nil v xs

StartsFrom : ℕ → List ℕ → Type 0
StartsFrom v [] = ⊥
StartsFrom v (w ∷ ws) = v ≤ w

StartsFrom-suc : (v : ℕ) (x : List ℕ) → StartsFrom (suc v) x → StartsFrom v x
unfolding StartsFrom
StartsFrom-suc v [] h = h
StartsFrom-suc v (w ∷ ws) h = omega (arith, h)

All-map :
    (v : ℕ) (xs : List (List ℕ)) (P Q : List ℕ → Type 0)
    → ((x : List ℕ) → P x → Q (v ∷ x))
    → All P xs
    → All Q (map (λ vs. v ∷ vs) xs)
All-map v [] P Q h a = tt
All-map v (x ∷ xs) P Q h (a, as') = (h x a, All-map v xs P Q h as')

All-mono :
    (xs : List (List ℕ)) (P Q : List ℕ → Type 0) → ((x : List ℕ) → P x → Q x) → All P xs → All Q xs
All-mono [] P Q h a = tt
All-mono (x ∷ xs) P Q h (a, as') = (h x a, All-mono xs P Q h as')

All-trivial : (xs : List (List ℕ)) → All (λ _. Unit {0}) xs
All-trivial [] = tt
All-trivial (x ∷ xs) = (tt, All-trivial xs)

Ascending-map : (v : ℕ) (xs : List (List ℕ)) → Ascending xs → Ascending (map (λ vs. v ∷ vs) xs)
Ascending-map v [] a = tt
Ascending-map v (x ∷ xs) (b, a) =
    (All-map v xs (Before x) (Before (v ∷ x)) (λ y c. inr (refl, c)) b, Ascending-map v xs a)

-- What starts with one number stands before what starts with greater ones.
Ascending-append :
    (v : ℕ) (xs ys : List (List ℕ))
    → Ascending (map (λ vs. v ∷ vs) xs)
    → Ascending ys
    → All (StartsFrom (suc v)) ys
    → Ascending (map (λ vs. v ∷ vs) xs ++ ys)
unfolding StartsFrom
Ascending-append v [] ys a b s = b
Ascending-append v (x ∷ xs) ys (a, as') b s = (
  All-append (Before (v ∷ x)) (map (λ vs. v ∷ vs) xs) ys a
      (All-mono ys (StartsFrom (suc v)) (Before (v ∷ x)) later s),
  Ascending-append v xs ys as' b s,
)
  where
    later : (y : List ℕ) → StartsFrom (suc v) y → Before (v ∷ x) y
    later [] h = h
    later (w ∷ ws) h = inl h

module _ (invalid : ℕ → Bool) (f : ℕ → List (List ℕ)) where
  abbrev all_branches : ℕ → ℕ → List (List ℕ)
  all_branches v j = branches invalid (λ v. map (λ vs. v ∷ vs) (f v)) v j

  is_among-branches :
      (w : ℕ) (ws : List ℕ) (v j : ℕ)
      → is_among (w ∷ ws) (all_branches v j)
        ≡ (leb v w && (ltb w (v + j) && (not (invalid w) && is_among ws (f w))))
  unfolding branches is_among
  is_among-branches w ws v zero = ground arith
  is_among-branches w ws v (suc j) = elim (Bool-cases (invalid v)) [
    | inl e ↦ rw e (rejected e (is_among-branches w ws (suc v) j))
    | inr e ↦ rw e (
        is_among-append (w ∷ ws) (map (λ vs. v ∷ vs) (f v)) (all_branches (suc v) j)
        ∙ accepted e (is_among-map w v ws (f v)) (is_among-branches w ws (suc v) j))
  ]
    where
      rejected :
          {b : Bool}
          → invalid v ≡ true
          → b ≡ (leb (suc v) w && (ltb w (suc v + j) && (not (invalid w) && is_among ws (f w))))
          → b ≡ (leb v w && (ltb w (v + suc j) && (not (invalid w) && is_among ws (f w))))
      rejected e h = elim (Bool-cases (w == v)) [
        | inl s ↦ ground (arith, ap invalid ((==_iff w v).0 s), e, h, s)
        | inr s ↦ ground (arith, h, s)
      ]

      accepted :
          {a b : Bool}
          → invalid v ≡ false
          → a ≡ (w == v && is_among ws (f v))
          → b ≡ (leb (suc v) w && (ltb w (suc v + j) && (not (invalid w) && is_among ws (f w))))
          → (a || b) ≡ (leb v w && (ltb w (v + suc j) && (not (invalid w) && is_among ws (f w))))
      accepted e g h = elim (Bool-cases (w == v)) [
        | inl s ↦ ground (
          arith,
          ap invalid ((==_iff w v).0 s),
          ap (λ k. is_among ws (f k)) ((==_iff w v).0 s),
          e,
          g,
          h,
          s,
        )
        | inr s ↦ ground (arith, g, h, s)
      ]

  is_among-branches_nil : (v j : ℕ) → is_among [] (all_branches v j) ≡ false
  unfolding branches is_among
  is_among-branches_nil v zero = refl
  is_among-branches_nil v (suc j) = elim (Bool-cases (invalid v)) [
    | inl e ↦ rw e (is_among-branches_nil (suc v) j)
    | inr e ↦ rw e (
        is_among-append [] (map (λ vs. v ∷ vs) (f v)) (all_branches (suc v) j)
        ∙ rw (is_among-map_nil v (f v)) (is_among-branches_nil (suc v) j))
  ]

  StartsFrom-branches : (v j : ℕ) → All (StartsFrom v) (all_branches v j)
  unfolding branches StartsFrom
  StartsFrom-branches v zero = tt
  StartsFrom-branches v (suc j) = elim (Bool-cases (invalid v)) [
    | inl e ↦ rw e (
        All-mono (all_branches (suc v) j) (StartsFrom (suc v)) (StartsFrom v) (StartsFrom-suc v)
          (StartsFrom-branches (suc v) j))
    | inr e ↦ rw e (
        All-append (StartsFrom v) (map (λ vs. v ∷ vs) (f v)) (all_branches (suc v) j)
          (All-map v (f v) (λ _. Unit {0}) (StartsFrom v) (λ x _. omega arith) (All-trivial (f v)))
          (All-mono (all_branches (suc v) j) (StartsFrom (suc v)) (StartsFrom v) (StartsFrom-suc v)
            (StartsFrom-branches (suc v) j)))
  ]

  Ascending-branches : ((v : ℕ) → Ascending (f v)) → (v j : ℕ) → Ascending (all_branches v j)
  unfolding branches
  Ascending-branches h v zero = tt
  Ascending-branches h v (suc j) = elim (Bool-cases (invalid v)) [
    | inl e ↦ rw e (Ascending-branches h (suc v) j)
    | inr e ↦ rw e (
        Ascending-append v (f v) (all_branches (suc v) j) (Ascending-map v (f v) (h v))
          (Ascending-branches h (suc v) j) (StartsFrom-branches (suc v) j))
  ]

module _ (max : ℕ) where
  pub is_among-paths :
      (p : Generation) (n : ℕ) (vs : List ℕ) → is_among vs (paths max p n) ≡ is_path max p n vs
  unfolding paths is_path is_among same_choices
  is_among-paths finished n [] = refl
  is_among-paths finished n (v ∷ vs) = refl
  is_among-paths (choose bound filter invalid_nums next) n [] = elim (Bool-cases (leb max n)) [
    | inl e ↦ rw e refl
    | inr e ↦ rw e (is_among-branches_nil _ _ 0 bound)
  ]
  is_among-paths (choose bound filter invalid_nums next) n (v ∷ vs) =
      elim (Bool-cases (leb max n)) [
        | inl e ↦ rw e (ground (arith, e))
        | inr e ↦ rw e (
            is_among-branches (is_invalid filter invalid_nums) (λ v. paths max (next v) (suc n)) v
              vs 0 bound
            ∙ ground (arith, e, is_among-paths (next v) (suc n) vs))
      ]
  is_among-paths (need depth_needed next) n vs = ground (arith, is_among-paths next n vs)

  pub Ascending-paths : (p : Generation) (n : ℕ) → Ascending (paths max p n)
  unfolding paths
  Ascending-paths finished n = (tt, tt)
  Ascending-paths (choose bound filter invalid_nums next) n = elim (Bool-cases (leb max n)) [
    | inl e ↦ rw e tt
    | inr e ↦ rw e (Ascending-branches _ _ (λ v. Ascending-paths (next v) (suc n)) 0 bound)
  ]
  Ascending-paths (need depth_needed next) n = elim (Bool-cases (is_in_reach max n depth_needed)) [
    | inl e ↦ rw e (Ascending-paths next n)
    | inr e ↦ rw e tt
  ]
