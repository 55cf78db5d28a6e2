-- ===== src/Divergence/Marking.antt =====
-- src/CLSmith/Divergence.cpp: `MarkSubBlockDivergentViral`, which makes a sub-block divergent with the
-- branches below it. `linked` are a sub-block and those linked after it, and `branches` the sub-blocks
-- at the start of the blocks that `scope_levels_final_` lists. The recursion takes fuel.
use clsmith.Prelude.{
  ℕ, zero, suc, ◌≡◌, ◌≤◌, ◌<◌, inl, inr, refl, Bool, true, false, ◌||◌, Option, none, some, List,
  [], ◌∷◌, any, length, if◌then◌else◌, ◌==◌, ==_iff, ==_refl, Bool-cases, arith,
}
use clsmith.Divergence.{number_key, DivMap, at, put}
use clsmith.Divergence.Maps.{find-put}

pub record SubBlocks : Type 0 where
  pub linked : ℕ → List ℕ
  pub branches : ℕ → List ℕ

unfoldable pub mark_each :
    (ℕ → DivMap ℕ → Option (DivMap ℕ)) → List ℕ → DivMap ℕ → Option (DivMap ℕ)
mark_each f [] m = some m
mark_each f (x ∷ xs) m = elim (f x m) [ none ↦ none | some m' ↦ mark_each f xs m' ]

any-intro :
    (p : ℕ → Bool) (xs : List ℕ) (x : ℕ)
    → any (λ y. y == x) xs ≡ true
    → p x ≡ true
    → any p xs ≡ true
any-intro p [] x i h = absurd (ground (arith, i))
any-intro p (y ∷ ys) x i h = elim (Bool-cases (y == x)) [
  | inl e ↦ let now : p y ≡ true = rw ((==_iff y x).0 e) h in ground (arith, now)
  | inr e ↦ ground (arith, any-intro p ys x (ground (arith, i, e)) h)
]

module _ (s : SubBlocks) where
  unfoldable pub mark_sub_block_divergent_viral : ℕ → ℕ → DivMap ℕ → Option (DivMap ℕ)
  mark_sub_block_divergent_viral zero b m = none
  mark_sub_block_divergent_viral (suc fuel) b m =
      let rest =
        mark_each (λ c. mark_each (mark_sub_block_divergent_viral fuel) (s.branches c)) (s.linked b)
          (put m b true) in
      if at m b then some m else rest

  -- A branch of the sub-block, or of one that is linked after it.
  abbrev pub is_below : ℕ → ℕ → Bool
  is_below b c = any (λ d. any (λ x. x == c) (s.branches d)) (s.linked b)

  pub data Reaches : ℕ → ℕ → Type 0 where
    here : {b : ℕ} → Reaches b b
    branch : {b : ℕ} → {c : ℕ} → {d : ℕ} → is_below b c ≡ true → Reaches c d → Reaches b d

  -- What a step does with the marks: all that must be marked is, no mark is lost, and a new one is on
  -- a sub-block that the step may mark, whose branches are all marked.
  Outcome : (ℕ → Type 0) → (ℕ → Bool) → DivMap ℕ → DivMap ℕ → Type 0
  Outcome Source must m m' =
      ((c : ℕ) → must c ≡ true → at m' c ≡ true)
      × ((c : ℕ) → at m c ≡ true → at m' c ≡ true)
      × ((c : ℕ)
          → at m c ≡ false
          → at m' c ≡ true
          → Source c × ((d : ℕ) → is_below c d ≡ true → at m' d ≡ true))

  unmarked : List ℕ → DivMap ℕ → ℕ
  unmarked [] m = 0
  unmarked (c ∷ cs) m = if at m c then unmarked cs m else suc (unmarked cs m)

  unmarked-le-length : (all : List ℕ) (m : DivMap ℕ) → unmarked all m ≤ length all
  unfolding unmarked
  unmarked-le-length [] m = omega arith
  unmarked-le-length (c ∷ cs) m = ground (arith, unmarked-le-length cs m)

  unmarked_mono :
      (all : List ℕ) (m m' : DivMap ℕ)
      → ((c : ℕ) → at m c ≡ true → at m' c ≡ true)
      → unmarked all m' ≤ unmarked all m
  unfolding unmarked
  unmarked_mono [] m m' h = omega arith
  unmarked_mono (c ∷ cs) m m' h = ground (arith, h c, unmarked_mono cs m m' h)

  at-put : (m : DivMap ℕ) (b c : ℕ) → at (put m b true) c ≡ (b == c || at m c)
  at-put m b c =
      rw (find-put m b c true)
        (elim (Bool-cases (b == c)) [ inl e ↦ rw e refl | inr e ↦ rw e refl ])

  at-put_keeps : (m : DivMap ℕ) (b c : ℕ) → at m c ≡ true → at (put m b true) c ≡ true
  at-put_keeps m b c h = ground (arith, at-put m b c, h)

  unmarked-put :
      (all : List ℕ) (m : DivMap ℕ) (b : ℕ)
      → any (λ x. x == b) all ≡ true
      → at m b ≡ false
      → unmarked all (put m b true) < unmarked all m
  unfolding unmarked
  unmarked-put [] m b i e = absurd (ground (arith, i))
  unmarked-put (c ∷ cs) m b i e = elim (Bool-cases (c == b)) [
    | inl f ↦
        let same : at m c ≡ false = rw ((==_iff c b).0 f) e in
        let now : at (put m b true) c ≡ true = ground (arith, at-put m b c, f) in
        rw (same, now) (omega (arith, unmarked_mono cs m (put m b true) (at-put_keeps m b)))
    | inr f ↦
        let rest = unmarked-put cs m b (ground (arith, i, f)) e in
        let same : at (put m b true) c ≡ at m c = ground (arith, at-put m b c, f) in
        rw same
          (elim (Bool-cases (at m c)) [ inl g ↦ rw g rest | inr g ↦ rw g (omega (arith, rest)) ])
  ]

  Outcome-next :
      (Source : ℕ → Type 0) (must must' : ℕ → Bool) (m m1 m2 : DivMap ℕ)
      → Outcome Source must m m1
      → Outcome Source must' m1 m2
      → Outcome Source (λ c. must c || must' c) m m2
  unfolding Outcome
  Outcome-next Source must must' m m1 m2 (a, k, n) (a', k', n') = (
    λ c h. elim (Bool-cases (must c)) [
      | inl e ↦ k' c (a c e)
      | inr e ↦ a' c (ground (arith, h, e))
    ],
    λ c h. k' c (k c h),
    λ c h h'. elim (Bool-cases (at m1 c)) [
      | inl e ↦ let (src, below) = n c h e in (src, λ d i. k' d (below d i))
      | inr e ↦ n' c e h'
    ],
  )

  Outcome-below :
      (b x : ℕ) (m m' : DivMap ℕ)
      → is_below b x ≡ true
      → Outcome (Reaches x) (λ c. x == c) m m'
      → Outcome (Reaches b) (λ c. x == c) m m'
  unfolding Outcome
  Outcome-below b x m m' i (a, k, n) =
      (a, k, λ c h h'. let (r, below) = n c h h' in (branch i r, below))

  -- The sub-block itself is marked first.
  Outcome-self :
      (b : ℕ) (m m' : DivMap ℕ)
      → Outcome (Reaches b) (is_below b) (put m b true) m'
      → Outcome (Reaches b) (λ c. b == c) m m'
  unfolding Outcome
  Outcome-self b m m' (a, k, n) = (
    λ c h. k c (ground (arith, at-put m b c, h)),
    λ c h. k c (at-put_keeps m b c h),
    λ c h h'. elim (Bool-cases (b == c)) [
      | inl e ↦ let same : b ≡ c = (==_iff b c).0 e in (rw same here, λ d i. a d (rw same i))
      | inr e ↦ n c (ground (arith, at-put m b c, h, e)) h'
    ],
  )

  module _ (all : List ℕ)
      (closed : (b c : ℕ)
        → any (λ x. x == b) all ≡ true
        → is_below b c ≡ true
        → any (λ x. x == c) all ≡ true) where
    mark_each-Outcome :
        (Source : ℕ → Type 0) (need : ℕ → ℕ → Bool) (f : ℕ → DivMap ℕ → Option (DivMap ℕ)) (k : ℕ)
        (xs : List ℕ)
        → ((x : ℕ) (m : DivMap ℕ)
            → any (λ y. y == x) xs ≡ true
            → unmarked all m < k
            → (m' : DivMap ℕ) × (f x m ≡ some m') × Outcome Source (need x) m m')
        → (m : DivMap ℕ) → unmarked all m < k
        → (m' : DivMap ℕ) × (mark_each f xs m ≡ some m')
          × Outcome Source (λ c. any (λ x. need x c) xs) m m'
    unfolding mark_each Outcome
    mark_each-Outcome Source need f k [] h m l = (
      m,
      refl,
      (λ c e. absurd (ground (arith, e)), λ c e. e, λ c e e'. absurd (ground (arith, e, e'))),
    )
    mark_each-Outcome Source need f k (x ∷ xs) h m l =
        let (m1, e1, o1) = h x m (ground (arith, ==_refl x)) l in
        let fewer = unmarked_mono all m m1 o1.1 in
        let (m2, e2, o2) =
          mark_each-Outcome Source need f k xs (λ y n i. h y n (ground (arith, i))) m1
            (omega (arith, fewer, l)) in
        (
          m2,
          rw (mark_each, e1) e2,
          Outcome-next Source (need x) (λ c. any (λ y. need y c) xs) m m1 m2 o1 o2,
        )

    -- Below one sub-block, where each branch is marked as it should be.
    below_Outcome :
        (fuel b : ℕ)
        → any (λ x. x == b) all ≡ true
        → ((c : ℕ) (m : DivMap ℕ)
            → any (λ x. x == c) all ≡ true
            → unmarked all m < fuel
            → (m' : DivMap ℕ) × (mark_sub_block_divergent_viral fuel c m ≡ some m')
              × Outcome (Reaches c) (λ d. c == d) m m')
        → (m : DivMap ℕ) → unmarked all m < fuel
        → (m' : DivMap ℕ) × (mark_each
              (λ c. mark_each (mark_sub_block_divergent_viral fuel) (s.branches c))
              (s.linked b)
              m
            ≡ some m')
          × Outcome (Reaches b) (is_below b) m m'
    below_Outcome fuel b i mark =
        mark_each-Outcome (Reaches b) (λ d c. any (λ x. x == c) (s.branches d)) _ fuel (s.linked b)
          (λ d m j l.
            mark_each-Outcome (Reaches b) (λ x c. x == c) (mark_sub_block_divergent_viral fuel) fuel
              (s.branches d)
              (λ x m n k.
                let below : is_below b x ≡ true =
                  any-intro (λ d. any (λ y. y == x) (s.branches d)) (s.linked b) d j n in
                let (m', e, o) = mark x m (closed b x i below) k in
                (m', e, Outcome-below b x m m' below o))
              m l)

    marked :
        (fuel b : ℕ) (m : DivMap ℕ)
        → any (λ x. x == b) all ≡ true
        → unmarked all m < fuel
        → (m' : DivMap ℕ) × (mark_sub_block_divergent_viral fuel b m ≡ some m')
          × Outcome (Reaches b) (λ c. b == c) m m'
    unfolding mark_sub_block_divergent_viral Outcome
    marked zero b m i l = absurd (omega (arith, l))
    marked (suc fuel) b m i l = elim (Bool-cases (at m b)) [
      | inl e ↦ rw e (
        m,
        refl,
        (λ c h. rw (← (==_iff b c).0 h) e, λ c h. h, λ c h h'. absurd (ground (arith, h, h'))),
      )
      | inr e ↦
          let less = unmarked-put all m b i e in
          let (m', q, o) =
            below_Outcome fuel b i (λ c m j k. marked fuel c m j k) (put m b true)
              (omega (arith, less, l)) in
          rw e (m', q, Outcome-self b m m' o)
    ]

    -- In a program with finitely many sub-blocks, where the branches of one are among them, and with
    -- more fuel than there are sub-blocks, `mark_sub_block_divergent_viral` ends. The sub-block is
    -- divergent then, and all that was divergent still is. What became divergent is the sub-block or is
    -- reached from it through branches, and all its own branches, those of the sub-blocks linked after
    -- it included, are divergent.
    pub mark_sub_block_divergent_viral_lem :
        (fuel b : ℕ) (m : DivMap ℕ)
        → any (λ x. x == b) all ≡ true
        → length all < fuel
        → (m' : DivMap ℕ) × (mark_sub_block_divergent_viral fuel b m ≡ some m')
          × (at m' b ≡ true)
          × ((c : ℕ) → at m c ≡ true → at m' c ≡ true)
          × ((c : ℕ)
              → at m c ≡ false
              → at m' c ≡ true
              → Reaches b c × ((d : ℕ) → is_below c d ≡ true → at m' d ≡ true))
    unfolding Outcome
    mark_sub_block_divergent_viral_lem fuel b m i l =
        let (m', q, (a, k, n)) = marked fuel b m i (omega (arith, l, unmarked-le-length all m)) in
        (m', q, a b (==_refl b), k, n)
