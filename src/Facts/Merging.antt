-- ===== src/Facts/Merging.antt =====
-- src/Fact.cpp: `merge_fact` and `merge_facts` lose nothing.
use clsmith.Prelude.{
  ◌≡◌, refl, sym, ap, ◌∙◌, ◌⊎◌, inl, inr, Bool, true, false, some, List, [], ◌∷◌, Bool-cases, All,
  arith,
}
use clsmith.Facts.{FactClass, FactLaws, find_related_fact, merge_fact}

module _ {F : Type 0} (c : FactClass F) (IsValid : F → Type 0) (laws : FactLaws c IsValid) where
  -- The environment has a fact on the variable of the given one, which implies it.
  abbrev pub Implies : List F → F → Type 0
  Implies facts n = (r : F) × (find_related_fact c facts n ≡ some r) × (c.imply r n ≡ true)

  pub related_flip : (f g : F) (b : Bool) → c.is_related f g ≡ b → c.is_related g f ≡ b
  related_flip f g b h = laws.related_symm g f ∙ h

  pub at_head :
      (g h : F) (facts : List F)
      → c.is_related g h ≡ true
      → find_related_fact c (h ∷ facts) g ≡ some h
  unfolding find_related_fact
  at_head g h facts r = rw r refl

  pub past_head :
      (g h : F) (facts : List F)
      → c.is_related g h ≡ false
      → find_related_fact c (h ∷ facts) g ≡ find_related_fact c facts g
  unfolding find_related_fact
  past_head g h facts r = rw r refl

  merge_fact-join :
      (f n : F) (facts : List F)
      → c.is_related f n ≡ true
      → c.imply f n ≡ false
      → merge_fact c (f ∷ facts) n ≡ (c.join n f ∷ facts, true)
  unfolding merge_fact
  merge_fact-join f n facts r i = rw (r, i) refl

  merge_fact-same :
      (f n : F) (facts : List F)
      → c.is_related f n ≡ true
      → c.imply f n ≡ true
      → merge_fact c (f ∷ facts) n ≡ (f ∷ facts, false)
  unfolding merge_fact
  merge_fact-same f n facts r i = rw (r, i) refl

  merge_fact-past :
      (f n : F) (facts : List F)
      → c.is_related f n ≡ false
      → merge_fact c (f ∷ facts) n ≡ (f ∷ (merge_fact c facts n).0, (merge_fact c facts n).1)
  unfolding merge_fact
  merge_fact-past f n facts r = rw r refl

  -- The three ways in which a fact is merged at the head of an environment.
  abbrev pub Head : (f n : F) (facts : List F) → Type 0
  Head f n facts =
      ((c.is_related f n ≡ true) × (merge_fact c (f ∷ facts) n ≡ (c.join n f ∷ facts, true)))
      ⊎ ((c.is_related f n ≡ true)
          × (c.imply f n ≡ true)
          × (merge_fact c (f ∷ facts) n ≡ (f ∷ facts, false)))
      ⊎ ((c.is_related f n ≡ false)
          × (merge_fact c (f ∷ facts) n ≡ (f ∷ (merge_fact c facts n).0, (merge_fact c facts n).1)))

  pub Head-cases : (f n : F) (facts : List F) → Head f n facts
  Head-cases f n facts = elim (Bool-cases (c.is_related f n)) [
    | inl r ↦ elim (Bool-cases (c.imply f n)) [
      | inl i ↦ inr (inl (r, i, merge_fact-same f n facts r i))
      | inr i ↦ inl (r, merge_fact-join f n facts r i)
    ]
    | inr r ↦ inr (inr (r, merge_fact-past f n facts r))
  ]

  pub merge_fact_new : (facts : List F) (n : F) → IsValid n → Implies ((merge_fact c facts n).0) n
  unfolding merge_fact
  merge_fact_new [] n d = (n, at_head n n [] (laws.related_refl n), laws.imply_refl n)
  merge_fact_new (f ∷ facts) n d = elim (Head-cases f n facts) [
    | inl (r, e) ↦ rw e (
      c.join n f,
      at_head n (c.join n f) facts
          (related_flip (c.join n f) n true (laws.join_related n f n ∙ laws.related_refl n)),
      laws.join_left n f d,
    )
    | inr (inl (r, i, e)) ↦ rw e (f, at_head n f facts (related_flip f n true r), i)
    | inr (inr (r, e)) ↦
        let (g, h, i) = merge_fact_new facts n d in
        rw e (g, past_head n f ((merge_fact c facts n).0) (related_flip f n false r) ∙ h, i)
  ]

  abbrev pub Survives : List F → F → F → Type 0
  Survives facts g f = (r : F) × (find_related_fact c facts g ≡ some r) × (c.imply r f ≡ true)

  survives_at_head :
      (g h r f : F) (facts : List F)
      → c.is_related g h ≡ true
      → find_related_fact c (h ∷ facts) g ≡ some f
      → h ≡ f
  survives_at_head g h r f facts e k =
      let found : some h ≡ some f = sym (at_head g h facts e) ∙ k in cc

  nothing : (g f : F) → find_related_fact c [] g ≡ some f → ⊥
  unfolding find_related_fact
  nothing g f k = ground (arith, k)

  pub merge_fact_old :
      (facts : List F) (n g f : F)
      → All IsValid facts
      → find_related_fact c facts g ≡ some f
      → Survives ((merge_fact c facts n).0) g f
  merge_fact_old [] n g f d k = absurd (nothing g f k)
  merge_fact_old (h ∷ facts) n g f d k = elim (Bool-cases (c.is_related g h)) [
    | inl m ↦
        let same : h ≡ f = survives_at_head g h h f facts m k in
        elim (Head-cases h n facts) [
          | inl (r, e) ↦
              let joined : c.is_related g (c.join n h) ≡ true = related_flip (c.join n h) g true (
                laws.join_related n h g
                ∙ sym (laws.related_trans h n g r)
                ∙ related_flip g h true m) in
              rw e (
                c.join n h,
                at_head g (c.join n h) facts joined,
                ap (λ x. c.imply (c.join n h) x) (sym same)
                    ∙ laws.join_right n h d.0 (related_flip h n true r),
              )
          | inr (inl (r, i, e)) ↦
              rw e (h, at_head g h facts m, ap (λ x. c.imply h x) (sym same) ∙ laws.imply_refl h)
          | inr (inr (r, e)) ↦ rw e (
            h,
            at_head g h ((merge_fact c facts n).0) m,
            ap (λ x. c.imply h x) (sym same) ∙ laws.imply_refl h,
          )
        ]
    | inr m ↦
        let later : find_related_fact c facts g ≡ some f = sym (past_head g h facts m) ∙ k in
        elim (Head-cases h n facts) [
          | inl (r, e) ↦
              let joined : c.is_related g (c.join n h) ≡ false = related_flip (c.join n h) g false (
                laws.join_related n h g
                ∙ sym (laws.related_trans h n g r)
                ∙ related_flip g h false m) in
              rw e (f, past_head g (c.join n h) facts joined ∙ later, laws.imply_refl f)
          | inr (inl (r, i, e)) ↦ rw e (f, past_head g h facts m ∙ later, laws.imply_refl f)
          | inr (inr (r, e)) ↦
              let (x, y, z) = merge_fact_old facts n g f d.1 later in
              rw e (x, past_head g h ((merge_fact c facts n).0) m ∙ y, z)
        ]
  ]
