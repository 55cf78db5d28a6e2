-- ===== src/Facts/Environments.antt =====
-- src/Fact.cpp: what `merge_facts` and `renew_facts` make of an environment, for any class of facts
-- with the laws.
use clsmith.Prelude.{
  ◌≡◌, refl, sym, ap, ◌∙◌, ◌⊎◌, inl, inr, true, false, some, List, [], ◌∷◌, Bool-cases, All, arith,
}
use clsmith.Facts.{FactClass, FactLaws, find_related_fact, merge_fact, merge_facts, renew_fact}
use clsmith.Facts.Merging.{
  Implies, Survives, Head-cases, merge_fact_new, merge_fact_old, at_head, past_head, related_flip,
}

module _ {F : Type 0} (c : FactClass F) (IsValid : F → Type 0) (laws : FactLaws c IsValid) where
  merge_fact_valid :
      (facts : List F) (n : F)
      → All IsValid facts
      → IsValid n
      → All IsValid ((merge_fact c facts n).0)
  unfolding merge_fact
  merge_fact_valid [] n h d = (d, tt)
  merge_fact_valid (f ∷ facts) n h d = elim (Head-cases c IsValid laws f n facts) [
    | inl (r, e) ↦ rw e (laws.join_valid n f d h.0, h.1)
    | inr (inl (r, i, e)) ↦ rw e h
    | inr (inr (r, e)) ↦ rw e (h.0, merge_fact_valid facts n h.1 d)
  ]

  merge_fact_unchanged :
      (facts : List F) (n : F) → (merge_fact c facts n).1 ≡ false → (merge_fact c facts n).0 ≡ facts
  unfolding merge_fact
  merge_fact_unchanged [] n h = absurd (ground (arith, h))
  merge_fact_unchanged (f ∷ facts) n h = elim (Head-cases c IsValid laws f n facts) [
    | inl (r, e) ↦ absurd (ground (arith, sym (ap (λ p. p.1) e) ∙ h))
    | inr (inl (r, i, e)) ↦ rw e refl
    | inr (inr (r, e)) ↦
        rw e (ap (λ fs. f ∷ fs) (merge_fact_unchanged facts n (sym (ap (λ p. p.1) e) ∙ h)))
  ]

  Survives-All :
      (facts new_facts : List F) (g f : F)
      → All IsValid facts
      → All IsValid new_facts
      → find_related_fact c facts g ≡ some f
      → Survives c IsValid laws ((merge_facts c facts new_facts).0) g f
  unfolding merge_facts
  Survives-All facts [] g f h d k = (f, k, laws.imply_refl f)
  Survives-All facts (n ∷ new_facts) g f h d k =
      let facts1 = (merge_fact c facts n).0 in
      let (r, found, i) = merge_fact_old c IsValid laws facts n g f h k in
      let (t, there, j) =
        Survives-All facts1 new_facts g r (merge_fact_valid facts n h d.0) d.1 found in
      (t, there, laws.imply_trans t r f j i)

  Implies-All :
      (facts new_facts : List F)
      → All IsValid facts
      → All IsValid new_facts
      → All (Implies c IsValid laws ((merge_facts c facts new_facts).0)) new_facts
  unfolding merge_facts
  Implies-All facts [] h d = tt
  Implies-All facts (n ∷ new_facts) h d =
      let facts1 = (merge_fact c facts n).0 in
      let valid = merge_fact_valid facts n h d.0 in
      let (r, found, i) = merge_fact_new c IsValid laws facts n d.0 in
      let (t, there, j) = Survives-All facts1 new_facts n r valid d.1 found in
      ((t, there, laws.imply_trans t r n j i), Implies-All facts1 new_facts valid d.1)

  merge_facts_valid :
      (facts new_facts : List F)
      → All IsValid facts
      → All IsValid new_facts
      → All IsValid ((merge_facts c facts new_facts).0)
  unfolding merge_facts
  merge_facts_valid facts [] h d = h
  merge_facts_valid facts (n ∷ new_facts) h d =
      merge_facts_valid ((merge_fact c facts n).0) new_facts (merge_fact_valid facts n h d.0) d.1

  unchanged_all :
      (facts new_facts : List F)
      → (merge_facts c facts new_facts).1 ≡ false
      → (merge_facts c facts new_facts).0 ≡ facts
  unfolding merge_facts
  unchanged_all facts [] h = refl
  unchanged_all facts (n ∷ new_facts) h =
      let facts1 = (merge_fact c facts n).0 in
      unchanged_all facts1 new_facts (ground arith) ∙ merge_fact_unchanged facts n (ground arith)

  -- For any class of facts with the laws, merging valid facts into an environment of valid facts
  -- loses nothing: of every new fact the result has a fact on the same variable that implies it, of
  -- every fact that was found before it has one that implies that fact, all its facts are valid, and
  -- a result of `false` means that nothing was changed.
  pub merge_facts_upper_bound :
      (facts new_facts : List F)
      → All IsValid facts
      → All IsValid new_facts
      → All (Implies c IsValid laws ((merge_facts c facts new_facts).0)) new_facts
        × ((g f : F)
            → find_related_fact c facts g ≡ some f
            → Survives c IsValid laws ((merge_facts c facts new_facts).0) g f)
        × All IsValid ((merge_facts c facts new_facts).0)
        × ((merge_facts c facts new_facts).1 ≡ false → (merge_facts c facts new_facts).0 ≡ facts)
  merge_facts_upper_bound facts new_facts h d = (
    Implies-All facts new_facts h d,
    λ g f k. Survives-All facts new_facts g f h d k,
    merge_facts_valid facts new_facts h d,
    unchanged_all facts new_facts,
  )

  renew_past :
      (f n : F) (facts : List F)
      → c.is_related n f ≡ false
      → (renew_fact c (f ∷ facts) n).0 ≡ f ∷ (renew_fact c facts n).0
  unfolding renew_fact
  renew_past f n facts r = rw r refl

  renew_equal :
      (f n : F) (facts : List F)
      → c.is_related n f ≡ true
      → c.equal n f ≡ true
      → (renew_fact c (f ∷ facts) n).0 ≡ f ∷ facts
  unfolding renew_fact
  renew_equal f n facts r e = rw (r, e) refl

  renew_replaced :
      (f n : F) (facts : List F)
      → c.is_related n f ≡ true
      → c.equal n f ≡ false
      → (renew_fact c (f ∷ facts) n).0 ≡ n ∷ facts
  unfolding renew_fact
  renew_replaced f n facts r e = rw (r, e) refl

  renewed :
      (facts : List F) (n : F)
      → (r : F) × (find_related_fact c ((renew_fact c facts n).0) n ≡ some r)
        × ((r ≡ n) ⊎ (c.equal n r ≡ true))
  unfolding renew_fact
  renewed [] n = (n, at_head c IsValid laws n n [] (laws.related_refl n), inl refl)
  renewed (f ∷ facts) n = elim (Bool-cases (c.is_related n f)) [
    | inl r ↦ elim (Bool-cases (c.equal n f)) [
      | inl e ↦ rw (renew_equal f n facts r e) (f, at_head c IsValid laws n f facts r, inr e)
      | inr e ↦
          rw (renew_replaced f n facts r e)
            (n, at_head c IsValid laws n n facts (laws.related_refl n), inl refl)
    ]
    | inr r ↦
        let (x, k, o) = renewed facts n in
        rw (renew_past f n facts r)
          (x, past_head c IsValid laws n f ((renew_fact c facts n).0) r ∙ k, o)
  ]

  others_kept :
      (facts : List F) (n g : F)
      → c.is_related g n ≡ false
      → find_related_fact c ((renew_fact c facts n).0) g ≡ find_related_fact c facts g
  unfolding renew_fact
  others_kept [] n g u = past_head c IsValid laws g n [] u
  others_kept (f ∷ facts) n g u = elim (Bool-cases (c.is_related n f)) [
    | inl r ↦ elim (Bool-cases (c.equal n f)) [
      | inl e ↦ rw (renew_equal f n facts r e) refl
      | inr e ↦
          let away : c.is_related g f ≡ false =
            related_flip c IsValid laws f g false
              (sym (laws.related_trans n f g r) ∙ related_flip c IsValid laws g n false u) in
          rw (renew_replaced f n facts r e)
            (past_head c IsValid laws g n facts u ∙ sym (past_head c IsValid laws g f facts away))
    ]
    | inr r ↦ rw (renew_past f n facts r) (elim (Bool-cases (c.is_related g f)) [
      | inl m ↦
          at_head c IsValid laws g f ((renew_fact c facts n).0) m
          ∙ sym (at_head c IsValid laws g f facts m)
      | inr m ↦
          past_head c IsValid laws g f ((renew_fact c facts n).0) m
          ∙ others_kept facts n g u
          ∙ sym (past_head c IsValid laws g f facts m)
    ])
  ]

  -- For any class of facts with the laws, renewing a fact puts it, or a fact equal to it, in the place of the fact on its variable, and
  -- changes no fact on another variable.
  renew_fact_update :
      (facts : List F) (n g : F)
      → ((r : F) × (find_related_fact c ((renew_fact c facts n).0) n ≡ some r)
          × ((r ≡ n) ⊎ (c.equal n r ≡ true)))
        × (c.is_related g n ≡ false
            → find_related_fact c ((renew_fact c facts n).0) g ≡ find_related_fact c facts g)
  renew_fact_update facts n g = (renewed facts n, others_kept facts n g)
