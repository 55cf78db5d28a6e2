-- ===== src/Qualifiers/Fits.antt =====
-- src/CVQualifiers.cpp: what the qualifiers of a new variable satisfy.
use clsmith.Prelude.{
  ℕ, ◌+◌, ◌≡◌, refl, Bool, true, false, not, List, [], ◌∷◌, ◌++◌, map, length, All, length-map, ap,
  All-append, length-append, some, Bool-cases, inl, inr, if◌then◌else◌, arith, pos,
}
use clsmith.Options.{CgOptions}
use clsmith.Qualifiers.{
  CvQualifiers, Access, write, is_write, sanity_check, is_const_after_deref,
  is_volatile_after_deref,
}
use clsmith.Qualifiers.Fresh.{
  pointer_levels, own_level, consts_of, volatiles_of, finish_levels, random_type_qualifiers,
}
use clsmith.Qualifiers.LevelLists.{
  LastIsFalse, AllFalse, NeverBoth, LastIsFalse-level, LastIsFalse-snoc, AllFalse-map,
  LastIsFalse-map, NeverBoth-map_right, Exclusive, NeverBoth-pairs, pointer_levels_lem,
  own_level_lem, length-scalar_consts, length-scalar_volatiles, LastIsFalse-scalar_consts,
  LastIsFalse-scalar_volatiles, AllFalse-scalar_volatiles, NeverBoth-scalar,
}

-- What the qualifiers of a new variable satisfy: one pair for each pointer level and one for the
-- variable itself; not const where it is written, not volatile in a context with side effects, no
-- volatile level where volatile is excluded, and no level both const and volatile where those may
-- not stand together.
pub record Fits (o : CgOptions) (levels : ℕ) (access : Access) (side_effect_free no_volatile : Bool)
    (q : CvQualifiers) : Type 0 where
  pub sane : sanity_check q levels ≡ true
  pub writable : access ≡ write → is_const_after_deref q (pos 0) ≡ some false
  pub quiet : side_effect_free ≡ false → is_volatile_after_deref q (pos 0) ≡ some false
  pub stable : no_volatile ≡ true → AllFalse q.is_volatiles
  pub exclusive : o.allow_const_volatile ≡ false → NeverBoth q.is_consts q.is_volatiles

snoc_parts :
    (ptrs : List (Bool × Bool)) (own : Bool × Bool)
    → (consts_of (ptrs ++ own ∷ []) ≡ consts_of ptrs ++ own.0 ∷ [])
      × (volatiles_of (ptrs ++ own ∷ []) ≡ volatiles_of ptrs ++ own.1 ∷ [])
snoc_parts [] own = (refl, refl)
snoc_parts (l ∷ ptrs) own = let ih = snoc_parts ptrs own in (ap (◌∷◌ l.0) ih.0, ap (◌∷◌ l.1) ih.1)

module _ (o : CgOptions) (ptrs : List (Bool × Bool)) (own : Bool × Bool) (nv : Bool) where
  abbrev vs : List Bool
  vs = volatiles_of (ptrs ++ own ∷ [])

  abbrev kept : List Bool
  kept = if nv then map (λ _. false) vs else vs

  length-kept : length kept ≡ length ptrs + 1
  length-kept = ground (
    arith,
    length-map vs (λ _. false),
    length-map (ptrs ++ own ∷ []) (λ (l : Bool × Bool). l.1),
    length-append ptrs (own ∷ []),
  )

  finish_levels-sane : sanity_check (finish_levels o (ptrs ++ own ∷ []) nv) (length ptrs) ≡ true
  unfolding sanity_check finish_levels
  finish_levels-sane = ground (
    arith,
    length-kept,
    length-scalar_volatiles o kept,
    length-scalar_consts o (consts_of (ptrs ++ own ∷ [])),
    length-map (ptrs ++ own ∷ []) (λ (l : Bool × Bool). l.0),
    length-append ptrs (own ∷ []),
  )

  kept_last : own.1 ≡ false → LastIsFalse kept
  kept_last e =
      let last : LastIsFalse vs =
        rw ((snoc_parts ptrs own).1, e) (LastIsFalse-snoc (volatiles_of ptrs)) in
      elim (Bool-cases nv) [ inl n ↦ rw n (LastIsFalse-map vs last) | inr n ↦ rw n last ]

  kept_exclusive :
      NeverBoth (consts_of (ptrs ++ own ∷ [])) vs → NeverBoth (consts_of (ptrs ++ own ∷ [])) kept
  kept_exclusive h = elim (Bool-cases nv) [
    | inl n ↦ rw n (NeverBoth-map_right (consts_of (ptrs ++ own ∷ [])) vs)
    | inr n ↦ rw n h
  ]

  finish_levels-Fits :
      (levels : ℕ) (access : Access) (side_effect_free : Bool)
      → length ptrs ≡ levels
      → All (Exclusive o) ptrs
      → Exclusive o own
      → (access ≡ write → own.0 ≡ false)
      → (side_effect_free ≡ false → own.1 ≡ false)
      → Fits o levels access side_effect_free nv (finish_levels o (ptrs ++ own ∷ []) nv)
  unfolding finish_levels
  finish_levels-Fits levels access sef l ep eo w s = record {
    sane = rw (← l) finish_levels-sane;
    writable = λ e. LastIsFalse-level _ (
        LastIsFalse-scalar_consts o (consts_of (ptrs ++ own ∷ []))
          (rw ((snoc_parts ptrs own).0, w e) (LastIsFalse-snoc (consts_of ptrs))));
    quiet = λ e. LastIsFalse-level _ (LastIsFalse-scalar_volatiles o kept (kept_last (s e)));
    stable = λ e. rw e (AllFalse-scalar_volatiles o (map (λ _. false) vs) (AllFalse-map vs));
    exclusive = λ e. NeverBoth-scalar o (consts_of (ptrs ++ own ∷ [])) kept (
        kept_exclusive (
          NeverBoth-pairs o (ptrs ++ own ∷ [])
            (All-append (Exclusive o) ptrs (own ∷ []) ep (eo, tt)) e));
  }

-- Whatever the random choices are, the qualifiers of a new variable have one pair of levels more than
-- its type has indirections; the variable is not const where it is written and not volatile in a
-- context with side effects; no level is volatile where volatile is excluded; and no level is both
-- const and volatile where the options forbid that.
pub random_type_qualifiers-Fits :
    (genrand : ℕ → ℕ) (o : CgOptions) (const_prob volatile_prob levels : ℕ) (access : Access)
    (side_effect_free no_volatile : Bool) (k : ℕ)
    → Fits o levels access side_effect_free no_volatile
        (random_type_qualifiers genrand o const_prob volatile_prob levels access side_effect_free
          no_volatile k).0
unfolding random_type_qualifiers
random_type_qualifiers-Fits genrand o cp vp levels access sef nv k =
    let (ptrs, k') = pointer_levels genrand o cp vp levels k in
    let own = (own_level genrand o cp vp sef (not (is_write access)) k').0 in
    let p = pointer_levels_lem genrand o cp vp levels k in
    let w = own_level_lem genrand o cp vp sef (not (is_write access)) k' in
    finish_levels-Fits o ptrs own nv levels access sef p.0 p.1 w.0 (λ e. w.1 (rw e)) w.2
