-- ===== src/Qualifiers/Chosen.antt =====
-- src/CVQualifiers.cpp: `random_qualifiers` against `match`.
use clsmith.Prelude.{
  ℕ, ◌≡◌, refl, ◌⊎◌, Bool, true, false, List, [], ◌∷◌, length, get_or, set_last, ltb, Bool-cases,
  inl, inr, arith, some, sym, ◌∙◌,
}
use clsmith.Options.{CgOptions, Probabilities}
use clsmith.Random.{Random}
use clsmith.Qualifiers.{
  CvQualifiers, Access, read, write, levels_stricter, stricter_than, is_paired, matches,
}
use clsmith.Qualifiers.Levels.{levels_stricter_refl, length-set_last, levels_stricter-set_last}
use clsmith.Qualifiers.Order.{IsPaired, IsPaired-test, Stricter, Stricter-stricter_than}
use clsmith.Qualifiers.Generate.{
  make_scalar_volatiles, make_scalar_consts, random_looser_consts, random_looser_volatiles,
  random_stricter_consts, random_stricter_volatiles, context_volatiles, context_consts,
  random_qualifiers,
}
use clsmith.Qualifiers.Loosen.{
  length-looser_consts_from, length-looser_volatiles_from, length-stricter_consts_from,
  length-stricter_volatiles_from, levels_stricter-looser_consts, levels_stricter-looser_volatiles,
  levels_stricter-stricter_consts, levels_stricter-stricter_volatiles, storage-looser_volatiles,
  storage-stricter_volatiles,
}

storage-set_last :
    (vs : List Bool)
    → ltb 1 (length vs) ≡ true
    → get_or (set_last vs false) 0 false ≡ get_or vs 0 false
storage-set_last [] h = refl
storage-set_last (x ∷ []) h = ground arith
storage-set_last (x ∷ y ∷ vs) h = refl

module _ (genrand : ℕ → ℕ) (o : CgOptions) (p : Probabilities)
    (pointers : (o.volatile_pointers ≡ true) × (o.const_pointers ≡ true)) where
  context_consts_looser :
      (choose : Random (List Bool)) (ms : List Bool) (access : Access) (k : ℕ)
      → length ms ≡ length (choose k).0
      → levels_stricter ms (choose k).0 ≡ true
      → (length ms ≡ length (context_consts genrand o p choose access k).0)
        × (levels_stricter ms (context_consts genrand o p choose access k).0 ≡ true)
  unfolding context_consts make_scalar_consts
  context_consts_looser choose ms write k l h =
      ground (arith, length-set_last (choose k).0 false, levels_stricter-set_last ms (choose k).0)
  context_consts_looser choose ms read k l h = ground arith

  context_volatiles_looser :
      (choose : Random (List Bool)) (q : CvQualifiers) (side_effect_free : Bool) (k : ℕ)
      → length q.is_volatiles ≡ length (choose k).0
      → levels_stricter q.is_volatiles (choose k).0 ≡ true
      → (ltb 1 (length q.is_volatiles) ≡ true
          → get_or q.is_volatiles 0 false ≡ get_or (choose k).0 0 false)
      → (length q.is_volatiles
          ≡ length (context_volatiles genrand o p choose q false side_effect_free k).0)
        × (levels_stricter q.is_volatiles
              (context_volatiles genrand o p choose q false side_effect_free k).0
            ≡ true)
        × (ltb 1 (length q.is_volatiles) ≡ true
            → get_or q.is_volatiles 0 false
              ≡ get_or (context_volatiles genrand o p choose q false side_effect_free k).0 0 false)
  unfolding context_volatiles make_scalar_volatiles
  context_volatiles_looser choose q true k l h s = ground arith
  context_volatiles_looser choose q false k l h s = ground (
    arith,
    length-set_last (choose k).0 false,
    storage-set_last (choose k).0,
    levels_stricter-set_last q.is_volatiles (choose k).0,
  )

  random_looser_consts_lem :
      (q : CvQualifiers) (k : ℕ)
      → (length q.is_consts ≡ length (random_looser_consts genrand o p q k).0)
        × (levels_stricter q.is_consts (random_looser_consts genrand o p q k).0 ≡ true)
  unfolding random_looser_consts
  random_looser_consts_lem q k = ground (
    arith,
    levels_stricter_refl q.is_consts,
    length-looser_consts_from genrand o p q.is_consts k,
    levels_stricter-looser_consts genrand o p q.is_consts k,
  )

  random_looser_volatiles_lem :
      (q : CvQualifiers) (k : ℕ)
      → (length q.is_volatiles ≡ length (random_looser_volatiles genrand o p q k).0)
        × (levels_stricter q.is_volatiles (random_looser_volatiles genrand o p q k).0 ≡ true)
        × (ltb 1 (length q.is_volatiles) ≡ true
            → get_or q.is_volatiles 0 false
              ≡ get_or (random_looser_volatiles genrand o p q k).0 0 false)
  unfolding random_looser_volatiles make_scalar_volatiles
  random_looser_volatiles_lem q k = ground (
    arith,
    levels_stricter_refl q.is_volatiles,
    length-looser_volatiles_from genrand o p true q.is_volatiles k,
    levels_stricter-looser_volatiles genrand o p true q.is_volatiles k,
    storage-looser_volatiles genrand o p q.is_volatiles k,
  )

  random_stricter_consts_lem :
      (q : CvQualifiers) (k : ℕ)
      → IsPaired q
      → (length (random_stricter_consts genrand o p q k).0 ≡ length q.is_consts)
        × (levels_stricter (random_stricter_consts genrand o p q k).0 q.is_consts ≡ true)
  unfolding random_stricter_consts
  random_stricter_consts_lem q k paired = ground (
    arith,
    levels_stricter_refl q.is_consts,
    length-stricter_consts_from genrand o p q.is_consts q.is_volatiles k,
    levels_stricter-stricter_consts genrand o p q.is_consts q.is_volatiles k,
  )

  random_stricter_volatiles_lem :
      (q : CvQualifiers) (k : ℕ)
      → IsPaired q
      → (length (random_stricter_volatiles genrand o p q k).0 ≡ length q.is_volatiles)
        × (levels_stricter (random_stricter_volatiles genrand o p q k).0 q.is_volatiles ≡ true)
        × (ltb 1 (length q.is_volatiles) ≡ true
            → get_or (random_stricter_volatiles genrand o p q k).0 0 false
              ≡ get_or q.is_volatiles 0 false)
  unfolding random_stricter_volatiles make_scalar_volatiles
  random_stricter_volatiles_lem q k paired = ground (
    arith,
    levels_stricter_refl q.is_volatiles,
    length-stricter_volatiles_from genrand o p true q.is_consts q.is_volatiles k,
    levels_stricter-stricter_volatiles genrand o p true q.is_consts q.is_volatiles k,
    storage-stricter_volatiles genrand o p q.is_consts q.is_volatiles k,
  )

  Stricter-looser :
      (q : CvQualifiers) (access : Access) (side_effect_free : Bool) (k : ℕ)
      → IsPaired q
      → q.wildcard ≡ false
      → q.accept_stricter ≡ false
      → Stricter q (random_qualifiers genrand o p q false access side_effect_free k).0
  unfolding random_qualifiers
  Stricter-looser q access side_effect_free k paired w a =
      let v = random_looser_volatiles_lem q k in
      let cv =
        context_volatiles_looser (random_looser_volatiles genrand o p q) q side_effect_free k v.0
          v.1 v.2 in
      let k' =
        (context_volatiles genrand o p (random_looser_volatiles genrand o p q) q false
          side_effect_free k).1 in
      let c = random_looser_consts_lem q k' in
      let cc' =
        context_consts_looser (random_looser_consts genrand o p q) q.is_consts access k' c.0 c.1 in
      rw (w, a)
        (record {
          consts_length = cc'.0;
          volatiles_length = cv.0;
          consts = cc'.1;
          same_storage = λ l. cv.2 (rw (← paired) l);
          volatiles = cv.1;
        })

  context_consts_read :
      (choose : Random (List Bool)) (k : ℕ) → context_consts genrand o p choose read k ≡ choose k
  unfolding context_consts make_scalar_consts
  context_consts_read choose k = rw (pointers.1)

  context_volatiles_free :
      (choose : Random (List Bool)) (q : CvQualifiers) (k : ℕ)
      → context_volatiles genrand o p choose q false true k ≡ choose k
  unfolding context_volatiles make_scalar_volatiles
  context_volatiles_free choose q k = rw (pointers.0)

  Stricter-strict_choice :
      (q : CvQualifiers) (k : ℕ)
      → IsPaired q
      → q.wildcard ≡ false
      → q.accept_stricter ≡ true
      → Stricter (random_qualifiers genrand o p q false read true k).0 q
  unfolding random_qualifiers
  Stricter-strict_choice q k paired w a =
      let cv = context_volatiles_free (random_stricter_volatiles genrand o p q) q k in
      let v = rw (← cv) at (random_stricter_volatiles_lem q k paired) in
      let k' =
        (context_volatiles genrand o p (random_stricter_volatiles genrand o p q) q false true
          k).1 in
      let c =
        rw (← context_consts_read (random_stricter_consts genrand o p q) k') at
          (random_stricter_consts_lem q k' paired) in
      rw (w, a)
        (record {
          consts_length = c.0;
          volatiles_length = v.0;
          consts = c.1;
          same_storage = λ l. v.2 (rw (← paired, ← c.0) l);
          volatiles = v.1;
        })

matches_of_stricter_than :
    (o : CgOptions) (q r : CvQualifiers)
    → o.match_exact_qualifiers ≡ false
    → ((q.accept_stricter ≡ false) × (stricter_than q r ≡ some true))
      ⊎ ((q.accept_stricter ≡ true) × (stricter_than r q ≡ some true))
    → is_paired q ≡ true
    → matches o q r ≡ some true
unfolding matches
matches_of_stricter_than o q r e (inl (a, s)) p = ground (arith, e, a, s, p)
matches_of_stricter_than o q r e (inr (a, s)) p = ground (arith, e, a, s, p)

matches_wildcard :
    (o : CgOptions) (q r : CvQualifiers) → q.wildcard ≡ true → matches o q r ≡ some true
unfolding matches
matches_wildcard o q r w = rw w

-- With pointers to const and volatile allowed, and qualifiers not required to be equal, the random
-- qualifiers that are generated from given ones without forbidding volatile match the given ones:
-- for looser ones in any context and for any access, for stricter ones at a read in a context that
-- is free of side effects.
pub matches-random_qualifiers :
    (genrand : ℕ → ℕ) (o : CgOptions) (p : Probabilities) (q : CvQualifiers) (access : Access)
    (side_effect_free : Bool) (k : ℕ)
    → (o.volatile_pointers ≡ true) × (o.const_pointers ≡ true)
    → o.match_exact_qualifiers ≡ false
    → length q.is_consts ≡ length q.is_volatiles
    → (q.accept_stricter ≡ true → (access ≡ read) × (side_effect_free ≡ true))
    → matches o q (random_qualifiers genrand o p q false access side_effect_free k).0 ≡ some true
matches-random_qualifiers genrand o p q access sef k pointers inexact paired needs =
    elim (Bool-cases q.wildcard) [
      | inl w ↦ matches_wildcard o q _ w
      | inr w ↦
          matches_of_stricter_than o q _ inexact
            (elim (Bool-cases q.accept_stricter) [
              | inr a ↦ inl (
                a,
                Stricter-stricter_than paired
                    (Stricter-looser genrand o p pointers q access sef k paired w a),
              )
              | inl a ↦
                  let strict = Stricter-strict_choice genrand o p pointers q k paired w a in
                  inr (
                    a,
                    rw ((needs a).0, (needs a).1)
                        (Stricter-stricter_than
                          (strict.consts_length ∙ paired ∙ sym strict.volatiles_length) strict),
                  )
            ])
            ((IsPaired-test q).1 paired)
    ]
