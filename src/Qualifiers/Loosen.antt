-- ===== src/Qualifiers/Loosen.antt =====
-- src/CVQualifiers.cpp, the four random loops: what each chosen level may be.
use clsmith.Prelude.{ℕ, ◌≡◌, refl, Bool, true, false, List, [], ◌∷◌, length, get_or, ltb, arith}
use clsmith.Options.{CgOptions, Probabilities}
use clsmith.Qualifiers.{levels_stricter}
use clsmith.Qualifiers.Generate.{
  stricter_const, stricter_volatile, looser_const, looser_volatile, stricter_consts_from,
  stricter_volatiles_from, looser_consts_from, looser_volatiles_from,
}

module _ (genrand : ℕ → ℕ) (o : CgOptions) (p : Probabilities) where
  looser_const_lem :
      (c : Bool) (left k : ℕ)
      → (ltb 2 left ≡ true → (looser_const genrand o p c left k).0 ≡ c)
        × ((looser_const genrand o p c left k).0 ≡ true → c ≡ true)
  unfolding looser_const
  looser_const_lem c left k = ground arith

  looser_volatile_lem :
      (first v : Bool) (left k : ℕ)
      → (ltb 2 left ≡ true → (looser_volatile genrand o p first v left k).0 ≡ v)
        × (first ≡ true → ltb 1 left ≡ true → (looser_volatile genrand o p first v left k).0 ≡ v)
        × ((looser_volatile genrand o p first v left k).0 ≡ true → v ≡ true)
  unfolding looser_volatile
  looser_volatile_lem first v left k = ground arith

  stricter_const_lem :
      (c v : Bool) (left k : ℕ)
      → (ltb 2 left ≡ true → (stricter_const genrand o p c v left k).0 ≡ c)
        × (c ≡ true → (stricter_const genrand o p c v left k).0 ≡ true)
  unfolding stricter_const
  stricter_const_lem c v left k = ground arith

  stricter_volatile_lem :
      (first c v : Bool) (left k : ℕ)
      → (ltb 2 left ≡ true → (stricter_volatile genrand o p first c v left k).0 ≡ v)
        × (first ≡ true
            → ltb 1 left ≡ true
            → (stricter_volatile genrand o p first c v left k).0 ≡ v)
        × (v ≡ true → (stricter_volatile genrand o p first c v left k).0 ≡ true)
  unfolding stricter_volatile
  stricter_volatile_lem first c v left k = ground arith

  pub length-looser_consts_from :
      (cs : List Bool) (k : ℕ) → length (looser_consts_from genrand o p cs k).0 ≡ length cs
  unfolding looser_consts_from
  length-looser_consts_from [] k = refl
  length-looser_consts_from (c ∷ cs) k =
      let (x, k') = looser_const genrand o p c (length (c ∷ cs)) k in
      omega (arith, length-looser_consts_from cs k')

  pub length-looser_volatiles_from :
      (first : Bool) (vs : List Bool) (k : ℕ)
      → length (looser_volatiles_from genrand o p first vs k).0 ≡ length vs
  unfolding looser_volatiles_from
  length-looser_volatiles_from first [] k = refl
  length-looser_volatiles_from first (v ∷ vs) k =
      let (x, k') = looser_volatile genrand o p first v (length (v ∷ vs)) k in
      omega (arith, length-looser_volatiles_from false vs k')

  pub length-stricter_consts_from :
      (cs vs : List Bool) (k : ℕ)
      → length cs ≡ length vs
      → length (stricter_consts_from genrand o p cs vs k).0 ≡ length cs
  unfolding stricter_consts_from
  length-stricter_consts_from [] vs k h = refl
  length-stricter_consts_from (c ∷ cs) [] k h = absurd (omega arith)
  length-stricter_consts_from (c ∷ cs) (v ∷ vs) k h =
      let (x, k') = stricter_const genrand o p c v (length (c ∷ cs)) k in
      omega (arith, length-stricter_consts_from cs vs k')

  pub length-stricter_volatiles_from :
      (first : Bool) (cs vs : List Bool) (k : ℕ)
      → length cs ≡ length vs
      → length (stricter_volatiles_from genrand o p first cs vs k).0 ≡ length vs
  unfolding stricter_volatiles_from
  length-stricter_volatiles_from first [] [] k h = refl
  length-stricter_volatiles_from first [] (v ∷ vs) k h = absurd (omega arith)
  length-stricter_volatiles_from first (c ∷ cs) [] k h = absurd (omega arith)
  length-stricter_volatiles_from first (c ∷ cs) (v ∷ vs) k h =
      let (x, k') = stricter_volatile genrand o p first c v (length (v ∷ vs)) k in
      omega (arith, length-stricter_volatiles_from false cs vs k')

  pub levels_stricter-looser_consts :
      (cs : List Bool) (k : ℕ) → levels_stricter cs (looser_consts_from genrand o p cs k).0 ≡ true
  unfolding levels_stricter looser_consts_from
  levels_stricter-looser_consts [] k = refl
  levels_stricter-looser_consts (c ∷ cs) k =
      let (x, k') = looser_const genrand o p c (length (c ∷ cs)) k in
      ground (arith, looser_const_lem c (length (c ∷ cs)) k, levels_stricter-looser_consts cs k')

  pub levels_stricter-looser_volatiles :
      (first : Bool) (vs : List Bool) (k : ℕ)
      → levels_stricter vs (looser_volatiles_from genrand o p first vs k).0 ≡ true
  unfolding levels_stricter looser_volatiles_from
  levels_stricter-looser_volatiles first [] k = refl
  levels_stricter-looser_volatiles first (v ∷ vs) k =
      let (x, k') = looser_volatile genrand o p first v (length (v ∷ vs)) k in
      ground (
        arith,
        looser_volatile_lem first v (length (v ∷ vs)) k,
        levels_stricter-looser_volatiles false vs k',
      )

  pub levels_stricter-stricter_consts :
      (cs vs : List Bool) (k : ℕ)
      → length cs ≡ length vs
      → levels_stricter (stricter_consts_from genrand o p cs vs k).0 cs ≡ true
  unfolding levels_stricter stricter_consts_from
  levels_stricter-stricter_consts [] vs k h = refl
  levels_stricter-stricter_consts (c ∷ cs) [] k h = absurd (omega arith)
  levels_stricter-stricter_consts (c ∷ cs) (v ∷ vs) k h =
      let (x, k') = stricter_const genrand o p c v (length (c ∷ cs)) k in
      ground (
        arith,
        stricter_const_lem c v (length (c ∷ cs)) k,
        length-stricter_consts_from cs vs k',
        levels_stricter-stricter_consts cs vs k',
      )

  pub levels_stricter-stricter_volatiles :
      (first : Bool) (cs vs : List Bool) (k : ℕ)
      → length cs ≡ length vs
      → levels_stricter (stricter_volatiles_from genrand o p first cs vs k).0 vs ≡ true
  unfolding levels_stricter stricter_volatiles_from
  levels_stricter-stricter_volatiles first [] vs k h = refl
  levels_stricter-stricter_volatiles first (c ∷ cs) [] k h = absurd (omega arith)
  levels_stricter-stricter_volatiles first (c ∷ cs) (v ∷ vs) k h =
      let (x, k') = stricter_volatile genrand o p first c v (length (v ∷ vs)) k in
      ground (
        arith,
        stricter_volatile_lem first c v (length (v ∷ vs)) k,
        length-stricter_volatiles_from false cs vs k',
        levels_stricter-stricter_volatiles false cs vs k',
      )

  -- Under a pointer the volatility of the storage is kept.
  pub storage-looser_volatiles :
      (vs : List Bool) (k : ℕ)
      → ltb 1 (length vs) ≡ true
      → get_or (looser_volatiles_from genrand o p true vs k).0 0 false ≡ get_or vs 0 false
  unfolding looser_volatiles_from
  storage-looser_volatiles [] k h = refl
  storage-looser_volatiles (v ∷ vs) k h = (looser_volatile_lem true v (length (v ∷ vs)) k).1 refl h

  pub storage-stricter_volatiles :
      (cs vs : List Bool) (k : ℕ)
      → length cs ≡ length vs
      → ltb 1 (length vs) ≡ true
      → get_or (stricter_volatiles_from genrand o p true cs vs k).0 0 false ≡ get_or vs 0 false
  unfolding stricter_volatiles_from
  storage-stricter_volatiles [] [] k l h = refl
  storage-stricter_volatiles [] (v ∷ vs) k l h = absurd (omega arith)
  storage-stricter_volatiles (c ∷ cs) [] k l h = absurd (omega arith)
  storage-stricter_volatiles (c ∷ cs) (v ∷ vs) k l h =
      (stricter_volatile_lem true c v (length (v ∷ vs)) k).1 refl h
