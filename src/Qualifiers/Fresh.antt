-- ===== src/Qualifiers/Fresh.antt =====
-- src/CVQualifiers.cpp, the static `random_qualifiers`: the qualifiers of a new variable whose type
-- has the given number of pointer levels. The random mode is modelled, as in Generate.
use clsmith.Prelude.{ℕ, zero, suc, Bool, false, not, ◌&&◌, List, [], ◌∷◌, ◌++◌, map, if◌then◌else◌}
use clsmith.Options.{CgOptions}
use clsmith.Random.{Random, ◌>>=◌, pure, rnd_flipcoin}
use clsmith.Qualifiers.{CvQualifiers, Access, is_write, of_levels}
use clsmith.Qualifiers.Generate.{make_scalar_volatiles, make_scalar_consts}

-- Const gives way where it may not stand together with volatile.
unfoldable pub exclude_const : CgOptions → Bool → Bool → Bool
exclude_const o v c = if v && c && not o.allow_const_volatile then false else c

abbrev pub consts_of : List (Bool × Bool) → List Bool
consts_of = map (λ l. l.0)

abbrev pub volatiles_of : List (Bool × Bool) → List Bool
volatiles_of = map (λ l. l.1)

-- The end of `random_qualifiers`, over the pairs that were pushed.
unfoldable pub finish_levels : CgOptions → List (Bool × Bool) → Bool → CvQualifiers
unfolding make_scalar_volatiles make_scalar_consts
finish_levels o pairs no_volatile =
    let vs = volatiles_of pairs in
    of_levels (make_scalar_consts o (consts_of pairs))
      (make_scalar_volatiles o (if no_volatile then map (λ _. false) vs else vs))

module _ (genrand : ℕ → ℕ) (o : CgOptions) (const_prob volatile_prob : ℕ) where
  -- The `while` loop over the pointed-to types: the pairs (const, volatile), outermost last.
  unfoldable pub pointer_levels : ℕ → Random (List (Bool × Bool))
  unfolding exclude_const rnd_flipcoin
  pointer_levels zero = pure []
  pointer_levels (suc n) = do
    v ← rnd_flipcoin genrand volatile_prob
    c ← rnd_flipcoin genrand const_prob
    rest ← pointer_levels n
    pure ((exclude_const o v c, v) ∷ rest)

  -- The pair of the variable itself.
  unfoldable pub own_level : Bool → Bool → Random (Bool × Bool)
  unfolding exclude_const rnd_flipcoin
  own_level volatile_ok const_ok =
      if volatile_ok && const_ok
      then (do
        v ← rnd_flipcoin genrand volatile_prob
        c ← rnd_flipcoin genrand const_prob
        pure (exclude_const o v c, v))
      else if volatile_ok
      then (do v ← rnd_flipcoin genrand volatile_prob; pure (false, v))
      else if const_ok
      then (do c ← rnd_flipcoin genrand const_prob; pure (c, false))
      else pure (false, false)

  unfoldable pub random_type_qualifiers : ℕ → Access → Bool → Bool → Random CvQualifiers
  unfolding pointer_levels own_level finish_levels
  random_type_qualifiers levels access side_effect_free no_volatile = do
    ptrs ← pointer_levels levels
    own ← own_level side_effect_free (not (is_write access))
    pure (finish_levels o (ptrs ++ own ∷ []) no_volatile)
