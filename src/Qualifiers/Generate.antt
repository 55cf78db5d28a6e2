-- ===== src/Qualifiers/Generate.antt =====
-- src/CVQualifiers.cpp: the random qualifiers that are looser or stricter than given ones, and those
-- of a new variable. The random mode is modelled: outside `dfs_exhaustive` the depth guards pass, and
-- no error is pending, so the error guards pass too.
use clsmith.Prelude.{
  ℕ, Bool, true, false, not, ◌&&◌, ◌||◌, List, [], ◌∷◌, map, length, replicate, set_last, ltb,
  if◌then◌else◌,
}
use clsmith.Options.{CgOptions, Probabilities}
use clsmith.Random.{Random, ◌>>=◌, pure, rnd_flipcoin}
use clsmith.Qualifiers.{CvQualifiers, Access, is_write, of_levels}

-- The loop of `make_scalar_volatiles` and of `make_scalar_consts`: all but the first are cleared.
unfoldable pub clear_pointers : List Bool → List Bool
clear_pointers [] = []
clear_pointers (x ∷ xs) = x ∷ map (λ _. false) xs

unfoldable pub make_scalar_volatiles : CgOptions → List Bool → List Bool
unfolding clear_pointers
make_scalar_volatiles o vs = if not o.volatile_pointers then clear_pointers vs else vs

unfoldable pub make_scalar_consts : CgOptions → List Bool → List Bool
unfolding clear_pointers
make_scalar_consts o cs = if not o.const_pointers then clear_pointers cs else cs

module _ (genrand : ℕ → ℕ) (o : CgOptions) (p : Probabilities) where
  -- The bodies of the four loops, for the level with qualifiers `c` and `v` that has `left` levels
  -- left, itself included (`depth - i`); `first` is `i == 0`.
  unfoldable pub stricter_const : Bool → Bool → ℕ → Random Bool
  unfolding rnd_flipcoin
  stricter_const c v left =
      if c || ltb 2 left
      then pure c
      else if v && not o.allow_const_volatile
      then pure false
      else rnd_flipcoin genrand p.stricter_const_prob

  unfoldable pub stricter_volatile : Bool → Bool → Bool → ℕ → Random Bool
  unfolding rnd_flipcoin
  stricter_volatile first c v left =
      if v || (first && ltb 1 left) || ltb 2 left
      then pure v
      else if c && not o.allow_const_volatile
      then pure false
      else rnd_flipcoin genrand p.regular_volatile_prob

  unfoldable pub looser_const : Bool → ℕ → Random Bool
  unfolding rnd_flipcoin
  looser_const c left =
      if not c || ltb 2 left then pure c else rnd_flipcoin genrand p.looser_const_prob

  unfoldable pub looser_volatile : Bool → Bool → ℕ → Random Bool
  unfolding rnd_flipcoin
  looser_volatile first v left =
      if not v || (first && ltb 1 left) || ltb 2 left
      then pure v
      else rnd_flipcoin genrand p.regular_volatile_prob

  unfoldable pub stricter_consts_from : List Bool → List Bool → Random (List Bool)
  unfolding stricter_const
  stricter_consts_from (c ∷ cs) (v ∷ vs) = do
    x ← stricter_const c v (length (c ∷ cs))
    xs ← stricter_consts_from cs vs
    pure (x ∷ xs)
  stricter_consts_from _ _ = pure []

  unfoldable pub stricter_volatiles_from : Bool → List Bool → List Bool → Random (List Bool)
  unfolding stricter_volatile
  stricter_volatiles_from first (c ∷ cs) (v ∷ vs) = do
    x ← stricter_volatile first c v (length (v ∷ vs))
    xs ← stricter_volatiles_from false cs vs
    pure (x ∷ xs)
  stricter_volatiles_from first _ _ = pure []

  unfoldable pub looser_consts_from : List Bool → Random (List Bool)
  unfolding looser_const
  looser_consts_from [] = pure []
  looser_consts_from (c ∷ cs) = do
    x ← looser_const c (length (c ∷ cs))
    xs ← looser_consts_from cs
    pure (x ∷ xs)

  unfoldable pub looser_volatiles_from : Bool → List Bool → Random (List Bool)
  unfolding looser_volatile
  looser_volatiles_from first [] = pure []
  looser_volatiles_from first (v ∷ vs) = do
    x ← looser_volatile first v (length (v ∷ vs))
    xs ← looser_volatiles_from false vs
    pure (x ∷ xs)

  unfoldable pub random_stricter_consts : CvQualifiers → Random (List Bool)
  unfolding stricter_consts_from
  random_stricter_consts q =
      if o.match_exact_qualifiers
      then pure q.is_consts
      else stricter_consts_from q.is_consts q.is_volatiles

  unfoldable pub random_stricter_volatiles : CvQualifiers → Random (List Bool)
  unfolding stricter_volatiles_from make_scalar_volatiles
  random_stricter_volatiles q = if o.match_exact_qualifiers then pure q.is_volatiles else do
    vs ← stricter_volatiles_from true q.is_consts q.is_volatiles
    pure (make_scalar_volatiles o vs)

  unfoldable pub random_looser_consts : CvQualifiers → Random (List Bool)
  unfolding looser_consts_from
  random_looser_consts q =
      if o.match_exact_qualifiers then pure q.is_consts else looser_consts_from q.is_consts

  unfoldable pub random_looser_volatiles : CvQualifiers → Random (List Bool)
  unfolding looser_volatiles_from make_scalar_volatiles
  random_looser_volatiles q =
      if o.match_exact_qualifiers
      then pure q.is_volatiles
      else do vs ← looser_volatiles_from true q.is_volatiles; pure (make_scalar_volatiles o vs)

  -- The volatile part of `random_qualifiers` and `random_loose_qualifiers`, past the wildcard test,
  -- for the given way to choose.
  unfoldable pub context_volatiles :
      Random (List Bool) → CvQualifiers → Bool → Bool → Random (List Bool)
  unfolding make_scalar_volatiles
  context_volatiles choose q no_volatile side_effect_free =
      if no_volatile
      then pure (make_scalar_volatiles o (replicate (length q.is_volatiles) false))
      else do
        vs ← choose
        pure (make_scalar_volatiles o (if not side_effect_free then set_last vs false else vs))

  unfoldable pub context_consts : Random (List Bool) → Access → Random (List Bool)
  unfolding make_scalar_consts
  context_consts choose access = do
    cs ← choose
    let cs' = make_scalar_consts o cs
    pure (if is_write access then set_last cs' false else cs')

  abbrev wild : CvQualifiers → CvQualifiers
  wild q = record {
    wildcard = true;
    accept_stricter = q.accept_stricter;
    is_consts = [];
    is_volatiles = [];
  }

  unfoldable pub random_loose_qualifiers : CvQualifiers → Bool → Access → Bool → Random CvQualifiers
  unfolding context_volatiles context_consts random_looser_volatiles random_looser_consts
  random_loose_qualifiers q no_volatile access side_effect_free =
      if q.wildcard then pure (wild q) else do
        vs ← context_volatiles (random_looser_volatiles q) q no_volatile side_effect_free
        cs ← context_consts (random_looser_consts q) access
        pure (of_levels cs vs)

  unfoldable pub random_qualifiers : CvQualifiers → Bool → Access → Bool → Random CvQualifiers
  unfolding context_volatiles context_consts random_looser_volatiles random_looser_consts
      random_stricter_volatiles random_stricter_consts
  random_qualifiers q no_volatile access side_effect_free = if q.wildcard then pure (wild q) else do
    vs ←
        context_volatiles
          (if not q.accept_stricter then random_looser_volatiles q else random_stricter_volatiles q)
          q no_volatile side_effect_free
    cs ←
        context_consts
          (if not q.accept_stricter then random_looser_consts q else random_stricter_consts q)
          access
    pure (of_levels cs vs)
