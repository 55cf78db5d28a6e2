-- ===== src/Random.antt =====
-- src/DefaultRndNumGenerator.cpp: the random choices. `genrand k` is the k-th value that the C
-- library's `lrand48` returns; a choice takes the number of values drawn so far and returns the new
-- one. The recording of choices for the delta reducer (`add_number`) is left out.
pub mod Gives
use clsmith.Prelude.{ℕ, zero, suc, ◌%◌, Bool, true, false, ltb, Option, none, some, if◌then◌else◌}

abbrev pub Random {ℓ} : Type ℓ → Type ℓ
Random A = ℕ → A × ℕ

infixl 5 ◌>>=◌
abbrev pub ◌>>=◌ {ℓ κ} : {A : Type ℓ} {B : Type κ} → Random A → (A → Random B) → Random B
◌>>=◌ m f k = let (a, k') = m k in f a k'

abbrev pub pure {ℓ} : {A : Type ℓ} → A → Random A
pure a k = (a, k)

module _ (genrand : ℕ → ℕ) where
  unfoldable pub rnd_flipcoin : ℕ → Random Bool
  rnd_flipcoin p k = (ltb (genrand k % 100) p, suc k)

  -- `b && rnd_flipcoin(p)`.
  unfoldable pub flip_if : Bool → ℕ → Random Bool
  flip_if b p = if b then rnd_flipcoin p else pure false

  -- `rnd_upto` without a filter.
  unfoldable pub rnd_below : ℕ → Random ℕ
  rnd_below n k = (genrand k % n, suc k)

  -- `rnd_upto` with a filter: values are drawn until one passes. `none` is the filter's failed
  -- assertion, or the fuel that is used up.
  unfoldable pub rnd_upto : ℕ → ℕ → (ℕ → Option Bool) → Random (Option ℕ)
  rnd_upto zero n f k = (none, k)
  rnd_upto (suc fuel) n f k = elim (f (genrand k % n)) [
    | none ↦ (none, suc k)
    | some true ↦ rnd_upto fuel n f (suc k)
    | some false ↦ (some (genrand k % n), suc k)
  ]

-- Choices that may fail, one after the other.
abbrev pub draw {ℓ κ} :
    {A : Type ℓ} {B : Type κ} → Random (Option A) → (A → Random (Option B)) → Random (Option B)
draw m f k = let (o, k') = m k in elim o [ none ↦ (none, k') | some a ↦ f a k' ]

abbrev pub done {ℓ} : {A : Type ℓ} → A → Random (Option A)
done a k = (some a, k)

abbrev pub lift {ℓ} : {A : Type ℓ} → Random A → Random (Option A)
lift m k = let (a, k') = m k in (some a, k')
