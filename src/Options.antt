-- ===== src/Options.antt =====
-- src/CGOptions.h, src/Probabilities.h: the command line's settings and the probability table, as
-- far as the modelled code reads them. They are fixed before generation starts.
use clsmith.Prelude.{ℕ, Bool}

pub record CgOptions : Type 0 where
  pub match_exact_qualifiers : Bool
  pub volatile_pointers : Bool
  pub const_pointers : Bool
  pub allow_const_volatile : Bool
  pub strict_volatile_rule : Bool
  pub union_read_type_sensitive : Bool
  pub int_size : ℕ

-- The percentages that `Probabilities::get_prob` looks up.
pub record Probabilities : Type 0 where
  pub regular_volatile_prob : ℕ
  pub regular_const_prob : ℕ
  pub stricter_const_prob : ℕ
  pub looser_const_prob : ℕ
