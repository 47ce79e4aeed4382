-- ===== src/Floats.antt =====
-- The float64 arithmetic that the sources use, as a parameter: the type and its operations.
use promeproxy.Common.{ℕ, Bool, ℤ}

pub record Floats (F : Type 0) : Type 0 where
  -- a decimal constant of the source: numerator and denominator
  pub constant : ℕ → ℕ → F
  pub of_int : ℤ → F
  pub add : F → F → F
  pub sub : F → F → F
  pub mul : F → F → F
  pub div : F → F → F
  -- `<=`
  pub le : F → F → Bool
  -- `<`
  pub lt : F → F → Bool
  -- int(math.Ceil(x))
  pub ceil : F → ℤ
