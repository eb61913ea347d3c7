-- ===== src/Mapping/Arithmetic.antt =====
-- The floating point operations that the mapping, the schema and the service of unridden/api use, which Python
-- implements.
use riderless.Prelude.{ℕ, Bool, List}

pub record Floats : Type 1 where
  pub Float : Type 0
  pub of_ℕ : ℕ → Float
  pub add : Float → Float → Float
  pub sub : Float → Float → Float
  pub mul : Float → Float → Float
  pub div : Float → Float → Float
  pub exp : Float → Float
  -- `sum` of a list, which rounds as the interpreter does
  pub sum : List Float → Float
  -- `<` and `<=`
  pub less : Float → Float → Bool
  pub at_most : Float → Float → Bool
  -- `math.isfinite`
  pub is_finite : Float → Bool
  -- `math.isclose(x, 1.0, abs_tol=1e-10)`
  pub is_one : Float → Bool
  -- the number with a pattern of 32 bits, as `struct.unpack` reads it
  pub of_f32 : ℕ → Float
