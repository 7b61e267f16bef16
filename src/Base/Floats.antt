-- ===== src/Base/Floats.antt =====
-- The float64 operations that the planner and the scorers call. They are the hardware's and the
-- `math` package's, so a type of floats and its operations are a parameter of the model.
use Prim.Native.Nat.{ℕ}
use mathlib.Core.Bool.{Bool, true, false}
use mathlib.Core.Path.{◌≡◌}

pub record FloatOps (F : Type 0) : Type 0 where
  -- float64(n), for an integer that is not negative
  pub of_int : ℕ → F
  -- the literal m / 10 ^ e
  pub decimal : ℕ → ℕ → F
  pub add : F → F → F
  pub mul : F → F → F
  pub div : F → F → F
  pub pow : F → F → F
  -- `<`
  pub lt : F → F → Bool
  -- int(math.Ceil(f)) and int64(f), for a float that is not negative
  pub ceil_int : F → ℕ
  pub trunc_int : F → ℕ

-- `<` is a strict weak order, as it is on float64 without NaN.
pub record FloatOrder {F : Type 0} (f : FloatOps F) : Type 0 where
  pub irrefl : (a : F) → f.lt a a ≡ false
  pub asym : (a b : F) → f.lt a b ≡ true → f.lt b a ≡ false
  pub negtrans : (a b c : F) → f.lt a b ≡ false → f.lt b c ≡ false → f.lt a c ≡ false
