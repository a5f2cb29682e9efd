-- ===== src/Common/Float.antt =====
-- The floating-point arithmetic that the code relies on, as a parameter.
use Prim.Native.Nat.{ℕ}

-- The operations of `float` or `double`. `lround` is only applied to nonnegative values here, so
-- its result is a natural number.
pub record Float : Type 1 where
  pub Number : Type 0
  pub of_ℕ : ℕ → Number
  pub mul : Number → Number → Number
  pub div : Number → Number → Number
  pub clamp : Number → Number → Number → Number
  pub lround : Number → ℕ
