-- ===== src/Math.antt =====
-- utils/math.go: the exact division of amounts, and the inexact one of weights.
pub mod Bounds
mod Tests
use ton_validators_rewards_a.Base.{◌&&◌, if◌then◌else◌}
use ton_validators_rewards_a.Base.Int.{ℤ, pos, ◌*ℤ◌, eq_ℤ, div_ℤ}
use ton_validators_rewards_a.Outcome.{Outcome, ok, panic}

-- The float64 values of Go, which occur in the results only: a zero, the nearest float64 of a
-- quotient of two integers (big.Float.Quo and Float64), and `float64(n) / 10000.0`.
pub record Floats (F : Type 0) : Type 0 where
  pub zero_float : F
  pub quo : ℤ → ℤ → F
  pub per_ten_thousand : ℤ → F

-- Div of math/big panics if the divisor is 0.
unfoldable pub mul_div : ℤ → ℤ → ℤ → Outcome ℤ
mul_div a b c = if eq_ℤ c (pos 0) then panic else ok (div_ℤ (a *ℤ b) c)

-- Quo of math/big panics on 0/0, and gives an infinity for x/0.
unfoldable pub inaccurate_div_float : {F : Type 0} → Floats F → ℤ → ℤ → Outcome F
inaccurate_div_float floats a b =
    if eq_ℤ a (pos 0) && eq_ℤ b (pos 0) then panic else ok (floats.quo a b)
