-- ===== src/Math/Tests.antt =====
-- The cases of utils/math_test.go.
use ton_validators_rewards_a.Base.{◌≡◌, refl}
use ton_validators_rewards_a.Base.Int.{pos, negsuc, ◌*ℤ◌, div_ℤ}
use ton_validators_rewards_a.Outcome.{ok, panic}
use ton_validators_rewards_a.Math.{mul_div}

mul_div_truncates : mul_div (pos 10) (pos 5) (pos 3) ≡ ok (pos 16)
unfolding mul_div div_ℤ ◌*ℤ◌
mul_div_truncates = refl

mul_div_zero : mul_div (pos 1) (pos 1) (pos 0) ≡ panic
unfolding mul_div
mul_div_zero = refl

-- Euclidean division: a negative product is rounded down.
mul_div_negative : mul_div (negsuc 9) (pos 5) (pos 3) ≡ ok (negsuc 16)
unfolding mul_div div_ℤ ◌*ℤ◌
mul_div_negative = refl
