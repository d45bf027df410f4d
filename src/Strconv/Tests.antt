-- ===== src/Strconv/Tests.antt =====
-- Numbers at the ends of their ranges.
use ton_validators_rewards_a.Base.{◌-◌, ◌^◌, ◌≡◌, refl}
use ton_validators_rewards_a.Base.Int.{negsuc}
use ton_validators_rewards_a.Base.Text.{codes, show_ℕ, show_ℤ, digits_fuel}
use ton_validators_rewards_a.Strconv.{
  value, range_error, syntax_error, parse_digits, parse_uint, parse_int,
}

least : parse_int (show_ℤ (negsuc (2 ^ 63 - 1))) ≡ value (negsuc (2 ^ 63 - 1))
unfolding parse_int parse_uint parse_digits show_ℤ show_ℕ digits_fuel
least = refl

too_large : parse_uint 32 (codes "4294967296") ≡ range_error
unfolding parse_uint parse_digits
too_large = refl

signed_uint : parse_uint 32 (codes "+1") ≡ syntax_error
unfolding parse_uint parse_digits
signed_uint = refl
