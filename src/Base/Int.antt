-- ===== src/Base/Int.antt =====
-- Go's `*big.Int`: integers of any size over the native numbers, with the operations that the
-- service calls (Add, Sub, Mul, Div, Cmp, Sign), under the library's names where it has them.
use Prim.Native.Nat.{ℕ, suc, ◌+◌, ◌-◌, ◌*◌, ◌/◌, ◌≤◌, ◌<◌}
use mathlib.Core.Path.{◌≡◌, ap}
use mathlib.Core.Bool.{Bool, true}
use mathlib.Core.List.{List, [], ◌∷◌}
use native.Mathlib.Omega.{arith}
use ton_validators_rewards_a.Base.Tests.{ltb, leb, ◌==◌, if◌then◌else◌}

-- `negsuc n` is -(n + 1).
pub data ℤ : Type 0 where
  pos : ℕ → ℤ
  negsuc : ℕ → ℤ

abbrev pub pos_part : ℤ → ℕ
pos_part (pos n) = n
pos_part (negsuc n) = 0

abbrev pub neg_part : ℤ → ℕ
neg_part (pos n) = 0
neg_part (negsuc n) = suc n

-- a - b, as an integer.
abbrev pub sub_ℕ : ℕ → ℕ → ℤ
sub_ℕ a b = if leb b a then pos (a - b) else negsuc (b - a - 1)

infixl 65 ◌+ℤ◌ ◌-ℤ◌
infixl 70 ◌*ℤ◌
infix 50 ◌≤ℤ◌ ◌<ℤ◌
unfoldable pub ◌+ℤ◌ : ℤ → ℤ → ℤ
a +ℤ b = sub_ℕ (pos_part a + pos_part b) (neg_part a + neg_part b)

unfoldable pub ◌-ℤ◌ : ℤ → ℤ → ℤ
a -ℤ b = sub_ℕ (pos_part a + neg_part b) (neg_part a + pos_part b)

unfoldable pub ◌*ℤ◌ : ℤ → ℤ → ℤ
a *ℤ b =
    sub_ℕ (pos_part a * pos_part b + neg_part a * neg_part b)
      (pos_part a * neg_part b + neg_part a * pos_part b)

abbrev pub ◌≤ℤ◌ : ℤ → ℤ → Type 0
a ≤ℤ b = pos_part a + neg_part b ≤ pos_part b + neg_part a

abbrev pub ◌<ℤ◌ : ℤ → ℤ → Type 0
a <ℤ b = pos_part a + neg_part b < pos_part b + neg_part a

-- `a.Cmp(b) < 0` and `a.Cmp(b) <= 0`.
abbrev pub ltb_ℤ : ℤ → ℤ → Bool
ltb_ℤ a b = ltb (pos_part a + neg_part b) (pos_part b + neg_part a)

abbrev pub leb_ℤ : ℤ → ℤ → Bool
leb_ℤ a b = leb (pos_part a + neg_part b) (pos_part b + neg_part a)

-- `a == b` on int64 values and `a.Cmp(b) == 0`.
abbrev pub eq_ℤ : ℤ → ℤ → Bool
eq_ℤ a b = pos_part a + neg_part b == pos_part b + neg_part a

-- Division by a positive number, rounded towards minus infinity.
div_ℕ : ℤ → ℕ → ℤ
div_ℕ (pos n) c = pos (n / c)
div_ℕ (negsuc n) c = negsuc (n / c)

neg : ℤ → ℤ
neg a = sub_ℕ (neg_part a) (pos_part a)

-- `Div` of math/big: Euclidean division, whose remainder is never negative. The divisor is not 0.
unfoldable pub div_ℤ : ℤ → ℤ → ℤ
unfolding div_ℕ neg
div_ℤ a (pos c) = div_ℕ a c
div_ℤ a (negsuc c) = neg (div_ℕ a (suc c))

abbrev pub sum_ℤ : List ℤ → ℤ
sum_ℤ [] = pos 0
sum_ℤ (x ∷ xs) = x +ℤ sum_ℤ xs

pub +ℤ_parts :
    (a b : ℤ)
    → pos_part (a +ℤ b) + neg_part a + neg_part b ≡ neg_part (a +ℤ b) + pos_part a + pos_part b
unfolding ◌+ℤ◌
+ℤ_parts a b = ground arith

pub -ℤ_parts :
    (a b : ℤ)
    → pos_part (a -ℤ b) + neg_part a + pos_part b ≡ neg_part (a -ℤ b) + pos_part a + neg_part b
unfolding ◌-ℤ◌
-ℤ_parts a b = ground arith

pub *ℤ_parts :
    (a b : ℤ)
    → pos_part (a *ℤ b) + pos_part a * neg_part b + neg_part a * pos_part b
      ≡ neg_part (a *ℤ b) + pos_part a * pos_part b + neg_part a * neg_part b
unfolding ◌*ℤ◌
*ℤ_parts a b = ground arith

pub eq_of_parts : (a b : ℤ) → pos_part a + neg_part b ≡ pos_part b + neg_part a → a ≡ b
eq_of_parts a b h = ground arith

pub ruleset int_laws = (arith, +ℤ_parts, -ℤ_parts, eq_of_parts)

pub *ℤ_distrib : (a b c : ℤ) → a *ℤ (b +ℤ c) ≡ a *ℤ b +ℤ a *ℤ c
*ℤ_distrib a b c = eq_of_parts _ _ (
    omega (
      arith,
      *ℤ_parts a b,
      *ℤ_parts a c,
      *ℤ_parts a (b +ℤ c),
      +ℤ_parts (a *ℤ b) (a *ℤ c),
      ap (λ (t : ℕ). pos_part a * t) (+ℤ_parts b c),
      ap (λ (t : ℕ). neg_part a * t) (+ℤ_parts b c),
    ))

-- The quotient by a positive number is the floor: c q ≤ a < c q + c.
pub div_ℤ_floor :
    (a : ℤ) (c : ℕ)
    → 0 < c
    → (pos c *ℤ div_ℤ a (pos c) ≤ℤ a) × (a <ℤ pos c *ℤ div_ℤ a (pos c) +ℤ pos c)
unfolding div_ℤ div_ℕ
div_ℤ_floor (pos n) c h =
    omega (arith, *ℤ_parts (pos c) (pos (n / c)), +ℤ_parts (pos c *ℤ pos (n / c)) (pos c))
div_ℤ_floor (negsuc n) c h =
    omega (arith, *ℤ_parts (pos c) (negsuc (n / c)), +ℤ_parts (pos c *ℤ negsuc (n / c)) (pos c))

pub eq_ℤ→eq : (a b : ℤ) → eq_ℤ a b ≡ true → a ≡ b
eq_ℤ→eq a b h = eq_of_parts a b (ground arith)

pub eq_ℤ_refl : (a : ℤ) → eq_ℤ a a ≡ true
eq_ℤ_refl a = ground arith

pub ltb_ℤ→lt : (a b : ℤ) → ltb_ℤ a b ≡ true → a <ℤ b
ltb_ℤ→lt a b h = ground arith
