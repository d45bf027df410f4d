-- ===== src/Base/Text.antt =====
-- Texts as lists of code points (the service's texts are ASCII): equality, search, and decimals.
use Prim.Native.Char.{code}
use Prim.Native.String.{String}
use Prim.Native.Nat.{ℕ, zero, suc, ◌+◌, ◌/◌, ◌%◌}
use mathlib.Core.Path.{◌≡◌}
use mathlib.Core.Bool.{Bool, true, false, ◌&&◌, ◌||◌}
use mathlib.Core.List.{List, [], ◌∷◌, ◌++◌}
use native.Mathlib.Omega.{arith}
use ton_validators_rewards_a.Base.Tests.{ltb, ◌==◌, if◌then◌else◌}
use ton_validators_rewards_a.Base.Int.{ℤ, pos, negsuc}

abbrev pub Text : Type 0
Text = List ℕ

abbrev pub codes : String → Text
codes String.[] = []
codes (String.◌∷◌ c s) = code c ∷ codes s

-- The tests of Go on strings: `==`, strings.HasPrefix and strings.Contains.
unfoldable pub text_eq : Text → Text → Bool
text_eq [] [] = true
text_eq [] (y ∷ ys) = false
text_eq (x ∷ xs) [] = false
text_eq (x ∷ xs) (y ∷ ys) = x == y && text_eq xs ys

unfoldable pub has_prefix : Text → Text → Bool
has_prefix [] s = true
has_prefix (p ∷ ps) [] = false
has_prefix (p ∷ ps) (c ∷ cs) = p == c && has_prefix ps cs

unfoldable pub contains : Text → Text → Bool
contains p [] = has_prefix p []
contains p (c ∷ cs) = has_prefix p (c ∷ cs) || contains p cs

-- Decimal digits, the most significant first: `%d`. The fuel `n` is enough, since `n` falls.
unfoldable pub digits_fuel : ℕ → ℕ → Text → Text
digits_fuel zero n acc = (n % 10 + 48) ∷ acc
digits_fuel (suc f) n acc =
    let rest = digits_fuel f (n / 10) ((n % 10 + 48) ∷ acc) in
    if ltb n 10 then (n % 10 + 48) ∷ acc else rest

unfoldable pub show_ℕ : ℕ → Text
unfolding digits_fuel
show_ℕ n = digits_fuel n n []

unfoldable pub show_ℤ : ℤ → Text
unfolding show_ℕ
show_ℤ (pos n) = show_ℕ n
show_ℤ (negsuc n) = 45 ∷ show_ℕ (suc n)

-- Text that is wrapped into a longer one is still found in it.
pub contains-append_left : (p w s : Text) → contains p s ≡ true → contains p (w ++ s) ≡ true
unfolding contains
contains-append_left p [] s h = h
contains-append_left p (c ∷ w) s h = ground (arith, contains-append_left p w s h)
