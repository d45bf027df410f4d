-- ===== src/Strconv.antt =====
-- What api/handler.go and cmd/roundcheck/main.go use of strconv, math/big and fmt: ParseUint, ParseInt and
-- SetString in base 10, and the quoting of `%q`.
pub mod RoundTrip
mod Tests
use ton_validators_rewards_a.Base.{
  ℕ, zero, suc, ◌+◌, ◌-◌, ◌*◌, ◌/◌, ◌%◌, ◌^◌, Bool, true, false, ◌&&◌, ◌||◌, ◌++◌, Option, none,
  some, List, [], ◌∷◌, ltb, leb, ◌==◌, if◌then◌else◌,
}
use ton_validators_rewards_a.Base.Int.{ℤ, pos, negsuc}
use ton_validators_rewards_a.Base.Text.{Text, codes}

-- The value, or one of the two errors of strconv.
pub data Parsed (A : Type 0) : Type 0 where
  value : A → Parsed A
  syntax_error : Parsed A
  range_error : Parsed A

abbrev pub is_digit : ℕ → Bool
is_digit c = leb 48 c && leb c 57

-- The loop of ParseUint: it ends at the first character that is no digit, or at which the value leaves
-- the range up to `max`.
unfoldable pub parse_digits : (max n : ℕ) → Text → Parsed ℕ
parse_digits max n [] = value n
parse_digits max n (c ∷ cs) =
    let next = n * 10 + (c - 48) in
    let rest = parse_digits max next cs in
    if is_digit c then (if ltb max next then range_error else rest) else syntax_error

abbrev pub is_empty : Text → Bool
is_empty [] = true
is_empty (c ∷ cs) = false

-- ParseUint with a size of `bits`.
unfoldable pub parse_uint : (bits : ℕ) → Text → Parsed ℕ
unfolding parse_digits
parse_uint bits s = if is_empty s then syntax_error else parse_digits (2 ^ bits - 1) 0 s

-- The sign, which may be missing.
abbrev pub split_sign : Text → Bool × Text
split_sign [] = (false, [])
split_sign (c ∷ cs) =
    if c == 43 then (false, cs) else if c == 45 then (true, cs) else (false, c ∷ cs)

abbrev pub negated : ℕ → ℤ
negated zero = pos 0
negated (suc n) = negsuc n

abbrev pub signed : (cutoff : ℕ) → (negative : Bool) → Parsed ℕ → Parsed ℤ
signed cutoff true (value n) = if ltb cutoff n then range_error else value (negated n)
signed cutoff false (value n) = if ltb n cutoff then value (pos n) else range_error
signed cutoff negative syntax_error = syntax_error
signed cutoff negative range_error = range_error

-- ParseInt with a size of 64 bits.
unfoldable pub parse_int : Text → Parsed ℤ
unfolding parse_uint
parse_int s =
    let (negative, digits) = split_sign s in signed (2 ^ 63) negative (parse_uint 64 digits)

-- SetString of a big.Int in base 10: the digits, one at least, behind a sign that may be missing.
unfoldable pub read_digits : (n : ℕ) → Text → Option ℕ
read_digits n [] = some n
read_digits n (c ∷ cs) =
    let rest = read_digits (n * 10 + (c - 48)) cs in if is_digit c then rest else none

abbrev pub with_sign : (negative : Bool) → Option ℕ → Option ℤ
with_sign negative none = none
with_sign true (some n) = some (negated n)
with_sign false (some n) = some (pos n)

unfoldable pub set_string : Text → Option ℤ
unfolding read_digits
set_string s =
    let (negative, digits) = split_sign s in
    if is_empty digits then none else with_sign negative (read_digits 0 digits)

-- `%q` on ASCII text.
hex_digit : ℕ → ℕ
hex_digit n = if ltb n 10 then n + 48 else n + 87

quote_char : ℕ → Text
unfolding hex_digit
quote_char c =
    if (c == 34) || (c == 92)
    then 92 ∷ c ∷ []
    else if leb 7 c && leb c 13
    then 92 ∷ nth_escape (c - 7) ∷ []
    else if ltb c 32 || (c == 127)
    then 92 ∷ 120 ∷ hex_digit (c / 16) ∷ hex_digit (c % 16) ∷ []
    else c ∷ []
  where
    -- a b t n v f r
    nth_escape : ℕ → ℕ
    nth_escape i =
        if i == 0
        then 97
        else if i == 1
        then 98
        else if i == 2
        then 116
        else if i == 3
        then 110
        else if i == 4
        then 118
        else if i == 5
        then 102
        else 114

quote_chars : Text → Text
unfolding quote_char
quote_chars [] = []
quote_chars (c ∷ cs) = quote_char c ++ quote_chars cs

unfoldable pub quote : Text → Text
unfolding quote_chars
quote s = 34 ∷ (quote_chars s ++ (34 ∷ []))

-- The message of a *strconv.NumError.
unfoldable pub num_error : (func num reason : Text) → Text
unfolding quote
num_error func num reason =
    codes "strconv." ++ (func ++ (codes ": parsing " ++ (quote num ++ (codes ": " ++ reason))))

abbrev pub invalid_syntax : Text
invalid_syntax = codes "invalid syntax"

abbrev pub out_of_range : Text
out_of_range = codes "value out of range"
