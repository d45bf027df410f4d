-- ===== src/Strconv/RoundTrip.antt =====
-- Printed numbers are read back, and what is read is in range.
use native.Mathlib.Nat.{one-le-pow}
use mathlib.Core.Path.{subst}
use ton_validators_rewards_a.Base.{
  some, ⊤, ℕ, zero, suc, ◌+◌, ◌-◌, ◌*◌, ◌/◌, ◌%◌, ◌^◌, ◌≤◌, ◌<◌, ◌≡◌, refl, sym, ap, ◌∙◌, true,
  false, [], ◌∷◌, arith, ltb, ◌==◌, Bool-cases, inl, inr,
}
use ton_validators_rewards_a.Base.Int.{ℤ, pos, negsuc, ◌≤ℤ◌, ◌<ℤ◌}
use ton_validators_rewards_a.Base.Text.{Text, show_ℕ, show_ℤ, digits_fuel}
use ton_validators_rewards_a.Strconv.{
  Parsed, value, syntax_error, range_error, is_digit, is_empty, parse_digits, parse_uint,
  split_sign, parse_int, read_digits, set_string,
}

parse_digits-step :
    (max n d : ℕ) (s : Text)
    → d < 10
    → n * 10 + d ≤ max
    → parse_digits max n ((d + 48) ∷ s) ≡ parse_digits max (n * 10 + d) s
unfolding parse_digits
parse_digits-step max n d s small fits =
    let sub : d + 48 - 48 ≡ d = omega arith in
    let digit : is_digit (d + 48) ≡ true = ground arith in
    let within : ltb max (n * 10 + d) ≡ false = ground arith in rw (sub, digit, within) refl

parse_digits-last :
    (max n : ℕ) (s : Text)
    → n ≤ max
    → parse_digits max (n / 10) ((n % 10 + 48) ∷ s) ≡ parse_digits max n s
parse_digits-last max n s fits =
    let whole : n / 10 * 10 + n % 10 ≡ n = omega arith in
    rw (parse_digits-step max (n / 10) (n % 10) s (omega arith) (omega arith), whole) refl

parse_digits-digits_fuel :
    (max f n : ℕ) (s : Text)
    → n ≤ f
    → n ≤ max
    → parse_digits max 0 (digits_fuel f n s) ≡ parse_digits max n s
unfolding digits_fuel
parse_digits-digits_fuel max zero n s enough fits =
    let none : n / 10 ≡ 0 = omega arith in
    ap (λ m. parse_digits max m ((n % 10 + 48) ∷ s)) (sym none) ∙ parse_digits-last max n s fits
parse_digits-digits_fuel max (suc f) n s enough fits = elim (Bool-cases (ltb n 10)) [
  | inl e ↦
      let none : n / 10 ≡ 0 = ground arith in
      rw (e) (
        ap (λ m. parse_digits max m ((n % 10 + 48) ∷ s)) (sym none)
        ∙ parse_digits-last max n s fits)
  | inr e ↦ rw (e) (
      parse_digits-digits_fuel max f (n / 10) ((n % 10 + 48) ∷ s) (ground arith) (omega arith)
      ∙ parse_digits-last max n s fits)
]

digits_fuel-nonempty : (f n : ℕ) (s : Text) → is_empty (digits_fuel f n s) ≡ false
unfolding digits_fuel
digits_fuel-nonempty zero n s = refl
digits_fuel-nonempty (suc f) n s = elim (Bool-cases (ltb n 10)) [
  | inl e ↦ rw (e) refl
  | inr e ↦ rw (e) (digits_fuel-nonempty f (n / 10) ((n % 10 + 48) ∷ s))
]

digit-unsigned : (d : ℕ) (s : Text) → split_sign ((d + 48) ∷ s) ≡ (false, (d + 48) ∷ s)
digit-unsigned d s =
    let plus : (d + 48 == 43) ≡ false = ground arith in
    let minus : (d + 48 == 45) ≡ false = ground arith in rw (plus, minus) refl

digits_fuel-unsigned :
    (f n : ℕ) (s : Text) → split_sign (digits_fuel f n s) ≡ (false, digits_fuel f n s)
unfolding digits_fuel
digits_fuel-unsigned zero n s = digit-unsigned (n % 10) s
digits_fuel-unsigned (suc f) n s = elim (Bool-cases (ltb n 10)) [
  | inl e ↦ rw (e) (digit-unsigned (n % 10) s)
  | inr e ↦ rw (e) (digits_fuel-unsigned f (n / 10) ((n % 10 + 48) ∷ s))
]

pub show_ℕ-nonempty : (n : ℕ) → is_empty (show_ℕ n) ≡ false
unfolding show_ℕ
show_ℕ-nonempty n = digits_fuel-nonempty n n []

pub show_ℤ-nonempty : (z : ℤ) → is_empty (show_ℤ z) ≡ false
unfolding show_ℤ
show_ℤ-nonempty (pos n) = show_ℕ-nonempty n
show_ℤ-nonempty (negsuc n) = refl

-- ParseUint reads a printed number that fits into its bits.
pub parse_uint-show_ℕ : (bits n : ℕ) → n < 2 ^ bits → parse_uint bits (show_ℕ n) ≡ value n
unfolding parse_uint show_ℕ parse_digits
parse_uint-show_ℕ bits n fits =
    rw (digits_fuel-nonempty n n [])
      (parse_digits-digits_fuel (2 ^ bits - 1) n n [] (omega arith) (omega arith))

show_ℕ-unsigned : (n : ℕ) → split_sign (show_ℕ n) ≡ (false, show_ℕ n)
unfolding show_ℕ
show_ℕ-unsigned n = digits_fuel-unsigned n n []

-- ParseInt reads a printed number of 64 bits.
pub parse_int-show_ℤ :
    (z : ℤ) → negsuc (2 ^ 63 - 1) ≤ℤ z → z <ℤ pos (2 ^ 63) → parse_int (show_ℤ z) ≡ value z
unfolding parse_int show_ℤ
parse_int-show_ℤ (pos n) low high =
    let fits : ltb n (2 ^ 63) ≡ true = ground arith in
    rw (show_ℕ-unsigned n, parse_uint-show_ℕ 64 n (omega arith), fits) refl
parse_int-show_ℤ (negsuc n) low high =
    let fits : ltb (2 ^ 63) (suc n) ≡ false = ground arith in
    rw (parse_uint-show_ℕ 64 (suc n) (omega arith), fits) refl

abbrev Bounded : ℕ → Parsed ℕ → Type 0
Bounded max (value n) = n ≤ max
Bounded max syntax_error = ⊤
Bounded max range_error = ⊤

parse_digits-Bounded : (max n : ℕ) (s : Text) → n ≤ max → Bounded max (parse_digits max n s)
unfolding parse_digits
parse_digits-Bounded max n [] low = low
parse_digits-Bounded max n (c ∷ cs) low = elim (Bool-cases (is_digit c)) [
  | inr e ↦ rw (e) tt
  | inl e ↦ elim (Bool-cases (ltb max (n * 10 + (c - 48)))) [
    | inl over ↦ rw (e, over) tt
    | inr within ↦ rw (e, within) (parse_digits-Bounded max (n * 10 + (c - 48)) cs (ground arith))
  ]
]

-- What ParseUint reads fits into the given number of bits.
pub parse_uint-lt : (bits : ℕ) (s : Text) {n : ℕ} → parse_uint bits s ≡ value n → n < 2 ^ bits
unfolding parse_uint
parse_uint-lt bits s {n} e = elim (Bool-cases (is_empty s)) [
  | inl none ↦ let e' = rw (none) at e in cc
  | inr more ↦
      let read = parse_digits-Bounded (2 ^ bits - 1) 0 s (omega arith) in
      let low : n ≤ 2 ^ bits - 1 = subst (Bounded (2 ^ bits - 1)) (rw (more) at e) read in
      let positive : 0 < 2 ^ bits = one-le-pow bits 2 (omega arith) in omega arith
]

-- Without a bound the same digits are read.
parse_digits-read_digits :
    (max n : ℕ) (s : Text) {v : ℕ} → parse_digits max n s ≡ value v → read_digits n s ≡ some v
unfolding parse_digits read_digits
parse_digits-read_digits max n [] e = cc
parse_digits-read_digits max n (c ∷ cs) e = elim (Bool-cases (is_digit c)) [
  | inr d ↦ let e' = rw (d) at e in cc
  | inl d ↦ elim (Bool-cases (ltb max (n * 10 + (c - 48)))) [
    | inl over ↦ let e' = rw (d, over) at e in cc
    | inr within ↦
        rw (d) (parse_digits-read_digits max (n * 10 + (c - 48)) cs (rw (d, within) at e))
  ]
]

read_digits-show_ℕ : (n : ℕ) → read_digits 0 (show_ℕ n) ≡ some n
unfolding show_ℕ parse_digits
read_digits-show_ℕ n =
    parse_digits-read_digits n 0 (show_ℕ n)
      (parse_digits-digits_fuel n n n [] (omega arith) (omega arith))

-- SetString reads a printed number.
pub set_string-show_ℤ : (z : ℤ) → set_string (show_ℤ z) ≡ some z
unfolding set_string show_ℤ
set_string-show_ℤ (pos n) = rw (show_ℕ-unsigned n, show_ℕ-nonempty n, read_digits-show_ℕ n) refl
set_string-show_ℤ (negsuc n) = rw (show_ℕ-nonempty (suc n), read_digits-show_ℕ (suc n)) refl
