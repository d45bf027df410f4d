-- ===== src/Api/Queries.antt =====
-- What the query of a request can be.
use mathlib.Core.Path.{subst}
use ton_validators_rewards_a.Base.{
  ℕ, ◌^◌, ◌<◌, ◌≤◌, ◌≡◌, refl, ⊤, Bool, true, false, ◌⊎◌, Option, none, some, [], ◌∷◌, arith,
  Bool-cases, inl, inr,
}
use ton_validators_rewards_a.Base.Int.{ℤ}
use ton_validators_rewards_a.Base.Text.{Text, codes}
use ton_validators_rewards_a.Outcome.{Outcome, ok, err, panic, and_then}
use ton_validators_rewards_a.Strconv.{
  Parsed, value, syntax_error, range_error, is_empty, parse_uint, parse_int,
}
use ton_validators_rewards_a.Strconv.RoundTrip.{parse_uint-lt}
use ton_validators_rewards_a.Model.{RoundsQuery}
use ton_validators_rewards_a.Api.{
  Params, read_param, uint_param, int_param, count_true, has, given, parse_query, is_some,
}

-- What a parameter is read as: `given` says whether it is there.
abbrev Reads : {A : Type 0} → (given : Bool) → (A → Type 0) → Outcome (Option A) → Type 0
Reads given P (ok none) = given ≡ false
Reads given P (ok (some a)) = (given ≡ true) × P a
Reads given P (err e) = ⊤
Reads given P panic = ⊥

read_param-Reads :
    {A : Type 0} (P : A → Type 0) (func name s : Text) (r : Parsed A)
    → ((a : A) → r ≡ value a → P a)
    → Reads true P (read_param func name s r)
read_param-Reads P func name s (value a) h = (refl, h a refl)
read_param-Reads P func name s syntax_error h = tt
read_param-Reads P func name s range_error h = tt

abbrev pub IsUint32 : ℕ → Type 0
IsUint32 n = n < 2 ^ 32

uint_param-Reads :
    (name : Text) (params : Params) → Reads (has name params) IsUint32 (uint_param name params)
unfolding uint_param
uint_param-Reads name params = elim (Bool-cases (is_empty (params name))) [
  | inl e ↦ rw (e) refl
  | inr e ↦ rw (e) (
      read_param-Reads IsUint32 _ name (params name) (parse_uint 32 (params name))
        (λ n h. parse_uint-lt 32 (params name) h))
]

int_param-Reads :
    (name : Text) (params : Params) → Reads (has name params) (λ _. ⊤) (int_param name params)
unfolding int_param
int_param-Reads name params = elim (Bool-cases (is_empty (params name))) [
  | inl e ↦ rw (e) refl
  | inr e ↦
      rw (e) (read_param-Reads (λ _. ⊤) _ name (params name) (parse_int (params name)) (λ n h. tt))
]

abbrev pub Fits : Option ℕ → Type 0
Fits none = ⊤
Fits (some n) = IsUint32 n

-- At most one field is set, and the block and the time fit into 32 bits.
pub record IsQuery (q : RoundsQuery) : Type 0 where
  pub exclusive :
      ((q.block ≡ none) × (q.unixtime ≡ none))
      ⊎ (((q.election_id ≡ none) × (q.unixtime ≡ none))
          ⊎ ((q.election_id ≡ none) × (q.block ≡ none)))
  pub block_fits : Fits q.block
  pub unixtime_fits : Fits q.unixtime

-- How many fields are set.
abbrev pub fields_set : RoundsQuery → ℕ
fields_set q = count_true (is_some q.election_id ∷ is_some q.block ∷ is_some q.unixtime ∷ [])

abbrev pub IsParsed : (given : ℕ) → Outcome RoundsQuery → Type 0
IsParsed given (ok q) = IsQuery q × (fields_set q ≡ given)
IsParsed given (err e) = ⊤
IsParsed given panic = ⊥

query-IsParsed :
    (b1 b2 b3 : Bool) (id : Outcome (Option ℤ)) (block time : Outcome (Option ℕ))
    → Reads b1 (λ _. ⊤) id
    → Reads b2 IsUint32 block
    → Reads b3 IsUint32 time
    → count_true (b1 ∷ b2 ∷ b3 ∷ []) ≤ 1
    → IsParsed (count_true (b1 ∷ b2 ∷ b3 ∷ [])) (
        and_then id λ i.
          and_then block
            λ b. and_then time λ u. ok (record { election_id = i; block = b; unixtime = u }))
unfolding count_true
query-IsParsed b1 b2 b3 (err e) block time h1 h2 h3 le = tt
query-IsParsed b1 b2 b3 panic block time h1 h2 h3 le = h1
query-IsParsed b1 b2 b3 (ok i) (err e) time h1 h2 h3 le = tt
query-IsParsed b1 b2 b3 (ok i) panic time h1 h2 h3 le = h2
query-IsParsed b1 b2 b3 (ok i) (ok b) (err e) h1 h2 h3 le = tt
query-IsParsed b1 b2 b3 (ok i) (ok b) panic h1 h2 h3 le = h3
query-IsParsed b1 b2 b3 (ok none) (ok none) (ok none) h1 h2 h3 le =
    rw (h1, h2, h3)
      (record { exclusive = inl (refl, refl); block_fits = tt; unixtime_fits = tt }, refl)
query-IsParsed b1 b2 b3 (ok none) (ok none) (ok (some u)) h1 h2 h3 le =
    rw (h1, h2, h3.0)
      (record { exclusive = inr (inr (refl, refl)); block_fits = tt; unixtime_fits = h3.1 }, refl)
query-IsParsed b1 b2 b3 (ok none) (ok (some b)) (ok none) h1 h2 h3 le =
    rw (h1, h2.0, h3)
      (record { exclusive = inr (inl (refl, refl)); block_fits = h2.1; unixtime_fits = tt }, refl)
query-IsParsed b1 b2 b3 (ok (some i)) (ok none) (ok none) h1 h2 h3 le =
    rw (h1.0, h2, h3)
      (record { exclusive = inl (refl, refl); block_fits = tt; unixtime_fits = tt }, refl)
query-IsParsed b1 b2 b3 (ok (some i)) (ok (some b)) (ok u) h1 h2 h3 le =
    absurd (let e1 = h1.0 in let e2 = h2.0 in ground arith)
query-IsParsed b1 b2 b3 (ok (some i)) (ok none) (ok (some u)) h1 h2 h3 le =
    absurd (let e1 = h1.0 in let e2 = h3.0 in ground arith)
query-IsParsed b1 b2 b3 (ok none) (ok (some b)) (ok (some u)) h1 h2 h3 le =
    absurd (let e1 = h2.0 in let e2 = h3.0 in ground arith)

-- A parameter of 32 bits that could be read.
pub uint_param-Fits :
    (name : Text) (params : Params) {n : Option ℕ} → uint_param name params ≡ ok n → Fits n
uint_param-Fits name params {n = none} e = tt
uint_param-Fits name params {n = some n} e =
    (subst (Reads (has name params) IsUint32) e (uint_param-Reads name params)).1

-- Reading a parameter does not panic.
pub uint_param-calm : (name : Text) (params : Params) → uint_param name params ≡ panic → ⊥
uint_param-calm name params e =
    subst (Reads (has name params) IsUint32) e (uint_param-Reads name params)

pub parse_query-IsParsed :
    (params : Params) → given params ≤ 1 → IsParsed (given params) (parse_query params)
unfolding parse_query
parse_query-IsParsed params le =
    query-IsParsed (has (codes "election_id") params) (has (codes "block") params)
      (has (codes "unixtime") params) (int_param (codes "election_id") params)
      (uint_param (codes "block") params) (uint_param (codes "unixtime") params)
      (int_param-Reads (codes "election_id") params) (uint_param-Reads (codes "block") params)
      (uint_param-Reads (codes "unixtime") params) le
