-- ===== src/Api.antt =====
-- api/handler.go: the query parameters of the three endpoints, their checks, and the status codes.
pub mod Queries
pub mod Served
pub mod Kept
mod Tests
use ton_validators_rewards_a.Base.{
  ℕ, suc, Bool, true, false, ◌&&◌, not, ◌++◌, Option, none, some, List, [], ◌∷◌, ltb, if◌then◌else◌,
}
use ton_validators_rewards_a.Base.Int.{ℤ}
use ton_validators_rewards_a.Base.Text.{Text, codes, text_eq}
use ton_validators_rewards_a.Outcome.{Outcome, ok, err, panic, Action, pure, lift, and_then}
use ton_validators_rewards_a.Strconv.{
  Parsed, value, syntax_error, range_error, is_empty, parse_uint, parse_int, quote, num_error,
  invalid_syntax, out_of_range,
}
use ton_validators_rewards_a.Tlb.{Tongo}
use ton_validators_rewards_a.Model.{Output, ValidationRoundsOutput, RoundRewardsOutput, RoundsQuery}
use ton_validators_rewards_a.State.{State, with_rpc_counter}

-- `r.URL.Query().Get(name)`: the first value of a parameter, or the empty text.
abbrev pub Params : Type 0
Params = Text → Text

-- A JSON body: {"error": …}, or the fields of a result.
pub data Body (A : Type 0) : Type 0 where
  error_body : Text → Body A
  result_body : A → Body A

pub record Response (A : Type 0) : Type 0 where
  pub code : ℕ
  pub body : Body A

-- api.ValidatorService.
pub record ValidatorService (S Float : Type 0) : Type 0 where
  pub fetch_per_block_rewards :
      (seqno unixtime : Option ℕ) → (shallow : Bool) → Action S (Output Float)
  pub fetch_validation_rounds : RoundsQuery → Action S ValidationRoundsOutput
  pub fetch_round_rewards : RoundsQuery → (shallow : Bool) → Action S (RoundRewardsOutput Float)

-- `fmt.Errorf("invalid <name> %q: %w", s, err)`, where `err` is one of strconv.
unfoldable pub invalid : (func name s reason : Text) → Text
invalid func name s reason =
    codes "invalid " ++ (name ++ (32 ∷ quote s ++ (codes ": " ++ num_error func s reason)))

abbrev pub read_param : {A : Type 0} → (func name s : Text) → Parsed A → Outcome (Option A)
read_param func name s (value a) = ok (some a)
read_param func name s syntax_error = err (invalid func name s invalid_syntax)
read_param func name s range_error = err (invalid func name s out_of_range)

-- A parameter that may be missing: a uint32, or an int64.
unfoldable pub uint_param : (name : Text) → Params → Outcome (Option ℕ)
unfolding invalid
uint_param name params =
    if is_empty (params name)
    then ok none
    else read_param (codes "ParseUint") name (params name) (parse_uint 32 (params name))

unfoldable pub int_param : (name : Text) → Params → Outcome (Option ℤ)
unfolding invalid
int_param name params =
    if is_empty (params name)
    then ok none
    else read_param (codes "ParseInt") name (params name) (parse_int (params name))

abbrev pub parse_seqno : Params → Outcome (Option ℕ)
parse_seqno = uint_param (codes "seqno")

abbrev pub parse_unixtime : Params → Outcome (Option ℕ)
parse_unixtime = uint_param (codes "unixtime")

unfoldable pub count_true : List Bool → ℕ
count_true [] = 0
count_true (b ∷ bs) = let n = count_true bs in if b then suc n else n

abbrev pub has : Text → Params → Bool
has name params = not (is_empty (params name))

-- How many of the three parameters of a round are given.
abbrev pub given : Params → ℕ
given params = count_true (
    has (codes "election_id") params
    ∷ has (codes "block") params
    ∷ has (codes "unixtime") params
    ∷ [])

-- They are read in this order.
unfoldable pub parse_query : Params → Outcome RoundsQuery
unfolding uint_param int_param
parse_query params = and_then (int_param (codes "election_id") params) λ id.
    and_then (uint_param (codes "block") params) λ block.
      and_then (uint_param (codes "unixtime") params)
        λ time. ok (record { election_id = id; block = block; unixtime = time })

abbrev pub is_shallow : Params → Bool
is_shallow params = text_eq (params (codes "shallow")) (codes "1")

abbrev pub is_some : {A : Type 0} → Option A → Bool
is_some none = false
is_some (some a) = true

abbrev pub not_exclusive : Text
not_exclusive = codes "election_id, block, and unixtime are mutually exclusive"

abbrev pub after_fetch : {A : Type 0} → (A → A) → Outcome A → Outcome (Response A)
after_fetch stamp (ok out) = ok (record { code = 200; body = result_body (stamp out) })
after_fetch stamp (err e) = ok (record { code = 500; body = error_body e })
after_fetch stamp panic = panic

module _ {S A : Type 0} where
  -- http.StatusBadRequest
  abbrev pub bad_request : Text → Action S (Response A)
  bad_request message = pure (record { code = 400; body = error_body message })

  -- The call of the service, and its result with the time that it took.
  unfoldable pub serve : (A → A) → Action S A → Action S (Response A)
  serve stamp m s = let (r, s') = m s in (after_fetch stamp r, s')

  abbrev pub with_param :
      {P : Type 0} → Outcome P → (P → Action S (Response A)) → Action S (Response A)
  with_param (ok p) next = next p
  with_param (err e) next = bad_request e
  with_param panic next = lift panic

module _ {t : Tongo} {W : Type 0} (svc : ValidatorService (State t W) t.Float) (elapsed : ℕ)
    (params : Params) where
  -- HandleValidators, with what its two parameters were read as.
  abbrev pub serve_block :
      (seqno unixtime : Outcome (Option ℕ)) → Action (State t W) (Response (Output t.Float))
  serve_block seqno unixtime = with_param seqno λ n. with_param unixtime λ u.
      if is_some n && is_some u
      then bad_request (codes "seqno and unixtime are mutually exclusive")
      else serve (λ out. record out { response_time_ms = elapsed })
          (svc.fetch_per_block_rewards n u (is_shallow params))

  unfoldable pub handle_validators : Action (State t W) (Response (Output t.Float))
  unfolding uint_param
  handle_validators s =
      serve_block (parse_seqno params) (parse_unixtime params) (with_rpc_counter s)

  unfoldable pub handle_validation_rounds : Action (State t W) (Response ValidationRoundsOutput)
  unfolding serve parse_query count_true
  handle_validation_rounds s =
      (if ltb 1 (given params)
          then bad_request not_exclusive
          else with_param (parse_query params) (λ q.
            serve (λ out. record out { response_time_ms = elapsed })
              (svc.fetch_validation_rounds q)))
        (with_rpc_counter s)

  unfoldable pub handle_round_rewards : Action (State t W) (Response (RoundRewardsOutput t.Float))
  unfolding serve parse_query count_true
  handle_round_rewards s =
      (if ltb 1 (given params)
          then bad_request not_exclusive
          else if ltb (given params) 1
          then bad_request (codes "one of election_id, block, or unixtime is required")
          else with_param (parse_query params) (λ q.
            serve (λ out. record out { response_time_ms = elapsed })
              (svc.fetch_round_rewards q (is_shallow params))))
        (with_rpc_counter s)
