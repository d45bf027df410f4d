-- ===== src/Api/Served.antt =====
-- The requests that reach the service, and with which query.
use ton_validators_rewards_a.Base.{
  ℕ, ◌^◌, ◌-◌, ◌≤◌, ◌<◌, ◌≡◌, ◌⊎◌, refl, Option, none, some, [], arith, ltb, Bool-cases, inl, inr,
}
use ton_validators_rewards_a.Base.Int.{ℤ, pos, negsuc, ◌≤ℤ◌, ◌<ℤ◌}
use ton_validators_rewards_a.Base.Text.{Text, codes, show_ℤ, show_ℕ}
use ton_validators_rewards_a.Outcome.{Outcome, ok, err, panic, Action}
use ton_validators_rewards_a.Strconv.RoundTrip.{
  show_ℤ-nonempty, parse_int-show_ℤ, show_ℕ-nonempty, parse_uint-show_ℕ,
}
use ton_validators_rewards_a.Tlb.{Tongo}
use ton_validators_rewards_a.Model.{Output, RoundsQuery, ValidationRoundsOutput, RoundRewardsOutput}
use ton_validators_rewards_a.State.{State, with_rpc_counter}
use ton_validators_rewards_a.Api.{
  Params, Response, error_body, ValidatorService, parse_seqno, parse_unixtime, uint_param,
  int_param, count_true, serve_block, handle_validators, given, parse_query, is_shallow, with_param,
  serve, handle_validation_rounds, handle_round_rewards,
}
use ton_validators_rewards_a.Api.Queries.{
  IsQuery, IsParsed, Fits, uint_param-Fits, uint_param-calm, fields_set, parse_query-IsParsed,
}

module _ {t : Tongo} {W A : Type 0} where
  -- The request ends with status 400 and a message, and nothing happens but the start of its counter.
  abbrev pub IsRefused : State t W → Outcome (Response A) × State t W → Type 0
  IsRefused s answer =
      (message : Text) × (answer
        ≡ (ok (record { code = 400; body = error_body message }), with_rpc_counter s))

  -- The service is asked with a query that sets one of the allowed numbers of fields.
  abbrev pub IsServed :
      (least : ℕ)
      → (A → A)
      → (RoundsQuery → Action (State t W) A)
      → State t W
      → Outcome (Response A) × State t W
      → Type 0
  IsServed least stamp fetch s answer =
      (q : RoundsQuery) × IsQuery q
      × (least ≤ fields_set q)
      × (answer ≡ serve stamp (fetch q) (with_rpc_counter s))

  with_param-cases :
      (least n : ℕ) (r : Outcome RoundsQuery) (stamp : A → A)
      (fetch : RoundsQuery → Action (State t W) A) (s : State t W)
      → IsParsed n r
      → least ≤ n
      → let answer = with_param r (λ q. serve stamp (fetch q)) (with_rpc_counter s) in
        IsRefused s answer ⊎ IsServed least stamp fetch s answer
  with_param-cases least n (ok q) stamp fetch s (query, set) le = inr (q, query, rw (set) le, refl)
  with_param-cases least n (err e) stamp fetch s h le = inl (e, refl)
  with_param-cases least n panic stamp fetch s h le = elim h [ ]

module _ {t : Tongo} {W : Type 0} (svc : ValidatorService (State t W) t.Float) (elapsed : ℕ)
    (params : Params) where
  abbrev pub stamp_rounds : ValidationRoundsOutput → ValidationRoundsOutput
  stamp_rounds out = record out { response_time_ms = elapsed }

  abbrev pub stamp_output : Output t.Float → Output t.Float
  stamp_output out = record out { response_time_ms = elapsed }

  abbrev pub stamp_rewards : RoundRewardsOutput t.Float → RoundRewardsOutput t.Float
  stamp_rewards out = record out { response_time_ms = elapsed }

  -- The service is asked for a block by its seqno, by a time, or for the latest, each of 32 bits.
  abbrev pub IsServedBlock : State t W → Outcome (Response (Output t.Float)) × State t W → Type 0
  IsServedBlock s answer =
      (seqno : Option ℕ) × (unixtime : Option ℕ) × Fits seqno
      × Fits unixtime
      × ((seqno ≡ none) ⊎ (unixtime ≡ none))
      × (answer
          ≡ serve stamp_output (svc.fetch_per_block_rewards seqno unixtime (is_shallow params))
              (with_rpc_counter s))

  blocks-cases :
      (seqno unixtime : Outcome (Option ℕ)) (s : State t W)
      → ((n : Option ℕ) → seqno ≡ ok n → Fits n)
      → ((n : Option ℕ) → unixtime ≡ ok n → Fits n)
      → (seqno ≡ panic → ⊥)
      → (unixtime ≡ panic → ⊥)
      → let answer = serve_block svc elapsed params seqno unixtime (with_rpc_counter s) in
        IsRefused s answer ⊎ IsServedBlock s answer
  blocks-cases (err e) unixtime s h1 h2 c1 c2 = inl (e, refl)
  blocks-cases panic unixtime s h1 h2 c1 c2 = absurd (c1 refl)
  blocks-cases (ok n) (err e) s h1 h2 c1 c2 = inl (e, refl)
  blocks-cases (ok n) panic s h1 h2 c1 c2 = absurd (c2 refl)
  blocks-cases (ok none) (ok u) s h1 h2 c1 c2 = inr (none, u, tt, h2 u refl, inl refl, refl)
  blocks-cases (ok (some n)) (ok none) s h1 h2 c1 c2 =
      inr (some n, none, h1 (some n) refl, tt, inr refl, refl)
  blocks-cases (ok (some n)) (ok (some u)) s h1 h2 c1 c2 = inl (_, refl)

  -- HandleValidators either refuses a request with status 400, and does nothing but start its
  -- counter, or asks the service once, for a seqno or for a time or for neither, and never for
  -- both, each below 2 ^ 32.
  pub handle_validators-cases :
      (s : State t W)
      → IsRefused s (handle_validators svc elapsed params s)
        ⊎ IsServedBlock s (handle_validators svc elapsed params s)
  unfolding handle_validators
  handle_validators-cases s =
      blocks-cases (parse_seqno params) (parse_unixtime params) s
        (λ n e. uint_param-Fits (codes "seqno") params e)
        (λ n e. uint_param-Fits (codes "unixtime") params e)
        (uint_param-calm (codes "seqno") params) (uint_param-calm (codes "unixtime") params)

  -- HandleValidationRounds either refuses a request with status 400, and does nothing but start its
  -- counter, or asks the service once with a query that sets at most one field; a block and a time
  -- are below 2 ^ 32.
  pub handle_validation_rounds-cases :
      (s : State t W)
      → IsRefused s (handle_validation_rounds svc elapsed params s)
        ⊎ IsServed 0 stamp_rounds svc.fetch_validation_rounds s
            (handle_validation_rounds svc elapsed params s)
  unfolding handle_validation_rounds
  handle_validation_rounds-cases s = elim (Bool-cases (ltb 1 (given params))) [
    | inl e ↦ rw (e) (inl (_, refl))
    | inr e ↦ rw (e) (
        with_param-cases 0 (given params) (parse_query params) stamp_rounds
          svc.fetch_validation_rounds s (parse_query-IsParsed params (ground arith)) (omega arith))
  ]

  -- HandleRoundRewards either refuses a request with status 400, and does nothing but start its
  -- counter, or asks the service once with a query that sets exactly one field; a block and a time
  -- are below 2 ^ 32.
  pub handle_round_rewards-cases :
      (s : State t W)
      → IsRefused s (handle_round_rewards svc elapsed params s)
        ⊎ IsServed 1 stamp_rewards
            (λ q. svc.fetch_round_rewards q (is_shallow params))
            s
            (handle_round_rewards svc elapsed params s)
  unfolding handle_round_rewards
  handle_round_rewards-cases s = elim (Bool-cases (ltb 1 (given params))) [
    | inl e ↦ rw (e) (inl (_, refl))
    | inr e ↦ elim (Bool-cases (ltb (given params) 1)) [
      | inl few ↦ rw (e, few) (inl (_, refl))
      | inr enough ↦
          rw (e, enough)
            (with_param-cases 1 (given params) (parse_query params) stamp_rewards
              (λ q. svc.fetch_round_rewards q (is_shallow params)) s
              (parse_query-IsParsed params (ground arith)) (ground arith))
    ]
  ]

  -- An election id of 64 bits that is given in decimals, as the service prints it, is read back:
  -- HandleRoundRewards asks the service for this election, if no other of the three parameters is
  -- given.
  pub handle_round_rewards-election :
      (id : ℤ) (s : State t W)
      → negsuc (2 ^ 63 - 1) ≤ℤ id
      → id <ℤ pos (2 ^ 63)
      → params (codes "election_id") ≡ show_ℤ id
      → params (codes "block") ≡ []
      → params (codes "unixtime") ≡ []
      → handle_round_rewards svc elapsed params s
        ≡ serve stamp_rewards
            (svc.fetch_round_rewards
              (record { election_id = some id; block = none; unixtime = none })
              (is_shallow params))
            (with_rpc_counter s)
  unfolding handle_round_rewards parse_query uint_param int_param count_true
  handle_round_rewards-election id s low high election block time =
      rw (election, block, time, show_ℤ-nonempty id, parse_int-show_ℤ id low high) refl

-- A seqno of 32 bits that is given in decimals is read back by parseSeqno.
pub parse_seqno-show_ℕ :
    (params : Params) (n : ℕ)
    → n < 2 ^ 32
    → params (codes "seqno") ≡ show_ℕ n
    → parse_seqno params ≡ ok (some n)
unfolding uint_param
parse_seqno-show_ℕ params n fits given =
    rw (given, show_ℕ-nonempty n, parse_uint-show_ℕ 32 n fits) refl
