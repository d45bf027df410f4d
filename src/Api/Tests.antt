-- ===== src/Api/Tests.antt =====
-- Requests to a service that answers from a table.
use ton_validators_rewards_a.Base.{ℕ, ◌+◌, ◌≡◌, ◌⊎◌, refl, none, some, [], arith, if◌then◌else◌}
use ton_validators_rewards_a.Base.Int.{ℤ, negsuc}
use ton_validators_rewards_a.Base.Text.{Text, codes, show_ℤ, show_ℕ, text_eq}
use ton_validators_rewards_a.Outcome.{ok, err}
use ton_validators_rewards_a.Model.{RoundRewardsOutput}
use ton_validators_rewards_a.State.{State, with_rpc_counter}
use ton_validators_rewards_a.Api.{
  Params, ValidatorService, is_shallow, serve, handle_validators, handle_round_rewards,
}
use ton_validators_rewards_a.Api.Served.{
  IsRefused, IsServed, IsServedBlock, stamp_rewards, handle_validators-cases,
  handle_round_rewards-cases, handle_round_rewards-election,
}
use ton_validators_rewards_a.Sample.{tongo, fresh}

abbrev report : (id : ℤ) → RoundRewardsOutput ℤ
report id = record {
  response_time_ms = 0;
  election_id = id;
  prev_election_id = none;
  next_election_id = none;
  round_start = 0;
  round_end = 0;
  start_block = 0;
  end_block = 0;
  total_bonuses = none;
  total_stake = none;
  validators = [];
  error = [];
}

-- It knows the rounds of elections only, and counts its requests.
abbrev svc : ValidatorService (State tongo ℕ) ℤ
svc = record {
  fetch_per_block_rewards =
      λ seqno unixtime shallow s. (err (codes "no blocks"), record s { net = s.net + 1 });
  fetch_validation_rounds = λ q s. (err (codes "no rounds"), record s { net = s.net + 1 });
  fetch_round_rewards = λ q shallow s. elim q.election_id [
    | none ↦ (err (codes "no election"), s)
    | some id ↦ (ok (report id), record s { net = s.net + 1 })
  ];
}

-- ?election_id=-5, or any other request with one parameter.
abbrev only : (name s : Text) → Params
only name s asked = if text_eq asked name then s else []

abbrev by_election : Params
by_election = only (codes "election_id") (show_ℤ (negsuc 4))

abbrev by_seqno : Params
by_seqno = only (codes "seqno") (codes "4294967296")

handle_validators-cases_example :
    IsRefused fresh (handle_validators svc 7 by_seqno fresh)
    ⊎ IsServedBlock svc 7 by_seqno fresh (handle_validators svc 7 by_seqno fresh)
handle_validators-cases_example = handle_validators-cases svc 7 by_seqno fresh

handle_round_rewards-cases_example :
    IsRefused fresh (handle_round_rewards svc 7 by_election fresh)
    ⊎ IsServed 1
        (stamp_rewards svc 7 by_election)
        (λ q. svc.fetch_round_rewards q (is_shallow by_election))
        fresh
        (handle_round_rewards svc 7 by_election fresh)
handle_round_rewards-cases_example = handle_round_rewards-cases svc 7 by_election fresh

handle_round_rewards-election_example :
    handle_round_rewards svc 7 by_election fresh
    ≡ serve
        (stamp_rewards svc 7 by_election)
        (svc.fetch_round_rewards
          (record { election_id = some (negsuc 4); block = none; unixtime = none })
          (is_shallow by_election))
        (with_rpc_counter fresh)
unfolding show_ℤ text_eq
handle_round_rewards-election_example =
    handle_round_rewards-election svc 7 by_election (negsuc 4) fresh (omega arith) (omega arith)
      refl refl refl

abbrev last_seqno : Params
last_seqno = only (codes "seqno") (show_ℕ 4294967295)
