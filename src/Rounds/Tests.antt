-- ===== src/Rounds/Tests.antt =====
-- The walk on the sample chain.
use ton_validators_rewards_a.Base.{
  ℕ, ◌≡◌, ◌≤◌, refl, ap, some, inl, inr, ltb, leb, Bool-cases, arith,
}
use ton_validators_rewards_a.Base.Int.{pos, pos_part}
use ton_validators_rewards_a.Outcome.{Keeps, ok, panic, Ensures, Succeeds}
use ton_validators_rewards_a.Chain.{get_round_info}
use ton_validators_rewards_a.Rounds.Lookup.{lookup_election_id_for_block, get_config_param34}
use ton_validators_rewards_a.Rounds.Boundary.{
  ElectionBoundary, find_election_boundary, walk, forward, look_around, look_block,
}
use ton_validators_rewards_a.Rounds.Adjacent.{
  IsBoundary, election_of, find_election_boundary-IsBoundary,
}
use ton_validators_rewards_a.Rounds.Search.{find_election_boundary-found}
use ton_validators_rewards_a.Base.{none, true}
use ton_validators_rewards_a.Base.Int.{ℤ, ◌+ℤ◌, ◌*ℤ◌, div_ℤ}
use ton_validators_rewards_a.Base.Sort.{sort_slice}
use ton_validators_rewards_a.Math.{mul_div, inaccurate_div_float}
use ton_validators_rewards_a.Retry.{retry_loop}
use ton_validators_rewards_a.Chain.{extract_validators}
use ton_validators_rewards_a.Elections.{
  get_all_pool_addresses, fetch_raw_past_elections, parse_elections, parse_fields, extract_big_int,
  parse_pools, all_elections, merge_elections, merge_members, pool_entry, cached_pools,
}
use ton_validators_rewards_a.Rewards.{
  build_validator_rows, make_row, total_true_stake, compute_validator_rewards,
  validator_rewards_from, validator_reward, reward_rows, row_reward, validator_weight,
}
use ton_validators_rewards_a.Model.{RoundsQuery, RoundRewardsOutput}
use ton_validators_rewards_a.State.{State, request}
use ton_validators_rewards_a.Rounds.Lookup.{Loaders}
use ton_validators_rewards_a.Rounds.Report.{
  fetch_round_rewards, finished_round, report_round, fetch_round_data, find_election,
}
use ton_validators_rewards_a.Rounds.Bonuses.{SharesOut}
use ton_validators_rewards_a.Rounds.Anchor.{
  get_anchor_ext, fetch_prev_election_id_for_block, walk_back,
}
use ton_validators_rewards_a.Rounds.Before.{IsPrevious, fetch_prev_election_id_for_block-IsPrevious}
use ton_validators_rewards_a.Rounds.Lookup.{get_election_id_for_block}
use ton_validators_rewards_a.Rounds.Kept.{IsKept}
use ton_validators_rewards_a.Rounds.Paid.{HasValid, fetch_round_rewards-SharesOut}
use ton_validators_rewards_a.Sample.{
  clock, report_in, client, fresh, tongo, loaders, find_block, block, start_at,
}

abbrev change : ElectionBoundary
change = record {
  before_block = block 100;
  before_election_id = pos 1001;
  after_block = block 101;
  after_election_id = pos 1002;
}

found_at_101 : (find_election_boundary (loaders ℕ) 1500 0).0 ≡ ok change
unfolding find_election_boundary walk forward look_around look_block lookup_election_id_for_block
    get_config_param34 get_round_info
found_at_101 = refl

find_block-Ensures : (n s : ℕ) → Ensures (λ p. p.0.seqno ≡ n) (find_block n s)
find_block-Ensures n s = elim (Bool-cases (leb n 1000)) [ inl e ↦ rw (e) refl | inr e ↦ rw (e) tt ]

find_block-Succeeds : (n s : ℕ) → n ≤ 1000 → Succeeds (λ p. p.0.seqno ≡ n) (find_block n s)
find_block-Succeeds n s h = elim (Bool-cases (leb n 1000)) [
  | inl e ↦ rw (e) refl
  | inr e ↦ absurd (grind arith)
]

start_at-election : (n : ℕ) → election_of tongo n ≡ some (pos (start_at n))
unfolding get_round_info
start_at-election n = elim (Bool-cases (ltb n 101)) [ inl e ↦ rw (e) refl | inr e ↦ rw (e) refl ]

find_block-calm : (n s : ℕ) → ((find_block n s).0 ≡ panic → ⊥)
find_block-calm n s h = elim (Bool-cases (leb n 1000)) [
  | inl e ↦ let h' = rw e at h in cc
  | inr e ↦ let h' = rw e at h in cc
]

find_election_boundary-IsBoundary_example : IsBoundary tongo (λ n. n) change
find_election_boundary-IsBoundary_example =
    find_election_boundary-IsBoundary (loaders ℕ) (λ n. n) find_block-Ensures (λ ext s. refl)
      (λ n s. ground arith) 1500 0 found_at_101

find_election_boundary-found_example :
    (b : ElectionBoundary) × ((find_election_boundary (loaders ℕ) 1500 0).0 ≡ ok b)
find_election_boundary-found_example =
    find_election_boundary-found (loaders ℕ) (λ n. n) (λ n. pos (start_at n)) 1000 start_at-election
      (λ ext s. refl) find_block-Succeeds find_block-calm 100 1500 1 0 refl (omega arith)
      (omega arith) (omega arith)
      (inl (λ e. let h : 1002 ≡ 1001 = ap pos_part e in omega (arith, h)))

-- Three blocks behind the change.
found_before : (fetch_prev_election_id_for_block (loaders ℕ) 103 0).0 ≡ ok (pos 1001)
unfolding fetch_prev_election_id_for_block walk_back get_election_id_for_block
    lookup_election_id_for_block get_config_param34 get_round_info
found_before = refl

fetch_prev_election_id_for_block-IsPrevious_example :
    (current : ℤ) × IsPrevious tongo (λ n. n) 1000 103 current (pos 1001)
fetch_prev_election_id_for_block-IsPrevious_example =
    fetch_prev_election_id_for_block-IsPrevious (loaders ℕ) (λ n. n) find_block-Ensures
      (λ ext s. refl) 103 0 found_before

abbrev report : RoundRewardsOutput ℤ
report = report_in 0

abbrev by_block : RoundsQuery
by_block = record { election_id = none; block = some 50; unixtime = none }

abbrev here : Loaders tongo (State tongo ℕ)
here = loaders (State tongo ℕ)

-- The report for block 50, at a time behind the end of its round.
reported : (fetch_round_rewards here clock (client 1) by_block true fresh).0 ≡ ok report
unfolding fetch_round_rewards finished_round report_round fetch_round_data find_election
    get_all_pool_addresses fetch_raw_past_elections parse_elections parse_fields extract_big_int
    parse_pools all_elections merge_elections merge_members pool_entry cached_pools request
    retry_loop sort_slice get_round_info extract_validators build_validator_rows make_row
    total_true_stake compute_validator_rewards validator_rewards_from validator_reward reward_rows
    row_reward validator_weight inaccurate_div_float mul_div div_ℤ ◌*ℤ◌ ◌+ℤ◌ get_anchor_ext
    find_election_boundary walk forward look_around look_block lookup_election_id_for_block
    get_config_param34
reported = refl

find_block-Keeps : (n : ℕ) → Keeps HasValid (find_block {S = State tongo ℕ} n)
find_block-Keeps n = record {
  keep = λ s h. elim (Bool-cases (leb n 1000)) [ inl e ↦ rw (e) h | inr e ↦ rw (e) h ];
}

here-IsKept : IsKept HasValid here
here-IsKept = record {
  block = find_block-Keeps;
  block_by_utime = λ n. record { keep = λ s h. h };
  config = λ ext n. record { keep = λ s h. h };
}

fetch_round_rewards-SharesOut_example : SharesOut report
fetch_round_rewards-SharesOut_example =
    fetch_round_rewards-SharesOut here here-IsKept clock (client 1) true by_block fresh tt reported
