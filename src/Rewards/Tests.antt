-- ===== src/Rewards/Tests.antt =====
-- Three validators with a bonus that does not divide evenly, and two nominators.
use mathlib.Core.List.{Perm}
use ton_validators_rewards_a.Base.{ℕ, ◌≡◌, refl, some, none, List, [], ◌∷◌, map, true, false}
use ton_validators_rewards_a.Base.Int.{ℤ, pos, negsuc, ◌≤ℤ◌, ◌<ℤ◌, ◌+ℤ◌, ◌*ℤ◌, div_ℤ, sum_ℤ}
use ton_validators_rewards_a.Base.Sort.{IsSorted, sort_slice}
use ton_validators_rewards_a.Outcome.{ok, panic}
use ton_validators_rewards_a.Math.{mul_div, inaccurate_div_float}
use ton_validators_rewards_a.Model.{ValidatorReward, NominatorReward}
use ton_validators_rewards_a.Pool.{PoolData, NominatorData}
use ton_validators_rewards_a.Chain.{extract_validators}
use ton_validators_rewards_a.Rewards.{
  ValidatorRow, Pools, compute_validator_rewards, validator_rewards_from, validator_reward,
  reward_rows, row_reward, validator_weight, more_reward_stake, more_stake, make_row,
  build_validator_rows, split_reward, validator_self_reward,
}
use ton_validators_rewards_a.Rewards.Stakes.{stakes, build_validator_rows_lem}
use ton_validators_rewards_a.Rewards.Conserve.{
  ranked, shared_row, compute_validator_rewards_conserve, compute_validator_rewards-ranked,
  compute_validator_rewards_shallow,
}
use ton_validators_rewards_a.Rewards.Reports.{ReportsFrom, rewards_of}
use ton_validators_rewards_a.Rewards.Nominators.{
  nominator_amounts, split_reward_conserve, split_reward-panic,
}
use ton_validators_rewards_a.Sample.{tongo, client, fresh, config_at}

abbrev row : (key stake : ℕ) → ValidatorRow
row key stake = record {
  descr = record { pub_key = key };
  true_stake = pos stake;
  pool = [];
  pool_addr = none;
}

abbrev rows : List ValidatorRow
rows = row 7 500 ∷ row 8 300 ∷ row 9 200 ∷ []

abbrev pools : Pools
pools =
    (8, record { addr = record { workchain = negsuc 0; address = 80 }; true_stake = pos 400 }) ∷ []

-- What the validators get of a bonus of 33.
abbrev share_of : (rank key stake reward : ℕ) → ValidatorReward ℤ
share_of rank key stake reward = record {
  rank = rank;
  pubkey = key;
  effective_stake = some (some (pos stake));
  weight = pos stake;
  reward = some (some (pos reward));
  pool = [];
  owner_address = [];
  validator_address = [];
  pool_type = [];
  validator_stake = none;
  nominators_stake = none;
  total_stake = none;
  validator_reward_share = pos 0;
  nominators_count = 0;
  nominators = [];
}

abbrev shares : List (ValidatorReward ℤ)
shares = share_of 1 7 500 16 ∷ share_of 2 8 300 9 ∷ share_of 3 9 200 6 ∷ []

computed_shares :
    (compute_validator_rewards tongo (client 1) rows (pos 1000) (pos 33) true fresh).0 ≡ ok shares
unfolding compute_validator_rewards validator_rewards_from validator_reward reward_rows row_reward
    mul_div div_ℤ ◌*ℤ◌ sort_slice validator_weight inaccurate_div_float
computed_shares = refl

compute_validator_rewards_conserve_example :
    (sum_ℤ (rewards_of shares) ≤ℤ pos 33) × (pos 33 <ℤ sum_ℤ (rewards_of shares) +ℤ pos 3)
unfolding ◌+ℤ◌
compute_validator_rewards_conserve_example =
    compute_validator_rewards_conserve tongo (client 1) (pos 33) rows 999 true fresh refl
      computed_shares

compute_validator_rewards-ranked_example :
    ReportsFrom 0 (ranked tongo (client 1) (pos 33) 999 rows) shares
    × Perm (ranked tongo (client 1) (pos 33) 999 rows) (map (shared_row (pos 33) 1000) rows)
    × IsSorted more_reward_stake (ranked tongo (client 1) (pos 33) 999 rows)
compute_validator_rewards-ranked_example =
    compute_validator_rewards-ranked tongo (client 1) (pos 33) rows 999 true fresh computed_shares

compute_validator_rewards_shallow_example :
    (vs : List (ValidatorReward ℤ)) × (compute_validator_rewards tongo
        (client 1)
        rows
        (pos 1000)
        (pos 33)
        true
        fresh
      ≡ (ok vs, fresh))
compute_validator_rewards_shallow_example =
    compute_validator_rewards_shallow tongo (client 1) (pos 33) rows 999 fresh

build_validator_rows_example :
    let (rs, total) = build_validator_rows tongo (config_at 5) pools in
    Perm rs (map (make_row tongo pools) (extract_validators (config_at 5)))
    × IsSorted more_stake rs
    × (total ≡ sum_ℤ (stakes rs))
build_validator_rows_example = build_validator_rows_lem tongo (config_at 5) pools

abbrev nominator : (addr amount : ℕ) → NominatorData
nominator addr amount = record {
  address = addr;
  amount = amount;
  pending_deposit_amount = 5;
  withdraw_requested = false;
}

abbrev two_nominators : List NominatorData
two_nominators = nominator 21 400 ∷ nominator 22 200 ∷ []

abbrev data_of : (amount : ℤ) → PoolData tongo
data_of amount = record {
  validator_amount = some (pos 300);
  nominators_amount = some amount;
  reward_share = 3000;
  nominators_count = 2;
  validator_address = 5;
  owner_address = 0;
  validator_wallet_address = 0;
  nominators = none;
}

split_reward_conserve_example :
    (self : ℤ) × (rs : List (NominatorReward ℤ)) × (validator_self_reward tongo (pos 17) 3000
      ≡ ok self)
    × (split_reward tongo (pos 17) (pos 900) (pos 950) (data_of (pos 600)) two_nominators ≡ ok rs)
    × (self ≤ℤ pos 17)
    × (self +ℤ sum_ℤ (nominator_amounts rs) ≤ℤ pos 17)
    × (pos 17 <ℤ self +ℤ sum_ℤ (nominator_amounts rs) +ℤ pos 2)
unfolding ◌+ℤ◌
split_reward_conserve_example =
    split_reward_conserve tongo (pos 17) (pos 900) 949 599 (data_of (pos 600)) two_nominators refl
      refl

split_reward-panic_example :
    split_reward tongo (pos 17) (pos 900) (pos 950) (data_of (pos 0)) (nominator 21 0 ∷ []) ≡ panic
split_reward-panic_example =
    split_reward-panic tongo (pos 17) (pos 900) (pos 950) (data_of (pos 0)) (nominator 21 0) [] refl
