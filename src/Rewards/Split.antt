-- ===== src/Rewards/Split.antt =====
-- computeNominatorPoolMeta, and the part of computeValidatorRewards that splits a validator's reward
-- between the validator and its nominators.
use ton_validators_rewards_a.Base.{ℕ, true, false, Option, none, some, List, [], ◌∷◌, if◌then◌else◌}
use ton_validators_rewards_a.Base.Int.{ℤ, pos, ◌+ℤ◌, ◌-ℤ◌, ltb_ℤ}
use ton_validators_rewards_a.Outcome.{Outcome, ok, panic, and_then}
use ton_validators_rewards_a.Math.{mul_div, inaccurate_div_float}
use ton_validators_rewards_a.Tlb.{Tongo}
use ton_validators_rewards_a.Model.{NominatorReward}
use ton_validators_rewards_a.Pool.{NominatorData, PoolData}

pub record NominatorPoolMeta (Float : Type 0) : Type 0 where
  pub validator_stake : Option ℤ
  pub nominators_stake : Option ℤ
  pub total_pool_stake : ℤ
  pub validator_reward_share : Float
  pub nominators_count : ℕ

abbrev add_amount : ℤ → Option ℤ → ℤ
add_amount total none = total
add_amount total (some n) = total +ℤ n

module _ (t : Tongo) where
  open t use {Float, floats, to_human}

  unfoldable pub compute_nominator_pool_meta : PoolData t → NominatorPoolMeta Float
  compute_nominator_pool_meta pd = record {
    validator_stake = pd.validator_amount;
    nominators_stake = pd.nominators_amount;
    total_pool_stake = add_amount (add_amount (pos 0) pd.validator_amount) pd.nominators_amount;
    validator_reward_share = floats.per_ten_thousand (pos pd.reward_share);
    nominators_count = pd.nominators_count;
  }

  -- The validator's own reward: its share in units of 1/10000, and not more than the whole reward.
  unfoldable pub validator_self_reward : ℤ → ℕ → Outcome ℤ
  validator_self_reward reward share =
      and_then (mul_div reward (pos share) (pos 10000))
        λ self. ok (if ltb_ℤ reward self then reward else self)

  -- One round of the loop over the nominators.
  unfoldable pub nominator_reward :
      (nominators_reward nominators_total true_stake total_stake : ℤ)
      → NominatorData
      → Outcome (NominatorReward Float)
  nominator_reward nominators_reward nominators_total true_stake total_stake n =
      and_then (mul_div nominators_reward (pos n.amount) nominators_total) λ reward.
        and_then (mul_div (pos n.amount) true_stake total_stake) λ effective.
          and_then (inaccurate_div_float floats (pos n.amount) nominators_total) λ weight.
            ok (record {
              address = to_human (record { workchain = pos 0; address = n.address }) true false;
              weight = weight;
              reward = some (some reward);
              effective_stake = some (some effective);
              stake = some (some (pos n.amount));
            })

  unfoldable pub nominator_rewards :
      (nominators_reward nominators_total true_stake total_stake : ℤ)
      → List NominatorData
      → Outcome (List (NominatorReward Float))
  nominator_rewards nominators_reward nominators_total true_stake total_stake [] = ok []
  nominator_rewards nominators_reward nominators_total true_stake total_stake (n ∷ ns) =
      let rest = nominator_rewards nominators_reward nominators_total true_stake total_stake ns in
      and_then (nominator_reward nominators_reward nominators_total true_stake total_stake n)
        λ r. and_then rest λ rs. ok (r ∷ rs)

  -- The loop with the amount that it divides by: a nil amount is dereferenced in the first round.
  unfoldable pub rewards_of_nominators :
      (nominators_reward true_stake total_stake : ℤ)
      → Option ℤ
      → List NominatorData
      → Outcome (List (NominatorReward Float))
  unfolding nominator_rewards nominator_reward
  rewards_of_nominators nominators_reward true_stake total_stake none [] = ok []
  rewards_of_nominators nominators_reward true_stake total_stake none (n ∷ ns) = panic
  rewards_of_nominators nominators_reward true_stake total_stake (some total) ns =
      nominator_rewards nominators_reward total true_stake total_stake ns

  -- The whole split of one validator's reward.
  unfoldable pub split_reward :
      (reward true_stake total_stake : ℤ)
      → PoolData t
      → List NominatorData
      → Outcome (List (NominatorReward Float))
  split_reward reward true_stake total_stake pd ns =
      and_then (validator_self_reward reward pd.reward_share) λ self.
        rewards_of_nominators (reward -ℤ self) true_stake total_stake pd.nominators_amount ns
