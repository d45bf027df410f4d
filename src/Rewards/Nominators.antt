-- ===== src/Rewards/Nominators.antt =====
-- The split of a validator's reward: what the validator keeps and what its nominators get.
use ton_validators_rewards_a.Base.{
  ℕ, suc, ◌≡◌, refl, true, false, some, List, [], ◌∷◌, map, arith, length, length-map, Bool-cases,
  inl, inr,
}
use ton_validators_rewards_a.Base.Int.{
  ℤ, pos, ◌+ℤ◌, ◌-ℤ◌, ◌*ℤ◌, ◌≤ℤ◌, ◌<ℤ◌, sum_ℤ, int_laws, ltb_ℤ, div_ℤ,
}
use ton_validators_rewards_a.Outcome.{ok, panic}
use ton_validators_rewards_a.Math.{mul_div, inaccurate_div_float}
use ton_validators_rewards_a.Math.Bounds.{share, shares_of_whole}
use ton_validators_rewards_a.Tlb.{Tongo}
use ton_validators_rewards_a.Model.{NominatorReward}
use ton_validators_rewards_a.Pool.{PoolData, NominatorData}
use ton_validators_rewards_a.Pool.Nominators.{amounts}
use ton_validators_rewards_a.Rewards.Split.{
  validator_self_reward, nominator_reward, nominator_rewards, rewards_of_nominators, split_reward,
}
use ton_validators_rewards_a.Rewards.Reports.{amount}

abbrev pub nominator_amounts : {F : Type 0} → List (NominatorReward F) → List ℤ
nominator_amounts = map (λ r. amount r.reward)

-- `Div` and `Quo` do not panic where the divisor is positive.
mul_div-pos : (a b : ℤ) (n : ℕ) → mul_div a b (pos (suc n)) ≡ ok (div_ℤ (a *ℤ b) (pos (suc n)))
unfolding mul_div
mul_div-pos a b n = ground arith

module _ (t : Tongo) (reward true_stake : ℤ) (stake total : ℕ) where
  nominator_reward_total :
      (n : NominatorData)
      → (r : NominatorReward t.Float) × (nominator_reward t reward
            (pos (suc total))
            true_stake
            (pos (suc stake))
            n
          ≡ ok r)
        × (r.reward ≡ some (some (share reward (suc total) (pos n.amount))))
  unfolding nominator_reward inaccurate_div_float
  nominator_reward_total n = (
    record {
      address = t.to_human (record { workchain = pos 0; address = n.address }) true false;
      weight = t.floats.quo (pos n.amount) (pos (suc total));
      reward = some (some (share reward (suc total) (pos n.amount)));
      effective_stake = some (some (div_ℤ (pos n.amount *ℤ true_stake) (pos (suc stake))));
      stake = some (some (pos n.amount));
    },
    rw (mul_div-pos reward (pos n.amount) total, mul_div-pos (pos n.amount) true_stake stake)
        (ground arith),
    refl,
  )

  nominator_rewards_total :
      (ns : List NominatorData)
      → (rs : List (NominatorReward t.Float)) × (nominator_rewards t reward
            (pos (suc total))
            true_stake
            (pos (suc stake))
            ns
          ≡ ok rs)
        × (nominator_amounts rs ≡ map (share reward (suc total)) (amounts ns))
  unfolding nominator_rewards
  nominator_rewards_total [] = ([], refl, refl)
  nominator_rewards_total (n ∷ ns) =
      let (r, e, paid) = nominator_reward_total n in
      let (rs, es, all) = nominator_rewards_total ns in (r ∷ rs, rw (e, es), rw (paid, all))

-- The validator's own reward is defined, and never more than the whole reward.
pub validator_self_reward-le :
    (t : Tongo) (reward : ℤ) (share : ℕ)
    → (self : ℤ) × (validator_self_reward t reward share ≡ ok self) × (self ≤ℤ reward)
unfolding validator_self_reward
validator_self_reward-le t reward share =
    let part = div_ℤ (reward *ℤ pos share) (pos 10000) in
    elim (Bool-cases (ltb_ℤ reward part)) [
      | inl more ↦ (reward, rw (mul_div-pos reward (pos share) 9999) (rw more), omega arith)
      | inr less ↦ (part, rw (mul_div-pos reward (pos share) 9999) (rw less), ground arith)
    ]

-- For a pool whose nominators' amount is the sum of the amounts of its nominators and positive, and
-- a positive stake in the elector, the split is defined; the validator gets no more than the
-- reward, the validator and the nominators together get no more than the reward, and less than one
-- unit for each nominator is left over. This holds for every reward share and also for a negative
-- reward.
pub split_reward_conserve :
    (t : Tongo) (reward true_stake : ℤ) (stake total : ℕ) (pd : PoolData t)
    (ns : List NominatorData)
    → pd.nominators_amount ≡ some (sum_ℤ (amounts ns))
    → sum_ℤ (amounts ns) ≡ pos (suc total)
    → (self : ℤ) × (rs : List (NominatorReward t.Float)) × (validator_self_reward t reward
          pd.reward_share
        ≡ ok self)
      × (split_reward t reward true_stake (pos (suc stake)) pd ns ≡ ok rs)
      × (self ≤ℤ reward)
      × (self +ℤ sum_ℤ (nominator_amounts rs) ≤ℤ reward)
      × (reward <ℤ self +ℤ sum_ℤ (nominator_amounts rs) +ℤ pos (length ns))
unfolding split_reward rewards_of_nominators
split_reward_conserve t reward true_stake stake total pd ns listed whole =
    let (self, own, le) = validator_self_reward-le t reward pd.reward_share in
    let (rs, paid, shares) = nominator_rewards_total t (reward -ℤ self) true_stake stake total ns in
    let (low, high) = shares_of_whole (reward -ℤ self) total (amounts ns) whole in
    let n = length-map ns (λ (m : NominatorData). pos m.amount) in
    (
      self,
      rs,
      own,
      rw (own, listed, whole) paid,
      le,
      rw shares (omega (int_laws, low)),
      rw shares (omega (int_laws, high, n)),
    )

-- A pool with some nominators whose amounts add up to 0, as when all of them have only pending
-- deposits, makes the split panic: the amount that it divides by is 0.
pub split_reward-panic :
    (t : Tongo) (reward true_stake total_stake : ℤ) (pd : PoolData t) (n : NominatorData)
    (ns : List NominatorData)
    → pd.nominators_amount ≡ some (pos 0)
    → split_reward t reward true_stake total_stake pd (n ∷ ns) ≡ panic
unfolding split_reward rewards_of_nominators nominator_rewards nominator_reward mul_div
split_reward-panic t reward true_stake total_stake pd n ns none_staked =
    let (self, own, le) = validator_self_reward-le t reward pd.reward_share in rw (own, none_staked)
