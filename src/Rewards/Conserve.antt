-- ===== src/Rewards/Conserve.antt =====
-- The rewards of a round or a block add up: nothing is paid that is not in the pool, and less than one
-- nano TON for each validator is left over.
use mathlib.Core.List.{Perm}
use ton_validators_rewards_a.Base.{
  ℕ, suc, ◌≡◌, refl, sym, ap, ◌∙◌, Bool, true, List, [], ◌∷◌, map, arith, length, length-map,
}
use ton_validators_rewards_a.Base.Int.{ℤ, pos, ◌+ℤ◌, ◌≤ℤ◌, ◌<ℤ◌, sum_ℤ}
use ton_validators_rewards_a.Base.Sort.{
  IsSorted, sort_slice, sort_slice-perm, sort_slice-IsSorted, sum-sort_slice,
}
use ton_validators_rewards_a.Outcome.{ok, Ensures, Ensures-ok}
use ton_validators_rewards_a.Math.{mul_div, inaccurate_div_float}
use ton_validators_rewards_a.Math.Bounds.{share, shares_of_whole}
use ton_validators_rewards_a.Tlb.{Tongo}
use ton_validators_rewards_a.Model.{ValidatorReward}
use ton_validators_rewards_a.State.{State, LiteClient}
use ton_validators_rewards_a.Rewards.Stakes.{stakes, more_stake_asym, more_stake_trans}
use ton_validators_rewards_a.Rewards.Reports.{
  ReportsFrom, ReportsFrom-rewards, rewards_of, validator_rewards_from-Reports,
}
use ton_validators_rewards_a.Rewards.{
  ValidatorRow, RewardRow, more_reward_stake, row_reward, reward_rows, validator_weight,
  base_reward, validator_reward, validator_rewards_from, compute_validator_rewards,
}

-- The rows with their shares of the reward.
abbrev pub shared_row : ℤ → ℕ → ValidatorRow → RewardRow
shared_row pool total row = (row, share pool total row.true_stake)

row_reward_lem :
    (pool : ℤ) (n : ℕ) (row : ValidatorRow)
    → row_reward (pos (suc n)) pool row ≡ ok (share pool (suc n) row.true_stake)
unfolding row_reward mul_div
row_reward_lem pool n row = ground arith

reward_rows_lem :
    (pool : ℤ) (n : ℕ) (rows : List ValidatorRow)
    → reward_rows (pos (suc n)) pool rows ≡ ok (map (shared_row pool (suc n)) rows)
unfolding reward_rows
reward_rows_lem pool n [] = refl
reward_rows_lem pool n (row ∷ rows) = rw (reward_rows_lem pool n rows, row_reward_lem pool n row)

-- With a positive total the weight is defined.
validator_weight_total :
    (t : Tongo) (stake : ℤ) (n : ℕ)
    → (weight : t.Float) × (validator_weight t stake (pos (suc n)) ≡ ok weight)
unfolding validator_weight inaccurate_div_float
validator_weight_total t stake n = (t.floats.quo stake (pos (suc n)), ground arith)

module _ (t : Tongo) {W : Type 0} (client : LiteClient t W) (pool : ℤ) where
  shares_of_rows :
      (n : ℕ) (rows : List ValidatorRow)
      → map (λ row. row.1) (map (shared_row pool n) rows) ≡ map (share pool n) (stakes rows)
  shares_of_rows n [] = refl
  shares_of_rows n (row ∷ rows) = rw (shares_of_rows n rows)

  -- The rows in the order of the results.
  abbrev pub ranked : ℕ → List ValidatorRow → List RewardRow
  ranked n rows = sort_slice more_reward_stake (map (shared_row pool (suc n)) rows)

  pub compute-Reports :
      (rows : List ValidatorRow) (n : ℕ) (shallow : Bool) (s : State t W)
      → Ensures
          (ReportsFrom 0 (ranked n rows))
          (compute_validator_rewards t client rows (pos (suc n)) pool shallow s)
  unfolding compute_validator_rewards
  compute-Reports rows n shallow s =
      rw (reward_rows_lem pool n rows)
        (validator_rewards_from-Reports t client (pos (suc n)) shallow 0 (ranked n rows) s)

  -- If the total is positive and is the sum of the stakes, then the rewards that are returned add
  -- up to no more than the pool, and what is left of the pool is less than one unit for each
  -- validator.
  pub compute_validator_rewards_conserve :
      (rows : List ValidatorRow) (n : ℕ) (shallow : Bool) (s : State t W)
      {vs : List (ValidatorReward t.Float)}
      → sum_ℤ (stakes rows) ≡ pos (suc n)
      → (compute_validator_rewards t client rows (pos (suc n)) pool shallow s).0 ≡ ok vs
      → (sum_ℤ (rewards_of vs) ≤ℤ pool) × (pool <ℤ sum_ℤ (rewards_of vs) +ℤ pos (length rows))
  compute_validator_rewards_conserve rows n shallow s {vs} whole got =
      let reports =
        Ensures-ok (ReportsFrom 0 (ranked n rows)) _ (compute-Reports rows n shallow s) got in
      let shares : sum_ℤ (rewards_of vs) ≡ sum_ℤ (map (share pool (suc n)) (stakes rows)) =
        ap sum_ℤ (ReportsFrom-rewards 0 (ranked n rows) vs reports)
        ∙ sum-sort_slice more_reward_stake (λ row. row.1) (map (shared_row pool (suc n)) rows)
        ∙ ap sum_ℤ (shares_of_rows (suc n) rows) in
      rw (shares, sym (length-map rows (λ row. row.true_stake)))
        (shares_of_whole pool n (stakes rows) whole)

  -- If the total is positive, the results that are returned are ranked: result number i reports
  -- rank i + 1 with the key, the stake and the reward of row i of a list that has each given row
  -- once, with its share of the pool, and is ordered by stake, the largest first.
  pub compute_validator_rewards-ranked :
      (rows : List ValidatorRow) (n : ℕ) (shallow : Bool) (s : State t W)
      {vs : List (ValidatorReward t.Float)}
      → (compute_validator_rewards t client rows (pos (suc n)) pool shallow s).0 ≡ ok vs
      → ReportsFrom 0 (ranked n rows) vs
        × Perm (ranked n rows) (map (shared_row pool (suc n)) rows)
        × IsSorted more_reward_stake (ranked n rows)
  compute_validator_rewards-ranked rows n shallow s got = (
    Ensures-ok (ReportsFrom 0 (ranked n rows)) _ (compute-Reports rows n shallow s) got,
    sort_slice-perm more_reward_stake (map (shared_row pool (suc n)) rows),
    sort_slice-IsSorted more_reward_stake (λ a b. more_stake_asym a.0 b.0)
        (λ a b c. more_stake_trans a.0 b.0 c.0) (map (shared_row pool (suc n)) rows),
  )

  -- Over the rows that are left, with row number `i` first.
  validator_rewards_from-shallow :
      (n i : ℕ) (rows : List RewardRow) (s : State t W)
      → (vs : List (ValidatorReward t.Float)) × (validator_rewards_from t client
            (pos (suc n))
            true
            i
            rows
            s
          ≡ (ok vs, s))
  unfolding validator_rewards_from validator_reward
  validator_rewards_from-shallow n i [] s = ([], refl)
  validator_rewards_from-shallow n i (row ∷ rows) s =
      let (weight, weighed) = validator_weight_total t row.0.true_stake n in
      let (vs, rest) = validator_rewards_from-shallow n (suc i) rows s in
      (base_reward t i row weight ∷ vs, rw (weighed, rest))

  -- If the total is positive, a shallow computation returns a result and leaves the state as it is:
  -- it makes no request.
  pub compute_validator_rewards_shallow :
      (rows : List ValidatorRow) (n : ℕ) (s : State t W)
      → (vs : List (ValidatorReward t.Float)) × (compute_validator_rewards t client rows
            (pos (suc n))
            pool
            true
            s
          ≡ (ok vs, s))
  unfolding compute_validator_rewards
  compute_validator_rewards_shallow rows n s =
      rw (reward_rows_lem pool n rows) (validator_rewards_from-shallow n 0 (ranked n rows) s)
