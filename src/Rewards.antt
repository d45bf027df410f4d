-- ===== src/Rewards.antt =====
-- service/shared.go: the validators of a round with their stakes, and the distribution of a reward
-- over them and their nominators. The errgroup's goroutines write one result each; they are run here
-- one after the other. A panic in one of them ends the program.
mod Rows
mod Split
pub mod Stakes
pub mod Reports
pub mod Conserve
pub mod Whole
pub mod Nominators
mod Tests
pub use Rows.{ValidatorRow, Pools}
unfoldable pub use Rows.{
  row_of, add_stake, more_stake, make_row, total_true_stake, build_validator_rows,
}
unfoldable pub use Split.{
  validator_self_reward, nominator_rewards, rewards_of_nominators, split_reward,
  compute_nominator_pool_meta,
}
use ton_validators_rewards_a.Base.{
  ℕ, zero, suc, Bool, true, false, ◌||◌, Option, none, some, List, [], ◌∷◌, ◌==◌, if◌then◌else◌,
}
use ton_validators_rewards_a.Base.Int.{ℤ, pos, negsuc, ◌+ℤ◌, ltb_ℤ, leb_ℤ}
use ton_validators_rewards_a.Base.Text.{Text}
use ton_validators_rewards_a.Base.Sort.{sort_slice}
use ton_validators_rewards_a.Outcome.{
  Outcome, ok, err, panic, Action, pure, lift, attempt, and_then, ◌>>=◌, ◌>>◌,
}
use ton_validators_rewards_a.Math.{mul_div, inaccurate_div_float}
use ton_validators_rewards_a.Tlb.{Tongo, AccountId}
use ton_validators_rewards_a.Model.{ValidatorReward, NominatorReward}
use ton_validators_rewards_a.State.{PoolType, nominator_v10, State, LiteClient}
use ton_validators_rewards_a.Pool.{PoolData, NominatorData, fetch_pool_data, pool_type_name}
use ton_validators_rewards_a.Chain.{compute_returned_stake}

pub record PoolAddressInfo (t : Tongo) : Type 0 where
  pub pool_type : PoolType
  pub validator_address : Text
  pub owner_address : Text
  pub pd : Option (PoolData t)

abbrev pub is_nominator_v10 : PoolType → Bool
is_nominator_v10 nominator_v10 = true
is_nominator_v10 _ = false

-- A validator's row with its reward.
abbrev pub RewardRow : Type 0
RewardRow = ValidatorRow × ℤ

abbrev pub more_reward_stake : RewardRow → RewardRow → Bool
more_reward_stake a b = more_stake a.0 b.0

-- The reward of one row. The total is positive, or there is no reward.
unfoldable pub row_reward : (total pool : ℤ) → ValidatorRow → Outcome ℤ
row_reward total pool row =
    if ltb_ℤ (pos 0) total then mul_div pool row.true_stake total else ok (pos 0)

unfoldable pub reward_rows : (total pool : ℤ) → List ValidatorRow → Outcome (List RewardRow)
unfolding row_reward
reward_rows total pool [] = ok []
reward_rows total pool (row ∷ rows) =
    let rest = reward_rows total pool rows in
    and_then (row_reward total pool row) λ reward. and_then rest λ rs. ok ((row, reward) ∷ rs)

module _ (t : Tongo) where
  open t use {Float, floats, MsgAddress, to_human, account_id_from_tlb}

  -- validatorWeight
  unfoldable pub validator_weight : (true_stake total : ℤ) → Outcome Float
  validator_weight true_stake total =
      if leb_ℤ total (pos 0)
      then ok floats.zero_float
      else inaccurate_div_float floats true_stake total

  -- msgAddressToHuman
  abbrev pub msg_address_to_human : MsgAddress → (bounce : Bool) → Option Text
  msg_address_to_human a bounce = elim (account_id_from_tlb a) [
    | none ↦ none
    | some id ↦ some (to_human id bounce false)
  ]

  abbrev pub validator_address_of : PoolData t → Text
  validator_address_of pd = elim (msg_address_to_human pd.validator_wallet_address true) [
    | some a ↦ a
    | none ↦
        if pd.validator_address == 0
        then []
        else to_human (record { workchain = negsuc 0; address = pd.validator_address }) true false
  ]

  abbrev pub owner_address_of : PoolData t → Text
  owner_address_of pd = elim (msg_address_to_human pd.owner_address true) [ some a ↦ a | none ↦ [] ]

  -- resolvePoolAddresses, from the fetched data on.
  abbrev pub info_of : PoolType × Option (PoolData t) → PoolAddressInfo t
  info_of (type, none) = record {
    pool_type = type;
    validator_address = [];
    owner_address = [];
    pd = none;
  }
  info_of (type, some pd) = record {
    pool_type = type;
    validator_address = validator_address_of pd;
    owner_address = owner_address_of pd;
    pd = some pd;
  }

  -- The first assignment of the loop's body.
  abbrev pub base_reward : ℕ → RewardRow → Float → ValidatorReward Float
  base_reward i (row, reward) weight = record {
    rank = suc i;
    pubkey = row.descr.pub_key;
    effective_stake = some (some row.true_stake);
    weight = weight;
    reward = some (some reward);
    pool = row.pool;
    owner_address = [];
    validator_address = [];
    pool_type = [];
    validator_stake = none;
    nominators_stake = none;
    total_stake = none;
    validator_reward_share = floats.zero_float;
    nominators_count = 0;
    nominators = [];
  }

  -- With the addresses and the stake in the elector.
  abbrev pub with_pool : PoolAddressInfo t → ℤ → ValidatorReward Float → ValidatorReward Float
  with_pool info total_stake v = record v {
    pool_type = pool_type_name info.pool_type;
    validator_address = info.validator_address;
    owner_address = info.owner_address;
    total_stake = some (some total_stake);
  }

  abbrev pub with_meta : PoolData t → ValidatorReward Float → ValidatorReward Float
  with_meta pd v =
      let meta = compute_nominator_pool_meta t pd in
      record v {
        validator_stake = some meta.validator_stake;
        nominators_stake = some meta.nominators_stake;
        validator_reward_share = meta.validator_reward_share;
        nominators_count = meta.nominators_count;
      }

  abbrev pub with_nominators :
      List (NominatorReward Float) → ValidatorReward Float → ValidatorReward Float
  with_nominators rs v = record v { nominators = rs }

  -- The nominators of a nominator pool that was read in full.
  abbrev pub nominators_part :
      RewardRow
      → (total_stake : ℤ) → PoolData t
      → Option (List NominatorData)
      → ValidatorReward Float
      → Outcome (ValidatorReward Float)
  nominators_part row total_stake pd none v = ok (with_meta pd v)
  nominators_part row total_stake pd (some ns) v =
      and_then (split_reward t row.1 row.0.true_stake total_stake pd ns)
        λ rs. ok (with_nominators rs (with_meta pd v))

  abbrev pub pool_part :
      RewardRow
      → (total_stake : ℤ) → Bool
      → Option (PoolData t)
      → ValidatorReward Float
      → Outcome (ValidatorReward Float)
  pool_part row total_stake true (some pd) v = nominators_part row total_stake pd pd.nominators v
  pool_part row total_stake true none v = ok v
  pool_part row total_stake false pd v = ok v

  -- An error of computeReturnedStake counts as a credit of 0.
  abbrev pub credit_or_zero : Outcome ℤ → ℤ
  credit_or_zero (ok n) = n
  credit_or_zero (err e) = pos 0
  credit_or_zero panic = pos 0

  module _ {W : Type 0} where
    unfoldable pub resolve_pool_addresses :
        LiteClient t W → AccountId → Action (State t W) (PoolAddressInfo t)
    resolve_pool_addresses client addr = do
      reply ← fetch_pool_data t addr client
      pure (info_of reply)

    -- Behind the early return: the pool's addresses, the stake in the elector, the nominators.
    unfoldable pub enrich :
        LiteClient t W
        → RewardRow
        → AccountId
        → ValidatorReward Float
        → Action (State t W) (ValidatorReward Float)
    unfolding resolve_pool_addresses
    enrich client row addr v = do
      info ← resolve_pool_addresses client addr
      credit ← attempt (compute_returned_stake client addr)
      let total_stake = row.0.true_stake +ℤ credit_or_zero credit
      lift (
          pool_part row total_stake (is_nominator_v10 info.pool_type) info.pd
            (with_pool info total_stake v))

    abbrev pub enrich_unless :
        Bool
        → LiteClient t W
        → RewardRow
        → Option AccountId
        → ValidatorReward Float
        → Action (State t W) (ValidatorReward Float)
    enrich_unless true client row addr v = pure v
    enrich_unless false client row none v = pure v
    enrich_unless false client row (some addr) v = enrich client row addr v

    -- The body of the loop for row number `i`.
    unfoldable pub validator_reward :
        LiteClient t W
        → (total : ℤ) → (shallow : Bool) → ℕ
        → RewardRow
        → Action (State t W) (ValidatorReward Float)
    unfolding validator_weight enrich
    validator_reward client total shallow i row = do
      weight ← lift (validator_weight row.0.true_stake total)
      enrich_unless shallow client row row.0.pool_addr (base_reward i row weight)

    unfoldable pub validator_rewards_from :
        LiteClient t W
        → (total : ℤ) → (shallow : Bool) → ℕ
        → List RewardRow
        → Action (State t W) (List (ValidatorReward Float))
    validator_rewards_from client total shallow i [] = pure []
    validator_rewards_from client total shallow i (row ∷ rows) = do
      v ← validator_reward client total shallow i row
      vs ← validator_rewards_from client total shallow (suc i) rows
      pure (v ∷ vs)

    unfoldable pub compute_validator_rewards :
        LiteClient t W
        → List ValidatorRow
        → (total pool : ℤ) → (shallow : Bool) → Action (State t W) (List (ValidatorReward Float))
    unfolding reward_rows
    compute_validator_rewards client rows total pool shallow = do
      rs ← lift (reward_rows total pool rows)
      validator_rewards_from client total shallow 0 (sort_slice more_reward_stake rs)
