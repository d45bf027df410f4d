-- ===== src/Rewards/Rows.antt =====
-- buildValidatorRows: a row for each validator of config param 34, by stake descending.
use ton_validators_rewards_a.Base.{
  ℕ, Bool, true, false, Option, none, some, List, [], ◌∷◌, map, ◌==◌,
}
use ton_validators_rewards_a.Base.Int.{ℤ, pos, ◌+ℤ◌, ltb_ℤ}
use ton_validators_rewards_a.Base.Text.{Text}
use ton_validators_rewards_a.Base.Sort.{sort_slice}
use ton_validators_rewards_a.Base.Dict.{lookup}
use ton_validators_rewards_a.Tlb.{Tongo, AccountId, ValidatorDescr, BlockchainConfig}
use ton_validators_rewards_a.State.{PoolEntry}
use ton_validators_rewards_a.Chain.{extract_validators}

pub record ValidatorRow : Type 0 where
  pub descr : ValidatorDescr
  pub true_stake : ℤ
  pub pool : Text
  pub pool_addr : Option AccountId

abbrev pub Pools : Type 0
Pools = List (ℕ × PoolEntry)

abbrev pub add_stake : ℤ → Option PoolEntry → ℤ
add_stake acc none = acc
add_stake acc (some e) = acc +ℤ e.true_stake

-- The first loop.
unfoldable pub total_true_stake : Pools → ℤ → List ValidatorDescr → ℤ
total_true_stake pools acc [] = acc
total_true_stake pools acc (v ∷ vs) =
    total_true_stake pools (add_stake acc (lookup ◌==◌ v.pub_key pools)) vs

-- `rows[i].trueStake.Cmp(rows[j].trueStake) > 0`
abbrev pub more_stake : ValidatorRow → ValidatorRow → Bool
more_stake a b = ltb_ℤ b.true_stake a.true_stake

module _ (t : Tongo) where
  abbrev pub row_of : ValidatorDescr → Option PoolEntry → ValidatorRow
  row_of v none = record { descr = v; true_stake = pos 0; pool = []; pool_addr = none }
  row_of v (some e) = record {
    descr = v;
    true_stake = e.true_stake;
    pool = t.to_human e.addr true false;
    pool_addr = some e.addr;
  }

  -- The second loop's body.
  unfoldable pub make_row : Pools → ValidatorDescr → ValidatorRow
  make_row pools v = row_of v (lookup ◌==◌ v.pub_key pools)

  unfoldable pub build_validator_rows : BlockchainConfig → Pools → List ValidatorRow × ℤ
  unfolding make_row total_true_stake
  build_validator_rows conf pools =
      let vs = extract_validators conf in
      (sort_slice more_stake (map (make_row pools) vs), total_true_stake pools (pos 0) vs)
