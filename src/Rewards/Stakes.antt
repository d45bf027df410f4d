-- ===== src/Rewards/Stakes.antt =====
-- The rows of the validators: their order, and the total that the shares are taken of.
use mathlib.Core.List.{Perm}
use ton_validators_rewards_a.Base.{
  ◌≡◌, refl, ◌∙◌, true, false, Option, none, some, List, [], ◌∷◌, map, arith, ◌==◌,
}
use ton_validators_rewards_a.Base.Int.{ℤ, pos, ◌+ℤ◌, sum_ℤ, int_laws}
use ton_validators_rewards_a.Base.Dict.{lookup}
use ton_validators_rewards_a.Base.Sort.{
  IsSorted, sort_slice-perm, sort_slice-IsSorted, sum-sort_slice,
}
use ton_validators_rewards_a.Tlb.{Tongo, ValidatorDescr, BlockchainConfig}
use ton_validators_rewards_a.State.{PoolEntry}
use ton_validators_rewards_a.Chain.{extract_validators}
use ton_validators_rewards_a.Rewards.Rows.{
  ValidatorRow, Pools, add_stake, row_of, make_row, more_stake, total_true_stake,
  build_validator_rows,
}

pub more_stake_asym : (a b : ValidatorRow) → more_stake a b ≡ true → more_stake b a ≡ false
more_stake_asym a b h = ground arith

pub more_stake_trans :
    (a b c : ValidatorRow)
    → more_stake b a ≡ false
    → more_stake c b ≡ false
    → more_stake c a ≡ false
more_stake_trans a b c h h' = ground arith

abbrev pub stakes : List ValidatorRow → List ℤ
stakes = map (λ row. row.true_stake)

module _ (t : Tongo) where
  add_stake_lem :
      (v : ValidatorDescr) (acc : ℤ) (e : Option PoolEntry)
      → add_stake acc e ≡ acc +ℤ (row_of t v e).true_stake
  add_stake_lem v acc none = omega int_laws
  add_stake_lem v acc (some e) = refl

  total-eq-sum :
      (pools : Pools) (acc : ℤ) (vs : List ValidatorDescr)
      → total_true_stake pools acc vs ≡ acc +ℤ sum_ℤ (stakes (map (make_row t pools) vs))
  unfolding total_true_stake make_row
  total-eq-sum pools acc [] = omega int_laws
  total-eq-sum pools acc (v ∷ vs) =
      let entry = lookup ◌==◌ v.pub_key pools in
      rw (total-eq-sum pools (add_stake acc entry) vs, add_stake_lem v acc entry) (omega int_laws)

  -- Each validator of the config has one row, the rows are ordered by stake, the largest first, and
  -- the total is the sum of the stakes of the rows.
  pub build_validator_rows_lem :
      (conf : BlockchainConfig) (pools : Pools)
      → let (rows, total) = build_validator_rows t conf pools in
        Perm rows (map (make_row t pools) (extract_validators conf))
        × IsSorted more_stake rows
        × (total ≡ sum_ℤ (stakes rows))
  unfolding build_validator_rows
  build_validator_rows_lem conf pools =
      let rows = map (make_row t pools) (extract_validators conf) in
      (
        sort_slice-perm more_stake rows,
        sort_slice-IsSorted more_stake more_stake_asym more_stake_trans rows,
        total-eq-sum pools (pos 0) (extract_validators conf)
            ∙ rw (sum-sort_slice more_stake (λ row. row.true_stake) rows) (omega int_laws),
      )
