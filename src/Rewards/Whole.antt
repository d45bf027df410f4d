-- ===== src/Rewards/Whole.antt =====
-- The whole of what computeValidatorRewards pays out, for a total of stakes that is not negative.
use ton_validators_rewards_a.Base.{
  All, ℕ, zero, suc, ◌+◌, ◌≡◌, refl, sym, ap, ◌∙◌, Bool, List, [], ◌∷◌, map, length, ◌==◌,
  Bool-cases, inl, inr, length-map,
}
use ton_validators_rewards_a.Base.Int.{ℤ, pos, ◌+ℤ◌, ◌≤ℤ◌, ◌<ℤ◌, sum_ℤ, int_laws}
use ton_validators_rewards_a.Base.Dict.{lookup}
use ton_validators_rewards_a.Base.Sort.{sort_slice, length-sort_slice, sum-sort_slice}
use ton_validators_rewards_a.Outcome.{ok, Ensures, Ensures-of_ok, Ensures-ok}
use ton_validators_rewards_a.Tlb.{Tongo, ValidatorDescr, BlockchainConfig}
use ton_validators_rewards_a.Model.{ValidatorReward}
use ton_validators_rewards_a.State.{State, LiteClient}
use ton_validators_rewards_a.Chain.{extract_validators}
use ton_validators_rewards_a.Elections.Valid.{Valid}
use ton_validators_rewards_a.Rewards.{
  Pools, ValidatorRow, RewardRow, total_true_stake, add_stake, build_validator_rows, reward_rows,
  compute_validator_rewards, more_reward_stake, validator_rewards_from, row_reward,
}
use ton_validators_rewards_a.Rewards.Stakes.{stakes}
use ton_validators_rewards_a.Rewards.Conserve.{
  ranked, shared_row, compute_validator_rewards_conserve, compute_validator_rewards-ranked,
}
use ton_validators_rewards_a.Rewards.Reports.{
  IsKnown, ReportsFrom-IsKnown, ReportsFrom, ReportsFrom-rewards, validator_rewards_from-Reports,
  rewards_of,
}

pub ReportsFrom-length :
    {F : Type 0} (i : ℕ) (rows : List RewardRow) (vs : List (ValidatorReward F))
    → ReportsFrom i rows vs
    → length rows ≡ length vs
ReportsFrom-length i [] [] h = refl
ReportsFrom-length i (row ∷ rows) (v ∷ vs) h = ap suc (ReportsFrom-length (suc i) rows vs h.1)
ReportsFrom-length i [] (v ∷ vs) h = absurd h
ReportsFrom-length i (row ∷ rows) [] h = absurd h

-- A number that is not negative.
abbrev pub IsNat : ℤ → Type 0
IsNat n = (m : ℕ) × (n ≡ pos m)

lookup-IsNat :
    (k : ℕ) (pools : Pools) (acc : ℤ)
    → Valid pools
    → IsNat acc
    → IsNat (add_stake acc (lookup ◌==◌ k pools))
lookup-IsNat k [] acc h n = n
lookup-IsNat k ((j, e) ∷ pools) acc (entry, rest) (m, is_m) = elim (Bool-cases (j == k)) [
  | inl hit ↦ rw (hit, is_m, entry.1.1) (m + entry.1.0, omega int_laws)
  | inr miss ↦ rw (miss) (lookup-IsNat k pools acc rest (m, is_m))
]

pub total_true_stake-IsNat :
    (pools : Pools) (acc : ℤ) (vs : List ValidatorDescr)
    → Valid pools
    → IsNat acc
    → IsNat (total_true_stake pools acc vs)
unfolding total_true_stake
total_true_stake-IsNat pools acc [] h n = n
total_true_stake-IsNat pools acc (v ∷ vs) h n =
    total_true_stake-IsNat pools (add_stake acc (lookup ◌==◌ v.pub_key pools)) vs h
      (lookup-IsNat v.pub_key pools acc h n)

module _ (t : Tongo) where
  pub build_validator_rows-IsNat :
      (conf : BlockchainConfig) (pools : Pools)
      → Valid pools
      → IsNat (build_validator_rows t conf pools).1
  unfolding build_validator_rows
  build_validator_rows-IsNat conf pools valid =
      total_true_stake-IsNat pools (pos 0) (extract_validators conf) valid (0, refl)

  -- What is paid out of the pool for a total of the stakes: nothing without stakes, and else no more
  -- than the pool and all of it but less than one unit for each validator; no reward is missing.
  abbrev pub PaysOut : ℕ → ℤ → List (ValidatorReward t.Float) → Type 0
  PaysOut zero pool vs = (sum_ℤ (rewards_of vs) ≡ pos 0) × All IsKnown vs
  PaysOut (suc n) pool vs =
      (sum_ℤ (rewards_of vs) ≤ℤ pool)
      × (pool <ℤ sum_ℤ (rewards_of vs) +ℤ pos (length vs))
      × All IsKnown vs

abbrev unpaid_row : ValidatorRow → RewardRow
unpaid_row row = (row, pos 0)

reward_rows-unpaid_row :
    (pool : ℤ) (rows : List ValidatorRow) → reward_rows (pos 0) pool rows ≡ ok (map unpaid_row rows)
unfolding reward_rows row_reward
reward_rows-unpaid_row pool [] = refl
reward_rows-unpaid_row pool (row ∷ rows) = rw (reward_rows-unpaid_row pool rows) refl

sum-unpaid_row : (rows : List ValidatorRow) → sum_ℤ (map (λ r. r.1) (map unpaid_row rows)) ≡ pos 0
unfolding ◌+ℤ◌
sum-unpaid_row [] = refl
sum-unpaid_row (row ∷ rows) = rw (sum-unpaid_row rows) refl

module _ (t : Tongo) {W : Type 0} (client : LiteClient t W) (pool : ℤ) where
  compute_validator_rewards-unpaid_row :
      (rows : List ValidatorRow) (shallow : Bool) (s : State t W)
      → Ensures (PaysOut t 0 pool) (compute_validator_rewards t client rows (pos 0) pool shallow s)
  unfolding compute_validator_rewards
  compute_validator_rewards-unpaid_row rows shallow s =
      let sorted = sort_slice more_reward_stake (map unpaid_row rows) in
      rw (reward_rows-unpaid_row pool rows) (
        Ensures-of_ok _ (validator_rewards_from t client (pos 0) shallow 0 sorted s) λ vs got.
          let reports =
            Ensures-ok (ReportsFrom 0 sorted) _
              (validator_rewards_from-Reports t client (pos 0) shallow 0 sorted s) got in
          (
            ap sum_ℤ (ReportsFrom-rewards 0 sorted vs reports)
                ∙ sum-sort_slice more_reward_stake (λ r. r.1) (map unpaid_row rows)
                ∙ sum-unpaid_row rows,
            ReportsFrom-IsKnown 0 sorted vs reports,
          ))

  pub compute_validator_rewards-PaysOut :
      (rows : List ValidatorRow) (m : ℕ) (shallow : Bool) (s : State t W)
      → sum_ℤ (stakes rows) ≡ pos m
      → Ensures (PaysOut t m pool) (compute_validator_rewards t client rows (pos m) pool shallow s)
  compute_validator_rewards-PaysOut rows zero shallow s whole =
      compute_validator_rewards-unpaid_row rows shallow s
  compute_validator_rewards-PaysOut rows (suc n) shallow s whole =
      Ensures-of_ok _ (compute_validator_rewards t client rows (pos (suc n)) pool shallow s)
        λ vs got.
          let (low, high) =
            compute_validator_rewards_conserve t client pool rows n shallow s whole got in
          let reports = (compute_validator_rewards-ranked t client pool rows n shallow s got).0 in
          let count : length rows ≡ length vs =
            sym (length-map rows (shared_row pool (suc n)))
            ∙ sym (length-sort_slice more_reward_stake (map (shared_row pool (suc n)) rows))
            ∙ ReportsFrom-length 0 (ranked t client pool n rows) vs reports in
          (low, rw (sym count) high, ReportsFrom-IsKnown 0 (ranked t client pool n rows) vs reports)
