-- ===== src/Stable/Rewards.antt =====
-- The calls of service/shared.go keep what is stable.
use ton_validators_rewards_a.Base.{
  ℕ, suc, true, false, ◌++◌, Bool, Option, none, some, List, [], ◌∷◌, Option-cases, inl, inr,
}
use ton_validators_rewards_a.Base.Int.{ℤ}
use ton_validators_rewards_a.Base.Sort.{sort_slice}
use ton_validators_rewards_a.Base.Text.{Text, codes}
use ton_validators_rewards_a.Outcome.{Keeps, Keeps-bind, Keeps-lift, Keeps-wrap}
use ton_validators_rewards_a.Tlb.{Tongo, AccountId, VmStackValue}
use ton_validators_rewards_a.Model.{ValidatorReward}
use ton_validators_rewards_a.State.{State, LiteClient}
use ton_validators_rewards_a.State.Requests.{request-Keeps}
use ton_validators_rewards_a.Pool.{fetch_pool_data}
use ton_validators_rewards_a.Pool.Clean.{fetch_pool_data-Keeps}
use ton_validators_rewards_a.Chain.{first_amount, compute_returned_stake}
use ton_validators_rewards_a.Elections.{extract_big_int}
use ton_validators_rewards_a.Rewards.{
  ValidatorRow, RewardRow, more_reward_stake, resolve_pool_addresses, enrich, enrich_unless,
  validator_weight, validator_reward, validator_rewards_from, reward_rows,
  compute_validator_rewards,
}
use ton_validators_rewards_a.Rounds.Kept.{Keeps-attempt}
use ton_validators_rewards_a.Stable.{IsStable}

module _ {t : Tongo} {W : Type 0} {P : State t W → Type 0} (st : IsStable P) where
  pub fetch_pool_data-Stable :
      (client : LiteClient t W) (addr : AccountId) → Keeps P (fetch_pool_data t addr client)
  fetch_pool_data-Stable client addr = fetch_pool_data-Keeps t st.blind st.pool_stored addr client

  first_amount-Keeps :
      (name : Text) (stack : List (VmStackValue t.Cell t.Tuple)) → Keeps P (first_amount name stack)
  first_amount-Keeps name [] = record { keep = λ s h. h }
  first_amount-Keeps name (v ∷ vs) = record {
    keep = λ s h. elim (Option-cases (extract_big_int v)) [
      | inl e ↦ rw (first_amount, e) h
      | inr (n, e) ↦ rw (first_amount, e) h
    ];
  }

  compute_returned_stake-Keeps :
      (client : LiteClient t W) (addr : AccountId) → Keeps P (compute_returned_stake client addr)
  unfolding compute_returned_stake
  compute_returned_stake-Keeps client addr =
      Keeps-bind _ _ (Keeps-wrap _ _ (request-Keeps st.blind _))
        (first_amount-Keeps (codes "compute_returned_stake(" ++ (t.to_raw addr ++ codes ")")))

  enrich-Keeps :
      (client : LiteClient t W) (row : RewardRow) (addr : AccountId) (v : ValidatorReward t.Float)
      → Keeps P (enrich t client row addr v)
  unfolding enrich resolve_pool_addresses
  enrich-Keeps client row addr v =
      Keeps-bind (resolve_pool_addresses t client addr) _
        (Keeps-bind _ _ (fetch_pool_data-Stable client addr) λ reply. Keeps-lift _)
        λ info.
          Keeps-bind _ _ (Keeps-attempt _ (compute_returned_stake-Keeps client addr))
            λ credit. Keeps-lift _

  enrich_unless-Keeps :
      (shallow : Bool) (client : LiteClient t W) (row : RewardRow) (addr : Option AccountId)
      (v : ValidatorReward t.Float)
      → Keeps P (enrich_unless t shallow client row addr v)
  enrich_unless-Keeps true client row addr v = Keeps-lift _
  enrich_unless-Keeps false client row none v = Keeps-lift _
  enrich_unless-Keeps false client row (some addr) v = enrich-Keeps client row addr v

  validator_rewards_from-Keeps :
      (client : LiteClient t W) (total : ℤ) (shallow : Bool) (i : ℕ) (rows : List RewardRow)
      → Keeps P (validator_rewards_from t client total shallow i rows)
  unfolding validator_rewards_from validator_reward
  validator_rewards_from-Keeps client total shallow i [] = Keeps-lift _
  validator_rewards_from-Keeps client total shallow i (row ∷ rows) =
      Keeps-bind (validator_reward t client total shallow i row) _
        (Keeps-bind _ _ (Keeps-lift (validator_weight t row.0.true_stake total))
          λ weight. enrich_unless-Keeps shallow client row row.0.pool_addr _)
        λ v.
          Keeps-bind _ _ (validator_rewards_from-Keeps client total shallow (suc i) rows)
            λ vs. Keeps-lift _

  pub compute_validator_rewards-Keeps :
      (client : LiteClient t W) (rows : List ValidatorRow) (total pool : ℤ) (shallow : Bool)
      → Keeps P (compute_validator_rewards t client rows total pool shallow)
  unfolding compute_validator_rewards
  compute_validator_rewards-Keeps client rows total pool shallow =
      Keeps-bind _ _ (Keeps-lift (reward_rows total pool rows))
        λ rs. validator_rewards_from-Keeps client total shallow 0 (sort_slice more_reward_stake rs)
