-- ===== src/Rewards/Reports.antt =====
-- What the results of computeValidatorRewards report of the rows.
use ton_validators_rewards_a.Base.{
  All, ℕ, suc, ◌≡◌, refl, Bool, true, false, Option, none, some, List, [], ◌∷◌, map, ⊤,
}
use ton_validators_rewards_a.Base.Int.{ℤ, pos, ◌+ℤ◌}
use ton_validators_rewards_a.Outcome.{
  Outcome, ok, err, panic, attempt, and_then, Ensures, continue-Ensures, continue-Ensures_any,
}
use ton_validators_rewards_a.Tlb.{Tongo, AccountId}
use ton_validators_rewards_a.Model.{ValidatorReward, NTon}
use ton_validators_rewards_a.State.{State, LiteClient}
use ton_validators_rewards_a.Pool.{PoolData, NominatorData}
use ton_validators_rewards_a.Chain.{compute_returned_stake}
use ton_validators_rewards_a.Rewards.{
  RewardRow, validator_weight, pool_part, nominators_part, enrich, enrich_unless, validator_reward,
  validator_rewards_from, split_reward, with_pool, resolve_pool_addresses, credit_or_zero,
  is_nominator_v10,
}

-- What the reward of a validator reports of its row.
abbrev pub Reports : {F : Type 0} → ℕ → RewardRow → ValidatorReward F → Type 0
Reports i (row, reward) v =
    (v.rank ≡ suc i)
    × (v.pubkey ≡ row.descr.pub_key)
    × (v.effective_stake ≡ some (some row.true_stake))
    × (v.reward ≡ some (some reward))

abbrev pub ReportsFrom : {F : Type 0} → ℕ → List RewardRow → List (ValidatorReward F) → Type 0
ReportsFrom i [] [] = ⊤
ReportsFrom i (row ∷ rows) (v ∷ vs) = Reports i row v × ReportsFrom (suc i) rows vs
ReportsFrom i [] (v ∷ vs) = ⊥
ReportsFrom i (row ∷ rows) [] = ⊥

module _ (t : Tongo) {W : Type 0} (client : LiteClient t W) where
  lift-Ensures :
      {A B : Type 0} (Q : B → Type 0) (r : Outcome A) (f : A → Outcome B) (s : State t W)
      → ((a : A) → Ensures Q (f a, s))
      → Ensures Q (and_then r f, s)
  lift-Ensures Q (ok a) f s h = h a
  lift-Ensures Q (err e) f s h = tt
  lift-Ensures Q panic f s h = tt

  pool_part-Reports :
      (i : ℕ) (row : RewardRow) (stake : ℤ) (known : Bool) (pd : Option (PoolData t))
      (v : ValidatorReward t.Float) (s : State t W)
      → Reports i row v
      → Ensures (Reports i row) (pool_part t row stake known pd v, s)
  pool_part-Reports i row stake true (some pd) v s h = by_nominators pd.nominators
    where
      by_nominators :
          (ns : Option (List NominatorData))
          → Ensures (Reports i row) (nominators_part t row stake pd ns v, s)
      by_nominators none = h
      by_nominators (some ns) =
          lift-Ensures (Reports i row) (split_reward t row.1 row.0.true_stake stake pd ns) _ s
            (λ rs. h)
  pool_part-Reports i row stake true none v s h = h
  pool_part-Reports i row stake false pd v s h = h

  enrich-Reports :
      (shallow : Bool) (i : ℕ) (row : RewardRow) (addr : Option AccountId)
      (v : ValidatorReward t.Float) (s : State t W)
      → Reports i row v
      → Ensures (Reports i row) (enrich_unless t shallow client row addr v s)
  unfolding enrich
  enrich-Reports true i row addr v s h = h
  enrich-Reports false i row none v s h = h
  enrich-Reports false i row (some addr) v s h =
      continue-Ensures_any (Reports i row) (resolve_pool_addresses t client addr s) _ λ info s'.
        continue-Ensures_any (Reports i row) (attempt (compute_returned_stake client addr) s') _
          λ credit s''.
            let stake = row.0.true_stake +ℤ credit_or_zero t credit in
            pool_part-Reports i row stake (is_nominator_v10 info.pool_type) info.pd
              (with_pool t info stake v) s'' h

  validator_reward-Reports :
      (total : ℤ) (shallow : Bool) (i : ℕ) (row : RewardRow) (s : State t W)
      → Ensures (Reports i row) (validator_reward t client total shallow i row s)
  unfolding validator_reward
  validator_reward-Reports total shallow i row s =
      continue-Ensures_any (Reports i row) (validator_weight t row.0.true_stake total, s) _
        λ weight s'. enrich-Reports shallow i row row.0.pool_addr _ s' (refl, refl, refl, refl)

  pub validator_rewards_from-Reports :
      (total : ℤ) (shallow : Bool) (i : ℕ) (rows : List RewardRow) (s : State t W)
      → Ensures (ReportsFrom i rows) (validator_rewards_from t client total shallow i rows s)
  unfolding validator_rewards_from
  validator_rewards_from-Reports total shallow i [] s = tt
  validator_rewards_from-Reports total shallow i (row ∷ rows) s =
      continue-Ensures (Reports i row) (ReportsFrom i (row ∷ rows))
        (validator_reward t client total shallow i row s) _
        (validator_reward-Reports total shallow i row s)
        λ v s' h.
          continue-Ensures (ReportsFrom (suc i) rows) (ReportsFrom i (row ∷ rows))
            (validator_rewards_from t client total shallow (suc i) rows s') _
            (validator_rewards_from-Reports total shallow (suc i) rows s') λ vs s'' hs. (h, hs)

-- The amount of a reward; a missing one counts as nothing.
abbrev pub amount : Option NTon → ℤ
amount (some (some n)) = n
amount (some none) = pos 0
amount none = pos 0

abbrev pub rewards_of : {F : Type 0} → List (ValidatorReward F) → List ℤ
rewards_of = map (λ v. amount v.reward)

pub ReportsFrom-rewards :
    {F : Type 0} (i : ℕ) (rows : List RewardRow) (vs : List (ValidatorReward F))
    → ReportsFrom i rows vs
    → rewards_of vs ≡ map (λ row. row.1) rows
ReportsFrom-rewards i [] [] h = refl
ReportsFrom-rewards i (row ∷ rows) (v ∷ vs) h = rw (h.0.3, ReportsFrom-rewards (suc i) rows vs h.1)
ReportsFrom-rewards i [] (v ∷ vs) h = absurd h
ReportsFrom-rewards i (row ∷ rows) [] h = absurd h

-- A reward that is there.
abbrev pub IsKnown : {F : Type 0} → ValidatorReward F → Type 0
IsKnown v = (n : ℤ) × (v.reward ≡ some (some n))

pub ReportsFrom-IsKnown :
    {F : Type 0} (i : ℕ) (rows : List RewardRow) (vs : List (ValidatorReward F))
    → ReportsFrom i rows vs
    → All IsKnown vs
ReportsFrom-IsKnown i [] [] h = tt
ReportsFrom-IsKnown i (row ∷ rows) (v ∷ vs) h =
    ((row.1, h.0.3), ReportsFrom-IsKnown (suc i) rows vs h.1)
ReportsFrom-IsKnown i [] (v ∷ vs) h = absurd h
ReportsFrom-IsKnown i (row ∷ rows) [] h = absurd h
