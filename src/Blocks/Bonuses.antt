-- ===== src/Blocks/Bonuses.antt =====
-- FetchPerBlockRewards: the reward of a block is what the bonuses grew by.
use ton_validators_rewards_a.Base.{ℕ, ◌≡◌, refl, ap, Bool, ltb, Option, none, some, List}
use ton_validators_rewards_a.Base.Int.{ℤ, pos, ◌-ℤ◌}
use ton_validators_rewards_a.Outcome.{ok, attempt, Ensures, continue-Ensures_any, Ensures-ok}
use ton_validators_rewards_a.Tlb.{Tongo, BlockIdExt}
use ton_validators_rewards_a.Model.{Output}
use ton_validators_rewards_a.State.{State, LiteClient, with_block}
use ton_validators_rewards_a.Chain.{get_round_info}
use ton_validators_rewards_a.Elections.{RawPastElection}
use ton_validators_rewards_a.Rewards.{build_validator_rows, compute_validator_rewards}
use ton_validators_rewards_a.Rounds.Lookup.{Loaders}
use ton_validators_rewards_a.Rounds.Report.{RoundData, find_election, fetch_round_data}
use ton_validators_rewards_a.Blocks.{
  BonusDiff, diff_of, bonuses_of, bonus_diff, has_passed, resolve_block, block_time,
  elector_balance, previous_elections, block_at, prev_election, block_output, report_block,
  fetch_per_block_rewards,
}

-- The output reports the bonuses at the block and before, and their difference as the reward.
abbrev pub IsDifference : {F : Type 0} → Output F → Type 0
IsDifference out =
    (curr : ℤ) × (prev : ℤ) × (out.curr_block_total_bonuses ≡ some (some curr))
    × (out.prev_block_total_bonuses ≡ some (some prev))
    × (out.reward_per_block ≡ some (some (curr -ℤ prev)))

-- The same of a difference before it is reported.
abbrev Differs : BonusDiff → Type 0
Differs d = d.reward_per_block ≡ d.curr_bonuses -ℤ d.prev_bonuses

diff_of-Differs : (cur prev : Option ℤ) → Differs (diff_of cur prev)
unfolding ◌-ℤ◌
diff_of-Differs (some c) (some p) = refl
diff_of-Differs (some c) none = refl
diff_of-Differs none p = refl

module _ {t : Tongo} {W : Type 0} (l : Loaders t (State t W)) (client : LiteClient t W)
    (now later : ℕ) (shallow : Bool) where
  block_output-IsDifference :
      (found : BlockIdExt × Option ℕ) (balance : ℕ) (rd : RoundData t) (d : BonusDiff)
      (first last : ℕ) (id : Option ℤ) (s : State t W)
      → Differs d
      → Ensures IsDifference
          (block_output l client later shallow found balance rd d first last id s)
  unfolding block_output
  block_output-IsDifference found balance rd d first last id s h =
      let rows = build_validator_rows t rd.conf rd.pools in
      continue-Ensures_any IsDifference
        (compute_validator_rewards t (with_block found.0 client) rows.0 rows.1 d.reward_per_block
          shallow s)
        _ (λ rewards s'. (d.curr_bonuses, d.prev_bonuses, refl, refl, ap (λ n. some (some n)) h))

  report_block-IsDifference :
      (found : BlockIdExt × Option ℕ) (balance : ℕ) (rd : RoundData t)
      (before : List (RawPastElection t)) (s : State t W)
      → Ensures IsDifference (report_block l client now later shallow found balance rd before s)
  unfolding report_block bonus_diff
  report_block-IsDifference found balance rd before s =
      let (since, until) = get_round_info (some rd.conf) in
      let diff = bonus_diff rd.elections before (pos since) in
      continue-Ensures_any IsDifference (block_at l client (ltb 0 since) since s) _ λ first s1.
        continue-Ensures_any IsDifference (block_at l client (has_passed now until) until s1) _
          λ last s2. continue-Ensures_any IsDifference (prev_election l client first s2) _ λ id s3.
            block_output-IsDifference found balance rd diff first last id s3 (
              diff_of-Differs (bonuses_of (find_election rd.elections (pos since)))
                (bonuses_of (find_election before (pos since))))

  -- In an output that FetchPerBlockRewards returns, the reward of the block is the difference of
  -- the two totals of the bonuses that it reports.
  pub fetch_per_block_rewards-IsDifference :
      (seqno unixtime : Option ℕ) (s : State t W) {out : Output t.Float}
      → (fetch_per_block_rewards l client now later seqno unixtime shallow s).0 ≡ ok out
      → IsDifference out
  unfolding fetch_per_block_rewards
  fetch_per_block_rewards-IsDifference seqno unixtime s =
      Ensures-ok IsDifference (fetch_per_block_rewards l client now later seqno unixtime shallow s)
        (continue-Ensures_any IsDifference (resolve_block l client seqno unixtime s) _ λ found s1.
          let pinned = with_block found.0 client in
          continue-Ensures_any IsDifference (block_time l client found.0 found.1 s1) _ λ time s2.
            continue-Ensures_any IsDifference
              (attempt (fetch_round_data l pinned pinned found.0.seqno) s2) _
              λ fetched s3.
                continue-Ensures_any IsDifference (elector_balance l client found.0 s3) _
                  λ balance s4.
                    continue-Ensures_any IsDifference (previous_elections l client found.0 s4) _
                      λ before s5.
                        continue-Ensures_any IsDifference (fetched, s5) _
                          λ rd s6. report_block-IsDifference (found.0, time) balance rd before s6)
