-- ===== src/Blocks/Shares.antt =====
-- FetchPerBlockRewards: the reward of a block is shared out among the validators.
use ton_validators_rewards_a.Base.{ℕ, ⊤, ◌≡◌, refl, sym, ◌∙◌, Bool, ltb, Option, some, List}
use ton_validators_rewards_a.Base.Int.{ℤ, pos}
use ton_validators_rewards_a.Outcome.{
  Outcome, ok, attempt, Ensures, Action, continue, err, panic, continue-Ensures,
  continue-Ensures_any, continue-Ensures_state, Ensures-ok,
}
use ton_validators_rewards_a.Tlb.{Tongo, BlockIdExt}
use ton_validators_rewards_a.Model.{Output}
use ton_validators_rewards_a.State.{State, LiteClient, with_block}
use ton_validators_rewards_a.Chain.{get_round_info}
use ton_validators_rewards_a.Elections.{RawPastElection}
use ton_validators_rewards_a.Elections.Valid.{Valid}
use ton_validators_rewards_a.Rewards.{build_validator_rows, compute_validator_rewards}
use ton_validators_rewards_a.Rewards.Stakes.{build_validator_rows_lem}
use ton_validators_rewards_a.Rewards.Whole.{
  PaysOut, compute_validator_rewards-PaysOut, build_validator_rows-IsNat,
}
use ton_validators_rewards_a.Rounds.Lookup.{Loaders}
use ton_validators_rewards_a.Rounds.Kept.{IsKept}
use ton_validators_rewards_a.Rounds.Paid.{HasValid}
use ton_validators_rewards_a.Rounds.Fetched.{fetch_round_data-Valid}
use ton_validators_rewards_a.Rounds.Report.{RoundData, fetch_round_data}
use ton_validators_rewards_a.Blocks.{
  BonusDiff, bonus_diff, has_passed, resolve_block, block_time, elector_balance, previous_elections,
  block_at, prev_election, block_output, report_block, fetch_per_block_rewards,
}
use ton_validators_rewards_a.Stable.{HasValid-IsStable}
use ton_validators_rewards_a.Stable.Blocks.{resolve_block-Keeps, block_time-Keeps}

-- The rewards of the output share out the reported reward of the block.
abbrev pub SharesBlock : (t : Tongo) → Output t.Float → Type 0
SharesBlock t out =
    (total : ℕ) × (reward : ℤ) × (out.total_stake ≡ some (some (pos total)))
    × (out.reward_per_block ≡ some (some reward))
    × PaysOut t total reward out.validators

-- The fetched data, if there are some, have pools as the parser makes them.
abbrev Fetched : {t : Tongo} → Outcome (RoundData t) → Type 0
Fetched (ok rd) = Valid rd.pools
Fetched (err e) = ⊤
Fetched panic = ⊤

module _ {t : Tongo} {W : Type 0} where
  attempt-Fetched :
      (x : Outcome (RoundData t) × State t W)
      → Ensures (λ rd. Valid rd.pools) x
      → Ensures Fetched (attempt (λ (_ : State t W). x) x.1)
  attempt-Fetched (ok rd, s) h = h
  attempt-Fetched (err e, s) h = tt
  attempt-Fetched (panic, s) h = tt

  lift-Fetched :
      {A : Type 0} (Q : A → Type 0) (r : Outcome (RoundData t)) (s : State t W)
      (f : RoundData t → Action (State t W) A)
      → Fetched r
      → ((rd : RoundData t) (s' : State t W) → Valid rd.pools → Ensures Q (f rd s'))
      → Ensures Q (continue (r, s) f)
  lift-Fetched Q (ok rd) s f h next = next rd s h
  lift-Fetched Q (err e) s f h next = tt
  lift-Fetched Q panic s f h next = tt

module _ {t : Tongo} {W : Type 0} (l : Loaders t (State t W)) (client : LiteClient t W)
    (now later : ℕ) (shallow : Bool) where
  block_output-SharesBlock :
      (found : BlockIdExt × Option ℕ) (balance : ℕ) (rd : RoundData t) (d : BonusDiff)
      (first last : ℕ) (id : Option ℤ) (s : State t W)
      → Valid rd.pools
      → Ensures
          (SharesBlock t)
          (block_output l client later shallow found balance rd d first last id s)
  unfolding block_output
  block_output-SharesBlock found balance rd d first last id s valid =
      let pinned = with_block found.0 client in
      let rows = (build_validator_rows t rd.conf rd.pools).0 in
      let sum = (build_validator_rows_lem t rd.conf rd.pools).2 in
      let (total, is_total) = build_validator_rows-IsNat t rd.conf rd.pools valid in
      rw (is_total) (
        continue-Ensures (PaysOut t total d.reward_per_block) (SharesBlock t)
          (compute_validator_rewards t pinned rows (pos total) d.reward_per_block shallow s) _
          (compute_validator_rewards-PaysOut t pinned d.reward_per_block rows total shallow s
            (sym sum ∙ is_total))
          (λ rewards s' h. (total, d.reward_per_block, refl, refl, h)))

  report_block-SharesBlock :
      (found : BlockIdExt × Option ℕ) (balance : ℕ) (rd : RoundData t)
      (before : List (RawPastElection t)) (s : State t W)
      → Valid rd.pools
      → Ensures (SharesBlock t) (report_block l client now later shallow found balance rd before s)
  unfolding report_block
  report_block-SharesBlock found balance rd before s valid =
      let (since, until) = get_round_info (some rd.conf) in
      let diff = bonus_diff rd.elections before (pos since) in
      continue-Ensures_any (SharesBlock t) (block_at l client (ltb 0 since) since s) _ λ first s1.
        continue-Ensures_any (SharesBlock t) (block_at l client (has_passed now until) until s1) _
          λ last s2.
            continue-Ensures_any (SharesBlock t) (prev_election l client first s2) _
              λ id s3. block_output-SharesBlock found balance rd diff first last id s3 valid

  module _ (k : IsKept HasValid l) where
    -- An output that FetchPerBlockRewards returns shares out the reported reward of the block: no
    -- validator's reward is missing; without stakes the rewards add up to 0, and else they add up
    -- to no more than the reward, and what is left is less than one unit for each validator; if the
    -- stakes in the cache of the elections are not negative, as the parser makes them, and the
    -- look-ups of blocks and configs keep this. The total of the stakes is not negative.
    pub fetch_per_block_rewards-SharesBlock :
        (seqno unixtime : Option ℕ) (s : State t W) {out : Output t.Float}
        → HasValid s
        → (fetch_per_block_rewards l client now later seqno unixtime shallow s).0 ≡ ok out
        → SharesBlock t out
    unfolding fetch_per_block_rewards
    fetch_per_block_rewards-SharesBlock seqno unixtime s h =
        Ensures-ok (SharesBlock t)
          (fetch_per_block_rewards l client now later seqno unixtime shallow s)
          (continue-Ensures_state HasValid (SharesBlock t) (resolve_block l client seqno unixtime s)
            _ ((resolve_block-Keeps HasValid-IsStable l k client seqno unixtime).keep s h)
            λ found s1 h1.
              let pinned = with_block found.0 client in
              continue-Ensures_state HasValid (SharesBlock t)
                (block_time l client found.0 found.1 s1) _
                ((block_time-Keeps HasValid-IsStable l k client found.0 found.1).keep s1 h1)
                λ time s2 h2.
                  continue-Ensures Fetched (SharesBlock t)
                    (attempt (fetch_round_data l pinned pinned found.0.seqno) s2) _
                    (attempt-Fetched _ (
                      fetch_round_data-Valid l (λ ext n s' h'. (k.config ext n).keep s' h') pinned
                        pinned found.0.seqno s2 h2))
                    λ fetched s3 valid.
                      continue-Ensures_any (SharesBlock t) (elector_balance l client found.0 s3) _
                        λ balance s4.
                          continue-Ensures_any (SharesBlock t)
                            (previous_elections l client found.0 s4) _
                            λ before s5.
                              lift-Fetched (SharesBlock t) fetched s5 _ valid λ rd s6 pools.
                                report_block-SharesBlock (found.0, time) balance rd before s6 pools)
