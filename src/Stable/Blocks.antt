-- ===== src/Stable/Blocks.antt =====
-- The calls of service/blocks.go keep what is stable, if the look-ups of the loaders do.
use ton_validators_rewards_a.Base.{
  ℕ, ◌-◌, ◌++◌, Bool, true, false, ltb, leb, Option, none, some, List,
}
use ton_validators_rewards_a.Base.Int.{ℤ, pos}
use ton_validators_rewards_a.Base.Text.{codes, show_ℕ}
use ton_validators_rewards_a.Outcome.{
  Outcome, ok, err, panic, Keeps, Keeps-bind, Keeps-lift, Keeps-wrap, Keeps-if,
}
use ton_validators_rewards_a.Tlb.{Tongo, BlockIdExt, elector_addr}
use ton_validators_rewards_a.State.{State, LiteClient, with_block}
use ton_validators_rewards_a.State.Requests.{request-Keeps}
use ton_validators_rewards_a.Chain.{get_round_info}
use ton_validators_rewards_a.Elections.{RawPastElection}
use ton_validators_rewards_a.Elections.Cache.{fetch_raw_past_elections-Keeps}
use ton_validators_rewards_a.Rewards.{build_validator_rows}
use ton_validators_rewards_a.Rounds.Lookup.{Loaders}
use ton_validators_rewards_a.Rounds.Kept.{
  IsKept, Keeps-attempt, fetch_prev_election_id_for_block-Keeps,
}
use ton_validators_rewards_a.Rounds.Report.{RoundData}
use ton_validators_rewards_a.Blocks.{
  BonusDiff, bonus_diff, resolve_block, block_time, elector_balance, elections_at,
  previous_elections, has_passed, block_at, prev_election, block_output, report_block,
  fetch_per_block_rewards,
}
use ton_validators_rewards_a.Stable.{IsStable}
use ton_validators_rewards_a.Stable.Rewards.{compute_validator_rewards-Keeps}
use ton_validators_rewards_a.Stable.Rounds.{fetch_round_data-Keeps}

module _ {t : Tongo} {W : Type 0} {P : State t W → Type 0} (st : IsStable P)
    (l : Loaders t (State t W)) (k : IsKept P l) (client : LiteClient t W) where
  pub resolve_block-Keeps :
      (seqno unixtime : Option ℕ) → Keeps P (resolve_block l client seqno unixtime)
  unfolding resolve_block
  resolve_block-Keeps (some n) unixtime =
      Keeps-bind _ _ (Keeps-wrap _ _ (k.block n)) λ found. Keeps-lift _
  resolve_block-Keeps none (some u) =
      Keeps-bind _ _
        (Keeps-wrap
          (λ e. codes "lookupMasterchainBlockByUtime(" ++ (show_ℕ u ++ (codes "): " ++ e))) _
          (k.block_by_utime u))
        λ ext. Keeps-lift _
  resolve_block-Keeps none none =
      Keeps-bind _ _ (Keeps-wrap _ _ (request-Keeps st.blind _)) λ ext. Keeps-lift _

  pub block_time-Keeps :
      (ext : BlockIdExt) (time : Option ℕ) → Keeps P (block_time l client ext time)
  unfolding block_time
  block_time-Keeps ext (some time) = Keeps-lift _
  block_time-Keeps ext none =
      Keeps-bind _ _ (Keeps-attempt _ (k.block ext.seqno)) λ found. Keeps-lift _

  elector_balance-Keeps : (ext : BlockIdExt) → Keeps P (elector_balance l client ext)
  unfolding elector_balance
  elector_balance-Keeps ext =
      Keeps-bind _ _ (Keeps-attempt _ (request-Keeps st.blind _)) λ found. Keeps-lift _

  elections_at-Keeps : (prev : Outcome (BlockIdExt × ℕ)) → Keeps P (elections_at l client prev)
  elections_at-Keeps (ok prev) =
      Keeps-bind _ _
        (Keeps-attempt _
          (fetch_raw_past_elections-Keeps t st.blind (with_block prev.0 client) elector_addr))
        λ parsed. Keeps-lift _
  elections_at-Keeps (err e) = Keeps-lift _
  elections_at-Keeps panic = Keeps-lift _

  previous_elections-Keeps : (ext : BlockIdExt) → Keeps P (previous_elections l client ext)
  unfolding previous_elections
  previous_elections-Keeps ext =
      Keeps-if (leb ext.seqno 1) (Keeps-lift _)
        (Keeps-bind _ _ (Keeps-attempt _ (k.block (ext.seqno - 1))) elections_at-Keeps)

  block_at-Keeps : (known : Bool) (utime : ℕ) → Keeps P (block_at l client known utime)
  unfolding block_at
  block_at-Keeps true utime =
      Keeps-bind _ _ (Keeps-attempt _ (k.block_by_utime utime)) λ ext. Keeps-lift _
  block_at-Keeps false utime = Keeps-lift _

  prev_election-Keeps : (start_block : ℕ) → Keeps P (prev_election l client start_block)
  unfolding prev_election
  prev_election-Keeps start_block =
      Keeps-if (ltb 0 start_block)
        (Keeps-bind _ _
          (Keeps-wrap (λ e. codes "fetchPrevElectionIDForBlock: " ++ e) _
            (fetch_prev_election_id_for_block-Keeps P l k start_block))
          λ id. Keeps-lift _)
        (Keeps-lift _)

  block_output-Keeps :
      (later : ℕ) (shallow : Bool) (found : BlockIdExt × Option ℕ) (balance : ℕ) (rd : RoundData t)
      (diff : BonusDiff) (start_block end_block : ℕ) (prev_id : Option ℤ)
      → Keeps P
          (block_output l client later shallow found balance rd diff start_block end_block prev_id)
  unfolding block_output
  block_output-Keeps later shallow (ext, time) balance rd diff start_block end_block prev_id =
      let (rows, total) = build_validator_rows t rd.conf rd.pools in
      Keeps-bind _ _
        (compute_validator_rewards-Keeps st (with_block ext client) rows total diff.reward_per_block
          shallow)
        λ rewards. Keeps-lift _

  report_block-Keeps :
      (now later : ℕ) (shallow : Bool) (found : BlockIdExt × Option ℕ) (balance : ℕ)
      (rd : RoundData t) (before : List (RawPastElection t))
      → Keeps P (report_block l client now later shallow found balance rd before)
  unfolding report_block
  report_block-Keeps now later shallow found balance rd before =
      let (since, until) = get_round_info (some rd.conf) in
      Keeps-bind (block_at l client (ltb 0 since) since) _ (block_at-Keeps _ since) λ start_block.
        Keeps-bind (block_at l client (has_passed now until) until) _ (block_at-Keeps _ until)
          λ end_block. Keeps-bind _ _ (prev_election-Keeps start_block) λ prev_id.
            block_output-Keeps later shallow found balance rd
              (bonus_diff rd.elections before (pos since)) start_block end_block prev_id

  pub fetch_per_block_rewards-Keeps :
      (now later : ℕ) (seqno unixtime : Option ℕ) (shallow : Bool)
      → Keeps P (fetch_per_block_rewards l client now later seqno unixtime shallow)
  unfolding fetch_per_block_rewards
  fetch_per_block_rewards-Keeps now later seqno unixtime shallow =
      Keeps-bind _ _ (resolve_block-Keeps seqno unixtime) λ found.
        let pinned = with_block found.0 client in
        Keeps-bind _ _ (block_time-Keeps found.0 found.1) λ time.
          Keeps-bind _ _
            (Keeps-attempt _ (fetch_round_data-Keeps st l k pinned pinned found.0.seqno))
            λ fetched. Keeps-bind _ _ (elector_balance-Keeps found.0) λ balance.
              Keeps-bind _ _ (previous_elections-Keeps found.0) λ before.
                Keeps-bind _ _ (Keeps-lift fetched)
                  λ rd. report_block-Keeps now later shallow (found.0, time) balance rd before
