-- ===== src/Blocks.antt =====
-- service/blocks.go: FetchPerBlockRewards, the distribution of what the elector earned with one block.
-- The goroutines of its two errgroups are run one after the other; each writes one variable.
pub mod Bonuses
pub mod Shares
mod Tests
use ton_validators_rewards_a.Base.{
  ℕ, ◌*◌, ◌^◌, ◌-◌, Bool, true, false, ◌&&◌, ◌++◌, Option, none, some, List, [], ltb, leb,
  if◌then◌else◌,
}
use ton_validators_rewards_a.Base.Int.{ℤ, pos, ◌-ℤ◌}
use ton_validators_rewards_a.Base.Text.{codes, show_ℕ}
use ton_validators_rewards_a.Outcome.{
  Outcome, ok, err, panic, Action, pure, lift, wrap, attempt, ◌>>=◌,
}
use ton_validators_rewards_a.Tlb.{Tongo, BlockIdExt, Account, no_account, account, elector_addr}
use ton_validators_rewards_a.Model.{BlockInfo, RoundInfo, Output, ValidatorReward}
use ton_validators_rewards_a.State.{State, LiteClient, with_block, request}
use ton_validators_rewards_a.Chain.{get_round_info}
use ton_validators_rewards_a.Elections.{RawPastElection, fetch_raw_past_elections}
use ton_validators_rewards_a.Rewards.{build_validator_rows, compute_validator_rewards}
use ton_validators_rewards_a.Rounds.Lookup.{Loaders}
use ton_validators_rewards_a.Rounds.Anchor.{fetch_prev_election_id_for_block}
use ton_validators_rewards_a.Rounds.Report.{
  RoundData, list_or_empty, find_election, fetch_round_data,
}

-- The bonuses of an election at the block and at the block before, if both are known, and else zeros.
pub record BonusDiff : Type 0 where
  pub reward_per_block : ℤ
  pub prev_bonuses : ℤ
  pub curr_bonuses : ℤ

abbrev no_diff : BonusDiff
no_diff = record { reward_per_block = pos 0; prev_bonuses = pos 0; curr_bonuses = pos 0 }

abbrev pub diff_of : (cur prev : Option ℤ) → BonusDiff
diff_of (some c) (some p) = record { reward_per_block = c -ℤ p; prev_bonuses = p; curr_bonuses = c }
diff_of (some c) none = no_diff
diff_of none prev = no_diff

-- A time that has passed, `now` in nanoseconds.
abbrev pub has_passed : (now until : ℕ) → Bool
has_passed now until = ltb 0 until && ltb (until * 10 ^ 9) now

abbrev pub grams_of : {Cell : Type 0} → Outcome (Account Cell) → ℕ
grams_of (ok (account grams status)) = grams
grams_of (ok no_account) = 0
grams_of (err e) = 0
grams_of panic = 0

abbrev pub seqno_of : Outcome BlockIdExt → ℕ
seqno_of (ok ext) = ext.seqno
seqno_of (err e) = 0
seqno_of panic = 0

module _ {t : Tongo} where
  abbrev bonuses_of : Option (RawPastElection t) → Option ℤ
  bonuses_of none = none
  bonuses_of (some e) = e.bonuses

  unfoldable pub bonus_diff :
      (elections before : List (RawPastElection t)) → (election_id : ℤ) → BonusDiff
  unfolding find_election
  bonus_diff elections before id =
      diff_of (bonuses_of (find_election elections id)) (bonuses_of (find_election before id))

  module _ {W : Type 0} (l : Loaders t (State t W)) (client : LiteClient t W) where
    -- The block, and its time, which only the look-up by seqno gives.
    unfoldable pub resolve_block :
        (seqno unixtime : Option ℕ) → Action (State t W) (BlockIdExt × Option ℕ)
    resolve_block (some n) unixtime = do
      found ← wrap (λ e. codes "lookupMasterchainBlock: " ++ e) (l.lookup_masterchain_block n)
      pure (found.0, some found.1)
    resolve_block none (some u) = do
      ext ←
          wrap (λ e. codes "lookupMasterchainBlockByUtime(" ++ (show_ℕ u ++ (codes "): " ++ e)))
            (l.lookup_masterchain_block_by_utime u)
      pure (ext, none)
    resolve_block none none = do
      ext ←
          wrap (λ e. codes "GetMasterchainInfo: " ++ e)
            (request (client.masterchain_info client.target))
      pure (ext, none)

    abbrev pub time_of : Outcome (BlockIdExt × ℕ) → Option ℕ
    time_of (ok found) = some found.1
    time_of (err e) = none
    time_of panic = none

    unfoldable pub block_time : BlockIdExt → Option ℕ → Action (State t W) (Option ℕ)
    block_time ext (some time) = pure (some time)
    block_time ext none = do
      found ← attempt (l.lookup_masterchain_block ext.seqno)
      pure (time_of found)

    unfoldable pub elector_balance : BlockIdExt → Action (State t W) ℕ
    elector_balance ext = do
      let pinned = with_block ext client
      found ← attempt (request (pinned.account_state pinned.target elector_addr))
      pure (grams_of found)

    abbrev pub elections_at :
        Outcome (BlockIdExt × ℕ) → Action (State t W) (List (RawPastElection t))
    elections_at (ok prev) = do
      parsed ← attempt (fetch_raw_past_elections t (with_block prev.0 client) elector_addr)
      pure (list_or_empty parsed)
    elections_at (err e) = pure []
    elections_at panic = lift panic

    -- The elections at the block before; none of the first two blocks.
    unfoldable pub previous_elections : BlockIdExt → Action (State t W) (List (RawPastElection t))
    previous_elections ext =
        if leb ext.seqno 1
        then pure []
        else (do prev ← attempt (l.lookup_masterchain_block (ext.seqno - 1)); elections_at prev)

    unfoldable pub block_at : Bool → (utime : ℕ) → Action (State t W) ℕ
    block_at true utime = do
      ext ← attempt (l.lookup_masterchain_block_by_utime utime)
      pure (seqno_of ext)
    block_at false utime = pure 0

    unfoldable pub prev_election : (start_block : ℕ) → Action (State t W) (Option ℤ)
    prev_election start_block =
        if ltb 0 start_block
        then (do
          id ←
              wrap (λ e. codes "fetchPrevElectionIDForBlock: " ++ e)
                (fetch_prev_election_id_for_block l start_block)
          pure (some id))
        else pure none

    -- The output with the validators' rewards, from the blocks of the round and the election before on.
    unfoldable pub block_output :
        (later : ℕ)
        → (shallow : Bool) → BlockIdExt × Option ℕ
        → (balance : ℕ) → RoundData t
        → BonusDiff
        → (start_block end_block : ℕ) → (prev_id : Option ℤ) → Action (State t W) (Output t.Float)
    block_output later shallow (ext, time) balance rd diff start_block end_block prev_id = do
      let (since, until) = get_round_info (some rd.conf)
      let (rows, total) = build_validator_rows t rd.conf rd.pools
      rewards ←
          compute_validator_rewards t (with_block ext client) rows total diff.reward_per_block
            shallow
      pure (record {
        response_time_ms = 0;
        block = record { seqno = ext.seqno; time = time };
        validation_round = record {
          start = since;
          end = until;
          start_block = start_block;
          end_block = end_block;
        };
        election_id = pos since;
        prev_election_id = prev_id;
        next_election_id = if has_passed later until then some (pos until) else none;
        elector_balance = some (some (pos balance));
        total_stake = some (some total);
        reward_per_block = some (some diff.reward_per_block);
        prev_block_total_bonuses = some (some diff.prev_bonuses);
        curr_block_total_bonuses = some (some diff.curr_bonuses);
        validators = rewards;
      })

    -- From the fetched data on. The clock is read twice.
    unfoldable pub report_block :
        (now later : ℕ)
        → (shallow : Bool) → BlockIdExt × Option ℕ
        → (balance : ℕ) → RoundData t
        → (before : List (RawPastElection t)) → Action (State t W) (Output t.Float)
    unfolding block_output
    report_block now later shallow found balance rd before = do
      let (since, until) = get_round_info (some rd.conf)
      start_block ← block_at (ltb 0 since) since
      end_block ← block_at (has_passed now until) until
      prev_id ← prev_election start_block
      block_output later shallow found balance rd (bonus_diff rd.elections before (pos since))
          start_block end_block prev_id

    -- All fetches run to their end; only an error of the round's data is returned.
    unfoldable pub fetch_per_block_rewards :
        (now later : ℕ)
        → (seqno unixtime : Option ℕ) → (shallow : Bool) → Action (State t W) (Output t.Float)
    unfolding resolve_block block_time elector_balance previous_elections report_block
    fetch_per_block_rewards now later seqno unixtime shallow = do
      found ← resolve_block seqno unixtime
      let pinned = with_block found.0 client
      time ← block_time found.0 found.1
      fetched ← attempt (fetch_round_data l pinned pinned found.0.seqno)
      balance ← elector_balance found.0
      before ← previous_elections found.0
      rd ← lift fetched
      report_block now later shallow (found.0, time) balance rd before
