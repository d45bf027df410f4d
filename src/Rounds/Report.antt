-- ===== src/Rounds/Report.antt =====
-- FetchRoundRewards of service/rounds.go, with fetchRoundData and findElection of service/shared.go: the
-- distribution of the bonuses of a finished round. The goroutines of the errgroup are run one after the
-- other; each writes one field.
use ton_validators_rewards_a.Base.{
  ℕ, ◌*◌, ◌^◌, ltb, Bool, ◌++◌, Option, none, some, List, [], ◌∷◌, ◌==◌, if◌then◌else◌,
}
use ton_validators_rewards_a.Base.Int.{ℤ, pos, eq_ℤ}
use ton_validators_rewards_a.Base.Text.{Text, codes, show_ℕ, show_ℤ}
use ton_validators_rewards_a.Outcome.{
  Outcome, ok, err, panic, Action, pure, fail, lift, wrap, attempt, ◌>>=◌,
}
use ton_validators_rewards_a.Tlb.{Tongo, BlockchainConfig, elector_addr}
use ton_validators_rewards_a.Model.{RoundsQuery, RoundRewardsOutput}
use ton_validators_rewards_a.State.{State, LiteClient, with_block}
use ton_validators_rewards_a.Elections.{
  RawPastElection, fetch_raw_past_elections, get_all_pool_addresses,
}
use ton_validators_rewards_a.Rewards.{
  Pools, ValidatorRow, build_validator_rows, compute_validator_rewards,
}
use ton_validators_rewards_a.Rounds.Lookup.{Loaders, get_config_param34}
use ton_validators_rewards_a.Rounds.Boundary.{ElectionBoundary, find_election_boundary}
use ton_validators_rewards_a.Rounds.Anchor.{get_anchor_ext}

-- time.Now() in nanoseconds, and the format time.RFC3339 of a time in seconds.
pub record Clock : Type 0 where
  pub now : ℕ
  pub rfc3339 : ℕ → Text

pub record RoundData (t : Tongo) : Type 0 where
  pub conf : BlockchainConfig
  pub pools : Pools
  pub elections : List (RawPastElection t)

-- What the code goes on with after a warning: nothing.
abbrev pub list_or_empty : {A : Type 0} → Outcome (List A) → List A
list_or_empty (ok xs) = xs
list_or_empty (err e) = []
list_or_empty panic = []

module _ {t : Tongo} where
  unfoldable pub find_election : List (RawPastElection t) → ℤ → Option (RawPastElection t)
  find_election [] id = none
  find_election (e ∷ es) id = if eq_ℤ e.elect_at id then some e else find_election es id

  module _ {W : Type 0} (l : Loaders t (State t W)) where
    abbrev pub round_config : LiteClient t W → ℕ → Action (State t W) BlockchainConfig
    round_config client seqno = do
      params ←
          wrap (λ e. codes "GetConfigParams: " ++ e)
            (l.cached_get_config_params client.target seqno)
      wrap (λ e. codes "ConvertBlockchainConfig: " ++ e) (lift (t.convert_blockchain_config params))

    -- Only an error of the config is returned, after the other two have ended.
    unfoldable pub fetch_round_data :
        (round_pinned elections_pinned : LiteClient t W)
        → (round_seqno : ℕ) → Action (State t W) (RoundData t)
    fetch_round_data round_pinned elections_pinned round_seqno = do
      conf ← attempt (round_config round_pinned round_seqno)
      pools ← attempt (get_all_pool_addresses t round_pinned elector_addr)
      elections ← attempt (fetch_raw_past_elections t elections_pinned elector_addr)
      c ← lift conf
      pure (record { conf = c; pools = list_or_empty pools; elections = list_or_empty elections })

    module _ (clock : Clock) (client : LiteClient t W) (shallow : Bool) (round : ℕ × ℕ) where
      module _ (start end : ElectionBoundary) where
        -- With the election that paid the bonuses.
        abbrev pub distribute :
            List ValidatorRow
            → ℤ
            → (bonuses : ℤ) → Option ℤ
            → Action (State t W) (RoundRewardsOutput t.Float)
        distribute rows total bonuses election_total = do
          rewards ←
              compute_validator_rewards t (with_block end.after_block client) rows total bonuses
                shallow
          pure (record {
            response_time_ms = 0;
            election_id = start.after_election_id;
            prev_election_id = some start.before_election_id;
            next_election_id = some end.after_election_id;
            round_start = round.0;
            round_end = round.1;
            start_block = start.after_block.seqno;
            end_block = end.before_block.seqno;
            total_bonuses = some (some bonuses);
            total_stake = some election_total;
            validators = rewards;
            error = [];
          })

        abbrev pub no_bonuses : Action (State t W) (RoundRewardsOutput t.Float)
        no_bonuses = fail (
            codes "election "
            ++ (show_ℤ start.after_election_id
                ++ codes " not found in past_elections or bonuses not available"))

        abbrev pub with_bonuses :
            List ValidatorRow
            → ℤ
            → Option ℤ
            → Option ℤ
            → Action (State t W) (RoundRewardsOutput t.Float)
        with_bonuses rows total (some bonuses) election_total =
            distribute rows total bonuses election_total
        with_bonuses rows total none election_total = no_bonuses

        abbrev pub with_election :
            List ValidatorRow
            → ℤ
            → Option (RawPastElection t)
            → Action (State t W) (RoundRewardsOutput t.Float)
        with_election rows total (some el) = with_bonuses rows total el.bonuses el.total_stake
        with_election rows total none = no_bonuses

        abbrev pub report_rows :
            RoundData t → List ValidatorRow × ℤ → Action (State t W) (RoundRewardsOutput t.Float)
        report_rows rd ([], total) = fail (
            codes "no validators found in config param 34 at block "
            ++ show_ℕ end.before_block.seqno)
        report_rows rd (row ∷ rows, total) =
            if eq_ℤ total (pos 0)
            then fail (codes "total true stake is zero — no pool data available")
            else with_election (row ∷ rows) total
                (find_election rd.elections start.after_election_id)

        -- From the boundaries on: the config and the stakes are read at the last block of the round, the
        -- bonuses at the first block after it.
        unfoldable pub report_round : Action (State t W) (RoundRewardsOutput t.Float)
        unfolding fetch_round_data find_election
        report_round = do
          rd ←
              fetch_round_data (with_block end.before_block client)
                (with_block end.after_block client) end.before_block.seqno
          report_rows rd (build_validator_rows t rd.conf rd.pools)

      abbrev pub not_finished : Text
      not_finished =
          codes "round "
          ++ (show_ℕ round.0
              ++ (codes " is not finished yet (ends " ++ (clock.rfc3339 round.1 ++ codes ")")))

      unfoldable pub finished_round : Action (State t W) (RoundRewardsOutput t.Float)
      unfolding report_round
      finished_round = if ltb clock.now (round.1 * 10 ^ 9) then fail not_finished else (do
        start ←
            wrap (λ e. codes "findElectionBoundary(since): " ++ e)
              (find_election_boundary l round.0)
        end ←
            wrap (λ e. codes "findElectionBoundary(until): " ++ e)
              (find_election_boundary l round.1)
        report_round start end)

    unfoldable pub fetch_round_rewards :
        Clock
        → LiteClient t W
        → RoundsQuery
        → (shallow : Bool) → Action (State t W) (RoundRewardsOutput t.Float)
    unfolding finished_round
    fetch_round_rewards clock client q shallow = do
      anchor ← wrap (λ e. codes "getAnchorExt error or nil: " ++ e) (get_anchor_ext l q)
      round ← wrap (λ e. codes "getConfigParam34: " ++ e) (get_config_param34 l anchor)
      if round.0 == 0
          then fail (codes "config param 34 is empty at block " ++ show_ℕ anchor.seqno)
          else finished_round clock client shallow round
