-- ===== src/Stable/Rounds.antt =====
-- The calls of service/rounds.go keep what is stable, if the look-ups of the loaders do.
use ton_validators_rewards_a.Base.{
  ℕ, ◌*◌, ◌^◌, ◌++◌, ◌&&◌, Bool, true, false, ltb, ◌==◌, Option, none, some, List, [], ◌∷◌,
}
use ton_validators_rewards_a.Base.Int.{ℤ, pos, eq_ℤ}
use ton_validators_rewards_a.Base.Text.{codes}
use ton_validators_rewards_a.Outcome.{
  Outcome, ok, err, panic, lift, Keeps, Keeps-bind, Keeps-lift, Keeps-wrap, Keeps-if,
}
use ton_validators_rewards_a.Tlb.{Tongo, BlockIdExt, elector_addr}
use ton_validators_rewards_a.Model.{RoundsQuery}
use ton_validators_rewards_a.State.{State, LiteClient, with_block}
use ton_validators_rewards_a.State.Requests.{request-Keeps}
use ton_validators_rewards_a.Elections.{RawPastElection}
use ton_validators_rewards_a.Elections.Cache.{fetch_raw_past_elections-Keeps}
use ton_validators_rewards_a.Elections.Valid.{get_all_pool_addresses-Keeps}
use ton_validators_rewards_a.Rewards.{ValidatorRow, build_validator_rows}
use ton_validators_rewards_a.Rounds.Lookup.{Loaders}
use ton_validators_rewards_a.Rounds.Boundary.{ElectionBoundary}
use ton_validators_rewards_a.Rounds.Kept.{
  IsKept, Keeps-attempt, get_config_param34-Keeps, find_election_boundary-Keeps,
  get_anchor_ext-Keeps,
}
use ton_validators_rewards_a.Rounds.Report.{
  Clock, RoundData, find_election, round_config, fetch_round_data, with_bonuses, with_election,
  report_rows, report_round, finished_round, fetch_round_rewards,
}
use ton_validators_rewards_a.Rounds.Info.{RoundInfo}
use ton_validators_rewards_a.Rounds.Rest.{rest_rounds}
use ton_validators_rewards_a.Rounds.Listing.{
  with_rest, populate_prev_next_election_ids, anchor_or_last, listing_anchor, round_or_zero,
  walk_ahead, finished_end, anchor_round, list_from, list_round, fetch_validation_rounds,
}
use ton_validators_rewards_a.Stable.{IsStable}
use ton_validators_rewards_a.Stable.Rewards.{compute_validator_rewards-Keeps}

module _ {t : Tongo} {W : Type 0} {P : State t W → Type 0} (st : IsStable P)
    (l : Loaders t (State t W)) (k : IsKept P l) where
  round_config-Keeps : (client : LiteClient t W) (seqno : ℕ) → Keeps P (round_config l client seqno)
  round_config-Keeps client seqno =
      Keeps-bind _ _ (Keeps-wrap _ _ (k.config client.target seqno)) λ params.
        Keeps-wrap (λ e. codes "ConvertBlockchainConfig: " ++ e)
          (lift (t.convert_blockchain_config params)) (Keeps-lift _)

  pub fetch_round_data-Keeps :
      (here after : LiteClient t W) (seqno : ℕ) → Keeps P (fetch_round_data l here after seqno)
  unfolding fetch_round_data
  fetch_round_data-Keeps here after seqno =
      Keeps-bind _ _ (Keeps-attempt _ (round_config-Keeps here seqno)) λ conf.
        Keeps-bind _ _
          (Keeps-attempt _
            (get_all_pool_addresses-Keeps t st.blind st.elections_stored here elector_addr))
          λ pools.
            Keeps-bind _ _
              (Keeps-attempt _ (fetch_raw_past_elections-Keeps t st.blind after elector_addr))
              λ elections. Keeps-bind _ _ (Keeps-lift conf) λ c. Keeps-lift _

  module _ (clock : Clock) (client : LiteClient t W) (shallow : Bool) where
    module _ (round : ℕ × ℕ) (start end : ElectionBoundary) where
      with_bonuses-Keeps :
          (rows : List ValidatorRow) (total : ℤ) (bonuses election_total : Option ℤ)
          → Keeps P (
              with_bonuses l clock client shallow round start end rows total bonuses election_total)
      with_bonuses-Keeps rows total none election_total = Keeps-lift _
      with_bonuses-Keeps rows total (some bonuses) election_total =
          Keeps-bind _ _
            (compute_validator_rewards-Keeps st (with_block end.after_block client) rows total
              bonuses shallow)
            λ rewards. Keeps-lift _

      with_election-Keeps :
          (rows : List ValidatorRow) (total : ℤ) (el : Option (RawPastElection t))
          → Keeps P (with_election l clock client shallow round start end rows total el)
      with_election-Keeps rows total none = Keeps-lift _
      with_election-Keeps rows total (some el) =
          with_bonuses-Keeps rows total el.bonuses el.total_stake

      report_rows-Keeps :
          (rd : RoundData t) (rows : List ValidatorRow × ℤ)
          → Keeps P (report_rows l clock client shallow round start end rd rows)
      report_rows-Keeps rd ([], total) = Keeps-lift _
      report_rows-Keeps rd (row ∷ rows, total) = Keeps-if (eq_ℤ total (pos 0)) (Keeps-lift _) (
          with_election-Keeps (row ∷ rows) total
            (find_election rd.elections start.after_election_id))

      report_round-Keeps : Keeps P (report_round l clock client shallow round start end)
      unfolding report_round
      report_round-Keeps =
          Keeps-bind _ _
            (fetch_round_data-Keeps (with_block end.before_block client)
              (with_block end.after_block client) end.before_block.seqno)
            λ rd. report_rows-Keeps rd (build_validator_rows t rd.conf rd.pools)

    finished_round-Keeps : (round : ℕ × ℕ) → Keeps P (finished_round l clock client shallow round)
    unfolding finished_round
    finished_round-Keeps round = Keeps-if (ltb clock.now (round.1 * 10 ^ 9)) (Keeps-lift _) (
        Keeps-bind _ _ (Keeps-wrap _ _ (find_election_boundary-Keeps P l k round.0)) λ start.
          Keeps-bind _ _ (Keeps-wrap _ _ (find_election_boundary-Keeps P l k round.1))
            λ end. report_round-Keeps round start end)

    pub fetch_round_rewards-Keeps :
        (q : RoundsQuery) → Keeps P (fetch_round_rewards l clock client q shallow)
    unfolding fetch_round_rewards
    fetch_round_rewards-Keeps q =
        Keeps-bind _ _ (Keeps-wrap _ _ (get_anchor_ext-Keeps P l k q)) λ anchor.
          Keeps-bind _ _ (Keeps-wrap _ _ (get_config_param34-Keeps P l k anchor))
            λ round. Keeps-if (round.0 == 0) (Keeps-lift _) (finished_round-Keeps round)

  populate-Keeps : (rounds : List RoundInfo) → Keeps P (populate_prev_next_election_ids l rounds)
  unfolding populate_prev_next_election_ids
  populate-Keeps [] = Keeps-lift _
  populate-Keeps (r ∷ rs) =
      Keeps-bind _ _ (find_election_boundary-Keeps P l k r.start_utime)
        λ boundary. Keeps-bind _ _ (populate-Keeps rs) λ rest. Keeps-lift _

  anchor_or_last-Keeps :
      (client : LiteClient t W) (q : RoundsQuery) (block : Option ℕ) (id : Option ℤ)
      → Keeps P (anchor_or_last l client q block id)
  anchor_or_last-Keeps client q (some n) id = Keeps-wrap _ _ (get_anchor_ext-Keeps P l k q)
  anchor_or_last-Keeps client q none (some id) = Keeps-wrap _ _ (get_anchor_ext-Keeps P l k q)
  anchor_or_last-Keeps client q none none = Keeps-wrap _ _ (request-Keeps st.blind _)

  walk_ahead-Keeps : (r : Outcome (ℕ × ℕ)) → Keeps P (walk_ahead l r)
  walk_ahead-Keeps r =
      Keeps-bind _ _ (Keeps-attempt _ (find_election_boundary-Keeps P l k (round_or_zero l r).0))
        λ _. Keeps-attempt _ (find_election_boundary-Keeps P l k (round_or_zero l r).1)

  finished_end-Keeps : (is_over : Bool) (until : ℕ) → Keeps P (finished_end l is_over until)
  finished_end-Keeps true until =
      Keeps-bind _ _ (Keeps-attempt _ (find_election_boundary-Keeps P l k until))
        λ end. Keeps-lift _
  finished_end-Keeps false until = Keeps-lift _

  anchor_round-Keeps :
      (now since until : ℕ) (anchor start : BlockIdExt)
      → Keeps P (anchor_round l now since until anchor start)
  unfolding anchor_round
  anchor_round-Keeps now since until anchor start =
      Keeps-bind (finished_end l (ltb 0 until && ltb (until * 10 ^ 9) now) until) _
        (finished_end-Keeps _ until) λ end. Keeps-lift _

  with_rest-Keeps :
      (start : BlockIdExt) (anchored : RoundInfo × ℕ) → Keeps P (with_rest l start anchored)
  unfolding rest_rounds
  with_rest-Keeps start (round, length) = Keeps-lift _

  list_from-Keeps :
      (now since until : ℕ) (anchor : BlockIdExt) (start : Outcome BlockIdExt)
      → Keeps P (list_from l now since until anchor start)
  list_from-Keeps now since until anchor (ok start) =
      Keeps-bind _ _ (anchor_round-Keeps now since until anchor start) λ anchored.
        Keeps-bind _ _ (with_rest-Keeps start anchored) λ collected.
          Keeps-bind _ _ (Keeps-wrap _ _ (populate-Keeps collected)) λ rounds. Keeps-lift _
  list_from-Keeps now since until anchor (err e) = Keeps-lift _
  list_from-Keeps now since until anchor panic = Keeps-lift _

  list_round-Keeps :
      (now : ℕ) (anchor : BlockIdExt) (round : Outcome (ℕ × ℕ))
      → Keeps P (list_round l now anchor round)
  list_round-Keeps now anchor (ok (since, until)) = Keeps-if (since == 0) (Keeps-lift _) (
      Keeps-bind _ _ (Keeps-attempt _ (k.block_by_utime since))
        (list_from-Keeps now since until anchor))
  list_round-Keeps now anchor (err e) = Keeps-lift _
  list_round-Keeps now anchor panic = Keeps-lift _

  pub fetch_validation_rounds-Keeps :
      (now : ℕ) (client : LiteClient t W) (q : RoundsQuery)
      → Keeps P (fetch_validation_rounds l now client q)
  unfolding fetch_validation_rounds listing_anchor
  fetch_validation_rounds-Keeps now client q =
      Keeps-bind _ _ (anchor_or_last-Keeps client q q.block q.election_id) λ anchor.
        Keeps-bind _ _ (Keeps-attempt _ (get_config_param34-Keeps P l k anchor))
          λ round. Keeps-bind _ _ (walk_ahead-Keeps round) λ _. list_round-Keeps now anchor round
