-- ===== src/Rounds/Bonuses.antt =====
-- FetchRoundRewards from the boundaries on: what it pays out of the bonuses of the round.
use ton_validators_rewards_a.Base.{
  All, ℕ, zero, suc, arith, ◌≡◌, refl, sym, ◌∙◌, Bool, false, Option, none, some, List, [], ◌∷◌,
  length,
}
use ton_validators_rewards_a.Base.Int.{ℤ, pos, ◌+ℤ◌, ◌≤ℤ◌, ◌<ℤ◌, eq_ℤ, sum_ℤ}
use ton_validators_rewards_a.Outcome.{ok, Ensures, continue-Ensures, Ensures-ok}
use ton_validators_rewards_a.Tlb.{Tongo, BlockIdExt}
use ton_validators_rewards_a.Model.{RoundRewardsOutput}
use ton_validators_rewards_a.State.{State, LiteClient, with_block}
use ton_validators_rewards_a.Elections.{RawPastElection}
use ton_validators_rewards_a.Elections.Valid.{Valid, IsValid}
use ton_validators_rewards_a.Rewards.{ValidatorRow, build_validator_rows, compute_validator_rewards}
use ton_validators_rewards_a.Rewards.Stakes.{stakes, build_validator_rows_lem}
use ton_validators_rewards_a.Rewards.Reports.{IsKnown, rewards_of}
use ton_validators_rewards_a.Rewards.Whole.{
  PaysOut, compute_validator_rewards-PaysOut, build_validator_rows-IsNat,
}
use ton_validators_rewards_a.Rounds.Fetched.{fetch_round_data-Valid}
use ton_validators_rewards_a.Rounds.Lookup.{Loaders}
use ton_validators_rewards_a.Rounds.Boundary.{ElectionBoundary}
use ton_validators_rewards_a.Rounds.Report.{
  Clock, RoundData, find_election, fetch_round_data, distribute, with_bonuses, with_election,
  report_rows, report_round,
}

-- The report shares out its bonuses: the rewards, of which none is missing, add up to no more than these,
-- and less than one unit for each validator is left.
abbrev pub SharesOut : {F : Type 0} → RoundRewardsOutput F → Type 0
SharesOut out =
    (bonuses : ℤ) × (out.total_bonuses ≡ some (some bonuses))
    × (sum_ℤ (rewards_of out.validators) ≤ℤ bonuses)
    × (bonuses <ℤ sum_ℤ (rewards_of out.validators) +ℤ pos (length out.validators))
    × All IsKnown out.validators

module _ {t : Tongo} {W : Type 0} (l : Loaders t (State t W)) (clock : Clock)
    (client : LiteClient t W) (shallow : Bool) (round : ℕ × ℕ) (start end : ElectionBoundary) where
  distribute-SharesOut :
      (rows : List ValidatorRow) (n : ℕ) (bonuses : ℤ) (stake : Option ℤ) (s : State t W)
      → sum_ℤ (stakes rows) ≡ pos (suc n)
      → Ensures SharesOut
          (distribute l clock client shallow round start end rows (pos (suc n)) bonuses stake s)
  distribute-SharesOut rows n bonuses stake s whole =
      let pinned = with_block end.after_block client in
      continue-Ensures (PaysOut t (suc n) bonuses) SharesOut
        (compute_validator_rewards t pinned rows (pos (suc n)) bonuses shallow s) _
        (compute_validator_rewards-PaysOut t pinned bonuses rows (suc n) shallow s whole)
        (λ vs s' (low, high, known). (bonuses, refl, low, high, known))

  with_election-SharesOut :
      (rows : List ValidatorRow) (n : ℕ) (el : Option (RawPastElection t)) (s : State t W)
      → sum_ℤ (stakes rows) ≡ pos (suc n)
      → Ensures SharesOut
          (with_election l clock client shallow round start end rows (pos (suc n)) el s)
  with_election-SharesOut rows n none s whole = tt
  with_election-SharesOut rows n (some el) s whole = by_bonuses el.bonuses
    where
      by_bonuses :
          (b : Option ℤ)
          → Ensures SharesOut (
              with_bonuses l clock client shallow round start end rows
                (pos (suc n))
                b
                el.total_stake
                s)
      by_bonuses none = tt
      by_bonuses (some b) = distribute-SharesOut rows n b el.total_stake s whole

  positive_not_zero : (n : ℕ) → eq_ℤ (pos (suc n)) (pos 0) ≡ false
  positive_not_zero n = ground arith

  report_rows-SharesOut :
      (rd : RoundData t) (rows : List ValidatorRow) (m : ℕ) (s : State t W)
      → sum_ℤ (stakes rows) ≡ pos m
      → Ensures SharesOut (report_rows l clock client shallow round start end rd (rows, pos m) s)
  report_rows-SharesOut rd [] m s whole = tt
  report_rows-SharesOut rd (row ∷ rows) zero s whole = tt
  report_rows-SharesOut rd (row ∷ rows) (suc n) s whole = rw (positive_not_zero n) (
      with_election-SharesOut (row ∷ rows) n (find_election rd.elections start.after_election_id) s
        whole)

  module _
      (keeps : (ext : Option BlockIdExt) (seqno : ℕ) (s : State t W)
        → IsValid s.past_elections
        → IsValid (l.cached_get_config_params ext seqno s).1.past_elections) where
    -- A report that FetchRoundRewards returns for the boundaries of a round shares out its bonuses:
    -- the rewards add up to no more than the reported total of the bonuses, and what is left is
    -- less than one unit for each validator; if the stakes in the cache of the elections are not
    -- negative, as the parser makes them, and reading the config keeps this.
    pub report_round-SharesOut :
        (s : State t W) {out : RoundRewardsOutput t.Float}
        → IsValid s.past_elections
        → (report_round l clock client shallow round start end s).0 ≡ ok out
        → SharesOut out
    unfolding report_round
    report_round-SharesOut s h =
        let seqno = end.before_block.seqno in
        Ensures-ok SharesOut (report_round l clock client shallow round start end s) (
          continue-Ensures (λ rd. Valid rd.pools) SharesOut
            (fetch_round_data l (with_block end.before_block client)
              (with_block end.after_block client) seqno s)
            _
            (fetch_round_data-Valid l keeps (with_block end.before_block client)
              (with_block end.after_block client) seqno s h)
            (λ rd s' valid.
              let (m, is_m) = build_validator_rows-IsNat t rd.conf rd.pools valid in
              let sum = (build_validator_rows_lem t rd.conf rd.pools).2 in
              rw (is_m) (
                report_rows-SharesOut rd (build_validator_rows t rd.conf rd.pools).0 m s'
                  (sym sum ∙ is_m))))
