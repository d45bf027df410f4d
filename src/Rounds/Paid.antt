-- ===== src/Rounds/Paid.antt =====
-- FetchRoundRewards as a whole: what it pays out of the bonuses of the round.
use ton_validators_rewards_a.Base.{ℕ, ◌*◌, ◌^◌, ◌≡◌, ◌++◌, Bool, ◌==◌, ltb, Bool-cases, inl, inr}
use ton_validators_rewards_a.Base.Text.{codes}
use ton_validators_rewards_a.Outcome.{
  ok, wrap, Keeps-wrap, Ensures, continue-Ensures_state, Ensures-of_ok, Ensures-ok,
}
use ton_validators_rewards_a.Tlb.{Tongo}
use ton_validators_rewards_a.Model.{RoundsQuery, RoundRewardsOutput}
use ton_validators_rewards_a.State.{State, LiteClient}
use ton_validators_rewards_a.Elections.Valid.{IsValid}
use ton_validators_rewards_a.Rounds.Lookup.{Loaders, get_config_param34}
use ton_validators_rewards_a.Rounds.Boundary.{find_election_boundary}
use ton_validators_rewards_a.Rounds.Anchor.{get_anchor_ext}
use ton_validators_rewards_a.Rounds.Kept.{
  IsKept, get_config_param34-Keeps, find_election_boundary-Keeps, get_anchor_ext-Keeps,
}
use ton_validators_rewards_a.Rounds.Report.{
  Clock, report_round, finished_round, fetch_round_rewards,
}
use ton_validators_rewards_a.Rounds.Bonuses.{SharesOut, report_round-SharesOut}

-- The stakes in the cache of the elections are as the parser makes them.
abbrev pub HasValid : {t : Tongo} {W : Type 0} → State t W → Type 0
HasValid s = IsValid s.past_elections

module _ {t : Tongo} {W : Type 0} (l : Loaders t (State t W)) (k : IsKept HasValid l)
    (clock : Clock) (client : LiteClient t W) (shallow : Bool) where
  finished_round-SharesOut :
      (round : ℕ × ℕ) (s : State t W)
      → HasValid s
      → Ensures SharesOut (finished_round l clock client shallow round s)
  unfolding finished_round
  finished_round-SharesOut round s h = elim (Bool-cases (ltb clock.now (round.1 * 10 ^ 9))) [
    | inl e ↦ rw (e) tt
    | inr e ↦ rw (e) (
        continue-Ensures_state HasValid SharesOut
          (wrap (λ e. codes "findElectionBoundary(since): " ++ e) (find_election_boundary l round.0)
            s)
          _
          ((Keeps-wrap (λ e. codes "findElectionBoundary(since): " ++ e) _
              (find_election_boundary-Keeps HasValid l k round.0)).keep
            s h)
          (λ start s1 h1.
            continue-Ensures_state HasValid SharesOut
              (wrap (λ e. codes "findElectionBoundary(until): " ++ e)
                (find_election_boundary l round.1) s1)
              _
              ((Keeps-wrap (λ e. codes "findElectionBoundary(until): " ++ e) _
                  (find_election_boundary-Keeps HasValid l k round.1)).keep
                s1 h1)
              (λ end s2 h2.
                Ensures-of_ok SharesOut (report_round l clock client shallow round start end s2)
                  (λ out got.
                    report_round-SharesOut l clock client shallow round start end
                      (λ ext n s' h'. (k.config ext n).keep s' h') s2 h2 got))))
  ]

  -- A report that FetchRoundRewards returns shares out its bonuses: no validator's reward is
  -- missing, the rewards add up to no more than the reported total of the bonuses, and what is left
  -- is less than one unit for each validator; if the stakes in the cache of the elections are not
  -- negative, as the parser makes them, and the look-ups of blocks and configs keep this.
  pub fetch_round_rewards-SharesOut :
      (q : RoundsQuery) (s : State t W) {out : RoundRewardsOutput t.Float}
      → HasValid s
      → (fetch_round_rewards l clock client q shallow s).0 ≡ ok out
      → SharesOut out
  unfolding fetch_round_rewards
  fetch_round_rewards-SharesOut q s h =
      Ensures-ok SharesOut (fetch_round_rewards l clock client q shallow s) (
        continue-Ensures_state HasValid SharesOut
          (wrap (λ e. codes "getAnchorExt error or nil: " ++ e) (get_anchor_ext l q) s) _
          ((Keeps-wrap (λ e. codes "getAnchorExt error or nil: " ++ e) _
              (get_anchor_ext-Keeps HasValid l k q)).keep
            s h)
          (λ anchor s1 h1.
            continue-Ensures_state HasValid SharesOut
              (wrap (λ e. codes "getConfigParam34: " ++ e) (get_config_param34 l anchor) s1) _
              ((Keeps-wrap (λ e. codes "getConfigParam34: " ++ e) _
                  (get_config_param34-Keeps HasValid l k anchor)).keep
                s1 h1)
              (λ round s2 h2. elim (Bool-cases (round.0 == 0)) [
                | inl e ↦ rw (e) tt
                | inr e ↦ rw (e) (finished_round-SharesOut round s2 h2)
              ])))
