-- ===== src/Rounds/Info.antt =====
-- The rounds that FetchValidationRounds of service/rounds.go collects, and what it reports of them.
use ton_validators_rewards_a.Base.{ℕ, Bool, Option, none, some, List, map, ◌==◌, if◌then◌else◌}
use ton_validators_rewards_a.Base.Int.{ℤ}
use ton_validators_rewards_a.Base.Text.{Text, codes}
use ton_validators_rewards_a.Outcome.{Error}
use ton_validators_rewards_a.Retry.{is_permanent_error}
use ton_validators_rewards_a.Model.{ValidationRound, ValidationRoundsOutput}

-- roundInfo. A block or a time of 0 is unknown.
pub record RoundInfo : Type 0 where
  pub election_id : ℤ
  pub start_utime : ℕ
  pub end_utime : ℕ
  pub start_block : ℕ
  pub end_block : ℕ
  pub finished : Bool
  pub fetch_err : Text
  pub prev_election_id : Option ℤ
  pub next_election_id : Option ℤ

-- A time that is set; the zero time of Go if it is 0.
abbrev pub set_time : ℕ → Option ℕ
set_time utime = if utime == 0 then none else some utime

unfoldable pub validation_round : RoundInfo → ValidationRound
validation_round c = record {
  election_id = c.election_id;
  start = set_time c.start_utime;
  end = set_time c.end_utime;
  start_block = c.start_block;
  end_block = c.end_block;
  finished = c.finished;
  prev_election_id = c.prev_election_id;
  next_election_id = c.next_election_id;
  error = c.fetch_err;
}

unfoldable pub build_rounds_output : List RoundInfo → Text → ValidationRoundsOutput
unfolding validation_round
build_rounds_output rounds walk_err = record {
  response_time_ms = 0;
  rounds = map validation_round rounds;
  error = walk_err;
}

unfoldable pub round_fetch_err : Error → Text
round_fetch_err e = if is_permanent_error e then codes "state already gc'd" else e
