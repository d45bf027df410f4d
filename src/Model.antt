-- ===== src/Model.antt =====
-- model/model.go, model/nton.go: the values that the service returns.
use ton_validators_rewards_a.Base.{ℕ, Bool, ◌++◌, [], ◌∷◌, List, Option, none, some}
use ton_validators_rewards_a.Base.Int.{ℤ}
use ton_validators_rewards_a.Base.Text.{Text, codes, show_ℤ}

-- model.NTon: it wraps a `*big.Int`, which may be nil.
abbrev pub NTon : Type 0
NTon = Option ℤ

-- A quoted decimal, or null.
unfoldable pub marshal_json : NTon → Text
marshal_json none = codes "null"
marshal_json (some n) = 34 ∷ show_ℤ n ++ 34 ∷ []

pub record NominatorReward (Float : Type 0) : Type 0 where
  pub address : Text
  pub weight : Float
  pub reward : Option NTon
  pub effective_stake : Option NTon
  pub stake : Option NTon

pub record ValidatorReward (Float : Type 0) : Type 0 where
  pub rank : ℕ
  pub pubkey : ℕ
  pub effective_stake : Option NTon
  pub weight : Float
  pub reward : Option NTon
  pub pool : Text
  pub owner_address : Text
  pub validator_address : Text
  pub pool_type : Text
  pub validator_stake : Option NTon
  pub nominators_stake : Option NTon
  pub total_stake : Option NTon
  pub validator_reward_share : Float
  pub nominators_count : ℕ
  pub nominators : List (NominatorReward Float)

-- model.ValidationRound. Times are unix seconds, `none` for the zero time.
pub record ValidationRound : Type 0 where
  pub election_id : ℤ
  pub start : Option ℕ
  pub end : Option ℕ
  pub start_block : ℕ
  pub end_block : ℕ
  pub finished : Bool
  pub prev_election_id : Option ℤ
  pub next_election_id : Option ℤ
  pub error : Text

pub record ValidationRoundsOutput : Type 0 where
  pub response_time_ms : ℕ
  pub rounds : List ValidationRound
  pub error : Text

-- model.RoundsQuery and model.RoundRewardsQuery have the same fields.
pub record RoundsQuery : Type 0 where
  pub election_id : Option ℤ
  pub block : Option ℕ
  pub unixtime : Option ℕ

-- model.RoundRewardsOutput. The two times are in unix seconds, which the code prints.
pub record RoundRewardsOutput (Float : Type 0) : Type 0 where
  pub response_time_ms : ℕ
  pub election_id : ℤ
  pub prev_election_id : Option ℤ
  pub next_election_id : Option ℤ
  pub round_start : ℕ
  pub round_end : ℕ
  pub start_block : ℕ
  pub end_block : ℕ
  pub total_bonuses : Option NTon
  pub total_stake : Option NTon
  pub validators : List (ValidatorReward Float)
  pub error : Text

-- model.BlockInfo: the time is in unix seconds, `none` for the zero time.
pub record BlockInfo : Type 0 where
  pub seqno : ℕ
  pub time : Option ℕ

pub record RoundInfo : Type 0 where
  pub start : ℕ
  pub end : ℕ
  pub start_block : ℕ
  pub end_block : ℕ

-- model.Output, of /api/validators.
pub record Output (Float : Type 0) : Type 0 where
  pub response_time_ms : ℕ
  pub block : BlockInfo
  pub validation_round : RoundInfo
  pub election_id : ℤ
  pub prev_election_id : Option ℤ
  pub next_election_id : Option ℤ
  pub elector_balance : Option NTon
  pub total_stake : Option NTon
  pub reward_per_block : Option NTon
  pub prev_block_total_bonuses : Option NTon
  pub curr_block_total_bonuses : Option NTon
  pub validators : List (ValidatorReward Float)
