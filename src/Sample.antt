-- ===== src/Sample.antt =====
-- A small chain for the runs: a tongo whose opaque values are numbers, with two elections.
use ton_validators_rewards_a.Base.{
  ℕ, ◌*◌, ◌^◌, none, some, List, [], ◌∷◌, ltb, leb, ◌==◌, if◌then◌else◌, ◌+◌,
}
use ton_validators_rewards_a.Base.Int.{ℤ, pos, negsuc}
use ton_validators_rewards_a.Base.Text.{codes, show_ℕ}
use ton_validators_rewards_a.Outcome.{ok, err, Action}
use ton_validators_rewards_a.Math.{Floats}
use ton_validators_rewards_a.Tlb.{
  BlockIdExt, VmStackValue, tiny_int, int, cell, tuple, other, account, active, validators,
  BlockchainConfig, GetPoolDataTlb, FrozenMember, Tongo,
}
use ton_validators_rewards_a.State.{State, LiteClient}
use ton_validators_rewards_a.Rounds.Lookup.{Loaders}
use ton_validators_rewards_a.Rounds.Report.{Clock}
use ton_validators_rewards_a.Model.{ValidatorReward, RoundRewardsOutput}

abbrev pub floats : Floats ℤ
floats = record { zero_float = pos 0; quo = λ a b. a; per_ten_thousand = λ a. a }

-- Validators 7 and 8 are in the config of each block; the election changes at block 101.
abbrev pub start_at : ℕ → ℕ
start_at n = if ltb n 101 then 1001 else 1002

abbrev pub config_at : ℕ → BlockchainConfig
config_at n = record {
  config_param34 =
      some (validators (start_at n) 3000 (record { pub_key = 7 } ∷ record { pub_key = 8 } ∷ []));
}

abbrev pub member : (addr weight stake : ℕ) → FrozenMember
member addr weight stake = record { src_addr = addr; weight = weight; true_stake = stake }

-- Cell 1 lists validator 7, any other lists 7 and 8.
abbrev pub members : ℕ → List (ℕ × FrozenMember)
members c =
    if c == 1 then (7, member 70 1 500) ∷ [] else (7, member 71 1 600) ∷ (8, member 80 1 400) ∷ []

abbrev pub pool_data : GetPoolDataTlb
pool_data = record {
  state = pos 2;
  nominators_count = 2;
  stake_amount_sent = 900;
  validator_amount = 300;
  config = record {
    validator_address = 5;
    validator_reward_share = 3000;
    max_nominators_count = 40;
    min_validator_stake = 100;
    min_nominator_stake = 10;
  };
  nominators =
      (21, record { amount = 400; pending_deposit_amount = 0 })
      ∷ (22, record { amount = 200; pending_deposit_amount = 50 })
      ∷ [];
  withdraw_requests = 22 ∷ [];
  stake_at = 1000;
  saved_validator_set_hash = 0;
  validator_set_changes_count = 0;
  validator_set_change_time = 0;
  stake_held_for = 0;
}

-- An election tuple: its id and its dictionary.
abbrev pub election_fields : (id dict : ℕ) → List (VmStackValue ℕ ℕ)
election_fields id dict =
    tiny_int (pos id) ∷ other ∷ other ∷ other ∷ cell dict ∷ int (pos 1000) ∷ int (pos 33) ∷ []

abbrev pub tongo : Tongo
tongo = record {
  Cell = ℕ;
  Tuple = ℕ;
  MsgAddress = ℕ;
  ConfigParams = ℕ;
  Float = ℤ;
  floats = floats;
  hash256 = λ c. ok c;
  unmarshal_pool = λ c. ok pool_data;
  unmarshal_roles = λ c. ok (record { owner_address = 31; validator_address = 32 });
  unmarshal_members = λ c. ok (members c);
  zero_address = 0;
  sum_type = λ a. if a == 0 then [] else codes "AddrStd";
  account_id_from_tlb = λ a. some (record { workchain = negsuc 0; address = a });
  to_human = λ a bounce testnet. a.address ∷ [];
  to_raw = λ a. a.address ∷ [];
  zero_tuple = 0;
  zero_cell = 0;
  list_to_slice = λ c. ok (tuple 1 ∷ tuple 2 ∷ []);
  tuple_to_slice = λ c. ok (election_fields (c + 1000) c);
  convert_blockchain_config = λ c. ok (config_at c);
}

abbrev pub block : ℕ → BlockIdExt
block n = record { workchain = negsuc 0; shard = 0; seqno = n; root_hash = n; file_hash = n }

-- Blocks up to 1000 exist; the block near any time is block 100.
abbrev pub find_block : {S : Type 0} → ℕ → Action S (BlockIdExt × ℕ)
find_block n s = if leb n 1000 then (ok (block n, n), s) else (err (codes "block not found"), s)

abbrev pub loaders : (S : Type 0) → Loaders tongo S
loaders S = record {
  lookup_masterchain_block = find_block;
  lookup_masterchain_block_by_utime = λ n s. (ok (block 100), s);
  cached_get_config_params = λ ext seqno s. (ok seqno, s);
}

-- A network of one kind of account, with data in cell 9 and the given code; `net` counts requests.
abbrev pub client : (code : ℕ) → LiteClient tongo ℕ
client code = record {
  target = none;
  masterchain_info = λ b w. (ok (block 100), w + 1);
  account_state = λ b a w. (ok (account 5 (active (some code) (some 9))), w + 1);
  smc_method = λ b a name args w. (ok (tuple 0 ∷ []), w + 1);
}

abbrev pub fresh : State tongo ℕ
fresh = record { pool_types = []; past_elections = none; rpc_count = some 0; net = 0 }

-- What is expected: rewards without a pool, and the report of the second election's round with the
-- time that it took.
abbrev pub paid : (rank key stake reward addr : ℕ) → ValidatorReward ℤ
paid rank key stake reward addr = record {
  rank = rank;
  pubkey = key;
  effective_stake = some (some (pos stake));
  weight = pos stake;
  reward = some (some (pos reward));
  pool = addr ∷ [];
  owner_address = [];
  validator_address = [];
  pool_type = [];
  validator_stake = none;
  nominators_stake = none;
  total_stake = none;
  validator_reward_share = pos 0;
  nominators_count = 0;
  nominators = [];
}

abbrev pub report_in : ℕ → RoundRewardsOutput ℤ
report_in ms = record {
  response_time_ms = ms;
  election_id = pos 1002;
  prev_election_id = some (pos 1001);
  next_election_id = some (pos 1002);
  round_start = 1001;
  round_end = 3000;
  start_block = 101;
  end_block = 100;
  total_bonuses = some (some (pos 33));
  total_stake = some (some (pos 1000));
  validators = paid 1 7 600 19 71 ∷ paid 2 8 400 13 80 ∷ [];
  error = [];
}

-- Behind the end of the round.
abbrev pub clock : Clock
clock = record { now = 4000 * 10 ^ 9; rfc3339 = λ n. show_ℕ n }
