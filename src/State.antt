-- ===== src/State.antt =====
-- The state that the service's calls share, and the client that they make requests with:
-- the caches of service/pool.go, the counter of model/rpccount.go, and the interface LiteClient of
-- service/roundrobin.go.
pub mod Requests
use ton_validators_rewards_a.Base.{ℕ, ◌+◌, ⊤, Bool, Option, none, some, List, ◌==◌}
use ton_validators_rewards_a.Base.Int.{ℤ}
use ton_validators_rewards_a.Base.Text.{Text}
use ton_validators_rewards_a.Outcome.{Outcome, ok, Action, ◌>>◌, ◌>>=◌}
use ton_validators_rewards_a.Tlb.{Tongo, AccountId, BlockIdExt, Account, VmStackValue}
use ton_validators_rewards_a.Retry.{retry}

-- The pool types of service/pool.go. The unknown type is the empty string.
pub data PoolType : Type 0 where
  unknown_type nominator_v10 single_nominator_v10 single_nominator_v11 other_type : PoolType

-- What is kept of a pool whose data does not change. A validator address of 0 is none.
pub record CachedPoolInfo (t : Tongo) : Type 0 where
  pub type : PoolType
  pub validator_address : ℕ
  pub owner_address : t.MsgAddress
  pub validator_wallet_address : t.MsgAddress

-- A validator's pool and its stake in the frozen election.
pub record PoolEntry : Type 0 where
  pub addr : AccountId
  pub true_stake : ℤ

-- pastElectionsCache: the sorted election ids, and the map from public keys.
pub record PastElections : Type 0 where
  pub election_ids : List ℤ
  pub pools : List (ℕ × PoolEntry)

-- `net` is all that the requests depend on: the liteservers, the connections, the time.
pub record State (t : Tongo) (W : Type 0) : Type 0 where
  pub pool_types : List (AccountId × CachedPoolInfo t)
  pub past_elections : Option PastElections
  pub rpc_count : Option ℕ
  pub net : W

-- LiteClient: `target` is the block that the requests are pinned to, if they are. The requests that
-- name a block themselves (LookupBlock) stand apart, in `Loaders`.
pub record LiteClient (t : Tongo) (W : Type 0) : Type 0 where
  pub target : Option BlockIdExt
  -- GetMasterchainInfo, as the BlockIDExt of its `Last`.
  pub masterchain_info : Option BlockIdExt → Action W BlockIdExt
  pub account_state : Option BlockIdExt → AccountId → Action W (Account t.Cell)
  pub smc_method :
      Option BlockIdExt
      → AccountId
      → Text
      → List (VmStackValue t.Cell t.Tuple)
      → Action W (List (VmStackValue t.Cell t.Tuple))

-- model.CountRPC: without a counter in the context it does nothing.
abbrev pub bump_count : Option ℕ → Option ℕ
bump_count none = none
bump_count (some n) = some (n + 1)

module _ {t : Tongo} {W : Type 0} where
  abbrev pub with_block : BlockIdExt → LiteClient t W → LiteClient t W
  with_block b client = record client { target = some b }

  unfoldable pub count_rpc : Action (State t W) ⊤
  count_rpc s = (ok tt, record s { rpc_count = bump_count s.rpc_count })

  -- model.WithRPCCounter and model.RPCCount.
  unfoldable pub with_rpc_counter : State t W → State t W
  with_rpc_counter s = record s { rpc_count = some 0 }

  unfoldable pub rpc_total : State t W → ℕ
  rpc_total s = elim s.rpc_count [ none ↦ 0 | some n ↦ n ]

  -- A request changes the network's part of the state only.
  abbrev pub remote : {A : Type 0} → Action W A → Action (State t W) A
  remote m s = let (r, w) = m s.net in (r, record s { net = w })

  -- A counted request, and its repetition.
  unfoldable pub request : {A : Type 0} → Action W A → Action (State t W) A
  unfolding count_rpc retry
  request m = retry (count_rpc >> remote m)
