-- ===== src/RoundRobin/Forward.antt =====
-- The requests of service/roundrobin.go: each is made with the client that clientForRequest gives it. What
-- the spans record of a request and of its error is left out.
use ton_validators_rewards_a.Base.{ℕ, Option, List}
use ton_validators_rewards_a.Base.Int.{ℤ}
use ton_validators_rewards_a.Base.Text.{Text}
use ton_validators_rewards_a.Outcome.{Action, continue}
use ton_validators_rewards_a.Tlb.{AccountId, BlockIdExt}
use ton_validators_rewards_a.Retry.{Session}
use ton_validators_rewards_a.RoundRobin.{RoundRobinClient, PoolStatus, client_for_request}

-- ton.BlockID.
pub record BlockId : Type 0 where
  pub workchain : ℤ
  pub shard : ℕ
  pub seqno : ℕ

-- A method of *liteapi.Client of tongo: its receiver, which is nil without entries, and the block that
-- WithBlock pins it to.
abbrev pub Method : (Conn W A : Type 0) → Type 0
Method Conn W A = Option Conn → Option BlockIdExt → Action W A

-- The connections' methods, and their state now.
pub record LiteApi (W : Type 0) : Type 1 where
  pub Conn : Type 0
  pub MasterchainInfo : Type 0
  pub BlockInfo : Type 0
  pub Block : Type 0
  pub ShardAccount : Type 0
  pub ConfigMode : Type 0
  pub ConfigParams : Type 0
  pub VmStack : Type 0
  pub status : W → PoolStatus Conn
  pub get_masterchain_info : Method Conn W MasterchainInfo
  pub lookup_block :
      BlockId → (mode : ℕ) → (lt utime : Option ℕ) → Method Conn W (BlockIdExt × BlockInfo)
  pub get_block : BlockIdExt → Method Conn W Block
  pub get_account_state : AccountId → Method Conn W ShardAccount
  pub get_config_params : ConfigMode → List ℕ → Method Conn W ConfigParams
  pub run_smc_method_by_id : AccountId → (method_id : ℤ) → VmStack → Method Conn W (ℕ × VmStack)
  pub run_smc_method : AccountId → (method : Text) → VmStack → Method Conn W (ℕ × VmStack)

-- The client that the requests are made with, and the world that they are made in.
pub record Requests (Conn W : Type 0) : Type 0 where
  pub client : RoundRobinClient Conn
  pub net : W

module _ {W : Type 0} (api : LiteApi W) where
  open api use {
    Conn, MasterchainInfo, BlockInfo, Block, ShardAccount, ConfigMode, ConfigParams, VmStack,
  }

  -- A request of the session's context, whose exclude list it reads and writes.
  abbrev pub Request : Type 0 → Type 0
  Request A = Action (Session (Requests Conn W)) A

  abbrev pub on_net : {A : Type 0} → Action W A → Request A
  on_net m s = let (r, w) = m s.world.net in (r, record s { world = (record s.world { net = w }) })

  unfoldable pub forward : {A : Type 0} → Method Conn W A → Request A
  forward call s =
      let (picked, exclude, client) =
        client_for_request (api.status s.world.net) s.exclude s.world.client in
      continue
        (picked, record s { exclude = exclude; world = (record s.world { client = client }) })
        λ p. on_net (call p.0 p.1)

  unfoldable pub get_masterchain_info : Request MasterchainInfo
  unfolding forward
  get_masterchain_info = forward api.get_masterchain_info

  unfoldable pub lookup_block :
      BlockId → (mode : ℕ) → (lt utime : Option ℕ) → Request (BlockIdExt × BlockInfo)
  unfolding forward
  lookup_block block_id mode lt utime = forward (api.lookup_block block_id mode lt utime)

  unfoldable pub get_block : BlockIdExt → Request Block
  unfolding forward
  get_block block_id = forward (api.get_block block_id)

  unfoldable pub get_account_state : AccountId → Request ShardAccount
  unfolding forward
  get_account_state account_id = forward (api.get_account_state account_id)

  unfoldable pub get_config_params : ConfigMode → List ℕ → Request ConfigParams
  unfolding forward
  get_config_params mode param_list = forward (api.get_config_params mode param_list)

  unfoldable pub run_smc_method_by_id :
      AccountId → (method_id : ℤ) → VmStack → Request (ℕ × VmStack)
  unfolding forward
  run_smc_method_by_id account_id method_id params =
      forward (api.run_smc_method_by_id account_id method_id params)

  unfoldable pub run_smc_method : AccountId → (method : Text) → VmStack → Request (ℕ × VmStack)
  unfolding forward
  run_smc_method account_id method params = forward (api.run_smc_method account_id method params)
