-- ===== src/Loaders/Data.antt =====
-- The data of service/loaders.go: the methods of its cache, its keys and results, and the parts that come
-- from other libraries.
use ton_validators_rewards_a.Base.{ℕ, ◌^◌, Bool, true, false, Option, List, if◌then◌else◌}
use ton_validators_rewards_a.Base.Int.{negsuc}
use ton_validators_rewards_a.Base.Text.{Text}
use ton_validators_rewards_a.Outcome.{Error, Outcome, Action}
use ton_validators_rewards_a.Tlb.{Tongo, BlockIdExt}
use ton_validators_rewards_a.Retry.{Session}
use ton_validators_rewards_a.RoundRobin.Forward.{BlockId}
use ton_validators_rewards_a.State.{State}

-- The LRU cache of hashicorp, which the dataloaders are given through `cache`. Reading an entry can
-- change the order of the entries.
pub record Lru (L K V : Type 0) : Type 0 where
  pub get : K → L → Option V × L
  pub add : K → V → L → L
  pub contains : K → L → Bool
  pub remove : K → L → L
  pub purge : L → L

-- The methods of `cache`.
module _ {L K V : Type 0} (lru : Lru L K V) where
  unfoldable pub cache_get : K → L → Option V × L
  cache_get = lru.get

  unfoldable pub cache_set : K → V → L → L
  cache_set = lru.add

  unfoldable pub cache_delete : K → L → Bool × L
  cache_delete key c = if lru.contains key c then (true, lru.remove key c) else (false, c)

  unfoldable pub cache_clear : L → L
  cache_clear = lru.purge

-- dataloader.Result: a value, or an error, which is always a SkipCacheError here.
pub data Result (V : Type 0) : Type 0 where
  loaded : V → Result V
  skip_cache : Error → Result V

-- What `Load` with `thunk()` gives for a key, with a batch function for the keys that are not cached. The
-- caches are in the state.
pub record Dataloader (S K V : Type 0) : Type 0 where
  pub load : (List K → Action S (List (Result V))) → K → Action S V

pub record ConfigParamsKey : Type 0 where
  pub mode : ℕ
  pub params : Text
  pub seqno : ℕ

-- blockResult
abbrev pub BlockResult : Type 0
BlockResult = BlockIdExt × ℕ

-- encoding/json on a list of uint32, and the encoding of config params by tongo: a cell and its text.
pub record Encoding (t : Tongo) : Type 0 where
  pub json_marshal : List ℕ → Text
  pub json_unmarshal : Text → Outcome (List ℕ)
  pub marshal : t.ConfigParams → Outcome t.Cell
  pub to_boc : t.Cell → Outcome Text
  pub deserialize_boc : Text → Outcome (List t.Cell)
  pub unmarshal : t.Cell → Outcome t.ConfigParams

-- The two requests of LiteClient that the loaders make. The first may see the exclude list of its
-- context; it gives the block and its GenUtime.
pub record LoaderClient (t : Tongo) (W : Type 0) : Type 0 where
  pub lookup_block : BlockId → (mode : ℕ) → (utime : Option ℕ) → Action (Session W) BlockResult
  pub get_config_params : Option BlockIdExt → (mode : ℕ) → List ℕ → Action W t.ConfigParams

-- `loaders`, with the client that the batch functions make their requests with.
pub record DataLoaders (t : Tongo) (W : Type 0) : Type 0 where
  pub client : LoaderClient t W
  pub block_by_utime : Dataloader (State t W) ℕ BlockIdExt
  pub block_by_seqno : Dataloader (State t W) ℕ BlockResult
  pub config_params : Dataloader (State t W) ConfigParamsKey Text

-- The masterchain's block of a seqno; 0 for a look-up by time.
abbrev pub masterchain : ℕ → BlockId
masterchain seqno = record { workchain = negsuc 0; shard = 2 ^ 63; seqno = seqno }

module _ {t : Tongo} (enc : Encoding t) where
  unfoldable pub new_config_params_key : (mode : ℕ) → List ℕ → (seqno : ℕ) → ConfigParamsKey
  new_config_params_key mode param_list seqno = record {
    mode = mode;
    params = enc.json_marshal param_list;
    seqno = seqno;
  }

  unfoldable pub parse_param_list : Text → Outcome (List ℕ)
  parse_param_list = enc.json_unmarshal
