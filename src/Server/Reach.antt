-- ===== src/Server/Reach.antt =====
-- The states of a running server, which starts with empty caches.
use ton_validators_rewards_a.Base.{ℕ, ◌≡◌, ◌≢◌, Option, none, some, List, []}
use ton_validators_rewards_a.Outcome.{Outcome, ok, Action}
use ton_validators_rewards_a.Tlb.{Tongo, AccountId, Account}
use ton_validators_rewards_a.State.{State, LiteClient, CachedPoolInfo, PoolEntry, nominator_v10}
use ton_validators_rewards_a.Pool.{store, after_request}
use ton_validators_rewards_a.Elections.{RawPastElection, parse_pools, pools_or_parse, sorted_ids}
use ton_validators_rewards_a.State.Requests.{IsBlind}
use ton_validators_rewards_a.Rounds.Report.{Clock}
use ton_validators_rewards_a.Loaders.{Dataloader, DataLoaders, Encoding, LoaderClient, lookups}
use ton_validators_rewards_a.Loaders.Kept.{LoadsByBatch}
use ton_validators_rewards_a.Api.{Params, ValidatorService}
use ton_validators_rewards_a.Server.{Route, Pages, Answer, serve_route, service_of}

-- A dataloader only runs its batches and changes its own cache, so it keeps each property of the service's
-- caches that its batches keep.
abbrev pub OnlyBatches : {t : Tongo} {W K V : Type 0} → Dataloader (State t W) K V → Type 1
OnlyBatches {t} {W} dl = (P : State t W → Type 0) → IsBlind P → LoadsByBatch P dl

pub record IsLoading {t : Tongo} {W : Type 0} (dl : DataLoaders t W) : Type 1 where
  pub by_utime : OnlyBatches dl.block_by_utime
  pub by_seqno : OnlyBatches dl.block_by_seqno
  pub by_key : OnlyBatches dl.config_params

-- All that a request's answer depends on: the loaders of the context, the client of the service at that
-- time (for the loaders, and for all other calls), the time, and the request itself.
pub record Request (t : Tongo) (W : Type 0) : Type 0 where
  pub loaders : DataLoaders t W
  pub own : LoaderClient t W
  pub client : LiteClient t W
  pub clock : Clock
  pub elapsed : ℕ
  pub params : Params
  pub route : Route

module _ {t : Tongo} {W : Type 0} (enc : Encoding t) (pages : Pages) where
  abbrev pub service_for : Request t W → ValidatorService (State t W) t.Float
  service_for r = service_of (lookups enc (some r.loaders) r.own) r.clock r.client

  abbrev pub answer : Request t W → Action (State t W) (Answer t.Float)
  answer r = serve_route pages (service_for r) r.elapsed r.params r.route

-- What requests may do to the state, of which several may be under way: one is asked for or counted, while
-- the network and the time move on; a pool that is no nominator pool is cached; or the map of some
-- elections is cached with their ids.
pub data Step {t : Tongo} {W : Type 0} (s : State t W) : State t W → Type 0 where
  asked : (n : Option ℕ) (w : W) → Step s (record s { rpc_count = n; net = w })
  pool_cached :
      (addr : AccountId) (info : CachedPoolInfo t)
      → info.type ≢ nominator_v10
      → Step s (store t addr info s)
  elections_cached :
      (parsed : List (RawPastElection t)) (pools : List (ℕ × PoolEntry))
      → parse_pools t parsed ≡ ok pools
      → Step s (record s {
        past_elections = some (record { election_ids = sorted_ids t parsed; pools = pools });
      })

pub data Reach {t : Tongo} {W : Type 0} (s : State t W) : State t W → Type 0 where
  here : Reach s s
  next : {u v : State t W} → Reach s u → Step u v → Reach s v

-- The state at the start.
abbrev pub initial : {t : Tongo} {W : Type 0} → W → State t W
initial w = record { pool_types = []; past_elections = none; rpc_count = none; net = w }

-- The moves of a server, which are the code's own, several requests being under way: another request has
-- its turn, with its own counter, and the network moves on; the rest of fetchPoolData runs, with any reply
-- to its request; the rest of getAllPoolAddresses runs behind a miss of its cache, with any elections; or a whole request is answered.
pub data Move {t : Tongo} {W : Type 0} (enc : Encoding t) (pages : Pages) (s : State t W)
    : State t W → Type 1 where
  other_turn : (n : Option ℕ) (w : W) → Move enc pages s (record s { rpc_count = n; net = w })
  pool_replied :
      (addr : AccountId) (reply : Outcome (Account t.Cell))
      → Move enc pages s (after_request t addr reply s).1
  elections_read :
      (elections : List (RawPastElection t))
      → Move enc pages s (pools_or_parse t elections none s).1
  answered : (r : Request t W) → IsLoading r.loaders → Move enc pages s (answer enc pages r s).1

pub data Run {t : Tongo} {W : Type 0} (enc : Encoding t) (pages : Pages) (s : State t W)
    : State t W → Type 1 where
  begun : Run enc pages s s
  moved : {u v : State t W} → Run enc pages s u → Move enc pages u v → Run enc pages s v
