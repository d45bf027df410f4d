-- ===== src/RoundRobin.antt =====
-- service/roundrobin.go: one connection per liteserver, and the choice of one for each request.
pub mod Choice
pub mod Fairness
pub mod Forward
pub mod Excluded
mod Tests
use ton_validators_rewards_a.Base.{
  ℕ, zero, suc, ◌+◌, ◌-◌, ◌%◌, ◌^◌, Bool, true, false, ◌&&◌, ◌||◌, not, Option, none, some, List,
  [], ◌∷◌, ltb, ◌==◌, if◌then◌else◌, length, get_elem?,
}
use ton_validators_rewards_a.Base.Int.{ℤ, pos, negsuc}
use ton_validators_rewards_a.Outcome.{Outcome, ok, err, panic}
use ton_validators_rewards_a.Tlb.{BlockIdExt}
use ton_validators_rewards_a.Retry.{RetryExclude, is_excluded}

-- `Conn` is a `*liteapi.Client` of tongo with its host name.
pub record RoundRobinClient (Conn : Type 0) : Type 0 where
  pub entries : List Conn
  pub counter : ℕ
  pub target_block : Option BlockIdExt

-- What GetPoolStatus says of a client now: whether each of its connections is up.
abbrev pub PoolStatus : Type 0 → Type 0
PoolStatus Conn = Conn → List Bool

any_connected : List Bool → Bool
any_connected [] = false
any_connected (c ∷ cs) = c || any_connected cs

unfoldable pub has_connections : {Conn : Type 0} → PoolStatus Conn → Conn → Bool
unfolding any_connected
has_connections status c = any_connected (status c)

-- `int(counter) % n`, as an index: the conversion of a uint64 to a 64-bit int wraps round, `%` keeps
-- the sign of the dividend, and a negative index panics (`none`). The divisor is not 0.
unfoldable pub slot : ℕ → ℕ → Option ℕ
slot c n = if ltb c (2 ^ 63) then some (c % n) else if (2 ^ 64 - c) % n == 0 then some 0 else none

abbrev pub excluded_of : Option RetryExclude → List ℤ
excluded_of none = []
excluded_of (some x) = x.excluded

-- The atomic increment, in uint64.
abbrev pub bump : {Conn : Type 0} → RoundRobinClient Conn → RoundRobinClient Conn
bump r = record r { counter = (r.counter + 1) % 2 ^ 64 }

-- `entries[idx], idx`
abbrev pub entry_at : {Conn : Type 0} → List Conn → Option ℕ → Outcome (Option Conn × ℤ)
entry_at es none = panic
entry_at es (some idx) = elim (get_elem? es idx) [ none ↦ panic | some e ↦ ok (some e, pos idx) ]

-- `healthy[pos]`
abbrev pub healthy_at : List ℕ → Option ℕ → Option ℕ
healthy_at healthy none = none
healthy_at healthy (some p) = get_elem? healthy p

-- The choice, from the counter behind the increment.
unfoldable pub choose : {Conn : Type 0} → List Conn → List ℕ → ℕ → Outcome (Option Conn × ℤ)
choose es [] c = entry_at es (slot c (length es))
choose es (h ∷ hs) c = entry_at es (healthy_at (h ∷ hs) (slot c (length (h ∷ hs))))

module _ {Conn : Type 0} (status : PoolStatus Conn) where
  -- The indices of the clients that are connected and not excluded; `i` is the first one's index.
  unfoldable pub healthy_from : List ℤ → ℕ → List Conn → List ℕ
  healthy_from excluded i [] = []
  healthy_from excluded i (e ∷ es) =
      let rest = healthy_from excluded (suc i) es in
      if is_excluded (pos i) excluded
      then rest
      else if has_connections status e
      then i ∷ rest
      else rest

  -- The client and its index; with no entries no client and -1, and the counter stays.
  unfoldable pub next_client :
      Option RetryExclude
      → RoundRobinClient Conn
      → Outcome (Option Conn × ℤ) × RoundRobinClient Conn
  next_client exclude r = if length r.entries == 0 then (ok (none, negsuc 0), r) else (
    choose r.entries (healthy_from (excluded_of exclude) 0 r.entries) (bump r).counter,
    bump r,
  )

  -- The request's connection with the block that it is pinned to. The index goes into the exclude
  -- list of the context, if there is one.
  abbrev pub used : Option RetryExclude → ℤ → Option RetryExclude
  used none i = none
  used (some x) i = some (record x { last_used = i })

  unfoldable pub client_for_request :
      Option RetryExclude
      → RoundRobinClient Conn
      → Outcome (Option Conn × Option BlockIdExt) × Option RetryExclude × RoundRobinClient Conn
  client_for_request exclude r =
      let (picked, r') = next_client exclude r in
      elim picked [
        | ok (e, i) ↦ (ok (e, r.target_block), used exclude i, r')
        | err m ↦ (err m, exclude, r')
        | panic ↦ (panic, exclude, r')
      ]

-- A client that is pinned to a block is a copy, with a counter of its own.
unfoldable pub with_block :
    {Conn : Type 0} → BlockIdExt → RoundRobinClient Conn → RoundRobinClient Conn
with_block block r = record { entries = r.entries; counter = r.counter; target_block = some block }
