-- ===== src/Stable.antt =====
-- What every call of the service keeps of its caches: the properties that the two writes to the caches
-- keep, in service/pool.go.
pub mod Rewards
pub mod Rounds
pub mod Blocks
use ton_validators_rewards_a.Base.{ℕ, ◌≡◌, ◌≢◌, refl, ⊤, Option, none, some, List}
use ton_validators_rewards_a.Outcome.{ok}
use ton_validators_rewards_a.Tlb.{Tongo, AccountId}
use ton_validators_rewards_a.State.{State, PoolEntry, PastElections, CachedPoolInfo, nominator_v10}
use ton_validators_rewards_a.State.Requests.{IsBlind}
use ton_validators_rewards_a.Pool.{store}
use ton_validators_rewards_a.Pool.Clean.{IsClean, store-IsClean}
use ton_validators_rewards_a.Elections.{RawPastElection, parse_pools, sorted_ids}
use ton_validators_rewards_a.Elections.Merge.{parse_pools-All}
use ton_validators_rewards_a.Elections.Valid.{IsValid}
use ton_validators_rewards_a.Rounds.Paid.{HasValid}

-- A property that does not look at the counter and the network, and that both writes keep: that of a pool
-- which is no nominator pool, and that of the map that is parsed from some elections, with their ids.
pub record IsStable {t : Tongo} {W : Type 0} (P : State t W → Type 0) : Type 0 where
  pub blind : IsBlind P
  pub pool_stored :
      (addr : AccountId) (info : CachedPoolInfo t) (s : State t W)
      → info.type ≢ nominator_v10
      → P s
      → P (store t addr info s)
  pub elections_stored :
      (parsed : List (RawPastElection t)) (pools : List (ℕ × PoolEntry)) (s : State t W)
      → parse_pools t parsed ≡ ok pools
      → P s
      → P (record s {
        past_elections = some (record { election_ids = sorted_ids t parsed; pools = pools });
      })

-- The map in the cache is that of some elections, with their ids.
abbrev pub IsParsed : (t : Tongo) → Option PastElections → Type 0
IsParsed t none = ⊤
IsParsed t (some c) =
    (parsed : List (RawPastElection t)) × (c.election_ids ≡ sorted_ids t parsed)
    × (parse_pools t parsed ≡ ok c.pools)

-- The caches are sound: they hold what was parsed, and no nominator pool.
abbrev pub IsSound : {t : Tongo} {W : Type 0} → State t W → Type 0
IsSound {t} s = IsParsed t s.past_elections × IsClean s

pub IsSound-IsStable : {t : Tongo} {W : Type 0} → IsStable (IsSound {t = t} {W = W})
IsSound-IsStable {t} = record {
  blind = λ s n w h. h;
  pool_stored = λ addr info s fits h. (h.0, store-IsClean t addr info s fits h.1);
  elections_stored = λ parsed pools s e h. ((parsed, refl, e), h.1);
}

pub HasValid-IsStable : {t : Tongo} {W : Type 0} → IsStable (HasValid {t = t} {W = W})
HasValid-IsStable {t} = record {
  blind = λ s n w h. h;
  pool_stored = λ addr info s fits h. h;
  elections_stored = λ parsed pools s e h. parse_pools-All t parsed e;
}

pub IsParsed-IsValid : (t : Tongo) (c : Option PastElections) → IsParsed t c → IsValid c
IsParsed-IsValid t none h = tt
IsParsed-IsValid t (some c) (parsed, ids, e) = parse_pools-All t parsed e
