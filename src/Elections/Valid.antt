-- ===== src/Elections/Valid.antt =====
-- Pools as the parser makes them, in the cache of the elections and in what is read through it.
use ton_validators_rewards_a.Base.{
  ℕ, ◌≡◌, ⊤, refl, Option, none, some, List, All, Bool-cases, inl, inr,
}
use ton_validators_rewards_a.Base.Int.{ℤ}
use ton_validators_rewards_a.Outcome.{
  Outcome, ok, err, panic, continue, Ensures, continue-Ensures_state, Ensures-of_ok, Keeps,
  Keeps-bind, lift, ◌>>=◌,
}
use ton_validators_rewards_a.Tlb.{Tongo, AccountId}
use ton_validators_rewards_a.State.{PoolEntry, PastElections, State, LiteClient}
use ton_validators_rewards_a.Elections.{
  RawPastElection, fetch_raw_past_elections, sorted_ids, ids_equal, cached_pools, parse_pools,
  pools_or_parse, store_pools, get_all_pool_addresses,
}
use ton_validators_rewards_a.Elections.Merge.{IsPoolEntry, parse_pools-All}
use ton_validators_rewards_a.Elections.Cache.{
  IsBefore, fetch_raw_past_elections-IsBefore, fetch_raw_past_elections-Keeps,
}
use ton_validators_rewards_a.State.Requests.{IsBlind}

abbrev pub Valid : List (ℕ × PoolEntry) → Type 0
Valid = All (λ e. IsPoolEntry e.1)

abbrev pub IsValid : Option PastElections → Type 0
IsValid none = ⊤
IsValid (some c) = Valid c.pools

abbrev IsHit : Option (List (ℕ × PoolEntry)) → Type 0
IsHit none = ⊤
IsHit (some pools) = Valid pools

cached_pools-IsHit :
    (ids : List ℤ) (c : Option PastElections) → IsValid c → IsHit (cached_pools ids c)
unfolding cached_pools
cached_pools-IsHit ids none h = tt
cached_pools-IsHit ids (some c) h = elim (Bool-cases (ids_equal ids c.election_ids)) [
  | inl e ↦ rw (e) h
  | inr e ↦ rw (e) tt
]

module _ (t : Tongo) {W : Type 0} where
  store_pools-Valid :
      (ids : List ℤ) (r : Outcome (List (ℕ × PoolEntry))) (s : State t W)
      → Ensures Valid (r, s)
      → Ensures Valid (continue (r, s) (store_pools t ids))
  store_pools-Valid ids (ok p) s h = h
  store_pools-Valid ids (err e) s h = tt
  store_pools-Valid ids panic s h = tt

  pools_or_parse-Valid :
      (parsed : List (RawPastElection t)) (hit : Option (List (ℕ × PoolEntry))) (s : State t W)
      → IsHit hit
      → Ensures Valid (pools_or_parse t parsed hit s)
  pools_or_parse-Valid parsed (some p) s h = h
  pools_or_parse-Valid parsed none s h =
      store_pools-Valid (sorted_ids t parsed) (parse_pools t parsed) s
        (Ensures-of_ok Valid (parse_pools t parsed, s) (λ p e. parse_pools-All t parsed e))

  pub get_all_pool_addresses-Valid :
      (client : LiteClient t W) (addr : AccountId) (s : State t W)
      → IsValid s.past_elections
      → Ensures Valid (get_all_pool_addresses t client addr s)
  unfolding get_all_pool_addresses
  get_all_pool_addresses-Valid client addr s h =
      continue-Ensures_state (IsBefore t s.past_elections) Valid
        (fetch_raw_past_elections t client addr s) _
        ((fetch_raw_past_elections-IsBefore t s.past_elections client addr).keep s refl)
        (λ parsed s' kept.
          pools_or_parse-Valid parsed (cached_pools (sorted_ids t parsed) s'.past_elections) s'
            (rw (kept) (cached_pools-IsHit (sorted_ids t parsed) s.past_elections h)))

  -- What reading elections and storing the map of parsed elections keep.
  module _ {P : State t W → Type 0} (blind : IsBlind P)
      (stored : (parsed : List (RawPastElection t)) (pools : List (ℕ × PoolEntry)) (s : State t W)
        → parse_pools t parsed ≡ ok pools
        → P s
        → P (record s {
          past_elections = some (record { election_ids = sorted_ids t parsed; pools = pools });
        })) where
    store_parsed-Keeps :
        (parsed : List (RawPastElection t)) (r : Outcome (List (ℕ × PoolEntry)))
        → parse_pools t parsed ≡ r
        → Keeps P (lift r >>= store_pools t (sorted_ids t parsed))
    store_parsed-Keeps parsed (ok p) e = record { keep = λ s. stored parsed p s e }
    store_parsed-Keeps parsed (err m) e = record { keep = λ s k. k }
    store_parsed-Keeps parsed panic e = record { keep = λ s k. k }

    pub pools_or_parse-Keeps :
        (parsed : List (RawPastElection t)) (hit : Option (List (ℕ × PoolEntry)))
        → Keeps P (pools_or_parse t parsed hit)
    pools_or_parse-Keeps parsed (some p) = record { keep = λ s h. h }
    pools_or_parse-Keeps parsed none = store_parsed-Keeps parsed (parse_pools t parsed) refl

    pub get_all_pool_addresses-Keeps :
        (client : LiteClient t W) (addr : AccountId)
        → Keeps P (get_all_pool_addresses t client addr)
    unfolding get_all_pool_addresses
    get_all_pool_addresses-Keeps client addr =
        Keeps-bind (fetch_raw_past_elections t client addr) _
          (fetch_raw_past_elections-Keeps t blind client addr)
          λ parsed. record {
            keep = λ s.
                (pools_or_parse-Keeps parsed
                    (cached_pools (sorted_ids t parsed) s.past_elections)).keep
                  s;
          }
