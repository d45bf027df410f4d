-- ===== src/Server/Pools.antt =====
-- What getAllPoolAddresses of service/pool.go returns in a running server.
use mathlib.Core.Path.{subst}
use ton_validators_rewards_a.Base.{
  ℕ, ◌≡◌, refl, sym, ◌∙◌, true, arith, Option, none, some, List, [], ◌∷◌, Bool-cases, inl, inr,
}
use ton_validators_rewards_a.Base.Int.{ℤ, eq_ℤ→eq}
use ton_validators_rewards_a.Outcome.{
  Outcome, ok, err, panic, continue, Ensures, Ensures-ok, Ensures-of_ok,
}
use ton_validators_rewards_a.Tlb.{Tongo, AccountId}
use ton_validators_rewards_a.State.{PoolEntry, PastElections, State, LiteClient}
use ton_validators_rewards_a.Elections.{
  RawPastElection, fetch_raw_past_elections, sorted_ids, ids_equal, cached_pools, parse_pools,
  pools_or_parse, store_pools, get_all_pool_addresses,
}
use ton_validators_rewards_a.Elections.Cache.{fetch_raw_past_elections-IsBefore}
use ton_validators_rewards_a.Stable.{IsParsed}
use ton_validators_rewards_a.Loaders.{Encoding}
use ton_validators_rewards_a.Server.{Pages}
use ton_validators_rewards_a.Server.Reach.{Run, initial}
use ton_validators_rewards_a.Server.Sound.{Run-IsSound}

ids_equal-eq : (xs ys : List ℤ) → ids_equal xs ys ≡ true → xs ≡ ys
unfolding ids_equal
ids_equal-eq [] [] h = refl
ids_equal-eq [] (y ∷ ys) h = cc
ids_equal-eq (x ∷ xs) [] h = cc
ids_equal-eq (x ∷ xs) (y ∷ ys) h =
    let first : x ≡ y = eq_ℤ→eq x y (ground arith) in
    let rest = ids_equal-eq xs ys (ground arith) in rw (first, rest) refl

-- The map is that of some elections with the ids of these.
abbrev pub IsParseFor : (t : Tongo) → List (RawPastElection t) → List (ℕ × PoolEntry) → Type 0
IsParseFor t elections pools =
    (parsed : List (RawPastElection t)) × (sorted_ids t parsed ≡ sorted_ids t elections)
    × (parse_pools t parsed ≡ ok pools)

module _ (t : Tongo) {W : Type 0} where
  stored-IsParseFor :
      (elections : List (RawPastElection t)) (r : Outcome (List (ℕ × PoolEntry))) (s : State t W)
      → parse_pools t elections ≡ r
      → Ensures (IsParseFor t elections) (continue (r, s) (store_pools t (sorted_ids t elections)))
  stored-IsParseFor elections (ok pools) s e = (elections, refl, e)
  stored-IsParseFor elections (err m) s e = tt
  stored-IsParseFor elections panic s e = tt

  pools_or_parse-IsParseFor :
      (elections : List (RawPastElection t)) (c : Option PastElections) (s : State t W)
      → IsParsed t c
      → Ensures
          (IsParseFor t elections)
          (pools_or_parse t elections (cached_pools (sorted_ids t elections) c) s)
  unfolding cached_pools
  pools_or_parse-IsParseFor elections none s h =
      stored-IsParseFor elections (parse_pools t elections) s refl
  pools_or_parse-IsParseFor elections (some c) s (parsed, ids, e) =
      elim (Bool-cases (ids_equal (sorted_ids t elections) c.election_ids)) [
        | inl same ↦
            rw (same)
              (parsed, sym ids ∙ sym (ids_equal-eq (sorted_ids t elections) c.election_ids same), e)
        | inr other ↦ rw (other) (stored-IsParseFor elections (parse_pools t elections) s refl)
      ]

  after_read :
      (x : Outcome (List (RawPastElection t)) × State t W) (c : Option PastElections)
      → x.1.past_elections ≡ c
      → IsParsed t c
      → Ensures
          (λ pools.
            (elections : List (RawPastElection t)) × (x.0 ≡ ok elections)
            × IsParseFor t elections pools)
          (continue x (λ elections s'.
            pools_or_parse t elections
              (cached_pools (sorted_ids t elections) s'.past_elections)
              s'))
  after_read (ok elections, s') c kept h =
      let y =
        pools_or_parse t elections (cached_pools (sorted_ids t elections) s'.past_elections) s' in
      Ensures-of_ok _ y (λ pools e. (
        elections,
        refl,
        Ensures-ok (IsParseFor t elections) y
            (pools_or_parse-IsParseFor elections s'.past_elections s'
              (subst (IsParsed t) (sym kept) h))
            e,
      ))
  after_read (err m, s') c kept h = tt
  after_read (panic, s') c kept h = tt

-- In every state that the moves of a server lead to from the start with empty caches, a map that
-- getAllPoolAddresses returns is the one that is parsed from elections with the same sorted ids as
-- those of the elections that it has read now, be it from the cache or not.
pub get_all_pool_addresses-IsParse :
    {t : Tongo} {W : Type 0} (enc : Encoding t) (pages : Pages) (w : W) {s : State t W}
    → Run enc pages (initial w) s
    → (client : LiteClient t W) (addr : AccountId) {pools : List (ℕ × PoolEntry)}
    → (get_all_pool_addresses t client addr s).0 ≡ ok pools
    → (elections : List (RawPastElection t)) × ((fetch_raw_past_elections t client addr s).0
        ≡ ok elections)
      × IsParseFor t elections pools
unfolding get_all_pool_addresses
get_all_pool_addresses-IsParse {t} enc pages w {s} run client addr =
    Ensures-ok _ (get_all_pool_addresses t client addr s) (
      after_read t (fetch_raw_past_elections t client addr s) s.past_elections
        ((fetch_raw_past_elections-IsBefore t s.past_elections client addr).keep s refl)
        (Run-IsSound enc pages w run).0)
