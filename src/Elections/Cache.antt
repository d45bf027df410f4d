-- ===== src/Elections/Cache.antt =====
-- The cache of the map: it is keyed by the ids of the elections alone.
use ton_validators_rewards_a.Base.{
  ℕ, ◌≡◌, ◌++◌, refl, ap, ◌∙◌, true, Option, none, some, List, [], ◌∷◌,
}
use ton_validators_rewards_a.Base.Int.{ℤ, eq_ℤ_refl}
use ton_validators_rewards_a.Base.Text.{codes}
use ton_validators_rewards_a.Outcome.{
  Outcome, ok, err, panic, continue, continue-ok, Keeps, Keeps-bind, Keeps-wrap, Keeps-lift,
  ok_injective, wrap, lift,
}
use ton_validators_rewards_a.Tlb.{Tongo, AccountId, VmStackValue}
use ton_validators_rewards_a.State.{PoolEntry, PastElections, State, LiteClient}
use ton_validators_rewards_a.State.Requests.{IsBlind, request-Keeps}
use ton_validators_rewards_a.Elections.{
  RawPastElection, parse_elections, as_tuple, first_value, fetch_raw_past_elections, sorted_ids,
  ids_equal, cached_pools, parse_pools, pools_or_parse, store_pools, get_all_pool_addresses,
}

ids_equal_refl : (ids : List ℤ) → ids_equal ids ids ≡ true
unfolding ids_equal
ids_equal_refl [] = refl
ids_equal_refl (x ∷ ids) = rw (eq_ℤ_refl x, ids_equal_refl ids)

module _ (t : Tongo) {W : Type 0} where
  -- The map in the cache is a parse of elections with the cached ids.
  abbrev pub Holds : List ℤ → List (ℕ × PoolEntry) → State t W → Type 0
  Holds ids pools s = cached_pools ids s.past_elections ≡ some pools

  pools_or_parse-Holds :
      (parsed : List (RawPastElection t)) (hit : Option (List (ℕ × PoolEntry))) (s : State t W)
      {pools : List (ℕ × PoolEntry)}
      → cached_pools (sorted_ids t parsed) s.past_elections ≡ hit
      → (pools_or_parse t parsed hit s).0 ≡ ok pools
      → Holds (sorted_ids t parsed) pools (pools_or_parse t parsed hit s).1
  unfolding cached_pools
  pools_or_parse-Holds parsed (some p) s e h = e ∙ ap some (ok_injective h)
  pools_or_parse-Holds parsed none s e h = by_outcome (parse_pools t parsed) h
    where
      by_outcome :
          (r : Outcome (List (ℕ × PoolEntry))) {pools : List (ℕ × PoolEntry)}
          → (continue (r, s) (store_pools t (sorted_ids t parsed))).0 ≡ ok pools
          → Holds
              (sorted_ids t parsed)
              pools
              (continue (r, s) (store_pools t (sorted_ids t parsed))).1
      by_outcome (ok p) h' = rw (ids_equal_refl (sorted_ids t parsed)) (ap some (ok_injective h'))
      by_outcome (err m) h' = cc
      by_outcome panic h' = cc

  -- Reading the elections keeps what a request keeps, so it leaves the cache alone.
  module _ {P : State t W → Type 0} (blind : IsBlind P) where
    first_value-Keeps : (stack : List (VmStackValue t.Cell t.Tuple)) → Keeps P (first_value t stack)
    first_value-Keeps [] = record { keep = λ s h. h }
    first_value-Keeps (v ∷ vs) = record { keep = λ s h. h }

    pub fetch_raw_past_elections-Keeps :
        (client : LiteClient t W) (addr : AccountId)
        → Keeps P (fetch_raw_past_elections t client addr)
    unfolding fetch_raw_past_elections
    fetch_raw_past_elections-Keeps client addr =
        Keeps-bind _ _ (Keeps-wrap _ _ (request-Keeps blind _)) λ stack.
          Keeps-bind _ _ (first_value-Keeps stack) λ top.
            Keeps-bind
              (wrap (λ e. codes "RecursiveToSlice: " ++ e)
                (lift (t.list_to_slice (as_tuple t top))))
              _ (Keeps-wrap _ _ (Keeps-lift _))
              λ elections. Keeps-lift (parse_elections t elections)

  abbrev pub IsBefore : Option PastElections → State t W → Type 0
  IsBefore before s = s.past_elections ≡ before

  pub fetch_raw_past_elections-IsBefore :
      (before : Option PastElections) (client : LiteClient t W) (addr : AccountId)
      → Keeps (IsBefore before) (fetch_raw_past_elections t client addr)
  fetch_raw_past_elections-IsBefore before =
      fetch_raw_past_elections-Keeps {P = IsBefore before} (λ s n w h. h)

  get_all_pool_addresses-step :
      (client : LiteClient t W) (addr : AccountId) (s : State t W)
      {parsed : List (RawPastElection t)}
      → (fetch_raw_past_elections t client addr s).0 ≡ ok parsed
      → get_all_pool_addresses t client addr s
        ≡ pools_or_parse t parsed
            (cached_pools
              (sorted_ids t parsed)
              (fetch_raw_past_elections t client addr s).1.past_elections)
            (fetch_raw_past_elections t client addr s).1
  unfolding get_all_pool_addresses
  get_all_pool_addresses-step client addr s first =
      continue-ok (fetch_raw_past_elections t client addr s) _ first

  -- If two calls in a row read elections with the same ids, and the first call succeeds, the second
  -- one returns the map of the first again, whatever the dictionaries of the elections hold by
  -- then.
  pub get_all_pool_addresses-again :
      (client later : LiteClient t W) (addr : AccountId) (s : State t W)
      {pools : List (ℕ × PoolEntry)} {parsed parsed' : List (RawPastElection t)}
      → (get_all_pool_addresses t client addr s).0 ≡ ok pools
      → (fetch_raw_past_elections t client addr s).0 ≡ ok parsed
      → (fetch_raw_past_elections t later addr (get_all_pool_addresses t client addr s).1).0
        ≡ ok parsed'
      → sorted_ids t parsed' ≡ sorted_ids t parsed
      → (get_all_pool_addresses t later addr (get_all_pool_addresses t client addr s).1).0
        ≡ ok pools
  get_all_pool_addresses-again client later addr s {pools} {parsed} {parsed'} got first second
        same =
      let step = get_all_pool_addresses-step client addr s first in
      let s' = (get_all_pool_addresses t client addr s).1 in
      let holds : Holds (sorted_ids t parsed) pools s' =
        rw step (pools_or_parse-Holds parsed _ _ refl (rw step at got)) in
      let kept = (fetch_raw_past_elections-IsBefore s'.past_elections later addr).keep s' refl in
      rw (get_all_pool_addresses-step later addr s' second, same, kept, holds)
