-- ===== src/Pool/Clean.antt =====
-- Which pools the cache may hold.
use ton_validators_rewards_a.Base.{ℕ, ◌≢◌, none, some, All, Option-cases, inl, inr}
use ton_validators_rewards_a.Base.Dict.{lookup, insert-All}
use ton_validators_rewards_a.Outcome.{Outcome, ok, err, panic, Keeps}
use ton_validators_rewards_a.Tlb.{
  Tongo, AccountId, account_eq, Account, no_account, account, inactive, active, GetRolesResult,
  GetPoolDataTlb,
}
use ton_validators_rewards_a.State.{
  PoolType, unknown_type, nominator_v10, single_nominator_v10, single_nominator_v11, other_type,
  CachedPoolInfo, State, LiteClient, request,
}
use ton_validators_rewards_a.State.Requests.{IsBlind, request-Keeps}
use ton_validators_rewards_a.Pool.{
  get_nominator_pool_pool_data, get_single_nominator_v1011_roles, reply_by_type, reply_by_hash,
  roles_reply, nominator_reply, classify, after_request, fetch_uncached, fetch_pool_data, store,
  pool_type_by_code_hash,
}

-- No nominator pool is in the cache: their data has to be read anew for each request.
abbrev pub IsClean : {t : Tongo} {W : Type 0} → State t W → Type 0
IsClean {t} s = All (λ (e : AccountId × CachedPoolInfo t). e.1.type ≢ nominator_v10) s.pool_types

-- A property that a request keeps, and the storing of any pool but a nominator pool, is kept.
module _ (t : Tongo) {W : Type 0} {P : State t W → Type 0} (blind : IsBlind P)
    (stored : (addr : AccountId) (info : CachedPoolInfo t) (s : State t W)
      → info.type ≢ nominator_v10
      → P s
      → P (store t addr info s))
    (addr : AccountId) where
  roles_keep :
      (type : PoolType) (r : Outcome (GetRolesResult t.MsgAddress)) (s : State t W)
      → type ≢ nominator_v10
      → P s
      → P (roles_reply t addr type r s).1
  roles_keep type (ok roles) s fits h = stored addr _ s fits h
  roles_keep type (err m) s fits h = h
  roles_keep type panic s fits h = h

  nominator_keeps :
      (r : Outcome GetPoolDataTlb) (s : State t W) → P s → P (nominator_reply t addr r s).1
  nominator_keeps (ok tf) s h = h
  nominator_keeps (err m) s h = h
  nominator_keeps panic s h = h

  type_keeps :
      (type : PoolType) (c : t.Cell) (s : State t W) → P s → P (reply_by_type t addr type c s).1
  unfolding reply_by_type
  type_keeps nominator_v10 c s h = nominator_keeps (get_nominator_pool_pool_data t c) s h
  type_keeps single_nominator_v10 c s h =
      roles_keep _ (get_single_nominator_v1011_roles t c) s (λ e. cc) h
  type_keeps single_nominator_v11 c s h =
      roles_keep _ (get_single_nominator_v1011_roles t c) s (λ e. cc) h
  type_keeps unknown_type c s h = stored addr _ s (λ e. cc) h
  type_keeps other_type c s h = stored addr _ s (λ e. cc) h

  hash_keeps : (r : Outcome ℕ) (c : t.Cell) (s : State t W) → P s → P (reply_by_hash t addr r c s).1
  hash_keeps (ok hash) c s h = type_keeps (pool_type_by_code_hash hash) c s h
  hash_keeps (err m) c s h = h
  hash_keeps panic c s h = h

  pub classify_keeps :
      (r : Outcome (Account t.Cell)) (s : State t W) → P s → P (after_request t addr r s).1
  unfolding classify
  classify_keeps (err m) s h = h
  classify_keeps panic s h = h
  classify_keeps (ok no_account) s h = h
  classify_keeps (ok (account grams inactive)) s h = h
  classify_keeps (ok (account grams (active none d))) s h = stored addr _ s (λ e. cc) h
  classify_keeps (ok (account grams (active (some c) none))) s h = stored addr _ s (λ e. cc) h
  classify_keeps (ok (account grams (active (some c) (some d)))) s h =
      hash_keeps (t.hash256 c) d s h

  pub fetch_pool_data-Keeps : (client : LiteClient t W) → Keeps P (fetch_pool_data t addr client)
  unfolding fetch_pool_data fetch_uncached
  fetch_pool_data-Keeps client = record {
    keep = λ s h. elim (Option-cases (lookup account_eq addr s.pool_types)) [
      | inl miss ↦
          rw (miss, fetch_pool_data)
            (let m = client.account_state client.target addr in
              classify_keeps (request m s).0 (request m s).1 ((request-Keeps blind m).keep s h))
      | inr (info, hit) ↦ rw (hit, fetch_pool_data) h
    ];
  }

module _ (t : Tongo) {W : Type 0} where
  pub store-IsClean :
      (addr : AccountId) (info : CachedPoolInfo t) (s : State t W)
      → info.type ≢ nominator_v10
      → IsClean s
      → IsClean (store t addr info s)
  store-IsClean addr info s fits h =
      insert-All account_eq (λ i. i.type ≢ nominator_v10) addr info s.pool_types fits h
