-- ===== src/Pool.antt =====
-- service/pool.go, fetchPoolData: the type of a pool by its code hash, its data, and the cache of
-- what does not change.
pub mod Caching
pub mod Clean
pub mod Nominators
mod Tests
use ton_validators_rewards_a.Base.{
  ℕ, Bool, true, false, ◌||◌, not, Option, none, some, List, [], ◌∷◌, map, ◌==◌, if◌then◌else◌,
}
use ton_validators_rewards_a.Base.Int.{ℤ, pos, ◌+ℤ◌}
use ton_validators_rewards_a.Base.Text.{Text, codes, text_eq}
use ton_validators_rewards_a.Base.Dict.{lookup, insert}
use ton_validators_rewards_a.Outcome.{Outcome, ok, err, panic, Action, pure, and_then}
use ton_validators_rewards_a.Tlb.{
  Tongo, AccountId, account_eq, Account, no_account, account, AccountStatus, inactive, active,
  GetPoolDataTlb, PackedNominatorData, GetRolesResult,
}
use ton_validators_rewards_a.State.{
  PoolType, unknown_type, nominator_v10, single_nominator_v10, single_nominator_v11, other_type,
  CachedPoolInfo, State, LiteClient, request,
}

unfoldable pub pool_type_name : PoolType → Text
pool_type_name unknown_type = []
pool_type_name nominator_v10 = codes "nominator-pool-v1.0"
pool_type_name single_nominator_v10 = codes "single-nominator-pool-v1.0"
pool_type_name single_nominator_v11 = codes "single-nominator-pool-v1.1"
pool_type_name other_type = codes "other"

abbrev pub nominator_pool_code_hash : ℕ
nominator_pool_code_hash = 0x9a3ec14bc098f6b44064c305222caea2800f17dda85ee6a8198a7095ede10dcf

abbrev pub single_nominator_v10_code_hash : ℕ
single_nominator_v10_code_hash = 0xa42ae69eac76ffe0e452d3d4f13d387a14e46c01a5aadba5fc1d893e6c71f5ba

abbrev pub single_nominator_v11_code_hash : ℕ
single_nominator_v11_code_hash = 0xcc0d39589eb2c0cfe0fde28456657a3bdd3d953955ae3f98f25664ab3c904fbd

unfoldable pub pool_type_by_code_hash : ℕ → PoolType
pool_type_by_code_hash hash =
    if hash == nominator_pool_code_hash
    then nominator_v10
    else if hash == single_nominator_v10_code_hash
    then single_nominator_v10
    else if hash == single_nominator_v11_code_hash
    then single_nominator_v11
    else unknown_type

pub record NominatorData : Type 0 where
  pub address : ℕ
  pub amount : ℕ
  pub pending_deposit_amount : ℕ
  pub withdraw_requested : Bool

-- poolData. The amounts are nil and the slice is nil but for nominator pools.
pub record PoolData (t : Tongo) : Type 0 where
  pub validator_amount : Option ℤ
  pub nominators_amount : Option ℤ
  pub reward_share : ℕ
  pub nominators_count : ℕ
  pub validator_address : ℕ
  pub owner_address : t.MsgAddress
  pub validator_wallet_address : t.MsgAddress
  pub nominators : Option (List NominatorData)

has_key : ℕ → List ℕ → Bool
has_key k [] = false
has_key k (j ∷ js) = j == k || has_key k js

-- One entry of the dictionary, with the look-up among the withdraw requests.
unfoldable pub nominator_data : List ℕ → ℕ × PackedNominatorData → NominatorData
unfolding has_key
nominator_data requests (key, n) = record {
  address = key;
  amount = n.amount;
  pending_deposit_amount = n.pending_deposit_amount;
  withdraw_requested = has_key key requests;
}

-- The loop that adds up the amounts.
add_amounts : ℤ → List NominatorData → ℤ
add_amounts acc [] = acc
add_amounts acc (n ∷ ns) = add_amounts (acc +ℤ pos n.amount) ns

module _ (t : Tongo) where
  open t use {MsgAddress, zero_address, sum_type, hash256, unmarshal_pool, unmarshal_roles}

  unfoldable pub get_nominator_pool_pool_data : t.Cell → Outcome GetPoolDataTlb
  get_nominator_pool_pool_data contract_data = unmarshal_pool contract_data

  unfoldable pub get_single_nominator_v1011_roles : t.Cell → Outcome (GetRolesResult MsgAddress)
  get_single_nominator_v1011_roles contract_data =
      and_then (unmarshal_roles contract_data) λ d.
        ok (record { owner_address = d.owner_address; validator_address = d.validator_address })

  unfoldable pub nominator_pool_data : GetPoolDataTlb → PoolData t
  unfolding nominator_data add_amounts
  nominator_pool_data tf =
      let noms = map (nominator_data tf.withdraw_requests) tf.nominators in
      record {
        validator_amount = some (pos tf.validator_amount);
        nominators_amount = some (add_amounts (pos 0) noms);
        reward_share = tf.config.validator_reward_share;
        nominators_count = tf.nominators_count;
        validator_address = tf.config.validator_address;
        owner_address = zero_address;
        validator_wallet_address = zero_address;
        nominators = some noms;
      }

  abbrev pub address_pool_data : ℕ → MsgAddress → MsgAddress → PoolData t
  address_pool_data validator owner wallet = record {
    validator_amount = none;
    nominators_amount = none;
    reward_share = 0;
    nominators_count = 0;
    validator_address = validator;
    owner_address = owner;
    validator_wallet_address = wallet;
    nominators = none;
  }

  abbrev pub is_set : MsgAddress → Bool
  is_set a = not (text_eq (sum_type a) [])

  -- The fast path.
  unfoldable pub cached_reply : CachedPoolInfo t → PoolType × Option (PoolData t)
  cached_reply info =
      if not (info.validator_address == 0)
        || (is_set info.owner_address || is_set info.validator_wallet_address)
      then (
        info.type,
        some (
            address_pool_data info.validator_address info.owner_address
              info.validator_wallet_address),
      )
      else (info.type, none)

  abbrev pub Reply : Type 0
  Reply = PoolType × Option (PoolData t)

  module _ {W : Type 0} (addr : AccountId) where
    abbrev pub store : CachedPoolInfo t → State t W → State t W
    store info s = record s { pool_types = insert account_eq addr info s.pool_types }

    abbrev pub store_other : Action (State t W) Reply
    store_other s = (
      ok (other_type, none),
      store
          (record {
            type = other_type;
            validator_address = 0;
            owner_address = zero_address;
            validator_wallet_address = zero_address;
          })
          s,
    )

    abbrev pub nominator_reply : Outcome GetPoolDataTlb → Action (State t W) Reply
    nominator_reply (ok tf) s = (ok (nominator_v10, some (nominator_pool_data tf)), s)
    nominator_reply (err e) s = (ok (nominator_v10, none), s)
    nominator_reply panic s = (panic, s)

    abbrev pub roles_reply :
        PoolType → Outcome (GetRolesResult MsgAddress) → Action (State t W) Reply
    roles_reply type (ok roles) s = (
      ok (type, some (address_pool_data 0 roles.owner_address roles.validator_address)),
      store
          (record {
            type = type;
            validator_address = 0;
            owner_address = roles.owner_address;
            validator_wallet_address = roles.validator_address;
          })
          s,
    )
    roles_reply type (err e) s = (ok (type, none), s)
    roles_reply type panic s = (panic, s)

    -- The switch on the pool type.
    unfoldable pub reply_by_type : PoolType → t.Cell → Action (State t W) Reply
    unfolding get_nominator_pool_pool_data get_single_nominator_v1011_roles
    reply_by_type nominator_v10 contract_data =
        nominator_reply (get_nominator_pool_pool_data contract_data)
    reply_by_type single_nominator_v10 contract_data =
        roles_reply single_nominator_v10 (get_single_nominator_v1011_roles contract_data)
    reply_by_type single_nominator_v11 contract_data =
        roles_reply single_nominator_v11 (get_single_nominator_v1011_roles contract_data)
    reply_by_type unknown_type contract_data = store_other
    reply_by_type other_type contract_data = store_other

    abbrev pub reply_by_hash : Outcome ℕ → t.Cell → Action (State t W) Reply
    reply_by_hash (ok hash) contract_data s =
        reply_by_type (pool_type_by_code_hash hash) contract_data s
    reply_by_hash (err e) contract_data s = (ok (unknown_type, none), s)
    reply_by_hash panic contract_data s = (panic, s)

    -- From the account's state on.
    unfoldable pub classify : Account t.Cell → Action (State t W) Reply
    unfolding reply_by_type
    classify no_account s = (ok (unknown_type, none), s)
    classify (account grams inactive) s = (ok (unknown_type, none), s)
    classify (account grams (active none contract_data)) s = store_other s
    classify (account grams (active (some code) none)) s = store_other s
    classify (account grams (active (some code) (some contract_data))) s =
        reply_by_hash (hash256 code) contract_data s

    abbrev pub after_request : Outcome (Account t.Cell) → Action (State t W) Reply
    after_request (ok st) s = classify st s
    after_request (err e) s = (ok (unknown_type, none), s)
    after_request panic s = (panic, s)

    unfoldable pub fetch_uncached : LiteClient t W → Action (State t W) Reply
    unfolding classify
    fetch_uncached client s =
        let (r, s') = request (client.account_state client.target addr) s in after_request r s'

    unfoldable pub fetch_pool_data : LiteClient t W → Action (State t W) Reply
    unfolding fetch_uncached cached_reply
    fetch_pool_data client s = elim (lookup account_eq addr s.pool_types) [
      | some info ↦ (ok (cached_reply info), s)
      | none ↦ fetch_uncached client s
    ]
