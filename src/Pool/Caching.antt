-- ===== src/Pool/Caching.antt =====
-- The pool cache: what is stored, and that a reply from it is the reply that was stored.
use mathlib.Core.Option.{some-injective}
use ton_validators_rewards_a.Base.{
  ℕ, true, false, ◌≡◌, ◌↔◌, refl, sym, ap, ◌∙◌, none, some, List, arith, Option-cases, inl, inr,
}
use ton_validators_rewards_a.Base.Dict.{lookup, insert, lookup-insert}
use ton_validators_rewards_a.Outcome.{Outcome, ok, err, panic, and_then, ok_injective}
use ton_validators_rewards_a.Tlb.{
  Tongo, AccountId, account_eq, Account, no_account, account, inactive, active, GetRolesResult,
  SingleNominatorV1011Data, GetPoolDataTlb,
}
use ton_validators_rewards_a.State.{
  PoolType, unknown_type, nominator_v10, single_nominator_v10, single_nominator_v11, other_type,
  CachedPoolInfo, State, LiteClient, request,
}
use ton_validators_rewards_a.State.Requests.{request-view}
use ton_validators_rewards_a.Pool.{
  Reply, cached_reply, is_set, get_nominator_pool_pool_data, get_single_nominator_v1011_roles,
  reply_by_type, reply_by_hash, roles_reply, nominator_reply, classify, after_request,
  fetch_uncached, fetch_pool_data, store, store_other, pool_type_by_code_hash,
}

pub account_eq_iff : (a b : AccountId) → (account_eq a b ≡ true) ↔ (a ≡ b)
account_eq_iff a b = (ground arith, λ e. rw e (ground arith))

lookup-stored :
    {V : Type 0} (a : AccountId) (v : V) (d : List (AccountId × V))
    → lookup account_eq a (insert account_eq a v d) ≡ some v
lookup-stored a v d = rw (lookup-insert account_eq account_eq_iff, (account_eq_iff a a).1 refl)

-- An owner that the decoder leaves set stays set.
roles-owner :
    (t : Tongo) (r : Outcome (SingleNominatorV1011Data t.MsgAddress))
    {roles : GetRolesResult t.MsgAddress}
    → ((d : SingleNominatorV1011Data t.MsgAddress) → r ≡ ok d → is_set t d.owner_address ≡ true)
    → and_then r (λ d.
      ok (record { owner_address = d.owner_address; validator_address = d.validator_address }))
      ≡ ok roles
    → is_set t roles.owner_address ≡ true
roles-owner t (ok d) set h = rw (← ok_injective h) (set d refl)
roles-owner t (err m) set h = cc
roles-owner t panic set h = cc

module _ (t : Tongo) {W : Type 0} (addr : AccountId) where
  open t use {zero_address, unmarshal_roles}

  -- What the cache holds for the address is what was replied.
  abbrev pub IsCoherent : Outcome (Reply t) × State t W → Type 0
  IsCoherent (r, s) =
      (info : CachedPoolInfo t)
      → lookup account_eq addr s.pool_types ≡ some info
      → r ≡ ok (cached_reply t info)

  miss-IsCoherent :
      (r : Outcome (Reply t)) (s : State t W)
      → lookup account_eq addr s.pool_types ≡ none
      → IsCoherent (r, s)
  miss-IsCoherent r s miss info hit = cc

  store-IsCoherent :
      (info : CachedPoolInfo t) {reply : Reply t} (s : State t W)
      → cached_reply t info ≡ reply
      → IsCoherent (ok reply, store t addr info s)
  store-IsCoherent info s same other hit =
      rw (← some-injective _ _ (sym (lookup-stored addr info s.pool_types) ∙ hit))
        (ap ok (sym same))

  fetch_pool_data-hit :
      (client : LiteClient t W) (s : State t W) {info : CachedPoolInfo t}
      → lookup account_eq addr s.pool_types ≡ some info
      → fetch_pool_data t addr client s ≡ (ok (cached_reply t info), s)
  unfolding fetch_pool_data
  fetch_pool_data-hit client s hit = rw (hit, fetch_pool_data)

  fetch_pool_data-miss :
      (client : LiteClient t W) (s : State t W)
      → lookup account_eq addr s.pool_types ≡ none
      → fetch_pool_data t addr client s ≡ fetch_uncached t addr client s
  unfolding fetch_pool_data
  fetch_pool_data-miss client s miss = rw (miss, fetch_pool_data)

  -- The zero address is unset, and the decoder leaves no owner's address unset.
  module _ (zero_unset : is_set t zero_address ≡ false)
      (owner_set : (c : t.Cell) (d : SingleNominatorV1011Data t.MsgAddress)
        → unmarshal_roles c ≡ ok d
        → is_set t d.owner_address ≡ true) where
    other-IsCoherent :
        (s : State t W)
        → lookup account_eq addr s.pool_types ≡ none
        → IsCoherent (store_other t addr s)
    unfolding cached_reply
    other-IsCoherent s miss = store-IsCoherent _ s (rw zero_unset)

    roles-IsCoherent :
        (type : PoolType) (c : t.Cell) (r : Outcome (GetRolesResult t.MsgAddress)) (s : State t W)
        → get_single_nominator_v1011_roles t c ≡ r
        → lookup account_eq addr s.pool_types ≡ none
        → IsCoherent (roles_reply t addr type r s)
    unfolding cached_reply get_single_nominator_v1011_roles
    roles-IsCoherent type c (ok roles) s e miss =
        store-IsCoherent _ s (rw (roles-owner t (unmarshal_roles c) (owner_set c) e))
    roles-IsCoherent type c (err m) s e miss = miss-IsCoherent _ s miss
    roles-IsCoherent type c panic s e miss = miss-IsCoherent _ s miss

    nominator-IsCoherent :
        (r : Outcome GetPoolDataTlb) (s : State t W)
        → lookup account_eq addr s.pool_types ≡ none
        → IsCoherent (nominator_reply t addr r s)
    nominator-IsCoherent (ok tf) s miss = miss-IsCoherent _ s miss
    nominator-IsCoherent (err m) s miss = miss-IsCoherent _ s miss
    nominator-IsCoherent panic s miss = miss-IsCoherent _ s miss

    type-IsCoherent :
        (type : PoolType) (c : t.Cell) (s : State t W)
        → lookup account_eq addr s.pool_types ≡ none
        → IsCoherent (reply_by_type t addr type c s)
    unfolding reply_by_type
    type-IsCoherent nominator_v10 c s miss =
        nominator-IsCoherent (get_nominator_pool_pool_data t c) s miss
    type-IsCoherent single_nominator_v10 c s miss =
        roles-IsCoherent _ c (get_single_nominator_v1011_roles t c) s refl miss
    type-IsCoherent single_nominator_v11 c s miss =
        roles-IsCoherent _ c (get_single_nominator_v1011_roles t c) s refl miss
    type-IsCoherent unknown_type c s miss = other-IsCoherent s miss
    type-IsCoherent other_type c s miss = other-IsCoherent s miss

    hash-IsCoherent :
        (r : Outcome ℕ) (c : t.Cell) (s : State t W)
        → lookup account_eq addr s.pool_types ≡ none
        → IsCoherent (reply_by_hash t addr r c s)
    hash-IsCoherent (ok hash) c s miss = type-IsCoherent (pool_type_by_code_hash hash) c s miss
    hash-IsCoherent (err m) c s miss = miss-IsCoherent _ s miss
    hash-IsCoherent panic c s miss = miss-IsCoherent _ s miss

    classify-IsCoherent :
        (r : Outcome (Account t.Cell)) (s : State t W)
        → lookup account_eq addr s.pool_types ≡ none
        → IsCoherent (after_request t addr r s)
    unfolding classify
    classify-IsCoherent (err m) s miss = miss-IsCoherent _ s miss
    classify-IsCoherent panic s miss = miss-IsCoherent _ s miss
    classify-IsCoherent (ok no_account) s miss = miss-IsCoherent _ s miss
    classify-IsCoherent (ok (account grams inactive)) s miss = miss-IsCoherent _ s miss
    classify-IsCoherent (ok (account grams (active none d))) s miss = other-IsCoherent s miss
    classify-IsCoherent (ok (account grams (active (some c) none))) s miss = other-IsCoherent s miss
    classify-IsCoherent (ok (account grams (active (some c) (some d)))) s miss =
        hash-IsCoherent (t.hash256 c) d s miss

    fetch_pool_data-IsCoherent :
        (client : LiteClient t W) (s : State t W) → IsCoherent (fetch_pool_data t addr client s)
    unfolding fetch_uncached
    fetch_pool_data-IsCoherent client s =
        elim (Option-cases (lookup account_eq addr s.pool_types)) [
          | inl miss ↦
              rw (fetch_pool_data-miss client s miss)
                let m = client.account_state client.target addr in
                  let kept = request-view m (λ x. x.pool_types) (λ _ _ _. refl) s in
                  classify-IsCoherent (request m s).0 (request m s).1 (rw kept miss)
          | inr (info, hit) ↦
              rw (fetch_pool_data-hit client s hit)
                (λ other again. rw (some-injective _ _ (sym hit ∙ again)))
        ]

    -- A pool that a call leaves in the cache is answered from there by the next call, with the same
    -- reply, no request and no change of the state. The zero address has an empty SumType, and an
    -- owner that the decoder returns has one that is not empty.
    pub fetch_pool_data-again :
        (client later : LiteClient t W) (s : State t W) {info : CachedPoolInfo t}
        → lookup account_eq addr (fetch_pool_data t addr client s).1.pool_types ≡ some info
        → fetch_pool_data t addr later (fetch_pool_data t addr client s).1
          ≡ fetch_pool_data t addr client s
    fetch_pool_data-again client later s {info} hit =
        fetch_pool_data-hit later (fetch_pool_data t addr client s).1 hit ∙ (λ i. (
          sym (fetch_pool_data-IsCoherent client s info hit) i,
          (fetch_pool_data t addr client s).1,
        ))
