-- ===== src/Rounds/Fetched.antt =====
-- The pools that fetchRoundData returns are as the parser makes them.
use ton_validators_rewards_a.Base.{ℕ, ◌++◌, ◌≡◌, refl, Option, List}
use ton_validators_rewards_a.Base.Text.{codes}
use ton_validators_rewards_a.Outcome.{
  Outcome, ok, err, panic, Error, continue, map_error, wrap, lift, attempt, Ensures,
  continue-Ensures, continue-Ensures_any, continue-Ensures_state,
}
use ton_validators_rewards_a.Tlb.{Tongo, BlockIdExt, elector_addr}
use ton_validators_rewards_a.State.{PoolEntry, State, LiteClient}
use ton_validators_rewards_a.Elections.{fetch_raw_past_elections, get_all_pool_addresses}
use ton_validators_rewards_a.Elections.Valid.{Valid, IsValid, get_all_pool_addresses-Valid}
use ton_validators_rewards_a.Rounds.Lookup.{Loaders}
use ton_validators_rewards_a.Rounds.Report.{list_or_empty, round_config, fetch_round_data}

attempt-Valid :
    {S : Type 0} (x : Outcome (List (ℕ × PoolEntry)) × S)
    → Ensures Valid x
    → Ensures (λ r. Valid (list_or_empty r)) (attempt (λ (_ : S). x) x.1)
attempt-Valid (ok p, s) h = h
attempt-Valid (err e, s) h = tt
attempt-Valid (panic, s) h = tt

module _ {t : Tongo} {W : Type 0} (l : Loaders t (State t W)) where
  -- Reading the config changes the state by the look-up only.
  after_params :
      (f g : Error → Error) (x : Outcome t.ConfigParams × State t W)
      → (continue
          (map_error f x.0, x.1)
          (λ params. wrap g (lift (t.convert_blockchain_config params)))).1
        ≡ x.1
  after_params f g (ok p, s) = refl
  after_params f g (err e, s) = refl
  after_params f g (panic, s) = refl

  module _
      (keeps : (ext : Option BlockIdExt) (seqno : ℕ) (s : State t W)
        → IsValid s.past_elections
        → IsValid (l.cached_get_config_params ext seqno s).1.past_elections) where
    round_config-IsValid :
        (pinned : LiteClient t W) (seqno : ℕ) (s : State t W)
        → IsValid s.past_elections
        → IsValid (round_config l pinned seqno s).1.past_elections
    round_config-IsValid pinned seqno s h =
        rw
          (after_params (λ e. codes "GetConfigParams: " ++ e)
            (λ e. codes "ConvertBlockchainConfig: " ++ e)
            (l.cached_get_config_params pinned.target seqno s))
          (keeps pinned.target seqno s h)

    pub fetch_round_data-Valid :
        (here after : LiteClient t W) (seqno : ℕ) (s : State t W)
        → IsValid s.past_elections
        → Ensures (λ rd. Valid rd.pools) (fetch_round_data l here after seqno s)
    unfolding fetch_round_data
    fetch_round_data-Valid here after seqno s h =
        continue-Ensures_state (λ w. IsValid w.past_elections) (λ rd. Valid rd.pools)
          (attempt (round_config l here seqno) s) _ (round_config-IsValid here seqno s h)
          (λ conf w valid.
            continue-Ensures (λ r. Valid (list_or_empty r)) (λ rd. Valid rd.pools)
              (attempt (get_all_pool_addresses t here elector_addr) w) _
              (attempt-Valid (get_all_pool_addresses t here elector_addr w)
                (get_all_pool_addresses-Valid t here elector_addr w valid))
              (λ pools w2 all.
                continue-Ensures_any (λ rd. Valid rd.pools)
                  (attempt (fetch_raw_past_elections t after elector_addr) w2) _
                  (λ elections w3.
                    continue-Ensures_any (λ rd. Valid rd.pools) (conf, w3) _ (λ c w4. all))))
