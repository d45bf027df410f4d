-- ===== src/Loaders/Tests.antt =====
-- Look-ups of configs on the sample chain.
use ton_validators_rewards_a.Base.{◌≡◌, refl, sym, ◌∙◌, ◌+◌, none, some, [], ◌∷◌}
use ton_validators_rewards_a.Outcome.{ok}
use ton_validators_rewards_a.Retry.{retry_loop, is_permanent_error}
use ton_validators_rewards_a.State.{request}
use ton_validators_rewards_a.Loaders.{
  each, config_batch, config_result, parse_param_list, new_config_params_key,
  cached_get_config_params, lookup_masterchain_block, seqno_batch, seqno_result, ConfigParamsKey,
  named,
}
use ton_validators_rewards_a.Loaders.Errors.{loader_result, cached_get_config_params-masks}
use ton_validators_rewards_a.Loaders.Sample.{encoding, data_loaders, net}
use ton_validators_rewards_a.Sample.{fresh, tongo, block}
use ton_validators_rewards_a.Base.{ℕ}
use ton_validators_rewards_a.Base.Int.{pos}
use ton_validators_rewards_a.Base.Text.{codes, contains, has_prefix}
use ton_validators_rewards_a.Outcome.{err, Error}
use ton_validators_rewards_a.State.{count_rpc}
use ton_validators_rewards_a.Chain.{get_round_info}
use ton_validators_rewards_a.Rounds.Lookup.{lookup_election_id_for_block, get_config_param34}
use ton_validators_rewards_a.Rounds.Boundary.{
  find_election_boundary, walk, forward, look_around, look_block,
}
use ton_validators_rewards_a.Rounds.Adjacent.{IsBoundary}
use ton_validators_rewards_a.Loaders.{
  DataLoaders, LoaderClient, lookups, lookup_masterchain_block_by_utime, utime_batch, utime_result,
}
use ton_validators_rewards_a.Loaders.Sample.{
  uncached, encoding-IsEncoding, net-IsHonest, uncached-GivesBatched,
}
use ton_validators_rewards_a.Loaders.Boundaries.{lookups-IsBoundary}
use ton_validators_rewards_a.Loaders.Global.{
  LoaderLibrary, loaders_of, make_loaders, with_loaders, after_calls, with_loaders-first,
}

found :
    (cached_get_config_params encoding (some data_loaders) net none 0 (34 ∷ []) 7 fresh).0 ≡ ok 7
unfolding cached_get_config_params config_batch config_result parse_param_list new_config_params_key
    each lookup_masterchain_block seqno_batch seqno_result request retry_loop
found = refl

-- A network that knows the blocks but not their config.
abbrev no_configs : DataLoaders tongo ℕ
no_configs = record data_loaders {
  client = record net { get_config_params = λ ext mode params w. (err (codes "closed"), w + 1) };
}

abbrev key_of_7 : ConfigParamsKey
key_of_7 = new_config_params_key encoding 0 (34 ∷ []) 7

closed :
    (loader_result encoding no_configs key_of_7 fresh).0 ≡ err (named key_of_7 (codes ": closed"))
unfolding config_batch config_result parse_param_list new_config_params_key each request retry_loop
    is_permanent_error contains has_prefix lookup_masterchain_block seqno_batch seqno_result
    count_rpc
closed = refl

cached_get_config_params-masks_example :
    let loaded = loader_result encoding no_configs key_of_7 fresh in
    (e : Error) × (loaded.0 ≡ err e)
    × (cached_get_config_params encoding (some no_configs) net none 0 (34 ∷ []) 7 fresh
        ≡ (err (codes "invalid magic prefix"), loaded.1))
cached_get_config_params-masks_example =
    cached_get_config_params-masks encoding no_configs (λ ext mode param_list w. tt) refl
      (uncached-GivesBatched _) net none 0 (34 ∷ []) 7 fresh (λ h. let c = sym closed ∙ h in cc)

-- The election changes at block 101.
bounded :
    (find_election_boundary (lookups encoding (some data_loaders) net) 1002 fresh).0
    ≡ ok (record {
      before_block = block 100;
      before_election_id = pos 1001;
      after_block = block 101;
      after_election_id = pos 1002;
    })
unfolding find_election_boundary walk forward look_around look_block lookup_election_id_for_block
    get_config_param34 get_round_info lookup_masterchain_block lookup_masterchain_block_by_utime
    cached_get_config_params config_batch config_result parse_param_list new_config_params_key each
    seqno_batch seqno_result utime_batch utime_result request retry_loop count_rpc
bounded = refl

lookups-IsBoundary_example :
    IsBoundary tongo
      (λ n. n)
      (record {
        before_block = block 100;
        before_election_id = pos 1001;
        after_block = block 101;
        after_election_id = pos 1002;
      })
lookups-IsBoundary_example =
    lookups-IsBoundary (λ n. n) encoding encoding-IsEncoding data_loaders net-IsHonest
      (uncached-GivesBatched _) (uncached-GivesBatched _) (uncached-GivesBatched _) net 1002 fresh
      bounded

abbrev library : LoaderLibrary tongo ℕ
library = record {
  Cache = ℕ;
  new_lru = λ size. ok size;
  new_batched_loader = λ capacity cache. uncached;
}

-- A later client, whose requests all fail.
abbrev broken : LoaderClient tongo ℕ
broken = record {
  lookup_block = λ id mode utime s. (err (codes "closed"), s);
  get_config_params = λ ext mode params w. (err (codes "closed"), w);
}

abbrev made_for : DataLoaders tongo ℕ
made_for = loaders_of library net 1000 1000 1000

with_loaders-first_example :
    let global_loaders = after_calls library (broken ∷ []) (with_loaders library net none).1 in
    (with_loaders library broken global_loaders ≡ (ok made_for, some made_for))
    × (made_for.client ≡ net)
    × (lookups encoding global_loaders broken ≡ lookups encoding (some made_for) net)
unfolding with_loaders make_loaders
with_loaders-first_example = with_loaders-first library encoding net broken (broken ∷ []) refl
