-- ===== src/Client/Tests.antt =====
-- A week of a service whose config comes from a file.
use mathlib.Core.Option.{some-injective}
use mathlib.Core.Path.{subst}
use ton_validators_rewards_a.Base.{
  ℕ, ◌+◌, ◌*◌, ◌^◌, ◌-◌, ◌<◌, ◌≡◌, refl, none, some, List, [], ◌∷◌, ◌==◌, if◌then◌else◌, arith,
}
use ton_validators_rewards_a.Base.Text.{Text, codes, has_prefix}
use ton_validators_rewards_a.Outcome.{ok, err}
use ton_validators_rewards_a.RoundRobin.{RoundRobinClient}
use ton_validators_rewards_a.Client.{
  Outside, CachedConfig, Process, Running, cache_ttl, load_config, load_config_from_file,
  get_cached_config, connect_all, new_round_robin_client, new_client, current_client,
}
use ton_validators_rewards_a.Client.Config.{
  get_cached_config-again, IsStored, get_cached_config-IsStored,
}
use ton_validators_rewards_a.Client.Refresh.{IsCurrent, current_client-IsCurrent}

-- The world is the time. A file is its path; server 2 cannot be connected to.
abbrev outer : Outside ℕ
outer = record {
  File = Text;
  Reply = Text;
  Conf = List ℕ;
  Server = ℕ;
  Conn = ℕ;
  now = λ w. (w, w + 1);
  read_file = λ path w. (ok path, w + 5);
  http_get = λ url w. (err (codes "no network"), w + 5);
  read_all = λ reply w. (ok reply, w);
  parse_config = λ file. ok (1 ∷ 2 ∷ 3 ∷ []);
  lite_servers = λ conf. conf;
  connect = λ server w. if server == 2 then (err (codes "refused"), w) else (ok server, w);
}

abbrev path : Text
path = codes "config.json"

abbrev start : Process (List ℕ) ℕ
start = record { global_config_cache = none; world = 100 }

abbrev stored : CachedConfig (List ℕ)
stored = record { conf = 1 ∷ 2 ∷ 3 ∷ []; fetched_at = 105; config_path = path }

abbrev later : Process (List ℕ) ℕ
later = record { global_config_cache = some stored; world = 100 + cache_ttl }

loaded :
    get_cached_config outer path start
    ≡ (ok (1 ∷ 2 ∷ 3 ∷ []), record { global_config_cache = some stored; world = 106 })
unfolding get_cached_config load_config load_config_from_file has_prefix
loaded = refl

get_cached_config-again_example :
    get_cached_config outer path later
    ≡ (ok (1 ∷ 2 ∷ 3 ∷ []), record later { world = 101 + cache_ttl })
unfolding get_cached_config load_config load_config_from_file has_prefix
get_cached_config-again_example =
    get_cached_config-again outer path start later (1 ∷ 2 ∷ 3 ∷ []) refl refl (λ c e.
      subst (λ (x : CachedConfig (List ℕ)). 100 + cache_ttl - x.fetched_at < cache_ttl)
        (some-injective _ _ e) (omega arith))

get_cached_config-IsStored_example :
    IsStored outer path (some stored) (get_cached_config outer path later)
get_cached_config-IsStored_example = get_cached_config-IsStored outer path later

abbrev made : RoundRobinClient ℕ
made = record { entries = 1 ∷ 3 ∷ []; counter = 0; target_block = none }

connected :
    new_client outer path start
    ≡ (ok made, record { global_config_cache = some stored; world = 106 })
unfolding new_client new_round_robin_client get_cached_config load_config load_config_from_file
    has_prefix connect_all
connected = refl

-- Eight days behind, with a config that is downloaded: the client stays.
abbrev running : Running outer
running = record {
  service = record { client = made; client_init_at = 100; config_path = [] };
  process = record { global_config_cache = none; world = 8 * 24 * 3600 * 10 ^ 9 };
}

current_client-IsCurrent_example : IsCurrent outer (current_client outer running)
current_client-IsCurrent_example = current_client-IsCurrent outer running (omega arith)
