-- ===== src/Server/Tests.antt =====
-- A request for a round, as the server answers it.
use ton_validators_rewards_a.Base.{ℕ, List, ◌∷◌, ◌+◌, none, ◌≡◌, refl, [], if◌then◌else◌}
use ton_validators_rewards_a.Base.Text.{Text, has_prefix, codes, text_eq}
use ton_validators_rewards_a.Outcome.{err, ok}
use ton_validators_rewards_a.State.{State, with_rpc_counter}
use ton_validators_rewards_a.Api.{Params, serve, handle_round_rewards}
use ton_validators_rewards_a.Sample.{tongo, clock, client, report_in}
use ton_validators_rewards_a.Rounds.Report.{
  fetch_round_rewards, finished_round, report_round, fetch_round_data, find_election,
}
use ton_validators_rewards_a.Loaders.Sample.{encoding, data_loaders, net, uncached-LoadsByBatch}
use ton_validators_rewards_a.Api.{result_body, parse_query, uint_param, int_param, count_true}
use ton_validators_rewards_a.Strconv.{parse_uint, parse_digits}
use ton_validators_rewards_a.State.{count_rpc, request}
use ton_validators_rewards_a.Loaders.{
  lookup_masterchain_block, lookup_masterchain_block_by_utime, cached_get_config_params,
  config_batch, config_result, parse_param_list, new_config_params_key, each, seqno_batch,
  seqno_result, utime_batch, utime_result,
}
use ton_validators_rewards_a.Rounds.Boundary.{
  find_election_boundary, walk, forward, look_around, look_block,
}
use ton_validators_rewards_a.Rounds.Lookup.{lookup_election_id_for_block, get_config_param34}
use ton_validators_rewards_a.Rounds.Anchor.{get_anchor_ext}
use ton_validators_rewards_a.Base.Int.{◌+ℤ◌, ◌*ℤ◌, div_ℤ}
use ton_validators_rewards_a.Base.Sort.{sort_slice}
use ton_validators_rewards_a.Math.{mul_div, inaccurate_div_float}
use ton_validators_rewards_a.Retry.{retry_loop}
use ton_validators_rewards_a.Chain.{get_round_info, extract_validators}
use ton_validators_rewards_a.Elections.{
  pools_or_parse, get_all_pool_addresses, fetch_raw_past_elections, parse_elections, parse_fields,
  extract_big_int, parse_pools, all_elections, merge_elections, merge_members, pool_entry,
  cached_pools,
}
use ton_validators_rewards_a.Rewards.{
  build_validator_rows, make_row, total_true_stake, compute_validator_rewards,
  validator_rewards_from, validator_reward, reward_rows, row_reward, validator_weight,
}
use ton_validators_rewards_a.Outcome.{Ensures}
use ton_validators_rewards_a.Stable.{IsSound}
use ton_validators_rewards_a.Tlb.{AccountId, account, active, cell, elector_addr}
use ton_validators_rewards_a.Pool.{after_request}
use ton_validators_rewards_a.State.{PoolEntry}
use ton_validators_rewards_a.Elections.{RawPastElection}
use ton_validators_rewards_a.Server.Pools.{IsParseFor, get_all_pool_addresses-IsParse}
use ton_validators_rewards_a.Base.Int.{pos, negsuc}
use ton_validators_rewards_a.Client.{
  Outside, Process, new_client, new_round_robin_client, get_cached_config, load_config,
  load_config_from_file, download_config, connect_all, new_service,
}
use ton_validators_rewards_a.Server.Start.{IsStarted, start-IsStarted}
use ton_validators_rewards_a.Server.{
  start, port_of, rewards_answer, Pages, rewards_route, serve_route, service_of,
}
use ton_validators_rewards_a.Server.Reach.{
  Request, IsLoading, answer, initial, Run, begun, moved, other_turn, pool_replied, elections_read,
  answered,
}
use ton_validators_rewards_a.Server.Sound.{Run-Reach, Run-IsSound}
use ton_validators_rewards_a.Server.Shares.{Shares, answer-Shares}

-- ?block=50&shallow=1
abbrev by_block : Params
by_block name =
    if text_eq name (codes "block")
    then codes "50"
    else if text_eq name (codes "shallow")
    then codes "1"
    else []

abbrev pages : Pages
pages = record { openapi_spec = codes "openapi"; swagger_html = codes "<html>" }

abbrev ask : Request tongo ℕ
ask = record {
  loaders = data_loaders;
  own = net;
  client = client 1;
  clock = clock;
  elapsed = 7;
  params = by_block;
  route = rewards_route;
}

loading : IsLoading data_loaders
loading = record {
  by_utime = λ P blind. uncached-LoadsByBatch P;
  by_seqno = λ P blind. uncached-LoadsByBatch P;
  by_key = λ P blind. uncached-LoadsByBatch P;
}

-- The answer for block 50, after 7 milliseconds.
paid_out :
    (answer encoding pages ask (initial 0)).0
    ≡ ok (rewards_answer (record { code = 200; body = result_body (report_in 7) }))
unfolding serve_route handle_round_rewards service_of parse_query uint_param int_param count_true
    text_eq parse_uint parse_digits serve with_rpc_counter lookup_masterchain_block
    lookup_masterchain_block_by_utime cached_get_config_params config_batch config_result
    parse_param_list new_config_params_key each seqno_batch seqno_result utime_batch utime_result
    count_rpc fetch_round_rewards finished_round report_round fetch_round_data find_election
    get_all_pool_addresses fetch_raw_past_elections parse_elections parse_fields extract_big_int
    parse_pools all_elections merge_elections merge_members pool_entry cached_pools request
    retry_loop sort_slice get_round_info extract_validators build_validator_rows make_row
    total_true_stake compute_validator_rewards validator_rewards_from validator_reward reward_rows
    row_reward validator_weight inaccurate_div_float mul_div div_ℤ ◌*ℤ◌ ◌+ℤ◌ get_anchor_ext
    find_election_boundary walk forward look_around look_block lookup_election_id_for_block
    get_config_param34
paid_out = refl

-- After this request, and a change of the network.
abbrev later : State tongo ℕ
later = record (answer encoding pages ask (initial 0)).1 { rpc_count = none; net = 1000 }

running : Run encoding pages (initial 0) later
running = moved (moved begun (answered ask loading)) (other_turn none 1000)

-- Then a reply arrives for a pool without code, and one on elections that are not in the cache.
abbrev pool : AccountId
pool = record { workchain = pos 0; address = 5 }

abbrev busy : State tongo ℕ
busy =
    (pools_or_parse tongo [] none
      (after_request tongo pool (ok (account 9 (active none none))) later).1).1

Run-IsSound_example : IsSound busy
Run-IsSound_example = Run-IsSound encoding pages 0 (
    moved (moved running (pool_replied pool (ok (account 9 (active none none)))))
      (elections_read []))

abbrev raw : (id dict : ℕ) → RawPastElection tongo
raw id dict = record {
  elect_at = pos id;
  frozen_dict = cell dict;
  total_stake = none;
  bonuses = none;
}

-- Once, both elections had the dictionary 1. The second has another one by now.
abbrev earlier : List (RawPastElection tongo)
earlier = raw 1001 1 ∷ raw 1002 1 ∷ []

abbrev remembered : State tongo ℕ
remembered = (pools_or_parse tongo earlier none (initial 0)).1

abbrev listed : List (ℕ × PoolEntry)
listed =
    (7, record { addr = record { workchain = negsuc 0; address = 70 }; true_stake = pos 500 }) ∷ []

from_cache : (get_all_pool_addresses tongo (client 1) elector_addr remembered).0 ≡ ok listed
unfolding get_all_pool_addresses fetch_raw_past_elections parse_elections parse_fields
    extract_big_int parse_pools all_elections merge_elections merge_members pool_entry cached_pools
    request retry_loop sort_slice
from_cache = refl

get_all_pool_addresses-IsParse_example :
    (elections : List (RawPastElection tongo)) × ((fetch_raw_past_elections tongo
        (client 1)
        elector_addr
        remembered).0
      ≡ ok elections)
    × IsParseFor tongo elections listed
get_all_pool_addresses-IsParse_example =
    get_all_pool_addresses-IsParse encoding pages 0 (moved begun (elections_read earlier))
      (client 1) elector_addr from_cache

answer-Shares_example : Ensures (Shares tongo) (answer encoding pages ask later)
answer-Shares_example =
    answer-Shares encoding pages 0 ask loading (Run-Reach encoding pages running)

-- The world is the time. A file is its path, and lists two servers.
abbrev outer : Outside ℕ
outer = record {
  File = Text;
  Reply = Text;
  Conf = List ℕ;
  Server = ℕ;
  Conn = ℕ;
  now = λ w. (w, w + 1);
  read_file = λ path w. (ok path, w);
  http_get = λ url w. (err (codes "no network"), w);
  read_all = λ reply w. (ok reply, w);
  parse_config = λ file. ok (1 ∷ 2 ∷ []);
  lite_servers = λ conf. conf;
  connect = λ server w. (ok server, w);
}

abbrev before : Process (List ℕ) ℕ
before = record { global_config_cache = none; world = 100 }

abbrev no_env : Text → Text
no_env name = []

no_network : (start outer no_env [] before).0 ≡ err (codes "client: download config: no network")
unfolding start new_client new_round_robin_client get_cached_config load_config download_config
no_network = refl

listening :
    Ensures (λ started. started.1 ≡ codes ":8080") (start outer no_env (codes "a.json") before)
unfolding start new_client new_round_robin_client get_cached_config load_config
    load_config_from_file has_prefix connect_all new_service port_of
listening = refl

start-IsStarted_example :
    IsStarted outer no_env (codes "a.json") (start outer no_env (codes "a.json") before)
start-IsStarted_example = start-IsStarted outer no_env (codes "a.json") before
