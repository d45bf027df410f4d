-- ===== src/RoundRobin/Tests.antt =====
-- Three clients, of which number 1 is down and number 2 is excluded.
use ton_validators_rewards_a.Base.{
  ℕ, ◌≡◌, ◌<◌, refl, Bool, true, false, Option, none, some, List, [], ◌∷◌, arith, get_elem?, ◌==◌,
  ◌+◌, ◌≢◌, if◌then◌else◌,
}
use ton_validators_rewards_a.Base.Int.{pos}
use ton_validators_rewards_a.Outcome.{ok, err}
use ton_validators_rewards_a.Retry.{
  RetryExclude, is_excluded, Session, failed, is_state_gc_error, note_gc,
}
use ton_validators_rewards_a.RoundRobin.{
  RoundRobinClient, has_connections, next_client, choose, slot, healthy_from, client_for_request,
}
use ton_validators_rewards_a.RoundRobin.Choice.{next_client-usable}
use ton_validators_rewards_a.Base.Text.{codes, contains, has_prefix}
use ton_validators_rewards_a.RoundRobin.Forward.{LiteApi, Requests, Method, forward}
use ton_validators_rewards_a.RoundRobin.Excluded.{made_by, forward-excluded}
use ton_validators_rewards_a.RoundRobin.Fairness.{after, next_client-fair}

abbrev status : ℕ → List Bool
status c = if c == 11 then false ∷ [] else false ∷ true ∷ []

abbrev excluding_two : Option RetryExclude
excluding_two = some (record { excluded = pos 2 ∷ []; last_used = pos 2 })

abbrev three_clients : RoundRobinClient ℕ
three_clients = record { entries = 10 ∷ 11 ∷ 12 ∷ []; counter = 4; target_block = none }

abbrev four_clients : RoundRobinClient ℕ
four_clients = record { entries = 10 ∷ 11 ∷ 12 ∷ 13 ∷ []; counter = 4; target_block = none }

served_by_zero : (next_client status excluding_two three_clients).0 ≡ ok (some 10, pos 0)
unfolding next_client choose slot healthy_from has_connections
served_by_zero = refl

next_client-usable_example :
    (e : ℕ) × (idx : ℕ) × ((next_client status excluding_two three_clients).0
      ≡ ok (some e, pos idx))
    × (get_elem? (10 ∷ 11 ∷ 12 ∷ []) idx ≡ some e)
    × (has_connections status e ≡ true)
    × (is_excluded (pos idx) (pos 2 ∷ []) ≡ false)
unfolding has_connections
next_client-usable_example =
    next_client-usable status excluding_two three_clients 0 refl refl refl (omega arith)

next_client-fair_example :
    (k : ℕ) × (k < 4)
    × ((next_client status excluding_two (after status excluding_two k four_clients)).0
        ≡ ok (some 13, pos 3))
unfolding has_connections
next_client-fair_example =
    next_client-fair status excluding_two four_clients 3 refl refl refl (omega arith)

abbrev api : LiteApi ℕ
api = record {
  Conn = ℕ;
  MasterchainInfo = ℕ;
  BlockInfo = ℕ;
  Block = ℕ;
  ShardAccount = ℕ;
  ConfigMode = ℕ;
  ConfigParams = ℕ;
  VmStack = ℕ;
  status = λ w. status;
  get_masterchain_info = λ c b w. (ok w, w + 1);
  lookup_block = λ id mode lt utime c b w. (err (codes "lookup"), w + 1);
  get_block = λ id c b w. (err (codes "state already gc'd"), w + 1);
  get_account_state = λ a c b w. (ok w, w + 1);
  get_config_params = λ mode params c b w. (ok w, w + 1);
  run_smc_method_by_id = λ a m v c b w. (ok (0, v), w + 1);
  run_smc_method = λ a m v c b w. (ok (0, v), w + 1);
}

abbrev session : Session (Requests ℕ ℕ)
session = record {
  exclude = some (record { excluded = []; last_used = pos 0 });
  world = record { client = three_clients; net = 0 };
}

abbrev get_any : Method ℕ ℕ ℕ
get_any =
    api.get_block (record { workchain = pos 0; shard = 0; seqno = 7; root_hash = 0; file_hash = 0 })

forward-excluded_example :
    (i : ℕ) × (j : ℕ) × (e : ℕ) × (e' : ℕ) × (i ≢ j)
    × (get_elem? three_clients.entries i ≡ some e)
    × (get_elem? three_clients.entries j ≡ some e')
    × (has_connections (api.status (failed (forward api get_any session)).world.net) e' ≡ true)
    × (forward api get_any session ≡ made_by api i e get_any session)
    × (forward api get_any (failed (forward api get_any session))
        ≡ made_by api j e' get_any (failed (forward api get_any session)))
unfolding has_connections forward client_for_request next_client choose slot healthy_from
    is_state_gc_error contains has_prefix note_gc
forward-excluded_example =
    forward-excluded api get_any get_any session (record { excluded = []; last_used = pos 0 })
      (codes "state already gc'd") 0 (omega arith) refl refl refl refl refl refl
