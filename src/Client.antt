-- ===== src/Client.antt =====
-- service/client.go, NewRoundRobinClient of service/roundrobin.go and service/service.go: the global config
-- with its cache, the client that is made from it, and the service that replaces its client with time.
pub mod Config
pub mod Made
pub mod Refresh
mod Tests
use ton_validators_rewards_a.Base.{
  ℕ, ◌-◌, ◌*◌, ◌^◌, ◌++◌, Bool, true, false, ◌&&◌, not, Option, none, some, List, [], ◌∷◌, ltb, leb,
  length, if◌then◌else◌,
}
use ton_validators_rewards_a.Base.Text.{Text, codes, text_eq, has_prefix}
use ton_validators_rewards_a.Outcome.{
  Outcome, ok, err, panic, Action, pure, fail, lift, wrap, attempt, ◌>>=◌,
}
use ton_validators_rewards_a.Strconv.{is_empty}
use ton_validators_rewards_a.RoundRobin.{RoundRobinClient}

-- What is outside: the clock (in nanoseconds), files and HTTP, tongo's config.ParseConfig with the list
-- of liteservers of its result, and liteapi.NewClient for one of them.
pub record Outside (W : Type 0) : Type 1 where
  pub File : Type 0
  pub Reply : Type 0
  pub Conf : Type 0
  pub Server : Type 0
  pub Conn : Type 0
  pub now : W → ℕ × W
  pub read_file : Text → Action W File
  pub http_get : Text → Action W Reply
  pub read_all : Reply → Action W File
  pub parse_config : File → Outcome Conf
  pub lite_servers : Conf → List Server
  pub connect : Server → Action W Conn

-- globalConfigCache, where `conf` is not nil.
pub record CachedConfig (Conf : Type 0) : Type 0 where
  pub conf : Conf
  pub fetched_at : ℕ
  pub config_path : Text

-- The variables of the program: the cache, which is nil at first, and all that is outside.
pub record Process (Conf W : Type 0) : Type 0 where
  pub global_config_cache : Option (CachedConfig Conf)
  pub world : W

-- Seven days in nanoseconds.
abbrev pub cache_ttl : ℕ
cache_ttl = 7 * 24 * 3600 * 10 ^ 9

abbrev pub config_url : Text
config_url = codes "https://ton.org/global-config.json"

module _ {W : Type 0} (o : Outside W) where
  open o use {File, Reply, Conf, Server, Conn}

  -- An action that only changes the world outside, and time.Now().
  abbrev pub outside : {A : Type 0} → Action W A → Action (Process Conf W) A
  outside m s = let (r, w) = m s.world in (r, record s { world = w })

  abbrev pub time_now : Action (Process Conf W) ℕ
  time_now s = let (now, w) = o.now s.world in (ok now, record s { world = w })

  unfoldable pub load_config_from_file : Text → Action (Process Conf W) Conf
  load_config_from_file path = do
    file ← wrap (λ e. codes "read config file: " ++ e) (outside (o.read_file path))
    wrap (λ e. codes "parse config file: " ++ e) (lift (o.parse_config file))

  abbrev pub url_of : Option Text → Text
  url_of none = config_url
  url_of (some path) = path

  unfoldable pub download_config : Option Text → Action (Process Conf W) Conf
  download_config config_path = do
    reply ← wrap (λ e. codes "download config: " ++ e) (outside (o.http_get (url_of config_path)))
    file ← wrap (λ e. codes "read config body: " ++ e) (outside (o.read_all reply))
    wrap (λ e. codes "parse config: " ++ e) (lift (o.parse_config file))

  -- Where getCachedConfig gets a config from that it does not have.
  unfoldable pub load_config : Text → Action (Process Conf W) Conf
  unfolding load_config_from_file download_config
  load_config config_path =
      if is_empty config_path
      then download_config none
      else if has_prefix (codes "http") config_path
      then download_config (some config_path)
      else load_config_from_file config_path

  -- The entry that can be used at a time. (A time before the entry's counts as its own.)
  unfoldable pub usable : (config_path : Text) → (now : ℕ) → CachedConfig Conf → Bool
  usable config_path now c = text_eq c.config_path config_path && ltb (now - c.fetched_at) cache_ttl

  abbrev pub store : Text → Conf → Action (Process Conf W) Conf
  store config_path conf = do
    fetched_at ← time_now
    λ s. (
      ok conf,
      record s {
        global_config_cache =
            some (record { conf = conf; fetched_at = fetched_at; config_path = config_path });
      },
    )

  abbrev pub fetch_and_store : Text → Action (Process Conf W) Conf
  fetch_and_store config_path = do conf ← load_config config_path; store config_path conf

  -- The clock is read only if the cache is of the path; else the two cases are alike.
  abbrev pub from_cache : Text → Option (CachedConfig Conf) → Action (Process Conf W) Conf
  from_cache config_path none = fetch_and_store config_path
  from_cache config_path (some c) =
      if text_eq c.config_path config_path
      then (do
        now ← time_now
        if usable config_path now c then pure c.conf else fetch_and_store config_path)
      else fetch_and_store config_path

  unfoldable pub get_cached_config : Text → Action (Process Conf W) Conf
  unfolding load_config usable
  get_cached_config config_path s = from_cache config_path s.global_config_cache s

  abbrev pub kept : Outcome Conn → List Conn → Action (Process Conf W) (List Conn)
  kept (ok conn) rest = pure (conn ∷ rest)
  kept (err e) rest = pure rest
  kept panic rest = lift panic

  -- The loop over the servers: one that cannot be connected to is left out.
  unfoldable pub connect_all : List Server → Action (Process Conf W) (List Conn)
  connect_all [] = pure []
  connect_all (server ∷ servers) = do
    conn ← attempt (outside (o.connect server))
    rest ← connect_all servers
    kept conn rest

  abbrev pub client_of : List Conn → Action (Process Conf W) (RoundRobinClient Conn)
  client_of [] = fail (codes "no liteservers available")
  client_of (c ∷ cs) = pure (record { entries = c ∷ cs; counter = 0; target_block = none })

  unfoldable pub new_round_robin_client : Text → Action (Process Conf W) (RoundRobinClient Conn)
  unfolding get_cached_config connect_all
  new_round_robin_client config_path = do
    conf ← get_cached_config config_path
    entries ← connect_all (o.lite_servers conf)
    client_of entries

  unfoldable pub new_client : Text → Action (Process Conf W) (RoundRobinClient Conn)
  unfolding new_round_robin_client
  new_client = new_round_robin_client

  -- service.Service, and the state of the program with it.
  pub record Service : Type 0 where
    pub client : RoundRobinClient Conn
    pub client_init_at : ℕ
    pub config_path : Text

  pub record Running : Type 0 where
    pub service : Service
    pub process : Process Conf W

  -- service.New
  unfoldable pub new_service : RoundRobinClient Conn → Text → Action (Process Conf W) Service
  new_service client config_path = do
    now ← time_now
    pure (record { client = client; client_init_at = now; config_path = config_path })

  abbrev pub in_process : {A : Type 0} → Action (Process Conf W) A → Action Running A
  in_process m s = let (r, p) = m s.process in (r, record s { process = p })

  -- Whether it is time for a new client.
  abbrev pub needs_refresh : Action Running Bool
  needs_refresh s =
      let (now, w) = o.now s.process.world in
      (
        ok (leb cache_ttl (now - s.service.client_init_at)),
        record s { process = (record s.process { world = w }) },
      )

  -- The new client, with the time when it is ready; an error keeps the old one.
  abbrev pub replace : Outcome (RoundRobinClient Conn) → Action Running (RoundRobinClient Conn)
  replace (ok client) s =
      let (now, w) = o.now s.process.world in
      (
        ok client,
        record {
          service = record s.service { client = client; client_init_at = now };
          process = (record s.process { world = w });
        },
      )
  replace (err e) s = (ok s.service.client, s)
  replace panic s = (panic, s)

  abbrev pub current : Action Running (RoundRobinClient Conn)
  current s = (ok s.service.client, s)

  abbrev pub refresh : Action Running (RoundRobinClient Conn)
  refresh s = (attempt (in_process (new_client s.service.config_path)) >>= replace) s

  -- The second test is the one under the write lock.
  unfoldable pub current_client : Action Running (RoundRobinClient Conn)
  unfolding new_client
  current_client = do
    expired ← needs_refresh
    if expired then (do still ← needs_refresh; if still then refresh else current) else current
