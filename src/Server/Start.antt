-- ===== src/Server/Start.antt =====
-- What the server listens with.
use ton_validators_rewards_a.Base.{◌≡◌, refl, ◌++◌, ⊤, true, some, length}
use ton_validators_rewards_a.Base.Text.{Text, codes, text_eq}
use ton_validators_rewards_a.Outcome.{Outcome, ok, err, panic, map_error, continue, pure, ◌>>=◌}
use ton_validators_rewards_a.RoundRobin.{RoundRobinClient}
use ton_validators_rewards_a.Client.{
  Outside, CachedConfig, Process, Service, new_client, new_service,
}
use ton_validators_rewards_a.Client.Made.{IsNew, IsMade, new_client-IsMade}
use ton_validators_rewards_a.Server.{port_of, start}

module _ {W : Type 0} (o : Outside W) (getenv : Text → Text) (path : Text) where
  -- The service's client is a new one, made of the servers of the config in the cache.
  abbrev pub IsStarted : Outcome (Service o × Text) × Process o.Conf W → Type 0
  IsStarted (ok (svc, address), s) =
      (c : CachedConfig o.Conf) × (s.global_config_cache ≡ some c)
      × (text_eq c.config_path path ≡ true)
      × IsNew (length (o.lite_servers c.conf)) svc.client
      × (svc.config_path ≡ path)
      × (address ≡ codes ":" ++ port_of getenv)
  IsStarted (err e, s) = ⊤
  IsStarted (panic, s) = ⊤

  client-IsStarted :
      (x : Outcome (RoundRobinClient o.Conn) × Process o.Conf W)
      → IsMade o path x
      → IsStarted (
          continue
            (map_error (λ e. codes "client: " ++ e) x.0, x.1)
            λ client. new_service o client path >>= λ svc. pure (svc, codes ":" ++ port_of getenv))
  unfolding new_service
  client-IsStarted (ok r, s) (c, cached, at, new) = (c, cached, at, new, refl, refl)
  client-IsStarted (err e, s) h = tt
  client-IsStarted (panic, s) h = tt

  -- If the server gets as far as listening, then its service has a new client, which is made of the
  -- servers of the config that is in the cache then, under the path of the flag: it has an entry
  -- and no more entries than these servers, a counter of 0 and no target block; the service keeps
  -- the path, and the address has the port of the environment, or 8080.
  pub start-IsStarted : (s : Process o.Conf W) → IsStarted (start o getenv path s)
  unfolding start
  start-IsStarted s = client-IsStarted (new_client o path s) (new_client-IsMade o path s)
