-- ===== src/Client/Refresh.antt =====
-- The client of the service: it has a connection, and no error takes it away.
use ton_validators_rewards_a.Base.{◌≡◌, refl, ⊤, Bool, true, false, leb, ◌-◌, if◌then◌else◌}
use ton_validators_rewards_a.Base.Text.{Text}
use ton_validators_rewards_a.Outcome.{Outcome, ok, err, panic, Action, continue, attempt, ◌>>=◌}
use ton_validators_rewards_a.Client.Made.{HasEntries, IsMade, new_client-IsMade}
use ton_validators_rewards_a.RoundRobin.{RoundRobinClient}
use ton_validators_rewards_a.Client.{
  Outside, Process, new_client, Running, needs_refresh, in_process, cache_ttl, replace, current,
  refresh, current_client,
}

module _ {W : Type 0} (o : Outside W) where
  open o use {Conf, Server, Conn}

  -- The outcome is no error, and a client that is returned is the one that the service now has, with a
  -- connection.
  abbrev pub IsCurrent : Outcome (RoundRobinClient Conn) × Running o → Type 0
  IsCurrent (ok r, s) = (r ≡ s.service.client) × HasEntries r
  IsCurrent (err e, s) = ⊥
  IsCurrent (panic, s) = ⊤

  -- The same of a part of it.
  abbrev Usable : Running o → Type 0
  Usable s = HasEntries s.service.client

  replaced :
      (path : Text) (x : Outcome (RoundRobinClient Conn) × Process Conf W) (s : Running o)
      → IsMade o path x
      → Usable s
      → IsCurrent (continue (attempt (in_process o (λ (_ : Process Conf W). x)) s) (replace o))
  replaced path (ok r, p) s (c, cached, at, new) before = (refl, new.0)
  replaced path (err e, p) s h before = (refl, before)
  replaced path (panic, p) s h before = tt

  refresh-IsCurrent : (s : Running o) → Usable s → IsCurrent (refresh o s)
  refresh-IsCurrent s h =
      replaced s.service.config_path (new_client o s.service.config_path s.process) s
        (new_client-IsMade o s.service.config_path s.process) h

  abbrev is_expired : Running o → Bool
  is_expired s = leb cache_ttl ((o.now s.process.world).0 - s.service.client_init_at)

  if_expired :
      (expired : Bool) (then_do : Action (Running o) (RoundRobinClient Conn)) (s : Running o)
      → ((s' : Running o) → Usable s' → IsCurrent (then_do s'))
      → Usable s
      → IsCurrent ((if expired then then_do else current o) s)
  if_expired true then_do s next h = next s h
  if_expired false then_do s next h = (refl, h)

  -- If the client of the service has an entry, currentClient returns no error: the client that it
  -- returns is the one that the service has then, and it has an entry, whether the old one was kept
  -- or replaced.
  pub current_client-IsCurrent :
      (s : Running o) → HasEntries s.service.client → IsCurrent (current_client o s)
  unfolding current_client
  current_client-IsCurrent s h =
      let next = needs_refresh o >>= λ still. if still then refresh o else current o in
      if_expired (is_expired s) next (needs_refresh o s).1
        (λ s1 h1.
          if_expired (is_expired s1) (refresh o) (needs_refresh o s1).1 refresh-IsCurrent h1)
        h
