-- ===== src/Client/Made.antt =====
-- What NewClient makes of the config that it gets.
use mathlib.Core.Path.{subst}
use ton_validators_rewards_a.Base.Text.{text_eq}
use ton_validators_rewards_a.Rounds.Kept.{Keeps-attempt}
use ton_validators_rewards_a.Client.{CachedConfig}
use ton_validators_rewards_a.Client.Config.{
  Same, Keeps-outside, IsStored, get_cached_config-IsStored,
}
use ton_validators_rewards_a.Base.{
  some, Option, ℕ, suc, ◌≤◌, ◌<◌, ◌≡◌, ⊤, refl, sym, true, none, List, [], ◌∷◌, length, arith,
}
use ton_validators_rewards_a.Base.Text.{Text}
use ton_validators_rewards_a.Outcome.{
  Outcome, Keeps, Keeps-bind, ok, err, panic, continue, attempt, Ensures, continue-Ensures,
  continue-Ensures_any, ◌>>=◌,
}
use ton_validators_rewards_a.RoundRobin.{RoundRobinClient}
use ton_validators_rewards_a.Client.{
  Outside, Process, outside, kept, get_cached_config, connect_all, client_of,
  new_round_robin_client, new_client,
}

-- A client with an entry for each request, as NewRoundRobinClient makes it.
abbrev pub HasEntries : {Conn : Type 0} → RoundRobinClient Conn → Type 0
HasEntries r = 0 < length r.entries

-- A client as NewRoundRobinClient makes it of a number of servers.
abbrev pub IsNew : {Conn : Type 0} → ℕ → RoundRobinClient Conn → Type 0
IsNew n r = HasEntries r × (length r.entries ≤ n) × (r.counter ≡ 0) × (r.target_block ≡ none)

module _ {W : Type 0} (o : Outside W) where
  open o use {Conf, Server, Conn}

  connect_all-length :
      (servers : List Server) (s : Process Conf W)
      → Ensures (λ entries. length entries ≤ length servers) (connect_all o servers s)
  unfolding connect_all
  connect_all-length [] s = omega arith
  connect_all-length (server ∷ servers) s =
      continue-Ensures_any (λ entries. length entries ≤ suc (length servers))
        (attempt (outside o (o.connect server)) s) _
        λ conn s1.
          continue-Ensures (λ rest. length rest ≤ length servers)
            (λ entries. length entries ≤ suc (length servers)) (connect_all o servers s1) _
            (connect_all-length servers s1) (add conn)
    where
      add :
          (conn : Outcome Conn) (rest : List Conn) (s2 : Process Conf W)
          → length rest ≤ length servers
          → Ensures (λ entries. length entries ≤ suc (length servers)) (kept o conn rest s2)
      add (ok c) rest s2 h = omega arith
      add (err e) rest s2 h = omega arith
      add panic rest s2 h = tt

  -- A client that is returned is made of the servers of the config that is cached then, for the path.
  abbrev pub IsMade : (path : Text) → Outcome (RoundRobinClient Conn) × Process Conf W → Type 0
  IsMade path (ok r, s) =
      (c : CachedConfig Conf) × (s.global_config_cache ≡ some c)
      × (text_eq c.config_path path ≡ true)
      × IsNew (length (o.lite_servers c.conf)) r
  IsMade path (err e, s) = ⊤
  IsMade path (panic, s) = ⊤

  kept-Same :
      (before : Option (CachedConfig Conf)) (conn : Outcome Conn) (rest : List Conn)
      → Keeps (Same o before) (kept o conn rest)
  kept-Same before (ok c) rest = record { keep = λ s h. h }
  kept-Same before (err e) rest = record { keep = λ s h. h }
  kept-Same before panic rest = record { keep = λ s h. h }

  connect_all-Keeps :
      (before : Option (CachedConfig Conf)) (servers : List Server)
      → Keeps (Same o before) (connect_all o servers)
  unfolding connect_all
  connect_all-Keeps before [] = record { keep = λ s h. h }
  connect_all-Keeps before (server ∷ servers) =
      Keeps-bind _ _ (Keeps-attempt _ (Keeps-outside o before (o.connect server)))
        λ conn. Keeps-bind _ _ (connect_all-Keeps before servers) (kept-Same before conn)

  client-IsMade :
      (path : Text) (c : CachedConfig Conf) (x : Outcome (List Conn) × Process Conf W)
      → x.1.global_config_cache ≡ some c
      → text_eq c.config_path path ≡ true
      → Ensures (λ entries. length entries ≤ length (o.lite_servers c.conf)) x
      → IsMade path (continue x (client_of o))
  client-IsMade path c (ok [], s) cached at few = tt
  client-IsMade path c (ok (e ∷ es), s) cached at few =
      (c, cached, at, (omega arith, few, refl, refl))
  client-IsMade path c (err e, s) cached at few = tt
  client-IsMade path c (panic, s) cached at few = tt

  config-IsMade :
      (path : Text) (before : Option (CachedConfig Conf)) (x : Outcome Conf × Process Conf W)
      → IsStored o path before x
      → IsMade path (continue x λ conf. connect_all o (o.lite_servers conf) >>= client_of o)
  config-IsMade path before (ok conf, s) (c, cached, same, at) =
      let servers = o.lite_servers conf in
      client-IsMade path c (connect_all o servers s)
        ((connect_all-Keeps (some c) servers).keep s cached) at
        (subst
          (λ k.
            Ensures (λ entries. length entries ≤ length (o.lite_servers k))
              (connect_all o servers s))
          (sym same) (connect_all-length servers s))
  config-IsMade path before (err e, s) h = tt
  config-IsMade path before (panic, s) h = tt

  -- A client that NewClient returns is made of the servers of the config that is in the cache then,
  -- under the path that was asked for: it has an entry and no more entries than these servers, a
  -- counter of 0 and no target block.
  pub new_client-IsMade : (path : Text) (s : Process Conf W) → IsMade path (new_client o path s)
  unfolding new_client new_round_robin_client
  new_client-IsMade path s =
      config-IsMade path s.global_config_cache (get_cached_config o path s)
        (get_cached_config-IsStored o path s)
