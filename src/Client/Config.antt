-- ===== src/Client/Config.antt =====
-- The cache of the global config.
use ton_validators_rewards_a.Base.{
  ◌-◌, ◌<◌, ◌≡◌, refl, ap, ◌∙◌, true, Option, none, some, [], ◌∷◌, arith, ◌++◌, Bool-cases, inl,
  inr, lt→ltb,
}
use ton_validators_rewards_a.Base.Text.{Text, codes, text_eq, has_prefix}
use ton_validators_rewards_a.Outcome.{
  Outcome, ok, err, panic, Action, continue, ok_injective, lift, Keeps, Keeps-bind, Keeps-lift,
  Keeps-wrap,
}
use ton_validators_rewards_a.Strconv.{is_empty}
use ton_validators_rewards_a.Client.{
  Outside, CachedConfig, Process, cache_ttl, outside, load_config_from_file, download_config,
  load_config, usable, store, fetch_and_store, from_cache, get_cached_config,
}

text_eq_refl : (s : Text) → text_eq s s ≡ true
unfolding text_eq
text_eq_refl [] = refl
text_eq_refl (c ∷ cs) = let rest = text_eq_refl cs in ground arith

module _ {W : Type 0} (o : Outside W) where
  open o use {Conf}

  -- What a call of getCachedConfig leaves in the cache: the config that it returns, under the path that
  -- was asked for, or after an error what was there before.
  abbrev pub IsStored :
      (config_path : Text)
      → (before : Option (CachedConfig Conf)) → Outcome Conf × Process Conf W
      → Type 0
  IsStored path before (ok conf, s) =
      (c : CachedConfig Conf) × (s.global_config_cache ≡ some c)
      × (c.conf ≡ conf)
      × (text_eq c.config_path path ≡ true)
  IsStored path before (err e, s) = s.global_config_cache ≡ before
  IsStored path before (panic, s) = s.global_config_cache ≡ before

  module _ (before : Option (CachedConfig Conf)) where
    -- The cache is as before.
    abbrev pub Same : Process Conf W → Type 0
    Same s = s.global_config_cache ≡ before

    pub Keeps-outside : {A : Type 0} (m : Action W A) → Keeps Same (outside o m)
    Keeps-outside m = record { keep = λ s h. h }

    load_config_from_file-Keeps : (path : Text) → Keeps Same (load_config_from_file o path)
    unfolding load_config_from_file
    load_config_from_file-Keeps path =
        Keeps-bind _ _ (Keeps-wrap _ _ (Keeps-outside (o.read_file path))) λ file.
          Keeps-wrap (λ e. codes "parse config file: " ++ e) (lift (o.parse_config file))
            (Keeps-lift _)

    download_config-Keeps : (path : Option Text) → Keeps Same (download_config o path)
    unfolding download_config
    download_config-Keeps path =
        Keeps-bind _ _ (Keeps-wrap _ _ (Keeps-outside (o.http_get _))) λ reply.
          Keeps-bind _ _ (Keeps-wrap _ _ (Keeps-outside (o.read_all reply))) λ file.
            Keeps-wrap (λ e. codes "parse config: " ++ e) (lift (o.parse_config file))
              (Keeps-lift _)

    load_config-Keeps : (path : Text) → Keeps Same (load_config o path)
    unfolding load_config
    load_config-Keeps path = elim (Bool-cases (is_empty path)) [
      | inl e ↦ rw (e) (download_config-Keeps none)
      | inr e ↦ elim (Bool-cases (has_prefix (codes "http") path)) [
        | inl http ↦ rw (e, http) (download_config-Keeps (some path))
        | inr file ↦ rw (e, file) (load_config_from_file-Keeps path)
      ]
    ]

    loaded-IsStored :
        (path : Text) (x : Outcome Conf × Process Conf W)
        → Same x.1
        → IsStored path before (continue x λ conf. store o path conf)
    loaded-IsStored path (ok conf, s) h = (_, refl, refl, text_eq_refl path)
    loaded-IsStored path (err e, s) h = h
    loaded-IsStored path (panic, s) h = h

    fetch_and_store-IsStored :
        (path : Text) (s : Process Conf W)
        → Same s
        → IsStored path before (fetch_and_store o path s)
    fetch_and_store-IsStored path s h =
        loaded-IsStored path (load_config o path s) ((load_config-Keeps path).keep s h)

  from_cache-IsStored :
      (path : Text) (cached : Option (CachedConfig Conf)) (s : Process Conf W)
      → s.global_config_cache ≡ cached
      → IsStored path cached (from_cache o path cached s)
  from_cache-IsStored path none s h = fetch_and_store-IsStored none path s h
  from_cache-IsStored path (some c) s h = elim (Bool-cases (text_eq c.config_path path)) [
    | inr other ↦ rw (other) (fetch_and_store-IsStored (some c) path s h)
    | inl same ↦
        let (now, w) = o.now s.world in
        elim (Bool-cases (usable o path now c)) [
          | inl fresh ↦ rw (same, fresh) (c, h, refl, same)
          | inr old ↦
              rw (same, old) (fetch_and_store-IsStored (some c) path (record s { world = w }) h)
        ]
  ]

  -- A config that getCachedConfig returns is in the cache then, under the path that was asked for;
  -- an error leaves the cache as it was.
  pub get_cached_config-IsStored :
      (path : Text) (s : Process Conf W)
      → IsStored path s.global_config_cache (get_cached_config o path s)
  unfolding get_cached_config
  get_cached_config-IsStored path s = from_cache-IsStored path s.global_config_cache s refl

  from_cache-usable :
      (path : Text) (c : CachedConfig Conf) (s : Process Conf W)
      → text_eq c.config_path path ≡ true
      → (o.now s.world).0 - c.fetched_at < cache_ttl
      → from_cache o path (some c) s ≡ (ok c.conf, record s { world = (o.now s.world).1 })
  unfolding usable
  from_cache-usable path c s same young = rw (same, lt→ltb _ _ young) refl

  cached_again :
      (path : Text) (before : Option (CachedConfig Conf)) (x : Outcome Conf × Process Conf W)
      (conf : Conf) (s2 : Process Conf W)
      → IsStored path before x
      → x.0 ≡ ok conf
      → s2.global_config_cache ≡ x.1.global_config_cache
      → ((c : CachedConfig Conf)
          → s2.global_config_cache ≡ some c
          → (o.now s2.world).0 - c.fetched_at < cache_ttl)
      → from_cache o path s2.global_config_cache s2
        ≡ (ok conf, record s2 { world = (o.now s2.world).1 })
  cached_again path before (ok got, s) conf s2 (c, is_c, holds, same) e kept young =
      let here : s2.global_config_cache ≡ some c = kept ∙ is_c in
      ap (λ cached. from_cache o path cached s2) here
      ∙ from_cache-usable path c s2 same (young c here)
      ∙ ap (λ r. (ok r, record s2 { world = (o.now s2.world).1 })) (holds ∙ ok_injective e)
  cached_again path before (err m, s) conf s2 h e kept young = cc
  cached_again path before (panic, s) conf s2 h e kept young = cc

  -- As long as the time to live of the cached config is not over, a second call of getCachedConfig
  -- for the same path returns the config of the first again, and does nothing but read the clock.
  pub get_cached_config-again :
      (path : Text) (s s2 : Process Conf W) (conf : Conf)
      → (get_cached_config o path s).0 ≡ ok conf
      → s2.global_config_cache ≡ (get_cached_config o path s).1.global_config_cache
      → ((c : CachedConfig Conf)
          → s2.global_config_cache ≡ some c
          → (o.now s2.world).0 - c.fetched_at < cache_ttl)
      → get_cached_config o path s2 ≡ (ok conf, record s2 { world = (o.now s2.world).1 })
  unfolding get_cached_config
  get_cached_config-again path s s2 conf got kept young =
      cached_again path s.global_config_cache (get_cached_config o path s) conf s2
        (get_cached_config-IsStored path s) got kept young
