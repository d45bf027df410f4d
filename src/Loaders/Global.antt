-- ===== src/Loaders/Global.antt =====
-- WithLoaders of service/loaders.go: the loaders of the whole program, which the first request makes.
use ton_validators_rewards_a.Base.{ℕ, ◌≡◌, refl, sym, ap, ◌∙◌, Option, none, some, List, [], ◌∷◌}
use ton_validators_rewards_a.Outcome.{Outcome, ok, err, panic, Action, and_then, ok_injective}
use ton_validators_rewards_a.Tlb.{Tongo}
use ton_validators_rewards_a.State.{State}
use ton_validators_rewards_a.Loaders.{
  Dataloader, DataLoaders, Encoding, LoaderClient, lookups, lookup_masterchain_block,
  lookup_masterchain_block_by_utime, cached_get_config_params,
}

-- The constructors of the two libraries: lru.New for a number of entries, and NewBatchedLoader for a
-- capacity of its input and a cache. (The batch function is given to `load`.)
pub record LoaderLibrary (t : Tongo) (W : Type 0) : Type 1 where
  pub Cache : Type 0
  pub new_lru : (size : ℕ) → Outcome Cache
  pub new_batched_loader :
      {K V : Type 0} → (input_capacity : ℕ) → Cache → Dataloader (State t W) K V

-- `if err != nil { panic(err) }`
abbrev pub or_panic : {A : Type 0} → Outcome A → Outcome A
or_panic (ok a) = ok a
or_panic (err e) = panic
or_panic panic = panic

module _ {t : Tongo} {W : Type 0} (lib : LoaderLibrary t W) where
  -- Three loaders for a client, with one cache each.
  abbrev pub loaders_of :
      LoaderClient t W → (by_utime by_seqno by_key : lib.Cache) → DataLoaders t W
  loaders_of client by_utime by_seqno by_key = record {
    client = client;
    block_by_utime = lib.new_batched_loader 1 by_utime;
    block_by_seqno = lib.new_batched_loader 1 by_seqno;
    config_params = lib.new_batched_loader 1 by_key;
  }

  -- The first cache is that of the look-ups by time, though the source calls it blockSeqnoCache.
  unfoldable pub make_loaders : LoaderClient t W → Outcome (DataLoaders t W)
  make_loaders client = and_then (or_panic (lib.new_lru 1000)) λ block_seqno_cache.
      and_then (or_panic (lib.new_lru 1000)) λ block_utime_cache.
        and_then (or_panic (lib.new_lru 1000)) λ config_params_cache.
          ok (loaders_of client block_seqno_cache block_utime_cache config_params_cache)

  -- `globalLoaders = l`, and the loaders for the context.
  abbrev pub remember :
      Outcome (DataLoaders t W) → Action (Option (DataLoaders t W)) (DataLoaders t W)
  remember (ok l) global_loaders = (ok l, some l)
  remember (err e) global_loaders = (err e, global_loaders)
  remember panic global_loaders = (panic, global_loaders)

  -- The loaders that the context gets. The state is the variable globalLoaders.
  unfoldable pub with_loaders :
      LoaderClient t W → Action (Option (DataLoaders t W)) (DataLoaders t W)
  unfolding make_loaders
  with_loaders client (some first) = (ok first, some first)
  with_loaders client none = remember (make_loaders client) none

  -- What a number of calls for these clients, one after the other, leave in the variable.
  abbrev pub after_calls :
      List (LoaderClient t W) → Option (DataLoaders t W) → Option (DataLoaders t W)
  after_calls [] global_loaders = global_loaders
  after_calls (c ∷ cs) global_loaders = after_calls cs (with_loaders c global_loaders).1

  make_loaders-client :
      (client : LoaderClient t W) {dl : DataLoaders t W}
      → make_loaders client ≡ ok dl
      → dl.client ≡ client
  unfolding make_loaders
  make_loaders-client client = by_caches (lib.new_lru 1000)
    where
      by_caches :
          (r : Outcome lib.Cache) {dl : DataLoaders t W}
          → and_then (or_panic r) (λ a.
            and_then (or_panic r) λ b. and_then (or_panic r) λ c. ok (loaders_of client a b c))
            ≡ ok dl
          → dl.client ≡ client
      by_caches (ok c) h = sym (ap (λ dl. dl.client) (ok_injective h))
      by_caches (err e) h = cc
      by_caches panic h = cc

  remember-kept :
      (r : Outcome (DataLoaders t W)) {dl : DataLoaders t W}
      → (remember r none).0 ≡ ok dl
      → (r ≡ ok dl) × ((remember r none).1 ≡ some dl)
  remember-kept (ok l) h = (h, ap some (ok_injective h))
  remember-kept (err e) h = cc
  remember-kept panic h = cc

  after_calls-some :
      (cs : List (LoaderClient t W)) (dl : DataLoaders t W) → after_calls cs (some dl) ≡ some dl
  unfolding with_loaders
  after_calls-some [] dl = refl
  after_calls-some (c ∷ cs) dl = after_calls-some cs dl

  -- If the first call of WithLoaders returns loaders, then after this call and any further ones a
  -- call for any later client returns the same loaders and leaves them as the global ones: their
  -- batches ask the first client, and the three look-ups are the ones of the first client, whatever
  -- the later client is.
  pub with_loaders-first :
      (enc : Encoding t) (first later : LoaderClient t W) (between : List (LoaderClient t W))
      {dl : DataLoaders t W}
      → (with_loaders first none).0 ≡ ok dl
      → let global_loaders = after_calls between (with_loaders first none).1 in
        (with_loaders later global_loaders ≡ (ok dl, some dl))
        × (dl.client ≡ first)
        × (lookups enc global_loaders later ≡ lookups enc (some dl) first)
  unfolding with_loaders lookup_masterchain_block lookup_masterchain_block_by_utime
      cached_get_config_params
  with_loaders-first enc first later between {dl} made =
      let (ready, stored) = remember-kept (make_loaders first) made in
      let left : after_calls between (with_loaders first none).1 ≡ some dl =
        ap (after_calls between) stored ∙ after_calls-some between dl in
      (
        ap (with_loaders later) left,
        make_loaders-client first ready,
        ap (λ l. lookups enc l later) left ∙ refl,
      )
