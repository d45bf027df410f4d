-- ===== src/Loaders.antt =====
-- service/loaders.go: the look-ups of blocks and of config params through the dataloaders, with the batches
-- of requests that these make. The goroutines of a batch are run one after the other; each writes one
-- result.
mod Data
pub mod Kept
pub mod Errors
pub mod Global
pub mod Honest
pub mod Answers
pub mod Boundaries
pub mod Sample
mod Tests
pub use Data.{
  Lru, Result, loaded, skip_cache, Dataloader, ConfigParamsKey, BlockResult, Encoding, LoaderClient,
  DataLoaders, masterchain,
}
unfoldable pub use Data.{
  cache_get, cache_set, cache_delete, cache_clear, new_config_params_key, parse_param_list,
}
use ton_validators_rewards_a.Base.{
  ℕ, ◌^◌, ◌++◌, ⊤, Bool, true, false, Option, none, some, List, [], ◌∷◌, if◌then◌else◌,
}
use ton_validators_rewards_a.Base.Int.{ℤ, pos, negsuc}
use ton_validators_rewards_a.Base.Text.{Text, codes, show_ℕ}
use ton_validators_rewards_a.Outcome.{
  Error, Outcome, ok, err, panic, Action, pure, lift, wrap, attempt, and_then, ◌>>=◌, ◌>>◌,
}
use ton_validators_rewards_a.Strconv.{quote}
use ton_validators_rewards_a.Tlb.{Tongo, BlockIdExt}
use ton_validators_rewards_a.Retry.{Session, retry, retry_with_exclude, with_retry_exclude}
use ton_validators_rewards_a.RoundRobin.Forward.{BlockId}
use ton_validators_rewards_a.State.{State, count_rpc, remote, request}
use ton_validators_rewards_a.Rounds.Lookup.{Loaders}

-- The results of the goroutines, in the order of the keys.
unfoldable pub each :
    {S K V : Type 0} → (K → Action S (Result V)) → List K → Action S (List (Result V))
each one [] = pure []
each one (key ∷ keys) = do r ← one key; rs ← each one keys; pure (r ∷ rs)

abbrev pub result_of : {V : Type 0} → (Error → Error) → Outcome V → Outcome (Result V)
result_of f (ok v) = ok (loaded v)
result_of f (err e) = ok (skip_cache (f e))
result_of f panic = panic

-- An error of a call becomes the result of its key.
abbrev pub as_result : {S V : Type 0} → (Error → Error) → Action S V → Action S (Result V)
as_result f m s = let (r, s') = m s in (result_of f r, s')

-- A request in a context without an exclude list.
abbrev pub without_session : {W A : Type 0} → Action (Session W) A → Action W A
without_session m w = let (r, s) = m (record { exclude = none; world = w }) in (r, s.world)

module _ {t : Tongo} {W : Type 0} where
  -- A request in the context of a session.
  abbrev pub in_session : {A : Type 0} → Action (Session W) A → Action (Session (State t W)) A
  in_session m s =
      let (r, s') = m (record { exclude = s.exclude; world = s.world.net }) in
      (r, record { exclude = s'.exclude; world = (record s.world { net = s'.world }) })

  -- A counted request whose repetitions know the exclude list.
  unfoldable pub request_with_exclude : {A : Type 0} → Action (Session W) A → Action (State t W) A
  unfolding retry_with_exclude
  request_with_exclude m s =
      let (r, s') =
        retry_with_exclude (λ x. (in_session m) (record x { world = (count_rpc x.world).1 }))
          (with_retry_exclude s) in
      (r, s'.world)

module _ {t : Tongo} {W : Type 0} (client : LoaderClient t W) where
  -- The batch functions make their requests in the outer context, not in that of the retry session.
  unfoldable pub utime_result : ℕ → Action (State t W) (Result BlockIdExt)
  utime_result utime =
      as_result
        (λ e. codes "lookupMasterchainBlockByUtime(" ++ (show_ℕ utime ++ (codes "): " ++ e)))
        (do
          found ← request (without_session (client.lookup_block (masterchain 0) 4 (some utime)))
          pure found.0)

  unfoldable pub utime_batch : List ℕ → Action (State t W) (List (Result BlockIdExt))
  unfolding each utime_result
  utime_batch = each utime_result

  unfoldable pub seqno_result : ℕ → Action (State t W) (Result BlockResult)
  seqno_result seqno =
      as_result (λ e. codes "lookupMasterchainBlock(" ++ (show_ℕ seqno ++ (codes "): " ++ e)))
        (request (without_session (client.lookup_block (masterchain seqno) 1 none)))

  unfoldable pub seqno_batch : List ℕ → Action (State t W) (List (Result BlockResult))
  unfolding each seqno_result
  seqno_batch = each seqno_result

-- With the loaders of the context, if it has them, and the caller's own client.
module _ {t : Tongo} {W : Type 0} where
  abbrev pub by_utime :
      Option (DataLoaders t W) → LoaderClient t W → ℕ → Action (State t W) BlockIdExt
  by_utime (some l) client utime = l.block_by_utime.load (utime_batch l.client) utime
  by_utime none client utime = do
    found ← request_with_exclude (client.lookup_block (masterchain 0) 4 (some utime))
    pure found.0

  abbrev pub by_seqno :
      Option (DataLoaders t W) → LoaderClient t W → ℕ → Action (State t W) BlockResult
  by_seqno (some l) client seqno = l.block_by_seqno.load (seqno_batch l.client) seqno
  by_seqno none client seqno = request_with_exclude (client.lookup_block (masterchain seqno) 1 none)

  unfoldable pub lookup_masterchain_block_by_utime :
      Option (DataLoaders t W) → LoaderClient t W → ℕ → Action (State t W) BlockIdExt
  unfolding utime_batch request_with_exclude
  lookup_masterchain_block_by_utime = by_utime

  unfoldable pub lookup_masterchain_block :
      Option (DataLoaders t W) → LoaderClient t W → ℕ → Action (State t W) BlockResult
  unfolding seqno_batch request_with_exclude
  lookup_masterchain_block = by_seqno

-- `fmt.Errorf("GetConfigParams(%d, %s)…", key.seqno, key.params, …)`
abbrev pub named : ConfigParamsKey → Text → Text
named key rest =
    codes "GetConfigParams("
    ++ (show_ℕ key.seqno ++ (codes ", " ++ (key.params ++ (codes ")" ++ rest))))

-- What cachedGetConfigParams makes of the text of a loader; the code does not look at the loader's error
-- before, and the text is empty then.
abbrev pub text_or_empty : Outcome Text → Outcome Text
text_or_empty (ok s) = ok s
text_or_empty (err e) = ok []
text_or_empty panic = panic

-- `cell[0]`
abbrev pub first_cell : {A : Type 0} → List A → Outcome A
first_cell [] = panic
first_cell (c ∷ cs) = ok c

module _ {t : Tongo} {W : Type 0} (enc : Encoding t) (loaders : Option (DataLoaders t W)) where
  -- The config params of a key, as the text of their encoding.
  abbrev pub fetch_encoded : LoaderClient t W → ConfigParamsKey → List ℕ → Action (State t W) Text
  fetch_encoded client key param_list = do
    found ←
        wrap (λ e. codes "lookupMasterchainBlock(" ++ (quote key.params ++ (codes "): " ++ e)))
          (lookup_masterchain_block loaders client key.seqno)
    params ←
        wrap (λ e. named key (codes ": " ++ e))
          (request (client.get_config_params (some found.0) key.mode param_list))
    encoded ← wrap (λ e. named key (codes " marshal: " ++ e)) (lift (enc.marshal params))
    wrap (λ e. named key (codes " to boc: " ++ e)) (lift (enc.to_boc encoded))

  unfoldable pub config_result :
      LoaderClient t W → ConfigParamsKey → Action (State t W) (Result Text)
  unfolding lookup_masterchain_block parse_param_list
  config_result client key =
      as_result (λ e. e)
        (do
          param_list ←
              wrap (λ e. codes "parseParamList(" ++ (quote key.params ++ (codes "): " ++ e)))
                (lift (parse_param_list enc key.params))
          fetch_encoded client key param_list)

  unfoldable pub config_batch :
      LoaderClient t W → List ConfigParamsKey → Action (State t W) (List (Result Text))
  unfolding each config_result
  config_batch client = each (config_result client)

  -- The loader's error is overwritten by that of the decoder, so it is nil at the end.
  abbrev pub decode : Outcome Text → Outcome t.ConfigParams
  decode result = and_then (text_or_empty result) λ encoded.
      and_then (enc.deserialize_boc encoded) λ cells. and_then (first_cell cells) enc.unmarshal

  abbrev pub config_of :
      Option (DataLoaders t W)
      → LoaderClient t W
      → Option BlockIdExt
      → (mode : ℕ) → List ℕ
      → (seqno : ℕ) → Action (State t W) t.ConfigParams
  config_of (some l) client pinned mode param_list seqno = do
    result ← attempt (
        l.config_params.load (config_batch l.client)
          (new_config_params_key enc mode param_list seqno))
    lift (decode result)
  config_of none client pinned mode param_list seqno =
      request (client.get_config_params pinned mode param_list)

  unfoldable pub cached_get_config_params :
      LoaderClient t W
      → Option BlockIdExt
      → (mode : ℕ) → List ℕ
      → (seqno : ℕ) → Action (State t W) t.ConfigParams
  unfolding config_batch new_config_params_key
  cached_get_config_params = config_of loaders

  -- The look-ups as service/rounds.go and service/blocks.go make them.
  abbrev pub lookups : LoaderClient t W → Loaders t (State t W)
  lookups client = record {
    lookup_masterchain_block = lookup_masterchain_block loaders client;
    lookup_masterchain_block_by_utime = lookup_masterchain_block_by_utime loaders client;
    cached_get_config_params =
        λ pinned seqno. cached_get_config_params client pinned 0 (34 ∷ []) seqno;
  }
