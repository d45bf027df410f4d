-- ===== src/Loaders/Boundaries.antt =====
-- The boundary search through the loaders, on an honest network.
use mathlib.Core.Path.{subst}
use ton_validators_rewards_a.Base.{ℕ, ◌<◌, ◌^◌, ◌≡◌, refl, ◌++◌, ap, sym, ◌∙◌, none, some, [], ◌∷◌}
use ton_validators_rewards_a.Base.Text.{Text, codes}
use ton_validators_rewards_a.Outcome.{
  Error, Outcome, ok, err, panic, map_error, lift, wrap, attempt, continue, Ensures,
  continue-Ensures,
}
use ton_validators_rewards_a.Strconv.{quote}
use ton_validators_rewards_a.Tlb.{Tongo, BlockIdExt}
use ton_validators_rewards_a.State.{State, request}
use ton_validators_rewards_a.State.Requests.{request-Ensures}
use ton_validators_rewards_a.Rounds.Boundary.{ElectionBoundary, find_election_boundary}
use ton_validators_rewards_a.Rounds.Adjacent.{
  IsBoundary, Ensures-map_error, find_election_boundary-IsBoundary,
}
use ton_validators_rewards_a.Loaders.{
  DataLoaders, ConfigParamsKey, BlockResult, Encoding, LoaderClient, masterchain, each,
  without_session, utime_result, utime_batch, seqno_result, seqno_batch, lookup_masterchain_block,
  lookup_masterchain_block_by_utime, new_config_params_key, parse_param_list, fetch_encoded,
  config_result, config_batch, decode, cached_get_config_params, lookups, named,
}
use ton_validators_rewards_a.Loaders.Honest.{IsHonest, IsEncoding, GivesBatched}
use ton_validators_rewards_a.Loaders.Answers.{
  IsAnswer, each-Answers, as_result-IsAnswer, without_session-Ensures, Ensures-under, Ensures-given,
  parsed-Is34,
}

module _ {t : Tongo} {W : Type 0} (params_at : ℕ → t.ConfigParams) (enc : Encoding t)
    (sound : IsEncoding enc) (dl : DataLoaders t W) (honest : IsHonest params_at dl.client)
    (by_utime : GivesBatched dl.block_by_utime (utime_batch dl.client))
    (by_seqno : GivesBatched dl.block_by_seqno (seqno_batch dl.client))
    (by_key : GivesBatched dl.config_params (config_batch enc (some dl) dl.client)) where
  abbrev Is32 : ℕ → BlockIdExt → Type 0
  Is32 utime ext = ext.seqno < 2 ^ 32

  utime_result-IsAnswer :
      (utime : ℕ) (s : State t W)
      → Ensures (IsAnswer Is32 (utime_result dl.client) utime) (utime_result dl.client utime s)
  unfolding utime_result
  utime_result-IsAnswer utime s = as_result-IsAnswer Is32 (utime_result dl.client) _ utime _ (
      continue-Ensures (λ found. found.0.seqno < 2 ^ 32) (Is32 utime) _ _
        (request-Ensures (λ found. found.0.seqno < 2 ^ 32)
          (without_session (dl.client.lookup_block (masterchain 0) 4 (some utime)))
          (without_session-Ensures (λ found. found.0.seqno < 2 ^ 32)
            (dl.client.lookup_block (masterchain 0) 4 (some utime)) (honest.utime utime))
          s)
        (λ found s' h. h))

  block_by_utime-Is32 :
      (own : LoaderClient t W) (utime : ℕ) (s : State t W)
      → Ensures
          (λ ext. ext.seqno < 2 ^ 32)
          (lookup_masterchain_block_by_utime (some dl) own utime s)
  unfolding lookup_masterchain_block_by_utime utime_batch
  block_by_utime-Is32 own utime s =
      by_utime Is32 (each-Answers Is32 (utime_result dl.client) utime_result-IsAnswer) utime s

  abbrev IsAt : ℕ → BlockResult → Type 0
  IsAt seqno found = found.0.seqno ≡ seqno

  seqno_result-IsAnswer :
      (seqno : ℕ) (s : State t W)
      → Ensures (IsAnswer IsAt (seqno_result dl.client) seqno) (seqno_result dl.client seqno s)
  unfolding seqno_result
  seqno_result-IsAnswer seqno s = as_result-IsAnswer IsAt (seqno_result dl.client) _ seqno _ (
      request-Ensures (IsAt seqno)
        (without_session (dl.client.lookup_block (masterchain seqno) 1 none))
        (without_session-Ensures (IsAt seqno) (dl.client.lookup_block (masterchain seqno) 1 none)
          (honest.seqno seqno))
        s)

  block-IsAt :
      (own : LoaderClient t W) (seqno : ℕ) (s : State t W)
      → Ensures (IsAt seqno) (lookup_masterchain_block (some dl) own seqno s)
  unfolding lookup_masterchain_block seqno_batch
  block-IsAt own seqno s =
      by_seqno IsAt (each-Answers IsAt (seqno_result dl.client) seqno_result-IsAnswer) seqno s

  -- The text decodes to these params.
  abbrev Decodes : t.ConfigParams → Text → Type 0
  Decodes params text = decode enc (some dl) (ok text) ≡ ok params

  to_boc-Decodes :
      (f : Error → Error) (params : t.ConfigParams) (c : t.Cell) (r : Outcome Text) (s : State t W)
      → enc.marshal params ≡ ok c
      → enc.to_boc c ≡ r
      → Ensures (Decodes params) (map_error f r, s)
  to_boc-Decodes f params c (ok text) s e e' =
      let (root, rest, cells, back) = sound.boc params c text e e' in rw (cells) back
  to_boc-Decodes f params c (err m) s e e' = tt
  to_boc-Decodes f params c panic s e e' = tt

  marshal-Decodes :
      (f g : Error → Error) (params : t.ConfigParams) (r : Outcome t.Cell) (s : State t W)
      → enc.marshal params ≡ r
      → Ensures
          (Decodes params)
          (continue (map_error f r, s) (λ encoded. wrap g (lift (enc.to_boc encoded))))
  marshal-Decodes f g params (ok c) s e = to_boc-Decodes g params c (enc.to_boc c) s e refl
  marshal-Decodes f g params (err m) s e = tt
  marshal-Decodes f g params panic s e = tt

  Decodes-at :
      {params params' : t.ConfigParams} (x : Outcome Text × State t W)
      → params ≡ params'
      → Ensures (Decodes params) x
      → Ensures (Decodes params') x
  Decodes-at x is = subst (λ p. Ensures (Decodes p) x) is

  fetch_encoded-Decodes :
      (key : ConfigParamsKey) (s : State t W)
      → key.mode ≡ 0
      → Ensures
          (Decodes (params_at key.seqno))
          (fetch_encoded enc (some dl) dl.client key (34 ∷ []) s)
  fetch_encoded-Decodes key s mode =
      let Q = Decodes (params_at key.seqno) in
      continue-Ensures (IsAt key.seqno) Q _ _
        (Ensures-map_error (IsAt key.seqno)
          (λ e. codes "lookupMasterchainBlock(" ++ (quote key.params ++ (codes "): " ++ e)))
          (lookup_masterchain_block (some dl) dl.client key.seqno s)
          (block-IsAt dl.client key.seqno s))
        λ found s1 at.
          let Is : t.ConfigParams → Type 0 = λ params. params ≡ params_at key.seqno in
          let ask = dl.client.get_config_params (some found.0) key.mode (34 ∷ []) in
          continue-Ensures Is Q _ _
            (Ensures-map_error Is (λ e. named key (codes ": " ++ e)) (request ask s1)
              (request-Ensures Is ask (λ w. rw (mode, ← at) (honest.config found.0 w)) s1))
            λ params s2 is. Decodes-at _ is (
              marshal-Decodes (λ e. named key (codes " marshal: " ++ e))
                (λ e. named key (codes " to boc: " ++ e)) params (enc.marshal params) s2 refl)

  -- The key of a look-up of param 34.
  abbrev IsKey34 : ConfigParamsKey → Type 0
  IsKey34 key = (key.mode ≡ 0) × (key.params ≡ enc.json_marshal (34 ∷ []))

  abbrev IsParams : ConfigParamsKey → Text → Type 0
  IsParams key text = IsKey34 key → Decodes (params_at key.seqno) text

  config_result-IsAnswer :
      (key : ConfigParamsKey) (s : State t W)
      → Ensures
          (IsAnswer IsParams (config_result enc (some dl) dl.client) key)
          (config_result enc (some dl) dl.client key s)
  unfolding config_result parse_param_list
  config_result-IsAnswer key s =
      as_result-IsAnswer IsParams (config_result enc (some dl) dl.client) (λ e. e) key _
        (Ensures-under (Decodes (params_at key.seqno)) _ (λ is34.
          continue-Ensures (λ list. list ≡ 34 ∷ []) (Decodes (params_at key.seqno)) _ _
            (parsed-Is34 (λ e. codes "parseParamList(" ++ (quote key.params ++ (codes "): " ++ e)))
              (enc.json_unmarshal key.params) s
              (ap enc.json_unmarshal is34.1 ∙ sound.json (34 ∷ [])))
            (λ list s' is.
              subst
                (λ l.
                  Ensures (Decodes (params_at key.seqno))
                    (fetch_encoded enc (some dl) dl.client key l s'))
                (sym is) (fetch_encoded-Decodes key s' is34.0))))

  config_of_load :
      (params : t.ConfigParams) (x : Outcome Text × State t W) (s : State t W)
      → Ensures (Decodes params) x
      → Ensures
          (λ p. p ≡ params)
          (continue (attempt (λ (_ : State t W). x) s) (λ r. lift (decode enc (some dl) r)))
  config_of_load params (ok text, s') s h = rw (h) refl
  config_of_load params (err e, s') s h = let (e', fails) = sound.empty in rw (fails) tt
  config_of_load params (panic, s') s h = tt

  config-IsAt :
      (own : LoaderClient t W) (ext : BlockIdExt) (s : State t W)
      → Ensures
          (λ p. p ≡ params_at ext.seqno)
          (cached_get_config_params enc (some dl) own (some ext) 0 (34 ∷ []) ext.seqno s)
  unfolding cached_get_config_params config_batch new_config_params_key
  config-IsAt own ext s =
      let key = new_config_params_key enc 0 (34 ∷ []) ext.seqno in
      let one = config_result enc (some dl) dl.client in
      config_of_load (params_at ext.seqno) (dl.config_params.load (each one) key s) s (
        Ensures-given (Decodes (params_at ext.seqno)) (dl.config_params.load (each one) key s)
          (refl, refl) (by_key IsParams (each-Answers IsParams one config_result-IsAnswer) key s))

  -- A boundary that findElectionBoundary returns through the loaders consists of two adjacent
  -- blocks whose config on the chain gives the two returned election ids, and these differ. The
  -- network answers from one chain: a look-up of a seqno that succeeds gives a block of that seqno,
  -- one by time a block with a seqno of 32 bits, and the config of a block depends on its seqno
  -- only. What is encoded can be decoded, and a dataloader gives what a batch gave for its key, now
  -- or earlier. Requests may fail on the way.
  pub lookups-IsBoundary :
      (own : LoaderClient t W) (approx : ℕ) (s : State t W) {b : ElectionBoundary}
      → (find_election_boundary (lookups enc (some dl) own) approx s).0 ≡ ok b
      → IsBoundary t params_at b
  lookups-IsBoundary own approx s =
      find_election_boundary-IsBoundary (lookups enc (some dl) own) params_at (block-IsAt own)
        (config-IsAt own) (block_by_utime-Is32 own) approx s
