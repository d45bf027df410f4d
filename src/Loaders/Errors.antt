-- ===== src/Loaders/Errors.antt =====
-- What cachedGetConfigParams makes of a network that does not answer.
use ton_validators_rewards_a.Base.{ℕ, ◌≡◌, ◌≢◌, refl, ◌++◌, Option, some, List, []}
use ton_validators_rewards_a.Base.Text.{Text, codes}
use ton_validators_rewards_a.Outcome.{
  Error, Outcome, ok, err, panic, attempt, lift, continue, Ensures, continue-Ensures,
  continue-Ensures_any,
}
use ton_validators_rewards_a.Tlb.{Tongo, BlockIdExt}
use ton_validators_rewards_a.State.{State}
use ton_validators_rewards_a.State.Requests.{request-Ensures}
use ton_validators_rewards_a.Rounds.Adjacent.{Ensures-map_error}
use ton_validators_rewards_a.Loaders.{
  ConfigParamsKey, DataLoaders, Encoding, LoaderClient, new_config_params_key, named,
  parse_param_list, fetch_encoded, config_result, config_batch, decode, cached_get_config_params,
}
use ton_validators_rewards_a.Loaders.Honest.{GivesBatched}
use ton_validators_rewards_a.Loaders.Answers.{IsAnswer, each-Answers, as_result-IsAnswer}

-- No result: what can only fail.
abbrev pub Never : {A : Type 0} → A → Type 0
Never a = ⊥

-- What the loader gives for a key.
abbrev pub loader_result :
    {t : Tongo} {W : Type 0}
    → Encoding t
    → DataLoaders t W
    → ConfigParamsKey
    → State t W
    → Outcome Text × State t W
loader_result enc l key = l.config_params.load (config_batch enc (some l) l.client) key

module _ {t : Tongo} {W : Type 0} (enc : Encoding t) (l : DataLoaders t W)
    (down : (ext : Option BlockIdExt) (mode : ℕ) (param_list : List ℕ) (w : W)
      → Ensures Never (l.client.get_config_params ext mode param_list w)) where
  fetch_encoded-Never :
      (key : ConfigParamsKey) (param_list : List ℕ) (s : State t W)
      → Ensures Never (fetch_encoded enc (some l) l.client key param_list s)
  fetch_encoded-Never key param_list s = continue-Ensures_any Never _ _ λ found s1.
      let ask = l.client.get_config_params (some found.0) key.mode param_list in
      continue-Ensures Never Never _ _
        (Ensures-map_error Never (λ e. named key (codes ": " ++ e)) _
          (request-Ensures Never ask (down (some found.0) key.mode param_list) s1))
        λ params s2 h. absurd h

  config_result-Never :
      (key : ConfigParamsKey) (s : State t W)
      → Ensures
          (IsAnswer (λ key. Never) (config_result enc (some l) l.client) key)
          (config_result enc (some l) l.client key s)
  unfolding config_result parse_param_list
  config_result-Never key s =
      as_result-IsAnswer (λ key. Never) (config_result enc (some l) l.client) (λ e. e) key _
        (continue-Ensures_any Never _ _ λ param_list s1. fetch_encoded-Never key param_list s1)

  decode_failed :
      {m : Error} (x : Outcome Text × State t W) (s : State t W)
      → enc.deserialize_boc [] ≡ err m
      → Ensures Never x
      → x.0 ≢ panic
      → (e : Error) × (x.0 ≡ err e)
        × (continue (attempt (λ (_ : State t W). x) s) (λ r. lift (decode enc (some l) r))
            ≡ (err m, x.1))
  decode_failed (ok text, s1) s empty h calm = absurd h
  decode_failed (err e, s1) s empty h calm = (e, refl, rw (empty) refl)
  decode_failed (panic, s1) s empty h calm = absurd (calm refl)

  -- If the network answers no request for config params, and an empty text is no bag of cells, then
  -- in every state the loader fails with some error, and whatever this error is,
  -- cachedGetConfigParams returns the one of decoding an empty text. The loader gives what a batch
  -- gave for its key, now or earlier, and does not panic.
  pub cached_get_config_params-masks :
      {m : Error}
      → enc.deserialize_boc [] ≡ err m
      → GivesBatched l.config_params (config_batch enc (some l) l.client)
      → (own : LoaderClient t W) (pinned : Option BlockIdExt) (mode : ℕ) (param_list : List ℕ)
        (seqno : ℕ) (s : State t W)
      → let loaded = loader_result enc l (new_config_params_key enc mode param_list seqno) s in
        loaded.0 ≢ panic
        → (e : Error) × (loaded.0 ≡ err e)
          × (cached_get_config_params enc (some l) own pinned mode param_list seqno s
              ≡ (err m, loaded.1))
  unfolding cached_get_config_params config_batch
  cached_get_config_params-masks empty by_key own pinned mode param_list seqno s calm =
      let key = new_config_params_key enc mode param_list seqno in
      let one = config_result enc (some l) l.client in
      decode_failed (loader_result enc l key s) s empty
        (by_key (λ key. Never) (each-Answers (λ key. Never) one config_result-Never) key s) calm
