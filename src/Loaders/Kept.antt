-- ===== src/Loaders/Kept.antt =====
-- The look-ups leave the service's caches alone: they only make requests and fill caches of their own.
use ton_validators_rewards_a.Base.{ℕ, ◌++◌, some, List, [], ◌∷◌}
use ton_validators_rewards_a.Base.Text.{codes}
use ton_validators_rewards_a.Outcome.{
  Error, Action, lift, wrap, Keeps, Keeps-bind, Keeps-lift, Keeps-wrap,
}
use ton_validators_rewards_a.Strconv.{quote}
use ton_validators_rewards_a.Tlb.{Tongo}
use ton_validators_rewards_a.State.{State}
use ton_validators_rewards_a.State.Requests.{IsBlind, request-Keeps}
use ton_validators_rewards_a.Rounds.Kept.{IsKept, Keeps-attempt}
use ton_validators_rewards_a.Loaders.{
  ConfigParamsKey, Dataloader, DataLoaders, Encoding, LoaderClient, Result, as_result, each, named,
  utime_result, utime_batch, seqno_result, seqno_batch, lookup_masterchain_block_by_utime,
  lookup_masterchain_block, parse_param_list, fetch_encoded, config_result, config_batch,
  cached_get_config_params, lookups,
}

-- What a dataloader does to the state is what its batches do, and changes of its own cache: it keeps
-- what each batch keeps.
abbrev pub LoadsByBatch : {S K V : Type 0} → (S → Type 0) → Dataloader S K V → Type 0
LoadsByBatch {S = S} {K = K} {V = V} P dl =
    (batch : List K → Action S (List (Result V)))
    → ((keys : List K) → Keeps P (batch keys))
    → (key : K) → Keeps P (dl.load batch key)

Keeps-each :
    {S K V : Type 0} {P : S → Type 0} (one : K → Action S (Result V))
    → ((key : K) → Keeps P (one key))
    → (keys : List K) → Keeps P (each one keys)
unfolding each
Keeps-each one k [] = Keeps-lift _
Keeps-each one k (key ∷ keys) =
    Keeps-bind _ _ (k key) λ r. Keeps-bind _ _ (Keeps-each one k keys) λ rs. Keeps-lift _

Keeps-as_result :
    {S V : Type 0} {P : S → Type 0} (f : Error → Error) (m : Action S V)
    → Keeps P m
    → Keeps P (as_result f m)
Keeps-as_result f m k = record { keep = λ s h. k.keep s h }

-- A property that looks neither at the counter nor at the network, where a dataloader has its cache.
module _ {t : Tongo} {W : Type 0} {P : State t W → Type 0} (blind : IsBlind P) where
  module _ (client : LoaderClient t W) where
    utime_batch-Keeps : (keys : List ℕ) → Keeps P (utime_batch client keys)
    unfolding utime_batch utime_result
    utime_batch-Keeps =
        Keeps-each (utime_result client) λ utime.
          Keeps-as_result _ _ (Keeps-bind _ _ (request-Keeps blind _) λ found. Keeps-lift _)

    seqno_batch-Keeps : (keys : List ℕ) → Keeps P (seqno_batch client keys)
    unfolding seqno_batch seqno_result
    seqno_batch-Keeps =
        Keeps-each (seqno_result client) λ seqno. Keeps-as_result _ _ (request-Keeps blind _)

  module _ (enc : Encoding t) (l : DataLoaders t W) (by_utime : LoadsByBatch P l.block_by_utime)
      (by_seqno : LoadsByBatch P l.block_by_seqno) (by_key : LoadsByBatch P l.config_params) where
    block-Keeps :
        (client : LoaderClient t W) (seqno : ℕ)
        → Keeps P (lookup_masterchain_block (some l) client seqno)
    unfolding lookup_masterchain_block
    block-Keeps client seqno = by_seqno (seqno_batch l.client) (seqno_batch-Keeps l.client) seqno

    fetch_encoded-Keeps :
        (client : LoaderClient t W) (key : ConfigParamsKey) (list : List ℕ)
        → Keeps P (fetch_encoded enc (some l) client key list)
    fetch_encoded-Keeps client key list =
        Keeps-bind _ _ (Keeps-wrap _ _ (block-Keeps client key.seqno)) λ found.
          Keeps-bind _ _ (Keeps-wrap (λ e. named key (codes ": " ++ e)) _ (request-Keeps blind _))
            λ params.
              Keeps-bind
                (wrap (λ e. named key (codes " marshal: " ++ e)) (lift (enc.marshal params))) _
                (Keeps-wrap _ _ (Keeps-lift _))
                λ encoded.
                  Keeps-wrap (λ e. named key (codes " to boc: " ++ e)) (lift (enc.to_boc encoded))
                    (Keeps-lift _)

    config_batch-Keeps :
        (client : LoaderClient t W)
        → (keys : List ConfigParamsKey) → Keeps P (config_batch enc (some l) client keys)
    unfolding config_batch config_result parse_param_list
    config_batch-Keeps client = Keeps-each (config_result enc (some l) client) λ key.
        Keeps-as_result _ _ (
          Keeps-bind
            (wrap (λ e. codes "parseParamList(" ++ (quote key.params ++ (codes "): " ++ e)))
              (lift (parse_param_list enc key.params)))
            _ (Keeps-wrap _ _ (Keeps-lift _)) λ list. fetch_encoded-Keeps client key list)

    -- The look-ups of a service that has loaders keep the property.
    pub lookups-IsKept : (client : LoaderClient t W) → IsKept P (lookups enc (some l) client)
    unfolding lookup_masterchain_block_by_utime cached_get_config_params
    lookups-IsKept client = record {
      block = block-Keeps client;
      block_by_utime = by_utime (utime_batch l.client) (utime_batch-Keeps l.client);
      config = λ ext n.
          Keeps-bind _ _
            (Keeps-attempt _
              (by_key (config_batch enc (some l) l.client) (config_batch-Keeps l.client) _))
            λ r. Keeps-lift _;
    }
