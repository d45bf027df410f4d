-- ===== src/Server/Sound.antt =====
-- What holds in every reachable state of the server, and of every answer there.
use ton_validators_rewards_a.Base.{ℕ, none, some}
use ton_validators_rewards_a.Outcome.{Keeps, Keeps-bind, Keeps-lift}
use ton_validators_rewards_a.Tlb.{Tongo}
use ton_validators_rewards_a.State.{State}
use ton_validators_rewards_a.Pool.Clean.{classify_keeps}
use ton_validators_rewards_a.Elections.Valid.{pools_or_parse-Keeps}
use ton_validators_rewards_a.Rounds.Kept.{IsKept}
use ton_validators_rewards_a.Loaders.{Encoding, lookups}
use ton_validators_rewards_a.Loaders.Kept.{lookups-IsKept}
use ton_validators_rewards_a.Stable.{IsStable, IsSound, IsSound-IsStable}
use ton_validators_rewards_a.Stable.Rounds.{
  fetch_round_rewards-Keeps, fetch_validation_rounds-Keeps,
}
use ton_validators_rewards_a.Stable.Blocks.{fetch_per_block_rewards-Keeps}
use ton_validators_rewards_a.Api.{Params, ValidatorService}
use ton_validators_rewards_a.Api.Kept.{
  IsKeptBy, handle_validators-Keeps, handle_validation_rounds-Keeps, handle_round_rewards-Keeps,
}
use ton_validators_rewards_a.Server.{
  Route, health, validators_route, rounds_route, rewards_route, openapi, swagger, Pages,
  serve_route, service_of,
}
use ton_validators_rewards_a.Server.Reach.{
  Request, IsLoading, service_for, answer, Step, asked, pool_cached, elections_cached, Reach, here,
  next, initial, Move, other_turn, pool_replied, elections_read, answered, Run, begun, moved,
}

module _ {t : Tongo} {W : Type 0} (enc : Encoding t) (pages : Pages) where
  module _ {P : State t W → Type 0} (st : IsStable P) where
    service_for-IsKeptBy :
        (r : Request t W) → IsLoading r.loaders → IsKeptBy P (service_for enc pages r)
    unfolding service_of
    service_for-IsKeptBy r ld =
        let l = lookups enc (some r.loaders) r.own in
        let k : IsKept P l =
          lookups-IsKept st.blind enc r.loaders (ld.by_utime P st.blind) (ld.by_seqno P st.blind)
            (ld.by_key P st.blind) r.own in
        record {
          blocks = fetch_per_block_rewards-Keeps st l k r.client r.clock.now r.clock.now;
          rounds = fetch_validation_rounds-Keeps st l k r.clock.now r.client;
          rewards = λ q shallow. fetch_round_rewards-Keeps st l k r.clock r.client shallow q;
        }

    serve_route-Keeps :
        (svc : ValidatorService (State t W) t.Float) (k : IsKeptBy P svc) (elapsed : ℕ)
        (params : Params) (route : Route)
        → Keeps P (serve_route pages svc elapsed params route)
    unfolding serve_route
    serve_route-Keeps svc k elapsed params health = Keeps-lift _
    serve_route-Keeps svc k elapsed params openapi = Keeps-lift _
    serve_route-Keeps svc k elapsed params swagger = Keeps-lift _
    serve_route-Keeps svc k elapsed params validators_route =
        Keeps-bind _ _ (handle_validators-Keeps st.blind svc k elapsed params) λ r. Keeps-lift _
    serve_route-Keeps svc k elapsed params rounds_route =
        Keeps-bind _ _ (handle_validation_rounds-Keeps st.blind svc k elapsed params)
          λ r. Keeps-lift _
    serve_route-Keeps svc k elapsed params rewards_route =
        Keeps-bind _ _ (handle_round_rewards-Keeps st.blind svc k elapsed params) λ r. Keeps-lift _

  Reach-IsStable : {before : State t W} → IsStable (Reach before)
  Reach-IsStable = record {
    blind = λ u n w h. next h (asked n w);
    pool_stored = λ addr info u fits h. next h (pool_cached addr info fits);
    elections_stored = λ parsed pools u e h. next h (elections_cached parsed pools e);
  }

  answer-Reach :
      {before s : State t W} (r : Request t W)
      → IsLoading r.loaders
      → Reach before s
      → Reach before (answer enc pages r s).1
  answer-Reach {s} r ld =
      let st = Reach-IsStable in
      (serve_route-Keeps st (service_for enc pages r) (service_for-IsKeptBy st r ld) r.elapsed
          r.params r.route).keep
        s

  Move-Reach : {before s u : State t W} → Move enc pages s u → Reach before s → Reach before u
  Move-Reach (other_turn n w) h = next h (asked n w)
  Move-Reach {s} (pool_replied addr reply) h =
      let st = Reach-IsStable in classify_keeps t st.blind st.pool_stored addr reply s h
  Move-Reach {s} (elections_read elections) h =
      let st = Reach-IsStable in
      (pools_or_parse-Keeps t st.blind st.elections_stored elections none).keep s h
  Move-Reach (answered r ld) h = answer-Reach r ld h

  -- What the server's moves lead to, the steps lead to.
  pub Run-Reach : {s u : State t W} → Run enc pages s u → Reach s u
  Run-Reach begun = here
  Run-Reach (moved run move) = Move-Reach move (Run-Reach run)

module _ {t : Tongo} {W : Type 0} {P : State t W → Type 0} (st : IsStable P) where
  Step-keeps : {s u : State t W} → Step s u → P s → P u
  Step-keeps {s} (asked n w) h = st.blind s n w h
  Step-keeps {s} (pool_cached addr info fits) h = st.pool_stored addr info s fits h
  Step-keeps {s} (elections_cached parsed pools e) h = st.elections_stored parsed pools s e h

  Reach-keeps : {s u : State t W} → Reach s u → P s → P u
  Reach-keeps here h = h
  Reach-keeps (next r step) h = Step-keeps step (Reach-keeps r h)

pub Reach-IsSound :
    {t : Tongo} {W : Type 0} (w : W) {s : State t W} → Reach (initial w) s → IsSound s
Reach-IsSound w r = Reach-keeps IsSound-IsStable r (tt, tt)

-- In every state that the moves of a server lead to from the start with empty caches, where several
-- requests may be under way, the cached map of validators is the one that is parsed from some
-- elections, with their sorted ids, and no nominator pool is in the pool cache. A move answers a
-- whole request, runs the rest of fetchPoolData with any reply of the network, or the rest of
-- getAllPoolAddresses behind a miss of its cache with any elections, or it is the turn of another
-- request and the network. A dataloader only runs its batches and changes its own cache.
pub Run-IsSound :
    {t : Tongo} {W : Type 0} (enc : Encoding t) (pages : Pages) (w : W) {s : State t W}
    → Run enc pages (initial w) s
    → IsSound s
Run-IsSound enc pages w run = Reach-IsSound w (Run-Reach enc pages run)
