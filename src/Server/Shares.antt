-- ===== src/Server/Shares.antt =====
-- The answers of the server: what they report is shared out.
use ton_validators_rewards_a.Base.{⊤, Bool, true, false, ◌&&◌, some, ltb, if◌then◌else◌}
use ton_validators_rewards_a.Outcome.{
  Outcome, ok, err, panic, Action, Ensures, continue-Ensures, continue-Ensures_any, Ensures-of_ok,
}
use ton_validators_rewards_a.Tlb.{Tongo}
use ton_validators_rewards_a.State.{State, with_rpc_counter}
use ton_validators_rewards_a.Rounds.Kept.{IsKept}
use ton_validators_rewards_a.Rounds.Bonuses.{SharesOut}
use ton_validators_rewards_a.Rounds.Paid.{HasValid, fetch_round_rewards-SharesOut}
use ton_validators_rewards_a.Blocks.Shares.{SharesBlock, fetch_per_block_rewards-SharesBlock}
use ton_validators_rewards_a.Loaders.{Encoding, lookups}
use ton_validators_rewards_a.Loaders.Kept.{lookups-IsKept}
use ton_validators_rewards_a.Api.{
  Response, Body, error_body, result_body, parse_seqno, parse_unixtime, is_some, is_shallow, given,
  parse_query, serve, after_fetch, with_param, handle_round_rewards, handle_validators,
  handle_validation_rounds,
}
use ton_validators_rewards_a.Server.{
  Answer, page, block_answer, rounds_answer, rewards_answer, Route, health, validators_route,
  rounds_route, rewards_route, openapi, swagger, Pages, serve_route, service_of,
}
use ton_validators_rewards_a.Server.Reach.{Request, IsLoading, service_for, answer, Reach, initial}
use ton_validators_rewards_a.Server.Sound.{Reach-IsSound}
use ton_validators_rewards_a.Stable.{IsParsed-IsValid}

-- What the result in a response satisfies; an error has none.
abbrev pub InBody : {A : Type 0} → (A → Type 0) → Body A → Type 0
InBody Q (error_body e) = ⊤
InBody Q (result_body a) = Q a

abbrev pub InResult : {A : Type 0} → (A → Type 0) → Response A → Type 0
InResult Q r = InBody Q r.body

-- An answer shares out the bonuses of the round, or the reward of the block, that it reports.
abbrev pub Shares : (t : Tongo) → Answer t.Float → Type 0
Shares t (page content_type body) = ⊤
Shares t (block_answer r) = InResult (SharesBlock t) r
Shares t (rounds_answer r) = ⊤
Shares t (rewards_answer r) = InResult SharesOut r

module _ {S A : Type 0} (Q : A → Type 0) where
  after_fetch-InResult :
      (stamp : A → A) (x : Outcome A × S)
      → ((a : A) → Q a → Q (stamp a))
      → Ensures Q x
      → Ensures (InResult Q) (after_fetch stamp x.0, x.1)
  after_fetch-InResult stamp (ok a, s) stamped h = stamped a h
  after_fetch-InResult stamp (err e, s) stamped h = tt
  after_fetch-InResult stamp (panic, s) stamped h = tt

  with_param-InResult :
      {B : Type 0} (r : Outcome B) (next : B → Action S (Response A)) (s : S)
      → ((b : B) → Ensures (InResult Q) (next b s))
      → Ensures (InResult Q) (with_param r next s)
  with_param-InResult (ok b) next s h = h b
  with_param-InResult (err e) next s h = tt
  with_param-InResult panic next s h = tt

  if-InResult :
      (b : Bool) (m k : Action S (Response A)) (s : S)
      → Ensures (InResult Q) (m s)
      → Ensures (InResult Q) (k s)
      → Ensures (InResult Q) ((if b then m else k) s)
  if-InResult true m k s h h' = h
  if-InResult false m k s h h' = h'

module _ {t : Tongo} {W : Type 0} (enc : Encoding t) (pages : Pages) (r : Request t W)
    (ld : IsLoading r.loaders) (s : State t W) (valid : HasValid s) where
  loaders-IsKept : IsKept HasValid (lookups enc (some r.loaders) r.own)
  loaders-IsKept =
      lookups-IsKept (λ s' n w h. h) enc r.loaders (ld.by_utime HasValid (λ s' n w h. h))
        (ld.by_seqno HasValid (λ s' n w h. h)) (ld.by_key HasValid (λ s' n w h. h)) r.own

  rewards-InResult :
      Ensures
        (InResult SharesOut)
        (handle_round_rewards (service_for enc pages r) r.elapsed r.params s)
  unfolding handle_round_rewards serve with_rpc_counter service_of
  rewards-InResult =
      let s' = with_rpc_counter s in
      if-InResult SharesOut (ltb 1 (given r.params)) _ _ s' tt (
        if-InResult SharesOut (ltb (given r.params) 1) _ _ s' tt (
          with_param-InResult SharesOut (parse_query r.params) _ s' λ q.
            let x = (service_for enc pages r).fetch_round_rewards q (is_shallow r.params) s' in
            after_fetch-InResult SharesOut (λ out. record out { response_time_ms = r.elapsed }) x
              (λ out h. h)
              (Ensures-of_ok SharesOut x (λ out.
                fetch_round_rewards-SharesOut (lookups enc (some r.loaders) r.own) loaders-IsKept
                  r.clock r.client (is_shallow r.params) q s' valid))))

  blocks-InResult :
      Ensures
        (InResult (SharesBlock t))
        (handle_validators (service_for enc pages r) r.elapsed r.params s)
  unfolding handle_validators serve with_rpc_counter service_of
  blocks-InResult =
      let s' = with_rpc_counter s in
      let Q = SharesBlock t in
      with_param-InResult Q (parse_seqno r.params) _ s' λ n.
        with_param-InResult Q (parse_unixtime r.params) _ s' λ u.
          if-InResult Q (is_some n && is_some u) _ _ s' tt (
            let x =
              (service_for enc pages r).fetch_per_block_rewards n u (is_shallow r.params) s' in
            after_fetch-InResult Q (λ out. record out { response_time_ms = r.elapsed }) x
              (λ out h. h)
              (Ensures-of_ok Q x (λ out.
                fetch_per_block_rewards-SharesBlock (lookups enc (some r.loaders) r.own) r.client
                  r.clock.now r.clock.now (is_shallow r.params) loaders-IsKept n u s' valid)))

  route-Shares :
      (route : Route)
      → Ensures (Shares t) (serve_route pages (service_for enc pages r) r.elapsed r.params route s)
  unfolding serve_route
  route-Shares health = tt
  route-Shares openapi = tt
  route-Shares swagger = tt
  route-Shares rounds_route =
      continue-Ensures_any (Shares t)
        (handle_validation_rounds (service_for enc pages r) r.elapsed r.params s) _ (λ a s'. tt)
  route-Shares validators_route =
      continue-Ensures (InResult (SharesBlock t)) (Shares t) _ _ blocks-InResult (λ a s' h. h)
  route-Shares rewards_route =
      continue-Ensures (InResult SharesOut) (Shares t) _ _ rewards-InResult (λ a s' h. h)

-- Every answer of the server shares out what it reports: in every state that the steps of any
-- requests lead to from the start with empty caches, an answer with the rewards of a round, or of a
-- block, misses no validator's reward, and the rewards add up to no more than the bonuses of the
-- round, or the reward of the block, and less than one unit for each validator is left over
-- (without stakes, a block's rewards add up to 0). A dataloader only runs its batches and changes
-- its own cache; from this state on the request is answered alone.
pub answer-Shares :
    {t : Tongo} {W : Type 0} (enc : Encoding t) (pages : Pages) (w : W) {s : State t W}
    (r : Request t W)
    → IsLoading r.loaders
    → Reach (initial w) s
    → Ensures (Shares t) (answer enc pages r s)
answer-Shares enc pages w {s} r ld reached =
    route-Shares enc pages r ld s (IsParsed-IsValid _ s.past_elections (Reach-IsSound w reached).0)
      r.route
