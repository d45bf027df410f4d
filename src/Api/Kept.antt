-- ===== src/Api/Kept.antt =====
-- The handlers of api/handler.go keep what the service keeps.
use ton_validators_rewards_a.Base.{ℕ, Bool, ◌&&◌, Option, ltb}
use ton_validators_rewards_a.Outcome.{Outcome, ok, err, panic, Action, Keeps, Keeps-lift, Keeps-if}
use ton_validators_rewards_a.Tlb.{Tongo}
use ton_validators_rewards_a.Model.{RoundsQuery}
use ton_validators_rewards_a.State.{State, with_rpc_counter}
use ton_validators_rewards_a.State.Requests.{IsBlind}
use ton_validators_rewards_a.Api.{
  Params, Response, ValidatorService, parse_seqno, parse_unixtime, is_some, is_shallow, given,
  parse_query, serve, with_param, serve_block, handle_validators, handle_validation_rounds,
  handle_round_rewards,
}

-- The three calls of the service keep a property.
pub record IsKeptBy {S F : Type 0} (P : S → Type 0) (svc : ValidatorService S F) : Type 0 where
  pub blocks :
      (seqno unixtime : Option ℕ) (shallow : Bool)
      → Keeps P (svc.fetch_per_block_rewards seqno unixtime shallow)
  pub rounds : (q : RoundsQuery) → Keeps P (svc.fetch_validation_rounds q)
  pub rewards : (q : RoundsQuery) (shallow : Bool) → Keeps P (svc.fetch_round_rewards q shallow)

module _ {S A : Type 0} {P : S → Type 0} where
  serve-Keeps : (stamp : A → A) (m : Action S A) → Keeps P m → Keeps P (serve stamp m)
  unfolding serve
  serve-Keeps stamp m k = record { keep = λ s h. k.keep s h }

  with_param-Keeps :
      {B : Type 0} (r : Outcome B) (next : B → Action S (Response A))
      → ((b : B) → Keeps P (next b))
      → Keeps P (with_param r next)
  with_param-Keeps (ok b) next k = k b
  with_param-Keeps (err e) next k = Keeps-lift _
  with_param-Keeps panic next k = Keeps-lift _

module _ {t : Tongo} {W : Type 0} {P : State t W → Type 0} (blind : IsBlind P) where
  counted-Keeps :
      {A : Type 0} (m : Action (State t W) A) → Keeps P m → Keeps P (λ s. m (with_rpc_counter s))
  unfolding with_rpc_counter
  counted-Keeps m k = record { keep = λ s h. k.keep (with_rpc_counter s) (blind s _ _ h) }

  module _ (svc : ValidatorService (State t W) t.Float) (k : IsKeptBy P svc) (elapsed : ℕ)
      (params : Params) where
    pub handle_validators-Keeps : Keeps P (handle_validators svc elapsed params)
    unfolding handle_validators
    handle_validators-Keeps =
        counted-Keeps (serve_block svc elapsed params (parse_seqno params) (parse_unixtime params))
          (with_param-Keeps (parse_seqno params) _ λ n.
            with_param-Keeps (parse_unixtime params) _ λ u.
              Keeps-if (is_some n && is_some u) (Keeps-lift _)
                (serve-Keeps _ _ (k.blocks n u (is_shallow params))))

    pub handle_validation_rounds-Keeps : Keeps P (handle_validation_rounds svc elapsed params)
    unfolding handle_validation_rounds
    handle_validation_rounds-Keeps = counted-Keeps _ (
        Keeps-if (ltb 1 (given params)) (Keeps-lift _)
          (with_param-Keeps (parse_query params) _ λ q. serve-Keeps _ _ (k.rounds q)))

    pub handle_round_rewards-Keeps : Keeps P (handle_round_rewards svc elapsed params)
    unfolding handle_round_rewards
    handle_round_rewards-Keeps = counted-Keeps _ (
        Keeps-if (ltb 1 (given params)) (Keeps-lift _) (
          Keeps-if (ltb (given params) 1) (Keeps-lift _) (
            with_param-Keeps (parse_query params) _
              λ q. serve-Keeps _ _ (k.rewards q (is_shallow params)))))
