-- ===== src/State/Requests.antt =====
-- A request, with its repetitions, leaves the caches alone.
use ton_validators_rewards_a.Base.{ℕ, ◌≡◌, refl, ◌∙◌, Option}
use ton_validators_rewards_a.Outcome.{Action, ◌>>◌, Keeps, Ensures, Ensures-in}
use ton_validators_rewards_a.Tlb.{Tongo}
use ton_validators_rewards_a.Retry.{
  Session, retry_loop, retry, retry_with_context, unaware, with_retry_exclude,
}
use ton_validators_rewards_a.Retry.Attempts.{retry_loop_keeps, retry_loop-Ensures}
use ton_validators_rewards_a.State.{State, request, count_rpc, remote}

module _ {t : Tongo} {W A : Type 0} (m : Action W A) {B : Type 0} (view : State t W → B)
    (blind : (s : State t W) (n : Option ℕ) (w : W)
      → view (record s { rpc_count = n; net = w }) ≡ view s) where
  call-view : (s : State t W) → view ((count_rpc >> remote m) s).1 ≡ view s
  unfolding count_rpc
  call-view s = blind s _ _

  pub request-view : (s : State t W) → view (request m s).1 ≡ view s
  unfolding request retry retry_with_context
  request-view s =
      retry_loop_keeps (unaware (count_rpc >> remote m)) (λ x. view x.world ≡ view s)
        (λ x h. call-view x.world ∙ h) (λ e x h. h) 29 (with_retry_exclude s) refl

-- A property that looks neither at the counter nor at the network.
abbrev pub IsBlind : {t : Tongo} {W : Type 0} → (State t W → Type 0) → Type 0
IsBlind {t} {W} P =
    (s : State t W) (n : Option ℕ) (w : W) → P s → P (record s { rpc_count = n; net = w })

module _ {t : Tongo} {W : Type 0} {P : State t W → Type 0} (blind : IsBlind P) where
  pub request-Keeps : {A : Type 0} (m : Action W A) → Keeps P (request m)
  unfolding request retry retry_with_context count_rpc
  request-Keeps m = record {
    keep = λ s h.
        retry_loop_keeps (unaware (count_rpc >> remote m)) (λ x. P x.world)
          (λ x h'. blind x.world _ _ h') (λ e x h'. h') 29 (with_retry_exclude s) h;
  }

module _ {t : Tongo} {W A : Type 0} (Q : A → Type 0) (m : Action W A)
    (ensures : (w : W) → Ensures Q (m w)) where
  call-Ensures :
      (s : Session (State t W)) → Ensures Q (unaware (count_rpc {t = t} {W = W} >> remote m) s)
  unfolding count_rpc
  call-Ensures s =
      Ensures-in Q (λ w. record s { world = (record (count_rpc s.world).1 { net = w }) })
        (m s.world.net) (ensures s.world.net)

  -- A result of a request is one of its calls' results.
  pub request-Ensures : (s : State t W) → Ensures Q (request m s)
  unfolding request retry retry_with_context
  request-Ensures s =
      Ensures-in Q (λ x. x.world)
        (retry_loop 29 (unaware (count_rpc >> remote m)) (with_retry_exclude s))
        (retry_loop-Ensures Q (unaware (count_rpc >> remote m)) call-Ensures 29
          (with_retry_exclude s))
