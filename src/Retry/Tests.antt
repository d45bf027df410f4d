-- ===== src/Retry/Tests.antt =====
-- A call that fails until its third attempt, and one that always fails.
use ton_validators_rewards_a.Base.{
  ℕ, zero, suc, ◌+◌, ◌≡◌, ◌<◌, ◌≤◌, refl, arith, ltb, if◌then◌else◌,
}
use ton_validators_rewards_a.Base.Text.{codes, contains, has_prefix}
use ton_validators_rewards_a.Outcome.{ok, err, Action}
use ton_validators_rewards_a.Retry.{
  Session, failed, retry_with_context, retry_session, with_retry_exclude, unaware,
  is_permanent_error,
}
use ton_validators_rewards_a.Retry.Attempts.{
  session_after, Fails, IsOnlyZero, retry_with_context-final, retry_with_context-calls,
  retry-IsOnlyZero,
}

-- The world counts the attempts.
abbrev third_time : Action (Session ℕ) ℕ
third_time s = (
  if ltb s.world 2 then err (codes "state already gc'd") else ok 42,
  record s { world = s.world + 1 },
)

abbrev always_fails : Action ℕ ℕ
always_fails w = (err (codes "state already gc'd"), w + 1)

abbrev start : Session ℕ
start = with_retry_exclude 0

retry_with_context-final_example :
    retry_with_context third_time start ≡ third_time (session_after third_time 2 start)
unfolding is_permanent_error contains has_prefix
retry_with_context-final_example =
    retry_with_context-final third_time 2 start (omega arith) (refl, (refl, tt)) tt

always_fails-Fails : (k : ℕ) (s : Session ℕ) → Fails (unaware always_fails) k s
unfolding is_permanent_error contains has_prefix
always_fails-Fails zero s = tt
always_fails-Fails (suc k) s = (refl, always_fails-Fails k (failed (unaware always_fails s)))

retry_with_context-calls_example :
    (0 < (retry_with_context third_time start).1.world)
    × ((retry_with_context third_time start).1.world ≤ 30)
retry_with_context-calls_example =
    retry_with_context-calls third_time (λ s. s.world) (λ s. refl) (λ s x. refl) start

retry-IsOnlyZero_example : IsOnlyZero (retry_session always_fails 0).1.exclude
retry-IsOnlyZero_example = retry-IsOnlyZero always_fails 0
