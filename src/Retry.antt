-- ===== src/Retry.antt =====
-- service/retry.go: up to 30 attempts of a call, and the liteservers that a retry session excludes.
mod Tests
pub mod Attempts
use ton_validators_rewards_a.Base.{
  ℕ, zero, suc, ◌-◌, Bool, true, false, ◌||◌, Option, none, some, List, [], ◌∷◌, if◌then◌else◌,
}
use ton_validators_rewards_a.Base.Int.{ℤ, pos, eq_ℤ}
use ton_validators_rewards_a.Base.Text.{codes, contains}
use ton_validators_rewards_a.Outcome.{Error, Outcome, ok, err, panic, Action}

-- The set of excluded client ids, and the client that the last request used.
pub record RetryExclude : Type 0 where
  pub excluded : List ℤ
  pub last_used : ℤ

-- One attempt runs in a world, with the exclude list that the context carries, if it has one.
pub record Session (W : Type 0) : Type 0 where
  pub exclude : Option RetryExclude
  pub world : W

abbrev pub retry_attempts : ℕ
retry_attempts = 30

unfoldable pub is_permanent_error : Error → Bool
is_permanent_error e = contains (codes "no connections available") e

unfoldable pub is_state_gc_error : Error → Bool
is_state_gc_error e =
    contains (codes "state already gc'd") e || contains (codes "ltdb: block not found") e

abbrev pub new_exclude : RetryExclude
new_exclude = record { excluded = []; last_used = pos 0 }

abbrev pub is_excluded : ℤ → List ℤ → Bool
is_excluded i [] = false
is_excluded i (j ∷ js) = eq_ℤ j i || is_excluded i js

-- `exclude.Excluded[exclude.LastUsed] = true`, if there is a list and the error is of that kind.
unfoldable pub note_gc : Error → Option RetryExclude → Option RetryExclude
note_gc e none = none
note_gc e (some x) =
    if is_state_gc_error e then some (record x { excluded = x.last_used ∷ x.excluded }) else some x

module _ {W : Type 0} where
  -- What the loop writes after a failed attempt that it is going to repeat.
  abbrev pub failed : {A : Type 0} → Outcome A × Session W → Session W
  failed (err e, s) = record s { exclude = note_gc e s.exclude }
  failed (ok a, s) = s
  failed (panic, s) = s

  -- One round: `again` is what follows an error that is not permanent.
  abbrev pub retry_round :
      {A : Type 0}
      → Outcome A × Session W
      → (Error → Session W → Outcome A × Session W)
      → Outcome A × Session W
  retry_round (ok a, s) again = (ok a, s)
  retry_round (panic, s) again = (panic, s)
  retry_round (err e, s) again =
      if is_permanent_error e
      then (err e, s)
      else again e (record s { exclude = note_gc e s.exclude })

  -- The loop with `left` more attempts behind the present one.
  unfoldable pub retry_loop : {A : Type 0} → ℕ → Action (Session W) A → Action (Session W) A
  retry_loop zero fn s = retry_round (fn s) (λ e s'. (err e, s'))
  retry_loop (suc left) fn s = retry_round (fn s) (λ e s'. retry_loop left fn s')

  unfoldable pub retry_with_context : {A : Type 0} → Action (Session W) A → Action (Session W) A
  retry_with_context = retry_loop (retry_attempts - 1)

  -- A context with a new exclude list, in place of one that it may have had.
  abbrev pub with_retry_exclude : W → Session W
  with_retry_exclude w = record { exclude = some new_exclude; world = w }

  unfoldable pub retry_with_exclude : {A : Type 0} → Action (Session W) A → Action (Session W) A
  unfolding retry_with_context
  retry_with_exclude fn = retry_with_context fn

  -- A call that is made in another context: it neither reads nor writes the exclude list.
  abbrev pub unaware : {A : Type 0} → Action W A → Action (Session W) A
  unaware fn s = let (r, w) = fn s.world in (r, record s { world = w })

  -- `retry` makes a context for its loop, but `fn` has no parameter to receive it.
  abbrev pub retry_session : {A : Type 0} → Action W A → W → Outcome A × Session W
  retry_session fn w = retry_with_context (unaware fn) (with_retry_exclude w)

  unfoldable pub retry : {A : Type 0} → Action W A → Action W A
  unfolding retry_with_context
  retry fn w = let (r, s) = retry_session fn w in (r, s.world)
