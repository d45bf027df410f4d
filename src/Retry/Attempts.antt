-- ===== src/Retry/Attempts.antt =====
-- The retry loop against a description of its attempts.
use ton_validators_rewards_a.Base.{
  ℕ, zero, suc, ◌+◌, ◌≤◌, ◌<◌, ◌≡◌, ◌∙◌, refl, ⊤, true, false, Option, none, some, arith, All, inl,
  inr, Bool-cases,
}
use ton_validators_rewards_a.Base.Int.{pos}
use ton_validators_rewards_a.Outcome.{Error, Outcome, ok, err, panic, Action, Ensures}
use ton_validators_rewards_a.Retry.{
  RetryExclude, Session, is_permanent_error, note_gc, failed, retry_round, retry_loop,
  retry_attempts, retry_with_context, retry_session, unaware, with_retry_exclude, is_state_gc_error,
}

-- An outcome that the loop repeats, and one that ends it.
abbrev pub IsTransient : {A : Type 0} → Outcome A → Type 0
IsTransient (err e) = is_permanent_error e ≡ false
IsTransient (ok a) = ⊥
IsTransient panic = ⊥

abbrev pub IsFinal : {A : Type 0} → Outcome A → Type 0
IsFinal (err e) = is_permanent_error e ≡ true
IsFinal (ok a) = ⊤
IsFinal panic = ⊤

module _ {W A : Type 0} (fn : Action (Session W) A) where
  -- The session in which the attempt behind `k` failed ones runs.
  abbrev pub session_after : ℕ → Session W → Session W
  session_after zero s = s
  session_after (suc k) s = session_after k (failed (fn s))

  -- The next `k` attempts all fail with errors that are not permanent.
  abbrev pub Fails : ℕ → Session W → Type 0
  Fails zero s = ⊤
  Fails (suc k) s = IsTransient (fn s).0 × Fails k (failed (fn s))

  round_final :
      (r : Outcome A × Session W) (again : Error → Session W → Outcome A × Session W)
      → IsFinal r.0
      → retry_round r again ≡ r
  round_final (ok a, s) again h = refl
  round_final (panic, s) again h = refl
  round_final (err e, s) again h = rw h

  round_transient :
      (r : Outcome A × Session W) (again : Session W → Outcome A × Session W)
      → IsTransient r.0
      → retry_round r (λ e. again) ≡ again (failed r)
  round_transient (ok a, s) again h = absurd h
  round_transient (panic, s) again h = absurd h
  round_transient (err e, s) again h = rw h

  retry_loop-final :
      (left k : ℕ) (s : Session W)
      → k ≤ left
      → Fails k s
      → IsFinal (fn (session_after k s)).0
      → retry_loop left fn s ≡ fn (session_after k s)
  unfolding retry_loop
  retry_loop-final zero zero s le h f = round_final (fn s) _ f
  retry_loop-final (suc left) zero s le h f = round_final (fn s) _ f
  retry_loop-final zero (suc k) s le h f = absurd (omega arith)
  retry_loop-final (suc left) (suc k) s le h f =
      rw (round_transient (fn s) (retry_loop left fn) h.0)
        (retry_loop-final left k (failed (fn s)) (omega arith) h.1 f)

  retry_loop-exhausted :
      (left : ℕ) (s : Session W)
      → Fails (suc left) s
      → retry_loop left fn s ≡ ((fn (session_after left s)).0, session_after (suc left) s)
  unfolding retry_loop
  retry_loop-exhausted zero s h = round_exhausted (fn s) h.0
    where
      round_exhausted :
          (r : Outcome A × Session W)
          → IsTransient r.0
          → retry_round r (λ e s'. (err e, s')) ≡ (r.0, failed r)
      round_exhausted (ok a, s') h' = absurd h'
      round_exhausted (panic, s') h' = absurd h'
      round_exhausted (err e, s') h' = rw h'
  retry_loop-exhausted (suc left) s h =
      rw (round_transient (fn s) (retry_loop left fn) h.0)
        (retry_loop-exhausted left (failed (fn s)) h.1)

  -- Fewer than 30 failures that are not permanent cannot be seen from outside: the caller gets what
  -- the first other attempt gave, be it a value, a permanent error or a panic.
  pub retry_with_context-final :
      (k : ℕ) (s : Session W)
      → k < retry_attempts
      → Fails k s
      → IsFinal (fn (session_after k s)).0
      → retry_with_context fn s ≡ fn (session_after k s)
  unfolding retry_with_context
  retry_with_context-final k s lt = retry_loop-final 29 k s (omega arith)

  -- After 30 failures that are not permanent the loop gives up with the last error.
  pub retry_with_context-exhausted :
      (s : Session W)
      → Fails retry_attempts s
      → retry_with_context fn s ≡ ((fn (session_after 29 s)).0, session_after retry_attempts s)
  unfolding retry_with_context
  retry_with_context-exhausted s = retry_loop-exhausted 29 s

  -- Between one and 30 calls are made, by any measure that a call raises by one.
  module _ (calls : Session W → ℕ) (counted : (s : Session W) → calls (fn s).1 ≡ calls s + 1)
      (blind : (s : Session W) (x : Option RetryExclude)
        → calls (record s { exclude = x }) ≡ calls s) where
    round-calls :
        (r : Outcome A × Session W) (again : Error → Session W → Outcome A × Session W)
        (start n : ℕ)
        → calls r.1 ≡ start + 1
        → ((e : Error) (s : Session W)
            → calls s ≡ start + 1
            → (start < calls (again e s).1) × (calls (again e s).1 ≤ start + 1 + n))
        → (start < calls (retry_round r again).1) × (calls (retry_round r again).1 ≤ start + 1 + n)
    round-calls (ok a, s) again start n h next = omega arith
    round-calls (panic, s) again start n h next = omega arith
    round-calls (err e, s) again start n h next = elim (Bool-cases (is_permanent_error e)) [
      | inl permanent ↦ rw permanent (omega arith)
      | inr transient ↦
          let x = note_gc e s.exclude in
          rw transient (omega (arith, next e (record s { exclude = x }) (blind s x ∙ h)))
    ]

    retry_loop-calls :
        (left : ℕ) (s : Session W)
        → (calls s < calls (retry_loop left fn s).1)
          × (calls (retry_loop left fn s).1 ≤ calls s + 1 + left)
    unfolding retry_loop
    retry_loop-calls zero s =
        round-calls (fn s) (λ e s'. (err e, s')) (calls s) 0 (counted s) (λ e s' h. omega arith)
    retry_loop-calls (suc left) s =
        round-calls (fn s) (λ e s'. retry_loop left fn s') (calls s) (suc left) (counted s)
          (λ e s' h. omega (arith, retry_loop-calls left s'))

    -- The loop makes at least one call and at most 30, by any measure that each call raises by one
    -- and that does not depend on the exclude list.
    pub retry_with_context-calls :
        (s : Session W)
        → (calls s < calls (retry_with_context fn s).1)
          × (calls (retry_with_context fn s).1 ≤ calls s + retry_attempts)
    unfolding retry_with_context
    retry_with_context-calls s = omega (arith, retry_loop-calls 29 s)

-- What every attempt and every entry into the exclude list keep, the loop keeps.
module _ {W A : Type 0} (fn : Action (Session W) A) (P : Session W → Type 0)
    (keeps : (s : Session W) → P s → P (fn s).1)
    (noted : (e : Error) (s : Session W)
      → P s
      → P (record s { exclude = note_gc e s.exclude })) where
  round_keeps :
      (r : Outcome A × Session W) (again : Error → Session W → Outcome A × Session W)
      → P r.1
      → ((e : Error) (s : Session W) → P s → P (again e s).1)
      → P (retry_round r again).1
  round_keeps (ok a, s) again h next = h
  round_keeps (panic, s) again h next = h
  round_keeps (err e, s) again h next = elim (Bool-cases (is_permanent_error e)) [
    | inl permanent ↦ rw permanent h
    | inr transient ↦
        rw transient (next e (record s { exclude = note_gc e s.exclude }) (noted e s h))
  ]

  pub retry_loop_keeps : (left : ℕ) (s : Session W) → P s → P (retry_loop left fn s).1
  unfolding retry_loop
  retry_loop_keeps zero s h = round_keeps (fn s) _ (keeps s h) (λ e s' h'. h')
  retry_loop_keeps (suc left) s h =
      round_keeps (fn s) _ (keeps s h) (λ e s' h'. retry_loop_keeps left s' h')

-- What every attempt ensures of its result, the loop ensures.
module _ {W A : Type 0} (Q : A → Type 0) (fn : Action (Session W) A)
    (ensures : (s : Session W) → Ensures Q (fn s)) where
  round-Ensures :
      (r : Outcome A × Session W) (again : Error → Session W → Outcome A × Session W)
      → Ensures Q r
      → ((e : Error) (s : Session W) → Ensures Q (again e s))
      → Ensures Q (retry_round r again)
  round-Ensures (ok a, s) again h next = h
  round-Ensures (panic, s) again h next = tt
  round-Ensures (err e, s) again h next = elim (Bool-cases (is_permanent_error e)) [
    | inl permanent ↦ rw permanent tt
    | inr transient ↦ rw transient (next e (record s { exclude = note_gc e s.exclude }))
  ]

  pub retry_loop-Ensures : (left : ℕ) (s : Session W) → Ensures Q (retry_loop left fn s)
  unfolding retry_loop
  retry_loop-Ensures zero s = round-Ensures (fn s) _ (ensures s) (λ e s'. tt)
  retry_loop-Ensures (suc left) s =
      round-Ensures (fn s) _ (ensures s) (λ e. retry_loop-Ensures left)

-- Nothing is excluded but client 0, and no request is recorded as made by another one.
abbrev pub IsOnlyZero : Option RetryExclude → Type 0
IsOnlyZero none = ⊤
IsOnlyZero (some x) = (x.last_used ≡ pos 0) × All (λ i. i ≡ pos 0) x.excluded

note_gc-IsOnlyZero : (e : Error) (x : Option RetryExclude) → IsOnlyZero x → IsOnlyZero (note_gc e x)
unfolding note_gc
note_gc-IsOnlyZero e none h = tt
note_gc-IsOnlyZero e (some x) h = elim (Bool-cases (is_state_gc_error e)) [
  | inl gc ↦ rw gc (h.0, (h.0, h.1))
  | inr other ↦ rw other h
]

-- Whatever the errors were, the exclude list that `retry` makes names no client but number 0: the
-- call is made in another context, so the client that it used is never written into the list.
pub retry-IsOnlyZero :
    {W A : Type 0} (fn : Action W A) (w : W) → IsOnlyZero (retry_session fn w).1.exclude
unfolding retry_with_context
retry-IsOnlyZero fn w =
    retry_loop_keeps (unaware fn) (λ s. IsOnlyZero s.exclude) (λ s h. h)
      (λ e s h. note_gc-IsOnlyZero e s.exclude h) 29 (with_retry_exclude w) (refl, tt)
