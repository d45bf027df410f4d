-- ===== src/Outcome.antt =====
-- What a Go call can do: return a value, return a non-nil error, or panic. Stateful code also passes
-- on the state of the world (the network, the caches) that it read and changed.
use mathlib.Core.Path.{subst}
use ton_validators_rewards_a.Base.{◌≡◌, refl, Bool, true, false, if◌then◌else◌}
use ton_validators_rewards_a.Base.Text.{Text}

-- An error is its message, as `err.Error()` gives it; `%w` puts the inner message into the outer.
abbrev pub Error : Type 0
Error = Text

pub data Outcome {ℓ} (A : Type ℓ) : Type ℓ where
  ok : A → Outcome A
  err : Error → Outcome A
  panic : Outcome A

-- A computation over a world `W`.
abbrev pub Action {ℓ} : Type 0 → Type ℓ → Type ℓ
Action W A = W → Outcome A × W

abbrev pub map_error {ℓ} : {A : Type ℓ} → (Error → Error) → Outcome A → Outcome A
map_error f (ok a) = ok a
map_error f (err e) = err (f e)
map_error f panic = panic

module _ {ℓ κ} {A : Type ℓ} {B : Type κ} where
  abbrev pub and_then : Outcome A → (A → Outcome B) → Outcome B
  and_then (ok a) f = f a
  and_then (err e) f = err e
  and_then panic f = panic

  -- The rest of a computation after one outcome.
  abbrev pub continue : {W : Type 0} → Outcome A × W → (A → Action W B) → Outcome B × W
  continue (ok a, w) f = f a w
  continue (err e, w) f = (err e, w)
  continue (panic, w) f = (panic, w)

infixl 5 ◌>>=◌ ◌>>◌
abbrev pub ◌>>=◌ {ℓ κ} :
    {W : Type 0} {A : Type ℓ} {B : Type κ} → Action W A → (A → Action W B) → Action W B
◌>>=◌ m f w = continue (m w) f

abbrev pub ◌>>◌ {ℓ κ} :
    {W : Type 0} {A : Type ℓ} {B : Type κ} → Action W A → Action W B → Action W B
m >> k = m >>= λ _. k

module _ {ℓ} {W : Type 0} {A : Type ℓ} where
  abbrev pub pure : A → Action W A
  pure a w = (ok a, w)

  abbrev pub fail : Error → Action W A
  fail e w = (err e, w)

  abbrev pub lift : Outcome A → Action W A
  lift r w = (r, w)

  -- `if err != nil { return fmt.Errorf("…: %w", err) }`
  abbrev pub wrap : (Error → Error) → Action W A → Action W A
  wrap f m w = let (r, w') = m w in (map_error f r, w')

  -- `a, err := m()`, where the code looks at the error and goes on: only a panic ends it.
  abbrev pub attempt : Action W A → Action W (Outcome A)
  attempt m w =
      let (r, w') = m w in (elim r [ panic ↦ panic | ok a ↦ ok (ok a) | err e ↦ ok (err e) ], w')

pub ok_injective {ℓ} : {A : Type ℓ} {a b : A} → ok a ≡ ok b → a ≡ b
ok_injective h = cc

module _ {ℓ κ} {W : Type 0} {A : Type ℓ} {B : Type κ} where
  pub continue-ok :
      (x : Outcome A × W) (f : A → Action W B) {a : A} → x.0 ≡ ok a → continue x f ≡ f a x.1
  continue-ok (ok b, w) f h = rw (ok_injective h)
  continue-ok (err e, w) f h = cc
  continue-ok (panic, w) f h = cc

-- An action that keeps a property of the state, however it ends.
pub record Keeps {ℓ} {W : Type 0} (P : W → Type 0) {A : Type ℓ} (m : Action W A) : Type 0 where
  pub keep : (w : W) → P w → P (m w).1

module _ {ℓ κ} {W : Type 0} {P : W → Type 0} {A : Type ℓ} {B : Type κ} where
  continue_keeps :
      (x : Outcome A × W) (f : A → Action W B)
      → P x.1
      → ((a : A) (w : W) → P w → P (f a w).1)
      → P (continue x f).1
  continue_keeps (ok a, w) f h next = next a w h
  continue_keeps (err e, w) f h next = h
  continue_keeps (panic, w) f h next = h

  pub Keeps-bind :
      (m : Action W A) (f : A → Action W B)
      → Keeps P m
      → ((a : A) → Keeps P (f a))
      → Keeps P (m >>= f)
  Keeps-bind m f k next = record {
    keep = λ w h. continue_keeps (m w) f (k.keep w h) (λ a w'. (next a).keep w');
  }

module _ {ℓ} {W : Type 0} {P : W → Type 0} {A : Type ℓ} where
  pub Keeps-lift : (r : Outcome A) → Keeps P (lift r)
  Keeps-lift r = record { keep = λ w h. h }

  pub Keeps-if :
      {m k : Action W A} (b : Bool) → Keeps P m → Keeps P k → Keeps P (if b then m else k)
  Keeps-if true h h' = h
  Keeps-if false h h' = h'

  pub Keeps-wrap : (f : Error → Error) (m : Action W A) → Keeps P m → Keeps P (wrap f m)
  Keeps-wrap f m k = record { keep = λ w h. k.keep w h }

-- What a result satisfies if there is one.
abbrev pub Ensures {ℓ} : {W : Type 0} {A : Type ℓ} → (A → Type 0) → Outcome A × W → Type 0
Ensures Q (ok a, w) = Q a
Ensures Q (err e, w) = Unit
Ensures Q (panic, w) = Unit

module _ {ℓ κ} {W : Type 0} {A : Type ℓ} {B : Type κ} where
  pub continue-Ensures :
      (P : A → Type 0) (Q : B → Type 0) (x : Outcome A × W) (f : A → Action W B)
      → Ensures P x
      → ((a : A) (w : W) → P a → Ensures Q (f a w))
      → Ensures Q (continue x f)
  continue-Ensures P Q (ok a, w) f h next = next a w h
  continue-Ensures P Q (err e, w) f h next = tt
  continue-Ensures P Q (panic, w) f h next = tt

  -- The same where nothing is asked of the first result.
  pub continue-Ensures_any :
      (Q : B → Type 0) (x : Outcome A × W) (f : A → Action W B)
      → ((a : A) (w : W) → Ensures Q (f a w))
      → Ensures Q (continue x f)
  continue-Ensures_any Q (ok a, w) f next = next a w
  continue-Ensures_any Q (err e, w) f next = tt
  continue-Ensures_any Q (panic, w) f next = tt

pub Ensures-ok {ℓ} :
    {W : Type 0} {A : Type ℓ} (Q : A → Type 0) (x : Outcome A × W) {a : A}
    → Ensures Q x
    → x.0 ≡ ok a
    → Q a
Ensures-ok Q (ok b, w) h e = subst Q (ok_injective e) h
Ensures-ok Q (err m, w) h e = cc
Ensures-ok Q (panic, w) h e = cc

-- What the result satisfies, which there is.
abbrev pub Succeeds {ℓ} : {W : Type 0} {A : Type ℓ} → (A → Type 0) → Outcome A × W → Type 0
Succeeds Q (ok a, w) = Q a
Succeeds Q (err e, w) = ⊥
Succeeds Q (panic, w) = ⊥

module _ {ℓ κ} {W : Type 0} {A : Type ℓ} {B : Type κ} where
  pub continue-Succeeds :
      (P : A → Type 0) (Q : B → Type 0) (x : Outcome A × W) (f : A → Action W B)
      → Succeeds P x
      → ((a : A) (w : W) → P a → Succeeds Q (f a w))
      → Succeeds Q (continue x f)
  continue-Succeeds P Q (ok a, w) f h next = next a w h
  continue-Succeeds P Q (err e, w) f h next = elim h [ ]
  continue-Succeeds P Q (panic, w) f h next = elim h [ ]

pub Succeeds-ok {ℓ} :
    {W : Type 0} {A : Type ℓ} (Q : A → Type 0) (x : Outcome A × W)
    → Succeeds Q x
    → (a : A) × (x.0 ≡ ok a)
Succeeds-ok Q (ok a, w) h = (a, refl)
Succeeds-ok Q (err e, w) h = elim h [ ]
Succeeds-ok Q (panic, w) h = elim h [ ]

module _ {ℓ κ} {W : Type 0} {A : Type ℓ} {B : Type κ} where
  -- Where only the state that the first action leaves matters.
  pub continue-Ensures_state :
      (P : W → Type 0) (Q : B → Type 0) (x : Outcome A × W) (f : A → Action W B)
      → P x.1
      → ((a : A) (w : W) → P w → Ensures Q (f a w))
      → Ensures Q (continue x f)
  continue-Ensures_state P Q (ok a, w) f h next = next a w h
  continue-Ensures_state P Q (err e, w) f h next = tt
  continue-Ensures_state P Q (panic, w) f h next = tt

pub Ensures-of_ok {ℓ} :
    {W : Type 0} {A : Type ℓ} (Q : A → Type 0) (x : Outcome A × W)
    → ((a : A) → x.0 ≡ ok a → Q a)
    → Ensures Q x
Ensures-of_ok Q (ok a, w) h = h a refl
Ensures-of_ok Q (err e, w) h = tt
Ensures-of_ok Q (panic, w) h = tt

pub Ensures-in {ℓ} :
    {V W : Type 0} {A : Type ℓ} (Q : A → Type 0) (f : V → W) (x : Outcome A × V)
    → Ensures Q x
    → Ensures Q (x.0, f x.1)
Ensures-in Q f (ok a, v) h = h
Ensures-in Q f (err e, v) h = tt
Ensures-in Q f (panic, v) h = tt
