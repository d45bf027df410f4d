-- ===== src/Loaders/Answers.antt =====
-- The results of batches, and of what is read from them.
use ton_validators_rewards_a.Base.{ℕ, ◌≡◌, ⊤, none, List, [], ◌∷◌}
use ton_validators_rewards_a.Outcome.{
  Error, Outcome, ok, err, panic, Action, map_error, ok_injective, Ensures, continue-Ensures,
  Ensures-in,
}
use ton_validators_rewards_a.Retry.{Session}
use ton_validators_rewards_a.Loaders.{Result, loaded, skip_cache, result_of, each, without_session}
use ton_validators_rewards_a.Loaders.Honest.{Answers}

module _ {S K V : Type 0} (Q : K → V → Type 0) (one : K → Action S (Result V)) where
  abbrev pub IsAnswer : K → Result V → Type 0
  IsAnswer key (loaded v) = Q key v
  IsAnswer key (skip_cache e) = ⊤

  more :
      (key : K) (keys : List K) (r : Result V) (rs : List (Result V))
      → IsAnswer key r
      → Answers Q keys rs
      → Answers Q (key ∷ keys) (r ∷ rs)
  more key keys (loaded v) rs h hs = (h, hs)
  more key keys (skip_cache e) rs h hs = hs

  pub each-Answers :
      ((key : K) (s : S) → Ensures (IsAnswer key) (one key s))
      → (keys : List K) (s : S) → Ensures (Answers Q keys) (each one keys s)
  unfolding each
  each-Answers h [] s = tt
  each-Answers h (key ∷ keys) s =
      continue-Ensures (IsAnswer key) (Answers Q (key ∷ keys)) (one key s) _ (h key s)
        λ r s1 answer.
          continue-Ensures (Answers Q keys) (Answers Q (key ∷ keys)) (each one keys s1) _
            (each-Answers h keys s1) λ rs s2 answers. more key keys r rs answer answers

  pub as_result-IsAnswer :
      (f : Error → Error) (key : K) (x : Outcome V × S)
      → Ensures (Q key) x
      → Ensures (IsAnswer key) (result_of f x.0, x.1)
  as_result-IsAnswer f key (ok v, s) h = h
  as_result-IsAnswer f key (err e, s) h = tt
  as_result-IsAnswer f key (panic, s) h = tt

pub without_session-Ensures :
    {W A : Type 0} (Q : A → Type 0) (m : Action (Session W) A)
    → ((s : Session W) → Ensures Q (m s))
    → (w : W) → Ensures Q (without_session m w)
without_session-Ensures Q m h w =
    let s : Session _ = record { exclude = none; world = w } in
    Ensures-in Q (λ x. x.world) (m s) (h s)

-- What holds of a result under a condition on the call.
pub Ensures-under :
    {W A C : Type 0} (Q : A → Type 0) (x : Outcome A × W)
    → (C → Ensures Q x)
    → Ensures (λ a. C → Q a) x
Ensures-under Q (ok a, w) h = h
Ensures-under Q (err e, w) h = tt
Ensures-under Q (panic, w) h = tt

pub Ensures-given :
    {W A C : Type 0} (Q : A → Type 0) (x : Outcome A × W)
    → C
    → Ensures (λ a. C → Q a) x
    → Ensures Q x
Ensures-given Q (ok a, w) c h = h c
Ensures-given Q (err e, w) c h = tt
Ensures-given Q (panic, w) c h = tt

pub parsed-Is34 :
    {S : Type 0} (f : Error → Error) (r : Outcome (List ℕ)) (s : S)
    → r ≡ ok (34 ∷ [])
    → Ensures (λ list. list ≡ 34 ∷ []) (map_error f r, s)
parsed-Is34 f (ok list) s e = ok_injective e
parsed-Is34 f (err m) s e = tt
parsed-Is34 f panic s e = tt
