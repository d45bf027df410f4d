-- ===== src/Base/Dict.antt =====
-- Go maps as association lists, over a test of keys. A key that is written again keeps its place.
use mathlib.Core.Path.{◌≡◌, refl}
use mathlib.Core.Logic.{◌↔◌, inl, inr}
use mathlib.Core.Bool.{Bool, true}
use mathlib.Core.Option.{Option, none, some}
use mathlib.Core.List.{List, [], ◌∷◌}
use native.Mathlib.Omega.{arith}
use ton_validators_rewards_a.Base.Tests.{if◌then◌else◌, Bool-cases}
use ton_validators_rewards_a.Base.Lists.{All}

module _ {K V : Type 0} (same : K → K → Bool) where
  abbrev pub lookup : K → List (K × V) → Option V
  lookup k [] = none
  lookup k ((j, v) ∷ d) = if same j k then some v else lookup k d

  abbrev pub insert : K → V → List (K × V) → List (K × V)
  insert k v [] = (k, v) ∷ []
  insert k v ((j, w) ∷ d) = if same j k then (k, v) ∷ d else (j, w) ∷ insert k v d

  module _ (same_iff : (a b : K) → (same a b ≡ true) ↔ (a ≡ b)) where
    -- One equation for both cases of a look-up behind a write.
    pub lookup-insert :
        (k j : K) (v : V) (d : List (K × V))
        → lookup j (insert k v d) ≡ (if same k j then some v else lookup j d)
    lookup-insert k j v [] = refl
    lookup-insert k j v ((i, w) ∷ d) =
        ground (arith, same_iff k j, same_iff i k, same_iff i j, lookup-insert k j v d)

  pub insert-All :
      (P : V → Type 0) (k : K) (v : V) (d : List (K × V))
      → P v
      → All (λ e. P e.1) d
      → All (λ e. P e.1) (insert k v d)
  insert-All P k v [] pv h = (pv, tt)
  insert-All P k v ((j, w) ∷ d) pv h = elim (Bool-cases (same j k)) [
    | inl e ↦ rw e (pv, h.1)
    | inr e ↦ rw e (h.0, insert-All P k v d pv h.1)
  ]
