-- ===== src/Rounds/Read.antt =====
-- The steps of getConfigParam34 on a config that can be read.
use ton_validators_rewards_a.Base.{
  ℕ, ◌-◌, ◌≡◌, refl, Bool, true, false, ◌||◌, none, some, ◌==◌, ltb, if◌then◌else◌, arith,
}
use ton_validators_rewards_a.Base.Int.{ℤ, pos}
use ton_validators_rewards_a.Outcome.{
  Outcome, ok, err, panic, Error, map_error, continue, attempt, Succeeds,
}
use ton_validators_rewards_a.Tlb.{Tongo, BlockIdExt, BlockchainConfig}
use ton_validators_rewards_a.Chain.{get_round_info}
use ton_validators_rewards_a.Rounds.Lookup.{Loaders, round_or_empty}
use ton_validators_rewards_a.Rounds.Adjacent.{election_of_round, election_of_outcome}

-- A round with an id that is not 0.
abbrev pub IsRound : ℤ → ℕ × ℕ → Type 0
IsRound id r = (pos r.0 ≡ id) × ((r.0 == 0) ≡ false)

guarded-some :
    (b : Bool) (x : ℤ) {id : ℤ} → (if b then none else some x) ≡ some id → (b ≡ false) × (x ≡ id)
guarded-some true x h = cc
guarded-some false x h = (refl, cc)

or-false : (a b : Bool) → (a || b) ≡ false → a ≡ false
or-false true b h = h
or-false false b h = refl

pub not_positive : (n : ℕ) → ltb 0 n ≡ false → n ≡ n - 1
not_positive n h = ground arith

module _ {S : Type 0} where
  pub Succeeds-map_error :
      {A : Type 0} (Q : A → Type 0) (f : Error → Error) (x : Outcome A × S)
      → Succeeds Q x
      → Succeeds Q (map_error f x.0, x.1)
  Succeeds-map_error Q f (ok a, s) h = h
  Succeeds-map_error Q f (err e, s) h = elim h [ ]
  Succeeds-map_error Q f (panic, s) h = elim h [ ]

  round_or_empty-IsRound :
      {t : Tongo} (l : Loaders t S) (ext : BlockIdExt) (id : ℤ) (round : ℕ × ℕ) (s : S)
      → election_of_round round ≡ some id
      → Succeeds (IsRound id) (round_or_empty l ext round s)
  round_or_empty-IsRound l ext id (since, until) s h =
      let (nonzero, same) = guarded-some ((since == 0) || (until == 0)) (pos since) h in
      rw (nonzero) (same, or-false (since == 0) (until == 0) nonzero)

  pub attempt-Succeeds :
      {A : Type 0} (Q : A → Type 0) (x : Outcome A × S)
      → Succeeds Q x
      → Succeeds (λ _. Unit) (attempt (λ (_ : S). x) x.1)
  attempt-Succeeds Q (ok a, s) h = tt
  attempt-Succeeds Q (err e, s) h = elim h [ ]
  attempt-Succeeds Q (panic, s) h = elim h [ ]

  pub convert-IsRound :
      {t : Tongo} (l : Loaders t S) (ext : BlockIdExt) (f : Error → Error) (id : ℤ)
      (r : Outcome BlockchainConfig) (s : S)
      → election_of_outcome r ≡ some id
      → Succeeds
          (IsRound id)
          (continue (map_error f r, s) (λ c. round_or_empty l ext (get_round_info (some c))))
  convert-IsRound l ext f id (ok c) s h =
      round_or_empty-IsRound l ext id (get_round_info (some c)) s h
  convert-IsRound l ext f id (err e) s h = cc
  convert-IsRound l ext f id panic s h = cc
