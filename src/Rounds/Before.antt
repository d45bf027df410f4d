-- ===== src/Rounds/Before.antt =====
-- The election that fetchPrevElectionIDForBlock finds.
use mathlib.Core.Path.{subst}
use ton_validators_rewards_a.Base.{
  ℕ, zero, suc, ◌<◌, ◌≡◌, ◌≢◌, Bool, false, true, ◌∙◌, ap, List, [], ◌∷◌, All, arith, leb,
  if◌then◌else◌, some, Bool-cases, inl, inr,
}
use ton_validators_rewards_a.Base.Int.{ℤ, eq_ℤ, eq_ℤ→eq, eq_ℤ_refl}
use ton_validators_rewards_a.Outcome.{
  Outcome, ok, err, panic, Action, Ensures, continue-Ensures, Ensures-ok,
}
use ton_validators_rewards_a.Tlb.{Tongo, BlockIdExt}
use ton_validators_rewards_a.Rounds.Lookup.{
  Loaders, get_election_id_for_block, lookup_election_id_for_block,
}
use ton_validators_rewards_a.Rounds.Boundary.{sub32}
use ton_validators_rewards_a.Rounds.Anchor.{walk_back, fetch_prev_election_id_for_block}
use ton_validators_rewards_a.Rounds.Adjacent.{election_of, lookup_id-election}

-- The block and the k before it, and the next one behind these.
abbrev pub back : ℕ → ℕ → List ℕ
back n zero = n ∷ []
back n (suc k) = n ∷ back (sub32 n 1) k

abbrev pub below : ℕ → ℕ → ℕ
below n zero = sub32 n 1
below n (suc k) = below (sub32 n 1) k

-- Among the blocks that are fewer than `rounds` before block n, the first one of another election than
-- `current` is of the election `id`.
abbrev pub IsPrevious :
    (t : Tongo) → (params_at : ℕ → t.ConfigParams) → (rounds n : ℕ) → (current id : ℤ) → Type 0
IsPrevious t params_at rounds n current id =
    (k : ℕ) × (k < rounds)
    × All (λ m. election_of t (params_at m) ≡ some current) (back n k)
    × (election_of t (params_at (below n k)) ≡ some id)
    × (id ≢ current)

either_Ensures :
    {S A : Type 0} (Q : A → Type 0) (b : Bool) (f g : Action S A) (s : S)
    → Ensures Q (f s)
    → Ensures Q (g s)
    → Ensures Q ((if b then f else g) s)
either_Ensures Q true f g s hf hg = hf
either_Ensures Q false f g s hf hg = hg

not_same : (a b : ℤ) → eq_ℤ a b ≡ false → a ≢ b
not_same a b other e =
    let same : eq_ℤ a b ≡ true = subst (λ c. eq_ℤ a c ≡ true) e (eq_ℤ_refl a) in cc

module _ {t : Tongo} {S : Type 0} (l : Loaders t S) (params_at : ℕ → t.ConfigParams)
    (by_seqno : (n : ℕ) (s : S) → Ensures (λ p. p.0.seqno ≡ n) (l.lookup_masterchain_block n s))
    (config : (ext : BlockIdExt) (s : S)
      → Ensures
          (λ p. p ≡ params_at ext.seqno)
          (l.cached_get_config_params (some ext) ext.seqno s)) where
  get_id-election :
      (n : ℕ) (s : S)
      → Ensures (λ id. election_of t (params_at n) ≡ some id) (get_election_id_for_block l n s)
  unfolding get_election_id_for_block
  get_id-election n s =
      continue-Ensures (λ p. p.0.seqno ≡ n) (λ id. election_of t (params_at n) ≡ some id)
        (l.lookup_masterchain_block n s) _ (by_seqno n s)
        λ p s1 same.
          subst
            (λ m.
              Ensures (λ id. election_of t (params_at m) ≡ some id)
                (lookup_election_id_for_block l p.0 s1))
            same (lookup_id-election l params_at by_seqno config p.0 s1)

  walk_back-IsPrevious :
      (rounds : ℕ) (current : ℤ) (n : ℕ) (s : S)
      → election_of t (params_at n) ≡ some current
      → Ensures (IsPrevious t params_at rounds n current) (walk_back l rounds current n s)
  unfolding walk_back
  walk_back-IsPrevious zero current n s here = tt
  walk_back-IsPrevious (suc rounds) current n s here =
      continue-Ensures (λ id. election_of t (params_at (sub32 n 1)) ≡ some id)
        (IsPrevious t params_at (suc rounds) n current) (get_election_id_for_block l (sub32 n 1) s)
        _ (get_id-election (sub32 n 1) s)
        λ prev s1 is_prev. elim (Bool-cases (eq_ℤ prev current)) [
          | inl same ↦ rw (same) (
              further (walk_back l rounds current (sub32 n 1) s1) (
                walk_back-IsPrevious rounds current (sub32 n 1) s1
                  (is_prev ∙ ap some (eq_ℤ→eq prev current same))))
          | inr other ↦
              rw (other) (0, omega arith, (here, tt), is_prev, not_same prev current other)
        ]
    where
      further :
          (x : Outcome ℤ × S)
          → Ensures (IsPrevious t params_at rounds (sub32 n 1) current) x
          → Ensures (IsPrevious t params_at (suc rounds) n current) x
      further (ok id, s2) (k, few, between, is_id, other) =
          (suc k, omega arith, (here, between), is_id, other)
      further (err e, s2) h = tt
      further (panic, s2) h = tt

  -- An id that fetchPrevElectionIDForBlock returns is that of the election before: going back from
  -- the block, the first block of another election than the block's own has this id, and it is at
  -- most 1000 blocks before, where the block before block 0 is the last one of uint32. Look-ups of
  -- a seqno that succeed give a block of that seqno, and the config of a block depends on its seqno
  -- only.
  pub fetch_prev_election_id_for_block-IsPrevious :
      (n : ℕ) (s : S) {id : ℤ}
      → (fetch_prev_election_id_for_block l n s).0 ≡ ok id
      → (current : ℤ) × IsPrevious t params_at 1000 n current id
  unfolding fetch_prev_election_id_for_block
  fetch_prev_election_id_for_block-IsPrevious n s =
      Ensures-ok (λ id. (current : ℤ) × IsPrevious t params_at 1000 n current id)
        (fetch_prev_election_id_for_block l n s)
        (either_Ensures (λ id. (current : ℤ) × IsPrevious t params_at 1000 n current id) (leb n 1) _
          _ s tt
          (continue-Ensures (λ id. election_of t (params_at n) ≡ some id)
            (λ id. (current : ℤ) × IsPrevious t params_at 1000 n current id)
            (get_election_id_for_block l n s) _ (get_id-election n s)
            λ current s1 here.
              with_current current (walk_back l 1000 current n s1)
                (walk_back-IsPrevious 1000 current n s1 here)))
    where
      with_current :
          (current : ℤ) (x : Outcome ℤ × S)
          → Ensures (IsPrevious t params_at 1000 n current) x
          → Ensures (λ id. (c : ℤ) × IsPrevious t params_at 1000 n c id) x
      with_current current (ok id, s2) h = (current, h)
      with_current current (err e, s2) h = tt
      with_current current (panic, s2) h = tt
