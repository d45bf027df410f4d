-- ===== src/Rounds/Search.antt =====
-- The walk of findElectionBoundary on a chain whose blocks can be read, next to a change of the id.
use mathlib.Core.Path.{subst}
use ton_validators_rewards_a.Base.{
  ℕ, zero, suc, ◌+◌, ◌-◌, ◌^◌, ◌≤◌, ◌<◌, ◌≡◌, ◌≢◌, ◌⊎◌, refl, sym, ap, ◌∙◌, some, ◌==◌, ltb,
  if◌then◌else◌, Bool-cases, inl, inr, arith, ==_iff,
}
use ton_validators_rewards_a.Base.Int.{ℤ, eq_ℤ, eq_ℤ→eq}
use ton_validators_rewards_a.Outcome.{
  Outcome, ok, err, panic, Action, continue, attempt, Succeeds, continue-Succeeds, Succeeds-ok,
}
use ton_validators_rewards_a.Tlb.{Tongo, BlockIdExt}
use ton_validators_rewards_a.Rounds.Lookup.{
  Loaders, id_or_empty, get_config_param34, lookup_election_id_for_block,
}
use ton_validators_rewards_a.Rounds.Boundary.{
  ElectionBoundary, Step, found, moved, add32, sub32, max_boundary_search, then_id, look_block,
  look_around, forward, after_forward, backward, after_backward, or_continue, walk,
  find_election_boundary,
}
use ton_validators_rewards_a.Rounds.Adjacent.{election_of}
use ton_validators_rewards_a.Rounds.Read.{
  IsRound, not_positive, Succeeds-map_error, attempt-Succeeds, convert-IsRound,
}

module _ {t : Tongo} {S : Type 0} (l : Loaders t S) (params_at : ℕ → t.ConfigParams) (id_at : ℕ → ℤ)
    (top : ℕ) (rounds_exist : (n : ℕ) → election_of t (params_at n) ≡ some (id_at n))
    (config : (ext : BlockIdExt) (s : S)
      → Succeeds (λ p. p ≡ params_at ext.seqno) (l.cached_get_config_params (some ext) ext.seqno s))
    (by_seqno : (n : ℕ) (s : S)
      → n ≤ top
      → Succeeds (λ p. p.0.seqno ≡ n) (l.lookup_masterchain_block n s))
    (calm : (n : ℕ) (s : S) → (l.lookup_masterchain_block n s).0 ≢ panic) where
  lookup_id-Succeeds :
      (ext : BlockIdExt) (s : S)
      → Succeeds (λ id. id ≡ id_at ext.seqno) (lookup_election_id_for_block l ext s)
  unfolding get_config_param34 lookup_election_id_for_block
  lookup_id-Succeeds ext s =
      continue-Succeeds (IsRound (id_at ext.seqno)) _ (get_config_param34 l ext s)
        (id_or_empty l ext)
        (continue-Succeeds (λ p. p ≡ params_at ext.seqno) _ _ _
          (Succeeds-map_error _ _ (l.cached_get_config_params (some ext) ext.seqno s)
            (config ext s))
          (λ p w e. rw (e) (
            convert-IsRound l ext _ (id_at ext.seqno)
              (t.convert_blockchain_config (params_at ext.seqno)) w (rounds_exist ext.seqno))))
        (λ r w (e, nonzero). rw (nonzero) e)

  -- The look-ups ahead do not fail.
  after_attempt :
      {A : Type 0} (x : Outcome A × S) (f : Outcome A → Action S (Outcome ℤ))
      → x.0 ≢ panic
      → ((r : Outcome A) (s : S) → r ≢ panic → Succeeds (λ _. Unit) (f r s))
      → Succeeds (λ _. Unit) (continue (attempt (λ (_ : S). x) x.1) f)
  after_attempt (ok a, s) f h next = next (ok a) s (λ e. cc)
  after_attempt (err m, s) f h next = next (err m) s (λ e. cc)
  after_attempt (panic, s) f h next = elim (h refl) [ ]

  then_id-Succeeds :
      (r : Outcome (BlockIdExt × ℕ)) (s : S) → r ≢ panic → Succeeds (λ _. Unit) (then_id l r s)
  then_id-Succeeds (ok b) s h =
      attempt-Succeeds _ (lookup_election_id_for_block l b.0 s) (lookup_id-Succeeds b.0 s)
  then_id-Succeeds (err e) s h = tt
  then_id-Succeeds panic s h = elim (h refl) [ ]

  look_block-Succeeds : (n : ℕ) (s : S) → Succeeds (λ _. Unit) (look_block l n s)
  unfolding look_block
  look_block-Succeeds n s =
      after_attempt (l.lookup_masterchain_block n s) (then_id l) (calm n s) then_id-Succeeds

  and_look :
      {A : Type 0} (n : ℕ) (s : S) (rest : Action S A)
      → ((w : S) → Succeeds (λ _. Unit) (rest w))
      → Succeeds (λ _. Unit) (continue (look_block l n s) (λ _. rest))
  and_look n s rest next =
      continue-Succeeds (λ _. Unit) (λ _. Unit) (look_block l n s) (λ _. rest)
        (look_block-Succeeds n s) (λ _ w _. next w)

  look_around-Succeeds : (n : ℕ) (s : S) → Succeeds (λ _. Unit) (look_around l n s)
  unfolding look_around
  look_around-Succeeds n s = and_look (sub32 n 2) s _ (λ w1. and_look (sub32 n 1) w1 _ (λ w2.
      and_look n w2 _ (λ w3. and_look (add32 n 1) w3 _ (λ w4. look_block-Succeeds (add32 n 2) w4))))

  -- A step that does not end the walk moves its end to the block `m` of the same election.
  abbrev IsStep : ℤ → ℕ → Step → Type 0
  IsStep eid m (found b) = Unit
  IsStep eid m (moved ext) = (ext.seqno ≡ m) × (id_at m ≡ eid)

  decide-IsStep :
      (b : ElectionBoundary) (ext : BlockIdExt) (eid id : ℤ) (m : ℕ)
      → ext.seqno ≡ m
      → id ≡ id_at ext.seqno
      → IsStep eid m (if eq_ℤ id eid then moved ext else found b)
  decide-IsStep b ext eid id m at e = elim (Bool-cases (eq_ℤ id eid)) [
    | inl h ↦ rw (h) (at, cc (eq_ℤ→eq id eid h))
    | inr h ↦ rw (h) tt
  ]

  attempt_step :
      (eid : ℤ) (m : ℕ) (f : Outcome (BlockIdExt × ℕ) → Action S Step)
      (x : Outcome (BlockIdExt × ℕ) × S)
      → Succeeds (λ p. p.0.seqno ≡ m) x
      → ((next : BlockIdExt × ℕ) (s : S)
          → next.0.seqno ≡ m
          → Succeeds (IsStep eid m) (f (ok next) s))
      → Succeeds (IsStep eid m) (continue (attempt (λ (_ : S). x) x.1) f)
  attempt_step eid m f (ok p, s) at next = next p s at
  attempt_step eid m f (err e, s) at next = elim at [ ]
  attempt_step eid m f (panic, s) at next = elim at [ ]

  forward-Succeeds :
      (eid : ℤ) (fwd : BlockIdExt) (s : S) (m : ℕ)
      → add32 fwd.seqno 1 ≡ m
      → m ≤ top
      → Succeeds (IsStep eid m) (forward l eid fwd s)
  unfolding forward
  forward-Succeeds eid fwd s m e bound = rw (e) (
      attempt_step eid m (after_forward l eid fwd) (l.lookup_masterchain_block m s)
        (by_seqno m s bound)
        (λ next s' at.
          continue-Succeeds (λ id. id ≡ id_at next.0.seqno) _
            (lookup_election_id_for_block l next.0 s') _ (lookup_id-Succeeds next.0 s')
            (λ id w h. decide-IsStep _ next.0 eid id m at h)))

  backward-Succeeds :
      (eid : ℤ) (bwd : BlockIdExt) (s : S)
      → id_at bwd.seqno ≡ eid
      → bwd.seqno ≤ top
      → Succeeds (IsStep eid (bwd.seqno - 1)) (backward l eid bwd s)
  unfolding backward
  backward-Succeeds eid bwd s same bound = elim (Bool-cases (ltb 0 bwd.seqno)) [
    | inl e ↦ rw (e) (
        attempt_step eid (bwd.seqno - 1) (after_backward l eid bwd)
          (l.lookup_masterchain_block (bwd.seqno - 1) s) (by_seqno (bwd.seqno - 1) s (omega arith))
          (λ prev s' at.
            continue-Succeeds (λ id. id ≡ id_at prev.0.seqno) _
              (lookup_election_id_for_block l prev.0 s') _ (lookup_id-Succeeds prev.0 s')
              (λ id w h. decide-IsStep _ prev.0 eid id (bwd.seqno - 1) at h)))
    | inr e ↦ rw (e) (let z = not_positive bwd.seqno e in (z, rw (sym z) same))
  ]

  or_continue-Succeeds :
      (eid : ℤ) (m : ℕ) (next : BlockIdExt → Action S ElectionBoundary) (x : Outcome Step × S)
      → Succeeds (IsStep eid m) x
      → ((ext : BlockIdExt) (s : S)
          → ext.seqno ≡ m
          → id_at m ≡ eid
          → Succeeds (λ _. Unit) (next ext s))
      → Succeeds (λ _. Unit) (continue x (λ step. or_continue l eid step next))
  or_continue-Succeeds eid m next (ok (found b), s) h rest = tt
  or_continue-Succeeds eid m next (ok (moved ext), s) (at, same) rest = rest ext s at same
  or_continue-Succeeds eid m next (err e, s) h rest = elim h [ ]
  or_continue-Succeeds eid m next (panic, s) h rest = elim h [ ]

  module _ (n approx : ℕ) (inside : n + max_boundary_search ≤ top) (fits : top < 2 ^ 32) where
    -- The ids of all blocks up to `i` away are the same.
    abbrev Same : ℕ → Type 0
    Same i = (j : ℕ) → j ≤ i → (id_at (n + j) ≡ id_at n) × (id_at (n - j) ≡ id_at n)

    Same-suc :
        (i : ℕ) → Same i → id_at (n + suc i) ≡ id_at n → id_at (n - suc i) ≡ id_at n → Same (suc i)
    Same-suc i h up down j bound = elim (Bool-cases (j == suc i)) [
      | inl e ↦ let k = (==_iff j (suc i)).0 e in rw (k) (up, down)
      | inr e ↦ h j (ground arith)
    ]

    -- With `i` rounds done, the walk goes on from `n + i` and `n - i`.
    walk-Succeeds :
        (rounds i : ℕ) (fwd bwd : BlockIdExt) (s : S)
        → i + rounds ≡ max_boundary_search
        → Same i
        → (Same max_boundary_search → ⊥)
        → fwd.seqno ≡ n + i
        → bwd.seqno ≡ n - i
        → Succeeds (λ _. Unit) (walk l (id_at n) approx rounds fwd bwd s)
    unfolding walk
    walk-Succeeds zero i fwd bwd s total same change ef eb =
        elim (change (subst Same (omega arith) same)) [ ]
    walk-Succeeds (suc rounds) i fwd bwd s total same change ef eb =
        or_continue-Succeeds (id_at n) (n + suc i) _ (forward l (id_at n) fwd s)
          (forward-Succeeds (id_at n) fwd s (n + suc i) (rw (ef) (omega arith)) (omega arith))
          (λ fwd' s' ef' up.
            or_continue-Succeeds (id_at n) (n - suc i) _ (backward l (id_at n) bwd s')
              (subst (λ m. Succeeds (IsStep (id_at n) m) (backward l (id_at n) bwd s'))
                (rw (eb) (omega arith))
                (backward-Succeeds (id_at n) bwd s' (rw (eb) (same i (omega arith)).1)
                  (rw (eb) (omega arith))))
              (λ bwd' s'' eb' down.
                walk-Succeeds rounds (suc i) fwd' bwd' s'' (omega arith) (Same-suc i same up down)
                  change ef' eb'))

  -- findElectionBoundary returns a boundary if the block near the given time is block n, and some
  -- block at most 20 before or after it (block 0 stands for the ones before it) has another
  -- election id: where every block up to `top`, which is at least n + 20 and below 2 ^ 32, can be
  -- looked up, the config of every block can be read and is not empty, and no look-up of a block
  -- panics.
  pub find_election_boundary-found :
      (n approx k : ℕ) (s : S)
      → Succeeds (λ ext. ext.seqno ≡ n) (l.lookup_masterchain_block_by_utime approx s)
      → n + max_boundary_search ≤ top
      → top < 2 ^ 32
      → k ≤ max_boundary_search
      → (id_at (n + k) ≢ id_at n) ⊎ (id_at (n - k) ≢ id_at n)
      → (b : ElectionBoundary) × ((find_election_boundary l approx s).0 ≡ ok b)
  unfolding find_election_boundary
  find_election_boundary-found n approx k s near inside fits close change =
      Succeeds-ok (λ _. Unit) (find_election_boundary l approx s)
        (continue-Succeeds (λ ext. ext.seqno ≡ n) (λ _. Unit)
          (l.lookup_masterchain_block_by_utime approx s) _ near
          (λ ext s1 at.
            continue-Succeeds (λ id. id ≡ id_at ext.seqno) (λ _. Unit)
              (lookup_election_id_for_block l ext s1) _ (lookup_id-Succeeds ext s1)
              (λ eid s2 e.
                continue-Succeeds (λ _. Unit) (λ _. Unit) (look_around l ext.seqno s2) _
                  (look_around-Succeeds ext.seqno s2)
                  (λ _ s3 _.
                    subst
                      (λ x. Succeeds (λ _. Unit) (walk l x approx max_boundary_search ext ext s3))
                      (sym (e ∙ ap id_at at))
                      (walk-Succeeds n approx inside fits max_boundary_search 0 ext ext s3 refl
                        (λ j low. (ap id_at (omega arith), ap id_at (omega arith)))
                        (λ same. elim change [
                          | inl up ↦ up (same k close).0
                          | inr down ↦ down (same k close).1
                        ])
                        (omega arith) (omega arith))))))
