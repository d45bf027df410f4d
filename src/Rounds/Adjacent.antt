-- ===== src/Rounds/Adjacent.antt =====
-- What a boundary that findElectionBoundary finds is: two adjacent blocks of different elections.
use ton_validators_rewards_a.Base.{
  ℕ, zero, suc, ◌-◌, ◌^◌, ◌<◌, ◌≡◌, ◌≢◌, refl, sym, ◌||◌, Option, none, some, ◌==◌, ltb,
  if◌then◌else◌, Bool-cases, inl, inr, arith, ltb→lt,
}
use ton_validators_rewards_a.Base.Int.{ℤ, pos, eq_ℤ, eq_ℤ→eq, eq_ℤ_refl}
use ton_validators_rewards_a.Outcome.{
  Outcome, ok, err, panic, Error, Action, map_error, continue, attempt, Ensures, continue-Ensures,
  continue-Ensures_any, Ensures-ok,
}
use ton_validators_rewards_a.Tlb.{Tongo, BlockIdExt, BlockchainConfig}
use ton_validators_rewards_a.Chain.{get_round_info}
use ton_validators_rewards_a.Rounds.Lookup.{
  Loaders, round_or_empty, id_or_empty, get_config_param34, lookup_election_id_for_block,
}
use ton_validators_rewards_a.Rounds.Boundary.{
  ElectionBoundary, Step, found, moved, add32, max_boundary_search, look_around, forward,
  after_forward, backward, after_backward, or_continue, walk, find_election_boundary,
}

-- The election id that config param 34 of a block gives, if it is not empty.
abbrev pub election_of_round : ℕ × ℕ → Option ℤ
election_of_round (since, until) = if (since == 0) || (until == 0) then none else some (pos since)

abbrev pub election_of_outcome : Outcome BlockchainConfig → Option ℤ
election_of_outcome (ok c) = election_of_round (get_round_info (some c))
election_of_outcome (err e) = none
election_of_outcome panic = none

abbrev pub election_of : (t : Tongo) → t.ConfigParams → Option ℤ
election_of t params = election_of_outcome (t.convert_blockchain_config params)

module _ {S : Type 0} where
  pub Ensures-map_error :
      {A : Type 0} (Q : A → Type 0) (f : Error → Error) (x : Outcome A × S)
      → Ensures Q x
      → Ensures Q (map_error f x.0, x.1)
  Ensures-map_error Q f (ok a, s) h = h
  Ensures-map_error Q f (err e, s) h = tt
  Ensures-map_error Q f (panic, s) h = tt

  round_or_empty-election :
      {t : Tongo} (l : Loaders t S) (ext : BlockIdExt) (round : ℕ × ℕ) (s : S)
      → Ensures (λ r. election_of_round round ≡ some (pos r.0)) (round_or_empty l ext round s)
  round_or_empty-election l ext (since, until) s =
      elim (Bool-cases ((since == 0) || (until == 0))) [ inl e ↦ rw (e) tt | inr e ↦ rw (e) refl ]

  convert-election :
      {t : Tongo} (l : Loaders t S) (ext : BlockIdExt) (f : Error → Error)
      (r : Outcome BlockchainConfig) (s : S)
      → Ensures
          (λ round. election_of_outcome r ≡ some (pos round.0))
          (continue (map_error f r, s) (λ c. round_or_empty l ext (get_round_info (some c))))
  convert-election l ext f (ok c) s = round_or_empty-election l ext (get_round_info (some c)) s
  convert-election l ext f (err e) s = tt
  convert-election l ext f panic s = tt

-- The two blocks of a boundary and their ids, in a chain where block n has the params `params_at n`.
pub record IsBoundary (t : Tongo) (params_at : ℕ → t.ConfigParams) (b : ElectionBoundary)
    : Type 0 where
  pub before_id : election_of t (params_at b.before_block.seqno) ≡ some b.before_election_id
  pub after_id : election_of t (params_at b.after_block.seqno) ≡ some b.after_election_id
  pub changed : b.before_election_id ≢ b.after_election_id
  pub adjacent : b.after_block.seqno ≡ add32 b.before_block.seqno 1

module _ {t : Tongo} {S : Type 0} (l : Loaders t S) (params_at : ℕ → t.ConfigParams)
    (by_seqno : (n : ℕ) (s : S) → Ensures (λ p. p.0.seqno ≡ n) (l.lookup_masterchain_block n s))
    (config : (ext : BlockIdExt) (s : S)
      → Ensures
          (λ p. p ≡ params_at ext.seqno)
          (l.cached_get_config_params (some ext) ext.seqno s)) where
  -- The end of the walk belongs to the election `eid`.
  abbrev IsIn : ℤ → BlockIdExt → Type 0
  IsIn eid ext = (election_of t (params_at ext.seqno) ≡ some eid) × (ext.seqno < 2 ^ 32)

  pub lookup_id-election :
      (ext : BlockIdExt) (s : S)
      → Ensures
          (λ id. election_of t (params_at ext.seqno) ≡ some id)
          (lookup_election_id_for_block l ext s)
  unfolding get_config_param34 lookup_election_id_for_block
  lookup_id-election ext s =
      continue-Ensures (λ r. election_of t (params_at ext.seqno) ≡ some (pos r.0)) _
        (get_config_param34 l ext s) (id_or_empty l ext)
        (continue-Ensures (λ p. p ≡ params_at ext.seqno) _ _ _
          (Ensures-map_error _ _ (l.cached_get_config_params (some ext) ext.seqno s) (config ext s))
          (λ p w e.
            rw (e)
              (convert-election l ext _ (t.convert_blockchain_config (params_at ext.seqno)) w)))
        (λ r w e. elim (Bool-cases (r.0 == 0)) [ inl z ↦ rw (z) tt | inr z ↦ rw (z) e ])

  abbrev IsStep : (BlockIdExt → Type 0) → Step → Type 0
  IsStep P (found b) = IsBoundary t params_at b
  IsStep P (moved ext) = P ext

  decide-IsStep :
      (b : ElectionBoundary) (ext : BlockIdExt) (eid id : ℤ) (P : BlockIdExt → Type 0)
      → (id ≡ eid → P ext)
      → (id ≢ eid → IsBoundary t params_at b)
      → IsStep P (if eq_ℤ id eid then moved ext else found b)
  decide-IsStep b ext eid id P same differ = elim (Bool-cases (eq_ℤ id eid)) [
    | inl e ↦ rw (e) (same (eq_ℤ→eq id eid e))
    | inr e ↦ rw (e) (differ (λ h. let r = eq_ℤ_refl id in grind arith))
  ]

  after_forward-lem :
      (eid : ℤ) (fwd : BlockIdExt)
      → IsIn eid fwd
      → (r : Outcome (BlockIdExt × ℕ)) (s : S) → Ensures (λ p. p.0.seqno ≡ add32 fwd.seqno 1) (r, s)
      → Ensures (IsStep (IsIn eid)) (after_forward l eid fwd r s)
  after_forward-lem eid fwd (id_fwd, bound) (ok next) s at =
      continue-Ensures (λ id. election_of t (params_at next.0.seqno) ≡ some id) _
        (lookup_election_id_for_block l next.0 s) _ (lookup_id-election next.0 s)
        (λ id w e.
          decide-IsStep _ next.0 eid id (IsIn eid) (λ h. (rw (sym h) e, rw (at) (omega arith)))
            (λ h. record {
              before_id = id_fwd;
              after_id = e;
              changed = λ c. h (sym c);
              adjacent = at;
            }))
  after_forward-lem eid fwd h (err e) s at = h
  after_forward-lem eid fwd h panic s at = tt

  after_backward-lem :
      (eid : ℤ) (bwd : BlockIdExt)
      → IsIn eid bwd
      → 0 < bwd.seqno
      → (r : Outcome (BlockIdExt × ℕ)) (s : S) → Ensures (λ p. p.0.seqno ≡ bwd.seqno - 1) (r, s)
      → Ensures (IsStep (IsIn eid)) (after_backward l eid bwd r s)
  after_backward-lem eid bwd (id_bwd, bound) positive (ok prev) s at =
      continue-Ensures (λ id. election_of t (params_at prev.0.seqno) ≡ some id) _
        (lookup_election_id_for_block l prev.0 s) _ (lookup_id-election prev.0 s)
        (λ id w e.
          decide-IsStep _ prev.0 eid id (IsIn eid) (λ h. (rw (sym h) e, rw (at) (omega arith)))
            (λ h. record {
              before_id = e;
              after_id = id_bwd;
              changed = h;
              adjacent = rw (at) (omega arith);
            }))
  after_backward-lem eid bwd h positive (err e) s at = h
  after_backward-lem eid bwd h positive panic s at = tt

  attempt_lem :
      (eid : ℤ) (n : ℕ) (f : Outcome (BlockIdExt × ℕ) → Action S Step)
      (x : Outcome (BlockIdExt × ℕ) × S)
      → Ensures (λ p. p.0.seqno ≡ n) x
      → ((r : Outcome (BlockIdExt × ℕ)) (s : S)
          → Ensures (λ p. p.0.seqno ≡ n) (r, s)
          → Ensures (IsStep (IsIn eid)) (f r s))
      → Ensures (IsStep (IsIn eid)) (continue (attempt (λ (_ : S). x) x.1) f)
  attempt_lem eid n f (ok p, s) at next = next (ok p) s at
  attempt_lem eid n f (err e, s) at next = next (err e) s at
  attempt_lem eid n f (panic, s) at next = tt

  forward-IsStep :
      (eid : ℤ) (fwd : BlockIdExt) (s : S)
      → IsIn eid fwd
      → Ensures (IsStep (IsIn eid)) (forward l eid fwd s)
  unfolding forward
  forward-IsStep eid fwd s h =
      attempt_lem eid (add32 fwd.seqno 1) (after_forward l eid fwd)
        (l.lookup_masterchain_block (add32 fwd.seqno 1) s) (by_seqno (add32 fwd.seqno 1) s)
        (after_forward-lem eid fwd h)

  backward-IsStep :
      (eid : ℤ) (bwd : BlockIdExt) (s : S)
      → IsIn eid bwd
      → Ensures (IsStep (IsIn eid)) (backward l eid bwd s)
  unfolding backward
  backward-IsStep eid bwd s h = elim (Bool-cases (ltb 0 bwd.seqno)) [
    | inl e ↦ rw (e) (
        attempt_lem eid (bwd.seqno - 1) (after_backward l eid bwd)
          (l.lookup_masterchain_block (bwd.seqno - 1) s) (by_seqno (bwd.seqno - 1) s)
          (after_backward-lem eid bwd h (ltb→lt 0 bwd.seqno e)))
    | inr e ↦ rw (e) h
  ]

  or_continue-lem :
      (eid : ℤ) (next : BlockIdExt → Action S ElectionBoundary) (x : Outcome Step × S)
      → Ensures (IsStep (IsIn eid)) x
      → ((ext : BlockIdExt) (s : S) → IsIn eid ext → Ensures (IsBoundary t params_at) (next ext s))
      → Ensures (IsBoundary t params_at) (continue x (λ step. or_continue l eid step next))
  or_continue-lem eid next (ok (found b), s) h rest = h
  or_continue-lem eid next (ok (moved ext), s) h rest = rest ext s h
  or_continue-lem eid next (err e, s) h rest = tt
  or_continue-lem eid next (panic, s) h rest = tt

  walk-IsBoundary :
      (eid : ℤ) (approx rounds : ℕ) (fwd bwd : BlockIdExt) (s : S)
      → IsIn eid fwd
      → IsIn eid bwd
      → Ensures (IsBoundary t params_at) (walk l eid approx rounds fwd bwd s)
  unfolding walk
  walk-IsBoundary eid approx zero fwd bwd s hf hb = tt
  walk-IsBoundary eid approx (suc rounds) fwd bwd s hf hb =
      or_continue-lem eid _ (forward l eid fwd s) (forward-IsStep eid fwd s hf) (λ fwd' s' hf'.
        or_continue-lem eid _ (backward l eid bwd s') (backward-IsStep eid bwd s' hb)
          (λ bwd' s'' hb'. walk-IsBoundary eid approx rounds fwd' bwd' s'' hf' hb'))

  module _
      (by_utime : (n : ℕ) (s : S)
        → Ensures (λ ext. ext.seqno < 2 ^ 32) (l.lookup_masterchain_block_by_utime n s)) where
    -- A boundary that findElectionBoundary returns consists of two adjacent blocks whose config
    -- gives the two returned election ids, and these differ. Look-ups may fail on the way; those of
    -- a seqno that succeed give a block of that seqno, the config of a block depends on its seqno
    -- only, and the block near a time has a seqno below 2 ^ 32.
    pub find_election_boundary-IsBoundary :
        (approx : ℕ) (s : S) {b : ElectionBoundary}
        → (find_election_boundary l approx s).0 ≡ ok b
        → IsBoundary t params_at b
    unfolding find_election_boundary
    find_election_boundary-IsBoundary approx s =
        Ensures-ok (IsBoundary t params_at) (find_election_boundary l approx s) (
          continue-Ensures (λ ext. ext.seqno < 2 ^ 32) (IsBoundary t params_at)
            (l.lookup_masterchain_block_by_utime approx s) _ (by_utime approx s)
            (λ ext s' small.
              continue-Ensures (λ id. election_of t (params_at ext.seqno) ≡ some id)
                (IsBoundary t params_at) (lookup_election_id_for_block l ext s') _
                (lookup_id-election ext s')
                (λ eid s'' e.
                  continue-Ensures_any (IsBoundary t params_at) (look_around l ext.seqno s'') _
                    (λ _ s3.
                      walk-IsBoundary eid approx max_boundary_search ext ext s3 (e, small)
                        (e, small)))))
