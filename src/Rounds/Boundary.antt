-- ===== src/Rounds/Boundary.antt =====
-- findElectionBoundary: the walk outward from a block near a time, one step forward and one step back
-- in turn, until the election id changes between two adjacent blocks.
use ton_validators_rewards_a.Base.{ℕ, zero, suc, ◌+◌, ◌-◌, ◌%◌, ◌^◌, ◌++◌, ltb, if◌then◌else◌}
use ton_validators_rewards_a.Base.Int.{ℤ, eq_ℤ}
use ton_validators_rewards_a.Base.Text.{codes, show_ℕ}
use ton_validators_rewards_a.Outcome.{
  Outcome, ok, err, panic, Action, pure, fail, lift, attempt, ◌>>=◌, ◌>>◌,
}
use ton_validators_rewards_a.Tlb.{Tongo, BlockIdExt}
use ton_validators_rewards_a.Rounds.Lookup.{Loaders, lookup_election_id_for_block}

pub record ElectionBoundary : Type 0 where
  pub before_block : BlockIdExt
  pub before_election_id : ℤ
  pub after_block : BlockIdExt
  pub after_election_id : ℤ

abbrev pub max_boundary_search : ℕ
max_boundary_search = 20

-- `seqno + k` and `seqno - k` in uint32.
abbrev pub add32 : ℕ → ℕ → ℕ
add32 a k = (a + k) % 2 ^ 32

abbrev pub sub32 : ℕ → ℕ → ℕ
sub32 a k = (a + 2 ^ 32 - k) % 2 ^ 32

-- One step of the walk ends it, or moves its end to another block.
pub data Step : Type 0 where
  found : ElectionBoundary → Step
  moved : BlockIdExt → Step

module _ {t : Tongo} {S : Type 0} (l : Loaders t S) where
  -- The look-ups that run ahead to fill the caches. Their results and errors are dropped.
  abbrev pub then_id : Outcome (BlockIdExt × ℕ) → Action S (Outcome ℤ)
  then_id (ok b) = attempt (lookup_election_id_for_block l b.0)
  then_id (err e) = pure (err e)
  then_id panic = lift panic

  unfoldable pub look_block : ℕ → Action S (Outcome ℤ)
  look_block seqno = do b ← attempt (l.lookup_masterchain_block seqno); then_id b

  unfoldable pub look_around : ℕ → Action S (Outcome ℤ)
  unfolding look_block
  look_around seqno = do
    look_block (sub32 seqno 2)
    look_block (sub32 seqno 1)
    look_block seqno
    look_block (add32 seqno 1)
    look_block (add32 seqno 2)

  module _ (eid : ℤ) where
    -- A look-up that fails leaves the end where it is; an error about the config ends the walk.
    abbrev pub after_forward : BlockIdExt → Outcome (BlockIdExt × ℕ) → Action S Step
    after_forward fwd (ok next) = do
      next_id ← lookup_election_id_for_block l next.0
      pure (
          if eq_ℤ next_id eid
          then moved next.0
          else found (record {
            before_block = fwd;
            before_election_id = eid;
            after_block = next.0;
            after_election_id = next_id;
          }))
    after_forward fwd (err e) = pure (moved fwd)
    after_forward fwd panic = lift panic

    unfoldable pub forward : BlockIdExt → Action S Step
    forward fwd = do
      next ← attempt (l.lookup_masterchain_block (add32 fwd.seqno 1))
      after_forward fwd next

    abbrev pub after_backward : BlockIdExt → Outcome (BlockIdExt × ℕ) → Action S Step
    after_backward bwd (ok prev) = do
      prev_id ← lookup_election_id_for_block l prev.0
      pure (
          if eq_ℤ prev_id eid
          then moved prev.0
          else found (record {
            before_block = prev.0;
            before_election_id = prev_id;
            after_block = bwd;
            after_election_id = eid;
          }))
    after_backward bwd (err e) = pure (moved bwd)
    after_backward bwd panic = lift panic

    unfoldable pub backward : BlockIdExt → Action S Step
    backward bwd =
        if ltb 0 bwd.seqno
        then (do
          prev ← attempt (l.lookup_masterchain_block (bwd.seqno - 1))
          after_backward bwd prev)
        else pure (moved bwd)

    abbrev pub or_continue :
        Step → (BlockIdExt → Action S ElectionBoundary) → Action S ElectionBoundary
    or_continue (found b) next = pure b
    or_continue (moved ext) next = next ext

    -- The loop with the rounds that are left.
    unfoldable pub walk : ℕ → ℕ → BlockIdExt → BlockIdExt → Action S ElectionBoundary
    walk approx zero fwd bwd = fail (
        codes "election boundary not found within "
        ++ (show_ℕ max_boundary_search ++ (codes " blocks of utime " ++ show_ℕ approx)))
    walk approx (suc rounds) fwd bwd = do
      ahead ← forward fwd
      or_continue ahead
          λ fwd'. do back ← backward bwd; or_continue back λ bwd'. walk approx rounds fwd' bwd'

  unfoldable pub find_election_boundary : ℕ → Action S ElectionBoundary
  unfolding walk
  find_election_boundary approx = do
    ext ← l.lookup_masterchain_block_by_utime approx
    eid ← lookup_election_id_for_block l ext
    look_around ext.seqno
    walk eid approx max_boundary_search ext ext
