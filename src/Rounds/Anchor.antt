-- ===== src/Rounds/Anchor.antt =====
-- getAnchorExt and fetchPrevElectionIDForBlock of service/rounds.go: the block that a query names, and
-- the election before that of a block.
use ton_validators_rewards_a.Base.{
  ℕ, zero, suc, ◌-◌, ◌%◌, ◌^◌, ◌++◌, Option, none, some, leb, if◌then◌else◌,
}
use ton_validators_rewards_a.Base.Int.{ℤ, pos, negsuc, eq_ℤ}
use ton_validators_rewards_a.Base.Text.{Text, codes, show_ℕ, show_ℤ}
use ton_validators_rewards_a.Outcome.{Action, pure, fail, wrap, ◌>>=◌}
use ton_validators_rewards_a.Tlb.{Tongo, BlockIdExt}
use ton_validators_rewards_a.Model.{RoundsQuery}
use ton_validators_rewards_a.Rounds.Boundary.{sub32}
use ton_validators_rewards_a.Rounds.Lookup.{Loaders, get_election_id_for_block}

-- `uint32(n)` of an int64.
unfoldable pub to_uint32 : ℤ → ℕ
to_uint32 (pos n) = n % 2 ^ 32
to_uint32 (negsuc n) = 2 ^ 32 - 1 - n % 2 ^ 32

abbrev pub zero_block : BlockIdExt
zero_block = record { workchain = pos 0; shard = 0; seqno = 0; root_hash = 0; file_hash = 0 }

module _ {t : Tongo} {S : Type 0} (l : Loaders t S) where
  -- `fmt.Errorf("<name>(<arg>): %w", err)` around a look-up.
  abbrev pub named : {A : Type 0} → (name arg : Text) → Action S A → Action S A
  named name arg m = wrap (λ e. name ++ (arg ++ (codes "): " ++ e))) m

  abbrev pub of_seqno : ℕ → Action S BlockIdExt
  of_seqno seqno = do
    found ←
        named (codes "lookupMasterchainBlock(") (show_ℕ seqno) (l.lookup_masterchain_block seqno)
    pure found.0

  -- By the block, or else the election id, or else the time; the zero block without any.
  abbrev pub by_fields : (block : Option ℕ) → Option ℤ → (unixtime : Option ℕ) → Action S BlockIdExt
  by_fields (some seqno) id time = of_seqno seqno
  by_fields none (some id) time =
      named (codes "lookupMasterchainBlockByUtime(election_id=") (show_ℤ id)
        (l.lookup_masterchain_block_by_utime (to_uint32 id))
  by_fields none none (some time) =
      named (codes "lookupMasterchainBlockByUtime(unixtime=") (show_ℕ time)
        (l.lookup_masterchain_block_by_utime time)
  by_fields none none none = pure zero_block

  unfoldable pub get_anchor_ext : RoundsQuery → Action S BlockIdExt
  unfolding to_uint32
  get_anchor_ext q = by_fields q.block q.election_id q.unixtime

  -- The loop, with the rounds that are left. The block before block 0 is the last one of uint32.
  unfoldable pub walk_back : ℕ → (current : ℤ) → (block : ℕ) → Action S ℤ
  walk_back zero current block = fail (codes "prevElectionID not found")
  walk_back (suc rounds) current block = do
    prev ← get_election_id_for_block l (sub32 block 1)
    if eq_ℤ prev current then walk_back rounds current (sub32 block 1) else pure prev

  unfoldable pub fetch_prev_election_id_for_block : ℕ → Action S ℤ
  unfolding walk_back
  fetch_prev_election_id_for_block start_block =
      if leb start_block 1 then fail (codes "startBlock is less than 1") else (do
        current ← get_election_id_for_block l start_block
        walk_back 1000 current start_block)
