-- ===== src/Rounds/Lookup.antt =====
-- The look-ups of service/loaders.go as an interface, and what service/rounds.go reads through it:
-- config param 34 at a block, and the election id in it.
use ton_validators_rewards_a.Base.{ℕ, ◌||◌, ◌++◌, Option, some, ◌==◌, if◌then◌else◌}
use ton_validators_rewards_a.Base.Int.{ℤ, pos}
use ton_validators_rewards_a.Base.Text.{codes, show_ℕ}
use ton_validators_rewards_a.Outcome.{Action, pure, fail, lift, wrap, ◌>>=◌}
use ton_validators_rewards_a.Tlb.{Tongo, BlockIdExt}
use ton_validators_rewards_a.Chain.{get_round_info}

-- lookupMasterchainBlock gives a block and its time, lookupMasterchainBlockByUtime the block near a
-- time, and cachedGetConfigParams param 34 at a pinned block, under its seqno as cache key.
pub record Loaders (t : Tongo) (S : Type 0) : Type 0 where
  pub lookup_masterchain_block : ℕ → Action S (BlockIdExt × ℕ)
  pub lookup_masterchain_block_by_utime : ℕ → Action S BlockIdExt
  pub cached_get_config_params : Option BlockIdExt → (seqno : ℕ) → Action S t.ConfigParams

module _ {t : Tongo} {S : Type 0} (l : Loaders t S) where
  abbrev pub round_or_empty : BlockIdExt → ℕ × ℕ → Action S (ℕ × ℕ)
  round_or_empty ext (since, until) =
      if (since == 0) || (until == 0)
      then fail (codes "config param 34 is empty at block " ++ show_ℕ ext.seqno)
      else pure (since, until)

  -- Start and end of the round that the block belongs to; never 0.
  unfoldable pub get_config_param34 : BlockIdExt → Action S (ℕ × ℕ)
  get_config_param34 ext = do
    params ←
        wrap (λ e. codes "GetConfigParams: " ++ e) (l.cached_get_config_params (some ext) ext.seqno)
    c ←
        wrap (λ e. codes "ConvertBlockchainConfig: " ++ e)
          (lift (t.convert_blockchain_config params))
    round_or_empty ext (get_round_info (some c))

  abbrev pub id_or_empty : BlockIdExt → ℕ × ℕ → Action S ℤ
  id_or_empty ext (since, until) =
      if since == 0
      then fail (codes "config param 34 is empty at block " ++ show_ℕ ext.seqno)
      else pure (pos since)

  -- The election id at a block. Without an error the source's pointer is not nil.
  unfoldable pub lookup_election_id_for_block : BlockIdExt → Action S ℤ
  lookup_election_id_for_block ext = do round ← get_config_param34 ext; id_or_empty ext round

  -- getElectionIDForBlock
  unfoldable pub get_election_id_for_block : ℕ → Action S ℤ
  get_election_id_for_block block = do
    found ← l.lookup_masterchain_block block
    lookup_election_id_for_block found.0
