-- ===== src/Rounds/Listing.antt =====
-- FetchValidationRounds of service/rounds.go. Its limit is 1, so the anchor's round is the only one, and the
-- rounds before it (Rounds/Rest) are not asked for.
use ton_validators_rewards_a.Base.{
  ℕ, ◌-◌, ◌*◌, ◌^◌, ltb, Bool, true, false, ◌&&◌, ◌++◌, Option, none, some, List, [], ◌∷◌, ◌==◌,
  if◌then◌else◌,
}
use ton_validators_rewards_a.Base.Int.{ℤ, pos}
use ton_validators_rewards_a.Base.Text.{Text, codes}
use ton_validators_rewards_a.Outcome.{
  Outcome, ok, err, panic, Action, pure, lift, wrap, attempt, ◌>>=◌, ◌>>◌,
}
use ton_validators_rewards_a.Tlb.{Tongo, BlockIdExt}
use ton_validators_rewards_a.Model.{RoundsQuery, ValidationRoundsOutput}
use ton_validators_rewards_a.State.{State, LiteClient, request}
use ton_validators_rewards_a.Rounds.Lookup.{Loaders, get_config_param34}
use ton_validators_rewards_a.Rounds.Boundary.{ElectionBoundary, find_election_boundary}
use ton_validators_rewards_a.Rounds.Anchor.{get_anchor_ext}
use ton_validators_rewards_a.Rounds.Info.{RoundInfo, build_rounds_output}
use ton_validators_rewards_a.Rounds.Rest.{round_length, rest_rounds, derive_end_blocks, trim}

abbrev pub limit : ℕ
limit = 1

-- The last block of a finished round; 0 if its end is not found.
abbrev pub end_block_of : Option (Outcome ElectionBoundary) → ℕ
end_block_of none = 0
end_block_of (some (ok b)) = b.before_block.seqno
end_block_of (some (err e)) = 0
end_block_of (some panic) = 0

abbrev pub next_id : RoundInfo → Option ℤ
next_id r = if r.finished && ltb 0 r.end_utime then some (pos r.end_utime) else r.next_election_id

module _ {t : Tongo} {W : Type 0} (l : Loaders t (State t W)) where
  unfoldable pub populate_prev_next_election_ids :
      List RoundInfo → Action (State t W) (List RoundInfo)
  populate_prev_next_election_ids [] = pure []
  populate_prev_next_election_ids (r ∷ rs) = do
    boundary ← find_election_boundary l r.start_utime
    rest ← populate_prev_next_election_ids rs
    pure (
        record r {
          prev_election_id = some boundary.before_election_id;
          next_election_id = next_id r;
        }
        ∷ rest)

  abbrev pub anchor_or_last :
      LiteClient t W
      → RoundsQuery
      → (block : Option ℕ) → (election_id : Option ℤ) → Action (State t W) BlockIdExt
  anchor_or_last client q (some block) id =
      wrap (λ e. codes "getAnchorExt error or nil: " ++ e) (get_anchor_ext l q)
  anchor_or_last client q none (some id) =
      wrap (λ e. codes "getAnchorExt error or nil: " ++ e) (get_anchor_ext l q)
  anchor_or_last client q none none =
      wrap (λ e. codes "GetMasterchainInfo: " ++ e)
        (request (client.masterchain_info client.target))

  -- The block that the listing starts from: the query's time is not looked at.
  unfoldable pub listing_anchor : LiteClient t W → RoundsQuery → Action (State t W) BlockIdExt
  listing_anchor client q = anchor_or_last client q q.block q.election_id

  -- The two walks that run ahead; after an error of the config they get the times 0 and 0.
  abbrev pub round_or_zero : Outcome (ℕ × ℕ) → ℕ × ℕ
  round_or_zero (ok round) = round
  round_or_zero (err e) = (0, 0)
  round_or_zero panic = (0, 0)

  abbrev pub walk_ahead : Outcome (ℕ × ℕ) → Action (State t W) (Outcome ElectionBoundary)
  walk_ahead r = do
    attempt (find_election_boundary l (round_or_zero r).0)
    attempt (find_election_boundary l (round_or_zero r).1)

  abbrev pub stopped : Text → ValidationRoundsOutput
  stopped e = build_rounds_output [] (codes "stopped after 0 rounds: " ++ e)

  -- The end of a finished round, if it is found.
  abbrev pub finished_end :
      Bool → (until : ℕ) → Action (State t W) (Option (Outcome ElectionBoundary))
  finished_end true until = do end ← attempt (find_election_boundary l until); pure (some end)
  finished_end false until = pure none

  -- The anchor's round with its length, `now` in nanoseconds.
  unfoldable pub anchor_round :
      (now since until : ℕ) → (anchor start_ext : BlockIdExt) → Action (State t W) (RoundInfo × ℕ)
  unfolding round_length
  anchor_round now since until anchor start_ext = do
    let is_over = ltb 0 until && ltb (until * 10 ^ 9) now
    end ← finished_end is_over until
    pure (
      record {
        election_id = pos since;
        start_utime = since;
        end_utime = until;
        start_block = start_ext.seqno;
        end_block = end_block_of end;
        finished = is_over;
        fetch_err = [];
        prev_election_id = none;
        next_election_id = none;
      },
      round_length now since until anchor start_ext end,
    )

  -- The rounds behind the anchor's, and their last blocks.
  abbrev pub with_rest : BlockIdExt → RoundInfo × ℕ → Action (State t W) (List RoundInfo)
  with_rest start_ext (round, length) = do
    rest ←
        rest_rounds l (ltb 0 (limit - 1) && (ltb 0 length && ltb 1 start_ext.seqno)) (limit - 1)
          length start_ext.seqno
    pure (trim limit (derive_end_blocks (round ∷ rest)))

  abbrev pub list_from :
      (now since until : ℕ)
      → (anchor : BlockIdExt) → Outcome BlockIdExt
      → Action (State t W) ValidationRoundsOutput
  list_from now since until anchor (ok start_ext) = do
    anchored ← anchor_round now since until anchor start_ext
    collected ← with_rest start_ext anchored
    rounds ←
        wrap (λ e. codes "populatePrevNextElectionIDs: " ++ e)
          (populate_prev_next_election_ids collected)
    pure (build_rounds_output rounds [])
  list_from now since until anchor (err e) = pure (stopped e)
  list_from now since until anchor panic = lift panic

  abbrev pub list_round :
      (now : ℕ)
      → (anchor : BlockIdExt) → Outcome (ℕ × ℕ)
      → Action (State t W) ValidationRoundsOutput
  list_round now anchor (ok (since, until)) =
      if since == 0 then pure (build_rounds_output [] []) else (do
        start ← attempt (l.lookup_masterchain_block_by_utime since)
        list_from now since until anchor start)
  list_round now anchor (err e) = pure (stopped e)
  list_round now anchor panic = lift panic

  unfoldable pub fetch_validation_rounds :
      (now : ℕ) → LiteClient t W → RoundsQuery → Action (State t W) ValidationRoundsOutput
  unfolding listing_anchor anchor_round rest_rounds derive_end_blocks trim
      populate_prev_next_election_ids build_rounds_output
  fetch_validation_rounds now client q = do
    anchor ← listing_anchor client q
    round ← attempt (get_config_param34 l anchor)
    walk_ahead round
    list_round now anchor round
