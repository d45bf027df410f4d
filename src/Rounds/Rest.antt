-- ===== src/Rounds/Rest.antt =====
-- The rounds before the anchor's in FetchValidationRounds of service/rounds.go. The goroutines run one after
-- the other, in the order in which they are started; none of them returns an error.
use ton_validators_rewards_a.Base.{
  ℕ, zero, suc, ◌+◌, ◌-◌, ◌*◌, ◌/◌, ◌%◌, ◌^◌, ltb, leb, Bool, true, false, ◌&&◌, ◌||◌, not, Option,
  none, some, List, [], ◌∷◌, ◌==◌, if◌then◌else◌,
}
use ton_validators_rewards_a.Base.Int.{pos, ltb_ℤ}
use ton_validators_rewards_a.Base.Text.{Text, codes}
use ton_validators_rewards_a.Base.Sort.{sort_slice}
use ton_validators_rewards_a.Outcome.{Outcome, ok, err, panic, Action, pure, lift, attempt, ◌>>=◌}
use ton_validators_rewards_a.Strconv.{is_empty}
use ton_validators_rewards_a.Tlb.{Tongo, BlockIdExt}
use ton_validators_rewards_a.Rounds.Lookup.{Loaders, get_config_param34}
use ton_validators_rewards_a.Rounds.Boundary.{ElectionBoundary, sub32}
use ton_validators_rewards_a.Rounds.Info.{RoundInfo, round_fetch_err}

-- The length of the anchor's round in blocks, as a uint32: of a finished one by its end, if that is found;
-- of an unfinished one by the part that has passed. `now` is in nanoseconds.
unfoldable pub round_length :
    (now since until : ℕ) → (anchor start_ext : BlockIdExt) → Option (Outcome ElectionBoundary) → ℕ
round_length now since until anchor start_ext (some (ok b)) =
    sub32 b.before_block.seqno start_ext.seqno
round_length now since until anchor start_ext (some (err e)) =
    if ltb start_ext.seqno anchor.seqno then anchor.seqno - start_ext.seqno else 0
round_length now since until anchor start_ext (some panic) = 0
round_length now since until anchor start_ext none =
    let partial_blocks = sub32 anchor.seqno start_ext.seqno in
    let elapsed = sub32 (now / 10 ^ 9 % 2 ^ 32) since in
    let full_duration = sub32 until since in
    if ltb 0 partial_blocks && (ltb 0 elapsed && ltb 0 full_duration)
    then partial_blocks * full_duration % 2 ^ 32 / elapsed
    else 0

-- The middle blocks of the rounds from number `i` on, as far as they are behind block 0.
unfoldable pub middle_blocks : (length start i left : ℕ) → List ℕ
middle_blocks length start i zero = []
middle_blocks length start i (suc left) =
    let rest = middle_blocks length start (suc i) left in
    let offset = (length / 2 + (i - 1) * length) % 2 ^ 32 in
    if leb start offset then [] else (start - offset) ∷ rest

-- A round that could not be read.
abbrev pub failed_round : Text → RoundInfo
failed_round e = record {
  election_id = pos 0;
  start_utime = 0;
  end_utime = 0;
  start_block = 0;
  end_block = 0;
  finished = false;
  fetch_err = e;
  prev_election_id = none;
  next_election_id = none;
}

abbrev pub later_election : RoundInfo → RoundInfo → Bool
later_election a b = ltb_ℤ b.election_id a.election_id

-- The last block of a round is the one before the next round's first.
unfoldable pub derive_end_blocks : List RoundInfo → List RoundInfo
derive_end_blocks [] = []
derive_end_blocks (later ∷ []) = later ∷ []
derive_end_blocks (later ∷ r ∷ rs) =
    let rest = derive_end_blocks (r ∷ rs) in later ∷ end_before later.start_block rest
  where
    end_before : ℕ → List RoundInfo → List RoundInfo
    end_before start [] = []
    end_before start (r ∷ rs) =
        (if not (is_empty r.fetch_err) || (start == 0)
          then r
          else record r { end_block = start - 1 })
        ∷ rs

-- `rounds[:limit]`
unfoldable pub trim : (limit : ℕ) → List RoundInfo → List RoundInfo
trim zero rounds = []
trim (suc limit) [] = []
trim (suc limit) (r ∷ rounds) = r ∷ trim limit rounds

module _ {t : Tongo} {S : Type 0} (l : Loaders t S) where
  abbrev pub round_from : (since until : ℕ) → Outcome BlockIdExt → Action S RoundInfo
  round_from since until (ok start_ext) = pure (record {
    election_id = pos since;
    start_utime = since;
    end_utime = until;
    start_block = start_ext.seqno;
    end_block = 0;
    finished = true;
    fetch_err = [];
    prev_election_id = none;
    next_election_id = none;
  })
  round_from since until (err e) = pure (failed_round (round_fetch_err e))
  round_from since until panic = lift panic

  abbrev pub round_of_config : Outcome (ℕ × ℕ) → Action S RoundInfo
  round_of_config (ok (since, until)) =
      if since == 0 then pure (failed_round (codes "empty config param 34")) else (do
        start ← attempt (l.lookup_masterchain_block_by_utime since)
        round_from since until start)
  round_of_config (err e) = pure (failed_round (round_fetch_err e))
  round_of_config panic = lift panic

  abbrev pub round_of_block : Outcome (BlockIdExt × ℕ) → Action S RoundInfo
  round_of_block (ok pinned) = do
    round ← attempt (get_config_param34 l pinned.0)
    round_of_config round
  round_of_block (err e) = pure (failed_round (round_fetch_err e))
  round_of_block panic = lift panic

  -- The body of one goroutine.
  unfoldable pub fetch_round : (middle_block : ℕ) → Action S RoundInfo
  unfolding round_fetch_err
  fetch_round middle_block = do
    pinned ← attempt (l.lookup_masterchain_block middle_block)
    round_of_block pinned

  unfoldable pub fetch_rounds : List ℕ → Action S (List RoundInfo)
  unfolding fetch_round
  fetch_rounds [] = pure []
  fetch_rounds (b ∷ bs) = do r ← fetch_round b; rs ← fetch_rounds bs; pure (r ∷ rs)

  -- The remaining rounds, the latest first, if there are any to look for.
  unfoldable pub rest_rounds :
      (wanted : Bool) → (remaining length start : ℕ) → Action S (List RoundInfo)
  unfolding fetch_rounds middle_blocks
  rest_rounds false remaining length start = pure []
  rest_rounds true remaining length start = do
    rounds ← fetch_rounds (middle_blocks length start 1 remaining)
    pure (sort_slice later_election rounds)
