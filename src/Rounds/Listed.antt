-- ===== src/Rounds/Listed.antt =====
-- What FetchValidationRounds lists.
mod Tests
use ton_validators_rewards_a.Base.{
  ℕ, ◌*◌, ◌^◌, ◌≡◌, ◌⊎◌, refl, sym, ap, ⊤, Bool, true, false, ◌&&◌, Option, none, some, List, [],
  ◌∷◌, ltb, ◌==◌, if◌then◌else◌, Bool-cases, inl, inr,
}
use ton_validators_rewards_a.Base.Int.{ℤ, pos}
use ton_validators_rewards_a.Outcome.{
  Outcome, ok, err, panic, Error, continue, map_error, attempt, Ensures, continue-Ensures,
  continue-Ensures_any, Ensures-ok, Action, ◌>>=◌, ◌>>◌,
}
use ton_validators_rewards_a.Tlb.{Tongo, BlockIdExt}
use ton_validators_rewards_a.Model.{RoundsQuery, ValidationRound, ValidationRoundsOutput}
use ton_validators_rewards_a.State.{State, LiteClient}
use ton_validators_rewards_a.Rounds.Lookup.{Loaders, get_config_param34}
use ton_validators_rewards_a.Rounds.Boundary.{ElectionBoundary, find_election_boundary}
use ton_validators_rewards_a.Rounds.Anchor.{get_anchor_ext}
use ton_validators_rewards_a.Rounds.Info.{
  RoundInfo, set_time, validation_round, build_rounds_output,
}
use ton_validators_rewards_a.Rounds.Rest.{rest_rounds, derive_end_blocks, trim}
use ton_validators_rewards_a.Rounds.Listing.{
  end_block_of, populate_prev_next_election_ids, anchor_or_last, listing_anchor, walk_ahead,
  stopped, anchor_round, finished_end, list_from, list_round, fetch_validation_rounds,
}

abbrev pub is_over : (now until : ℕ) → Bool
is_over now until = ltb 0 until && ltb (until * 10 ^ 9) now

-- A listed round, at a time in nanoseconds: it is named by its start; its end is given, unless it is 0; it
-- is finished if this end has passed, and then its end is the next election, and no other has a next one or an end block; the
-- election before it is known.
pub record IsListed (now : ℕ) (r : ValidationRound) : Type 0 where
  pub since : ℕ
  pub until : ℕ
  pub named : r.election_id ≡ pos since
  pub started : r.start ≡ some since
  pub ended : r.end ≡ set_time until
  pub over : r.finished ≡ is_over now until
  pub next : r.next_election_id ≡ (if r.finished then some (pos until) else none)
  pub unended : (r.end_block ≡ 0) ⊎ (r.finished ≡ true)
  pub before : (id : ℤ) × (r.prev_election_id ≡ some id)

-- One round, or none with the reason, if there is one.
abbrev pub IsListing : ℕ → ValidationRoundsOutput → Type 0
IsListing now out =
    (out.rounds ≡ []) ⊎ ((r : ValidationRound) × (out.rounds ≡ r ∷ []) × IsListed now r)

-- The anchor's round before the ids of its neighbours are filled in.
abbrev IsAnchor : (now since until : ℕ) → RoundInfo → Type 0
IsAnchor now since until r =
    (r.election_id ≡ pos since)
    × (r.start_utime ≡ since)
    × (r.end_utime ≡ until)
    × (r.finished ≡ is_over now until)
    × (r.next_election_id ≡ none)
    × ((r.end_block ≡ 0) ⊎ (r.finished ≡ true))

is_over-next :
    (now until : ℕ) (over : Bool) (end : ℕ) (next : Option ℤ)
    → over ≡ is_over now until
    → end ≡ until
    → next ≡ none
    → (if over && ltb 0 end then some (pos end) else next)
      ≡ (if over then some (pos until) else none)
is_over-next now until over end next e u n =
    rw (e, u, n)
      (elim (Bool-cases (ltb 0 until)) [
        | inl h ↦ rw (h) (elim (Bool-cases (ltb (until * 10 ^ 9) now)) [
          | inl k ↦ rw (k) refl
          | inr k ↦ rw (k) refl
        ])
        | inr h ↦ rw (h) refl
      ])

set_time-some : (n since : ℕ) → n ≡ since → (since == 0) ≡ false → set_time n ≡ some since
set_time-some n since e h = rw (e, h) refl

module _ {t : Tongo} {W : Type 0} (l : Loaders t (State t W)) where
  finished_end-cases :
      (over : Bool) (until : ℕ) (s : State t W)
      → Ensures (λ end. (end_block_of end ≡ 0) ⊎ (over ≡ true)) (finished_end l over until s)
  finished_end-cases true until s =
      continue-Ensures_any (λ end. (end_block_of end ≡ 0) ⊎ (true ≡ true))
        (attempt (find_election_boundary l until) s) _ (λ r s'. inr refl)
  finished_end-cases false until s = inl refl

  anchor_round-IsAnchor :
      (now since until : ℕ) (anchor ext : BlockIdExt) (s : State t W)
      → Ensures (λ p. IsAnchor now since until p.0) (anchor_round l now since until anchor ext s)
  unfolding anchor_round
  anchor_round-IsAnchor now since until anchor ext s =
      continue-Ensures (λ end. (end_block_of end ≡ 0) ⊎ (is_over now until ≡ true))
        (λ p. IsAnchor now since until p.0) (finished_end l (is_over now until) until s) _
        (finished_end-cases (is_over now until) until s)
        (λ end s' h. (refl, refl, refl, refl, refl, h))

  abbrev IsListedInfo : ℕ → List RoundInfo → Type 0
  IsListedInfo now rs = (r : RoundInfo) × (rs ≡ r ∷ []) × IsListed now (validation_round r)

  populate-IsListedInfo :
      (now since until : ℕ) (r : RoundInfo) (s : State t W)
      → IsAnchor now since until r
      → (since == 0) ≡ false
      → Ensures (IsListedInfo now) (populate_prev_next_election_ids l (r ∷ []) s)
  unfolding populate_prev_next_election_ids validation_round
  populate-IsListedInfo now since until r s (id, start, end, over, next, unended) nonzero =
      continue-Ensures_any (IsListedInfo now) (find_election_boundary l r.start_utime s) _ (λ b s'.
        (
          _,
          refl,
          record {
            since = since;
            until = until;
            named = id;
            started = set_time-some r.start_utime since start nonzero;
            ended = ap set_time end;
            over = over;
            next = is_over-next now until r.finished r.end_utime r.next_election_id over end next;
            unended = unended;
            before = (b.before_election_id, refl);
          },
        ))

  wrap_populate :
      (now : ℕ) (f : Error → Error) (x : Outcome (List RoundInfo) × State t W)
      → Ensures (IsListedInfo now) x
      → Ensures
          (IsListing now)
          (continue (map_error f x.0, x.1) (λ rounds s. (ok (build_rounds_output rounds []), s)))
  unfolding build_rounds_output
  wrap_populate now f (ok rs, s) (r, one, listed) = inr (validation_round r, rw (one) refl, listed)
  wrap_populate now f (err e, s) h = tt
  wrap_populate now f (panic, s) h = tt

  list_from-IsListing :
      (now since until : ℕ) (anchor : BlockIdExt) (r : Outcome BlockIdExt) (s : State t W)
      → (since == 0) ≡ false
      → Ensures (IsListing now) (list_from l now since until anchor r s)
  unfolding build_rounds_output rest_rounds derive_end_blocks trim
  list_from-IsListing now since until anchor (ok ext) s nonzero =
      continue-Ensures (λ p. IsAnchor now since until p.0) (IsListing now)
        (anchor_round l now since until anchor ext s) _
        (anchor_round-IsAnchor now since until anchor ext s)
        (λ p s' h.
          wrap_populate now _ (populate_prev_next_election_ids l (p.0 ∷ []) s')
            (populate-IsListedInfo now since until p.0 s' h nonzero))
  list_from-IsListing now since until anchor (err e) s nonzero = inl refl
  list_from-IsListing now since until anchor panic s nonzero = tt

  list_round-IsListing :
      (now : ℕ) (anchor : BlockIdExt) (r : Outcome (ℕ × ℕ)) (s : State t W)
      → Ensures (IsListing now) (list_round l now anchor r s)
  unfolding build_rounds_output
  list_round-IsListing now anchor (ok (since, until)) s = elim (Bool-cases (since == 0)) [
    | inl e ↦ rw (e) (inl refl)
    | inr e ↦ rw (e) (
        continue-Ensures_any (IsListing now) (attempt (l.lookup_masterchain_block_by_utime since) s)
          _ (λ start s'. list_from-IsListing now since until anchor start s' e))
  ]
  list_round-IsListing now anchor (err e) s = inl refl
  list_round-IsListing now anchor panic s = tt

  -- A listing that FetchValidationRounds returns has no round, or one: it is named by its start,
  -- its end is reported, unless it is 0, it is finished if this end has passed, and else not, a
  -- finished one has its end as the next election, an unfinished one has no next election and no
  -- end block, and the election before it is given.
  pub fetch_validation_rounds-IsListing :
      (now : ℕ) (client : LiteClient t W) (q : RoundsQuery) (s : State t W)
      {out : ValidationRoundsOutput}
      → (fetch_validation_rounds l now client q s).0 ≡ ok out
      → IsListing now out
  unfolding fetch_validation_rounds
  fetch_validation_rounds-IsListing now client q s =
      Ensures-ok (IsListing now) (fetch_validation_rounds l now client q s) (
        continue-Ensures_any (IsListing now) (listing_anchor l client q s) _ (λ anchor s1.
          continue-Ensures_any (IsListing now) (attempt (get_config_param34 l anchor) s1) _
            (λ round s2.
              continue-Ensures_any (IsListing now) (walk_ahead l round s2) _
                (λ _ s3. list_round-IsListing now anchor round s3))))

  -- FetchValidationRounds does not depend on the time of the query: its answer and its effect are
  -- the same for every time, and without one.
  pub fetch_validation_rounds-unixtime :
      (now : ℕ) (client : LiteClient t W) (q : RoundsQuery) (time : Option ℕ)
      → fetch_validation_rounds l now client (record q { unixtime = time })
        ≡ fetch_validation_rounds l now client q
  unfolding fetch_validation_rounds listing_anchor get_anchor_ext
  fetch_validation_rounds-unixtime now client q time =
      ap
        (λ (m : Action (State t W) BlockIdExt). m >>= λ anchor.
          attempt (get_config_param34 l anchor) >>= λ round.
          walk_ahead l round >> list_round l now anchor round)
        (same_anchor q.block q.election_id)
    where
      same_anchor :
          (block : Option ℕ) (id : Option ℤ)
          → anchor_or_last l client
              (record { block = block; election_id = id; unixtime = time })
              block
              id
            ≡ anchor_or_last l client
                (record { block = block; election_id = id; unixtime = q.unixtime })
                block
                id
      same_anchor (some b) id = refl
      same_anchor none (some i) = refl
      same_anchor none none = refl
