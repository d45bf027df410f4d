-- ===== src/Rounds/Kept.antt =====
-- What the look-ups of the loaders keep of the state, the functions of service/rounds.go that only look
-- up blocks and configs keep too.
use ton_validators_rewards_a.Base.{
  ℕ, zero, suc, ◌-◌, ◌||◌, Option, none, some, ◌==◌, ltb, leb, Bool-cases, inl, inr, ◌++◌,
}
use ton_validators_rewards_a.Base.Text.{codes}
use ton_validators_rewards_a.Base.Int.{ℤ, eq_ℤ}
use ton_validators_rewards_a.Outcome.{
  Outcome, ok, err, panic, Action, lift, attempt, wrap, Keeps, Keeps-bind, Keeps-lift, Keeps-wrap,
  Keeps-if,
}
use ton_validators_rewards_a.Tlb.{Tongo, BlockIdExt}
use ton_validators_rewards_a.Chain.{get_round_info}
use ton_validators_rewards_a.Model.{RoundsQuery}
use ton_validators_rewards_a.Rounds.Lookup.{
  Loaders, round_or_empty, id_or_empty, get_config_param34, lookup_election_id_for_block,
  get_election_id_for_block,
}
use ton_validators_rewards_a.Rounds.Boundary.{
  ElectionBoundary, Step, found, moved, add32, sub32, max_boundary_search, then_id, look_block,
  look_around, forward, after_forward, backward, after_backward, or_continue, walk,
  find_election_boundary,
}
use ton_validators_rewards_a.Rounds.Anchor.{
  get_anchor_ext, by_fields, walk_back, fetch_prev_election_id_for_block,
}

module _ {S A : Type 0} {P : S → Type 0} where
  pub Keeps-attempt : (m : Action S A) → Keeps P m → Keeps P (attempt m)
  Keeps-attempt m k = record { keep = λ s h. k.keep s h }

  Keeps-pure : (r : Outcome A) → Keeps P (λ s. (r, s))
  Keeps-pure r = record { keep = λ s h. h }

-- The three look-ups keep a property.
pub record IsKept {t : Tongo} {S : Type 0} (P : S → Type 0) (l : Loaders t S) : Type 0 where
  pub block : (n : ℕ) → Keeps P (l.lookup_masterchain_block n)
  pub block_by_utime : (n : ℕ) → Keeps P (l.lookup_masterchain_block_by_utime n)
  pub config : (ext : Option BlockIdExt) (n : ℕ) → Keeps P (l.cached_get_config_params ext n)

module _ {t : Tongo} {S : Type 0} (P : S → Type 0) (l : Loaders t S) (k : IsKept P l) where
  round_or_empty-Keeps : (ext : BlockIdExt) (round : ℕ × ℕ) → Keeps P (round_or_empty l ext round)
  round_or_empty-Keeps ext (since, until) = record {
    keep = λ s h. elim (Bool-cases ((since == 0) || (until == 0))) [
      | inl e ↦ rw (e) h
      | inr e ↦ rw (e) h
    ];
  }

  id_or_empty-Keeps : (ext : BlockIdExt) (round : ℕ × ℕ) → Keeps P (id_or_empty l ext round)
  id_or_empty-Keeps ext (since, until) = record {
    keep = λ s h. elim (Bool-cases (since == 0)) [ inl e ↦ rw (e) h | inr e ↦ rw (e) h ];
  }

  pub get_config_param34-Keeps : (ext : BlockIdExt) → Keeps P (get_config_param34 l ext)
  unfolding get_config_param34
  get_config_param34-Keeps ext =
      Keeps-bind _ _ (Keeps-wrap _ _ (k.config (some ext) ext.seqno)) λ params.
        Keeps-bind
          (wrap (λ e. codes "ConvertBlockchainConfig: " ++ e)
            (lift (t.convert_blockchain_config params)))
          _ (Keeps-wrap _ _ (Keeps-lift _)) λ c. round_or_empty-Keeps ext (get_round_info (some c))

  lookup_id-Keeps : (ext : BlockIdExt) → Keeps P (lookup_election_id_for_block l ext)
  unfolding lookup_election_id_for_block
  lookup_id-Keeps ext =
      Keeps-bind (get_config_param34 l ext) _ (get_config_param34-Keeps ext) (id_or_empty-Keeps ext)

  then_id-Keeps : (r : Outcome (BlockIdExt × ℕ)) → Keeps P (then_id l r)
  then_id-Keeps (ok b) = Keeps-attempt _ (lookup_id-Keeps b.0)
  then_id-Keeps (err e) = Keeps-pure _
  then_id-Keeps panic = Keeps-pure _

  look_block-Keeps : (n : ℕ) → Keeps P (look_block l n)
  unfolding look_block
  look_block-Keeps n = Keeps-bind _ _ (Keeps-attempt _ (k.block n)) then_id-Keeps

  look_around-Keeps : (n : ℕ) → Keeps P (look_around l n)
  unfolding look_around
  look_around-Keeps n = Keeps-bind (look_block l (sub32 n 2)) _ (look_block-Keeps _) λ _.
      Keeps-bind (look_block l (sub32 n 1)) _ (look_block-Keeps _) λ _.
        Keeps-bind (look_block l n) _ (look_block-Keeps _)
          λ _. Keeps-bind (look_block l (add32 n 1)) _ (look_block-Keeps _) λ _. look_block-Keeps _

  after_forward-Keeps :
      (eid : ℤ) (fwd : BlockIdExt) (r : Outcome (BlockIdExt × ℕ))
      → Keeps P (after_forward l eid fwd r)
  after_forward-Keeps eid fwd (ok next) = Keeps-bind _ _ (lookup_id-Keeps next.0) λ id. Keeps-pure _
  after_forward-Keeps eid fwd (err e) = Keeps-pure _
  after_forward-Keeps eid fwd panic = Keeps-pure _

  after_backward-Keeps :
      (eid : ℤ) (bwd : BlockIdExt) (r : Outcome (BlockIdExt × ℕ))
      → Keeps P (after_backward l eid bwd r)
  after_backward-Keeps eid bwd (ok prev) =
      Keeps-bind _ _ (lookup_id-Keeps prev.0) λ id. Keeps-pure _
  after_backward-Keeps eid bwd (err e) = Keeps-pure _
  after_backward-Keeps eid bwd panic = Keeps-pure _

  forward-Keeps : (eid : ℤ) (fwd : BlockIdExt) → Keeps P (forward l eid fwd)
  unfolding forward
  forward-Keeps eid fwd = Keeps-bind _ _ (Keeps-attempt _ (k.block _)) (after_forward-Keeps eid fwd)

  backward-Keeps : (eid : ℤ) (bwd : BlockIdExt) → Keeps P (backward l eid bwd)
  unfolding backward
  backward-Keeps eid bwd = record {
    keep = λ s h. elim (Bool-cases (ltb 0 bwd.seqno)) [
      | inl e ↦ rw (e) (
          (Keeps-bind (attempt (l.lookup_masterchain_block (bwd.seqno - 1)))
              (after_backward l eid bwd) (Keeps-attempt _ (k.block _))
              (after_backward-Keeps eid bwd)).keep
            s h)
      | inr e ↦ rw (e) h
    ];
  }

  or_continue-Keeps :
      (eid : ℤ) (step : Step) (next : BlockIdExt → Action S ElectionBoundary)
      → ((ext : BlockIdExt) → Keeps P (next ext))
      → Keeps P (or_continue l eid step next)
  or_continue-Keeps eid (found b) next h = Keeps-pure _
  or_continue-Keeps eid (moved ext) next h = h ext

  walk-Keeps :
      (eid : ℤ) (approx rounds : ℕ) (fwd bwd : BlockIdExt)
      → Keeps P (walk l eid approx rounds fwd bwd)
  unfolding walk
  walk-Keeps eid approx zero fwd bwd = Keeps-pure _
  walk-Keeps eid approx (suc rounds) fwd bwd =
      Keeps-bind (forward l eid fwd) _ (forward-Keeps eid fwd) λ ahead.
        or_continue-Keeps eid ahead _ λ fwd'.
          Keeps-bind (backward l eid bwd) _ (backward-Keeps eid bwd)
            λ back. or_continue-Keeps eid back _ λ bwd'. walk-Keeps eid approx rounds fwd' bwd'

  pub find_election_boundary-Keeps : (approx : ℕ) → Keeps P (find_election_boundary l approx)
  unfolding find_election_boundary
  find_election_boundary-Keeps approx = Keeps-bind _ _ (k.block_by_utime approx) λ ext.
      Keeps-bind (lookup_election_id_for_block l ext) _ (lookup_id-Keeps ext) λ eid.
        Keeps-bind (look_around l ext.seqno) _ (look_around-Keeps ext.seqno)
          λ _. walk-Keeps eid approx max_boundary_search ext ext

  by_fields-Keeps :
      (block : Option ℕ) (id : Option ℤ) (time : Option ℕ) → Keeps P (by_fields l block id time)
  by_fields-Keeps (some n) id time = Keeps-bind _ _ (Keeps-wrap _ _ (k.block n)) λ b. Keeps-pure _
  by_fields-Keeps none (some id) time = Keeps-wrap _ _ (k.block_by_utime _)
  by_fields-Keeps none none (some time) = Keeps-wrap _ _ (k.block_by_utime time)
  by_fields-Keeps none none none = Keeps-pure _

  pub get_anchor_ext-Keeps : (q : RoundsQuery) → Keeps P (get_anchor_ext l q)
  unfolding get_anchor_ext
  get_anchor_ext-Keeps q = by_fields-Keeps q.block q.election_id q.unixtime

  get_election_id_for_block-Keeps : (n : ℕ) → Keeps P (get_election_id_for_block l n)
  unfolding get_election_id_for_block
  get_election_id_for_block-Keeps n = Keeps-bind _ _ (k.block n) λ found. lookup_id-Keeps found.0

  walk_back-Keeps : (rounds : ℕ) (current : ℤ) (n : ℕ) → Keeps P (walk_back l rounds current n)
  unfolding walk_back
  walk_back-Keeps zero current n = Keeps-lift _
  walk_back-Keeps (suc rounds) current n =
      Keeps-bind _ _ (get_election_id_for_block-Keeps (sub32 n 1)) λ prev.
        Keeps-if (eq_ℤ prev current) (walk_back-Keeps rounds current (sub32 n 1)) (Keeps-lift _)

  pub fetch_prev_election_id_for_block-Keeps :
      (n : ℕ) → Keeps P (fetch_prev_election_id_for_block l n)
  unfolding fetch_prev_election_id_for_block
  fetch_prev_election_id_for_block-Keeps n =
      Keeps-if (leb n 1) (Keeps-lift _) (
        Keeps-bind _ _ (get_election_id_for_block-Keeps n)
          λ current. walk_back-Keeps 1000 current n)
