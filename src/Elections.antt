-- ===== src/Elections.antt =====
-- service/pool.go, past_elections of the elector: the parsed tuples, and the map from validators to
-- their pools with its cache.
pub mod Merge
pub mod Cache
pub mod Valid
mod Tests
use ton_validators_rewards_a.Base.{
  ℕ, Bool, true, false, ◌&&◌, ◌++◌, Option, none, some, List, [], ◌∷◌, map, ◌==◌, if◌then◌else◌,
}
use ton_validators_rewards_a.Base.Int.{ℤ, pos, negsuc, eq_ℤ, ltb_ℤ}
use ton_validators_rewards_a.Base.Text.{Text, codes}
use ton_validators_rewards_a.Base.Sort.{sort_slice}
use ton_validators_rewards_a.Base.Dict.{insert}
use ton_validators_rewards_a.Outcome.{
  Outcome, ok, err, panic, Action, pure, fail, lift, wrap, and_then, ◌>>=◌, ◌>>◌,
}
use ton_validators_rewards_a.Tlb.{
  Tongo, AccountId, VmStackValue, tiny_int, int, cell, tuple, other, FrozenMember,
}
use ton_validators_rewards_a.State.{PoolEntry, PastElections, State, LiteClient, request}

-- RawPastElection of service/blockchain.go.
pub record RawPastElection (t : Tongo) : Type 0 where
  pub elect_at : ℤ
  pub frozen_dict : VmStackValue t.Cell t.Tuple
  pub total_stake : Option ℤ
  pub bonuses : Option ℤ

module _ {Cell Tuple : Type 0} where
  unfoldable pub extract_big_int : VmStackValue Cell Tuple → Option ℤ
  extract_big_int (tiny_int n) = some n
  extract_big_int (int n) = some n
  extract_big_int (cell c) = none
  extract_big_int (tuple x) = none
  extract_big_int other = none

  -- The fields of a value of another variant are zero values.
  abbrev pub as_tiny_int : VmStackValue Cell Tuple → ℤ
  as_tiny_int (tiny_int n) = n
  as_tiny_int _ = pos 0

abbrev pub keep : {A : Type 0} → Option A → List A → List A
keep none xs = xs
keep (some x) xs = x ∷ xs

module _ (t : Tongo) where
  abbrev pub as_tuple : VmStackValue t.Cell t.Tuple → t.Tuple
  as_tuple (tuple x) = x
  as_tuple _ = t.zero_tuple

  abbrev pub as_cell : VmStackValue t.Cell t.Tuple → t.Cell
  as_cell (cell c) = c
  as_cell _ = t.zero_cell

  -- The tuple is [election_id, unfreeze_at, stake_held, vset_hash, frozen_dict, total_stake, bonuses,
  -- complaints]; one with fewer than seven fields is skipped.
  unfoldable pub parse_fields : List (VmStackValue t.Cell t.Tuple) → Option (RawPastElection t)
  unfolding extract_big_int
  parse_fields (election_id ∷ f1 ∷ f2 ∷ f3 ∷ frozen ∷ total ∷ bonuses ∷ rest) = some (record {
    elect_at = as_tiny_int election_id;
    frozen_dict = frozen;
    total_stake = extract_big_int total;
    bonuses = extract_big_int bonuses;
  })
  parse_fields _ = none

  -- The loop over the tuples: one that cannot be read is skipped as well.
  unfoldable pub parse_elections :
      List (VmStackValue t.Cell t.Tuple) → Outcome (List (RawPastElection t))
  unfolding parse_fields
  parse_elections [] = ok []
  parse_elections (el ∷ els) =
      let rest = parse_elections els in
      elim (t.tuple_to_slice (as_tuple el)) [
        | ok fields ↦ and_then rest (λ parsed. ok (keep (parse_fields fields) parsed))
        | err e ↦ rest
        | panic ↦ panic
      ]

  -- The list of the first value of the stack.
  abbrev pub first_value :
      {W : Type 0}
      → List (VmStackValue t.Cell t.Tuple)
      → Action (State t W) (VmStackValue t.Cell t.Tuple)
  first_value [] = fail (codes "past_elections returned empty stack")
  first_value (v ∷ vs) = pure v

  unfoldable pub fetch_raw_past_elections :
      {W : Type 0} → LiteClient t W → AccountId → Action (State t W) (List (RawPastElection t))
  unfolding parse_elections
  fetch_raw_past_elections client addr = do
    stack ←
        wrap (λ e. codes "past_elections: " ++ e)
          (request (client.smc_method client.target addr (codes "past_elections") []))
    top ← first_value stack
    elections ← wrap (λ e. codes "RecursiveToSlice: " ++ e) (lift (t.list_to_slice (as_tuple top)))
    lift (parse_elections elections)

-- An election with the members of its frozen dictionary.
abbrev pub Election : Type 0
Election = ℤ × List (ℕ × FrozenMember)

unfoldable pub pool_entry : FrozenMember → PoolEntry
pool_entry m = record {
  addr = record { workchain = negsuc 0; address = m.src_addr };
  true_stake = pos m.true_stake;
}

-- `merged[item.Key] = …` for each item of each election.
unfoldable pub merge_members : List (ℕ × FrozenMember) → List (ℕ × PoolEntry) → List (ℕ × PoolEntry)
unfolding pool_entry
merge_members [] merged = merged
merge_members ((key, m) ∷ items) merged =
    merge_members items (insert ◌==◌ key (pool_entry m) merged)

unfoldable pub merge_elections : List Election → List (ℕ × PoolEntry) → List (ℕ × PoolEntry)
unfolding merge_members
merge_elections [] merged = merged
merge_elections ((at, members) ∷ els) merged = merge_elections els (merge_members members merged)

abbrev pub elected_before : Election → Election → Bool
elected_before a b = ltb_ℤ a.0 b.0

-- slices.Equal on the ids.
unfoldable pub ids_equal : List ℤ → List ℤ → Bool
ids_equal [] [] = true
ids_equal [] (y ∷ ys) = false
ids_equal (x ∷ xs) [] = false
ids_equal (x ∷ xs) (y ∷ ys) = eq_ℤ x y && ids_equal xs ys

-- A look-up in pastElectionsCache.
unfoldable pub cached_pools : List ℤ → Option PastElections → Option (List (ℕ × PoolEntry))
unfolding ids_equal
cached_pools ids none = none
cached_pools ids (some c) = if ids_equal ids c.election_ids then some c.pools else none

module _ (t : Tongo) where
  abbrev pub sorted_ids : List (RawPastElection t) → List ℤ
  sorted_ids parsed = sort_slice ltb_ℤ (map (λ pe. pe.elect_at) parsed)

  -- The full parse: an election whose members cannot be decoded is left out.
  unfoldable pub all_elections : List (RawPastElection t) → Outcome (List Election)
  all_elections [] = ok []
  all_elections (pe ∷ pes) =
      let rest = all_elections pes in
      elim (t.unmarshal_members (as_cell t pe.frozen_dict)) [
        | ok members ↦ and_then rest (λ els. ok ((pe.elect_at, members) ∷ els))
        | err e ↦ rest
        | panic ↦ panic
      ]

  unfoldable pub parse_pools : List (RawPastElection t) → Outcome (List (ℕ × PoolEntry))
  unfolding all_elections merge_elections
  parse_pools parsed =
      and_then (all_elections parsed)
        (λ els. ok (merge_elections (sort_slice elected_before els) []))

  abbrev pub store_pools :
      {W : Type 0} → List ℤ → List (ℕ × PoolEntry) → Action (State t W) (List (ℕ × PoolEntry))
  store_pools ids merged s = (
    ok merged,
    record s { past_elections = some (record { election_ids = ids; pools = merged }) },
  )

  abbrev pub pools_or_parse :
      {W : Type 0}
      → List (RawPastElection t)
      → Option (List (ℕ × PoolEntry))
      → Action (State t W) (List (ℕ × PoolEntry))
  pools_or_parse parsed (some pools) = pure pools
  pools_or_parse parsed none = do
    merged ← lift (parse_pools parsed)
    store_pools (sorted_ids parsed) merged

  unfoldable pub get_all_pool_addresses :
      {W : Type 0} → LiteClient t W → AccountId → Action (State t W) (List (ℕ × PoolEntry))
  get_all_pool_addresses client addr = do
    parsed ← fetch_raw_past_elections t client addr
    λ s. pools_or_parse parsed (cached_pools (sorted_ids parsed) s.past_elections) s
