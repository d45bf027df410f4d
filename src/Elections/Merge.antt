-- ===== src/Elections/Merge.antt =====
-- The map from validators to pools: the newest election that lists a validator decides.
use mathlib.Core.List.{Perm}
use mathlib.Core.Path.{subst}
use mathlib.Core.Option
use ton_validators_rewards_a.Base.{
  ℕ, ⊤, ◌≡◌, refl, ◌∙◌, Option, none, some, List, [], ◌∷◌, arith, ◌==◌, ==_iff, All, true, false,
  if◌then◌else◌,
}
use ton_validators_rewards_a.Base.Int.{pos, negsuc}
use ton_validators_rewards_a.Base.Sort.{sort_slice, sort_slice-perm, sort_slice-IsSorted, IsSorted}
use ton_validators_rewards_a.Base.Dict.{lookup, insert, lookup-insert, insert-All}
use ton_validators_rewards_a.Outcome.{Outcome, ok, err, panic, and_then}
use ton_validators_rewards_a.Tlb.{Tongo, FrozenMember}
use ton_validators_rewards_a.State.{PoolEntry}
use ton_validators_rewards_a.Elections.{
  RawPastElection, Election, pool_entry, merge_members, merge_elections, elected_before,
  all_elections, parse_pools,
}

-- The last entry of a key, and the entry of a key in the last election that has one.
abbrev pub last_member : ℕ → List (ℕ × FrozenMember) → Option FrozenMember
last_member k [] = none
last_member k ((j, m) ∷ items) = elim (last_member k items) [
  | some later ↦ some later
  | none ↦ if j == k then some m else none
]

abbrev pub newest_member : ℕ → List Election → Option FrozenMember
newest_member k [] = none
newest_member k (e ∷ els) = elim (newest_member k els) [
  | some later ↦ some later
  | none ↦ last_member k e.1
]

-- The entry of a member, or else another one.
abbrev entry_or : Option FrozenMember → Option PoolEntry → Option PoolEntry
entry_or (some m) old = some (pool_entry m)
entry_or none old = old

lookup-merge_members :
    (k : ℕ) (items : List (ℕ × FrozenMember)) (merged : List (ℕ × PoolEntry))
    → lookup ◌==◌ k (merge_members items merged)
      ≡ entry_or (last_member k items) (lookup ◌==◌ k merged)
unfolding merge_members
lookup-merge_members k [] merged = refl
lookup-merge_members k ((j, m) ∷ items) merged =
    rw
      (
        lookup-merge_members k items (insert ◌==◌ j (pool_entry m) merged),
        lookup-insert ◌==◌ ==_iff j k (pool_entry m) merged,
      )
      (ground arith)

lookup-merge_elections :
    (k : ℕ) (els : List Election) (merged : List (ℕ × PoolEntry))
    → lookup ◌==◌ k (merge_elections els merged)
      ≡ entry_or (newest_member k els) (lookup ◌==◌ k merged)
unfolding merge_elections
lookup-merge_elections k [] merged = refl
lookup-merge_elections k (e ∷ els) merged =
    rw (lookup-merge_elections k els (merge_members e.1 merged), lookup-merge_members k e.1 merged)
      (ground arith)

-- A pool entry as the parser makes it: an account of the masterchain and a stake that is not negative.
abbrev pub IsPoolEntry : PoolEntry → Type 0
IsPoolEntry e = (e.addr.workchain ≡ negsuc 0) × ((stake : ℕ) × (e.true_stake ≡ pos stake))

merge_members-All :
    (items : List (ℕ × FrozenMember)) (merged : List (ℕ × PoolEntry))
    → All (λ e. IsPoolEntry e.1) merged
    → All (λ e. IsPoolEntry e.1) (merge_members items merged)
unfolding merge_members
merge_members-All [] merged h = h
merge_members-All ((j, m) ∷ items) merged h =
    merge_members-All items _
      (insert-All ◌==◌ IsPoolEntry j (pool_entry m) merged (refl, (m.true_stake, refl)) h)

merge_elections-All :
    (els : List Election) (merged : List (ℕ × PoolEntry))
    → All (λ e. IsPoolEntry e.1) merged
    → All (λ e. IsPoolEntry e.1) (merge_elections els merged)
unfolding merge_elections
merge_elections-All [] merged h = h
merge_elections-All (e ∷ els) merged h = merge_elections-All els _ (merge_members-All e.1 merged h)

-- Every pool of the map that the parser returns is of the masterchain, with a stake that is not
-- negative.
pub parse_pools-All :
    (t : Tongo) (parsed : List (RawPastElection t)) {pools : List (ℕ × PoolEntry)}
    → parse_pools t parsed ≡ ok pools
    → All (λ e. IsPoolEntry e.1) pools
unfolding parse_pools
parse_pools-All t parsed h = by_outcome (all_elections t parsed) h
  where
    by_outcome :
        (r : Outcome (List Election)) {pools : List (ℕ × PoolEntry)}
        → and_then r (λ els. ok (merge_elections (sort_slice elected_before els) [])) ≡ ok pools
        → All (λ e. IsPoolEntry e.1) pools
    by_outcome (ok els) h' =
        subst (λ r. elim r [ ok p ↦ All (λ e. IsPoolEntry e.1) p | err e ↦ ⊤ | panic ↦ ⊤ ]) h'
          (merge_elections-All (sort_slice elected_before els) [] tt)
    by_outcome (err e) h' = cc
    by_outcome panic h' = cc

before_asym : (a b : Election) → elected_before a b ≡ true → elected_before b a ≡ false
before_asym a b h = ground arith

before_trans :
    (a b c : Election)
    → elected_before b a ≡ false
    → elected_before c b ≡ false
    → elected_before c a ≡ false
before_trans a b c h h' = ground arith

-- If the elections can be read, then in the parsed map a validator has the pool and the stake of
-- the newest election that lists it: the last one that does in a list that has the same elections,
-- ordered by their ids.
pub parse_pools-newest :
    (t : Tongo) (parsed : List (RawPastElection t)) (k : ℕ) {els : List Election}
    → all_elections t parsed ≡ ok els
    → (pools : List (ℕ × PoolEntry)) × (sorted : List Election) × (parse_pools t parsed ≡ ok pools)
      × (lookup ◌==◌ k pools ≡ Option.map pool_entry (newest_member k sorted))
      × Perm sorted els
      × IsSorted elected_before sorted
unfolding parse_pools
parse_pools-newest t parsed k {els} h =
    let sorted = sort_slice elected_before els in
    (
      merge_elections sorted [],
      sorted,
      rw h,
      lookup-merge_elections k sorted [] ∙ as_map (newest_member k sorted),
      sort_slice-perm elected_before els,
      sort_slice-IsSorted elected_before before_asym before_trans els,
    )
  where
    as_map : (m : Option FrozenMember) → entry_or m none ≡ Option.map pool_entry m
    as_map none = refl
    as_map (some m) = refl
