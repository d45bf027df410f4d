-- ===== src/Elections/Tests.antt =====
-- Two elections of the sample network: validator 7 is in both, validator 8 in the newer one.
use mathlib.Core.List.{Perm}
use mathlib.Core.Option
use ton_validators_rewards_a.Base.{ℕ, ◌≡◌, refl, some, none, List, [], ◌∷◌, ◌==◌}
use ton_validators_rewards_a.Base.Int.{pos, negsuc}
use ton_validators_rewards_a.Base.Dict.{lookup}
use ton_validators_rewards_a.Base.Sort.{IsSorted, sort_slice}
use ton_validators_rewards_a.Outcome.{ok}
use ton_validators_rewards_a.Tlb.{elector_addr, cell}
use ton_validators_rewards_a.State.{PoolEntry, request}
use ton_validators_rewards_a.Retry.{retry_loop}
use ton_validators_rewards_a.Elections.{
  RawPastElection, Election, parse_pools, all_elections, merge_elections, merge_members, pool_entry,
  elected_before, get_all_pool_addresses, fetch_raw_past_elections, cached_pools,
}
use ton_validators_rewards_a.Elections.Merge.{newest_member, parse_pools-newest}
use ton_validators_rewards_a.Elections.Cache.{get_all_pool_addresses-again}
use ton_validators_rewards_a.Sample.{tongo, client, fresh, members}

abbrev raw : (id dict : ℕ) → RawPastElection tongo
raw id dict = record {
  elect_at = pos id;
  frozen_dict = cell dict;
  total_stake = none;
  bonuses = none;
}

-- As the elector of the sample network gives it.
abbrev raw_of : (id dict : ℕ) → RawPastElection tongo
raw_of id dict = record {
  elect_at = pos id;
  frozen_dict = cell dict;
  total_stake = some (pos 1000);
  bonuses = some (pos 33);
}

-- The newer one first.
abbrev two : List (RawPastElection tongo)
two = raw 2000 2 ∷ raw 1000 1 ∷ []

abbrev entry : (addr stake : ℕ) → PoolEntry
entry addr stake = record {
  addr = record { workchain = negsuc 0; address = addr };
  true_stake = pos stake;
}

parse_pools-newest_example :
    (pools : List (ℕ × PoolEntry)) × (sorted : List Election) × (parse_pools tongo two ≡ ok pools)
    × (lookup ◌==◌ 7 pools ≡ Option.map pool_entry (newest_member 7 sorted))
    × Perm sorted ((pos 2000, members 2) ∷ (pos 1000, members 1) ∷ [])
    × IsSorted elected_before sorted
unfolding all_elections
parse_pools-newest_example = parse_pools-newest tongo two 7 refl

get_all_pool_addresses-again_example :
    (get_all_pool_addresses tongo
      (client 1)
      elector_addr
      (get_all_pool_addresses tongo (client 1) elector_addr fresh).1).0
    ≡ ok ((7, entry 71 600) ∷ (8, entry 80 400) ∷ [])
unfolding get_all_pool_addresses fetch_raw_past_elections parse_pools all_elections merge_elections
    merge_members pool_entry request retry_loop cached_pools sort_slice
get_all_pool_addresses-again_example =
    get_all_pool_addresses-again tongo (client 1) (client 1) elector_addr fresh
      {parsed = raw_of 1001 1 ∷ raw_of 1002 2 ∷ []} {parsed' = raw_of 1001 1 ∷ raw_of 1002 2 ∷ []}
      refl refl refl refl
