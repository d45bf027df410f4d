-- ===== src/Blocks/Tests.antt =====
-- The rewards of block 200 of a chain whose elector earns 30 with each block.
use ton_validators_rewards_a.Base.{
  ℕ, ◌*◌, ◌^◌, ◌+◌, ◌≡◌, refl, Bool-cases, inl, inr, leb, Option, none, some, [], ◌∷◌, true,
}
use ton_validators_rewards_a.Base.Int.{ℤ, pos, ◌+ℤ◌, ◌*ℤ◌, ◌-ℤ◌, div_ℤ}
use ton_validators_rewards_a.Base.Sort.{sort_slice}
use ton_validators_rewards_a.Outcome.{ok, Keeps}
use ton_validators_rewards_a.Tlb.{
  Tongo, BlockIdExt, tiny_int, int, cell, tuple, other, account, active,
}
use ton_validators_rewards_a.Math.{mul_div, inaccurate_div_float}
use ton_validators_rewards_a.Retry.{retry_loop}
use ton_validators_rewards_a.Model.{Output}
use ton_validators_rewards_a.State.{State, LiteClient, request}
use ton_validators_rewards_a.Chain.{get_round_info, extract_validators}
use ton_validators_rewards_a.Elections.{
  get_all_pool_addresses, fetch_raw_past_elections, parse_elections, parse_fields, extract_big_int,
  parse_pools, all_elections, merge_elections, merge_members, pool_entry, cached_pools,
}
use ton_validators_rewards_a.Rewards.{
  build_validator_rows, make_row, total_true_stake, compute_validator_rewards,
  validator_rewards_from, validator_reward, reward_rows, row_reward, validator_weight,
}
use ton_validators_rewards_a.Rounds.Lookup.{
  Loaders, lookup_election_id_for_block, get_election_id_for_block, get_config_param34,
}
use ton_validators_rewards_a.Rounds.Anchor.{fetch_prev_election_id_for_block, walk_back}
use ton_validators_rewards_a.Rounds.Kept.{IsKept}
use ton_validators_rewards_a.Rounds.Paid.{HasValid}
use ton_validators_rewards_a.Rounds.Report.{fetch_round_data, find_election}
use ton_validators_rewards_a.Blocks.{
  bonus_diff, resolve_block, block_time, elector_balance, previous_elections, block_at,
  prev_election, block_output, report_block, fetch_per_block_rewards,
}
use ton_validators_rewards_a.Blocks.Bonuses.{IsDifference, fetch_per_block_rewards-IsDifference}
use ton_validators_rewards_a.Blocks.Shares.{SharesBlock, fetch_per_block_rewards-SharesBlock}
use ton_validators_rewards_a.Sample.{tongo, find_block, block, paid}

-- One election, with 30 of bonuses for each block.
abbrev earning : Tongo
earning = record tongo {
  list_to_slice = λ c. ok (tuple c ∷ []);
  tuple_to_slice = λ c. ok (
      tiny_int (pos 1002)
      ∷ other
      ∷ other
      ∷ other
      ∷ cell 2
      ∷ int (pos 1000)
      ∷ int (pos (30 * c))
      ∷ []);
}

abbrev at_block : Option BlockIdExt → ℕ
at_block none = 0
at_block (some ext) = ext.seqno

abbrev client : LiteClient earning ℕ
client = record {
  target = none;
  masterchain_info = λ b w. (ok (block 200), w + 1);
  account_state = λ b a w. (ok (account 5 (active (some 1) (some 9))), w + 1);
  smc_method = λ b a name args w. (ok (tuple (at_block b) ∷ []), w + 1);
}

abbrev here : Loaders earning (State earning ℕ)
here = record {
  lookup_masterchain_block = find_block;
  lookup_masterchain_block_by_utime = λ n s. (ok (block 101), s);
  cached_get_config_params = λ ext seqno s. (ok seqno, s);
}

abbrev fresh : State earning ℕ
fresh = record { pool_types = []; past_elections = none; rpc_count = some 0; net = 0 }

abbrev output : Output ℤ
output = record {
  response_time_ms = 0;
  block = record { seqno = 200; time = some 200 };
  validation_round = record { start = 1002; end = 3000; start_block = 101; end_block = 101 };
  election_id = pos 1002;
  prev_election_id = some (pos 1001);
  next_election_id = some (pos 3000);
  elector_balance = some (some (pos 5));
  total_stake = some (some (pos 1000));
  reward_per_block = some (some (pos 30));
  prev_block_total_bonuses = some (some (pos 5970));
  curr_block_total_bonuses = some (some (pos 6000));
  validators = paid 1 7 600 18 71 ∷ paid 2 8 400 12 80 ∷ [];
}

-- The latest block, at a time behind the end of its round.
abbrev now : ℕ
now = 4000 * 10 ^ 9

rewarded : (fetch_per_block_rewards here client now now none none true fresh).0 ≡ ok output
unfolding fetch_per_block_rewards bonus_diff resolve_block block_time elector_balance
    previous_elections block_at prev_election block_output report_block fetch_round_data
    find_election get_all_pool_addresses fetch_raw_past_elections parse_elections parse_fields
    extract_big_int parse_pools all_elections merge_elections merge_members pool_entry cached_pools
    request retry_loop sort_slice get_round_info extract_validators build_validator_rows make_row
    total_true_stake compute_validator_rewards validator_rewards_from validator_reward reward_rows
    row_reward validator_weight inaccurate_div_float mul_div div_ℤ ◌*ℤ◌ ◌+ℤ◌ ◌-ℤ◌
    fetch_prev_election_id_for_block walk_back lookup_election_id_for_block
    get_election_id_for_block get_config_param34
rewarded = refl

find_block-Keeps : (n : ℕ) → Keeps HasValid (find_block {S = State earning ℕ} n)
find_block-Keeps n = record {
  keep = λ s h. elim (Bool-cases (leb n 1000)) [ inl e ↦ rw (e) h | inr e ↦ rw (e) h ];
}

here-IsKept : IsKept HasValid here
here-IsKept = record {
  block = find_block-Keeps;
  block_by_utime = λ n. record { keep = λ s h. h };
  config = λ ext n. record { keep = λ s h. h };
}

fetch_per_block_rewards-IsDifference_example : IsDifference output
fetch_per_block_rewards-IsDifference_example =
    fetch_per_block_rewards-IsDifference here client now now true none none fresh rewarded

fetch_per_block_rewards-SharesBlock_example : SharesBlock earning output
fetch_per_block_rewards-SharesBlock_example =
    fetch_per_block_rewards-SharesBlock here client now now true here-IsKept none none fresh tt
      rewarded
