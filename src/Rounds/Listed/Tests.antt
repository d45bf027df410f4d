-- ===== src/Rounds/Listed/Tests.antt =====
-- The listing of the sample chain, at a time behind the end of its round.
use ton_validators_rewards_a.Base.{map, ℕ, ◌≡◌, refl, ◌*◌, ◌^◌, true, none, some, [], ◌∷◌}
use ton_validators_rewards_a.Base.Int.{pos}
use ton_validators_rewards_a.Base.Text.{codes}
use ton_validators_rewards_a.Base.Sort.{sort_slice}
use ton_validators_rewards_a.Outcome.{ok}
use ton_validators_rewards_a.Chain.{get_round_info}
use ton_validators_rewards_a.Model.{RoundsQuery, ValidationRoundsOutput}
use ton_validators_rewards_a.Retry.{retry_loop}
use ton_validators_rewards_a.State.{State, request}
use ton_validators_rewards_a.Rounds.Lookup.{
  Loaders, lookup_election_id_for_block, get_config_param34,
}
use ton_validators_rewards_a.Rounds.Boundary.{
  find_election_boundary, walk, forward, look_around, look_block,
}
use ton_validators_rewards_a.Rounds.Info.{validation_round, build_rounds_output}
use ton_validators_rewards_a.Rounds.Rest.{
  rest_rounds, derive_end_blocks, trim, round_length, middle_blocks, failed_round, fetch_rounds,
  fetch_round,
}
use ton_validators_rewards_a.Rounds.Listing.{
  populate_prev_next_election_ids, listing_anchor, anchor_round, fetch_validation_rounds,
}
use ton_validators_rewards_a.Rounds.Listed.{
  IsListing, fetch_validation_rounds-IsListing, fetch_validation_rounds-unixtime,
}
use ton_validators_rewards_a.Sample.{tongo, loaders, client, fresh, block}

abbrev here : Loaders tongo (State tongo ℕ)
here = loaders (State tongo ℕ)

abbrev latest : RoundsQuery
latest = record { election_id = none; block = none; unixtime = none }

abbrev listing : ValidationRoundsOutput
listing = record {
  response_time_ms = 0;
  rounds =
      record {
        election_id = pos 1001;
        start = some 1001;
        end = some 3000;
        start_block = 100;
        end_block = 100;
        finished = true;
        prev_election_id = some (pos 1001);
        next_election_id = some (pos 3000);
        error = [];
      }
      ∷ [];
  error = [];
}

listed : (fetch_validation_rounds here (4000 * 10 ^ 9) (client 1) latest fresh).0 ≡ ok listing
unfolding fetch_validation_rounds listing_anchor anchor_round rest_rounds derive_end_blocks trim
    round_length populate_prev_next_election_ids build_rounds_output validation_round request
    retry_loop find_election_boundary walk forward look_around look_block
    lookup_election_id_for_block get_config_param34 get_round_info
listed = refl

fetch_validation_rounds-IsListing_example : IsListing (4000 * 10 ^ 9) listing
fetch_validation_rounds-IsListing_example =
    fetch_validation_rounds-IsListing here (4000 * 10 ^ 9) (client 1) latest fresh listed

fetch_validation_rounds-unixtime_example :
    fetch_validation_rounds here (4000 * 10 ^ 9) (client 1) (record latest { unixtime = some 1500 })
    ≡ fetch_validation_rounds here (4000 * 10 ^ 9) (client 1) latest
fetch_validation_rounds-unixtime_example =
    fetch_validation_rounds-unixtime here (4000 * 10 ^ 9) (client 1) latest (some 1500)

-- The rounds of 100 blocks before one that starts at block 250; the third would start behind block 0.
halves : middle_blocks 100 250 1 5 ≡ 200 ∷ 100 ∷ []
unfolding middle_blocks
halves = refl

-- Half of a round of 1000 seconds has passed in 50 blocks.
extrapolated : round_length (1500 * 10 ^ 9) 1000 2000 (block 150) (block 100) none ≡ 100
unfolding round_length
extrapolated = refl

-- The second round ends before block 300; the third could not be read.
ended :
    map
      (λ r. r.end_block)
      (derive_end_blocks (
        record (failed_round []) { start_block = 300 }
        ∷ record (failed_round []) { start_block = 200 }
        ∷ failed_round (codes "state already gc'd")
        ∷ []))
    ≡ 0 ∷ 299 ∷ 0 ∷ []
unfolding derive_end_blocks
ended = refl

-- Of two rounds only the first starts behind block 0: that of block 100.
fetched :
    (rest_rounds here true 2 100 150 fresh).0
    ≡ ok (
        record (failed_round []) {
          election_id = pos 1001;
          start_utime = 1001;
          end_utime = 3000;
          start_block = 100;
          finished = true;
        }
        ∷ [])
unfolding rest_rounds fetch_rounds fetch_round middle_blocks get_config_param34 get_round_info
    sort_slice
fetched = refl
