-- ===== src/RoundCheck/Tests.antt =====
-- Files of the sample's report and of a block's output.
use ton_validators_rewards_a.Base.{◌≡◌, refl, some, [], ◌∷◌, false, if◌then◌else◌}
use ton_validators_rewards_a.Base.Int.{ℤ, pos, ◌+ℤ◌, ◌-ℤ◌, int_laws}
use ton_validators_rewards_a.Base.Text.{Text, codes, text_eq}
use ton_validators_rewards_a.Outcome.{ok, err}
use ton_validators_rewards_a.Model.{Output}
use ton_validators_rewards_a.RoundCheck.{Rats, CheckResult, bad_field, calculate}
use ton_validators_rewards_a.RoundCheck.Accepts.{
  file_of, file_of_block, IsClose, calculate-rejected,
}
use ton_validators_rewards_a.RoundCheck.Run.{
  Surroundings, exit_with, result_lines, run, run-IsClose,
}
use ton_validators_rewards_a.Sample.{report_in, paid}

-- Rationals with no parts, and weights without digits.
abbrev rats : Rats ℤ
rats = record {
  set_rat = λ s. some (pos 0);
  zero_rat = pos 0;
  one_rat = pos 1;
  add = λ a b. a +ℤ b;
  sub = λ a b. a -ℤ b;
}

abbrev number : ℤ → Text
number w = codes "0"

-- The file of the sample's report is the only one, and no flag is given.
abbrev process : Surroundings ℤ
process = record {
  parse_flags = λ args. ok ([], args);
  flag_errors = λ args. [];
  open_and_decode = λ path.
      if text_eq path (codes "round.json")
      then ok (file_of number (report_in 0))
      else err (codes "no such file");
  float_string = λ x. codes "0";
  is_zero = λ x. false;
}

no_path :
    run rats process []
    ≡ ok (exit_with 2 (codes "usage: roundcheck -file <round.json> OR roundcheck <round.json>"))
unfolding run
no_path = refl

no_file :
    run rats process (codes "a.json" ∷ []) ≡ ok (exit_with 1 (codes "roundcheck: no such file"))
unfolding run calculate text_eq
no_file = refl

-- 19 and 13 of 33.
run-IsClose_example :
    (r : CheckResult ℤ) × IsClose r
    × (run rats process (codes "round.json" ∷ [])
        ≡ ok (record {
          code = 0;
          out = result_lines rats process (codes "round.json") r;
          errors = [];
        }))
unfolding text_eq
run-IsClose_example =
    run-IsClose rats process number (λ x. (pos 0, refl)) (codes "round.json" ∷ [])
      (codes "round.json") [] (report_in 0) refl refl refl
      (pos 33, refl, omega int_laws, omega int_laws, ((pos 19, refl), ((pos 13, refl), tt)))

abbrev output : Output ℤ
output = record {
  response_time_ms = 0;
  block = record { seqno = 200; time = some 200 };
  validation_round = record { start = 1002; end = 3000; start_block = 101; end_block = 101 };
  election_id = pos 1002;
  prev_election_id = some (pos 1001);
  next_election_id = some (pos 3000);
  elector_balance = some (some (pos 5));
  total_stake = some (some (pos 1000));
  reward_per_block = some (some (pos 30));
  prev_block_total_bonuses = some (some (pos 5970));
  curr_block_total_bonuses = some (some (pos 6000));
  validators = paid 1 7 600 18 71 ∷ [];
}

calculate-rejected_example :
    calculate rats (ok (file_of_block number output))
    ≡ err (bad_field (codes "per_block_reward") 0 [])
calculate-rejected_example =
    calculate-rejected number rats (λ x. (pos 0, refl)) output (paid 1 7 600 18 71) [] (pos 30) refl
      refl
