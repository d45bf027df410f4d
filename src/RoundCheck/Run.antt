-- ===== src/RoundCheck/Run.antt =====
-- `run` of cmd/roundcheck/main.go: the path of the file, the exit code and the printed lines.
use ton_validators_rewards_a.Base.{
  ℕ, ◌≡◌, refl, Bool, true, false, ◌++◌, List, [], ◌∷◌, some, if◌then◌else◌,
}
use ton_validators_rewards_a.Base.Int.{pos, eq_ℤ}
use ton_validators_rewards_a.Base.Text.{Text, codes, show_ℕ, show_ℤ}
use ton_validators_rewards_a.Outcome.{Outcome, ok, err, panic}
use ton_validators_rewards_a.Strconv.{is_empty}
use ton_validators_rewards_a.Model.{RoundRewardsOutput}
use ton_validators_rewards_a.Rounds.Bonuses.{SharesOut}
use ton_validators_rewards_a.RoundCheck.{Rats, RoundRewardsFile, CheckResult, calculate}
use ton_validators_rewards_a.RoundCheck.Accepts.{file_of, IsClose, calculate-IsClose}

-- How the process ends: its exit code, and the lines on its two outputs.
pub record Exit : Type 0 where
  pub code : ℕ
  pub out : List Text
  pub errors : List Text

-- The flag set of package flag, on `-file`: the value of the flag with the other arguments, or an error,
-- with the lines that it writes then. The file as encoding/json decodes it. Of the rational numbers,
-- FloatString(30), and whether Sign() is 0.
pub record Surroundings (R : Type 0) : Type 0 where
  pub parse_flags : List Text → Outcome (Text × List Text)
  pub flag_errors : List Text → List Text
  pub open_and_decode : Text → Outcome RoundRewardsFile
  pub float_string : R → Text
  pub is_zero : R → Bool

-- %t
abbrev pub show_bool : Bool → Text
show_bool true = codes "true"
show_bool false = codes "false"

abbrev pub first_arg : List Text → Text
first_arg [] = []
first_arg (a ∷ args) = a

abbrev pub exit_with : ℕ → Text → Exit
exit_with code message = record { code = code; out = []; errors = message ∷ [] }

module _ {R : Type 0} (rats : Rats R) (proc : Surroundings R) where
  abbrev pub result_lines : (path : Text) → CheckResult R → List Text
  result_lines path r =
      (codes "file: " ++ path)
      ∷ (codes "election_id: " ++ show_ℤ r.election_id)
      ∷ (codes "validators_count: " ++ show_ℕ r.validators_count)
      ∷ (codes "weight_sum: " ++ proc.float_string r.weight_sum)
      ∷ (codes "weight_diff_from_1: " ++ proc.float_string r.weight_diff)
      ∷ (codes "weight_match_exact: " ++ show_bool (proc.is_zero r.weight_diff))
      ∷ (codes "check_mode: " ++ r.check_mode)
      ∷ (r.value_field ++ (codes "_sum: " ++ show_ℤ r.value_sum))
      ∷ (r.target_field ++ (codes ": " ++ show_ℤ r.target_value))
      ∷ (r.value_field ++ (codes "_diff: " ++ show_ℤ r.value_diff))
      ∷ (r.value_field ++ (codes "_match_exact: " ++ show_bool (eq_ℤ r.value_diff (pos 0))))
      ∷ []

  abbrev pub report_result : (path : Text) → Outcome (CheckResult R) → Outcome Exit
  report_result path (ok r) = ok (record { code = 0; out = result_lines path r; errors = [] })
  report_result path (err e) = ok (exit_with 1 (codes "roundcheck: " ++ e))
  report_result path panic = panic

  -- The path by the flag, or else the first argument.
  abbrev pub check_path : (path : Text) → Outcome Exit
  check_path path =
      if is_empty path
      then ok
          (exit_with 2 (codes "usage: roundcheck -file <round.json> OR roundcheck <round.json>"))
      else report_result path (calculate rats (proc.open_and_decode path))

  abbrev pub after_flags : List Text → Outcome (Text × List Text) → Outcome Exit
  after_flags args (ok (file_path, rest)) =
      check_path (if is_empty file_path then first_arg rest else file_path)
  after_flags args (err e) = ok (record { code = 2; out = []; errors = proc.flag_errors args })
  after_flags args panic = panic

  unfoldable pub run : (args : List Text) → Outcome Exit
  run args = after_flags args (proc.parse_flags args)

  -- For a path without flags that holds the file of a report which shares out its bonuses, as those
  -- of FetchRoundRewards do, and whose weights can be read, roundcheck ends with exit code 0 and
  -- prints a result: the sum of the rewards is not above the total of the bonuses, and less than
  -- one unit for each validator below it.
  pub run-IsClose :
      {F : Type 0} (number : F → Text)
      (readable : (w : F) → (r : R) × (rats.set_rat (number w) ≡ some r)) (args : List Text)
      (path : Text) (rest : List Text) (out : RoundRewardsOutput F)
      → proc.parse_flags args ≡ ok ([], path ∷ rest)
      → is_empty path ≡ false
      → proc.open_and_decode path ≡ ok (file_of number out)
      → SharesOut out
      → (r : CheckResult R) × IsClose r
        × (run args ≡ ok (record { code = 0; out = result_lines path r; errors = [] }))
  unfolding run
  run-IsClose number readable args path rest out flags given decoded shares =
      let (r, result, close) = calculate-IsClose number rats readable out shares in
      (r, close, rw (flags, given, decoded, result) refl)
