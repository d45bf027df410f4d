-- ===== src/RoundCheck.antt =====
-- cmd/roundcheck/main.go: the check of the sums of a file with the rewards of a round. The printing of the
-- result and the exit code stand in `run` only.
pub mod Accepts
pub mod Run
mod Tests
use ton_validators_rewards_a.Base.{
  ℕ, suc, ◌++◌, Option, none, some, List, [], ◌∷◌, length, if◌then◌else◌,
}
use ton_validators_rewards_a.Base.Int.{ℤ, pos, ◌+ℤ◌, ◌-ℤ◌}
use ton_validators_rewards_a.Base.Text.{Text, codes, show_ℕ}
use ton_validators_rewards_a.Outcome.{Error, Outcome, ok, err, panic, and_then}
use ton_validators_rewards_a.Strconv.{is_empty, set_string, quote}

-- The rational numbers of math/big that the weights are added up with.
pub record Rats (R : Type 0) : Type 0 where
  pub set_rat : Text → Option R
  pub zero_rat : R
  pub one_rat : R
  pub add : R → R → R
  pub sub : R → R → R

-- The decoded file: `validator` and `roundRewardsFile`. A missing text is empty.
pub record FileValidator : Type 0 where
  pub weight : Text
  pub reward : Text
  pub per_block_reward : Text

pub record RoundRewardsFile : Type 0 where
  pub election_id : ℤ
  pub total_bonuses : Text
  pub reward_per_block : Text
  pub validators : List FileValidator

pub record CheckResult (R : Type 0) : Type 0 where
  pub election_id : ℤ
  pub validators_count : ℕ
  pub weight_sum : R
  pub weight_diff : R
  pub check_mode : Text
  pub value_field : Text
  pub target_field : Text
  pub value_sum : ℤ
  pub target_value : ℤ
  pub value_diff : ℤ

abbrev pub or_error : {A : Type 0} → Error → Option A → Outcome A
or_error e (some a) = ok a
or_error e none = err e

-- `fmt.Errorf("validator[%d]: invalid <field> %q", i, text)`
abbrev pub bad_field : (field : Text) → ℕ → Text → Error
bad_field field i text =
    codes "validator["
    ++ (show_ℕ i ++ (codes "]: invalid " ++ (field ++ (codes " " ++ quote text))))

-- The two loops over the validators, from number `i` on.
unfoldable pub sum_weights :
    {R : Type 0} → Rats R → (sum : R) → (i : ℕ) → List FileValidator → Outcome R
sum_weights rats sum i [] = ok sum
sum_weights rats sum i (v ∷ vs) =
    and_then (or_error (bad_field (codes "weight") i v.weight) (rats.set_rat v.weight))
      λ w. sum_weights rats (rats.add sum w) (suc i) vs

unfoldable pub sum_values :
    (field : Text) → (FileValidator → Text) → (sum : ℤ) → (i : ℕ) → List FileValidator → Outcome ℤ
sum_values field text sum i [] = ok sum
sum_values field text sum i (v ∷ vs) =
    and_then (or_error (bad_field field i (text v)) (set_string (text v)))
      λ r. sum_values field text (sum +ℤ r) (suc i) vs

module _ {R : Type 0} (rats : Rats R) where
  -- One case of the switch, with its four names.
  abbrev pub check_values :
      (mode value_field target_field : Text)
      → (target : Text) → (FileValidator → Text)
      → RoundRewardsFile
      → (weight_sum : R) → Outcome (CheckResult R)
  check_values mode value_field target_field target text file weight_sum =
      and_then
        (or_error (codes "invalid " ++ (target_field ++ (codes ": " ++ quote target)))
          (set_string target))
        λ target_value.
          and_then (sum_values value_field text (pos 0) 0 file.validators) λ value_sum. ok (record {
            election_id = file.election_id;
            validators_count = length file.validators;
            weight_sum = weight_sum;
            weight_diff = rats.sub weight_sum rats.one_rat;
            check_mode = mode;
            value_field = value_field;
            target_field = target_field;
            value_sum = value_sum;
            target_value = target_value;
            value_diff = value_sum -ℤ target_value;
          })

  unfoldable pub check_mode_of : RoundRewardsFile → (weight_sum : R) → Outcome (CheckResult R)
  unfolding sum_values
  check_mode_of file weight_sum =
      if is_empty file.total_bonuses
      then (if is_empty file.reward_per_block
          then err
              (codes "no supported reward fields found: expected total_bonuses or reward_per_block")
          else check_values (codes "per_block_rewards") (codes "per_block_reward")
              (codes "reward_per_block") file.reward_per_block (λ v. v.per_block_reward) file
              weight_sum)
      else check_values (codes "round_rewards") (codes "reward") (codes "total_bonuses")
          file.total_bonuses (λ v. v.reward) file weight_sum

  abbrev pub check_file : RoundRewardsFile → Outcome (CheckResult R)
  check_file file = elim file.validators [
    | [] ↦ err (codes "validators is empty")
    | v ∷ vs ↦ and_then (sum_weights rats rats.zero_rat 0 (v ∷ vs)) (check_mode_of file)
  ]

  -- From the decoded file on: opening and decoding it can fail.
  unfoldable pub calculate : Outcome RoundRewardsFile → Outcome (CheckResult R)
  unfolding sum_weights check_mode_of
  calculate decoded = and_then decoded check_file
