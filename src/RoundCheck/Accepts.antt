-- ===== src/RoundCheck/Accepts.antt =====
-- A report of FetchRoundRewards, as a file for cmd/roundcheck.
use ton_validators_rewards_a.Base.{
  ℕ, suc, ◌≡◌, refl, ap, ◌∙◌, Option, none, some, List, [], ◌∷◌, map, length, length-map, All,
}
use ton_validators_rewards_a.Base.Int.{ℤ, pos, ◌+ℤ◌, ◌-ℤ◌, ◌≤ℤ◌, ◌<ℤ◌, sum_ℤ, int_laws}
use ton_validators_rewards_a.Base.Text.{Text, codes, show_ℤ}
use ton_validators_rewards_a.Outcome.{ok, err}
use ton_validators_rewards_a.Strconv.{set_string}
use ton_validators_rewards_a.Strconv.RoundTrip.{show_ℤ-nonempty, set_string-show_ℤ}
use ton_validators_rewards_a.Model.{NTon, Output, ValidatorReward, RoundRewardsOutput}
use ton_validators_rewards_a.Rewards.Reports.{rewards_of, IsKnown}
use ton_validators_rewards_a.Rounds.Bonuses.{SharesOut}
use ton_validators_rewards_a.RoundCheck.{
  bad_field, Rats, FileValidator, RoundRewardsFile, CheckResult, sum_weights, sum_values,
  check_mode_of, calculate,
}

-- An amount as the file has it: its decimals, which NTon prints, and nothing for null.
abbrev pub text_of : Option NTon → Text
text_of (some (some n)) = show_ℤ n
text_of (some none) = []
text_of none = []

module _ {F : Type 0} (number : F → Text) where
  abbrev pub validator_of : ValidatorReward F → FileValidator
  validator_of v = record {
    weight = number v.weight;
    reward = text_of v.reward;
    per_block_reward = [];
  }

  -- The report's file, with its float64 weights as JSON prints them.
  abbrev pub file_of : RoundRewardsOutput F → RoundRewardsFile
  file_of out = record {
    election_id = out.election_id;
    total_bonuses = text_of out.total_bonuses;
    reward_per_block = [];
    validators = map validator_of out.validators;
  }

  -- The same of an output of FetchPerBlockRewards; its validators have a field `reward`, too.
  abbrev pub file_of_block : Output F → RoundRewardsFile
  file_of_block out = record {
    election_id = out.election_id;
    total_bonuses = [];
    reward_per_block = text_of out.reward_per_block;
    validators = map validator_of out.validators;
  }

-- The sum of the rewards and the total of the bonuses differ by less than one unit for each validator, and
-- the sum is not the larger one.
abbrev pub IsClose : {R : Type 0} → CheckResult R → Type 0
IsClose r = (r.value_diff ≤ℤ pos 0) × (pos 0 <ℤ r.value_diff +ℤ pos r.validators_count)

+ℤ_assoc : (a b c : ℤ) → a +ℤ b +ℤ c ≡ a +ℤ (b +ℤ c)
+ℤ_assoc a b c = omega int_laws

module _ {F R : Type 0} (number : F → Text) (rats : Rats R)
    (parses : (x : F) → (w : R) × (rats.set_rat (number x) ≡ some w)) where
  sum_values-known :
      (field : Text) (vs : List (ValidatorReward F)) (sum : ℤ) (i : ℕ)
      → All IsKnown vs
      → sum_values field (λ v. v.reward) sum i (map (validator_of number) vs)
        ≡ ok (sum +ℤ sum_ℤ (rewards_of vs))
  unfolding sum_values
  sum_values-known field [] sum i known = ap ok (omega int_laws)
  sum_values-known field (v ∷ vs) sum i ((n, is_n), known) =
      rw (is_n, set_string-show_ℤ n)
        (sum_values-known field vs (sum +ℤ n) (suc i) known
          ∙ ap ok (+ℤ_assoc sum n (sum_ℤ (rewards_of vs))))

  sum_weights-parsed :
      (vs : List (ValidatorReward F)) (sum : R) (i : ℕ)
      → (w : R) × (sum_weights rats sum i (map (validator_of number) vs) ≡ ok w)
  unfolding sum_weights
  sum_weights-parsed [] sum i = (sum, refl)
  sum_weights-parsed (v ∷ vs) sum i =
      let (w, read) = parses v.weight in
      let (total, rest) = sum_weights-parsed vs (rats.add sum w) (suc i) in (total, rw (read) rest)

  -- What calculate finds out about the report.
  abbrev found :
      RoundRewardsOutput F
      → (validators : List (ValidatorReward F)) → (bonuses : ℤ) → R
      → CheckResult R
  found out vs bonuses w = record {
    election_id = out.election_id;
    validators_count = length (map (validator_of number) vs);
    weight_sum = w;
    weight_diff = rats.sub w rats.one_rat;
    check_mode = codes "round_rewards";
    value_field = codes "reward";
    target_field = codes "total_bonuses";
    value_sum = pos 0 +ℤ sum_ℤ (rewards_of vs);
    target_value = bonuses;
    value_diff = pos 0 +ℤ sum_ℤ (rewards_of vs) -ℤ bonuses;
  }

  calculate-found :
      (out : RoundRewardsOutput F) (v : ValidatorReward F) (vs : List (ValidatorReward F))
      (bonuses : ℤ)
      → out.validators ≡ v ∷ vs
      → out.total_bonuses ≡ some (some bonuses)
      → All IsKnown (v ∷ vs)
      → (w : R) × (calculate rats (ok (file_of number out)) ≡ ok (found out (v ∷ vs) bonuses w))
  unfolding calculate check_mode_of
  calculate-found out v vs bonuses list total known =
      let (w, weights) = sum_weights-parsed (v ∷ vs) rats.zero_rat 0 in
      let values = sum_values-known (codes "reward") (v ∷ vs) (pos 0) 0 known in
      (
        w,
        rw (list, total, weights, show_ℤ-nonempty bonuses, set_string-show_ℤ bonuses, values) refl,
      )

  by_validators :
      (out : RoundRewardsOutput F) (vs : List (ValidatorReward F)) (bonuses : ℤ)
      → out.validators ≡ vs
      → out.total_bonuses ≡ some (some bonuses)
      → sum_ℤ (rewards_of vs) ≤ℤ bonuses
      → bonuses <ℤ sum_ℤ (rewards_of vs) +ℤ pos (length vs)
      → All IsKnown vs
      → (r : CheckResult R) × (calculate rats (ok (file_of number out)) ≡ ok r) × IsClose r
  by_validators out [] bonuses list total low high known = absurd (omega int_laws)
  by_validators out (v ∷ vs) bonuses list total low high known =
      let (w, is_found) = calculate-found out v vs bonuses list total known in
      let count = length-map (v ∷ vs) (validator_of number) in
      (found out (v ∷ vs) bonuses w, is_found, (omega int_laws, omega int_laws))

  -- For the file of a report that shares out its bonuses, as those of FetchRoundRewards do, and
  -- whose weights can be read, calculate returns a result: the sum of the rewards is not above the
  -- total of the bonuses, and less than one unit for each validator below it.
  pub calculate-IsClose :
      (out : RoundRewardsOutput F)
      → SharesOut out
      → (r : CheckResult R) × (calculate rats (ok (file_of number out)) ≡ ok r) × IsClose r
  calculate-IsClose out (bonuses, total, low, high, known) =
      by_validators out out.validators bonuses refl total low high known

  -- For the file of an output of FetchPerBlockRewards that has a validator, a reward of the block
  -- and readable weights, calculate returns an error: it looks for a field per_block_reward, and
  -- the output has the rewards in the field reward.
  pub calculate-rejected :
      (out : Output F) (v : ValidatorReward F) (vs : List (ValidatorReward F)) (reward : ℤ)
      → out.validators ≡ v ∷ vs
      → out.reward_per_block ≡ some (some reward)
      → calculate rats (ok (file_of_block number out))
        ≡ err (bad_field (codes "per_block_reward") 0 [])
  unfolding calculate check_mode_of sum_values set_string
  calculate-rejected out v vs reward list total =
      let (w, weights) = sum_weights-parsed (v ∷ vs) rats.zero_rat 0 in
      rw (list, total, weights, show_ℤ-nonempty reward, set_string-show_ℤ reward) refl
