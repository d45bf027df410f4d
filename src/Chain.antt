-- ===== src/Chain.antt =====
-- service/blockchain.go: what the service reads from config param 34 and from the elector.
use ton_validators_rewards_a.Base.{ℕ, ◌++◌, Option, none, some, List, [], ◌∷◌}
use ton_validators_rewards_a.Base.Int.{ℤ, pos}
use ton_validators_rewards_a.Base.Text.{Text, codes}
use ton_validators_rewards_a.Outcome.{Action, pure, fail, wrap, ◌>>=◌}
use ton_validators_rewards_a.Tlb.{
  Tongo, AccountId, elector_addr, VmStackValue, int, ValidatorDescr, ValidatorSet, validators,
  validators_ext, unknown_set, BlockchainConfig,
}
use ton_validators_rewards_a.State.{State, LiteClient, request}
use ton_validators_rewards_a.Elections.{extract_big_int}

abbrev pub round_of_set : Option ValidatorSet → ℕ × ℕ
round_of_set none = (0, 0)
round_of_set (some (validators since until list)) = (since, until)
round_of_set (some (validators_ext since until list)) = (since, until)
round_of_set (some unknown_set) = (0, 0)

-- Start and end of the round, in unix seconds; 0 and 0 without a config or a validator set.
unfoldable pub get_round_info : Option BlockchainConfig → ℕ × ℕ
get_round_info none = (0, 0)
get_round_info (some conf) = round_of_set conf.config_param34

abbrev pub validators_of_set : Option ValidatorSet → List ValidatorDescr
validators_of_set none = []
validators_of_set (some (validators since until list)) = list
validators_of_set (some (validators_ext since until list)) = list
validators_of_set (some unknown_set) = []

unfoldable pub extract_validators : BlockchainConfig → List ValidatorDescr
extract_validators conf = validators_of_set conf.config_param34

module _ {t : Tongo} {W : Type 0} where
  abbrev pub first_amount : Text → List (VmStackValue t.Cell t.Tuple) → Action (State t W) ℤ
  first_amount name [] = fail (name ++ codes ": empty stack")
  first_amount name (v ∷ vs) = elim (extract_big_int v) [
    | some n ↦ pure n
    | none ↦ fail (name ++ codes ": unexpected stack type")
  ]

  -- The credit of an address at the elector. (The message leaves out the name of the stack type.)
  unfoldable pub compute_returned_stake : LiteClient t W → AccountId → Action (State t W) ℤ
  compute_returned_stake client addr = do
    let name = codes "compute_returned_stake(" ++ (t.to_raw addr ++ codes ")")
    stack ←
        wrap (λ e. name ++ (codes ": " ++ e))
          (request (
            client.smc_method client.target elector_addr (codes "compute_returned_stake")
              (int (pos addr.address) ∷ [])))
    first_amount name stack
