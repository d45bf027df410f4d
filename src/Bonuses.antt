-- ===== src/Bonuses.antt =====
-- cmd/bonuses/main.go: the command that prints the bonuses of the election of a block. What the flags are
-- read as is given; an error of `main` is a log.Fatal.
pub mod Agrees
mod Tests
use ton_validators_rewards_a.Base.{
  ℕ, ◌%◌, ◌^◌, ◌++◌, Option, none, some, List, [], ◌∷◌, ◌==◌, if◌then◌else◌,
}
use ton_validators_rewards_a.Base.Int.{ℤ, pos, eq_ℤ}
use ton_validators_rewards_a.Base.Text.{Text, codes, show_ℕ, show_ℤ}
use ton_validators_rewards_a.Outcome.{
  Outcome, ok, err, panic, Action, pure, fail, lift, wrap, ◌>>=◌,
}
use ton_validators_rewards_a.Strconv.{is_empty}
use ton_validators_rewards_a.Tlb.{
  Tongo, AccountId, elector_addr, BlockIdExt, VmStackValue, tiny_int, int, cell, tuple, other,
  ValidatorSet, validators, validators_ext, unknown_set, BlockchainConfig,
}
use ton_validators_rewards_a.Elections.{as_tiny_int, as_tuple}
use ton_validators_rewards_a.RoundRobin.Forward.{BlockId}
use ton_validators_rewards_a.Loaders.{masterchain}

-- The requests of *liteapi.Client; the first argument of the last two is the block of WithBlock.
pub record LiteapiClient (t : Tongo) (W : Type 0) : Type 0 where
  pub lookup_block : BlockId → (mode : ℕ) → Action W (BlockIdExt × ℕ)
  pub get_config_params : Option BlockIdExt → (mode : ℕ) → List ℕ → Action W t.ConfigParams
  pub run_smc_method_by_id :
      Option BlockIdExt
      → AccountId
      → (method_id : ℤ) → List (VmStackValue t.Cell t.Tuple)
      → Action W (List (VmStackValue t.Cell t.Tuple))

-- Files, tongo's configs and clients, its method ids, and how math/big writes an amount divided by 10 ^ 9.
pub record Tools (t : Tongo) (W : Type 0) : Type 1 where
  pub File : Type 0
  pub Conf : Type 0
  pub read_file : Text → Action W File
  pub parse_config : File → Outcome Conf
  pub new_client : Conf → Action W (LiteapiClient t W)
  pub new_client_with_default_mainnet : Action W (LiteapiClient t W)
  pub method_id_from_name : Text → ℤ
  pub text_in_ton : ℤ → Text

-- How `main` ends without an error: with exit code 1 and its usage, or with a line on the output.
pub data Ending : Type 0 where
  usage : Ending
  printed : Text → Ending

unfoldable pub extract_big_int : {Cell Tuple : Type 0} → VmStackValue Cell Tuple → Option ℤ
extract_big_int (tiny_int n) = some n
extract_big_int (int n) = some n
extract_big_int (cell c) = none
extract_big_int (tuple x) = none
extract_big_int other = none

abbrev pub since_of : Option ValidatorSet → ℕ
since_of none = 0
since_of (some (validators since until list)) = since
since_of (some (validators_ext since until list)) = since
since_of (some unknown_set) = 0

module _ {t : Tongo} {W : Type 0} (tools : Tools t W) where
  unfoldable pub create_client : (config_path : Text) → Action W (LiteapiClient t W)
  create_client config_path =
      if is_empty config_path then tools.new_client_with_default_mainnet else (do
        file ← wrap (λ e. codes "read config: " ++ e) (tools.read_file config_path)
        conf ← wrap (λ e. codes "parse config: " ++ e) (lift (tools.parse_config file))
        tools.new_client conf)

  abbrev pub line_of : (since : ℕ) → (bonuses : ℤ) → Text
  line_of since bonuses =
      codes "election_id="
      ++ (show_ℕ since
          ++ (codes "  bonuses="
              ++ (show_ℤ bonuses
                  ++ (codes " (" ++ (tools.text_in_ton bonuses ++ codes " TON)\n")))))

  abbrev pub print_bonuses : (since : ℕ) → Option ℤ → Outcome Ending
  print_bonuses since (some bonuses) = ok (printed (line_of since bonuses))
  print_bonuses since none = err (codes "bonuses field is not an integer")

  -- The body of the loop for a tuple that can be read: `none` is a `continue`.
  unfoldable pub match_fields :
      (since : ℕ) → List (VmStackValue t.Cell t.Tuple) → Option (Outcome Ending)
  unfolding extract_big_int
  match_fields since (election_id ∷ f1 ∷ f2 ∷ f3 ∷ f4 ∷ f5 ∷ bonuses ∷ rest) =
      if eq_ℤ (as_tiny_int election_id) (pos since)
      then some (print_bonuses since (extract_big_int bonuses))
      else none
  match_fields since _ = none

  abbrev pub or_else : Option (Outcome Ending) → Outcome Ending → Outcome Ending
  or_else (some ending) rest = ending
  or_else none rest = rest

  unfoldable pub find_bonuses : (since : ℕ) → List (VmStackValue t.Cell t.Tuple) → Outcome Ending
  unfolding match_fields
  find_bonuses since [] =
      err (codes "election " ++ (show_ℕ since ++ codes " not found in past_elections"))
  find_bonuses since (el ∷ els) =
      let rest = find_bonuses since els in
      elim (t.tuple_to_slice (as_tuple t el)) [
        | ok fields ↦ or_else (match_fields since fields) rest
        | err e ↦ rest
        | panic ↦ panic
      ]

  abbrev pub first_of : List (VmStackValue t.Cell t.Tuple) → Action W (VmStackValue t.Cell t.Tuple)
  first_of [] = fail (codes "past_elections: empty stack")
  first_of (v ∷ vs) = pure v

  -- From the config of the block on.
  unfoldable pub print_election : LiteapiClient t W → BlockIdExt → (since : ℕ) → Action W Ending
  unfolding find_bonuses
  print_election client ext since =
      if since == 0 then fail (codes "config param 34 is empty") else (do
        stack ←
            wrap (λ e. codes "past_elections: " ++ e)
              (client.run_smc_method_by_id (some ext) elector_addr
                (tools.method_id_from_name (codes "past_elections")) [])
        top ← first_of stack
        elections ←
            wrap (λ e. codes "RecursiveToSlice: " ++ e) (lift (t.list_to_slice (as_tuple t top)))
        lift (find_bonuses since elections))

  -- The block is a uint, of which uint32 takes the last 32 bits.
  unfoldable pub main : (block : ℕ) → (config_path : Text) → Action W Ending
  unfolding create_client print_election
  main block config_path = if block == 0 then pure usage else (do
    client ← wrap (λ e. codes "create client: " ++ e) (create_client config_path)
    found ←
        wrap (λ e. codes "LookupBlock: " ++ e)
          (client.lookup_block (masterchain (block % 2 ^ 32)) 1)
    params ←
        wrap (λ e. codes "GetConfigParams: " ++ e)
          (client.get_config_params (some found.0) 0 (34 ∷ []))
    conf ←
        wrap (λ e. codes "ConvertBlockchainConfig: " ++ e)
          (lift (t.convert_blockchain_config params))
    print_election client found.0 (since_of conf.config_param34))
