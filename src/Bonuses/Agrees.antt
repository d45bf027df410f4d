-- ===== src/Bonuses/Agrees.antt =====
-- The command and the service agree on the bonuses of an election.
use ton_validators_rewards_a.Base.{
  ℕ, ◌≡◌, ◌<◌, ◌%◌, ◌^◌, refl, arith, ◌++◌, false, Option, none, some, List, [], ◌∷◌, ◌==◌,
  Bool-cases, inl, inr, if◌then◌else◌,
}
use ton_validators_rewards_a.Base.Int.{pos, eq_ℤ}
use ton_validators_rewards_a.Base.Text.{Text, codes, show_ℕ}
use ton_validators_rewards_a.Outcome.{Outcome, ok, err, panic, and_then, ok_injective}
use ton_validators_rewards_a.Tlb.{
  Tongo, elector_addr, BlockIdExt, VmStackValue, tiny_int, int, cell, tuple, other, ValidatorSet,
  validators, validators_ext, unknown_set, BlockchainConfig,
}
use ton_validators_rewards_a.Chain.{get_round_info, round_of_set}
use ton_validators_rewards_a.Loaders.{masterchain}
use ton_validators_rewards_a.Elections.{
  RawPastElection, keep, as_tuple, parse_fields, parse_elections, extract_big_int,
}
use ton_validators_rewards_a.Rounds.Report.{find_election}
use ton_validators_rewards_a.Bonuses
use ton_validators_rewards_a.Bonuses.{
  Tools, Ending, print_bonuses, match_fields, or_else, find_bonuses, since_of, LiteapiClient,
  create_client, print_election, main,
}

extract_same :
    {Cell Tuple : Type 0} (v : VmStackValue Cell Tuple)
    → Bonuses.extract_big_int v ≡ extract_big_int v
unfolding Bonuses.extract_big_int extract_big_int
extract_same (tiny_int n) = refl
extract_same (int n) = refl
extract_same (cell c) = refl
extract_same (tuple x) = refl
extract_same other = refl

module _ {t : Tongo} {W : Type 0} (tools : Tools t W) (since : ℕ) where
  abbrev not_found : Outcome Ending
  not_found = err (codes "election " ++ (show_ℕ since ++ codes " not found in past_elections"))

  -- What the command makes of the election that the service finds.
  abbrev pub print_found : Option (RawPastElection t) → Outcome Ending
  print_found none = not_found
  print_found (some e) = print_bonuses tools since e.bonuses

  abbrev match_parsed : Option (RawPastElection t) → Option (Outcome Ending)
  match_parsed none = none
  match_parsed (some e) =
      if eq_ℤ e.elect_at (pos since) then some (print_bonuses tools since e.bonuses) else none

  match_fields_lem :
      (fields : List (VmStackValue t.Cell t.Tuple))
      → match_fields tools since fields ≡ match_parsed (parse_fields t fields)
  unfolding match_fields parse_fields
  match_fields_lem [] = refl
  match_fields_lem (a ∷ []) = refl
  match_fields_lem (a ∷ b ∷ []) = refl
  match_fields_lem (a ∷ b ∷ c ∷ []) = refl
  match_fields_lem (a ∷ b ∷ c ∷ d ∷ []) = refl
  match_fields_lem (a ∷ b ∷ c ∷ d ∷ e ∷ []) = refl
  match_fields_lem (a ∷ b ∷ c ∷ d ∷ e ∷ f ∷ []) = refl
  match_fields_lem (a ∷ b ∷ c ∷ d ∷ e ∷ f ∷ g ∷ rest) = rw (extract_same g) refl

  or_else_parsed :
      (pe : Option (RawPastElection t)) (parsed : List (RawPastElection t))
      → or_else tools (match_parsed pe) (print_found (find_election parsed (pos since)))
        ≡ print_found (find_election (keep pe parsed) (pos since))
  unfolding find_election
  or_else_parsed none parsed = refl
  or_else_parsed (some e) parsed = elim (Bool-cases (eq_ℤ e.elect_at (pos since))) [
    | inl same ↦ rw (same) refl
    | inr differs ↦ rw (differs) refl
  ]

  abbrev Finds : List (VmStackValue t.Cell t.Tuple) → Type 0
  Finds els =
      (parsed : List (RawPastElection t))
      → parse_elections t els ≡ ok parsed
      → find_bonuses tools since els ≡ print_found (find_election parsed (pos since))

  after_fields :
      (pe : Option (RawPastElection t)) (els : List (VmStackValue t.Cell t.Tuple))
      (r : Outcome (List (RawPastElection t))) {parsed : List (RawPastElection t)}
      → Finds els
      → parse_elections t els ≡ r
      → and_then r (λ ps. ok (keep pe ps)) ≡ ok parsed
      → or_else tools (match_parsed pe) (find_bonuses tools since els)
        ≡ print_found (find_election parsed (pos since))
  after_fields pe els (ok ps) found e h = rw (found ps e, ← ok_injective h) (or_else_parsed pe ps)
  after_fields pe els (err m) found e h = cc
  after_fields pe els panic found e h = cc

  after_tuple :
      (r : Outcome (List (VmStackValue t.Cell t.Tuple))) (els : List (VmStackValue t.Cell t.Tuple))
      {parsed : List (RawPastElection t)}
      → Finds els
      → elim r [
        | ok fields ↦ and_then (parse_elections t els) (λ ps. ok (keep (parse_fields t fields) ps))
        | err e ↦ parse_elections t els
        | panic ↦ panic
      ]
        ≡ ok parsed
      → elim r [
        | ok fields ↦ or_else tools (match_fields tools since fields) (find_bonuses tools since els)
        | err e ↦ find_bonuses tools since els
        | panic ↦ panic
      ]
        ≡ print_found (find_election parsed (pos since))
  after_tuple (ok fields) els found h =
      rw (match_fields_lem fields)
        (after_fields (parse_fields t fields) els (parse_elections t els) found refl h)
  after_tuple (err e) els {parsed} found h = found parsed h
  after_tuple panic els found h = cc

  pub find_bonuses-parse_elections :
      (els : List (VmStackValue t.Cell t.Tuple)) (parsed : List (RawPastElection t))
      → parse_elections t els ≡ ok parsed
      → find_bonuses tools since els ≡ print_found (find_election parsed (pos since))
  unfolding find_bonuses parse_elections find_election
  find_bonuses-parse_elections [] parsed h = rw (← ok_injective h) refl
  find_bonuses-parse_elections (el ∷ els) parsed h =
      after_tuple (t.tuple_to_slice (as_tuple t el)) els (find_bonuses-parse_elections els) h

since_of-round :
    (conf : BlockchainConfig) → since_of conf.config_param34 ≡ (get_round_info (some conf)).0
unfolding get_round_info
since_of-round conf = by_set conf.config_param34
  where
    by_set : (set : Option ValidatorSet) → since_of set ≡ (round_of_set set).0
    by_set none = refl
    by_set (some (validators since until list)) = refl
    by_set (some (validators_ext since until list)) = refl
    by_set (some unknown_set) = refl

module _ {t : Tongo} {W : Type 0} (tools : Tools t W) (client : LiteapiClient t W)
    (ext : BlockIdExt) where
  print_election-agrees :
      (since : ℕ) (w : W) {stack_w : W} {top : VmStackValue t.Cell t.Tuple}
      {rest els : List (VmStackValue t.Cell t.Tuple)} {parsed : List (RawPastElection t)}
      → (since == 0) ≡ false
      → client.run_smc_method_by_id
          (some ext)
          elector_addr
          (tools.method_id_from_name (codes "past_elections"))
          []
          w
        ≡ (ok (top ∷ rest), stack_w)
      → t.list_to_slice (as_tuple t top) ≡ ok els
      → parse_elections t els ≡ ok parsed
      → print_election tools client ext since w
        ≡ (print_found tools since (find_election parsed (pos since)), stack_w)
  unfolding print_election
  print_election-agrees since w {els = els} {parsed = parsed} set stack list read =
      rw (set, stack, list, find_bonuses-parse_elections tools since els parsed read) refl

  -- If the requests of cmd/bonuses succeed, it prints the bonuses that the service reads: those of
  -- the first election, among the tuples as fetchRawPastElections parses them, that has the id of
  -- the block's round; or it fails if there is none or its bonuses are no integer. The block is the
  -- last 32 bits of the flag's value, which is positive; the round's start, as getRoundInfo reads
  -- it, is not 0, and the parser reaches the end of the tuples.
  pub main-agrees :
      (block : ℕ) (config_path : Text) (w : W) {w1 w2 w3 w4 : W} {time : ℕ}
      {params : t.ConfigParams} {conf : BlockchainConfig} {top : VmStackValue t.Cell t.Tuple}
      {rest els : List (VmStackValue t.Cell t.Tuple)} {parsed : List (RawPastElection t)}
      → 0 < block
      → create_client tools config_path w ≡ (ok client, w1)
      → client.lookup_block (masterchain (block % 2 ^ 32)) 1 w1 ≡ (ok (ext, time), w2)
      → client.get_config_params (some ext) 0 (34 ∷ []) w2 ≡ (ok params, w3)
      → t.convert_blockchain_config params ≡ ok conf
      → 0 < (get_round_info (some conf)).0
      → client.run_smc_method_by_id
          (some ext)
          elector_addr
          (tools.method_id_from_name (codes "past_elections"))
          []
          w3
        ≡ (ok (top ∷ rest), w4)
      → t.list_to_slice (as_tuple t top) ≡ ok els
      → parse_elections t els ≡ ok parsed
      → let since = (get_round_info (some conf)).0 in
        main tools block config_path w
        ≡ (print_found tools since (find_election parsed (pos since)), w4)
  unfolding main
  main-agrees block config_path w {conf = conf} some_block made found params converted some_round
        stack list read =
      let no_usage : (block == 0) ≡ false = ground arith in
      let since = (get_round_info (some conf)).0 in
      let set : (since == 0) ≡ false = ground arith in
      rw (no_usage, made, found, params, converted, since_of-round conf)
        (print_election-agrees since _ set stack list read)
