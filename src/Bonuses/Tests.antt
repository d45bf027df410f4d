-- ===== src/Bonuses/Tests.antt =====
-- The command on the sample chain.
use ton_validators_rewards_a.Base.{ℕ, ◌≡◌, refl, ◌^◌, ◌+◌, none, some, [], ◌∷◌, arith}
use ton_validators_rewards_a.Base.Int.{pos}
use ton_validators_rewards_a.Base.Text.{codes, show_ℤ, show_ℕ}
use ton_validators_rewards_a.Outcome.{ok, err}
use ton_validators_rewards_a.Tlb.{tuple}
use ton_validators_rewards_a.Elections.{parse_elections, parse_fields, extract_big_int}
use ton_validators_rewards_a.Chain.{get_round_info}
use ton_validators_rewards_a.Rounds.Report.{find_election}
use ton_validators_rewards_a.Bonuses
use ton_validators_rewards_a.Bonuses.{
  LiteapiClient, Tools, Ending, usage, printed, create_client, main, print_election, find_bonuses,
  match_fields,
}
use ton_validators_rewards_a.Bonuses.Agrees.{main-agrees}
use ton_validators_rewards_a.Sample.{tongo, block}

-- Each request is counted; the elections are those of the sample chain.
abbrev lite : LiteapiClient tongo ℕ
lite = record {
  lookup_block = λ id mode w. (ok (block id.seqno, id.seqno), w + 1);
  get_config_params = λ ext mode params w. elim ext [
    | none ↦ (err (codes "no block"), w)
    | some b ↦ (ok b.seqno, w + 1)
  ];
  run_smc_method_by_id = λ ext addr method args w. (ok (tuple 0 ∷ []), w + 1);
}

abbrev tools : Tools tongo ℕ
tools = record {
  File = ℕ;
  Conf = ℕ;
  read_file = λ path w. (err (codes "no such file"), w);
  parse_config = λ file. ok file;
  new_client = λ conf w. (ok lite, w + 1);
  new_client_with_default_mainnet = λ w. (ok lite, w + 1);
  method_id_from_name = λ name. pos 0;
  text_in_ton = show_ℤ;
}

no_block : main tools 0 [] 0 ≡ (ok usage, 0)
unfolding main
no_block = refl

no_file :
    main tools 5 (codes "a.json") 0 ≡ (err (codes "create client: read config: no such file"), 0)
unfolding main create_client
no_file = refl

-- The seqno is taken modulo 2 ^ 32: this is block 50.
past_blocks :
    main tools (2 ^ 32 + 50) [] 0
    ≡ (ok (printed (codes "election_id=1001  bonuses=33 (33 TON)\n")), 4)
unfolding main create_client print_election find_bonuses match_fields Bonuses.extract_big_int show_ℤ
    show_ℕ
past_blocks = refl

main-agrees_example :
    main tools (2 ^ 32 + 50) [] 0
    ≡ (ok (printed (codes "election_id=1001  bonuses=33 (33 TON)\n")), 4)
unfolding create_client get_round_info find_election parse_elections parse_fields extract_big_int
    show_ℤ show_ℕ
main-agrees_example =
    main-agrees tools lite (block 50) (2 ^ 32 + 50) [] 0 (omega arith) refl refl refl refl
      (omega arith) refl refl refl
