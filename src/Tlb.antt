-- ===== src/Tlb.antt =====
-- What the service uses of the tongo library and of the contracts' data. The values that it only
-- passes on are of opaque types; tongo's functions on them are fields of `Tongo`. The layouts that
-- service/pool.go declares for the decoder stand here too.
use ton_validators_rewards_a.Base.{ℕ, Bool, ◌&&◌, Option, List, ◌==◌}
use ton_validators_rewards_a.Base.Int.{ℤ, negsuc, eq_ℤ}
use ton_validators_rewards_a.Base.Text.{Text}
use ton_validators_rewards_a.Outcome.{Outcome}
use ton_validators_rewards_a.Math.{Floats}

-- ton.AccountID: the address is the number of its 32 bytes.
pub record AccountId : Type 0 where
  pub workchain : ℤ
  pub address : ℕ

abbrev pub account_eq : AccountId → AccountId → Bool
account_eq a b = eq_ℤ a.workchain b.workchain && (a.address == b.address)

-- service/blockchain.go: the elector contract, -1:33…33.
abbrev pub elector_addr : AccountId
elector_addr = record {
  workchain = negsuc 0;
  address = 0x3333333333333333333333333333333333333333333333333333333333333333;
}

-- ton.BlockIDExt.
pub record BlockIdExt : Type 0 where
  pub workchain : ℤ
  pub shard : ℕ
  pub seqno : ℕ
  pub root_hash : ℕ
  pub file_hash : ℕ

-- tlb.VmStackValue: the variants that are read, and any other.
pub data VmStackValue (Cell Tuple : Type 0) : Type 0 where
  tiny_int : ℤ → VmStackValue Cell Tuple
  int : ℤ → VmStackValue Cell Tuple
  cell : Cell → VmStackValue Cell Tuple
  tuple : Tuple → VmStackValue Cell Tuple
  other : VmStackValue Cell Tuple

-- tlb.Account: `no_account` is any variant but `Account`, and `inactive` any state but active.
pub data AccountStatus (Cell : Type 0) : Type 0 where
  inactive : AccountStatus Cell
  active : (code contract_data : Option Cell) → AccountStatus Cell

pub data Account (Cell : Type 0) : Type 0 where
  no_account : Account Cell
  account : (grams : ℕ) (status : AccountStatus Cell) → Account Cell

-- tlb.ValidatorDescr, by its public key.
pub record ValidatorDescr : Type 0 where
  pub pub_key : ℕ

-- The validator set of config param 34, in its two variants, and any other.
pub data ValidatorSet : Type 0 where
  validators : (utime_since utime_until : ℕ) → List ValidatorDescr → ValidatorSet
  validators_ext : (utime_since utime_until : ℕ) → List ValidatorDescr → ValidatorSet
  unknown_set : ValidatorSet

pub record BlockchainConfig : Type 0 where
  pub config_param34 : Option ValidatorSet

-- The layouts of service/pool.go. An absent dictionary has no items.
pub record PackedNominatorData : Type 0 where
  pub amount : ℕ
  pub pending_deposit_amount : ℕ

pub record GetPoolDataConfigTlb : Type 0 where
  pub validator_address : ℕ
  pub validator_reward_share : ℕ
  pub max_nominators_count : ℕ
  pub min_validator_stake : ℕ
  pub min_nominator_stake : ℕ

pub record GetPoolDataTlb : Type 0 where
  pub state : ℤ
  pub nominators_count : ℕ
  pub stake_amount_sent : ℕ
  pub validator_amount : ℕ
  pub config : GetPoolDataConfigTlb
  pub nominators : List (ℕ × PackedNominatorData)
  pub withdraw_requests : List ℕ
  pub stake_at : ℕ
  pub saved_validator_set_hash : ℕ
  pub validator_set_changes_count : ℕ
  pub validator_set_change_time : ℕ
  pub stake_held_for : ℕ

pub record FrozenMember : Type 0 where
  pub src_addr : ℕ
  pub weight : ℕ
  pub true_stake : ℕ

-- The two addresses of a single nominator pool.
pub record SingleNominatorV1011Data (MsgAddress : Type 0) : Type 0 where
  pub owner_address : MsgAddress
  pub validator_address : MsgAddress

pub record GetRolesResult (MsgAddress : Type 0) : Type 0 where
  pub owner_address : MsgAddress
  pub validator_address : MsgAddress

pub record Tongo : Type 1 where
  pub Cell : Type 0
  pub Tuple : Type 0
  pub MsgAddress : Type 0
  pub ConfigParams : Type 0
  pub Float : Type 0
  pub floats : Floats Float
  -- boc.Cell.Hash256, and the decoder on the layouts above.
  pub hash256 : Cell → Outcome ℕ
  pub unmarshal_pool : Cell → Outcome GetPoolDataTlb
  pub unmarshal_roles : Cell → Outcome (SingleNominatorV1011Data MsgAddress)
  pub unmarshal_members : Cell → Outcome (List (ℕ × FrozenMember))
  -- tlb.MsgAddress: its zero value, its `SumType`, and the account that it names. The code treats an
  -- error and a nil account alike: `none`.
  pub zero_address : MsgAddress
  pub sum_type : MsgAddress → Text
  pub account_id_from_tlb : MsgAddress → Option AccountId
  pub to_human : AccountId → (bounce testnet : Bool) → Text
  pub to_raw : AccountId → Text
  -- RecursiveToSlice on a list of the stack, and on a tuple of it; `zero_tuple` is an empty value.
  pub zero_tuple : Tuple
  pub zero_cell : Cell
  pub list_to_slice : Tuple → Outcome (List (VmStackValue Cell Tuple))
  pub tuple_to_slice : Tuple → Outcome (List (VmStackValue Cell Tuple))
  -- ton.ConvertBlockchainConfig with `true`.
  pub convert_blockchain_config : ConfigParams → Outcome BlockchainConfig
