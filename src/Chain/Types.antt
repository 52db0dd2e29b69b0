-- ===== src/Chain/Types.antt =====
-- The data of the state trees: accounts, processes, votes, and the actions of the internal state
-- transition controller. Machine integers are naturals, byte strings are lists of bytes, and a
-- pointer or an optional protobuf field is an `Option`.
use vocdoni_node.Base.{ℕ, Bool, Option, List}
use vocdoni_node.Base.Bytes.{Bytes}
use vocdoni_node.Base.Dict.{Dict}

-- A 20-byte `common.Address`
abbrev pub Address : Type 0
Address = Bytes

pub record Account : Type 0 where
  pub nonce : ℕ
  pub info_uri : Bytes
  pub balance : ℕ
  pub delegate_addrs : List Bytes
  pub process_index : ℕ

pub data ProcessStatus : Type 0 where
  process_unknown ready ended canceled paused results : ProcessStatus

pub record ProcessMode : Type 0 where
  pub interruptible : Bool
  pub dynamic_census : Bool

pub record EnvelopeType : Type 0 where
  pub serial : Bool
  pub anonymous : Bool
  pub encrypted_votes : Bool
  pub unique_values : Bool
  pub cost_from_weight : Bool

pub record VoteOptions : Type 0 where
  pub max_count : ℕ
  pub max_value : ℕ
  pub max_vote_overwrites : ℕ
  pub max_total_cost : ℕ
  pub cost_exponent : ℕ

-- The census origins that the code names, and all the others by their number.
pub data CensusOrigin : Type 0 where
  off_chain_tree off_chain_tree_weighted off_chain_ca off_chain_ca_v2 : CensusOrigin
  other_origin : ℕ → CensusOrigin

pub record Process : Type 0 where
  pub process_id : Bytes
  pub entity_id : Bytes
  pub start_block : ℕ
  pub block_count : ℕ
  pub start_time : ℕ
  pub duration : ℕ
  pub census_root : Bytes
  pub census_uri : Option Bytes
  pub census_origin : CensusOrigin
  pub mode : ProcessMode
  pub envelope_type : EnvelopeType
  pub vote_options : VoteOptions
  pub status : ProcessStatus
  pub max_census_size : ℕ
  pub metadata : Option Bytes
  pub metadata_hash : Bytes
  pub key_index : Option ℕ
  pub process_results : Option (List (List ℕ))
  pub temp_siks : Bool
  pub encryption_private_keys : List Bytes
  pub encryption_public_keys : List Bytes

-- `models.StateDBVote`
pub record StateVote : Type 0 where
  pub vote_hash : Bytes
  pub nullifier : Bytes
  pub weight : Bytes
  pub vote_package : Bytes
  pub encryption_key_indexes : List ℕ
  pub overwrite_count : Option ℕ
  pub memo : Option Bytes

-- `Vote`, the vote of a transaction
pub record Vote : Type 0 where
  pub process_id : Bytes
  pub nullifier : Bytes
  pub height : ℕ
  pub vote_package : Bytes
  pub encryption_key_indexes : List ℕ
  pub weight : Option ℕ
  pub voter_id : Bytes
  pub overwrites : ℕ
  pub memo : Option Bytes

-- `models.Validator`
pub record Validator : Type 0 where
  pub address : Address
  pub pub_key : Bytes
  pub name : Bytes
  pub power : ℕ
  pub key_index : ℕ
  pub validator_address : Bytes
  pub height : ℕ
  pub votes : ℕ
  pub proposals : ℕ
  pub score : ℕ

pub data ActionTypeId : Type 0 where
  commit_results end_process update_validator_score : ActionTypeId
  unknown_action : ℕ → ActionTypeId

pub record Action : Type 0 where
  pub id : Option Bytes
  pub type_id : ActionTypeId
  pub height : ℕ
  pub time_stamp : ℕ
  pub election_id : Bytes
  pub attempts : ℕ
  pub validator_votes : List Bytes
  pub validator_proposer : Bytes

-- The uncommitted view of the state: the trees TreeAccounts, TreeExtra (the transaction costs, the
-- greatest census, and two markers for each validator), TreeFaucet, TreeValidators, TreeProcess with
-- its child trees of votes, TreeSIK, and the no-state key-value space by prefix; and the list of
-- valid roots that is kept in memory.
pub record State : Type 0 where
  pub accounts : Dict Account
  pub tx_costs : Dict ℕ
  pub faucet_nonces : Dict (Unit {0})
  pub processes : Dict Process
  pub votes : Dict (Dict StateVote)
  pub vote_count : Option ℕ
  pub start_blocks : Dict ℕ
  pub actions : Dict Action
  pub siks : Dict Bytes
  pub register_sik_counters : Dict ℕ
  pub assigned_siks : Dict (List Address)
  pub sik_roots : Dict Bytes
  pub valid_sik_roots : List Bytes
  pub validators : Dict Validator
  pub inactive_since : Dict ℕ
  pub score_windows : Dict (ℕ × ℕ)
  pub max_process_size : Option ℕ
  pub chain_id : Bytes
  pub current_height : ℕ
  pub timestamp : Option ℕ
