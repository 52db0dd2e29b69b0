-- ===== src/Transaction/Types.antt =====
-- A decoded transaction (`vochaintx.Tx` and the messages of the protobuf package). A nil slice or
-- pointer is `none`.
use vocdoni_node.Base.{ℕ, Option, none, List}
use vocdoni_node.Base.Bytes.{Bytes}
use vocdoni_node.TxType.{TxType}
use vocdoni_node.Chain.{Process, ProcessMode, ProcessStatus, EnvelopeType, VoteOptions}

pub record FaucetPackage : Type 0 where
  pub payload : Option Bytes
  pub signature : Option Bytes

pub record SendTokensTx : Type 0 where
  pub nonce : ℕ
  pub from : Bytes
  pub to : Bytes
  pub value : ℕ

pub record CollectFaucetTx : Type 0 where
  pub nonce : ℕ
  pub faucet_package : Option FaucetPackage

pub record SetAccountTx : Type 0 where
  pub tx_type : TxType
  pub nonce : ℕ
  pub info_uri : Bytes
  pub account : Bytes
  pub faucet_package : Option FaucetPackage
  pub delegates : List Bytes
  pub sik : Option Bytes
  pub public_key : Option Bytes
  pub name : Bytes

-- A proof of a census; what is inside its payload is read by the verifiers only.
pub record Proof : Type 0 where
  pub payload : Option Bytes

pub record VoteEnvelope : Type 0 where
  pub process_id : Bytes
  pub proof : Option Proof
  pub vote_package : Bytes
  pub encryption_key_indexes : List ℕ
  pub memo : Option Bytes
  pub metadata_hash : Bytes

pub record AdminTx : Type 0 where
  pub tx_type : TxType
  pub process_id : Option Bytes
  pub key_index : Option ℕ
  pub encryption_public_key : Option Bytes
  pub encryption_private_key : Option Bytes

pub record RegisterSikTx : Type 0 where
  pub sik : Option Bytes
  pub census_proof : Option Proof
  pub election_id : Option Bytes

pub record SetSikTx : Type 0 where
  pub sik : Option Bytes
  pub faucet_package : Option FaucetPackage

-- The process of a `NewProcessTx`: the messages and bytes in it that may be nil stand beside it, and
-- the fields of `process` for them are not read.
pub record ProcessMessage : Type 0 where
  pub process : Process
  pub vote_options : Option VoteOptions
  pub envelope_type : Option EnvelopeType
  pub mode : Option ProcessMode
  pub entity_id : Option Bytes

pub record NewProcessTx : Type 0 where
  pub tx_type : TxType
  pub nonce : ℕ
  pub process : Option ProcessMessage
  pub faucet_package : Option FaucetPackage

-- The texts and numbers are what the getters give, which is empty or zero for nil.
pub record SetProcessTx : Type 0 where
  pub tx_type : TxType
  pub nonce : ℕ
  pub process_id : Bytes
  pub status : ProcessStatus
  pub census_root : Option Bytes
  pub census_uri : Bytes
  pub census_size : ℕ
  pub duration : ℕ
  pub metadata : Bytes
  pub metadata_hash : Bytes
  pub faucet_package : Option FaucetPackage

-- The payload, one constructor for each that `ExtractNonceAndSender` names.
pub data Payload : Type 0 where
  vote : VoteEnvelope → Payload
  admin : AdminTx → Payload
  set_keykeeper set_transaction_costs register_key : Payload
  register_sik : RegisterSikTx → Payload
  set_sik : SetSikTx → Payload
  del_sik : Option FaucetPackage → Payload
  new_process : NewProcessTx → Payload
  set_process : SetProcessTx → Payload
  send_tokens : SendTokensTx → Payload
  set_account : SetAccountTx → Payload
  collect_faucet : CollectFaucetTx → Payload
  unknown_payload : Payload

pub record Tx : Type 0 where
  pub tx_id : Bytes
  pub payload : Option Payload
  pub signed_body : Option Bytes
  pub signature : Option Bytes

-- `Tx.GetFaucetPackage`
unfoldable pub payload_faucet_package : Payload → Option FaucetPackage
payload_faucet_package (Payload.new_process tx) = tx.faucet_package
payload_faucet_package (Payload.set_process tx) = tx.faucet_package
payload_faucet_package (Payload.set_account tx) = tx.faucet_package
payload_faucet_package (Payload.collect_faucet tx) = tx.faucet_package
payload_faucet_package (Payload.set_sik tx) = tx.faucet_package
payload_faucet_package (Payload.del_sik pkg) = pkg
payload_faucet_package _ = none
