-- ===== src/Transaction/AccountTx/SikTx.antt =====
-- The transactions on secret identity keys: their checks in vochain/transaction/account_tx.go, and
-- their delivery in `CheckTx` (vochain/transaction/transaction.go).
use vocdoni_node.Base.{ℕ, Bool, true, false, not, Option, none, some, leb, []}
use vocdoni_node.Base.Bytes.{Bytes}
use vocdoni_node.Base.Dict.{lookup}
use vocdoni_node.Chain.{
  Address, CensusOrigin, off_chain_tree, off_chain_tree_weighted, Process, ready, Exec, ⊤, pure,
  gets, lift, or_raise, raise_if, when, ◌>>=◌, ◌>>◌, nil_tx, invalid_tx, sik_get, sik_deleted,
  no_sik, sik_locked, no_proof, empty_process_id, has_sik, not_ready, unsupported_origin,
  not_anonymous, census_full, invalid_proof, panicked,
}
use vocdoni_node.Crypto.{Crypto}
use vocdoni_node.TxType.{TxType}
use vocdoni_node.Balance.{tx_base_cost}
use vocdoni_node.Process.{get_process, same, max_end_block}
use vocdoni_node.Sik.{
  valid, decode_invalidated_height, set_address_sik, invalidate_sik, count_register_sik,
  increase_register_sik_counter, assign_sik_to_election,
}
use vocdoni_node.Votes.{new_voter_id}
use vocdoni_node.Transaction.Types.{
  FaucetPackage, Payload, Proof, Tx, VoteEnvelope, SetSikTx, RegisterSikTx,
}
use vocdoni_node.Transaction.Network.{Network}
use vocdoni_node.Transaction.Proofs.{verify_proof}
use vocdoni_node.Transaction.Faucet.{check_account_can_pay_cost}
use vocdoni_node.Transaction.Nonce.{check_account_nonce}
use vocdoni_node.Transaction.Tokens.{is_nil_tx}
use vocdoni_node.Transaction.AccountTx.{sender_of}
use vocdoni_node.Transaction.AccountTx.Delivery.{pay_base}

unfoldable pub get_del_sik : Option Payload → Option (Option FaucetPackage)
get_del_sik (some (Payload.del_sik pkg)) = some pkg
get_del_sik _ = none

unfoldable pub get_set_sik : Option Payload → Option SetSikTx
get_set_sik (some (Payload.set_sik tx)) = some tx
get_set_sik _ = none

unfoldable pub get_register_sik : Option Payload → Option RegisterSikTx
get_register_sik (some (Payload.register_sik tx)) = some tx
get_register_sik _ = none

-- `SIKFromAddress`
unfoldable pub sik_from_address : Address → Exec Bytes
sik_from_address address = do found ← gets (λ s. lookup address s.siks); or_raise found sik_get

-- `DelSIKTxCheck`
unfoldable pub del_sik_tx_check : Crypto → Tx → Exec Address
unfolding is_nil_tx get_del_sik sender_of sik_from_address
del_sik_tx_check c vtx = do
  raise_if (is_nil_tx vtx) nil_tx
  or_raise (get_del_sik vtx.payload) invalid_tx
  sender ← sender_of c vtx
  current ← sik_from_address sender
  raise_if (not (valid current)) sik_deleted
  pure sender

-- A key that the address has must have been invalidated before the last block of every election.
unfoldable pub check_sik_unlocked : Option Bytes → Exec ⊤
check_sik_unlocked none = pure tt
check_sik_unlocked (some current) = do
  last ← gets (λ s. max_end_block s.current_height s)
  height ← lift (decode_invalidated_height current)
  raise_if (leb last height) sik_locked

-- `SetSIKTxCheck`
unfoldable pub set_sik_tx_check : Crypto → Tx → Exec (Address × Bytes)
unfolding is_nil_tx get_set_sik check_sik_unlocked
set_sik_tx_check c vtx = do
  raise_if (is_nil_tx vtx) nil_tx
  tx ← or_raise (get_set_sik vtx.payload) invalid_tx
  r ← check_account_can_pay_cost c TxType.set_account_sik vtx (Payload.set_sik tx) 0
  sik ← or_raise tx.sik no_sik
  current ← gets (λ s. lookup r.1 s.siks)
  check_sik_unlocked current
  pure (r.1, sik)

unfoldable pub is_tree_origin : CensusOrigin → Bool
is_tree_origin off_chain_tree = true
is_tree_origin off_chain_tree_weighted = true
is_tree_origin _ = false

abbrev has_key : Option Bytes → Bool
has_key none = false
has_key (some _) = true

-- The election of a registration takes one more key.
unfoldable pub check_registrable : Bytes → Process → Exec ⊤
check_registrable pid p = do
  raise_if (not (same p.status ready)) not_ready
  raise_if (not (is_tree_origin p.census_origin)) unsupported_origin
  raise_if (not p.envelope_type.anonymous) not_anonymous
  count ← count_register_sik pid
  raise_if (leb p.max_census_size count) census_full

-- The process as a signature proof is verified against it.
abbrev pub signed_process : Process → Process
signed_process p = record p { envelope_type = record p.envelope_type { anonymous = false } }

abbrev pub voter_id_type_zksnark : ℕ
voter_id_type_zksnark = 2

abbrev proof_envelope : Bytes → Proof → VoteEnvelope
proof_envelope pid proof = record {
  process_id = pid;
  proof = some proof;
  vote_package = [];
  encryption_key_indexes = [];
  memo = none;
  metadata_hash = [];
}

-- What a registration gives: the address, its key, the election, and whether the key is temporary.
pub record Registration : Type 0 where
  pub address : Address
  pub sik : Bytes
  pub election_id : Bytes
  pub temporary : Bool

-- `RegisterSIKTxCheck`
unfoldable pub register_sik_tx_check : Crypto → Network → Tx → Exec Registration
unfolding is_nil_tx get_register_sik sender_of get_process
register_sik_tx_check c net vtx = do
  raise_if (is_nil_tx vtx) nil_tx
  tx ← or_raise (get_register_sik vtx.payload) invalid_tx
  sik ← or_raise tx.sik no_sik
  proof ← or_raise tx.census_proof no_proof
  pid ← or_raise tx.election_id empty_process_id
  sender ← sender_of c vtx
  current ← gets (λ s. lookup sender s.siks)
  raise_if (has_key current) has_sik
  p ← get_process pid
  check_registrable pid p
  proved ← lift (
      verify_proof net (signed_process p) (proof_envelope pid proof)
        (new_voter_id voter_id_type_zksnark sender))
  raise_if (not proved.0) invalid_proof
  pure (record { address = sender; sik = sik; election_id = pid; temporary = p.temp_siks })

-- `CheckTx` of a SetSIK transaction.
unfoldable pub check_set_sik : Crypto → Tx → Bool → Exec ⊤
unfolding get_set_sik
check_set_sik c vtx for_commit = do
  when for_commit (check_account_nonce c vtx)
  r ← set_sik_tx_check c vtx
  tx ← or_raise (get_set_sik vtx.payload) invalid_tx
  when for_commit
      (do pay_base c tx.faucet_package r.0 TxType.set_account_sik; set_address_sik r.0 r.1)

-- `CheckTx` of a DelSIK transaction: the delivery reads the faucet package of a SetSIK transaction,
-- which this one is not, through a nil pointer.
unfoldable pub check_del_sik : Crypto → Tx → Bool → Exec ⊤
unfolding tx_base_cost
check_del_sik c vtx for_commit = do
  when for_commit (check_account_nonce c vtx)
  sender ← del_sik_tx_check c vtx
  when for_commit (do
    tx_base_cost TxType.del_account_sik
    tx ← or_raise (get_set_sik vtx.payload) panicked
    pay_base c tx.faucet_package sender TxType.del_account_sik
    invalidate_sik sender)

unfoldable pub deliver_register_sik : Registration → Exec ⊤
deliver_register_sik r = do
  set_address_sik r.address r.sik
  increase_register_sik_counter r.election_id
  when r.temporary (assign_sik_to_election r.election_id r.address)

-- `CheckTx` of a RegisterSIK transaction.
unfoldable pub check_register_sik : Crypto → Network → Tx → Bool → Exec ⊤
check_register_sik c net vtx for_commit = do
  when for_commit (check_account_nonce c vtx)
  r ← register_sik_tx_check c net vtx
  when for_commit (deliver_register_sik r)
