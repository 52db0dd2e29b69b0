-- ===== src/Transaction/AdminTx.antt =====
-- vochain/transaction/admin_tx.go, with `checkAddProcessKeys` and `checkRevealProcessKeys` of
-- vochain/transaction/election_tx.go, and the delivery of Admin transactions in `CheckTx`
-- (vochain/transaction/transaction.go).
pub mod Keykeeper
use vocdoni_node.Base.{
  ℕ, Bool, true, false, not, ◌||◌, ◌&&◌, Option, none, some, List, ltb, ◌==◌, if◌then◌else◌,
}
use vocdoni_node.Base.Lists.{length, get_elem?}
use vocdoni_node.Base.Bytes.{Bytes, bytes_equal}
use vocdoni_node.Chain.{
  Process, canceled, ended, results, Exec, ⊤, pure, raise, gets, or_raise, raise_if, when, ◌>>=◌,
  ◌>>◌, nil_tx, missing_fields, invalid_tx_type, invalid_tx, empty_process_id, no_keys_required,
  not_validator, key_management_disabled, no_key_index, wrong_key_index, invalid_status,
  keys_present, keys_missing, keys_revealed, no_keys, still_open, key_mismatch, panicked,
}
use vocdoni_node.Crypto.{Crypto}
use vocdoni_node.TxType
use vocdoni_node.TxType.{TxType}
use vocdoni_node.Process.{get_process, get_timestamp, end_time, same}
use vocdoni_node.Process.Keys.{add_process_keys, reveal_process_keys}
use vocdoni_node.ProcessId.{hex}
use vocdoni_node.Results.Compute.{key_keeper_max_key_index}
use vocdoni_node.Validators.{find_validator}
use vocdoni_node.Transaction.Types.{Payload, Tx, AdminTx}
use vocdoni_node.Transaction.Network.{Network}
use vocdoni_node.Transaction.Nonce.{check_account_nonce}
use vocdoni_node.Transaction.Tokens.{is_nil_tx}
use vocdoni_node.Transaction.AccountTx.{sender_of}

unfoldable pub get_admin : Option Payload → Option AdminTx
get_admin (some (Payload.admin tx)) = some tx
get_admin _ = none

-- `len(keys[i])`, which panics out of range.
unfoldable pub key_length : List Bytes → ℕ → Exec ℕ
key_length keys i = do key ← or_raise (get_elem? keys i) panicked; pure (length key)

-- An index below 1 or above the greatest one.
unfoldable pub index_out : ℕ → Bool
index_out i = ltb i 1 || ltb key_keeper_max_key_index i

-- `checkAddProcessKeys`; its transaction has an index by then.
unfoldable pub check_add_process_keys : AdminTx → ℕ → Process → Exec ⊤
unfolding key_length index_out
check_add_process_keys tx i p = do
  or_raise tx.encryption_public_key no_keys
  raise_if (index_out i) no_keys
  n ← key_length p.encryption_public_keys i
  raise_if (ltb 0 n) keys_present

-- `checkRevealProcessKeys`: the private key belongs to the public one that is stored, as texts.
unfoldable pub check_reveal_process_keys : Network → AdminTx → ℕ → Process → Exec ⊤
unfolding index_out
check_reveal_process_keys net tx i p = do
  private_key ← or_raise tx.encryption_private_key no_keys
  raise_if (index_out i) no_keys
  stored ← or_raise (get_elem? p.encryption_public_keys i) panicked
  raise_if (ltb (length stored) 1) keys_missing
  public_key ← or_raise (net.public_of_private (hex private_key)) key_mismatch
  raise_if (not (bytes_equal (hex public_key) stored)) key_mismatch

-- The inner switch of `AdminTxCheck`.
unfoldable pub check_keys : Network → AdminTx → ℕ → Process → ℕ → TxType → Exec ⊤
unfolding key_length
check_keys net tx i p now TxType.add_process_keys = do
  raise_if (same p.status canceled || (same p.status ended || same p.status results)) invalid_status
  n ← key_length p.encryption_public_keys i
  raise_if (ltb 0 n) keys_present
  check_add_process_keys tx i p
check_keys net tx i p now TxType.reveal_process_keys = do
  raise_if (ltb now (end_time p) && not (same p.status ended)) still_open
  n ← key_length p.encryption_private_keys i
  raise_if (ltb 0 n) keys_revealed
  check_reveal_process_keys net tx i p
check_keys net tx i p now _ = pure tt

unfoldable pub is_key_type : TxType → Bool
is_key_type TxType.add_process_keys = true
is_key_type TxType.reveal_process_keys = true
is_key_type _ = false

-- `AdminTxCheck`
unfoldable pub admin_tx_check : Crypto → Network → Tx → Exec Bytes
unfolding is_nil_tx get_admin sender_of get_process get_timestamp
admin_tx_check c net vtx = do
  raise_if (is_nil_tx vtx) nil_tx
  tx ← or_raise (get_admin vtx.payload) missing_fields
  sender ← sender_of c vtx
  raise_if (not (is_key_type tx.tx_type)) invalid_tx_type
  pid ← or_raise tx.process_id empty_process_id
  p ← get_process pid
  raise_if (not p.envelope_type.encrypted_votes && not p.envelope_type.anonymous) no_keys_required
  found ← gets (find_validator sender)
  v ← or_raise found not_validator
  raise_if (v.key_index == 0) key_management_disabled
  i ← or_raise tx.key_index no_key_index
  raise_if (not (i == v.key_index)) wrong_key_index
  now ← get_timestamp
  check_keys net tx i p now tx.tx_type
  pure sender

unfoldable pub deliver_admin : AdminTx → TxType → Exec ⊤
deliver_admin tx TxType.add_process_keys =
    add_process_keys tx.process_id tx.key_index tx.encryption_public_key
deliver_admin tx TxType.reveal_process_keys =
    reveal_process_keys tx.process_id tx.key_index tx.encryption_private_key
deliver_admin tx _ = raise invalid_tx

-- `CheckTx` of an Admin transaction.
unfoldable pub check_admin : Crypto → Network → Tx → Bool → Exec ⊤
unfolding get_admin
check_admin c net vtx for_commit = do
  when for_commit (check_account_nonce c vtx)
  admin_tx_check c net vtx
  tx ← or_raise (get_admin vtx.payload) invalid_tx
  when for_commit (deliver_admin tx tx.tx_type)
