-- ===== src/Transaction/Tokens.antt =====
-- vochain/transaction/tokens_tx.go, and the delivery of SendTokens and CollectFaucet transactions
-- in `CheckTx` (vochain/transaction/transaction.go).
pub mod Replay
pub mod Delivery
pub mod Collect
pub mod SelfIssued
use vocdoni_node.Base.{
  ℕ, Bool, true, false, not, ◌||◌, ◌&&◌, Option, none, some, [], ltb, ◌==◌, if◌then◌else◌,
}
use vocdoni_node.Base.Lists.{length}
use vocdoni_node.Base.Bytes.{Bytes, bytes_equal}
use vocdoni_node.Base.Words.{add64}
use vocdoni_node.Chain.{
  Account, Address, Exec, ⊤, pure, raise, or_raise, raise_if, when, ◌>>=◌, ◌>>◌, nil_tx, invalid_tx,
  invalid_value, invalid_from, invalid_to, bad_signature, sender_mismatch, same_address,
  not_enough_balance, nil_faucet_package, invalid_faucet_signature, invalid_faucet_payload,
  invalid_nonce, faucet_used, no_faucet_account, tx_empty,
}
use vocdoni_node.Crypto.{Crypto, FaucetPayload}
use vocdoni_node.TxType
use vocdoni_node.TxType.{TxType}
use vocdoni_node.Account.{get_account, require_account}
use vocdoni_node.Balance.{
  tx_base_cost, faucet_nonce, faucet_key, consume_faucet_payload, transfer_balance,
  burn_tx_cost_increment_nonce,
}
use vocdoni_node.Transaction.Types.{FaucetPackage, Payload, Tx, SendTokensTx, CollectFaucetTx}
use vocdoni_node.Transaction.Faucet.{slice}
use vocdoni_node.Transaction.Nonce.{check_account_nonce}

is_nil : Option Bytes → Bool
is_nil none = true
is_nil (some _) = false

-- `vtx.Signature == nil || vtx.SignedBody == nil || vtx.Tx == nil`
unfoldable pub is_nil_tx : Tx → Bool
unfolding is_nil
is_nil_tx vtx = is_nil vtx.signature || is_nil vtx.signed_body

unfoldable pub get_send_tokens : Option Payload → Option SendTokensTx
get_send_tokens (some (Payload.send_tokens tx)) = some tx
get_send_tokens _ = none

unfoldable pub send_tokens_tx_check : Crypto → Tx → Exec ⊤
unfolding is_nil_tx get_send_tokens require_account tx_base_cost
send_tokens_tx_check c vtx = do
  raise_if (is_nil_tx vtx) nil_tx
  tx ← or_raise (get_send_tokens vtx.payload) invalid_tx
  raise_if (tx.value == 0) invalid_value
  raise_if (length tx.from == 0) invalid_from
  raise_if (length tx.to == 0) invalid_to
  sender ←
      or_raise (c.addr_from_signature (slice vtx.signed_body) (slice vtx.signature)) bad_signature
  raise_if (not (bytes_equal (c.bytes_to_address tx.from) sender)) sender_mismatch
  raise_if (bytes_equal (c.bytes_to_address tx.from) (c.bytes_to_address tx.to)) same_address
  require_account (c.bytes_to_address tx.to)
  acc ← require_account sender
  cost ← tx_base_cost TxType.send_tokens
  raise_if (ltb acc.balance (add64 tx.value cost)) not_enough_balance

-- What `CheckTx` does after the check when the transaction is to be committed.
unfoldable pub deliver_send_tokens : Crypto → SendTokensTx → Exec ⊤
deliver_send_tokens c tx = do
  burn_tx_cost_increment_nonce (c.bytes_to_address tx.from) TxType.send_tokens 0
  transfer_balance (c.bytes_to_address tx.from) (c.bytes_to_address tx.to) tx.value

-- `CheckTx` of a SendTokens transaction.
unfoldable pub check_send_tokens : Crypto → Tx → Bool → Exec ⊤
unfolding get_send_tokens
check_send_tokens c vtx for_commit = do
  when for_commit (check_account_nonce c vtx)
  send_tokens_tx_check c vtx
  tx ← or_raise (get_send_tokens vtx.payload) invalid_tx
  when for_commit (deliver_send_tokens c tx)

unfoldable pub get_collect_faucet : Option Payload → Option CollectFaucetTx
get_collect_faucet (some (Payload.collect_faucet tx)) = some tx
get_collect_faucet _ = none

-- The payload of a faucet package, with the tests on the package that come before.
unfoldable pub read_faucet_package : Crypto → CollectFaucetTx → Exec (Bytes × Bytes × FaucetPayload)
read_faucet_package c tx = do
  pkg ← or_raise tx.faucet_package nil_faucet_package
  signature ← or_raise pkg.signature invalid_faucet_signature
  raw ← or_raise pkg.payload invalid_faucet_payload
  payload ← or_raise (c.unmarshal_faucet_payload raw) invalid_faucet_payload
  pure (raw, signature, payload)

unfoldable pub collect_faucet_tx_check : Crypto → Tx → Exec ⊤
unfolding is_nil_tx get_collect_faucet read_faucet_package require_account get_account faucet_nonce
    tx_base_cost
collect_faucet_tx_check c vtx = do
  raise_if (is_nil_tx vtx) nil_tx
  tx ← or_raise (get_collect_faucet vtx.payload) invalid_tx
  pkg ← read_faucet_package c tx
  raise_if (pkg.2.amount == 0) invalid_faucet_payload
  raise_if (length (slice pkg.2.to) == 0) invalid_faucet_payload
  sender ←
      or_raise (c.addr_from_signature (slice vtx.signed_body) (slice vtx.signature)) bad_signature
  raise_if (not (bytes_equal sender (c.bytes_to_address (slice pkg.2.to)))) sender_mismatch
  acc ← require_account sender
  raise_if (not (acc.nonce == tx.nonce)) invalid_nonce
  issuer ← or_raise (c.addr_from_signature pkg.0 pkg.1) bad_signature
  used ← faucet_nonce (faucet_key c issuer pkg.2.identifier)
  raise_if used faucet_used
  issuer_found ← get_account issuer
  issuer_acc ← or_raise issuer_found no_faucet_account
  cost ← tx_base_cost TxType.collect_faucet
  raise_if (ltb issuer_acc.balance (add64 pkg.2.amount cost)) not_enough_balance

unfoldable pub deliver_collect_faucet : Crypto → CollectFaucetTx → Exec ⊤
unfolding read_faucet_package
deliver_collect_faucet c tx = do
  pkg ← read_faucet_package c tx
  issuer ← or_raise (c.addr_from_signature pkg.0 pkg.1) bad_signature
  burn_tx_cost_increment_nonce issuer TxType.collect_faucet 0
  consume_faucet_payload c issuer pkg.2
  transfer_balance issuer (c.bytes_to_address (slice pkg.2.to)) pkg.2.amount

-- `CheckTx` of a CollectFaucet transaction.
unfoldable pub check_collect_faucet : Crypto → Tx → Bool → Exec ⊤
unfolding get_collect_faucet
check_collect_faucet c vtx for_commit = do
  when for_commit (check_account_nonce c vtx)
  collect_faucet_tx_check c vtx
  tx ← or_raise (get_collect_faucet vtx.payload) invalid_tx
  when for_commit (deliver_collect_faucet c tx)
