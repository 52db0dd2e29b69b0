-- ===== src/Transaction/Nonce.antt =====
-- vochain/transaction/nonce.go: who sent a transaction, and in which turn.
use vocdoni_node.Base.{ℕ, not, Option, none, some, ◌==◌}
use vocdoni_node.Chain.{
  Address, Exec, Result, ok, err, ⊤, pure, lift, or_raise, raise_if, ◌>>=◌, bad_signature,
  nonce_mismatch, nil_payload, tx_empty,
}
use vocdoni_node.Crypto.{Crypto}
use vocdoni_node.TxType.{TxType}
use vocdoni_node.Account.{require_account}
use vocdoni_node.Transaction.Types.{Payload, Tx}
use vocdoni_node.Transaction.Faucet.{slice}

set_account_nonce : TxType → ℕ → Option ℕ
set_account_nonce TxType.create_account nonce = none
set_account_nonce _ nonce = some nonce

-- The nonce that a payload carries: `none` for the payloads whose nonce does not count, and an
-- error for a payload that is not known.
unfoldable pub payload_nonce : Payload → Result (Option ℕ)
unfolding set_account_nonce
payload_nonce (Payload.new_process tx) = ok (some tx.nonce)
payload_nonce (Payload.set_process tx) = ok (some tx.nonce)
payload_nonce (Payload.send_tokens tx) = ok (some tx.nonce)
payload_nonce (Payload.set_account tx) = ok (set_account_nonce tx.tx_type tx.nonce)
payload_nonce (Payload.collect_faucet tx) = ok (some tx.nonce)
payload_nonce Payload.unknown_payload = err nil_payload
payload_nonce _ = ok none

sender_and_nonce : Crypto → Tx → Option ℕ → Exec (Option (Address × ℕ))
sender_and_nonce c vtx none = pure none
sender_and_nonce c vtx (some nonce) = do
  addr ←
      or_raise (c.addr_from_signature (slice vtx.signed_body) (slice vtx.signature)) bad_signature
  pure (some (addr, nonce))

-- `none` stands for the results nil and 0.
unfoldable pub extract_nonce_and_sender : Crypto → Tx → Exec (Option (Address × ℕ))
unfolding sender_and_nonce payload_nonce
extract_nonce_and_sender c vtx = do
  payload ← or_raise vtx.payload tx_empty
  nonce ← lift (payload_nonce payload)
  sender_and_nonce c vtx nonce

compare_nonce : Option (Address × ℕ) → Exec ⊤
unfolding require_account
compare_nonce none = pure tt
compare_nonce (some (addr, nonce)) = do
  acc ← require_account addr
  raise_if (not (acc.nonce == nonce)) nonce_mismatch

unfoldable pub check_account_nonce : Crypto → Tx → Exec ⊤
unfolding extract_nonce_and_sender compare_nonce
check_account_nonce c vtx = do found ← extract_nonce_and_sender c vtx; compare_nonce found
