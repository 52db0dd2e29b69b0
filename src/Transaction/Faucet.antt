-- ===== src/Transaction/Faucet.antt =====
-- `checkFaucetPackageAndTransfer` and `checkAccountCanPayCost` of
-- vochain/transaction/transaction.go.
pub mod Once
pub mod Frame
pub mod Payer
use vocdoni_node.Base.{
  ℕ, Bool, true, false, not, ◌&&◌, Option, none, some, [], ltb, ◌==◌, if◌then◌else◌,
}
use vocdoni_node.Base.Bytes.{Bytes, bytes_equal}
use vocdoni_node.Base.Words.{add64}
use vocdoni_node.Chain.{
  Account, Address, Exec, ⊤, pure, raise, or_raise, raise_if, when, ◌>>=◌, ◌>>◌,
  invalid_faucet_payload, invalid_to, sender_mismatch, bad_signature, faucet_used,
  not_enough_balance, nil_tx, account_not_exist,
}
use vocdoni_node.Crypto.{Crypto, FaucetPayload}
use vocdoni_node.TxType.{TxType}
use vocdoni_node.Account.{account_balance, require_account}
use vocdoni_node.Balance.{
  faucet_nonce, faucet_key, consume_faucet_payload, transfer_balance, effective_cost,
  burn_tx_cost_increment_nonce,
}
use vocdoni_node.Transaction.Types.{FaucetPackage, Payload, Tx, payload_faucet_package}

-- The bytes of a slice, nil or not.
abbrev pub slice : Option Bytes → Bytes
slice none = []
slice (some b) = b

-- A package that passed its checks: who issued it, and what it promises.
pub record Verified : Type 0 where
  pub issuer : Address
  pub payload : FaucetPayload

-- The checks, which read the state and change nothing.
unfoldable pub verify_faucet_package : Crypto → FaucetPackage → ℕ → Address → Exec Verified
unfolding account_balance faucet_nonce
verify_faucet_package c pkg cost sender = do
  raw ← or_raise pkg.payload invalid_faucet_payload
  payload ← or_raise (c.unmarshal_faucet_payload raw) invalid_faucet_payload
  raise_if (payload.amount == 0) invalid_faucet_payload
  to ← or_raise payload.to invalid_to
  raise_if (not (bytes_equal to sender)) sender_mismatch
  issuer ← or_raise (c.addr_from_signature raw (slice pkg.signature)) bad_signature
  issuer_balance ← account_balance issuer
  used ← faucet_nonce (faucet_key c issuer payload.identifier)
  raise_if used faucet_used
  raise_if (ltb issuer_balance payload.amount) not_enough_balance
  balance ← account_balance sender
  raise_if (ltb (add64 balance payload.amount) cost) not_enough_balance
  pure (record { issuer = issuer; payload = payload })

-- With `for_commit` a verified package is consumed, and its amount moves to the sender.
unfoldable pub settle_faucet_package : Crypto → Verified → Address → Exec ⊤
settle_faucet_package c v sender = do
  consume_faucet_payload c v.issuer v.payload
  transfer_balance v.issuer sender v.payload.amount

unfoldable pub check_faucet_package_and_transfer :
    Crypto → Option FaucetPackage → ℕ → Address → Bool → Exec Bool
unfolding verify_faucet_package settle_faucet_package
check_faucet_package_and_transfer c none cost sender for_commit = pure (cost == 0)
check_faucet_package_and_transfer c (some pkg) cost sender for_commit = do
  v ← verify_faucet_package c pkg cost sender
  when for_commit (settle_faucet_package c v sender)
  pure true

-- `checkAccountCanPayCost`: the sender, whose balance or faucet package covers the cost.
unfoldable pub check_account_can_pay_cost :
    Crypto → TxType → Tx → Payload → ℕ → Exec (Account × Address)
unfolding effective_cost require_account check_faucet_package_and_transfer
check_account_can_pay_cost c tx_type vtx payload asked = do
  sender ←
      or_raise (c.addr_from_signature (slice vtx.signed_body) (slice vtx.signature)) bad_signature
  acc ← require_account sender
  cost ← effective_cost tx_type asked
  can_pay ←
      if ltb 0 cost
      then check_faucet_package_and_transfer c (payload_faucet_package payload) cost sender false
      else pure true
  raise_if (not can_pay && ltb acc.balance cost) not_enough_balance
  pure (acc, sender)

-- What `CheckTx` does to be paid: a faucet package is used first, then the cost is burned.
unfoldable pub pay : Crypto → Option FaucetPackage → Address → TxType → ℕ → Exec ⊤
pay c pkg sender tx_type cost = do
  check_faucet_package_and_transfer c pkg cost sender true
  burn_tx_cost_increment_nonce sender tx_type cost
