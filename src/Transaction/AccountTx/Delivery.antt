-- ===== src/Transaction/AccountTx/Delivery.antt =====
-- The delivery of SetAccount transactions in `CheckTx` (vochain/transaction/transaction.go).
use vocdoni_node.Base.{ℕ, Bool, true, not, Option, none, some, if◌then◌else◌}
use vocdoni_node.Base.Bytes.{Bytes, bytes_equal}
use vocdoni_node.Chain.{
  Address, Exec, ⊤, pure, raise, gets, or_raise, raise_if, when, ◌>>=◌, ◌>>◌, panicked,
  bad_signature, faucet_too_small, invalid_tx_type,
}
use vocdoni_node.Crypto.{Crypto}
use vocdoni_node.TxType.{TxType}
use vocdoni_node.Account.{create_account, set_account_info_uri, set_account_delegate}
use vocdoni_node.Balance.{tx_base_cost, burn_tx_cost, burn_tx_cost_increment_nonce}
use vocdoni_node.Sik.{set_address_sik}
use vocdoni_node.Validators.{add_validator}
use vocdoni_node.Transaction.Types.{FaucetPackage, Tx, SetAccountTx}
use vocdoni_node.Transaction.Faucet.{slice, check_faucet_package_and_transfer, pay}
use vocdoni_node.Transaction.Nonce.{check_account_nonce}
use vocdoni_node.Transaction.AccountTx.{
  get_set_account, sender_of, zero_address, create_account_tx_check, set_account_info_tx_check,
  set_account_delegate_tx_check, set_account_validator_tx_check,
}

unfoldable pub set_optional_sik : Address → Option Bytes → Exec ⊤
set_optional_sik sender none = pure tt
set_optional_sik sender (some sik) = set_address_sik sender sik

-- The payment of a created account: its faucet package, then the cost is burned.
unfoldable pub settle_account : Crypto → SetAccountTx → Address → Exec ⊤
settle_account c tx sender = do
  cost ← tx_base_cost TxType.create_account
  can_pay ← check_faucet_package_and_transfer c tx.faucet_package cost sender true
  raise_if (not can_pay) faucet_too_small
  burn_tx_cost sender cost

unfoldable pub deliver_create_account : Crypto → SetAccountTx → Address → Exec ⊤
deliver_create_account c tx sender = do
  create_account sender tx.info_uri tx.delegates 0
  set_optional_sik sender tx.sik
  settle_account c tx sender

-- The base cost is paid with a faucet package or by the sender.
unfoldable pub pay_base : Crypto → Option FaucetPackage → Address → TxType → Exec ⊤
unfolding tx_base_cost
pay_base c pkg sender tx_type = do cost ← tx_base_cost tx_type; pay c pkg sender tx_type cost

unfoldable pub deliver_set_account_info : Crypto → SetAccountTx → Address → Exec ⊤
deliver_set_account_info c tx sender = do
  pay_base c tx.faucet_package sender TxType.set_account_info_uri
  if bytes_equal (c.bytes_to_address tx.account) zero_address
      then set_account_info_uri sender tx.info_uri
      else set_account_info_uri (c.bytes_to_address tx.account) tx.info_uri

-- For the types ADD_DELEGATE_FOR_ACCOUNT and DEL_DELEGATE_FOR_ACCOUNT.
unfoldable pub deliver_set_account_delegate : Crypto → SetAccountTx → Address → TxType → Exec ⊤
deliver_set_account_delegate c tx sender tx_type = do
  pay_base c tx.faucet_package sender tx_type
  set_account_delegate c.bytes_to_address sender tx.delegates tx_type

abbrev pub new_validator_power : ℕ
new_validator_power = 50

-- The address that CometBFT gives to a key is `comet_address`.
unfoldable pub deliver_set_account_validator :
    Crypto → (Bytes → Bytes) → SetAccountTx → Address → Exec ⊤
deliver_set_account_validator c comet_address tx sender = do
  cost ← tx_base_cost TxType.set_account_validator
  check_faucet_package_and_transfer c tx.faucet_package cost sender true
  address ← or_raise (c.addr_from_public_key (slice tx.public_key)) bad_signature
  burn_tx_cost_increment_nonce sender TxType.set_account_validator cost
  height ← gets (λ s. s.current_height)
  add_validator (record {
    address = address;
    pub_key = slice tx.public_key;
    name = tx.name;
    power = new_validator_power;
    key_index = 0;
    validator_address = comet_address (slice tx.public_key);
    height = height;
    votes = 0;
    proposals = 0;
    score = 0;
  })

-- The two switches of `CheckTx` on the type of a SetAccount transaction.
unfoldable pub check_by_type : Crypto → Tx → TxType → Exec ⊤
check_by_type c vtx TxType.create_account = create_account_tx_check c vtx
check_by_type c vtx TxType.set_account_info_uri = set_account_info_tx_check c vtx
check_by_type c vtx TxType.add_delegate_for_account = set_account_delegate_tx_check c vtx
check_by_type c vtx TxType.del_delegate_for_account = set_account_delegate_tx_check c vtx
check_by_type c vtx TxType.set_account_validator = set_account_validator_tx_check c vtx
check_by_type c vtx _ = raise invalid_tx_type

unfoldable pub deliver_by_type : Crypto → (Bytes → Bytes) → SetAccountTx → Address → TxType → Exec ⊤
deliver_by_type c comet_address tx sender TxType.create_account = deliver_create_account c tx sender
deliver_by_type c comet_address tx sender TxType.set_account_info_uri =
    deliver_set_account_info c tx sender
deliver_by_type c comet_address tx sender TxType.add_delegate_for_account =
    deliver_set_account_delegate c tx sender TxType.add_delegate_for_account
deliver_by_type c comet_address tx sender TxType.del_delegate_for_account =
    deliver_set_account_delegate c tx sender TxType.del_delegate_for_account
deliver_by_type c comet_address tx sender TxType.set_account_validator =
    deliver_set_account_validator c comet_address tx sender
deliver_by_type c comet_address tx sender _ = raise invalid_tx_type

-- `CheckTx` of a SetAccount transaction.
unfoldable pub check_set_account : Crypto → (Bytes → Bytes) → Tx → Bool → Exec ⊤
unfolding get_set_account sender_of
check_set_account c comet_address vtx for_commit = do
  when for_commit (check_account_nonce c vtx)
  tx ← or_raise (get_set_account vtx.payload) panicked
  check_by_type c vtx tx.tx_type
  when for_commit
      (do sender ← sender_of c vtx; deliver_by_type c comet_address tx sender tx.tx_type)
