-- ===== src/Transaction/AccountTx.antt =====
-- vochain/transaction/account_tx.go: the checks of the transactions on accounts, with
-- `CheckDuplicateDelegates` of vochain/state/utils.go.
pub mod Delivery
pub mod Opening
pub mod SikTx
use vocdoni_node.Base.{
  ℕ, Bool, true, false, not, ◌||◌, Option, none, some, List, [], ◌∷◌, ltb, ◌==◌, if◌then◌else◌,
}
use vocdoni_node.Base.Lists.{length, replicate}
use vocdoni_node.Base.Bytes.{Bytes, bytes_equal}
use vocdoni_node.Base.Dict.{lookup}
use vocdoni_node.Chain.{
  Account, Address, Validator, State, Exec, Result, ok, err, ⊤, pure, raise, gets, lift, or_raise,
  raise_if, ◌>>=◌, ◌>>◌, nil_tx, invalid_tx, invalid_tx_type, bad_signature, account_exists,
  invalid_uri_length, duplicate_delegate, sender_delegate, faucet_too_small, no_delegates,
  delegate_exists, no_such_delegate, same_uri, account_not_exist, not_delegate, no_public_key,
  already_validator, panicked,
}
use vocdoni_node.Crypto.{Crypto}
use vocdoni_node.TxType
use vocdoni_node.TxType.{TxType}
use vocdoni_node.Account.{get_account, is_delegate, max_url_length}
use vocdoni_node.Balance.{tx_base_cost}
use vocdoni_node.Validators.{find_validator}
use vocdoni_node.Transaction.Types.{Payload, Tx, SetAccountTx}
use vocdoni_node.Transaction.Faucet.{
  slice, check_faucet_package_and_transfer, check_account_can_pay_cost,
}
use vocdoni_node.Transaction.Tokens.{is_nil_tx}

unfoldable pub get_set_account : Option Payload → Option SetAccountTx
get_set_account (some (Payload.set_account tx)) = some tx
get_set_account _ = none

-- The signer of a transaction.
unfoldable pub sender_of : Crypto → Tx → Exec Address
sender_of c vtx =
    or_raise (c.addr_from_signature (slice vtx.signed_body) (slice vtx.signature)) bad_signature

-- The loop of `CheckDuplicateDelegates`, with the addresses seen so far.
unfoldable pub duplicates_loop : (Bytes → Address) → Address → List Address → List Bytes → Result ⊤
unfolding is_delegate
duplicates_loop to_address sender seen [] = ok tt
duplicates_loop to_address sender seen (d ∷ ds) =
    let rest = duplicates_loop to_address sender (to_address d ∷ seen) ds in
    if bytes_equal (to_address d) sender
    then err sender_delegate
    else if is_delegate (to_address d) seen
    then err duplicate_delegate
    else rest

-- `CheckDuplicateDelegates` for a sender
unfoldable pub check_duplicate_delegates : (Bytes → Address) → Address → List Bytes → Result ⊤
unfolding duplicates_loop
check_duplicate_delegates to_address sender delegates =
    duplicates_loop to_address sender [] delegates

unfoldable pub is_create_account : TxType → Bool
is_create_account TxType.create_account = true
is_create_account _ = false

unfoldable pub absent : Option Account → Bool
absent none = true
absent (some _) = false

-- `CreateAccountTxCheck`
unfoldable pub create_account_tx_check : Crypto → Tx → Exec ⊤
unfolding is_nil_tx get_set_account sender_of get_account tx_base_cost absent
create_account_tx_check c vtx = do
  raise_if (is_nil_tx vtx) nil_tx
  tx ← or_raise (get_set_account vtx.payload) invalid_tx
  raise_if (not (is_create_account tx.tx_type)) invalid_tx_type
  sender ← sender_of c vtx
  found ← get_account sender
  raise_if (not (absent found)) account_exists
  raise_if (ltb max_url_length (length tx.info_uri)) invalid_uri_length
  lift (check_duplicate_delegates c.bytes_to_address sender tx.delegates)
  cost ← tx_base_cost TxType.create_account
  can_pay ← check_faucet_package_and_transfer c tx.faucet_package cost sender false
  raise_if (not can_pay) faucet_too_small

-- The loops of `SetAccountDelegateTxCheck`.
unfoldable pub none_is_delegate : (Bytes → Address) → List Address → List Bytes → Result ⊤
unfolding is_delegate
none_is_delegate to_address known [] = ok tt
none_is_delegate to_address known (d ∷ ds) =
    let rest = none_is_delegate to_address known ds in
    if is_delegate (to_address d) known then err delegate_exists else rest

unfoldable pub all_are_delegates : (Bytes → Address) → List Address → List Bytes → Result ⊤
unfolding is_delegate
all_are_delegates to_address known [] = ok tt
all_are_delegates to_address known (d ∷ ds) =
    let rest = all_are_delegates to_address known ds in
    if is_delegate (to_address d) known then rest else err no_such_delegate

unfoldable pub check_delegates : TxType → (Bytes → Address) → List Address → List Bytes → Result ⊤
unfolding none_is_delegate all_are_delegates
check_delegates TxType.add_delegate_for_account to_address known ds =
    none_is_delegate to_address known ds
check_delegates TxType.del_delegate_for_account to_address known ds =
    all_are_delegates to_address known ds
check_delegates _ to_address known ds = err invalid_tx_type

unfoldable pub is_delegate_type : TxType → Bool
is_delegate_type TxType.add_delegate_for_account = true
is_delegate_type TxType.del_delegate_for_account = true
is_delegate_type _ = false

-- `SetAccountDelegateTxCheck`
unfoldable pub set_account_delegate_tx_check : Crypto → Tx → Exec ⊤
unfolding is_nil_tx get_set_account
set_account_delegate_tx_check c vtx = do
  raise_if (is_nil_tx vtx) nil_tx
  tx ← or_raise (get_set_account vtx.payload) invalid_tx
  raise_if (not (is_delegate_type tx.tx_type)) invalid_tx_type
  raise_if (length tx.delegates == 0) no_delegates
  r ← check_account_can_pay_cost c tx.tx_type vtx (Payload.set_account tx) 0
  lift (check_duplicate_delegates c.bytes_to_address r.1 tx.delegates)
  lift (check_delegates tx.tx_type c.bytes_to_address r.0.delegate_addrs tx.delegates)

abbrev pub zero_address : Address
zero_address = replicate 20 0

-- The account that a transaction names, or that of the sender for the zero address.
unfoldable pub named_account : Crypto → SetAccountTx → Address → Address
named_account c tx sender =
    if bytes_equal (c.bytes_to_address tx.account) zero_address
    then sender
    else c.bytes_to_address tx.account

-- The URI of another account is set by a delegate of it only.
unfoldable pub check_other_uri : Address → Address → Bytes → Exec ⊤
unfolding get_account
check_other_uri sender address uri = do
  found ← get_account address
  acc ← or_raise found account_not_exist
  raise_if (bytes_equal uri acc.info_uri) same_uri
  raise_if (not (is_delegate sender acc.delegate_addrs)) not_delegate

-- `SetAccountInfoTxCheck`
unfoldable pub set_account_info_tx_check : Crypto → Tx → Exec ⊤
unfolding is_nil_tx get_set_account named_account
set_account_info_tx_check c vtx = do
  raise_if (is_nil_tx vtx) nil_tx
  tx ← or_raise (get_set_account vtx.payload) invalid_tx
  r ← check_account_can_pay_cost c TxType.set_account_info_uri vtx (Payload.set_account tx) 0
  raise_if (length tx.info_uri == 0 || ltb max_url_length (length tx.info_uri)) invalid_uri_length
  if bytes_equal r.1 (named_account c tx r.1)
      then raise_if (bytes_equal tx.info_uri r.0.info_uri) same_uri
      else check_other_uri r.1 (named_account c tx r.1) tx.info_uri

abbrev pub pub_key_size : ℕ
pub_key_size = 33

is_validator : Option Validator → Bool
is_validator none = false
is_validator (some _) = true

-- `SetAccountValidatorTxCheck`; a payload of another kind reads as one with no public key.
unfoldable pub set_account_validator_tx_check : Crypto → Tx → Exec ⊤
unfolding is_nil_tx get_set_account is_validator
set_account_validator_tx_check c vtx = do
  raise_if (is_nil_tx vtx) nil_tx
  tx ← or_raise (get_set_account vtx.payload) no_public_key
  check_account_can_pay_cost c TxType.set_account_validator vtx (Payload.set_account tx) 0
  key ← or_raise tx.public_key no_public_key
  raise_if (not (length key == pub_key_size)) no_public_key
  address ← or_raise (c.addr_from_public_key key) bad_signature
  found ← gets (find_validator address)
  raise_if (is_validator found) already_validator
