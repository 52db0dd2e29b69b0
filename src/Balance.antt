-- ===== src/Balance.antt =====
-- vochain/state/balances.go: transaction costs, faucet packages, and the transfer, minting and
-- burning of tokens; and `BurnTxCostIncrementNonce` of vochain/state/account.go.
pub mod Outcomes
pub mod Transfers
pub mod Conservation
use vocdoni_node.Base.{
  ℕ, ◌+◌, Bool, true, false, not, Option, none, some, List, [], ◌∷◌, ◌++◌, ltb, ◌==◌, if◌then◌else◌,
}
use vocdoni_node.Base.Lists.{replicate}
use vocdoni_node.Base.Bytes.{Bytes, codes, bytes_equal}
use vocdoni_node.Base.Words.{add32, add64}
use vocdoni_node.Base.Dict.{Dict, lookup, insert}
use vocdoni_node.Chain.{
  Account, Address, Error, Result, ok, err, balance_overflow, zero_amount, account_not_exist,
  invalid_faucet_payload, free_tx_type, no_burn_account, Exec, State, ⊤, pure, raise, gets, lift,
  or_raise, raise_if, when, modify, ◌>>=◌, ◌>>◌,
}
use vocdoni_node.Crypto.{Crypto, FaucetPayload}
use vocdoni_node.TxType
use vocdoni_node.TxType.{TxType}
use vocdoni_node.Account.{transfer, get_account, set_account, require_account}

-- The burn address, twenty bytes 0xff.
abbrev pub burn_address : Address
burn_address = replicate 20 255

abbrev pub failback_tx_cost : ℕ
failback_tx_cost = 1

-- `TxTypeCostToStateKey`; `none` for a type that costs nothing.
unfoldable pub state_key : TxType → Option Bytes
state_key TxType.set_process_status = some (codes "c_setProcessStatus")
state_key TxType.set_process_duration = some (codes "c_setProcessDuration")
state_key TxType.set_process_metadata = some (codes "c_setProcessMetadata")
state_key TxType.set_process_census = some (codes "c_setProcessCensus")
state_key TxType.set_process_question_index = some (codes "c_setProcessResults")
state_key TxType.register_voter_key = some (codes "c_registerKey")
state_key TxType.new_process = some (codes "c_newProcess")
state_key TxType.send_tokens = some (codes "c_sendTokens")
state_key TxType.set_account_info_uri = some (codes "c_setAccountInfoURI")
state_key TxType.create_account = some (codes "c_createAccount")
state_key TxType.add_delegate_for_account = some (codes "c_addDelegateForAccount")
state_key TxType.del_delegate_for_account = some (codes "c_delDelegateForAccount")
state_key TxType.collect_faucet = some (codes "c_collectFaucet")
state_key TxType.set_account_sik = some (codes "c_setAccountSIK")
state_key TxType.del_account_sik = some (codes "c_delAccountSIK")
state_key TxType.register_sik = some (codes "c_registerSIK")
state_key TxType.set_account_validator = some (codes "c_setAccountValidator")
state_key TxType.add_process_keys = none
state_key TxType.reveal_process_keys = none
state_key (TxType.other_tx n) = none

unfoldable pub set_tx_base_cost : TxType → ℕ → Exec ⊤
set_tx_base_cost tx_type cost = do
  key ← or_raise (state_key tx_type) free_tx_type
  modify (λ s. record s { tx_costs = insert key cost s.tx_costs })

cost_or_failback : Option ℕ → ℕ
cost_or_failback none = failback_tx_cost
cost_or_failback (some cost) = cost

-- A type whose cost is not set costs `failback_tx_cost`.
unfoldable pub tx_base_cost : TxType → Exec ℕ
unfolding cost_or_failback
tx_base_cost tx_type = do
  key ← or_raise (state_key tx_type) free_tx_type
  gets (λ s. cost_or_failback (lookup key s.tx_costs))

is_some : {A : Type 0} → Option A → Bool
is_some none = false
is_some (some _) = true

-- Every leaf of the tree is compared: the result of the callback stops no leaf.
unfoldable pub faucet_nonce : Bytes → Exec Bool
unfolding is_some
faucet_nonce key = gets (λ s. is_some (lookup key s.faucet_nonces))

unfoldable pub set_faucet_nonce : Bytes → Exec ⊤
set_faucet_nonce key = modify (λ s. record s { faucet_nonces = insert key tt s.faucet_nonces })

-- The key of a faucet package: the hash of its issuer and its identifier.
unfoldable pub faucet_key : Crypto → Address → ℕ → Bytes
faucet_key c from identifier = c.hash_raw (from ++ c.put_uint64 identifier)

unfoldable pub consume_faucet_payload : Crypto → Address → FaucetPayload → Exec ⊤
unfolding set_faucet_nonce faucet_key
consume_faucet_payload c from payload = set_faucet_nonce (faucet_key c from payload.identifier)

-- The two accounts are read before either is written.
unfoldable pub transfer_balance : Address → Address → ℕ → Exec ⊤
unfolding require_account set_account
transfer_balance from to amount = do
  acc_from ← require_account from
  acc_to ← require_account to
  moved ← lift (transfer acc_from (some acc_to) amount)
  set_account from moved.0
  set_account to moved.1

-- The part that `MintBalance` and `InitChainMintBalance` share.
credit : Address → ℕ → Exec ⊤
unfolding require_account set_account
credit to amount = do
  acc ← require_account to
  raise_if (ltb (add64 acc.balance amount) acc.balance) balance_overflow
  set_account to (record acc { balance = add64 acc.balance amount })

unfoldable pub mint_balance : Address → ℕ → Exec ⊤
unfolding credit
mint_balance to amount = do raise_if (amount == 0) zero_amount; credit to amount

unfoldable pub init_chain_mint_balance : Address → ℕ → Exec ⊤
unfolding credit
init_chain_mint_balance to amount = when (not (amount == 0)) (credit to amount)

unfoldable pub burn_tx_cost : Address → ℕ → Exec ⊤
burn_tx_cost from cost = when (not (cost == 0)) (transfer_balance from burn_address cost)

-- The cost that is asked for, or the base cost of the type.
unfoldable pub effective_cost : TxType → ℕ → Exec ℕ
unfolding tx_base_cost
effective_cost tx_type cost = if cost == 0 then tx_base_cost tx_type else pure cost

-- The account after its fee went to the burn address, which is written here.
unfoldable pub burn_fee : Address → Account → ℕ → Exec Account
unfolding get_account set_account
burn_fee address acc cost = do
  found ← get_account burn_address
  burn_acc ← or_raise found no_burn_account
  moved ← lift (transfer acc (some burn_acc) cost)
  set_account burn_address moved.1
  pure moved.0

-- `BurnTxCostIncrementNonce` once the cost is known.
unfoldable pub spend_fee : Address → ℕ → Exec ⊤
unfolding require_account burn_fee set_account
spend_fee address fee = do
  acc ← require_account address
  acc' ← if fee == 0 then pure acc else burn_fee address acc fee
  set_account address (record acc' { nonce = add32 acc'.nonce 1 })

unfoldable pub burn_tx_cost_increment_nonce : Address → TxType → ℕ → Exec ⊤
unfolding effective_cost spend_fee
burn_tx_cost_increment_nonce address tx_type cost = do
  fee ← effective_cost tx_type cost
  spend_fee address fee
