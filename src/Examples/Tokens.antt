-- ===== src/Examples/Tokens.antt =====
-- Tokens: transfers, fees and faucet packages.
use vocdoni_node.Base.{◌+◌, ◌≡◌, ◌≢◌, refl, true, some, [], arith}
use vocdoni_node.Base.Bytes.{Bytes, bytes_equal}
use vocdoni_node.Base.Dict.{lookup, insert}
use vocdoni_node.Chain.{ready, ok, err, nonce_mismatch, not_enough_balance}
use vocdoni_node.TxType.{TxType}
use vocdoni_node.Account.Supply.{Fits, supply}
use vocdoni_node.Examples.Fixtures.{
  alice, bob, carol, account, crypto, chain, payment, payment_tx, faucet_package, apart,
}
use vocdoni_node.Balance.{
  burn_address, tx_base_cost, transfer_balance, burn_tx_cost_increment_nonce,
}
use vocdoni_node.Balance.Outcomes.{bump}
use vocdoni_node.Balance.Transfers.{transfer_balance_atomic}
use vocdoni_node.Balance.Conservation.{Conserves}
use vocdoni_node.Transaction.Types.{Payload, Tx, CollectFaucetTx}
use vocdoni_node.Transaction.Tokens.{
  check_send_tokens, deliver_send_tokens, check_collect_faucet, deliver_collect_faucet,
}
use vocdoni_node.Transaction.Tokens.Collect.{Collected, check_collect_faucet_no_replay}
use vocdoni_node.Transaction.Tokens.SelfIssued.{deliver_collect_faucet_self}
use vocdoni_node.Transaction.Tokens.Replay.{send_tokens_no_replay}
use vocdoni_node.Transaction.Tokens.Delivery.{
  deliver_send_tokens_moves, check_send_tokens-Conserves,
}
use vocdoni_node.Transaction.Faucet.{check_faucet_package_and_transfer}
use vocdoni_node.Transaction.Faucet.Once.{faucet_package_once}

payment_accepted : (check_send_tokens crypto payment_tx true (chain ready)).0 ≡ ok tt
unfolding check_send_tokens vocdoni_node.Transaction.Nonce.check_account_nonce lookup bytes_equal
    vocdoni_node.Transaction.Tokens.send_tokens_tx_check vocdoni_node.Balance.state_key
    deliver_send_tokens burn_tx_cost_increment_nonce vocdoni_node.Account.transfer transfer_balance
    insert
payment_accepted = refl

chain-Fits : Fits (chain ready).accounts
chain-Fits = ground arith

send_tokens_no_replay_example :
    (check_send_tokens crypto payment_tx true
      (check_send_tokens crypto payment_tx true (chain ready)).1).0
    ≡ err nonce_mismatch
send_tokens_no_replay_example =
    send_tokens_no_replay crypto payment_tx (chain ready) payment_accepted

not_burning : some alice ≢ some burn_address
unfolding bytes_equal
not_burning = ground (arith, apart alice burn_address refl)

check_send_tokens-Conserves_example :
    Conserves (chain ready) (check_send_tokens crypto payment_tx true (chain ready)).1
check_send_tokens-Conserves_example =
    check_send_tokens-Conserves crypto payment_tx true (chain ready) not_burning chain-Fits

carol_not : carol ≢ alice
unfolding bytes_equal
carol_not = apart carol alice refl

alice_not_bob : alice ≢ bob
unfolding bytes_equal
alice_not_bob = apart alice bob refl

alice_not_burn : alice ≢ burn_address
unfolding bytes_equal
alice_not_burn = apart alice burn_address refl

bob_not_burn : bob ≢ burn_address
unfolding bytes_equal
bob_not_burn = apart bob burn_address refl

carol_not_bob : carol ≢ bob
unfolding bytes_equal
carol_not_bob = apart carol bob refl

carol_not_burn : carol ≢ burn_address
unfolding bytes_equal
carol_not_burn = apart carol burn_address refl

alice_found : lookup alice (chain ready).accounts ≡ some (account 100)
unfolding lookup bytes_equal
alice_found = refl

bob_found : lookup bob (chain ready).accounts ≡ some (account 50)
unfolding lookup bytes_equal
bob_found = refl

burn_found : lookup burn_address (chain ready).accounts ≡ some (account 0)
unfolding lookup bytes_equal
burn_found = refl

payment_cost : (tx_base_cost TxType.send_tokens (chain ready)).0 ≡ ok 1
unfolding tx_base_cost vocdoni_node.Balance.state_key lookup
payment_cost = refl

deliver_send_tokens_moves_example :
    let (r, s') = deliver_send_tokens crypto payment (chain ready) in
    (r ≡ ok tt)
    × (lookup alice s'.accounts ≡ some (bump (record (account 100) { balance = 69 })))
    × (lookup bob s'.accounts ≡ some (account 80))
    × (lookup burn_address s'.accounts ≡ some (account 1))
    × (lookup carol s'.accounts ≡ lookup carol (chain ready).accounts)
deliver_send_tokens_moves_example =
    deliver_send_tokens_moves crypto payment (chain ready) 1 carol alice_not_bob alice_not_burn
      bob_not_burn carol_not carol_not_bob carol_not_burn alice_found bob_found burn_found
      payment_cost (omega arith) (omega arith) (omega arith) (omega arith) (omega arith)

package_accepted :
    (check_faucet_package_and_transfer crypto (some faucet_package) 1 bob true (chain ready)).0
    ≡ ok true
unfolding check_faucet_package_and_transfer bytes_equal lookup
    vocdoni_node.Balance.consume_faucet_payload transfer_balance vocdoni_node.Account.transfer
package_accepted = refl

faucet_package_once_example :
    (check_faucet_package_and_transfer crypto
      (some faucet_package)
      2
      carol
      true
      (check_faucet_package_and_transfer crypto (some faucet_package) 1 bob true (chain ready)).1).0
    ≢ ok true
faucet_package_once_example =
    faucet_package_once crypto faucet_package 1 2 bob carol true true (chain ready)
      (check_faucet_package_and_transfer crypto (some faucet_package) 1 bob true (chain ready)).1
      package_accepted (λ k h. h)

too_much : (transfer_balance alice bob 101 (chain ready)).0 ≢ ok tt
unfolding transfer_balance lookup bytes_equal vocdoni_node.Account.transfer
too_much h = ground (arith, refused, h)
  where
    refused : (transfer_balance alice bob 101 (chain ready)).0 ≡ err not_enough_balance
    refused = refl

transfer_balance_atomic_example : (transfer_balance alice bob 101 (chain ready)).1 ≡ chain ready
transfer_balance_atomic_example = transfer_balance_atomic alice bob 101 (chain ready) too_much

-- Bob collects a package that the given address issued.
abbrev collection : Bytes → CollectFaucetTx
collection issuer = record {
  nonce = 0;
  faucet_package = some (record { payload = some issuer; signature = some [] });
}

abbrev collecting : Bytes → Tx
collecting issuer = record {
  tx_id = [];
  payload = some (Payload.collect_faucet (collection issuer));
  signed_body = some bob;
  signature = some [];
}

collected : (check_collect_faucet crypto (collecting alice) true (chain ready)).0 ≡ ok tt
unfolding check_collect_faucet vocdoni_node.Transaction.Nonce.check_account_nonce lookup bytes_equal
    vocdoni_node.Transaction.Tokens.collect_faucet_tx_check vocdoni_node.Balance.state_key
    deliver_collect_faucet burn_tx_cost_increment_nonce vocdoni_node.Account.transfer
    vocdoni_node.Balance.consume_faucet_payload transfer_balance insert
collected = refl

check_collect_faucet_no_replay_example :
    (check_collect_faucet crypto
      (collecting alice)
      true
      (check_collect_faucet crypto (collecting alice) true (chain ready)).1).0
    ≢ ok tt
check_collect_faucet_no_replay_example =
    check_collect_faucet_no_replay crypto (collecting alice) true (chain ready) collected

abbrev self_issued : Collected crypto (collecting bob)
unfolding vocdoni_node.Transaction.Tokens.get_collect_faucet
self_issued = record {
  tx = collection bob;
  pkg = record { payload = some bob; signature = some [] };
  raw = bob;
  signature = [];
  payload = record { identifier = 9; to = some bob; amount = 5 };
  issuer = bob;
  of_tx = refl;
  has_package = refl;
  has_signature = refl;
  has_payload = refl;
  decoded = refl;
  signed = refl;
}

self_delivered : (deliver_collect_faucet crypto (collection bob) (chain ready)).0 ≡ ok tt
unfolding deliver_collect_faucet burn_tx_cost_increment_nonce vocdoni_node.Balance.state_key lookup
    bytes_equal vocdoni_node.Account.transfer vocdoni_node.Balance.consume_faucet_payload
    transfer_balance insert
self_delivered = refl

deliver_collect_faucet_self_example :
    supply (deliver_collect_faucet crypto (collection bob) (chain ready)).1
    ≡ supply (chain ready) + 5
unfolding self_issued
deliver_collect_faucet_self_example =
    deliver_collect_faucet_self crypto (collecting bob) self_issued (chain ready) chain-Fits
      bob_not_burn refl self_delivered
