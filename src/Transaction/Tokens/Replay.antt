-- ===== src/Transaction/Tokens/Replay.antt =====
-- A token transfer is delivered once.
use vocdoni_node.Base.{ℕ, ◌≡◌, ◌≢◌, inl, inr, true, Option, none, some, arith, Option-cases}
use vocdoni_node.Base.Bytes.{bytes_equal_iff}
use vocdoni_node.Base.Words.{add32}
use vocdoni_node.Chain.{State, ok, err, Result-cases, nonce_mismatch}
use vocdoni_node.Crypto.{Crypto}
use vocdoni_node.TxType
use vocdoni_node.Balance.{burn_tx_cost_increment_nonce}
use vocdoni_node.Balance.Transfers.{
  nonce_of, nonce_of-burn_tx_cost_increment_nonce, nonce_of-transfer_balance,
}
use vocdoni_node.Transaction.Types.{Tx, Payload, SendTokensTx}
use vocdoni_node.Transaction.Faucet.{slice}
use vocdoni_node.Transaction.Nonce.{check_account_nonce}
use vocdoni_node.Transaction.Tokens.{
  get_send_tokens, send_tokens_tx_check, deliver_send_tokens, check_send_tokens,
}

-- What a passed check says of the transaction: it is signed by its sender, who is not its receiver.
pub record Sent (c : Crypto) (vtx : Tx) : Type 0 where
  pub tx : SendTokensTx
  pub payload : vtx.payload ≡ some (Payload.send_tokens tx)
  pub signed :
      c.addr_from_signature (slice vtx.signed_body) (slice vtx.signature)
      ≡ some (c.bytes_to_address tx.from)
  pub apart : c.bytes_to_address tx.from ≢ c.bytes_to_address tx.to

pub get_send_tokens-payload :
    (p : Option Payload) (tx : SendTokensTx)
    → get_send_tokens p ≡ some tx
    → p ≡ some (Payload.send_tokens tx)
unfolding get_send_tokens
get_send_tokens-payload none tx h = ground arith
get_send_tokens-payload (some p) tx h = ground arith

pub send_tokens_tx_check-Sent :
    (c : Crypto) (vtx : Tx) (s : State) → (send_tokens_tx_check c vtx s).0 ≡ ok tt → Sent c vtx
unfolding send_tokens_tx_check
send_tokens_tx_check-Sent c vtx s h = elim (Option-cases (get_send_tokens vtx.payload)) [
  | inl e ↦ absurd (ground (arith, e))
  | inr (tx, e) ↦
      elim (Option-cases (c.addr_from_signature (slice vtx.signed_body) (slice vtx.signature))) [
        | inl none_signed ↦ absurd (ground (arith, e, none_signed))
        | inr (sender, he) ↦ record {
          tx = tx;
          payload = get_send_tokens-payload vtx.payload tx e;
          signed = ground (arith, e, he, bytes_equal_iff (c.bytes_to_address tx.from) sender);
          apart = ground (
            arith,
            e,
            he,
            bytes_equal_iff (c.bytes_to_address tx.from) (c.bytes_to_address tx.to),
          );
        }
      ]
]

pub send_tokens_tx_check-state :
    (c : Crypto) (vtx : Tx) (s : State) → (send_tokens_tx_check c vtx s).1 ≡ s
unfolding send_tokens_tx_check
send_tokens_tx_check-state c vtx s = ground arith

pub check_account_nonce-state :
    (c : Crypto) (vtx : Tx) (s : State) → (check_account_nonce c vtx s).1 ≡ s
unfolding check_account_nonce
check_account_nonce-state c vtx s = ground arith

-- For a transfer of tokens the nonce is compared with that of the sender's account.
check_account_nonce-send :
    (c : Crypto) (vtx : Tx) (s : State) (sent : Sent c vtx)
    → (check_account_nonce c vtx s).0 ≡ ok tt
    → nonce_of (c.bytes_to_address sent.tx.from) s ≡ some sent.tx.nonce
unfolding check_account_nonce
check_account_nonce-send c vtx s sent h = ground (arith, sent.payload, sent.signed)

-- A delivered transfer moves the nonce of its sender on.
nonce_of-deliver_send_tokens :
    (c : Crypto) (tx : SendTokensTx) (s : State) (n : ℕ)
    → c.bytes_to_address tx.from ≢ c.bytes_to_address tx.to
    → nonce_of (c.bytes_to_address tx.from) s ≡ some n
    → (deliver_send_tokens c tx s).0 ≡ ok tt
    → nonce_of (c.bytes_to_address tx.from) (deliver_send_tokens c tx s).1 ≡ some (add32 n 1)
unfolding deliver_send_tokens
nonce_of-deliver_send_tokens c tx s n ne hn h =
    let from = c.bytes_to_address tx.from in
    let fee = burn_tx_cost_increment_nonce from TxType.send_tokens 0 s in
    elim (Result-cases fee.0) [
      | inr (e, he) ↦ absurd (ground (arith, he))
      | inl (_, he) ↦ ground (
        arith,
        he,
        nonce_of-burn_tx_cost_increment_nonce from TxType.send_tokens 0 s n,
        nonce_of-transfer_balance from (c.bytes_to_address tx.to) tx.value fee.1,
      )
    ]

-- The nonce of a sender that has moved on refuses the transaction.
check_account_nonce_stale :
    (c : Crypto) (vtx : Tx) (s : State) (sent : Sent c vtx)
    → nonce_of (c.bytes_to_address sent.tx.from) s ≡ some (add32 sent.tx.nonce 1)
    → (check_account_nonce c vtx s).0 ≡ err nonce_mismatch
unfolding check_account_nonce
check_account_nonce_stale c vtx s sent h = ground (arith, sent.payload, sent.signed)

-- An accepted transaction passed both checks and was delivered from the same state.
pub check_send_tokens-accepted :
    (c : Crypto) (vtx : Tx) (s : State)
    → (check_send_tokens c vtx true s).0 ≡ ok tt
    → (sent : Sent c vtx) × ((check_account_nonce c vtx s).0 ≡ ok tt)
      × ((send_tokens_tx_check c vtx s).0 ≡ ok tt)
      × (check_send_tokens c vtx true s ≡ deliver_send_tokens c sent.tx s)
unfolding check_send_tokens get_send_tokens
check_send_tokens-accepted c vtx s h =
    let same₁ = check_account_nonce-state c vtx s in
    let same₂ = send_tokens_tx_check-state c vtx s in
    elim (Result-cases (check_account_nonce c vtx s).0) [
      | inr (e, he) ↦ absurd (ground (arith, he))
      | inl (_, he) ↦ elim (Result-cases (send_tokens_tx_check c vtx s).0) [
        | inr (e', he') ↦ absurd (ground (arith, he, he', same₁))
        | inl (_, he') ↦
            let sent = send_tokens_tx_check-Sent c vtx s (ground (arith, he')) in
            (
              sent,
              ground (arith, he),
              ground (arith, he'),
              ground (arith, he, he', same₁, same₂, sent.payload),
            )
      ]
    ]

-- A SendTokens transaction that was delivered is refused, by its nonce, when it is delivered again.
pub send_tokens_no_replay :
    (c : Crypto) (vtx : Tx) (s : State)
    → (check_send_tokens c vtx true s).0 ≡ ok tt
    → (check_send_tokens c vtx true (check_send_tokens c vtx true s).1).0 ≡ err nonce_mismatch
unfolding check_send_tokens
send_tokens_no_replay c vtx s h =
    let (sent, fresh, passed, same) = check_send_tokens-accepted c vtx s h in
    let s' = (check_send_tokens c vtx true s).1 in
    let moved =
      nonce_of-deliver_send_tokens c sent.tx s sent.tx.nonce sent.apart
        (check_account_nonce-send c vtx s sent fresh) (ground (arith, same, h)) in
    ground (arith, check_account_nonce_stale c vtx s' sent (rw same moved))
