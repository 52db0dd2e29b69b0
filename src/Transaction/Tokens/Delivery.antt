-- ===== src/Transaction/Tokens/Delivery.antt =====
-- What a delivered transfer of tokens does to the balances.
use vocdoni_node.Base.{ℕ, ◌+◌, ◌-◌, ◌<◌, ◌≤◌, ◌≡◌, ◌≢◌, refl, ◌∙◌, ap, inl, inr, Bool, some, arith}
use vocdoni_node.Base.Bytes.{bytes_equal_iff, bytes_equal_refl}
use vocdoni_node.Base.Words.{u64_mod}
use vocdoni_node.Base.Dict.{lookup, lookup-insert}
use vocdoni_node.Chain.{Address, Account, State, ok, Result-cases}
use vocdoni_node.Crypto.{Crypto}
use vocdoni_node.TxType
use vocdoni_node.Account.Supply.{Fits}
use vocdoni_node.Balance.{burn_address, tx_base_cost, effective_cost, burn_tx_cost_increment_nonce}
use vocdoni_node.Balance.Outcomes.{bump, write_pair}
use vocdoni_node.Balance.Transfers.{spend_fee-eq, transfer_balance-eq}
use vocdoni_node.Balance.Conservation.{
  Conserves, transfer_balance-Conserves, burn_tx_cost_increment_nonce-Conserves,
}
use vocdoni_node.Transaction.Types.{SendTokensTx, Tx}
use vocdoni_node.Transaction.Faucet.{slice}
use vocdoni_node.Transaction.Tokens.{
  deliver_send_tokens, check_send_tokens, send_tokens_tx_check, get_send_tokens,
}
use vocdoni_node.Transaction.Tokens.Replay.{
  send_tokens_tx_check-Sent, send_tokens_tx_check-state, check_account_nonce-state,
}

abbrev plus : Account → ℕ → Account
plus x n = record x { balance = x.balance + n }

abbrev minus : Account → ℕ → Account
minus x n = record x { balance = x.balance - n }

effective_cost-zero :
    (s : State) (cost : ℕ)
    → (tx_base_cost TxType.send_tokens s).0 ≡ ok cost
    → effective_cost TxType.send_tokens 0 s ≡ (ok cost, s)
unfolding effective_cost tx_base_cost
effective_cost-zero s cost h = ground arith

-- The three accounts of a delivered transfer are written once or twice.
deliver_send_tokens-eq :
    (c : Crypto) (tx : SendTokensTx) (s : State) (cost : ℕ) {x y z : Account}
    → let from = c.bytes_to_address tx.from in
      let to = c.bytes_to_address tx.to in
      from ≢ to
      → to ≢ burn_address
      → lookup from s.accounts ≡ some x
      → lookup to s.accounts ≡ some y
      → lookup burn_address s.accounts ≡ some z
      → (tx_base_cost TxType.send_tokens s).0 ≡ ok cost
      → 0 < cost
      → 0 < tx.value
      → tx.value + cost ≤ x.balance
      → y.balance + tx.value < u64_mod
      → z.balance + cost < u64_mod
      → deliver_send_tokens c tx s ≡ (
        ok tt,
        write_pair from
            (minus (bump (minus x cost)) tx.value)
            to
            (plus y tx.value)
            (write_pair burn_address (plus z cost) from (bump (minus x cost)) s),
      )
unfolding deliver_send_tokens burn_tx_cost_increment_nonce
deliver_send_tokens-eq c tx s cost {x} {y} {z} ft tb hx hy hz hc pc pv cover ry rz =
    let from = c.bytes_to_address tx.from in
    let to = c.bytes_to_address tx.to in
    let s₁ = write_pair burn_address (plus z cost) from (bump (minus x cost)) s in
    ground (
      arith,
      effective_cost-zero s cost hc,
      spend_fee-eq from cost s hx hz pc (omega arith) rz,
      transfer_balance-eq from to tx.value s₁ {x = bump (minus x cost)} {y = y}
          (simp (lookup-insert, bytes_equal_refl))
          (simp lookup-insert
            (ground (arith, bytes_equal_iff from to, bytes_equal_iff burn_address to)))
          pv (omega arith) ry,
    )

-- Where the sender, the receiver and the burn address are three different addresses that have
-- accounts, the base cost and the value are above 0, the balance of the sender covers both, and the
-- two credited balances stay within 64 bits, the delivery of a transfer succeeds: it takes the value
-- and the cost from the sender and raises the nonce, gives the value to the receiver and the cost to
-- the burn address, and leaves the account of every fourth address alone.
pub deliver_send_tokens_moves :
    (c : Crypto) (tx : SendTokensTx) (s : State) (cost : ℕ) (a : Address) {x y z : Account}
    → let from = c.bytes_to_address tx.from in
      let to = c.bytes_to_address tx.to in
      from ≢ to
      → from ≢ burn_address
      → to ≢ burn_address
      → a ≢ from
      → a ≢ to
      → a ≢ burn_address
      → lookup from s.accounts ≡ some x
      → lookup to s.accounts ≡ some y
      → lookup burn_address s.accounts ≡ some z
      → (tx_base_cost TxType.send_tokens s).0 ≡ ok cost
      → 0 < cost
      → 0 < tx.value
      → tx.value + cost ≤ x.balance
      → y.balance + tx.value < u64_mod
      → z.balance + cost < u64_mod
      → let (r, s') = deliver_send_tokens c tx s in
        (r ≡ ok tt)
        × (lookup from s'.accounts
            ≡ some (bump (record x { balance = x.balance - cost - tx.value })))
        × (lookup to s'.accounts ≡ some (record y { balance = y.balance + tx.value }))
        × (lookup burn_address s'.accounts ≡ some (record z { balance = z.balance + cost }))
        × (lookup a s'.accounts ≡ lookup a s.accounts)
deliver_send_tokens_moves c tx s cost a {x} {y} {z} ft fb tb na nt nb hx hy hz hc pc pv cover ry
      rz =
    let from = c.bytes_to_address tx.from in
    let to = c.bytes_to_address tx.to in
    rw (deliver_send_tokens-eq c tx s cost ft tb hx hy hz hc pc pv cover ry rz) (
      refl,
      simp (lookup-insert, bytes_equal_refl) (ground (arith, bytes_equal_iff to from)),
      simp (lookup-insert, bytes_equal_refl),
      simp (lookup-insert, bytes_equal_refl)
          (ground (arith, bytes_equal_iff to burn_address, bytes_equal_iff from burn_address)),
      simp lookup-insert (
          ground
            (arith, bytes_equal_iff to a, bytes_equal_iff from a, bytes_equal_iff burn_address a)),
    )

deliver_send_tokens-Conserves :
    (c : Crypto) (tx : SendTokensTx) (s : State)
    → c.bytes_to_address tx.from ≢ burn_address
    → c.bytes_to_address tx.from ≢ c.bytes_to_address tx.to
    → Fits s.accounts
    → Conserves s (deliver_send_tokens c tx s).1
unfolding deliver_send_tokens
deliver_send_tokens-Conserves c tx s nb ne f =
    let from = c.bytes_to_address tx.from in
    let fee = burn_tx_cost_increment_nonce from TxType.send_tokens 0 s in
    let kept = burn_tx_cost_increment_nonce-Conserves from TxType.send_tokens 0 s nb f in
    elim (Result-cases fee.0) [
      | inr (e, he) ↦ ground (arith, he, kept)
      | inl (_, he) ↦
          let moved =
            transfer_balance-Conserves from (c.bytes_to_address tx.to) tx.value fee.1 ne kept.1 in
          ground (arith, he, kept, moved)
    ]

-- Delivering a SendTokens transaction, whether it is accepted or refused on the way, keeps the
-- supply of tokens and the bounds of the balances, unless the burn address signed it.
pub check_send_tokens-Conserves :
    (c : Crypto) (vtx : Tx) (commit : Bool) (s : State)
    → c.addr_from_signature (slice vtx.signed_body) (slice vtx.signature) ≢ some burn_address
    → Fits s.accounts
    → Conserves s (check_send_tokens c vtx commit s).1
unfolding check_send_tokens get_send_tokens
check_send_tokens-Conserves c vtx commit s nb f =
    let same₁ = check_account_nonce-state c vtx s in
    let same₂ = send_tokens_tx_check-state c vtx s in
    elim (Result-cases (send_tokens_tx_check c vtx s).0) [
      | inr (e, he) ↦ ground (arith, he, same₁, same₂)
      | inl (_, he) ↦
          let sent = send_tokens_tx_check-Sent c vtx s (ground (arith, he)) in
          let kept =
            deliver_send_tokens-Conserves c sent.tx s (λ e. nb (sent.signed ∙ ap some e)) sent.apart
              f in
          ground (arith, he, same₁, same₂, sent.payload, kept)
    ]
