-- ===== src/Transaction/Tokens/SelfIssued.antt =====
-- A faucet package that its receiver issued.
use vocdoni_node.Base.{ℕ, ◌+◌, ◌<◌, ◌≤◌, ◌≡◌, ◌≢◌, inl, inr, some, arith}
use vocdoni_node.Base.Words.{u64_mod}
use vocdoni_node.Chain.{Account, Address, State, ok}
use vocdoni_node.Crypto.{Crypto}
use vocdoni_node.TxType
use vocdoni_node.Account.{transfer}
use vocdoni_node.Account.Supply.{supply, Fits, Fits-lookup}
use vocdoni_node.Balance.{
  burn_address, consume_faucet_payload, burn_tx_cost_increment_nonce, transfer_balance,
}
use vocdoni_node.Balance.Outcomes.{transfer_balance-cases}
use vocdoni_node.Balance.Transfers.{supply-transfer_balance_self}
use vocdoni_node.Balance.Conservation.{burn_tx_cost_increment_nonce-Conserves}
use vocdoni_node.Transaction.Types.{Tx}
use vocdoni_node.Transaction.Faucet.{slice}
use vocdoni_node.Transaction.Tokens.{deliver_collect_faucet}
use vocdoni_node.Transaction.Tokens.Collect.{Collected}

-- The bounds that a transfer from an account to itself has passed.
transfer_passed :
    (x y x' y' : Account) (n : ℕ)
    → x.balance < u64_mod
    → y.balance < u64_mod
    → transfer x (some y) n ≡ ok (x', y')
    → (0 < n) × (n ≤ x.balance) × (y.balance + n < u64_mod)
unfolding transfer
transfer_passed x y x' y' n hx hy h = ground arith

self_transfer_mints :
    (a : Address) (n : ℕ) (s : State)
    → Fits s.accounts
    → (transfer_balance a a n s).0 ≡ ok tt
    → supply (transfer_balance a a n s).1 ≡ supply s + n
self_transfer_mints a n s fits h = elim (transfer_balance-cases a a n s) [
  | inl r ↦ absurd (ground (arith, r.ends, h))
  | inr (m, e) ↦
      let hx = Fits-lookup a m.x s.accounts fits m.from_found in
      let hy = Fits-lookup a m.y s.accounts fits m.to_found in
      let p = transfer_passed m.x m.y m.x' m.y' n hx hy m.moved in
      (supply-transfer_balance_self a n s m.to_found p.0
        (ground (arith, p, m.from_found, m.to_found)) p.2).1
]

-- Delivering a CollectFaucet transaction whose package was issued by its own receiver, not the burn
-- address, adds the amount of the package to the supply of tokens, when it succeeds.
pub deliver_collect_faucet_self :
    (c : Crypto) (vtx : Tx) (k : Collected c vtx) (s : State)
    → Fits s.accounts
    → k.issuer ≢ burn_address
    → c.bytes_to_address (slice k.payload.to) ≡ k.issuer
    → (deliver_collect_faucet c k.tx s).0 ≡ ok tt
    → supply (deliver_collect_faucet c k.tx s).1 ≡ supply s + k.payload.amount
unfolding deliver_collect_faucet consume_faucet_payload
deliver_collect_faucet_self c vtx k s fits ne self h =
    let fee = burn_tx_cost_increment_nonce k.issuer TxType.collect_faucet 0 s in
    let kept = burn_tx_cost_increment_nonce-Conserves k.issuer TxType.collect_faucet 0 s ne fits in
    let marked = (consume_faucet_payload c k.issuer k.payload fee.1).1 in
    let minted = self_transfer_mints k.issuer k.payload.amount marked kept.1 in
    ground (
      arith, k.has_package, k.has_signature, k.has_payload, k.decoded, k.signed, h, kept, minted,
      self,
    )
