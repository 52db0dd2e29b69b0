-- ===== src/Balance/Conservation.antt =====
-- Tokens are neither made nor lost by a transfer between two accounts, nor by the burning of a fee.
use vocdoni_node.Base.{ℕ, ◌+◌, ◌≡◌, ◌≢◌, refl, inl, inr, some, arith, sym, ◌<◌}
use vocdoni_node.Base.Bytes.{Bytes, bytes_equal_iff}
use vocdoni_node.Base.Words.{u64_mod}
use vocdoni_node.Base.Dict.{Dict, lookup, insert, lookup-insert}
use vocdoni_node.Chain.{Account, Address, State, ok, Result-cases}
use vocdoni_node.TxType.{TxType}
use vocdoni_node.Account.{transfer}
use vocdoni_node.Account.Supply.{total, supply, total-insert, Fits, Fits-lookup, Fits-insert}
use vocdoni_node.Balance.Transfers.{effective_cost-state}
use vocdoni_node.Balance.Outcomes.{
  Moved, transfer_balance-cases, refused, free, paid, spend_fee-cases, write_pair, bump,
}
use vocdoni_node.Balance.{
  burn_address, transfer_balance, effective_cost, spend_fee, burn_tx_cost_increment_nonce,
}

-- Two accounts that are found, and that change their balances by what one loses and the other gets.
pub total-insert_pair :
    (j k : Bytes) (x y x' y' : Account) (d : Dict Account)
    → j ≢ k
    → lookup j d ≡ some x
    → lookup k d ≡ some y
    → x'.balance + y'.balance ≡ x.balance + y.balance
    → total (insert k y' (insert j x' d)) ≡ total d
total-insert_pair j k x y x' y' d ne hx hy e = ground (
  arith,
  total-insert j x' x d,
  total-insert k y' y (insert j x' d),
  lookup-insert j k x' d,
  bytes_equal_iff j k,
)

-- A transfer keeps the sum of the two balances, and both are words.
transfer-balance :
    (x y x' y' : Account) (n : ℕ)
    → x.balance < u64_mod
    → y.balance < u64_mod
    → transfer x (some y) n ≡ ok (x', y')
    → (x'.balance + y'.balance ≡ x.balance + y.balance)
      × (x'.balance < u64_mod)
      × (y'.balance < u64_mod)
unfolding transfer
transfer-balance x y x' y' n hx hy h = ground arith

-- A call that began at `s` and ended at `s'` kept the supply, and all balances are words.
abbrev pub Conserves : State → State → Type 0
Conserves s s' = (supply s' ≡ supply s) × Fits s'.accounts

-- The two writes of a transfer, with any change to the sender but its balance.
write_pair-Conserves :
    (from to : Address) (n : ℕ) (s : State) (m : Moved from to n s)
    → from ≢ to
    → Fits s.accounts
    → Conserves s (write_pair from m.x' to m.y' s)
      × Conserves s (write_pair to m.y' from (bump m.x') s)
write_pair-Conserves from to n s m ne f =
    let facts =
      transfer-balance m.x m.y m.x' m.y' n (Fits-lookup from m.x s.accounts f m.from_found)
        (Fits-lookup to m.y s.accounts f m.to_found) m.moved in
    (
      (
        total-insert_pair from to m.x m.y m.x' m.y' s.accounts ne m.from_found m.to_found facts.0,
        Fits-insert to m.y' (insert from m.x' s.accounts)
            (Fits-insert from m.x' s.accounts f facts.1) facts.2,
      ),
      (
        total-insert_pair to from m.y m.x m.y' (bump m.x') s.accounts (λ e. ne (sym e)) m.to_found
            m.from_found (omega (arith, facts.0)),
        Fits-insert from (bump m.x') (insert to m.y' s.accounts)
            (Fits-insert to m.y' s.accounts f facts.2) facts.1,
      ),
    )

-- Between two different accounts a transfer, done or refused, keeps the supply, and every balance
-- stays a `uint64`.
pub transfer_balance-Conserves :
    (from to : Address) (n : ℕ) (s : State)
    → from ≢ to
    → Fits s.accounts
    → Conserves s (transfer_balance from to n s).1
transfer_balance-Conserves from to n s ne f = elim (transfer_balance-cases from to n s) [
  | inl r ↦ rw r.ends (refl, f)
  | inr (m, e) ↦ rw e (write_pair-Conserves from to n s m ne f).0
]

spend_fee-Conserves :
    (a : Address) (fee : ℕ) (s : State)
    → a ≢ burn_address
    → Fits s.accounts
    → Conserves s (spend_fee a fee s).1
spend_fee-Conserves a fee s ne f = elim (spend_fee-cases a fee s) [
  | refused r ↦ rw r.ends (refl, f)
  | free r ↦ rw r.ends (
    omega (arith, total-insert a (bump r.x) r.x s.accounts r.found),
    Fits-insert a (bump r.x) s.accounts f (Fits-lookup a r.x s.accounts f r.found),
  )
  | paid m e ↦ rw e (write_pair-Conserves a burn_address fee s m ne f).1
]

-- Paying the fee of a transaction moves it to the burn address, or fails and keeps every token.
pub burn_tx_cost_increment_nonce-Conserves :
    (a : Address) (t : TxType) (c : ℕ) (s : State)
    → a ≢ burn_address
    → Fits s.accounts
    → Conserves s (burn_tx_cost_increment_nonce a t c s).1
unfolding burn_tx_cost_increment_nonce
burn_tx_cost_increment_nonce-Conserves a t c s ne f = elim (Result-cases (effective_cost t c s).0) [
  | inl (fee, h) ↦ ground (arith, h, effective_cost-state t c s, spend_fee-Conserves a fee s ne f)
  | inr (e, h) ↦ ground (arith, h, effective_cost-state t c s)
]
