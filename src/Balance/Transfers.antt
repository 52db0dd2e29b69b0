-- ===== src/Balance/Transfers.antt =====
-- What a transfer and a fee write: the balances, and the nonces that order transactions.
use vocdoni_node.Base.{ℕ, ◌+◌, ◌-◌, ◌<◌, ◌≤◌, ◌≡◌, ◌≢◌, refl, inl, inr, Option, none, some, arith}
use vocdoni_node.Base.Bytes.{bytes_equal_iff, bytes_equal_refl}
use vocdoni_node.Base.Words.{u64_mod, add32}
use vocdoni_node.Base.Dict.{lookup, insert, lookup-insert}
use vocdoni_node.Chain.{Account, Address, State, ok, Result-cases}
use vocdoni_node.TxType.{TxType}
use vocdoni_node.Account.{transfer}
use vocdoni_node.Account.Supply.{supply, total-insert}
use vocdoni_node.Balance.Outcomes.{
  transfer_balance-cases, refused, free, paid, spend_fee-cases, write_pair, bump,
}
use vocdoni_node.Balance.{
  burn_address, transfer_balance, effective_cost, spend_fee, burn_tx_cost_increment_nonce,
  state_key,
}

-- The nonce of an account, if there is one.
abbrev pub nonce_in : Option Account → Option ℕ
nonce_in none = none
nonce_in (some acc) = some acc.nonce

abbrev pub nonce_of : Address → State → Option ℕ
nonce_of a s = nonce_in (lookup a s.accounts)

-- The state that a transfer leaves.
pub transfer_balance-eq :
    (from to : Address) (n : ℕ) (s : State) {x y : Account}
    → lookup from s.accounts ≡ some x
    → lookup to s.accounts ≡ some y
    → 0 < n
    → n ≤ x.balance
    → y.balance + n < u64_mod
    → transfer_balance from to n s ≡ (
      ok tt,
      record s {
        accounts =
            insert to
              (record y { balance = y.balance + n })
              (insert from (record x { balance = x.balance - n }) s.accounts);
      },
    )
unfolding transfer_balance transfer
transfer_balance-eq from to n s {x} {y} hx hy pos cover room = ground arith

-- Between two accounts that are there, a positive amount that the sender's balance covers and that
-- does not overflow the receiver's moves: the sender's balance falls by it, the receiver's rises by
-- it, and every other account is as it was.
transfer_balance_moves :
    (from to : Address) (n : ℕ) (s : State) (a : Address) {x y : Account}
    → from ≢ to
    → a ≢ from
    → a ≢ to
    → lookup from s.accounts ≡ some x
    → lookup to s.accounts ≡ some y
    → 0 < n
    → n ≤ x.balance
    → y.balance + n < u64_mod
    → (transfer_balance from to n s).0 ≡ ok tt
      × (lookup from (transfer_balance from to n s).1.accounts
          ≡ some (record x { balance = x.balance - n }))
      × (lookup to (transfer_balance from to n s).1.accounts
          ≡ some (record y { balance = y.balance + n }))
      × (lookup a (transfer_balance from to n s).1.accounts ≡ lookup a s.accounts)
transfer_balance_moves from to n s a {x} {y} ne na nb hx hy pos cover room =
    rw (transfer_balance-eq from to n s hx hy pos cover room) (
      refl,
      simp (lookup-insert, bytes_equal_refl) (ground (arith, bytes_equal_iff to from)),
      simp (lookup-insert, bytes_equal_refl),
      simp lookup-insert (ground (arith, bytes_equal_iff to a, bytes_equal_iff from a)),
    )

-- A transfer that fails has changed nothing.
pub transfer_balance_atomic :
    (from to : Address) (n : ℕ) (s : State)
    → (transfer_balance from to n s).0 ≢ ok tt
    → (transfer_balance from to n s).1 ≡ s
transfer_balance_atomic from to n s h = elim (transfer_balance-cases from to n s) [
  | inl r ↦ rw r.ends
  | inr (m, e) ↦ absurd (h (rw e))
]

-- A transfer from an account to itself is not refused: the second write puts the raised balance
-- in place, so the supply grows by the amount.
pub supply-transfer_balance_self :
    (a : Address) (n : ℕ) (s : State) {x : Account}
    → lookup a s.accounts ≡ some x
    → 0 < n
    → n ≤ x.balance
    → x.balance + n < u64_mod
    → (transfer_balance a a n s).0 ≡ ok tt × (supply (transfer_balance a a n s).1 ≡ supply s + n)
supply-transfer_balance_self a n s {x} hx pos cover room =
    let x₁ : Account = record x { balance = x.balance - n } in
    let x₂ : Account = record x { balance = x.balance + n } in
    rw (transfer_balance-eq a a n s hx hx pos cover room) (
      refl,
      omega (
        arith,
        total-insert a x₁ x s.accounts hx,
        total-insert a x₂ x₁ (insert a x₁ s.accounts) (simp (lookup-insert, bytes_equal_refl)),
      ),
    )

-- A transfer of tokens touches neither account's nonce.
transfer-nonce :
    (x y x' y' : Account) (n : ℕ)
    → transfer x (some y) n ≡ ok (x', y')
    → (x'.nonce ≡ x.nonce) × (y'.nonce ≡ y.nonce)
unfolding transfer
transfer-nonce x y x' y' n h = ground arith

-- A transfer leaves the nonce of its sender alone.
pub nonce_of-transfer_balance :
    (from to : Address) (n : ℕ) (s : State)
    → from ≢ to
    → nonce_of from (transfer_balance from to n s).1 ≡ nonce_of from s
nonce_of-transfer_balance from to n s ne = elim (transfer_balance-cases from to n s) [
  | inl r ↦ rw r.ends
  | inr (m, e) ↦ rw e (
      ground (
        arith,
        m.from_found,
        lookup-insert to from m.y' (insert from m.x' s.accounts),
        lookup-insert from from m.x' s.accounts,
        bytes_equal_refl from,
        bytes_equal_iff to from,
        transfer-nonce m.x m.y m.x' m.y' n m.moved,
      ))
]

-- A fee that is paid adds one to the nonce of its payer, which has an account.
pub nonce_of-spend_fee :
    (a : Address) (fee : ℕ) (s : State)
    → (spend_fee a fee s).0 ≡ ok tt
    → (x : Account) × (lookup a s.accounts ≡ some x)
      × (nonce_of a (spend_fee a fee s).1 ≡ some (add32 x.nonce 1))
nonce_of-spend_fee a fee s h = elim (spend_fee-cases a fee s) [
  | refused r ↦ absurd (ground (arith, r.ends))
  | free r ↦ (r.x, r.found, rw r.ends (simp (lookup-insert, bytes_equal_refl)))
  | paid m e ↦ (
    m.x,
    m.from_found,
    rw e (
        simp (lookup-insert, bytes_equal_refl)
          (ground (arith, transfer-nonce m.x m.y m.x' m.y' fee m.moved))),
  )
]

-- Neither writes anything but accounts.
pub faucet_nonces-transfer_balance :
    (from to : Address) (n : ℕ) (s : State)
    → (transfer_balance from to n s).1.faucet_nonces ≡ s.faucet_nonces
faucet_nonces-transfer_balance from to n s = elim (transfer_balance-cases from to n s) [
  | inl r ↦ rw r.ends
  | inr (m, e) ↦ rw e
]

pub effective_cost-state : (t : TxType) (c : ℕ) (s : State) → (effective_cost t c s).1 ≡ s
unfolding effective_cost state_key
effective_cost-state (TxType.other_tx n) c s = ground arith
effective_cost-state _ c s = ground arith

-- `BurnTxCostIncrementNonce` adds one to the nonce of the account.
pub nonce_of-burn_tx_cost_increment_nonce :
    (a : Address) (t : TxType) (cost : ℕ) (s : State) (n : ℕ)
    → (burn_tx_cost_increment_nonce a t cost s).0 ≡ ok tt
    → nonce_of a s ≡ some n
    → nonce_of a (burn_tx_cost_increment_nonce a t cost s).1 ≡ some (add32 n 1)
unfolding burn_tx_cost_increment_nonce
nonce_of-burn_tx_cost_increment_nonce a t cost s n h hn =
    elim (Result-cases (effective_cost t cost s).0) [
      | inr (e, he) ↦ absurd (ground (arith, he))
      | inl (fee, he) ↦ ground (
        arith,
        he,
        effective_cost-state t cost s,
        nonce_of-spend_fee a fee s (ground (arith, he, effective_cost-state t cost s)),
      )
    ]

-- The state that the payment of a fee leaves.
pub spend_fee-eq :
    (a : Address) (fee : ℕ) (s : State) {x z : Account}
    → lookup a s.accounts ≡ some x
    → lookup burn_address s.accounts ≡ some z
    → 0 < fee
    → fee ≤ x.balance
    → z.balance + fee < u64_mod
    → spend_fee a fee s ≡ (
      ok tt,
      write_pair burn_address
          (record z { balance = z.balance + fee })
          a
          (bump (record x { balance = x.balance - fee }))
          s,
    )
unfolding spend_fee transfer
spend_fee-eq a fee s {x} {z} hx hz pos cover room = ground arith
