-- ===== src/Transaction/Faucet/Frame.antt =====
-- Paying changes accounts and used faucet packages, and nothing else.
use vocdoni_node.Base.{
  ℕ, ◌≡◌, ◌∙◌, refl, ap, sym, subst, Bool-cases, inl, inr, Bool, true, Option, none, some, arith,
}
use vocdoni_node.Chain.{State, Address, Result-cases}
use vocdoni_node.Crypto.{Crypto}
use vocdoni_node.TxType.{TxType}
use vocdoni_node.Balance.{
  transfer_balance, consume_faucet_payload, effective_cost, spend_fee, burn_tx_cost_increment_nonce,
}
use vocdoni_node.Balance.Outcomes.{transfer_balance-cases, refused, free, paid, spend_fee-cases}
use vocdoni_node.Balance.Transfers.{effective_cost-state}
use vocdoni_node.Transaction.Types.{FaucetPackage}
use vocdoni_node.Transaction.Faucet.{
  Verified, verify_faucet_package, settle_faucet_package, check_faucet_package_and_transfer, pay,
}
use vocdoni_node.Transaction.Faucet.Once.{verify_faucet_package-state}

-- The second state is the first one with other accounts and other used packages.
abbrev pub Frame : State → State → Type 0
Frame s s' = s' ≡ record s { accounts = s'.accounts; faucet_nonces = s'.faucet_nonces }

abbrev with_paid : State → State → State
with_paid s t = record t { accounts = s.accounts; faucet_nonces = s.faucet_nonces }

pub Frame-trans : (s s' s'' : State) → Frame s s' → Frame s' s'' → Frame s s''
Frame-trans s s' s'' f g = g ∙ ap (with_paid s'') f

-- Along an equation.
pub Frame-at : (s s' s'' : State) → s' ≡ s'' → Frame s s'' → Frame s s'
Frame-at s s' s'' e f = subst (Frame s) (sym e) f

pub transfer_balance-Frame :
    (from to : Address) (n : ℕ) (s : State) → Frame s (transfer_balance from to n s).1
transfer_balance-Frame from to n s = elim (transfer_balance-cases from to n s) [
  | inl r ↦ rw r.ends refl
  | inr (m, e) ↦ rw e refl
]

spend_fee-Frame : (a : Address) (fee : ℕ) (s : State) → Frame s (spend_fee a fee s).1
spend_fee-Frame a fee s = elim (spend_fee-cases a fee s) [
  | refused r ↦ rw r.ends refl
  | free r ↦ rw r.ends refl
  | paid m e ↦ rw e refl
]

pub burn_tx_cost_increment_nonce-Frame :
    (a : Address) (t : TxType) (cost : ℕ) (s : State)
    → Frame s (burn_tx_cost_increment_nonce a t cost s).1
unfolding burn_tx_cost_increment_nonce
burn_tx_cost_increment_nonce-Frame a t cost s = elim (Result-cases (effective_cost t cost s).0) [
  | inl (fee, h) ↦
      Frame-at s (burn_tx_cost_increment_nonce a t cost s).1 (spend_fee a fee s).1
        (ground (arith, h, effective_cost-state t cost s)) (spend_fee-Frame a fee s)
  | inr (e, h) ↦
      Frame-at s (burn_tx_cost_increment_nonce a t cost s).1 s
        (ground (arith, h, effective_cost-state t cost s)) refl
]

settle-Frame :
    (c : Crypto) (v : Verified) (sender : Address) (s : State)
    → Frame s (settle_faucet_package c v sender s).1
unfolding settle_faucet_package consume_faucet_payload
settle-Frame c v sender s =
    let s' = (consume_faucet_payload c v.issuer v.payload s).1 in
    Frame-trans s s' (settle_faucet_package c v sender s).1 refl
      (transfer_balance-Frame v.issuer sender v.payload.amount s')

pub check_faucet-Frame :
    (c : Crypto) (pkg : Option FaucetPackage) (cost : ℕ) (sender : Address) (b : Bool) (s : State)
    → Frame s (check_faucet_package_and_transfer c pkg cost sender b s).1
unfolding check_faucet_package_and_transfer
check_faucet-Frame c none cost sender b s = refl
check_faucet-Frame c (some pkg) cost sender b s =
    let same = verify_faucet_package-state c pkg cost sender s in
    let all = (check_faucet_package_and_transfer c (some pkg) cost sender b s).1 in
    elim (Result-cases (verify_faucet_package c pkg cost sender s).0) [
      | inr (e, h) ↦ Frame-at s all s (ground (arith, h, same)) refl
      | inl (v, h) ↦ elim (Bool-cases b) [
        | inr d ↦ Frame-at s all s (ground (arith, h, same, d)) refl
        | inl d ↦ elim (Result-cases (settle_faucet_package c v sender s).0) [
          | inl (u, k) ↦
              Frame-at s all (settle_faucet_package c v sender s).1 (ground (arith, h, same, d, k))
                (settle-Frame c v sender s)
          | inr (u, k) ↦
              Frame-at s all (settle_faucet_package c v sender s).1 (ground (arith, h, same, d, k))
                (settle-Frame c v sender s)
        ]
      ]
    ]

-- Paying, done or refused, changes nothing but accounts and used packages.
pub pay-Frame :
    (c : Crypto) (pkg : Option FaucetPackage) (sender : Address) (t : TxType) (cost : ℕ) (s : State)
    → Frame s (pay c pkg sender t cost s).1
unfolding pay
pay-Frame c pkg sender t cost s =
    let s' = (check_faucet_package_and_transfer c pkg cost sender true s).1 in
    let first = check_faucet-Frame c pkg cost sender true s in
    elim (Result-cases (check_faucet_package_and_transfer c pkg cost sender true s).0) [
      | inr (e, h) ↦ Frame-at s (pay c pkg sender t cost s).1 s' (ground (arith, h)) first
      | inl (u, h) ↦
          Frame-at s (pay c pkg sender t cost s).1 (burn_tx_cost_increment_nonce sender t cost s').1
            (ground (arith, h))
            (Frame-trans s s' (burn_tx_cost_increment_nonce sender t cost s').1 first
              (burn_tx_cost_increment_nonce-Frame sender t cost s'))
    ]
