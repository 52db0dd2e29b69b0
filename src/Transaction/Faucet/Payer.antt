-- ===== src/Transaction/Faucet/Payer.antt =====
-- What `checkAccountCanPayCost` establishes, and that it changes nothing.
use vocdoni_node.Base.{
  ℕ, ◌≡◌, refl, inl, inr, false, Option, none, some, arith, ltb, Bool-cases, Option-cases,
}
use vocdoni_node.Base.Dict.{lookup}
use vocdoni_node.Chain.{State, Address, Account, Result-cases, ok}
use vocdoni_node.Crypto.{Crypto}
use vocdoni_node.TxType.{TxType}
use vocdoni_node.Account.{require_account}
use vocdoni_node.Balance.{effective_cost}
use vocdoni_node.Balance.Transfers.{effective_cost-state}
use vocdoni_node.Transaction.Types.{FaucetPackage, Payload, Tx, payload_faucet_package}
use vocdoni_node.Transaction.Faucet.{
  slice, check_faucet_package_and_transfer, check_account_can_pay_cost,
}
use vocdoni_node.Transaction.Faucet.Once.{verify_faucet_package-state}

pub unpaid-state :
    (c : Crypto) (pkg : Option FaucetPackage) (cost : ℕ) (sender : Address) (s : State)
    → (check_faucet_package_and_transfer c pkg cost sender false s).1 ≡ s
unfolding check_faucet_package_and_transfer
unpaid-state c none cost sender s = refl
unpaid-state c (some pkg) cost sender s =
    ground (arith, verify_faucet_package-state c pkg cost sender s)

pub can_pay-state :
    (c : Crypto) (t : TxType) (vtx : Tx) (payload : Payload) (asked : ℕ) (s : State)
    → (check_account_can_pay_cost c t vtx payload asked s).1 ≡ s
unfolding check_account_can_pay_cost require_account
can_pay-state c t vtx payload asked s = elim (Result-cases (effective_cost t asked s).0) [
  | inr (e, h) ↦ ground (arith, h, effective_cost-state t asked s)
  | inl (cost, h) ↦
      elim (Option-cases (c.addr_from_signature (slice vtx.signed_body) (slice vtx.signature))) [
        | inl e ↦ ground (arith, e)
        | inr (sender, k) ↦ ground (
          arith,
          h,
          k,
          effective_cost-state t asked s,
          unpaid-state c (payload_faucet_package payload) cost sender s,
        )
      ]
]

-- The payer signed the transaction and has an account.
pub record Payer (c : Crypto) (vtx : Tx) (acc : Account) (sender : Address) (s : State)
    : Type 0 where
  pub signed : c.addr_from_signature (slice vtx.signed_body) (slice vtx.signature) ≡ some sender
  pub found : lookup sender s.accounts ≡ some acc

pub can_pay-Payer :
    (c : Crypto) (t : TxType) (vtx : Tx) (payload : Payload) (asked : ℕ) (s : State) (acc : Account)
    (sender : Address)
    → (check_account_can_pay_cost c t vtx payload asked s).0 ≡ ok (acc, sender)
    → Payer c vtx acc sender s
unfolding check_account_can_pay_cost require_account
can_pay-Payer c t vtx payload asked s acc sender h =
    elim (Option-cases (c.addr_from_signature (slice vtx.signed_body) (slice vtx.signature))) [
      | inl e ↦ absurd (ground (arith, h, e))
      | inr (a, k) ↦ elim (Option-cases (lookup a s.accounts)) [
        | inl e ↦ absurd (ground (arith, h, k, e))
        | inr (x, e) ↦ elim (Result-cases (effective_cost t asked s).0) [
          | inr (z, m) ↦ absurd (ground (arith, h, k, e, m, effective_cost-state t asked s))
          | inl (cost, m) ↦
              let same = effective_cost-state t asked s in
              let same' = unpaid-state c (payload_faucet_package payload) cost a s in
              elim (Bool-cases (ltb 0 cost)) [
                | inr q ↦ record {
                  signed = ground (arith, h, k, e, m, same, q);
                  found = ground (arith, h, k, e, m, same, q);
                }
                | inl q ↦
                    elim (Result-cases
                      (check_faucet_package_and_transfer c (payload_faucet_package payload) cost a
                        false s).0) [
                          | inr (z, n) ↦ absurd (ground (arith, h, k, e, m, same, same', q, n))
                          | inl (z, n) ↦ record {
                            signed = ground (arith, h, k, e, m, same, same', q, n);
                            found = ground (arith, h, k, e, m, same, same', q, n);
                          }
                        ]
              ]
        ]
      ]
    ]
