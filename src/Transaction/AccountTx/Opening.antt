-- ===== src/Transaction/AccountTx/Opening.antt =====
-- Creating an account: only where there is none, and without making or losing tokens.
use vocdoni_node.Base.{
  ℕ, ◌≡◌, ◌≢◌, ◌∙◌, refl, inl, inr, ap, sym, subst, Bool, true, false, not, Option, none, some,
  List, [], ◌&&◌, if◌then◌else◌, arith, ltb, ◌==◌, Bool-cases, Option-cases,
}
use vocdoni_node.Base.Bytes.{Bytes, bytes_equal_refl}
use vocdoni_node.Base.Dict.{lookup, lookup-insert}
use vocdoni_node.Chain.{State, Account, Address, Result-cases, ok}
use vocdoni_node.Crypto.{Crypto}
use vocdoni_node.TxType.{TxType}
use vocdoni_node.Account.{get_account, set_account, account_balance, create_account, max_url_length}
use vocdoni_node.Base.Lists.{length}
use vocdoni_node.Account.Supply.{total, total-insert_new, Fits, Fits-insert}
use vocdoni_node.Balance.{burn_address, tx_base_cost, burn_tx_cost, consume_faucet_payload}
use vocdoni_node.Balance.Conservation.{Conserves, transfer_balance-Conserves}
use vocdoni_node.Sik.{set_address_sik}
use vocdoni_node.Transaction.Types.{FaucetPackage, Tx, SetAccountTx}
use vocdoni_node.Transaction.Faucet.{
  slice, Verified, verify_faucet_package, settle_faucet_package, check_faucet_package_and_transfer,
}
use vocdoni_node.Transaction.Faucet.Once.{verify_faucet_package-state}
use vocdoni_node.Transaction.Faucet.Payer.{unpaid-state}
use vocdoni_node.Transaction.Nonce.{check_account_nonce}
use vocdoni_node.Transaction.Tokens.Replay.{check_account_nonce-state}
use vocdoni_node.Transaction.AccountTx.{get_set_account, sender_of, absent, create_account_tx_check}
use vocdoni_node.Transaction.AccountTx.Delivery.{
  set_optional_sik, settle_account, deliver_create_account, check_by_type, deliver_by_type,
  check_set_account,
}

Conserves-trans : (s s' s'' : State) → Conserves s s' → Conserves s' s'' → Conserves s s''
Conserves-trans s s' s'' f g = (g.0 ∙ f.0, g.1)

-- The account that is made.
abbrev new_account : Bytes → List Bytes → Account
new_account uri delegates = record {
  nonce = 0;
  info_uri = if not (length uri == 0) && not (ltb max_url_length (length uri)) then uri else [];
  balance = 0;
  delegate_addrs = delegates;
  process_index = 0;
}

-- An account without tokens.
abbrev Poor : Address → State → Type 0
Poor a s = (acc : Account) × (lookup a s.accounts ≡ some acc) × (acc.balance ≡ 0)

-- A package that was issued by an account without tokens is refused.
issuer_not-Poor :
    (c : Crypto) (pkg : FaucetPackage) (cost : ℕ) (sender : Address) (s : State) (v : Verified)
    → Poor sender s
    → (verify_faucet_package c pkg cost sender s).0 ≡ ok v
    → v.issuer ≢ sender
unfolding verify_faucet_package account_balance get_account
issuer_not-Poor c pkg cost sender s v (acc, found, zero) h e =
    absurd (ground (arith, h, found, zero, e))

settle-Conserves :
    (c : Crypto) (v : Verified) (sender : Address) (s : State)
    → v.issuer ≢ sender
    → Fits s.accounts
    → Conserves s (settle_faucet_package c v sender s).1
unfolding settle_faucet_package consume_faucet_payload
settle-Conserves c v sender s ne f =
    transfer_balance-Conserves v.issuer sender v.payload.amount
      (consume_faucet_payload c v.issuer v.payload s).1 ne f

faucet-Conserves :
    (c : Crypto) (pkg : Option FaucetPackage) (cost : ℕ) (sender : Address) (s : State)
    → Poor sender s
    → Fits s.accounts
    → Conserves s (check_faucet_package_and_transfer c pkg cost sender true s).1
unfolding check_faucet_package_and_transfer
faucet-Conserves c none cost sender s poor f = (refl, f)
faucet-Conserves c (some pkg) cost sender s poor f =
    let same = verify_faucet_package-state c pkg cost sender s in
    let all = (check_faucet_package_and_transfer c (some pkg) cost sender true s).1 in
    elim (Result-cases (verify_faucet_package c pkg cost sender s).0) [
      | inr (e, h) ↦
          let ends : all ≡ s = ground (arith, h, same) in subst (Conserves s) (sym ends) (refl, f)
      | inl (v, h) ↦
          let settled = settle_faucet_package c v sender s in
          let kept =
            settle-Conserves c v sender s (issuer_not-Poor c pkg cost sender s v poor h) f in
          elim (Result-cases settled.0) [
            | inl (u, k) ↦
                let ends : all ≡ settled.1 = ground (arith, h, same, k) in
                subst (Conserves s) (sym ends) kept
            | inr (u, k) ↦
                let ends : all ≡ settled.1 = ground (arith, h, same, k) in
                subst (Conserves s) (sym ends) kept
          ]
    ]

burn-Conserves :
    (a : Address) (cost : ℕ) (s : State)
    → a ≢ burn_address
    → Fits s.accounts
    → Conserves s (burn_tx_cost a cost s).1
unfolding burn_tx_cost
burn-Conserves a cost s ne f = elim (Bool-cases (cost == 0)) [
  | inl z ↦ ground (arith, z, f)
  | inr z ↦ ground (arith, z, transfer_balance-Conserves a burn_address cost s ne f)
]

base_cost-state : (t : TxType) (s : State) → (tx_base_cost t s).1 ≡ s
unfolding tx_base_cost
base_cost-state t s = ground arith

-- Along an equation of the state that a call ends in.
along : (s s' s'' : State) → s' ≡ s'' → Conserves s s'' → Conserves s s'
along s s' s'' e k = subst (Conserves s) (sym e) k

settle_account-Conserves :
    (c : Crypto) (tx : SetAccountTx) (sender : Address) (s : State)
    → sender ≢ burn_address
    → Poor sender s
    → Fits s.accounts
    → Conserves s (settle_account c tx sender s).1
unfolding settle_account
settle_account-Conserves c tx sender s ne poor f =
    let same = base_cost-state TxType.create_account s in
    let all = (settle_account c tx sender s).1 in
    elim (Result-cases (tx_base_cost TxType.create_account s).0) [
      | inr (e, h) ↦ along s all s (ground (arith, h, same)) (refl, f)
      | inl (cost, h) ↦
          let paid = check_faucet_package_and_transfer c tx.faucet_package cost sender true s in
          let kept = faucet-Conserves c tx.faucet_package cost sender s poor f in
          elim (Result-cases paid.0) [
            | inr (e, k) ↦ along s all paid.1 (ground (arith, h, same, k)) kept
            | inl (b, k) ↦ elim (Bool-cases b) [
              | inr short ↦ along s all paid.1 (ground (arith, h, same, k, short)) kept
              | inl able ↦
                  along s all (burn_tx_cost sender cost paid.1).1 (ground (arith, h, same, k, able))
                    (Conserves-trans s paid.1 (burn_tx_cost sender cost paid.1).1 kept
                      (burn-Conserves sender cost paid.1 ne kept.1))
            ]
          ]
    ]

sik-accounts :
    (a : Address) (sik : Option Bytes) (s : State)
    → (set_optional_sik a sik s).1.accounts ≡ s.accounts
unfolding set_optional_sik set_address_sik
sik-accounts a none s = refl
sik-accounts a (some sik) s = ground arith

opened :
    (a : Address) (uri : Bytes) (delegates : List Bytes) (s : State)
    → lookup a s.accounts ≡ none
    → Fits s.accounts
    → Conserves s (create_account a uri delegates 0 s).1
      × Poor a (create_account a uri delegates 0 s).1
      × ((create_account a uri delegates 0 s).0 ≡ ok tt)
unfolding create_account set_account
opened a uri delegates s free f =
    let s' = (create_account a uri delegates 0 s).1 in
    (
      (
        omega (arith, total-insert_new a (new_account uri delegates) s.accounts free),
        Fits-insert a (new_account uri delegates) s.accounts f (omega arith),
      ),
      (
        new_account uri delegates,
        ground
            (arith, lookup-insert a a (new_account uri delegates) s.accounts, bytes_equal_refl a),
        refl,
      ),
      refl,
    )

deliver-Conserves :
    (c : Crypto) (tx : SetAccountTx) (sender : Address) (s : State)
    → sender ≢ burn_address
    → lookup sender s.accounts ≡ none
    → Fits s.accounts
    → Conserves s (deliver_create_account c tx sender s).1
unfolding deliver_create_account
deliver-Conserves c tx sender s ne free f =
    let (kept, poor, fine) = opened sender tx.info_uri tx.delegates s free f in
    let s₁ = (create_account sender tx.info_uri tx.delegates 0 s).1 in
    let s₂ = (set_optional_sik sender tx.sik s₁).1 in
    let same = sik-accounts sender tx.sik s₁ in
    let kept₂ : Conserves s s₂ = (ap total same ∙ kept.0, subst Fits (sym same) kept.1) in
    let poor₂ : Poor sender s₂ = (poor.0, ap (lookup sender) same ∙ poor.1, poor.2) in
    let all = (deliver_create_account c tx sender s).1 in
    elim (Result-cases (set_optional_sik sender tx.sik s₁).0) [
      | inr (e, h) ↦ along s all s₂ (ground (arith, h, fine)) kept₂
      | inl (u, h) ↦ along s all (settle_account c tx sender s₂).1 (ground (arith, h, fine)) (
          Conserves-trans s s₂ (settle_account c tx sender s₂).1 kept₂
            (settle_account-Conserves c tx sender s₂ ne poor₂ kept₂.1))
    ]

create_check-state : (c : Crypto) (vtx : Tx) (s : State) → (create_account_tx_check c vtx s).1 ≡ s
unfolding create_account_tx_check sender_of get_account
create_check-state c vtx s =
    let b = base_cost-state TxType.create_account s in
    elim (Option-cases (get_set_account vtx.payload)) [
      | inl n ↦ ground (arith, n)
      | inr (tx, n) ↦
          elim (Option-cases
            (c.addr_from_signature (slice vtx.signed_body) (slice vtx.signature))) [
              | inl k ↦ ground (arith, n, k)
              | inr (sender, k) ↦ elim (Result-cases (tx_base_cost TxType.create_account s).0) [
                | inr (e, h) ↦ ground (arith, n, k, h, b)
                | inl (cost, h) ↦
                    let same = unpaid-state c tx.faucet_package cost sender s in
                    let paid =
                      check_faucet_package_and_transfer c tx.faucet_package cost sender false s in
                    elim (Result-cases paid.0) [
                      | inr (e, m) ↦ ground (arith, n, k, h, b, same, m)
                      | inl (r, m) ↦ ground (arith, n, k, h, b, same, m)
                    ]
              ]
            ]
    ]

-- What an accepted creation is like: its signer has no account.
create_check-new :
    (c : Crypto) (vtx : Tx) (s : State) (sender : Address)
    → (create_account_tx_check c vtx s).0 ≡ ok tt
    → c.addr_from_signature (slice vtx.signed_body) (slice vtx.signature) ≡ some sender
    → lookup sender s.accounts ≡ none
unfolding create_account_tx_check sender_of get_account absent
create_check-new c vtx s sender h k = elim (Option-cases (lookup sender s.accounts)) [
  | inl e ↦ e
  | inr (acc, e) ↦ absurd (ground (arith, h, k, e))
]

-- `CheckTx` of a SetAccount transaction that creates an account, other than the burn address, done or
-- refused at any step, with or without a faucet package: the supply of tokens is kept, and every
-- balance stays a `uint64`.
pub check_set_account-Conserves :
    (c : Crypto) (comet_address : Bytes → Bytes) (vtx : Tx) (for_commit : Bool) (s : State)
    (tx : SetAccountTx) (sender : Address)
    → get_set_account vtx.payload ≡ some tx
    → tx.tx_type ≡ TxType.create_account
    → c.addr_from_signature (slice vtx.signed_body) (slice vtx.signature) ≡ some sender
    → sender ≢ burn_address
    → Fits s.accounts
    → Conserves s (check_set_account c comet_address vtx for_commit s).1
unfolding check_set_account check_by_type deliver_by_type sender_of
check_set_account-Conserves c comet_address vtx for_commit s tx sender sent type signed ne f =
    let st = check_account_nonce-state c vtx s in
    let same = create_check-state c vtx s in
    let all = (check_set_account c comet_address vtx for_commit s).1 in
    elim (Bool-cases for_commit) [
      | inr no_commit ↦ elim (Result-cases (create_account_tx_check c vtx s).0) [
        | inr (e, m) ↦ along s all s (ground (arith, no_commit, sent, type, m, same)) (refl, f)
        | inl (v, m) ↦ along s all s (ground (arith, no_commit, sent, type, m, same)) (refl, f)
      ]
      | inl commit ↦ elim (Result-cases (check_account_nonce c vtx s).0) [
        | inr (e, k) ↦ along s all s (ground (arith, commit, k, st)) (refl, f)
        | inl (u, k) ↦ elim (Result-cases (create_account_tx_check c vtx s).0) [
          | inr (e, m) ↦
              along s all s (ground (arith, commit, k, st, sent, type, m, same)) (refl, f)
          | inl (v, m) ↦
              along s all (deliver_create_account c tx sender s).1
                (ground (arith, commit, k, st, sent, type, m, same, signed))
                (deliver-Conserves c tx sender s ne (create_check-new c vtx s sender m signed) f)
        ]
      ]
    ]
