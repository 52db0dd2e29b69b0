-- ===== src/Transaction/Tokens/Collect.antt =====
-- A faucet package that a CollectFaucet transaction brings is collected once.
use vocdoni_node.Base.{◌≡◌, ◌≢◌, refl, inl, inr, Bool, true, none, some, arith, Option-cases}
use vocdoni_node.Base.Bytes.{Bytes, bytes_equal_refl}
use vocdoni_node.Base.Dict.{lookup, lookup-insert}
use vocdoni_node.Chain.{Address, State, ok}
use vocdoni_node.Crypto.{Crypto, FaucetPayload}
use vocdoni_node.TxType
use vocdoni_node.Balance.{faucet_key, consume_faucet_payload, burn_tx_cost_increment_nonce}
use vocdoni_node.Balance.Transfers.{faucet_nonces-transfer_balance}
use vocdoni_node.Transaction.Types.{Tx, CollectFaucetTx, FaucetPackage}
use vocdoni_node.Transaction.Faucet.{slice}
use vocdoni_node.Transaction.Tokens.{
  get_collect_faucet, collect_faucet_tx_check, deliver_collect_faucet, check_collect_faucet,
}
use vocdoni_node.Transaction.Tokens.Replay.{check_account_nonce-state}

-- What a passed check says of the transaction: the package it brings, and who issued it.
pub record Collected (c : Crypto) (vtx : Tx) : Type 0 where
  pub tx : CollectFaucetTx
  pub pkg : FaucetPackage
  pub raw : Bytes
  pub signature : Bytes
  pub payload : FaucetPayload
  pub issuer : Address
  pub of_tx : get_collect_faucet vtx.payload ≡ some tx
  pub has_package : tx.faucet_package ≡ some pkg
  pub has_signature : pkg.signature ≡ some signature
  pub has_payload : pkg.payload ≡ some raw
  pub decoded : c.unmarshal_faucet_payload raw ≡ some payload
  pub signed : c.addr_from_signature raw signature ≡ some issuer

collect_faucet_tx_check-Collected :
    (c : Crypto) (vtx : Tx) (s : State)
    → (collect_faucet_tx_check c vtx s).0 ≡ ok tt
    → Collected c vtx
unfolding collect_faucet_tx_check
collect_faucet_tx_check-Collected c vtx s h = elim (Option-cases (get_collect_faucet vtx.payload)) [
  | inl e ↦ absurd (ground (arith, e))
  | inr (tx, e) ↦ elim (Option-cases tx.faucet_package) [
    | inl p ↦ absurd (ground (arith, e, p))
    | inr (pkg, p) ↦ from_package tx pkg e p
  ]
]
  where
    from_package :
        (tx : CollectFaucetTx) (pkg : FaucetPackage)
        → get_collect_faucet vtx.payload ≡ some tx
        → tx.faucet_package ≡ some pkg
        → Collected c vtx
    from_package tx pkg e p = elim (Option-cases pkg.signature) [
      | inl g ↦ absurd (ground (arith, e, p, g))
      | inr (signature, g) ↦ elim (Option-cases pkg.payload) [
        | inl r ↦ absurd (ground (arith, e, p, g, r))
        | inr (raw, r) ↦ elim (Option-cases (c.unmarshal_faucet_payload raw)) [
          | inl d ↦ absurd (ground (arith, e, p, g, r, d))
          | inr (payload, d) ↦ elim (Option-cases (c.addr_from_signature raw signature)) [
            | inl n ↦ absurd (ground (arith, e, p, g, r, d, n))
            | inr (issuer, n) ↦ record {
              tx = tx;
              pkg = pkg;
              raw = raw;
              signature = signature;
              payload = payload;
              issuer = issuer;
              of_tx = e;
              has_package = p;
              has_signature = g;
              has_payload = r;
              decoded = d;
              signed = n;
            }
          ]
        ]
      ]
    ]

abbrev key_of : (c : Crypto) (vtx : Tx) → Collected c vtx → Bytes
key_of c vtx k = faucet_key c k.issuer k.payload.identifier

-- The check finds the key of the package unused.
collect_faucet_tx_check-unused :
    (c : Crypto) (vtx : Tx) (s : State) (k : Collected c vtx)
    → (collect_faucet_tx_check c vtx s).0 ≡ ok tt
    → lookup (key_of c vtx k) s.faucet_nonces ≡ none
unfolding collect_faucet_tx_check
collect_faucet_tx_check-unused c vtx s k h =
    ground (arith, k.of_tx, k.has_package, k.has_signature, k.has_payload, k.decoded, k.signed, h)

collect_faucet_tx_check-state :
    (c : Crypto) (vtx : Tx) (s : State) → (collect_faucet_tx_check c vtx s).1 ≡ s
unfolding collect_faucet_tx_check
collect_faucet_tx_check-state c vtx s = ground arith

consume-used :
    (c : Crypto) (vtx : Tx) (s : State) (k : Collected c vtx)
    → (consume_faucet_payload c k.issuer k.payload s).0 ≡ ok tt
      × (lookup (key_of c vtx k) (consume_faucet_payload c k.issuer k.payload s).1.faucet_nonces
          ≡ some tt)
unfolding consume_faucet_payload
consume-used c vtx s k = (refl, simp (lookup-insert, bytes_equal_refl))

-- The delivery leaves the key of the package used.
deliver_collect_faucet-used :
    (c : Crypto) (vtx : Tx) (s : State) (k : Collected c vtx)
    → (deliver_collect_faucet c k.tx s).0 ≡ ok tt
    → lookup (key_of c vtx k) (deliver_collect_faucet c k.tx s).1.faucet_nonces ≡ some tt
unfolding deliver_collect_faucet
deliver_collect_faucet-used c vtx s k h =
    let fee = burn_tx_cost_increment_nonce k.issuer TxType.collect_faucet 0 s in
    let used = consume-used c vtx fee.1 k in
    let marked = (consume_faucet_payload c k.issuer k.payload fee.1).1 in
    let kept =
      faucet_nonces-transfer_balance k.issuer (c.bytes_to_address (slice k.payload.to))
        k.payload.amount marked in
    ground
      (arith, k.has_package, k.has_signature, k.has_payload, k.decoded, k.signed, h, used, kept)

-- A CollectFaucet transaction that was delivered is refused when it is checked or delivered again: the
-- package that it brings is used.
pub check_collect_faucet_no_replay :
    (c : Crypto) (vtx : Tx) (commit : Bool) (s : State)
    → (check_collect_faucet c vtx true s).0 ≡ ok tt
    → (check_collect_faucet c vtx commit (check_collect_faucet c vtx true s).1).0 ≢ ok tt
unfolding check_collect_faucet
check_collect_faucet_no_replay c vtx commit s h again =
    let s' = (check_collect_faucet c vtx true s).1 in
    let same₁ = check_account_nonce-state c vtx s in
    let same₂ = collect_faucet_tx_check-state c vtx s in
    let passed : (collect_faucet_tx_check c vtx s).0 ≡ ok tt = ground (arith, h, same₁) in
    let k = collect_faucet_tx_check-Collected c vtx s passed in
    let used = deliver_collect_faucet-used c vtx s k in
    let passed' : (collect_faucet_tx_check c vtx s').0 ≡ ok tt =
      ground (arith, again, check_account_nonce-state c vtx s') in
    let unused = collect_faucet_tx_check-unused c vtx s' k passed' in
    ground (arith, h, same₁, same₂, passed, k.of_tx, used, unused)
