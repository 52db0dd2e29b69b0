-- ===== src/Transaction/ElectionTx/Changed.antt =====
-- Who may change an election.
use vocdoni_node.Base.{
  ℕ, ◌≡◌, ◌⊎◌, refl, inl, inr, Bool, true, false, Option, some, arith, Bool-cases, Option-cases,
}
use vocdoni_node.Base.Bytes.{Bytes, bytes_equal, bytes_equal_iff}
use vocdoni_node.Base.Dict.{lookup}
use vocdoni_node.Chain.{State, Address, Process, Account, Result-cases, ok}
use vocdoni_node.Crypto.{Crypto}
use vocdoni_node.TxType.{TxType}
use vocdoni_node.Account.{is_delegate}
use vocdoni_node.Balance.{tx_base_cost}
use vocdoni_node.Process.{
  get_process, get_timestamp, same, set_process_status, set_process_duration, set_process_metadata,
  set_process_census,
}
use vocdoni_node.Transaction.Types.{Payload, Tx, SetProcessTx}
use vocdoni_node.Transaction.Network.{Network}
use vocdoni_node.Transaction.Faucet.{check_account_can_pay_cost}
use vocdoni_node.Transaction.Faucet.Payer.{Payer, can_pay-state, can_pay-Payer}
use vocdoni_node.Transaction.Nonce.{check_account_nonce}
use vocdoni_node.Transaction.Tokens.{is_nil_tx}
use vocdoni_node.Transaction.Tokens.Replay.{check_account_nonce-state}
use vocdoni_node.Transaction.ElectionTx.{
  get_set_process, authorize, check_max_census_size, check_census_increase, check_change,
  set_process_tx_check, tx_cost_increase_census_size, tx_cost_increase_duration,
}
use vocdoni_node.Transaction.ElectionTx.Delivery.{check_set_process}

status-state :
    (pid : Bytes) (tx : SetProcessTx) (s : State) → (set_process_status pid tx.status false s).1 ≡ s
unfolding set_process_status get_process get_timestamp
status-state pid tx s = ground arith

duration-state : (pid : Bytes) (d : ℕ) (s : State) → (set_process_duration pid d false s).1 ≡ s
unfolding set_process_duration get_process get_timestamp
duration-state pid d s = ground arith

metadata-state :
    (pid uri hash : Bytes) (s : State) → (set_process_metadata pid uri hash false s).1 ≡ s
unfolding set_process_metadata get_process
metadata-state pid uri hash s = ground arith

census-state :
    (pid : Bytes) (root : Option Bytes) (uri : Bytes) (size : ℕ) (s : State)
    → (set_process_census pid root uri size false s).1 ≡ s
unfolding set_process_census get_process
census-state pid root uri size s = ground arith

limit-state : (net : Network) (p : Process) (s : State) → (check_max_census_size net p s).1 ≡ s
unfolding check_max_census_size
limit-state net p s = ground arith

pub cost_size-state :
    (net : Network) (p : Process) (n : ℕ) (s : State)
    → (tx_cost_increase_census_size net p n s).1 ≡ s
unfolding tx_cost_increase_census_size tx_base_cost
cost_size-state net p n s = ground arith

pub cost_duration-state :
    (net : Network) (p : Process) (n : ℕ) (s : State) → (tx_cost_increase_duration net p n s).1 ≡ s
unfolding tx_cost_increase_duration tx_base_cost
cost_duration-state net p n s = ground arith

increase-state :
    (c : Crypto) (net : Network) (vtx : Tx) (tx : SetProcessTx) (p : Process) (s : State)
    → (check_census_increase c net vtx tx p s).1 ≡ s
unfolding check_census_increase
increase-state c net vtx tx p s =
    let st = limit-state net p s in
    let st' = cost_size-state net p tx.census_size s in
    elim (Result-cases (check_max_census_size net p s).0) [
      | inr (e, h) ↦ ground (arith, h, st)
      | inl (u, h) ↦ elim (Result-cases (tx_cost_increase_census_size net p tx.census_size s).0) [
        | inr (e, k) ↦ ground (arith, h, k, st, st')
        | inl (cost, k) ↦
            ground
              (arith, h, k, st, st', can_pay-state c tx.tx_type vtx (Payload.set_process tx) cost s)
      ]
    ]

change-state :
    (c : Crypto) (net : Network) (vtx : Tx) (tx : SetProcessTx) (p : Process) (t : TxType)
    (s : State)
    → (check_change c net vtx tx p t s).1 ≡ s
unfolding check_change
change-state c net vtx tx p TxType.set_process_status s =
    ground (arith, status-state p.process_id tx s)
change-state c net vtx tx p TxType.set_process_census s =
    let last = census-state p.process_id tx.census_root tx.census_uri tx.census_size s in
    elim (Result-cases (check_census_increase c net vtx tx p s).0) [
      | inr (e, h) ↦ ground (arith, h, increase-state c net vtx tx p s)
      | inl (u, h) ↦ ground (arith, h, increase-state c net vtx tx p s, last)
    ]
change-state c net vtx tx p TxType.set_process_duration s =
    let first = cost_duration-state net p tx.duration s in
    let last = duration-state p.process_id tx.duration s in
    elim (Result-cases (tx_cost_increase_duration net p tx.duration s).0) [
      | inr (e, h) ↦ ground (arith, h, first)
      | inl (cost, h) ↦
          let paid = can_pay-state c tx.tx_type vtx (Payload.set_process tx) cost s in
          elim (Result-cases
            (check_account_can_pay_cost c tx.tx_type vtx (Payload.set_process tx) cost s).0) [
              | inr (e, k) ↦ ground (arith, h, k, first, paid)
              | inl (r, k) ↦ ground (arith, h, k, first, paid, last)
            ]
    ]
change-state c net vtx tx p TxType.set_process_metadata s =
    ground (arith, metadata-state p.process_id tx.metadata tx.metadata_hash s)
change-state c net vtx tx p _ s = refl

base-state : (t : TxType) (s : State) → (tx_base_cost t s).1 ≡ s
unfolding tx_base_cost
base-state t s = ground arith

authorize-state :
    (c : Crypto) (net : Network) (p : Process) (sender : Address) (s : State)
    → (authorize c net p sender s).1 ≡ s
unfolding authorize
authorize-state c net p sender s = ground arith

-- The sender owns the process, or is a delegate of its owner in the last committed version.
abbrev pub MayChange : Crypto → Network → Process → Address → Type 0
MayChange c net p sender =
    (p.entity_id ≡ sender)
    ⊎ ((acc : Account) × (lookup (c.bytes_to_address p.entity_id) net.committed_accounts ≡ some acc)
        × (is_delegate sender acc.delegate_addrs ≡ true))

authorize-MayChange :
    (c : Crypto) (net : Network) (p : Process) (sender : Address) (s : State)
    → (authorize c net p sender s).0 ≡ ok tt
    → MayChange c net p sender
unfolding authorize
authorize-MayChange c net p sender s h = elim (Bool-cases (bytes_equal p.entity_id sender)) [
  | inl e ↦ inl ((bytes_equal_iff p.entity_id sender).0 e)
  | inr e ↦ elim (Option-cases (lookup (c.bytes_to_address p.entity_id) net.committed_accounts)) [
    | inl n ↦ absurd (ground (arith, h, e, n))
    | inr (acc, n) ↦ inr (acc, n, ground (arith, h, e, n))
  ]
]

-- What a transaction that changes a process had to pass.
pub record Authorized (c : Crypto) (net : Network) (vtx : Tx) (s : State) : Type 0 where
  pub tx : SetProcessTx
  pub sent : get_set_process vtx.payload ≡ some tx
  pub process : Process
  pub found : lookup tx.process_id s.processes ≡ some process
  pub account : Account
  pub sender : Address
  pub payer : Payer c vtx account sender s
  pub may_change : MayChange c net process sender
  pub change : (check_change c net vtx tx process tx.tx_type s).0 ≡ ok tt

-- The check changes nothing, and what it accepts is authorized, with the sender as its result.
pub set_process_tx_check-Authorized :
    (c : Crypto) (net : Network) (vtx : Tx) (s : State)
    → ((set_process_tx_check c net vtx s).1 ≡ s)
      × ((a : Address)
          → (set_process_tx_check c net vtx s).0 ≡ ok a
          → (auth : Authorized c net vtx s) × (auth.sender ≡ a))
unfolding set_process_tx_check get_process
set_process_tx_check-Authorized c net vtx s = elim (Bool-cases (is_nil_tx vtx)) [
  | inl n ↦ (ground (arith, n), λ a h. absurd (ground (arith, n, h)))
  | inr n ↦ elim (Option-cases (get_set_process vtx.payload)) [
    | inl g ↦ (ground (arith, n, g), λ a h. absurd (ground (arith, n, g, h)))
    | inr (tx, g) ↦
        let b = base-state tx.tx_type s in
        elim (Result-cases (tx_base_cost tx.tx_type s).0) [
          | inr (e, k) ↦ (ground (arith, n, g, b, k), λ a h. absurd (ground (arith, n, g, b, k, h)))
          | inl (cost, k) ↦
              let pl = Payload.set_process tx in
              let q = can_pay-state c tx.tx_type vtx pl cost s in
              elim (Result-cases (check_account_can_pay_cost c tx.tx_type vtx pl cost s).0) [
                | inr (e, m) ↦ (
                  ground (arith, n, g, b, k, q, m),
                  λ a h. absurd (ground (arith, n, g, b, k, q, m, h)),
                )
                | inl ((acc, sender), m) ↦ elim (Option-cases (lookup tx.process_id s.processes)) [
                  | inl f ↦ (
                    ground (arith, n, g, b, k, q, m, f),
                    λ a h. absurd (ground (arith, n, g, b, k, q, m, f, h)),
                  )
                  | inr (p, f) ↦
                      let au = authorize-state c net p sender s in
                      let ch = change-state c net vtx tx p tx.tx_type s in
                      elim (Result-cases (authorize c net p sender s).0) [
                        | inr (e, z) ↦ (
                          ground (arith, n, g, b, k, q, m, f, au, z),
                          λ a h. absurd (ground (arith, n, g, b, k, q, m, f, au, z, h)),
                        )
                        | inl (u, z) ↦
                            elim (Result-cases (check_change c net vtx tx p tx.tx_type s).0) [
                              | inr (e, y) ↦ (
                                ground (arith, n, g, b, k, q, m, f, au, z, ch, y),
                                λ a h.
                                    absurd (ground (arith, n, g, b, k, q, m, f, au, z, ch, y, h)),
                              )
                              | inl (w, y) ↦ (
                                ground (arith, n, g, b, k, q, m, f, au, z, ch, y),
                                λ a h. (
                                  record {
                                    tx = tx;
                                    sent = g;
                                    process = p;
                                    found = f;
                                    account = acc;
                                    sender = sender;
                                    payer = can_pay-Payer c tx.tx_type vtx pl cost s acc sender m;
                                    may_change = authorize-MayChange c net p sender s z;
                                    change = y;
                                  },
                                  ground (arith, n, g, b, k, q, m, f, au, z, ch, y, h),
                                ),
                              )
                            ]
                      ]
                ]
              ]
        ]
  ]
]

-- `CheckTx` of a SetProcess transaction leaves the state as it was, unless the transaction names a
-- process of the state, its signer has an account, and the signer is the entity of that process or,
-- in the last committed version, a delegate of it.
pub check_set_process-Authorized :
    (c : Crypto) (net : Network) (vtx : Tx) (for_commit : Bool) (s : State)
    → ((check_set_process c net vtx for_commit s).1 ≡ s) ⊎ Authorized c net vtx s
unfolding check_set_process
check_set_process-Authorized c net vtx for_commit s =
    let st = check_account_nonce-state c vtx s in
    let (same, accepted) = set_process_tx_check-Authorized c net vtx s in
    elim (Result-cases (set_process_tx_check c net vtx s).0) [
      | inl (a, h) ↦ inr (accepted a h).0
      | inr (e, h) ↦ inl (elim (Result-cases (check_account_nonce c vtx s).0) [
        | inr (x, k) ↦ elim (Bool-cases for_commit) [
          | inl b ↦ ground (arith, b, k, st)
          | inr b ↦ ground (arith, b, h, same)
        ]
        | inl (u, k) ↦ ground (arith, k, st, h, same)
      ])
    ]
