-- ===== src/Transaction/ElectionTx/Closing.antt =====
-- RESULTS is not reached by a transaction: what the delivery of SetProcess transactions writes.
use vocdoni_node.Base.{
  ℕ, ◌≡◌, ◌≢◌, ◌⊎◌, ◌∙◌, refl, inl, inr, ap, subst, Bool, true, false, Option, some, arith, ltb,
  Bool-cases, Option-cases, ◌==◌,
}
use vocdoni_node.Base.Bytes.{Bytes, bytes_equal}
use vocdoni_node.Base.Words.{add32}
use vocdoni_node.Base.Dict.{lookup, insert, lookup-insert}
use vocdoni_node.Chain.{State, Address, Process, ProcessStatus, results, Result-cases, ok}
use vocdoni_node.Crypto.{Crypto}
use vocdoni_node.TxType.{TxType}
use vocdoni_node.Process.{
  get_process, get_timestamp, is_open, same, with_census, set_process_status, set_process_duration,
  set_process_metadata, set_process_census,
}
use vocdoni_node.Process.Frame.{
  Ends, update_process-processes, status-Ends, duration-Ends, metadata-Ends, census-Ends,
}
use vocdoni_node.Sik.{purge_register_sik}
use vocdoni_node.Ist.{schedule, reschedule, retrieve_action, add_action, remove_action}
use vocdoni_node.Transaction.Types.{Tx, SetProcessTx}
use vocdoni_node.Transaction.Network.{Network}
use vocdoni_node.Transaction.Faucet.Frame.{pay-Frame}
use vocdoni_node.Transaction.Nonce.{check_account_nonce}
use vocdoni_node.Transaction.Tokens.Replay.{check_account_nonce-state}
use vocdoni_node.Transaction.ElectionTx.{
  check_change, set_process_tx_check, tx_cost_increase_census_size, tx_cost_increase_duration,
}
use vocdoni_node.Transaction.ElectionTx.Delivery.{
  schedule_tally, apply_change, deliver_set_process, check_set_process,
}
use vocdoni_node.Transaction.ElectionTx.Changed.{
  set_process_tx_check-Authorized, cost_size-state, cost_duration-state,
}

-- At most one process was written, with a status other than RESULTS.
abbrev WritesOpen : State → State → Type 0
WritesOpen s s' =
    (s'.processes ≡ s.processes)
    ⊎ ((k : Bytes) × (q : Process) × (q.status ≢ results) × (s'.processes ≡ insert k q s.processes))

from_Ends :
    {T : Type 0} (s s' : State) (q q' : Process)
    → (T → q'.status ≢ results)
    → Ends s s' q q' T
    → WritesOpen s s'
from_Ends s s' q q' nr (inl e) = inl (ap (λ t. t.processes) e)
from_Ends s s' q q' nr (inr (t, e)) = elim (update_process-processes q' q.process_id s) [
  | inl k ↦ inl (ap (λ t. t.processes) e ∙ k)
  | inr k ↦ inr (q.process_id, q', nr t, ap (λ t. t.processes) e ∙ k)
]

open_not_results : (q : Process) → is_open q.status ≡ true → q.status ≢ results
unfolding is_open
open_not_results q h e = ground arith

status-WritesOpen :
    (pid : Bytes) (new_status : ProcessStatus) (s : State)
    → new_status ≢ results
    → WritesOpen s (set_process_status pid new_status true s).1
unfolding set_process_status
status-WritesOpen pid new_status s nr = elim (Option-cases (lookup pid s.processes)) [
  | inl e ↦ inl (ground (arith, e))
  | inr (q, e) ↦ elim (Option-cases s.timestamp) [
    | inl t ↦ inl (ground (arith, e, t))
    | inr (now, t) ↦ from_Ends s _ q _ (λ _. nr) (status-Ends pid new_status true s q now e t)
  ]
]

duration-WritesOpen :
    (pid : Bytes) (d : ℕ) (s : State) → WritesOpen s (set_process_duration pid d true s).1
unfolding set_process_duration
duration-WritesOpen pid d s = elim (Option-cases (lookup pid s.processes)) [
  | inl e ↦ inl (ground (arith, e))
  | inr (q, e) ↦ from_Ends s _ q _ (open_not_results q) (duration-Ends pid d true s q e)
]

metadata-WritesOpen :
    (pid uri hash : Bytes) (s : State) → WritesOpen s (set_process_metadata pid uri hash true s).1
unfolding set_process_metadata
metadata-WritesOpen pid uri hash s = elim (Option-cases (lookup pid s.processes)) [
  | inl e ↦ inl (ground (arith, e))
  | inr (q, e) ↦ from_Ends s _ q _ (open_not_results q) (metadata-Ends pid uri hash true s q e)
]

census-WritesOpen :
    (pid : Bytes) (root : Option Bytes) (uri : Bytes) (size : ℕ) (s : State)
    → WritesOpen s (set_process_census pid root uri size true s).1
unfolding set_process_census with_census
census-WritesOpen pid root uri size s = elim (Option-cases (lookup pid s.processes)) [
  | inl e ↦ inl (ground (arith, e))
  | inr (q, e) ↦ from_Ends s _ q _ (open_not_results q) (census-Ends pid root uri size true s q e)
]

tally-processes : (pid : Bytes) (s : State) → (schedule_tally pid s).1.processes ≡ s.processes
unfolding schedule_tally purge_register_sik remove_action schedule
tally-processes pid s = ground arith

reschedule-processes :
    (id : Bytes) (n : ℕ) (s : State) → (reschedule id n false 0 s).1.processes ≡ s.processes
unfolding reschedule retrieve_action add_action get_timestamp
reschedule-processes id n s = elim (Option-cases (lookup id s.actions)) [
  | inl e ↦ ground (arith, e)
  | inr (act, e) ↦ elim (Option-cases s.timestamp) [
    | inl t ↦ ground (arith, e, t)
    | inr (now, t) ↦ elim (Option-cases act.id) [
      | inl i ↦ ground (arith, e, t, i)
      | inr (k, i) ↦ ground (arith, e, t, i)
    ]
  ]
]

apply-WritesOpen :
    (net : Network) (tx : SetProcessTx) (t : TxType) (s : State)
    → (t ≡ TxType.set_process_status → tx.status ≢ results)
    → WritesOpen s (apply_change net tx t s).1
unfolding apply_change get_process
apply-WritesOpen net tx TxType.set_process_status s nr =
    let w = status-WritesOpen tx.process_id tx.status s (nr refl) in
    elim (Result-cases (set_process_status tx.process_id tx.status true s).0) [
      | inr (e, h) ↦ ground (arith, h, w)
      | inl (u, h) ↦
          let s' = (set_process_status tx.process_id tx.status true s).1 in
          let same_processes = tally-processes tx.process_id s' in
          elim (Result-cases (schedule_tally tx.process_id s').0) [
            | inl (v, k) ↦ ground (arith, h, w, same_processes, k)
            | inr (v, k) ↦ ground (arith, h, w, same_processes, k)
          ]
    ]
apply-WritesOpen net tx TxType.set_process_census s nr =
    let w = census-WritesOpen tx.process_id tx.census_root tx.census_uri tx.census_size s in
    let set =
      (set_process_census tx.process_id tx.census_root tx.census_uri tx.census_size true s) in
    elim (Bool-cases (ltb 0 tx.census_size)) [
      | inr b ↦ elim (Result-cases set.0) [
        | inr (e, h) ↦ ground (arith, b, h, w)
        | inl (u, h) ↦ ground (arith, b, h, w)
      ]
      | inl b ↦ elim (Option-cases (lookup tx.process_id s.processes)) [
        | inl n ↦ inl (ground (arith, b, n))
        | inr (p, n) ↦
            let st = cost_size-state net p tx.census_size s in
            elim (Result-cases (tx_cost_increase_census_size net p tx.census_size s).0) [
              | inr (e, k) ↦ inl (ground (arith, b, n, k, st))
              | inl (cost, k) ↦ elim (Result-cases set.0) [
                | inr (e, h) ↦ ground (arith, b, n, k, st, h, w)
                | inl (u, h) ↦ ground (arith, b, n, k, st, h, w)
              ]
            ]
      ]
    ]
apply-WritesOpen net tx TxType.set_process_duration s nr =
    let w = duration-WritesOpen tx.process_id tx.duration s in
    let set = set_process_duration tx.process_id tx.duration true s in
    elim (Bool-cases (tx.duration == 0)) [
      | inl z ↦ inl (ground (arith, z))
      | inr z ↦ elim (Option-cases (lookup tx.process_id s.processes)) [
        | inl n ↦ inl (ground (arith, z, n))
        | inr (p, n) ↦
            let st = cost_duration-state net p tx.duration s in
            elim (Result-cases (tx_cost_increase_duration net p tx.duration s).0) [
              | inr (e, k) ↦ inl (ground (arith, z, n, k, st))
              | inl (cost, k) ↦ elim (Result-cases set.0) [
                | inr (e, h) ↦ ground (arith, z, n, k, st, h, w)
                | inl (u, h) ↦
                    let moved = add32 p.start_time tx.duration in
                    let same_processes = reschedule-processes tx.process_id moved set.1 in
                    elim (Result-cases (reschedule tx.process_id moved false 0 set.1).0) [
                      | inr (e, m) ↦ ground (arith, z, n, k, st, h, w, same_processes, m)
                      | inl (v, m) ↦ ground (arith, z, n, k, st, h, w, same_processes, m)
                    ]
              ]
            ]
      ]
    ]
apply-WritesOpen net tx TxType.set_process_metadata s nr =
    let w = metadata-WritesOpen tx.process_id tx.metadata tx.metadata_hash s in
    elim (Result-cases (set_process_metadata tx.process_id tx.metadata tx.metadata_hash true s).0) [
      | inr (e, h) ↦ ground (arith, h, w)
      | inl (u, h) ↦ ground (arith, h, w)
    ]
apply-WritesOpen net tx _ s nr = inl refl

deliver-WritesOpen :
    (c : Crypto) (net : Network) (tx : SetProcessTx) (sender : Address) (s : State)
    → (tx.tx_type ≡ TxType.set_process_status → tx.status ≢ results)
    → WritesOpen s (deliver_set_process c net tx sender s).1
unfolding deliver_set_process
deliver-WritesOpen c net tx sender s nr =
    let w = apply-WritesOpen net tx tx.tx_type s nr in
    let s' = (apply_change net tx tx.tx_type s).1 in
    elim (Result-cases (apply_change net tx tx.tx_type s).0) [
      | inr (e, h) ↦ ground (arith, h, w)
      | inl (cost, h) ↦
          let same_processes =
            ap (λ t. t.processes) (pay-Frame c tx.faucet_package sender tx.tx_type cost s') in
          ground (arith, h, w, same_processes)
    ]

-- A process with the status RESULTS.
abbrev pub HasResults : Bytes → State → Type 0
HasResults pid s = (p : Process) × (lookup pid s.processes ≡ some p) × (p.status ≡ results)

WritesOpen-HasResults :
    (pid : Bytes) (s s' : State) → WritesOpen s s' → HasResults pid s' → HasResults pid s
WritesOpen-HasResults pid s s' (inl e) (p, f, h) = (p, ground (arith, e, f), h)
WritesOpen-HasResults pid s s' (inr (k, q, nr, e)) (p, f, h) =
    let at = lookup-insert k pid q s.processes in
    elim (Bool-cases (bytes_equal k pid)) [
      | inl d ↦ absurd (nr (ground (arith, e, f, h, at, d)))
      | inr d ↦ (p, ground (arith, e, f, at, d), h)
    ]

checked_status :
    (c : Crypto) (net : Network) (vtx : Tx) (tx : SetProcessTx) (p : Process) (s : State)
    → (check_change c net vtx tx p tx.tx_type s).0 ≡ ok tt
    → tx.tx_type ≡ TxType.set_process_status
    → tx.status ≢ results
unfolding check_change same
checked_status c net vtx tx p s h t r =
    absurd (ground (arith, subst (λ k. (check_change c net vtx tx p k s).0 ≡ ok tt) t h, r))

check-WritesOpen :
    (c : Crypto) (net : Network) (vtx : Tx) (for_commit : Bool) (s : State)
    → WritesOpen s (check_set_process c net vtx for_commit s).1
unfolding check_set_process
check-WritesOpen c net vtx for_commit s =
    let st = check_account_nonce-state c vtx s in
    let (same_state, accepted) = set_process_tx_check-Authorized c net vtx s in
    elim (Result-cases (set_process_tx_check c net vtx s).0) [
      | inr (e, h) ↦ elim (Result-cases (check_account_nonce c vtx s).0) [
        | inr (x, k) ↦ inl (ground (arith, k, st, h, same_state))
        | inl (u, k) ↦ inl (ground (arith, k, st, h, same_state))
      ]
      | inl (a, h) ↦
          let (auth, sender) = accepted a h in
          let sent = auth.sent in
          let w =
            deliver-WritesOpen c net auth.tx a s
              (checked_status c net vtx auth.tx auth.process s auth.change) in
          elim (Result-cases (check_account_nonce c vtx s).0) [
            | inr (x, k) ↦ elim (Bool-cases for_commit) [
              | inl b ↦ inl (ground (arith, b, k, st))
              | inr b ↦ inl (ground (arith, b, h, same_state, sent))
            ]
            | inl (u, k) ↦ elim (Bool-cases for_commit) [
              | inl b ↦ ground (arith, b, k, st, h, same_state, sent, w)
              | inr b ↦ inl (ground (arith, b, k, st, h, same_state, sent))
            ]
          ]
    ]

-- After `CheckTx` of any SetProcess transaction, done or refused, a process whose status is RESULTS
-- had that status before it.
pub check_set_process_no_results :
    (c : Crypto) (net : Network) (vtx : Tx) (for_commit : Bool) (pid : Bytes) (s : State)
    → HasResults pid (check_set_process c net vtx for_commit s).1
    → HasResults pid s
check_set_process_no_results c net vtx for_commit pid s had =
    WritesOpen-HasResults pid s (check_set_process c net vtx for_commit s).1
      (check-WritesOpen c net vtx for_commit s) had
