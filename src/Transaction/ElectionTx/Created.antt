-- ===== src/Transaction/ElectionTx/Created.antt =====
-- A new election: what it must be like, and what its delivery writes.
use vocdoni_node.Base.{
  ℕ, ◌≡◌, ◌∙◌, inl, inr, ap, sym, subst, true, Option, none, [], arith, Option-cases, not, ◌&&◌,
  ◌==◌, leb,
}
use vocdoni_node.Base.Dict.{lookup, insert}
use vocdoni_node.Chain.{State, Address, Account, Process, Result-cases, ok}
use vocdoni_node.Crypto.{Crypto}
use vocdoni_node.TxType.{TxType}
use vocdoni_node.Account.{
  get_account, next_process_index, require_account, set_account, increment_account_process_index,
}
use vocdoni_node.Process.{add_process, insert_new, end_time}
use vocdoni_node.Ist.{schedule, add_action, is_due}
use vocdoni_node.Transaction.ElectionTx.Sound.{Sound, new_process_tx_check-Sound}
use vocdoni_node.Transaction.Types.{FaucetPackage, Tx}
use vocdoni_node.Transaction.Network.{Network}
use vocdoni_node.Transaction.Faucet.{pay}
use vocdoni_node.Transaction.Faucet.Frame.{pay-Frame}
use vocdoni_node.Transaction.Nonce.{check_account_nonce}
use vocdoni_node.Transaction.Tokens.Replay.{check_account_nonce-state}
use vocdoni_node.Transaction.ElectionTx.{
  get_new_process, new_process_tx_check, tx_election_cost_from_process,
}
use vocdoni_node.Transaction.ElectionTx.Delivery.{
  end_action, deliver_new_process, check_new_process,
}

-- What the delivery of an election wrote, beside accounts and used packages.
pub record Created (p : Process) (s s' : State) : Type 0 where
  pub fresh : lookup p.process_id s.processes ≡ none
  pub processes_after : s'.processes ≡ insert p.process_id p s.processes
  pub votes_after : s'.votes ≡ insert p.process_id [] s.votes
  pub unscheduled : lookup p.process_id s.actions ≡ none
  pub actions_after : s'.actions ≡ insert p.process_id (end_action p) s.actions

deliver-Created :
    (c : Crypto) (net : Network) (pkg : Option FaucetPackage) (p : Process) (sender : Address)
    (s : State)
    → (deliver_new_process c net pkg p sender s).0 ≡ ok tt
    → Created p s (deliver_new_process c net pkg p sender s).1
unfolding deliver_new_process add_process insert_new increment_account_process_index require_account
    get_account set_account schedule add_action end_action
deliver-Created c net pkg p sender s h = elim (Option-cases (lookup p.process_id s.processes)) [
  | inr (q, e) ↦ absurd (ground (arith, h, e))
  | inl e ↦ elim (Option-cases (lookup (c.bytes_to_address p.entity_id) s.accounts)) [
    | inl a ↦ absurd (ground (arith, h, e, a))
    | inr (acc, a) ↦ elim (Option-cases (lookup p.process_id s.actions)) [
      | inr (act, k) ↦ absurd (ground (arith, h, e, a, k))
      | inl k ↦
          let pid = p.process_id in
          let cost = tx_election_cost_from_process net p in
          let acc' : Account = record acc {
            process_index = next_process_index acc.process_index;
          } in
          let s' : State = record s {
            processes = insert pid p s.processes;
            votes = insert pid [] s.votes;
            accounts = insert (c.bytes_to_address p.entity_id) acc' s.accounts;
            actions = insert pid (end_action p) s.actions;
          } in
          let paid = (pay c pkg sender TxType.new_process cost s').1 in
          let frame = pay-Frame c pkg sender TxType.new_process cost s' in
          let ends : (deliver_new_process c net pkg p sender s).1 ≡ paid =
            ground (arith, h, e, a, k) in
          record {
            fresh = e;
            processes_after = ap (λ t. t.processes) ends ∙ ap (λ t. t.processes) frame;
            votes_after = ap (λ t. t.votes) ends ∙ ap (λ t. t.votes) frame;
            unscheduled = k;
            actions_after = ap (λ t. t.actions) ends ∙ ap (λ t. t.actions) frame;
          }
    ]
  ]
]

-- `CheckTx` of a NewProcess transaction that succeeds with commit: the new election is READY or
-- PAUSED, neither its start nor its end has passed, its census is not empty and within the limit of
-- the chain, and its signer has an account and is its entity or a delegate of it. It is stored under
-- an identifier that no process had, with no votes, and beside the pending actions stands one, under
-- an identifier that was free, that falls due once the end of the election has come.
pub check_new_process-Created :
    (c : Crypto) (net : Network) (vtx : Tx) (height later : ℕ) (s : State)
    → (check_new_process c net vtx true s).0 ≡ ok tt
    → (p : Process) × (sender : Address) × Sound c net vtx p sender s
      × Created p s (check_new_process c net vtx true s).1
      × (is_due height later (end_action p) ≡ (not (end_time p == 0) && leb (end_time p) later))
unfolding check_new_process is_due end_action
check_new_process-Created c net vtx height later s h =
    let st = check_account_nonce-state c vtx s in
    let (same_state, sound) = new_process_tx_check-Sound c net vtx s in
    elim (Result-cases (check_account_nonce c vtx s).0) [
      | inr (e, k) ↦ absurd (ground (arith, h, k))
      | inl (u, k) ↦ elim (Result-cases (new_process_tx_check c net vtx s).0) [
        | inr (e, m) ↦ absurd (ground (arith, h, k, st, m, same_state))
        | inl ((p, a), m) ↦ elim (Option-cases (get_new_process vtx.payload)) [
          | inl n ↦ absurd (ground (arith, h, k, st, m, same_state, n))
          | inr (tx, n) ↦
              let delivered = deliver_new_process c net tx.faucet_package p a s in
              let all : check_new_process c net vtx true s ≡ delivered =
                ground (arith, k, st, m, same_state, n) in
              let success : delivered.0 ≡ ok tt = ground (arith, all, h) in
              (
                p,
                a,
                sound p a m,
                subst (λ r. Created p s r.1) (sym all)
                    (deliver-Created c net tx.faucet_package p a s success),
                ground arith,
              )
        ]
      ]
    ]
