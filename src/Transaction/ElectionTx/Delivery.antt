-- ===== src/Transaction/ElectionTx/Delivery.antt =====
-- The delivery of NewProcess and SetProcess transactions in `CheckTx`
-- (vochain/transaction/transaction.go).
use vocdoni_node.Base.{ℕ, Bool, true, false, Option, some, [], ltb, ◌==◌, if◌then◌else◌}
use vocdoni_node.Base.Bytes.{Bytes}
use vocdoni_node.Base.Words.{add32}
use vocdoni_node.Chain.{
  Action, Address, end_process, Process, process_unknown, ended, Exec, ⊤, pure, raise, gets,
  or_raise, raise_if, when, ◌>>=◌, ◌>>◌, panicked, zero_duration, unknown_status, invalid_tx_type,
}
use vocdoni_node.Crypto.{Crypto}
use vocdoni_node.TxType.{TxType}
use vocdoni_node.Account.{increment_account_process_index}
use vocdoni_node.Process.{
  add_process, get_process, end_time, same, set_process_status, set_process_duration,
  set_process_metadata, set_process_census,
}
use vocdoni_node.Sik.{purge_register_sik}
use vocdoni_node.Ist.{schedule, reschedule, remove_action, attempt, tally_action}
use vocdoni_node.Transaction.Types.{FaucetPackage, Tx, SetProcessTx}
use vocdoni_node.Transaction.Network.{Network}
use vocdoni_node.Transaction.Faucet.{pay}
use vocdoni_node.Transaction.Nonce.{check_account_nonce}
use vocdoni_node.Transaction.ElectionTx.{
  get_new_process, get_set_process, new_process_tx_check, set_process_tx_check,
  tx_election_cost_from_process, tx_cost_increase_census_size, tx_cost_increase_duration,
}

-- The action that ends an election when its time is over.
unfoldable pub end_action : Process → Action
end_action p = record {
  id = some p.process_id;
  type_id = end_process;
  height = 0;
  time_stamp = end_time p;
  election_id = p.process_id;
  attempts = 0;
  validator_votes = [];
  validator_proposer = [];
}

unfoldable pub deliver_new_process :
    Crypto → Network → Option FaucetPackage → Process → Address → Exec ⊤
deliver_new_process c net pkg p sender = do
  add_process p
  increment_account_process_index (c.bytes_to_address p.entity_id)
  schedule (end_action p)
  pay c pkg sender TxType.new_process (tx_election_cost_from_process net p)

-- `CheckTx` of a NewProcess transaction.
unfoldable pub check_new_process : Crypto → Network → Tx → Bool → Exec ⊤
unfolding get_new_process
check_new_process c net vtx for_commit = do
  when for_commit (check_account_nonce c vtx)
  r ← new_process_tx_check c net vtx
  tx ← or_raise (get_new_process vtx.payload) panicked
  when for_commit (deliver_new_process c net tx.faucet_package r.0 r.1)

-- An election that is ended by its owner is tallied at the next height.
unfoldable pub schedule_tally : Bytes → Exec ⊤
schedule_tally pid = do
  purge_register_sik pid
  attempt (remove_action pid)
  height ← gets (λ s. s.current_height)
  schedule (tally_action pid pid height)

-- The switch of `CheckTx` on the type of a SetProcess transaction: the change, and its cost.
unfoldable pub apply_change : Network → SetProcessTx → TxType → Exec ℕ
unfolding get_process
apply_change net tx TxType.set_process_status = do
  raise_if (same tx.status process_unknown) unknown_status
  set_process_status tx.process_id tx.status true
  when (same tx.status ended) (schedule_tally tx.process_id)
  pure 0
apply_change net tx TxType.set_process_census = do
  cost ←
      if ltb 0 tx.census_size
      then (do p ← get_process tx.process_id; tx_cost_increase_census_size net p tx.census_size)
      else pure 0
  set_process_census tx.process_id tx.census_root tx.census_uri tx.census_size true
  pure cost
apply_change net tx TxType.set_process_duration = do
  raise_if (tx.duration == 0) zero_duration
  p ← get_process tx.process_id
  cost ← tx_cost_increase_duration net p tx.duration
  set_process_duration tx.process_id tx.duration true
  reschedule tx.process_id (add32 p.start_time tx.duration) false 0
  pure cost
apply_change net tx TxType.set_process_metadata = do
  set_process_metadata tx.process_id tx.metadata tx.metadata_hash true
  pure 0
apply_change net tx _ = raise invalid_tx_type

unfoldable pub deliver_set_process : Crypto → Network → SetProcessTx → Address → Exec ⊤
deliver_set_process c net tx sender = do
  cost ← apply_change net tx tx.tx_type
  pay c tx.faucet_package sender tx.tx_type cost

-- `CheckTx` of a SetProcess transaction.
unfoldable pub check_set_process : Crypto → Network → Tx → Bool → Exec ⊤
unfolding get_set_process
check_set_process c net vtx for_commit = do
  when for_commit (check_account_nonce c vtx)
  sender ← set_process_tx_check c net vtx
  tx ← or_raise (get_set_process vtx.payload) panicked
  when for_commit (deliver_set_process c net tx sender)
