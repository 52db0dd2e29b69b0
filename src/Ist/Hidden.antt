-- ===== src/Ist/Hidden.antt =====
-- No run of the actions tallies an election that hides its keys.
use vocdoni_node.Base.{ℕ, suc, ◌≡◌, ◌≢◌, true, Option, some, List, if◌then◌else◌}
use vocdoni_node.Base.Bytes.{Bytes}
use vocdoni_node.Base.Dict.{Dict, lookup}
use vocdoni_node.Chain.{Action, Process, results, Exec, ⊤, gets, ◌>>=◌, ◌>>◌}
use vocdoni_node.Process.{set_process_results}
use vocdoni_node.Results.Compute.{compute_results}
use vocdoni_node.Ist.{
  Outside, reschedule, remove_action, next_try, check_revealed_keys, id_or_empty,
}

-- Processes are stored under their own identifiers, and one of them hides keys, has the results
-- `rs`, and not the status RESULTS.
pub record Hidden (pid : Bytes) (k : ℕ) (rs : Option (List (List ℕ))) (d : Dict Process)
    : Type 0 where
  pub keyed : (key : Bytes) (q : Process) → lookup key d ≡ some q → q.process_id ≡ key
  pub process : Process
  pub stored : lookup pid d ≡ some process
  pub hides : process.key_index ≡ some (suc k)
  pub kept : process.process_results ≡ rs
  pub untallied : process.status ≢ results

module _ (pid : Bytes) (k : ℕ) (rs : Option (List (List ℕ))) where
  -- What `commit_results_action` does after the temporary keys are purged.
  abbrev tally_rest : Outside → ℕ → Action → Exec ⊤
  tally_rest out height act = do
    revealed ← gets (check_revealed_keys act.election_id)
    if revealed
        then (do
          r ← compute_results out.envelopes out.committed_votes act.election_id
          set_process_results act.election_id r.votes
          remove_action (id_or_empty act.id))
        else reschedule (id_or_empty act.id) (next_try height act.attempts) true 1
