-- ===== src/Examples/Elections.antt =====
-- Elections: their status, and the actions that end and tally them.
use vocdoni_node.Base.{◌≡◌, ◌↔◌, refl, inl, true, false, some, List, [], ◌∷◌, arith}
use vocdoni_node.Base.Bytes.{Bytes, bytes_equal, bytes_equal_iff}
use vocdoni_node.Base.Dict.{lookup, insert, erase}
use vocdoni_node.Chain.{State, Process, Action, ready, paused, ended, canceled, ok}
use vocdoni_node.Process.{set_process_status, is_open}
use vocdoni_node.Process.Status.{Allowed, set_process_status_decides}
use vocdoni_node.Process.Final.{Call, run_calls, run_calls_final}
use vocdoni_node.Results.{Tally}
use vocdoni_node.Results.Compute.{compute_results, ballots, empty_tally}
use vocdoni_node.Ist.{Outside, reschedule, is_due, end_election, tally_action}
use vocdoni_node.Ist.Schedule.{reschedule_due}
use vocdoni_node.Ist.Ending.{end_election_schedules}
use vocdoni_node.Ist.Hidden.{Hidden}
use vocdoni_node.Examples.Fixtures.{chain, election, election_id}

election_found : lookup election_id (chain ready).processes ≡ some (election ready)
unfolding lookup bytes_equal
election_found = refl

set_process_status_decides_example :
    ((set_process_status election_id paused false (chain ready) ≡ (ok tt, chain ready))
      ↔ Allowed (election ready) 120 paused)
    × ((set_process_status election_id paused false (chain ready)).1 ≡ chain ready)
set_process_status_decides_example =
    set_process_status_decides election_id paused (chain ready) election_found refl

canceled_found : lookup election_id (chain canceled).processes ≡ some (election canceled)
unfolding lookup bytes_equal
canceled_found = refl

only_one :
    (pid : Bytes) (p : Process)
    → lookup pid (chain canceled).processes ≡ some p
    → p.process_id ≡ pid
unfolding lookup
only_one pid p h = ground (arith, h, bytes_equal_iff election_id pid)

abbrev calls : List Call
calls =
    Call.status_of election_id ready true
    ∷ Call.results_of election_id ((1 ∷ []) ∷ [])
    ∷ Call.adding (election ready)
    ∷ []

run_calls_final_example :
    lookup election_id (run_calls calls (chain canceled)).processes ≡ some (election canceled)
run_calls_final_example =
    run_calls_final calls (chain canceled) election_id (election canceled) only_one canceled_found
      (inl refl)

abbrev ending : Action
ending = tally_action (4 ∷ []) election_id 7

abbrev waiting : State
waiting = record (chain ready) { actions = (4 ∷ [], ending) ∷ [] }

waiting_found : lookup (4 ∷ []) waiting.actions ≡ some ending
unfolding lookup bytes_equal
waiting_found = refl

reschedule_due_example :
    (act' : Action) × ((reschedule (4 ∷ []) 12 true 1 waiting).0 ≡ ok tt)
    × (lookup (4 ∷ []) (reschedule (4 ∷ []) 12 true 1 waiting).1.actions ≡ some act')
    × (act'.attempts ≡ 1)
    × (is_due 7 500 act' ≡ false)
    × (is_due 13 500 act' ≡ true)
reschedule_due_example =
    reschedule_due (4 ∷ []) ending 12 1 13 500 waiting (omega arith) waiting_found refl
      (omega arith) (omega arith)

open_now : is_open ready ≡ true
unfolding is_open
open_now = refl

end_election_schedules_example : end_election (4 ∷ []) election_id (chain ready) ≡ (
  ok tt,
  record (chain ready) {
    processes = insert election_id (election ended) (chain ready).processes;
    start_blocks = erase election_id (chain ready).start_blocks;
    actions = insert (4 ∷ []) (tally_action (4 ∷ []) election_id 7) (chain ready).actions;
  },
)
unfolding lookup
end_election_schedules_example =
    end_election_schedules (4 ∷ []) election_id (chain ready) (election ready) 120 election_found
      refl refl refl open_now (inl refl) refl

abbrev pub outside : Outside
outside = record {
  envelopes = record { decrypt = λ key b. some b; decode_package = λ b. some b };
  committed_votes = (election_id, []) ∷ [];
  random = λ n. n ∷ [];
  update_score = λ votes proposer s. (ok tt, s);
}

abbrev hidden : Process
hidden = record (election ended) { key_index = some 2 }

abbrev hiding : State
hiding = record waiting { processes = (election_id, hidden) ∷ [] }

abbrev finished : State
finished = record waiting { processes = (election_id, election ended) ∷ [] }

ended_found : lookup election_id finished.processes ≡ some (election ended)
unfolding lookup bytes_equal
ended_found = refl

abbrev nothing_voted : Tally
nothing_voted = empty_tally (election ended) 7

nothing_computed :
    compute_results outside.envelopes outside.committed_votes election_id finished
    ≡ (ok nothing_voted, finished)
unfolding compute_results vocdoni_node.Process.get_process lookup bytes_equal
    vocdoni_node.Results.add_votes ballots
nothing_computed = refl
