-- ===== src/Ist.antt =====
-- vochain/ist/ist.go, vochain/ist/store.go and vochain/ist/results.go: the controller of the internal
-- state transitions, which runs the actions that are scheduled for a height or a time.
pub mod Schedule
pub mod Ending
pub mod Hidden
use vocdoni_node.Base.{
  ℕ, suc, ◌+◌, ◌*◌, ◌%◌, Bool, true, false, not, ◌||◌, ◌&&◌, Option, none, some, List, [], ◌∷◌, ltb,
  leb, ◌==◌, if◌then◌else◌,
}
use vocdoni_node.Base.Lists.{length}
use vocdoni_node.Base.Bytes.{Bytes, before}
use vocdoni_node.Base.Words.{add32, u32_mod}
use vocdoni_node.Base.Dict.{Dict, lookup, insert, erase}
use vocdoni_node.Chain.{
  Action, ActionTypeId, commit_results, end_process, update_validator_score, unknown_action,
  Process, ProcessStatus, canceled, ended, results, StateVote, State, Exec, Result, ok, err, ⊤,
  pure, raise, gets, lift, or_raise, raise_if, when, modify, ◌>>=◌, ◌>>◌, nil_action_id,
  action_exists, action_not_found, height_passed, timestamp_passed, unknown_ist_action,
}
use vocdoni_node.Process.{get_process, get_timestamp, same, set_process_status, set_process_results}
use vocdoni_node.Sik.{purge_siks_by_election}
use vocdoni_node.Results.{Tally}
use vocdoni_node.Results.Compute.{Envelopes, compute_results}

unfoldable pub retrieve_action : Bytes → Exec Action
retrieve_action id = do found ← gets (λ s. lookup id s.actions); or_raise found action_not_found

unfoldable pub add_action : Action → Exec ⊤
add_action act = do
  id ← or_raise act.id nil_action_id
  modify (λ s. record s { actions = insert id act s.actions })

unfoldable pub remove_action : Bytes → Exec ⊤
remove_action id = modify (λ s. record s { actions = erase id s.actions })

abbrev pub is_some : Option Action → Bool
is_some none = false
is_some (some _) = true

-- `Schedule`
unfoldable pub schedule : Action → Exec ⊤
unfolding add_action
schedule act = do
  id ← or_raise act.id nil_action_id
  found ← gets (λ s. lookup id s.actions)
  raise_if (is_some found) action_exists
  add_action act

-- `Reschedule` to a height or to a time, which must not have come yet.
unfoldable pub reschedule : Bytes → ℕ → Bool → ℕ → Exec ⊤
unfolding add_action retrieve_action
reschedule id new true attempts_delta = do
  raise_if (length id == 0) nil_action_id
  act ← retrieve_action id
  height ← gets (λ s. s.current_height)
  raise_if (leb new height) height_passed
  add_action
      (record act { attempts = add32 act.attempts attempts_delta; height = new; time_stamp = 0 })
reschedule id new false attempts_delta = do
  raise_if (length id == 0) nil_action_id
  act ← retrieve_action id
  now ← get_timestamp
  raise_if (leb new now) timestamp_passed
  add_action
      (record act { attempts = add32 act.attempts attempts_delta; height = 0; time_stamp = new })

-- The test of `findPendingActions`.
unfoldable pub is_due : ℕ → ℕ → Action → Bool
is_due height timestamp act =
    (not (act.height == 0) && leb act.height height)
    || (not (act.time_stamp == 0) && leb act.time_stamp timestamp)

-- The entries in the order of their keys, as the database iterates.
unfoldable pub place : Bytes × Action → Dict Action → Dict Action
place e [] = e ∷ []
place e (x ∷ xs) = let rest = place e xs in if before e.0 x.0 then e ∷ (x ∷ xs) else x ∷ rest

unfoldable pub in_key_order : Dict Action → Dict Action
in_key_order [] = []
in_key_order (e ∷ es) = place e (in_key_order es)

unfoldable pub due_actions : ℕ → ℕ → Dict Action → List Action
due_actions height timestamp [] = []
due_actions height timestamp ((_, act) ∷ es) =
    let rest = due_actions height timestamp es in
    if is_due height timestamp act then act ∷ rest else rest

-- `findPendingActions`
unfoldable pub find_pending_actions : ℕ → ℕ → State → List Action
find_pending_actions height timestamp s = due_actions height timestamp (in_key_order s.actions)

unfoldable pub keys_revealed : Option ℕ → Bool
keys_revealed none = true
keys_revealed (some index) = index == 0

-- `checkRevealedKeys`; a process that is missing has revealed none.
unfoldable pub check_revealed_keys : Bytes → State → Bool
unfolding keys_revealed
check_revealed_keys election_id s = elim (lookup election_id s.processes) [
  | none ↦ false
  | some p ↦ keys_revealed p.key_index
]

-- The statuses that `endElection` leaves alone.
unfoldable pub is_over : ProcessStatus → Bool
unfolding same
is_over status = same status canceled || same status ended || same status results

-- The action that tallies an election at the next height.
abbrev pub tally_action : Bytes → Bytes → ℕ → Action
tally_action id election_id height = record {
  id = some id;
  type_id = commit_results;
  height = add32 height 1;
  time_stamp = 0;
  election_id = election_id;
  attempts = 0;
  validator_votes = [];
  validator_proposer = [];
}

-- `endElection`; `fresh` are the random bytes that name the new action.
unfoldable pub end_election : Bytes → Bytes → Exec ⊤
end_election fresh election_id = do
  p ← get_process election_id
  if is_over p.status then pure tt else (do
    set_process_status election_id ended true
    height ← gets (λ s. s.current_height)
    schedule (tally_action fresh election_id height))

abbrev pub id_or_empty : Option Bytes → Bytes
id_or_empty none = []
id_or_empty (some id) = id

-- An error that is only logged.
abbrev pub attempt : Exec ⊤ → Exec ⊤
attempt m s = (ok tt, (m s).1)

-- The height of the next try, in 32 bits.
abbrev pub next_try : ℕ → ℕ → ℕ
next_try height attempts = add32 height (add32 1 (attempts * 2 % u32_mod))

-- What the controller calls: the opening of envelopes, the votes of the last committed state, the
-- random bytes for each new action, and the update of the scores of the validators.
pub record Outside : Type 0 where
  pub envelopes : Envelopes
  pub committed_votes : Dict (Dict StateVote)
  pub random : ℕ → Bytes
  pub update_score : List Bytes → Bytes → Exec ⊤

-- The case ActionCommitResults of `Commit`.
unfoldable pub commit_results_action : Outside → ℕ → Action → Exec ⊤
commit_results_action out height act = do
  p ← get_process act.election_id
  when p.temp_siks (attempt (purge_siks_by_election p.process_id))
  revealed ← gets (check_revealed_keys act.election_id)
  if revealed
      then (do
        r ← compute_results out.envelopes out.committed_votes act.election_id
        set_process_results act.election_id r.votes
        remove_action (id_or_empty act.id))
      else reschedule (id_or_empty act.id) (next_try height act.attempts) true 1

-- One round of `Commit`, the `n`-th.
unfoldable pub commit_action : Outside → ℕ → ℕ → Action → ActionTypeId → Exec ⊤
commit_action out height n act commit_results = commit_results_action out height act
commit_action out height n act end_process = do
  end_election (out.random n) act.election_id
  remove_action (id_or_empty act.id)
commit_action out height n act update_validator_score = do
  out.update_score act.validator_votes act.validator_proposer
  remove_action (id_or_empty act.id)
commit_action out height n act (unknown_action _) = raise unknown_ist_action

unfoldable pub commit_each : Outside → ℕ → ℕ → List Action → Exec ⊤
commit_each out height n [] = pure tt
commit_each out height n (act ∷ acts) = do
  commit_action out height n act act.type_id
  commit_each out height (suc n) acts

-- `Commit`
unfoldable pub commit : Outside → ℕ → ℕ → Exec ⊤
commit out height timestamp = do
  acts ← gets (find_pending_actions height timestamp)
  commit_each out height 0 acts
