-- ===== src/Ist/Ending.antt =====
-- The end of an election: its status, its tally, and the action that does the tally.
use vocdoni_node.Base.{ℕ, suc, ◌+◌, ◌<◌, ◌≤◌, ◌≡◌, ◌⊎◌, true, false, none, some, arith}
use vocdoni_node.Base.Lists.{length}
use vocdoni_node.Base.Bytes.{Bytes}
use vocdoni_node.Base.Words.{u32_mod}
use vocdoni_node.Base.Dict.{Dict, lookup, insert, erase}
use vocdoni_node.Chain.{Action, Process, StateVote, ended, results, State, ok}
use vocdoni_node.Process.{
  is_open, end_time, same, get_process, set_process_status, check_transition, update_process,
  register_start_block, delete_start_block, set_process_results,
}
use vocdoni_node.Results.{Tally}
use vocdoni_node.Results.Cells.{cell}
use vocdoni_node.Results.Count.{
  SmallBallots, counted, counted_weight, tally_counts, new_empty_votes-Shaped,
}
use vocdoni_node.Results.Compute.{
  Envelopes, ballots, empty_tally, effective_options, compute_results, max_questions,
}
use vocdoni_node.Ist.{
  Outside, end_election, is_over, tally_action, schedule, remove_action, check_revealed_keys,
  keys_revealed, commit_results_action,
}

-- `SetProcessStatus` to ENDED on an open process whose time is over or that can be interrupted.
set_ended :
    (pid : Bytes) (s : State) (p : Process) (now : ℕ)
    → lookup pid s.processes ≡ some p
    → p.process_id ≡ pid
    → length pid ≡ 32
    → s.timestamp ≡ some now
    → is_open p.status ≡ true
    → (p.mode.interruptible ≡ true) ⊎ (end_time p ≤ now)
    → set_process_status pid ended true s ≡ (
      ok tt,
      record s {
        processes = insert pid (record p { status = ended }) s.processes;
        start_blocks = erase pid s.start_blocks;
      },
    )
unfolding set_process_status check_transition update_process register_start_block delete_start_block
    is_open same
set_ended pid s p now h key len t o over = ground (arith, h, key, len, t, o, over)

-- An open election whose time is over, or that can be interrupted, stored under its own 32-byte
-- identifier, and a random identifier that no action has: `endElection` succeeds, the process is
-- ENDED with all else kept, it leaves the registry of start blocks, and the tally is scheduled for
-- the next height.
pub end_election_schedules :
    (fresh pid : Bytes) (s : State) (p : Process) (now : ℕ)
    → lookup pid s.processes ≡ some p
    → p.process_id ≡ pid
    → length pid ≡ 32
    → s.timestamp ≡ some now
    → is_open p.status ≡ true
    → (p.mode.interruptible ≡ true) ⊎ (end_time p ≤ now)
    → lookup fresh s.actions ≡ none
    → end_election fresh pid s ≡ (
      ok tt,
      record s {
        processes = insert pid (record p { status = ended }) s.processes;
        start_blocks = erase pid s.start_blocks;
        actions = insert fresh (tally_action fresh pid s.current_height) s.actions;
      },
    )
unfolding get_process end_election schedule is_open is_over same
end_election_schedules fresh pid s p now h key len t o over free =
    let set = set_ended pid s p now h key len t o over in ground (arith, h, set, o, free)

-- The tally of an election reads its committed votes: where the limits on questions and options hold
-- and all values of the votes that can be opened fit in 32 bits, `ComputeResults` succeeds without
-- writing to the state, with the weight of the accepted ballots and their count in every cell.
pub compute_results_counts :
    (env : Envelopes) (committed : Dict (Dict StateVote)) (pid : Bytes) (s : State) (p : Process)
    (votes : Dict StateVote)
    → lookup pid s.processes ≡ some p
    → lookup pid committed ≡ some votes
    → p.vote_options.max_count ≤ max_questions
    → suc p.vote_options.max_value < u32_mod
    → SmallBallots (ballots env p votes)
    → (r : Tally) × (compute_results env committed pid s ≡ (ok r, s))
      × (r.weight
          ≡ counted_weight (effective_options p.vote_options) p.envelope_type (ballots env p votes))
      × ((q o : ℕ)
          → cell r.votes q o
            ≡ cell (empty_tally p s.current_height).votes q o
              + counted
                  (effective_options p.vote_options)
                  p.envelope_type
                  (ballots env p votes)
                  q
                  o)
unfolding get_process compute_results empty_tally effective_options
compute_results_counts env committed pid s p votes h v few opts small =
    let eff = effective_options p.vote_options in
    let shaped =
      new_empty_votes-Shaped eff p.envelope_type s.current_height (ground (arith, few)) opts in
    let (r, all) =
      tally_counts eff p.envelope_type (ballots env p votes) (empty_tally p s.current_height) shaped
        small in
    (r, ground (arith, h, v, few, all.0), omega (arith, all.2), all.3)

-- A due tally of an ENDED election with its keys revealed and no temporary keys of voters, on which
-- `ComputeResults` succeeds: the process gets the results and the status RESULTS, and the action is
-- gone.
tally_commits :
    (out : Outside) (height : ℕ) (id : Bytes) (act : Action) (s : State) (p : Process) (r : Tally)
    → lookup act.election_id s.processes ≡ some p
    → p.process_id ≡ act.election_id
    → length act.election_id ≡ 32
    → p.temp_siks ≡ false
    → (p.key_index ≡ none) ⊎ (p.key_index ≡ some 0)
    → p.status ≡ ended
    → act.id ≡ some id
    → compute_results out.envelopes out.committed_votes act.election_id s ≡ (ok r, s)
    → commit_results_action out height act s ≡ (
      ok tt,
      record s {
        processes =
            insert act.election_id
              (record p { process_results = some r.votes; status = results })
              s.processes;
        actions = erase id s.actions;
      },
    )
unfolding get_process commit_results_action check_revealed_keys keys_revealed set_process_results
    update_process register_start_block remove_action same
tally_commits out height id act s p r h key len temp revealed over i c =
    ground (arith, h, key, len, temp, revealed, over, i, c)
