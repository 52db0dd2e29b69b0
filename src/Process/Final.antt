-- ===== src/Process/Final.antt =====
-- CANCELED and RESULTS are final: vochain/state/process.go under any sequence of its calls.
use vocdoni_node.Base.{
  ℕ, ◌≡◌, ◌∙◌, ◌⊎◌, refl, sym, inl, inr, Bool, Option, none, some, List, [], ◌∷◌, arith,
  Option-cases, Bool-cases,
}
use vocdoni_node.Base.Bytes.{Bytes, bytes_equal, bytes_equal_iff}
use vocdoni_node.Base.Dict.{lookup, insert, lookup-insert}
use vocdoni_node.Chain.{Process, ProcessStatus, State}
use vocdoni_node.Process.{
  add_process, set_process_status, set_process_duration, set_process_metadata, set_process_results,
  set_process_census,
}
use vocdoni_node.Process.Frame.{
  Frozen, Effect, unchanged, written, set_process_status-Effect, set_process_duration-Effect,
  set_process_metadata-Effect, set_process_results-Effect, set_process_census-Effect,
}

-- A call of a method of the state that writes processes.
pub data Call : Type 0 where
  adding : Process → Call
  status_of : Bytes → ProcessStatus → Bool → Call
  duration_of : Bytes → ℕ → Bool → Call
  metadata_of : Bytes → Bytes → Bytes → Bool → Call
  results_of : Bytes → List (List ℕ) → Call
  census_of : Bytes → Option Bytes → Bytes → ℕ → Bool → Call

abbrev pub after : Call → State → State
after (adding p) s = (add_process p s).1
after (status_of pid st commit) s = (set_process_status pid st commit s).1
after (duration_of pid d commit) s = (set_process_duration pid d commit s).1
after (metadata_of pid uri hash commit) s = (set_process_metadata pid uri hash commit s).1
after (results_of pid r) s = (set_process_results pid r s).1
after (census_of pid root uri size commit) s = (set_process_census pid root uri size commit s).1

-- The state after the calls in order, the failed ones included.
abbrev pub run_calls : List Call → State → State
run_calls [] s = s
run_calls (c ∷ cs) s = run_calls cs (after c s)

-- Every process is stored under its own identifier.
abbrev pub Keyed : State → Type 0
Keyed s = (pid : Bytes) (p : Process) → lookup pid s.processes ≡ some p → p.process_id ≡ pid

insert-Keyed :
    (s : State) (key : Bytes) (q' : Process) (k : Bytes) (p : Process)
    → Keyed s
    → q'.process_id ≡ key
    → lookup k (insert key q' s.processes) ≡ some p
    → p.process_id ≡ k
insert-Keyed s key q' k p keyed id h = elim (Bool-cases (bytes_equal key k)) [
  | inl e ↦
      let same_key = (bytes_equal_iff key k).0 e in
      ground (arith, e, same_key, id, lookup-insert key k q' s.processes, h)
  | inr e ↦ keyed k p (ground (arith, e, lookup-insert key k q' s.processes, h))
]

Effect-Keyed : (qid : Bytes) (s s' : State) → Keyed s → Effect qid s s' → Keyed s'
Effect-Keyed qid s s' keyed (unchanged e) pid p h = keyed pid p (ground (arith, e, h))
Effect-Keyed qid s s' keyed (written q q' hq nf id e) pid p h =
    insert-Keyed s q.process_id q' pid p keyed id (ground (arith, e, h))

Effect-final :
    (qid : Bytes) (s s' : State) (pid : Bytes) (p : Process)
    → Keyed s
    → lookup pid s.processes ≡ some p
    → Frozen p
    → Effect qid s s'
    → lookup pid s'.processes ≡ some p
Effect-final qid s s' pid p keyed hp f (unchanged e) = ground (arith, e, hp)
Effect-final qid s s' pid p keyed hp f (written q q' hq nf id e) =
    elim (Bool-cases (bytes_equal q.process_id pid)) [
      | inr d ↦ ground (arith, e, d, hp, lookup-insert q.process_id pid q' s.processes)
      | inl d ↦
          let qid_is_pid = sym (keyed qid q hq) ∙ (bytes_equal_iff q.process_id pid).0 d in
          absurd (nf (ground (arith, hq, hp, f, qid_is_pid)))
    ]

adding-cases :
    (p : Process) (s : State)
    → ((add_process p s).1.processes ≡ s.processes)
      ⊎ ((lookup p.process_id s.processes ≡ none)
          × ((add_process p s).1.processes ≡ insert p.process_id p s.processes))
unfolding add_process
adding-cases p s = elim (Option-cases (lookup p.process_id s.processes)) [
  | inl e ↦ inr (e, ground (arith, e))
  | inr (q, e) ↦ inl (ground (arith, e))
]

adding-Keyed : (p : Process) (s : State) → Keyed s → Keyed (add_process p s).1
adding-Keyed p s keyed pid q h = elim (adding-cases p s) [
  | inl e ↦ keyed pid q (ground (arith, e, h))
  | inr (_, e) ↦ insert-Keyed s p.process_id p pid q keyed refl (ground (arith, e, h))
]

adding-final :
    (q : Process) (s : State) (pid : Bytes) (p : Process)
    → lookup pid s.processes ≡ some p
    → lookup pid (add_process q s).1.processes ≡ some p
adding-final q s pid p hp = elim (adding-cases q s) [
  | inl e ↦ ground (arith, e, hp)
  | inr (free, e) ↦ ground (
    arith,
    e,
    free,
    hp,
    bytes_equal_iff q.process_id pid,
    lookup-insert q.process_id pid q s.processes,
  )
]

after-Keyed : (c : Call) (s : State) → Keyed s → Keyed (after c s)
after-Keyed (adding p) s k = adding-Keyed p s k
after-Keyed (status_of pid st b) s k = Effect-Keyed pid s _ k (set_process_status-Effect pid st b s)
after-Keyed (duration_of pid d b) s k =
    Effect-Keyed pid s _ k (set_process_duration-Effect pid d b s)
after-Keyed (metadata_of pid u h b) s k =
    Effect-Keyed pid s _ k (set_process_metadata-Effect pid u h b s)
after-Keyed (results_of pid r) s k = Effect-Keyed pid s _ k (set_process_results-Effect pid r s)
after-Keyed (census_of pid r u n b) s k =
    Effect-Keyed pid s _ k (set_process_census-Effect pid r u n b s)

after-final :
    (c : Call) (s : State) (pid : Bytes) (p : Process)
    → Keyed s
    → lookup pid s.processes ≡ some p
    → Frozen p
    → lookup pid (after c s).processes ≡ some p
after-final (adding q) s pid p k hp f = adding-final q s pid p hp
after-final (status_of pid st b) s id p k hp f =
    Effect-final pid s _ id p k hp f (set_process_status-Effect pid st b s)
after-final (duration_of pid d b) s id p k hp f =
    Effect-final pid s _ id p k hp f (set_process_duration-Effect pid d b s)
after-final (metadata_of pid u h b) s id p k hp f =
    Effect-final pid s _ id p k hp f (set_process_metadata-Effect pid u h b s)
after-final (results_of pid r) s id p k hp f =
    Effect-final pid s _ id p k hp f (set_process_results-Effect pid r s)
after-final (census_of pid r u n b) s id p k hp f =
    Effect-final pid s _ id p k hp f (set_process_census-Effect pid r u n b s)

-- Where every process is stored under its own identifier, the record of a process that is CANCELED or
-- has RESULTS is never changed by any sequence of calls of `AddProcess` and of the setters of
-- status, duration, metadata, results and census.
pub run_calls_final :
    (cs : List Call) (s : State) (pid : Bytes) (p : Process)
    → Keyed s
    → lookup pid s.processes ≡ some p
    → Frozen p
    → lookup pid (run_calls cs s).processes ≡ some p
run_calls_final [] s pid p k hp f = hp
run_calls_final (c ∷ cs) s pid p k hp f =
    run_calls_final cs (after c s) pid p (after-Keyed c s k) (after-final c s pid p k hp f) f
