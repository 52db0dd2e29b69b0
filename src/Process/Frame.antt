-- ===== src/Process/Frame.antt =====
-- What the setters of a process write: the entry of that process, and nothing of another one.
use vocdoni_node.Base.{
  ℕ, ◌≡◌, ◌⊎◌, refl, inl, inr, Bool, true, false, Option, some, List, arith, Option-cases,
  Bool-cases, ◌==◌, not, ◌&&◌,
}
use vocdoni_node.Base.Lists.{length}
use vocdoni_node.Base.Bytes.{Bytes}
use vocdoni_node.Base.Dict.{lookup, insert}
use vocdoni_node.Chain.{
  Process, ProcessStatus, process_unknown, ready, ended, canceled, paused, results, State, ok,
}
use vocdoni_node.Process.{
  same, is_open, check_transition, register_start_block, update_process, set_process_status,
  set_process_duration, set_process_metadata, set_process_results, set_process_census, with_census,
}

-- A process whose status is CANCELED or RESULTS.
abbrev pub Frozen : Process → Type 0
Frozen p = (p.status ≡ canceled) ⊎ (p.status ≡ results)

-- A call wrote the process `qid`, which was not frozen, under its own identifier, or no process.
pub data Effect (qid : Bytes) (s s' : State) : Type 0 where
  unchanged : s'.processes ≡ s.processes → Effect qid s s'
  written :
      (q q' : Process)
      → lookup qid s.processes ≡ some q
      → ¬ Frozen q
      → q'.process_id ≡ q.process_id
      → s'.processes ≡ insert q.process_id q' s.processes
      → Effect qid s s'

pub register_start_block-processes :
    (p : Process) (status : ProcessStatus) (s : State)
    → ((register_start_block p status s).0 ≡ ok tt)
      × ((register_start_block p status s).1.processes ≡ s.processes)
unfolding register_start_block
register_start_block-processes p ready s = (refl, refl)
register_start_block-processes p paused s = (refl, refl)
register_start_block-processes p ended s = (refl, refl)
register_start_block-processes p _ s = (refl, refl)

pub update_process-processes :
    (p : Process) (pid : Bytes) (s : State)
    → ((update_process p pid s).1.processes ≡ s.processes)
      ⊎ ((update_process p pid s).1.processes ≡ insert pid p s.processes)
unfolding update_process
update_process-processes p pid s =
    let kept = register_start_block-processes p p.status s in
    elim (Bool-cases (length p.process_id == 32)) [
      | inr bad ↦ inl (ground (arith, bad))
      | inl good ↦ elim (Option-cases (lookup pid s.processes)) [
        | inl e ↦ inl (ground (arith, good, e, kept))
        | inr (q, e) ↦ inr (ground (arith, good, e, kept))
      ]
    ]

-- Every setter reads the process, tests, and ends in `update_process` if it is not frozen.
setter-Effect :
    (qid : Bytes) (s s' : State) (q q' : Process)
    → lookup qid s.processes ≡ some q
    → q'.process_id ≡ q.process_id
    → (s' ≡ s) ⊎ ((¬ Frozen q) × (s' ≡ (update_process q' q.process_id s).1))
    → Effect qid s s'
setter-Effect qid s s' q q' hq hid (inl e) = unchanged (ground (arith, e))
setter-Effect qid s s' q q' hq hid (inr (nf, e)) =
    elim (update_process-processes q' q.process_id s) [
      | inl k ↦ unchanged (ground (arith, e, k))
      | inr k ↦ written q q' hq nf hid (ground (arith, e, k))
    ]

is_open_live : (q : Process) → is_open q.status ≡ true → ¬ Frozen q
unfolding is_open
is_open_live q h f = ground arith

-- A process that is not open and not frozen is ENDED or unknown.
transition_live :
    (q : Process) (now : ℕ) (new_status : ProcessStatus)
    → same q.status new_status ≡ false
    → check_transition q now new_status ≡ ok tt
    → ¬ Frozen q
unfolding check_transition
transition_live q now ready d h f = ground arith
transition_live q now paused d h f = ground arith
transition_live q now ended d h f = ground arith
transition_live q now canceled d h f = ground arith
transition_live q now results d h f = ground arith
transition_live q now process_unknown d h f = ground arith

results_live :
    (q : Process) → not (same q.status ended) && not (same q.status ready) ≡ false → ¬ Frozen q
unfolding same
results_live q h f = ground arith

-- The alternatives at the end of a setter, for the process that was read.
abbrev pub Ends : State → State → Process → Process → Type 0 → Type 0
Ends s s' q q' T = (s' ≡ s) ⊎ (T × (s' ≡ (update_process q' q.process_id s).1))

from_tests :
    {T : Type 0} (qid : Bytes) (s s' : State) (q q' : Process)
    → lookup qid s.processes ≡ some q
    → q'.process_id ≡ q.process_id
    → (T → ¬ Frozen q)
    → Ends s s' q q' T
    → Effect qid s s'
from_tests qid s s' q q' hq hid nf (inl e) = setter-Effect qid s s' q q' hq hid (inl e)
from_tests qid s s' q q' hq hid nf (inr (t, e)) = setter-Effect qid s s' q q' hq hid (inr (nf t, e))

pub metadata-Ends :
    (qid uri hash : Bytes) (commit : Bool) (s : State) (q : Process)
    → lookup qid s.processes ≡ some q
    → Ends s
        (set_process_metadata qid uri hash commit s).1
        q
        (record q { metadata = some uri; metadata_hash = hash })
        (is_open q.status ≡ true)
unfolding set_process_metadata
metadata-Ends qid uri hash commit s q e = ground (arith, e)

pub set_process_metadata-Effect :
    (qid uri hash : Bytes) (commit : Bool) (s : State)
    → Effect qid s (set_process_metadata qid uri hash commit s).1
unfolding set_process_metadata
set_process_metadata-Effect qid uri hash commit s = elim (Option-cases (lookup qid s.processes)) [
  | inl e ↦ unchanged (ground (arith, e))
  | inr (q, e) ↦
      from_tests qid s _ q _ e refl (is_open_live q) (metadata-Ends qid uri hash commit s q e)
]

pub duration-Ends :
    (qid : Bytes) (n : ℕ) (commit : Bool) (s : State) (q : Process)
    → lookup qid s.processes ≡ some q
    → Ends s
        (set_process_duration qid n commit s).1
        q
        (record q { duration = n })
        (is_open q.status ≡ true)
unfolding set_process_duration
duration-Ends qid n commit s q e = ground (arith, e)

pub set_process_duration-Effect :
    (qid : Bytes) (n : ℕ) (commit : Bool) (s : State)
    → Effect qid s (set_process_duration qid n commit s).1
unfolding set_process_duration
set_process_duration-Effect qid n commit s = elim (Option-cases (lookup qid s.processes)) [
  | inl e ↦ unchanged (ground (arith, e))
  | inr (q, e) ↦ from_tests qid s _ q _ e refl (is_open_live q) (duration-Ends qid n commit s q e)
]

pub census-Ends :
    (qid : Bytes) (root : Option Bytes) (uri : Bytes) (size : ℕ) (commit : Bool) (s : State)
    (q : Process)
    → lookup qid s.processes ≡ some q
    → Ends s
        (set_process_census qid root uri size commit s).1
        q
        (with_census q root uri size)
        (is_open q.status ≡ true)
unfolding set_process_census
census-Ends qid root uri size commit s q e = ground (arith, e)

with_census-process_id :
    (q : Process) (root : Option Bytes) (uri : Bytes) (size : ℕ)
    → (with_census q root uri size).process_id ≡ q.process_id
unfolding with_census
with_census-process_id q root uri size = refl

pub set_process_census-Effect :
    (qid : Bytes) (root : Option Bytes) (uri : Bytes) (size : ℕ) (commit : Bool) (s : State)
    → Effect qid s (set_process_census qid root uri size commit s).1
unfolding set_process_census
set_process_census-Effect qid root uri size commit s =
    elim (Option-cases (lookup qid s.processes)) [
      | inl e ↦ unchanged (ground (arith, e))
      | inr (q, e) ↦
          from_tests qid s _ q _ e (with_census-process_id q root uri size) (is_open_live q)
            (census-Ends qid root uri size commit s q e)
    ]

pub results-Ends :
    (qid : Bytes) (r : List (List ℕ)) (s : State) (q : Process)
    → lookup qid s.processes ≡ some q
    → Ends s
        (set_process_results qid r s).1
        q
        (record q { process_results = some r; status = results })
        (not (same q.status ended) && not (same q.status ready) ≡ false)
unfolding set_process_results
results-Ends qid r s q e = ground (arith, e)

pub set_process_results-Effect :
    (qid : Bytes) (r : List (List ℕ)) (s : State) → Effect qid s (set_process_results qid r s).1
unfolding set_process_results
set_process_results-Effect qid r s = elim (Option-cases (lookup qid s.processes)) [
  | inl e ↦ unchanged (ground (arith, e))
  | inr (q, e) ↦ from_tests qid s _ q _ e refl (results_live q) (results-Ends qid r s q e)
]

pub status-Ends :
    (qid : Bytes) (new_status : ProcessStatus) (commit : Bool) (s : State) (q : Process) (now : ℕ)
    → lookup qid s.processes ≡ some q
    → s.timestamp ≡ some now
    → Ends s
        (set_process_status qid new_status commit s).1
        q
        (record q { status = new_status })
        ((same q.status new_status ≡ false) × (check_transition q now new_status ≡ ok tt))
unfolding set_process_status
status-Ends qid new_status commit s q now e t = ground (arith, e, t)

pub set_process_status-Effect :
    (qid : Bytes) (new_status : ProcessStatus) (commit : Bool) (s : State)
    → Effect qid s (set_process_status qid new_status commit s).1
unfolding set_process_status
set_process_status-Effect qid new_status commit s = elim (Option-cases (lookup qid s.processes)) [
  | inl e ↦ unchanged (ground (arith, e))
  | inr (q, e) ↦ elim (Option-cases s.timestamp) [
    | inl t ↦ unchanged (ground (arith, e, t))
    | inr (now, t) ↦
        from_tests qid s _ q _ e refl (λ d. transition_live q now new_status d.0 d.1)
          (status-Ends qid new_status commit s q now e t)
  ]
]
