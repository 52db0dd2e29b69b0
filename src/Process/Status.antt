-- ===== src/Process/Status.antt =====
-- The status machine of a process, as a relation, and `SetProcessStatus` as its decision.
use vocdoni_node.Base.{ℕ, ◌≤◌, ◌≡◌, ◌≢◌, ◌↔◌, ◌⊎◌, true, false, some, arith}
use vocdoni_node.Base.Bytes.{Bytes}
use vocdoni_node.Base.Dict.{lookup}
use vocdoni_node.Chain.{
  Process, ProcessStatus, process_unknown, ready, ended, canceled, paused, results, State, ok,
}
use vocdoni_node.Process.{same, end_time, check_transition, set_process_status}

-- The transitions of the status machine at time `now`, as its documentation states them.
abbrev pub Allowed : Process → ℕ → ProcessStatus → Type 0
Allowed p now ready = p.status ≡ paused
Allowed p now paused = (p.status ≡ ready) × (p.mode.interruptible ≡ true)
Allowed p now ended =
    ((p.status ≡ ready) ⊎ (p.status ≡ paused))
    × ((p.mode.interruptible ≡ true) ⊎ (end_time p ≤ now))
Allowed p now canceled =
    (p.status ≢ ended)
    × (p.status ≢ results)
    × (p.status ≢ canceled)
    × ((p.status ≡ paused) ⊎ (p.mode.interruptible ≡ true))
Allowed p now results = p.status ≡ ended
Allowed p now process_unknown = ⊥

-- What `SetProcessStatus` tests.
abbrev Admits : Process → ℕ → ProcessStatus → Type 0
Admits p now new_status =
    (same p.status new_status ≡ false) × (check_transition p now new_status ≡ ok tt)

Admits-Allowed :
    (p : Process) (now : ℕ) (new_status : ProcessStatus)
    → Admits p now new_status
    → Allowed p now new_status
unfolding check_transition
Admits-Allowed p now ready h = ground arith
Admits-Allowed p now paused h = ground arith
Admits-Allowed p now ended h = ground arith
Admits-Allowed p now canceled h = ground arith
Admits-Allowed p now results h = ground arith
Admits-Allowed p now process_unknown h = ground arith

Allowed-Admits :
    (p : Process) (now : ℕ) (new_status : ProcessStatus)
    → Allowed p now new_status
    → Admits p now new_status
unfolding check_transition
Allowed-Admits p now ready h = ground arith
Allowed-Admits p now paused h = ground arith
Allowed-Admits p now ended h = ground arith
Allowed-Admits p now canceled h = ground arith
Allowed-Admits p now results h = ground arith
Allowed-Admits p now process_unknown h = absurd h

-- `SetProcessStatus` accepts a new status, as a check that writes nothing, exactly for the allowed
-- transitions.
pub set_process_status_decides :
    (pid : Bytes) (new_status : ProcessStatus) (s : State) {p : Process} {now : ℕ}
    → lookup pid s.processes ≡ some p
    → s.timestamp ≡ some now
    → ((set_process_status pid new_status false s ≡ (ok tt, s)) ↔ Allowed p now new_status)
      × ((set_process_status pid new_status false s).1 ≡ s)
unfolding set_process_status
set_process_status_decides pid new_status s {p} {now} hp ht = (
  (
    λ h. Admits-Allowed p now new_status (ground (arith, hp, ht, h)),
    λ a. let t = Allowed-Admits p now new_status a in ground (arith, hp, ht, t),
  ),
  ground arith,
)
