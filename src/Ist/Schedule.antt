-- ===== src/Ist/Schedule.antt =====
-- Scheduling an action, moving it, and when it falls due.
use vocdoni_node.Base.{ℕ, ◌<◌, ◌≤◌, ◌≡◌, refl, true, false, none, some, arith, if◌then◌else◌}
use vocdoni_node.Base.Lists.{length}
use vocdoni_node.Base.Bytes.{Bytes, bytes_equal, bytes_equal_refl}
use vocdoni_node.Base.Words.{add32}
use vocdoni_node.Base.Dict.{lookup, insert, lookup-insert}
use vocdoni_node.Chain.{Action, State, ok, err, action_exists}
use vocdoni_node.Ist.{schedule, reschedule, is_due}

-- `Schedule` on an identifier that no action has stores the action and keeps every other one; on the
-- state that it leaves, a second `Schedule` of any action under the same identifier is refused and
-- changes nothing.
schedule_keeps :
    (id k : Bytes) (act other : Action) (s : State)
    → act.id ≡ some id
    → other.id ≡ some id
    → lookup id s.actions ≡ none
    → (s' : State) × (schedule act s ≡ (ok tt, s'))
      × (lookup k s'.actions ≡ (if bytes_equal id k then some act else lookup k s.actions))
      × (schedule other s' ≡ (err action_exists, s'))
unfolding schedule
schedule_keeps id k act other s h g free =
    let s' : State = record s { actions = insert id act s.actions } in
    let found = lookup-insert id id act s.actions in
    let there : lookup id s'.actions ≡ some act = ground (arith, found, bytes_equal_refl id) in
    (s', ground (arith, h, free), lookup-insert id k act s.actions, ground (arith, g, there))

-- An action that is stored under its own identifier and moved to a later height: it is not due at the
-- current height, whatever the time, and due at every height from the new one on.
pub reschedule_due :
    (id : Bytes) (act : Action) (new attempts_delta later now : ℕ) (s : State)
    → 0 < length id
    → lookup id s.actions ≡ some act
    → act.id ≡ some id
    → s.current_height < new
    → new ≤ later
    → (act' : Action) × ((reschedule id new true attempts_delta s).0 ≡ ok tt)
      × (lookup id (reschedule id new true attempts_delta s).1.actions ≡ some act')
      × (act'.attempts ≡ add32 act.attempts attempts_delta)
      × (is_due s.current_height now act' ≡ false)
      × (is_due later now act' ≡ true)
unfolding reschedule is_due
reschedule_due id act new attempts_delta later now s l h i k m =
    let act' : Action = record act {
      attempts = add32 act.attempts attempts_delta;
      height = new;
      time_stamp = 0;
    } in
    let found = lookup-insert id id act' s.actions in
    (
      act',
      ground (arith, l, h, i, k),
      ground (arith, l, h, i, k, found, bytes_equal_refl id),
      refl,
      ground (arith, k),
      ground (arith, k, m),
    )
