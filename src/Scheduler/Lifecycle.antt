-- ===== src/Scheduler/Lifecycle.antt =====
-- `start`, `stop` and `is_running` of agent/factoryfleet_agent/scheduler.py. `alive` is what
-- `is_alive` says of the scheduler's thread.
use factoryfleet.Base.{◌≡◌, Bool, true, false, not, ◌&&◌, Option, none, some, arith, if◌then◌else◌}

-- Whether a thread object is there, and the stop event.
pub record Control : Type 0 where
  pub has_thread : Bool
  pub stop_set : Bool

abbrev pub new_control : Control
new_control = record { has_thread = false; stop_set = false }

-- A thread that was just started.
abbrev pub fresh_thread : Control
fresh_thread = record { has_thread = true; stop_set = false }

unfoldable pub is_running : Bool → Control → Bool
is_running alive c = c.has_thread && alive

-- `none` is the `RuntimeError` of a scheduler that runs.
unfoldable pub start : Bool → Control → Option Control
unfolding is_running
start alive c =
    if is_running alive c then none else some (record c { stop_set = false; has_thread = true })

-- `alive` is what `is_alive` says after `join(timeout)`.
unfoldable pub stop : Bool → Control → Bool × Control
stop alive c =
    let signalled = record c { stop_set = true } in
    if not c.has_thread
    then (true, signalled)
    else if alive
    then (false, signalled)
    else (true, record signalled { has_thread = false })

-- `stop` always sets the event. It returns True exactly when no thread is left running, and then
-- the scheduler can be started again whatever `is_alive` says; where it returns False a second start
-- is refused while the thread lives.
pub stop_restart :
    (alive later : Bool) (c : Control)
    → let (finished, t) = stop alive c in
      (t.stop_set ≡ true)
      × (finished ≡ not (is_running alive c))
      × (is_running later t ≡ (not finished && later))
      × (start later t ≡ (
          if not finished && later
          then none
          else some (record { has_thread = true; stop_set = false })))
unfolding stop start is_running
stop_restart alive later c = ground arith
