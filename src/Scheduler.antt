-- ===== src/Scheduler.antt =====
-- `Scheduler` of agent/factoryfleet_agent/scheduler.py. Times are in whole microseconds, but for the
-- floats that are no such time. What the loop
-- cannot know stands in an `Environment`, by the number of the iteration.
pub mod Loop
pub mod Pace
pub mod Lifecycle
use factoryfleet.Base.{
  ℕ, zero, suc, ◌+◌, ◌-◌, Bool, true, false, not, ◌&&◌, Option, none, some, List, [], ◌∷◌, ◌++◌,
  leb, if◌then◌else◌,
}
use factoryfleet.Results.{Result, ok, raised, ◌>>=◌}

-- `interval_seconds` and the timeouts, which are floats: a time, a negative number or negative infinity,
-- infinity, or NaN.
pub data Timeout : Type 0 where
  lasting : ℕ → Timeout
  below_zero endless not_a_number : Timeout

pub record Environment : Type 0 where
  -- `self._stop.is_set()` before the tick
  pub is_stopped : ℕ → Bool
  -- `self._ticker()` before and after the task
  pub started : ℕ → ℕ
  pub ended : ℕ → ℕ
  -- the task raised
  pub raises : ℕ → Bool
  -- what a call of the handler of errors does, where there is one
  pub on_error : Option (ℕ → Result (Unit {0}))
  -- `self._wait(timeout)` after the tick, which raises on a timeout that it cannot take
  pub wait : ℕ → Timeout → Result Bool

pub record Scheduler : Type 0 where
  pub interval : Timeout
  pub run_immediately : Bool
  pub ticks : ℕ
  pub errors : ℕ
  pub waits : List Timeout

-- `interval_seconds <= 0`, which is false of NaN.
abbrev pub is_refused : Timeout → Bool
is_refused (lasting i) = leb i 0
is_refused below_zero = true
is_refused endless = false
is_refused not_a_number = false

-- The constructor, which raises `ValueError` on an interval of at most 0. `waits` records the timeouts
-- of the waits that return, for the theorems alone.
unfoldable pub create : Timeout → Bool → Option Scheduler
create interval_seconds run_immediately =
    if is_refused interval_seconds
    then none
    else some (record {
      interval = interval_seconds;
      run_immediately = run_immediately;
      ticks = 0;
      errors = 0;
      waits = [];
    })

-- `max(0.0, self._interval - elapsed)`, which is 0.0 where the difference is NaN; the monotonic clock
-- does not go back.
unfoldable pub rest_of : Timeout → ℕ → ℕ → Timeout
rest_of (lasting interval) started ended = lasting (interval - (ended - started))
rest_of below_zero started ended = lasting 0
rest_of endless started ended = endless
rest_of not_a_number started ended = lasting 0

-- `except BaseException` around the call of the handler.
unfoldable pub swallowed : Result (Unit {0}) → Result (Unit {0})
swallowed (ok _) = ok tt
swallowed (raised e) = ok tt

-- `_report`
unfoldable pub report : Option (ℕ → Result (Unit {0})) → ℕ → Result (Unit {0})
unfolding swallowed
report none n = ok tt
report (some handler) n = swallowed (handler n)

-- What the tick and its wait leave.
unfoldable pub ticked : Environment → ℕ → Scheduler → Scheduler
unfolding rest_of
ticked env n s = record s {
  ticks = s.ticks + 1;
  errors = if env.raises n then s.errors + 1 else s.errors;
  waits = s.waits ++ (rest_of s.interval (env.started n) (env.ended n) ∷ []);
}

-- One iteration up to the wait. What `_report` raises would end the thread.
unfoldable pub tick : Environment → ℕ → Scheduler → Result Scheduler
unfolding report ticked
tick env n s = do _ ← if env.raises n then report env.on_error n else ok tt; ok (ticked env n s)

-- What follows a wait: what it raises ends the thread.
unfoldable pub ended_by :
    Result Bool → Scheduler → Option (Result Scheduler) → Option (Result Scheduler)
ended_by (raised e) after later = some (raised e)
ended_by (ok asked) after later = if asked then some (ok after) else later

-- The wait, and the loop from there on.
unfoldable pub waited :
    Environment
    → ℕ
    → Timeout
    → (Scheduler → Option (Result Scheduler))
    → Result Scheduler
    → Option (Result Scheduler)
unfolding ended_by
waited env n timeout rest (raised e) = some (raised e)
waited env n timeout rest (ok after) = ended_by (env.wait n timeout) after (rest after)

-- The `while` loop from its n-th iteration, with fuel; `none` is a loop that is still running.
unfoldable pub loop : Environment → ℕ → ℕ → Scheduler → Option (Result Scheduler)
unfolding tick waited rest_of
loop env zero n s = none
loop env (suc fuel) n s =
    let rest =
      waited env n (rest_of s.interval (env.started n) (env.ended n))
        (λ after. loop env fuel (suc n) after) (tick env n s) in
    if env.is_stopped n then some (ok s) else rest

-- `_loop`; the wait before the first tick is given as a function of its timeout.
unfoldable pub run :
    Environment → (Timeout → Result Bool) → ℕ → Scheduler → Option (Result Scheduler)
unfolding ended_by
run env first_wait fuel s =
    let looped = loop env fuel 0 s in
    if s.run_immediately then looped else ended_by (first_wait s.interval) s looped
