-- ===== src/Tests/SchedulerRuns.antt =====
-- A loop whose second tick raises and overruns, with a handler that raises too, stopped before its third iteration; and a scheduler
-- whose thread does not end in time.
use factoryfleet.Base.{
  ◌≡◌, refl, ◌*◌, ◌+◌, true, false, not, ◌&&◌, none, some, [], ◌∷◌, arith, leb, ◌==◌, if◌then◌else◌,
}
use factoryfleet.Results.{Error, ok, raised}
use factoryfleet.Scheduler.{
  lasting, rest_of, ended_by, Environment, Scheduler, create, tick, ticked, report, swallowed,
  waited, loop, run,
}
use factoryfleet.Scheduler.Pace.{IsTaken, Finishes, run_total}
use factoryfleet.Scheduler.Loop.{Ends, loop_total}
use factoryfleet.Scheduler.Lifecycle.{Control, is_running, start, stop, stop_restart}

abbrev broken : Error
broken = record { type_name = "ValueError"; message = "handler"; is_exception = true }

abbrev environment : Environment
environment = record {
  is_stopped = λ n. leb 2 n;
  started = λ n. n * 10;
  ended = λ n. n * 10 + (if n == 1 then 30 else 4);
  raises = λ n. n == 1;
  on_error = some (λ n. raised broken);
  wait = λ n timeout. ok false;
}

abbrev every_ten : Scheduler
every_ten = record {
  interval = lasting 10;
  run_immediately = true;
  ticks = 0;
  errors = 0;
  waits = [];
}

-- The tick that overran gets no rest.
two_ticks :
    loop environment 3 0 every_ten
    ≡ some (ok (record every_ten { ticks = 2; errors = 1; waits = lasting 6 ∷ lasting 0 ∷ [] }))
unfolding loop tick report ticked waited swallowed rest_of ended_by
two_ticks = refl

loop_total_example : Ends environment 2 0 every_ten (loop environment 3 0 every_ten)
loop_total_example = loop_total environment 3 2 0 every_ten (omega arith) refl

abbrev live : Control
live = record { has_thread = true; stop_set = false }

stop_restart_example :
    let (finished, t) = stop true live in
    (t.stop_set ≡ true)
    × (finished ≡ not (is_running true live))
    × (is_running true t ≡ (not finished && true))
    × (start true t ≡ (
        if not finished && true
        then none
        else some (record { has_thread = true; stop_set = false })))
stop_restart_example = stop_restart true true live

run_total_example :
    IsTaken (lasting 10)
    × Finishes environment
        (λ timeout. ok false)
        (lasting 10)
        2
        (run environment (λ timeout. ok false) 3 every_ten)
unfolding create
run_total_example =
    run_total environment (λ timeout. ok false) (lasting 10) 3 2 true every_ten refl (omega arith)
      refl
