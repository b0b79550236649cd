-- ===== src/Tests/MainRuns.antt =====
-- The process over the directory of ConfigRuns, a new database and one class of sensors.
use factoryfleet.Base.{
  ◌≡◌, refl, ◌==◌, List, Option, true, false, not, ◌&&◌, String, none, some, [], ◌∷◌, All, arith,
  str_eq,
}
use factoryfleet.Agent.Calls.{Call, IsFine, run_calls, run_calls-Serves}
use factoryfleet.Agent.Lives.{Serves}
use factoryfleet.Agent.{Agent, Config, calm}
use factoryfleet.Agent.Create.{Parts, assembled, max_outbox_entries}
use factoryfleet.Config.Load.{enabled_sensors, load}
use factoryfleet.Config.Load.Escapes.{load_errors}
use factoryfleet.Config.Load.Refusals.{IsRefusal}
use factoryfleet.Config.Machine.{Machine}
use factoryfleet.Config.Toml.{config_error}
use factoryfleet.Main.Outcomes.{Ends, main-Ends}
use factoryfleet.Main.Whole.{main-Run}
use factoryfleet.Main.{Life, exits, main}
use factoryfleet.Main.Laws.{TakesSteps, AreReady, main_total}
use factoryfleet.Results.{Error, ok, raised}
use factoryfleet.Scheduler.Lifecycle.{new_control}
use factoryfleet.Sensors.Registry.{Classes, create, construct_found, create_all, find}
use factoryfleet.Store.Queue.{queue, IsValid}
use factoryfleet.Store.Types.{reopen}
use factoryfleet.System.{System, Run}
use factoryfleet.System.Carries.{HasRow}
use factoryfleet.System.Integrity.{IsOwn, Conforms}
use factoryfleet.System.Safety.{IsSafe}
use factoryfleet.Tests.Console.{console, IsConsole-console, argv, args, parsed}
use factoryfleet.System.Live.{live}
use factoryfleet.Tests.ConfigRuns.{disk, accepted, load-accepted, KeepsSign-to_float}
use factoryfleet.Tests.Data.{
  noon, IsDatetime-noon, stopped_clock, press, vibration, seized, IsSound-both, Budget,
  budget_broker, IsConfirming-budget_broker,
}

-- An instance is its configured id.
abbrev gauges : Classes
gauges = record {
  Class = String;
  Instance = String;
  name = λ c. c;
  is_sensor = λ c. true;
  is = str_eq;
  construct = λ c config. ok config.sensor_id;
}

abbrev client : Budget
client = record { budget = 5; log = [] }

abbrev parts : Parts disk budget_broker
parts = record {
  classes = gauges;
  id_of = λ id. id;
  registry = ("vibration", "Gauge") ∷ [];
  open_database = λ path. ok (record { asset_state = []; outbox = []; sequence = 0 });
  create_client = λ broker. ok client;
}

-- Threads that have done nothing yet.
abbrev life : Life budget_broker
life = record {
  threads = λ a. a;
  sampler_alive = false;
  publisher_alive = false;
  stop_calls = calm;
  left =
      (assembled parts "0.2.0" accepted (record { asset_state = []; outbox = []; sequence = 0 }) []
        client new_control new_control).agent.publisher;
}

TakesSteps-life : TakesSteps life
TakesSteps-life a = record {
  end = live a.publisher.store a.publisher.client;
  run = Run.here;
  store_reached = refl;
  client_reached = refl;
  running_kept = refl;
  open_kept = refl;
  sampler_kept = refl;
  publisher_kept = refl;
}

AreReady-accepted : AreReady disk budget_broker parts "0.2.0" accepted
unfolding create_all create construct_found find enabled_sensors reopen
AreReady-accepted = record {
  database = record { asset_state = []; outbox = []; sequence = 0 };
  sensors = "vibration" ∷ [];
  client = client;
  opened = refl;
  built = refl;
  connected = refl;
  readable = omega arith;
}

main_total_example :
    (a : Agent budget_broker) × (main console parts stopped_clock "0.2.0" life argv
      ≡ exits 0 (some a))
    × (a.running ≡ false)
    × (a.closed ≡ (not life.sampler_alive && not life.publisher_alive))
    × IsValid a.publisher.store
main_total_example =
    main_total disk budget_broker console parts stopped_clock "0.2.0" life argv args accepted
      IsConfirming-budget_broker IsConsole-console (λ n. IsDatetime-noon) KeepsSign-to_float
      TakesSteps-life refl parsed load-accepted AreReady-accepted

-- Threads that take a cycle, drain, and take another, of which a write fails.
abbrev self : Config
self =
    (assembled parts "0.2.0" accepted (record { asset_state = []; outbox = []; sequence = 0 }) []
      client new_control new_control).self

abbrev calls : List Call
calls =
    Call.cycle (λ n. false) noon noon (vibration ∷ seized ∷ [])
    ∷ Call.drain
    ∷ Call.cycle (λ n. n == 2) noon noon (vibration ∷ seized ∷ [])
    ∷ []

IsFine-calls : All IsFine calls
IsFine-calls = (
  (IsSound-both, IsDatetime-noon, IsDatetime-noon),
  (tt, ((IsSound-both, IsDatetime-noon, IsDatetime-noon), tt)),
)

abbrev or_agent : Agent budget_broker → Option (Agent budget_broker) → Agent budget_broker
or_agent a none = a
or_agent a (some b) = b

abbrev busy : Life budget_broker
busy = record life {
  threads = λ a. or_agent a (run_calls budget_broker stopped_clock self calls a);
}

Serves-busy :
    (a : Agent budget_broker) → IsValid a.publisher.store → Serves press a (busy.threads a)
Serves-busy a v =
    let (b, done, serves, _) =
      run_calls-Serves budget_broker IsConfirming-budget_broker stopped_clock (λ n. IsDatetime-noon)
        self calls a IsFine-calls v in
    rw done serves

nothing_waits :
    All (HasRow (IsOwn press)) (queue (reopen max_outbox_entries AreReady-accepted.database))
unfolding reopen AreReady-accepted
nothing_waits = tt

main-Run_example :
    (a : Agent budget_broker) × (t : System budget_broker) × (main console parts stopped_clock
        "0.2.0" busy argv
      ≡ exits 0 (some a))
    × Run budget_broker
        (live (reopen max_outbox_entries AreReady-accepted.database) AreReady-accepted.client)
        t
    × (a.publisher.store ≡ t.store)
    × (a.publisher.client ≡ t.client)
    × IsSafe t
    × All (Conforms press) t.delivered
main-Run_example =
    main-Run disk budget_broker console parts stopped_clock "0.2.0" busy argv args accepted
      IsConfirming-budget_broker IsConsole-console (λ n. IsDatetime-noon) KeepsSign-to_float
      Serves-busy refl parsed load-accepted AreReady-accepted nothing_waits

-- No class is registered, so that the configured sensor cannot be built.
abbrev unregistered : Parts disk budget_broker
unregistered = record parts { registry = [] }

main-Ends_example :
    Ends disk budget_broker console unregistered stopped_clock "0.2.0" life argv
      (main console unregistered stopped_clock "0.2.0" life argv)
main-Ends_example =
    main-Ends disk budget_broker console unregistered stopped_clock "0.2.0" life argv
      KeepsSign-to_float IsConsole-console

-- A disk with no configuration directory.
abbrev bare : Machine
bare = record disk { is_dir = λ path. ok false }

abbrev not_found : Error
not_found = record {
  type_name = "ConfigError";
  message = "configuration directory not found: config";
  is_exception = true;
}

load-bare : load bare "config" ≡ raised not_found
unfolding load config_error
load-bare = refl

load_errors_example : IsRefusal bare not_found
load_errors_example = load_errors bare "config" not_found load-bare
