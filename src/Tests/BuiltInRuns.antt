-- ===== src/Tests/BuiltInRuns.antt =====
-- The built-in sensors of two configurations, and their second cycle.
use factoryfleet.Base.{◌≡◌, refl, ◌==◌, List, [], ◌∷◌}
use factoryfleet.Config.Toml.{get}
use factoryfleet.Config.Types.{SensorConfig}
use factoryfleet.Results.{Result, ok, ◌>>=◌}
use factoryfleet.Runner.Sampling.{sample_readings}
use factoryfleet.Runner.{Runner}
use factoryfleet.Sensors.BuiltIn.{
  BuiltIn, Surroundings, built_in, built_in_registry, construct, sample_all, heating, vibrating,
}
use factoryfleet.Sensors.BuiltIn.Cycle.{AreReadings, after_cycles, sample_all-create_all}
use factoryfleet.Sensors.Options.{required_float, float_option}
use factoryfleet.Sensors.Reading.{Reading}
use factoryfleet.Sensors.Registry.{create, create_all, find, insert, is_taken, register}
use factoryfleet.Sensors.Temperature.{create_temperature}
use factoryfleet.Sensors.Vibration.{create_vibration}
use factoryfleet.Store.Types.{Outcome, new_store}
use factoryfleet.System.{System, initial}
use factoryfleet.Tests.Data.{noon, stopped_clock, press, budget_broker}
use factoryfleet.Tests.Doubles.{whole, AreDoubles-whole}
use factoryfleet.Tests.SimulatedRuns.{
  vibration_config, vibration_sensor, temperature_config, temperature_sensor, source,
}

abbrev pub around : Surroundings whole
around = record { started_at = λ id. noon; clock = λ id. stopped_clock; seed = λ id. tt }

abbrev configs : List SensorConfig
configs = temperature_config ∷ vibration_config ∷ []

abbrev sensors : List (BuiltIn whole)
sensors = heating temperature_sensor source ∷ vibrating vibration_sensor source ∷ []

built :
    (do
      registry ← built_in_registry whole around
      create_all (built_in whole around) registry configs)
    ≡ ok sensors
unfolding built_in_registry register find insert is_taken create_all create construct
    create_temperature create_vibration required_float get float_option
built = refl

sample_all-create_all_example :
    (rs : List Reading) × ((sample_all whole around stopped_clock 0
        (after_cycles whole around (λ k. stopped_clock) 1 sensors)).0
      ≡ ok rs)
    × AreReadings stopped_clock 0 ("temperature" ∷ "vibration" ∷ []) rs
sample_all-create_all_example =
    sample_all-create_all whole around configs sensors (λ k. stopped_clock) 1 AreDoubles-whole built

abbrev read : Result (List Reading)
read =
    (sample_all whole around stopped_clock 0
      (after_cycles whole around (λ k. stopped_clock) 1 sensors)).0

abbrev runner : Runner
runner = record {
  identity = press;
  sensor_ids = "temperature" ∷ "vibration" ∷ [];
  store = new_store 10;
  cycles = 1;
}

abbrev system : System budget_broker
system = initial 10 (record { budget = 5; log = [] })

-- The second cycle, whose BEGIN fails.
abbrev cycled : Outcome (List Reading) × Runner
cycled = sample_readings (λ n. n == 0) noon noon read runner
