-- ===== src/Tests/SimulatedRuns.antt =====
-- The simulated sensors over the arithmetic of Doubles.
use factoryfleet.Base.{ℕ, ◌≤◌, ◌≡◌, refl, true, String, ◌⊎◌}
use factoryfleet.Config.Toml.{Table, end, entry, number, get}
use factoryfleet.Config.Types.{SensorConfig}
use factoryfleet.Json.{ℤ, float}
use factoryfleet.Results.{ok}
use factoryfleet.Sensors.CycleCount.{
  CycleCountSensor, Counter, create_cycle_count, new_counter, cycle_count,
}
use factoryfleet.Sensors.CycleCount.Counts.{Tells, sample-cycle_count}
use factoryfleet.Sensors.Options.{literal, required_float, float_option}
use factoryfleet.Sensors.Reading.{Reading}
use factoryfleet.Sensors.Sample.{sample}
use factoryfleet.Sensors.Sample.Measured.{HasFailed}
use factoryfleet.Sensors.Simulation.{waveform, Source}
use factoryfleet.Sensors.Temperature.{TemperatureSensor, create_temperature, temperature}
use factoryfleet.Sensors.Temperature.Judged.{Warns, sample-temperature}
use factoryfleet.Sensors.Vibration.{VibrationSensor, create_vibration, vibration}
use factoryfleet.Sensors.Vibration.Judged.{Judges, sample-vibration}
use factoryfleet.Tests.Data.{noon, stopped_clock}
use factoryfleet.Tests.Doubles.{whole, AreDoubles-whole}

abbrev option : String → ℕ → Table → Table
option key n rest = entry key (number (float (literal n))) rest

abbrev with_options : String → Table → SensorConfig
with_options kind options = record {
  sensor_id = kind;
  kind = kind;
  enabled = true;
  options = options;
  source = "sensor.toml";
}

abbrev pub vibration_config : SensorConfig
vibration_config = with_options "vibration" (
    option "hard_limit_rms_mm_s" 7
      (option "peak_factor" 2 (option "baseline_rms_mm_s" 3 (option "noise_mm_s" 1 end))))

abbrev pub vibration_sensor : VibrationSensor
vibration_sensor = record {
  sensor_id = "vibration";
  started_at = noon;
  hard_limit = literal 7;
  peak_factor = literal 2;
  waveform = waveform (literal 3) (literal 1) (literal 0);
}

built_vibration : create_vibration whole vibration_config noon ≡ ok vibration_sensor
unfolding create_vibration required_float get float_option
built_vibration = refl

abbrev pub source : Source whole
source = record { rng = tt; reads = 0 }

sample-vibration_example :
    (r : Reading) × ((sample (vibration whole stopped_clock vibration_sensor) noon source).0 ≡ ok r)
    × (HasFailed r ⊎ Judges whole stopped_clock vibration_sensor r)
sample-vibration_example =
    sample-vibration whole AreDoubles-whole stopped_clock vibration_config noon vibration_sensor
      built_vibration noon source

abbrev pub temperature_config : SensorConfig
temperature_config = with_options "temperature" (
    option "hard_limit_bearing_c" 90
      (option "noise_c" 1 (option "baseline_bearing_c" 50 (option "baseline_spindle_c" 40 end))))

abbrev pub temperature_sensor : TemperatureSensor
temperature_sensor = record {
  sensor_id = "temperature";
  started_at = noon;
  hard_limit = literal 90;
  bearing = waveform (literal 50) (literal 1) (literal 0);
  spindle = waveform (literal 40) (literal 1) (literal 0);
}

built_temperature : create_temperature whole temperature_config noon ≡ ok temperature_sensor
unfolding create_temperature required_float get float_option
built_temperature = refl

sample-temperature_example :
    (r : Reading) × ((sample (temperature whole stopped_clock temperature_sensor) noon source).0
      ≡ ok r)
    × (HasFailed r ⊎ Warns whole stopped_clock temperature_sensor r)
sample-temperature_example =
    sample-temperature whole AreDoubles-whole stopped_clock temperature_config noon
      temperature_sensor built_temperature noon source

abbrev counter_sensor : CycleCountSensor
counter_sensor = record {
  sensor_id = "cycle_count";
  started_at = noon;
  nominal_rate = literal 42;
  jitter = literal 0;
}

built_cycle_count :
    create_cycle_count whole (with_options "cycle_count" (option "cycles_per_minute" 42 end)) noon
    ≡ ok counter_sensor
unfolding create_cycle_count required_float get float_option
built_cycle_count = refl

abbrev counter : Counter whole
counter = new_counter whole tt counter_sensor

sample-cycle_count_example :
    (r : Reading) × (n : ℕ) × ((sample
        (cycle_count whole stopped_clock counter_sensor)
        noon
        counter).0
      ≡ ok r)
    × ((sample (cycle_count whole stopped_clock counter_sensor) noon counter).1.cycles_total
        ≡ ℤ.pos n)
    × (0 ≤ n)
    × (HasFailed r ⊎ Tells whole n r)
sample-cycle_count_example =
    sample-cycle_count whole AreDoubles-whole stopped_clock counter_sensor noon counter 0 refl
