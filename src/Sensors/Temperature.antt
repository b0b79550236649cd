-- ===== src/Sensors/Temperature.antt =====
-- agent/factoryfleet_agent/sensors/temperature.py
pub mod Judged
use factoryfleet.Base.{ℕ, ◌+◌, String, [], ◌∷◌}
use factoryfleet.Config.Types.{SensorConfig}
use factoryfleet.Json.{Fields, Float, float}
use factoryfleet.Results.{Error, Result, ok, raised, ◌>>=◌}
use factoryfleet.Sensors.Limit.{within_limit}
use factoryfleet.Sensors.Metrics.{number, Returned, mapping}
use factoryfleet.Sensors.Options.{Floats, nought, required_float, float_option}
use factoryfleet.Sensors.Reading.{Metrics, SensorCondition}
use factoryfleet.Sensors.Sample.{Sensor, unhandled}
use factoryfleet.Sensors.Simulation.{Waveform, waveform, Source, at, elapsed_hours}
use factoryfleet.Timeutil.{Datetime}

pub record TemperatureSensor : Type 0 where
  pub sensor_id : String
  pub started_at : Datetime
  pub hard_limit : Float
  pub bearing : Waveform
  pub spindle : Waveform

module _ (F : Floats) where
  -- The constructor; `started_at` is the clock's reading in it. The spindle does not drift.
  unfoldable pub create_temperature : SensorConfig → Datetime → Result TemperatureSensor
  create_temperature config started_at = do
    hard_limit ← required_float F config "hard_limit_bearing_c"
    noise ← required_float F config "noise_c"
    drift ← float_option F config "drift_c_per_hour"
    bearing ← required_float F config "baseline_bearing_c"
    spindle ← required_float F config "baseline_spindle_c"
    ok (record {
      sensor_id = config.sensor_id;
      started_at = started_at;
      hard_limit = hard_limit;
      bearing = waveform bearing noise drift;
      spindle = waveform spindle noise nought;
    })

  module _ (clock : ℕ → Datetime) (self : TemperatureSensor) where
    unfoldable pub read_at : Result Float → Source F → Result Returned × Source F
    read_at (raised e) s = (raised e, record s { reads = s.reads + 1 })
    read_at (ok hours) s =
        let (bearing, after) = at F self.bearing hours s.rng in
        let (spindle, last) = at F self.spindle hours after in
        (
          ok (
              mapping (
                ("bearing_c", number (float (F.round bearing 2)))
                ∷ ("spindle_c", number (float (F.round spindle 2)))
                ∷ [])),
          record { rng = last; reads = s.reads + 1 },
        )

    unfoldable pub read : Source F → Result Returned × Source F
    unfolding read_at
    read s = read_at (elapsed_hours F self.started_at (clock s.reads)) s

    unfoldable pub evaluate : Metrics → Result SensorCondition
    evaluate metrics = within_limit F "bearing_c" self.hard_limit metrics

    -- The class as a `Sensor`: it accepts no command.
    abbrev pub temperature : Sensor
    temperature = record {
      State = Source F;
      sensor_id = self.sensor_id;
      commands = [];
      read = read;
      evaluate = λ metrics s. (evaluate metrics, s);
      handle_command = λ name args s. (raised (unhandled self.sensor_id name), s);
    }
