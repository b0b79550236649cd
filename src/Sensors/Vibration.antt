-- ===== src/Sensors/Vibration.antt =====
-- agent/factoryfleet_agent/sensors/vibration.py
pub mod Judged
use factoryfleet.Base.{
  ℕ, ◌+◌, Bool, true, false, String, Option, none, some, List, [], ◌∷◌, if◌then◌else◌,
}
use factoryfleet.Config.Types.{SensorConfig}
use factoryfleet.Json.{Fields, Float, Number, int, float}
use factoryfleet.Results.{Error, Result, ok, raised, ◌>>=◌}
use factoryfleet.Sensors.Limit.{within_limit}
use factoryfleet.Sensors.Metrics.{Value, number, Returned, mapping, metric}
use factoryfleet.Sensors.Options.{Floats, nought, required_float, float_option}
use factoryfleet.Sensors.Reading.{Metrics, SensorCondition, healthy, critical}
use factoryfleet.Sensors.Sample.{Sensor, unhandled}
use factoryfleet.Sensors.Simulation.{Waveform, waveform, Source, at, elapsed_hours}
use factoryfleet.Timeutil.{Datetime}

pub record VibrationSensor : Type 0 where
  pub sensor_id : String
  pub started_at : Datetime
  pub hard_limit : Float
  pub peak_factor : Float
  pub waveform : Waveform

module _ (F : Floats) where
  -- The constructor; `started_at` is the clock's reading in it.
  unfoldable pub create_vibration : SensorConfig → Datetime → Result VibrationSensor
  create_vibration config started_at = do
    hard_limit ← required_float F config "hard_limit_rms_mm_s"
    peak_factor ← required_float F config "peak_factor"
    baseline ← required_float F config "baseline_rms_mm_s"
    noise ← required_float F config "noise_mm_s"
    drift ← float_option F config "drift_mm_s_per_hour"
    ok (record {
      sensor_id = config.sensor_id;
      started_at = started_at;
      hard_limit = hard_limit;
      peak_factor = peak_factor;
      waveform = waveform baseline noise drift;
    })

  module _ (clock : ℕ → Datetime) (self : VibrationSensor) where
    unfoldable pub rms_at : Float → Source F → Float × Source F
    rms_at hours s =
        let (rms, rng) = at F self.waveform hours s.rng in
        (rms, record { rng = rng; reads = s.reads + 1 })

    unfoldable pub read_at : Result Float → Source F → Result Returned × Source F
    unfolding rms_at
    read_at (raised e) s = (raised e, record s { reads = s.reads + 1 })
    read_at (ok hours) s =
        let (rms, after) = rms_at hours s in
        (
          ok (
              mapping (
                ("rms_mm_s", number (float (F.round rms 3)))
                ∷ ("peak_mm_s", number (float (F.round (F.mul rms self.peak_factor) 3)))
                ∷ [])),
          after,
        )

    unfoldable pub read : Source F → Result Returned × Source F
    unfolding read_at
    read s = read_at (elapsed_hours F self.started_at (clock s.reads)) s

    unfoldable pub evaluate : Metrics → Result SensorCondition
    evaluate metrics = within_limit F "rms_mm_s" self.hard_limit metrics

    -- The class as a `Sensor`: it accepts no command.
    abbrev pub vibration : Sensor
    vibration = record {
      State = Source F;
      sensor_id = self.sensor_id;
      commands = [];
      read = read;
      evaluate = λ metrics s. (evaluate metrics, s);
      handle_command = λ name args s. (raised (unhandled self.sensor_id name), s);
    }
