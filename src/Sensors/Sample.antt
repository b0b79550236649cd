-- ===== src/Sensors/Sample.antt =====
-- The `Sensor` base class of agent/factoryfleet_agent/sensors/base.py. A subclass is a parameter: its
-- methods may raise anything and change the object. The lock has no effect within one call.
pub mod Laws
pub mod Measured
pub mod Shape
use factoryfleet.Base.{
  ℕ, ◌≡◌, Bool, true, false, String, ◌<>◌, Option, none, some, List, [], ◌∷◌, str_eq, if◌then◌else◌,
}
use factoryfleet.Json.{Fields}
use factoryfleet.Sensors.Metrics.{
  Error, Result, ok, raised, Returned, validate_metrics, describe, ◌>>=◌,
}
use factoryfleet.Sensors.Reading.{Reading, Metrics, SensorCondition, failed}
use factoryfleet.Timeutil.{Datetime}

-- A sensor's class with its configured id.
pub record Sensor : Type 1 where
  pub State : Type 0
  pub sensor_id : String
  pub commands : List String
  pub read : State → Result Returned × State
  pub evaluate : Metrics → State → Result SensorCondition × State
  pub handle_command : String → Fields → State → Result Fields × State

module _ (self : Sensor) (captured_at : Datetime) where
  abbrev pub failure : Metrics → String → Reading
  failure metrics text = record {
    sensor_id = self.sensor_id;
    captured_at = captured_at;
    metrics = metrics;
    condition = failed;
    error = some text;
  }

  abbrev pub success : Metrics → SensorCondition → Reading
  success metrics condition = record {
    sensor_id = self.sensor_id;
    captured_at = captured_at;
    metrics = metrics;
    condition = condition;
    error = none;
  }

  -- `except Exception`: any other exception goes on.
  unfoldable pub caught : Error → Reading → Result Reading
  caught e r = if e.is_exception then ok r else raised e

  unfoldable pub judge : Metrics → Result SensorCondition → Result Reading
  unfolding caught
  judge metrics (ok condition) = ok (success metrics condition)
  judge metrics (raised e) = caught e (failure metrics ("evaluate failed: " <> describe e))

  unfoldable pub evaluate_metrics : Result Metrics → self.State → Result Reading × self.State
  unfolding caught judge
  evaluate_metrics (raised e) s = (caught e (failure [] (describe e)), s)
  evaluate_metrics (ok metrics) s =
      let (judged, after) = self.evaluate metrics s in (judge metrics judged, after)

  -- `captured_at` is the sensor's reading of the clock.
  unfoldable pub sample : self.State → Result Reading × self.State
  unfolding evaluate_metrics
  sample s =
      let (result, after) = self.read s in
      evaluate_metrics (do returned ← result; validate_metrics returned) after

abbrev unknown_command : String → Error
unknown_command message = record {
  type_name = "UnknownCommand";
  message = message;
  is_exception = true;
}

-- What the base class's `handle_command` raises.
abbrev pub unhandled : String → String → Error
unhandled sensor_id name =
    unknown_command ("sensor '" <> (sensor_id <> ("' has no handler for '" <> (name <> "'"))))

unfoldable pub mem : String → List String → Bool
mem name [] = false
mem name (n ∷ ns) = if str_eq n name then true else mem name ns

unfoldable pub execute : (self : Sensor) → String → Fields → self.State → Result Fields × self.State
execute self name args s = if mem name self.commands then self.handle_command name args s else (
  raised (
      unknown_command
        ("sensor '" <> (self.sensor_id <> ("' does not accept command '" <> (name <> "'"))))),
  s,
)
