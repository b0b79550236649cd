-- ===== src/Sensors/Limit.antt =====
-- The test of a reading against a hard limit, which `VibrationSensor.evaluate` and
-- `TemperatureSensor.evaluate` of agent/factoryfleet_agent/sensors make on one metric each.
use factoryfleet.Base.{◌≡◌, Bool, true, String, Option, none, some, arith, if◌then◌else◌}
use factoryfleet.Json.{Float, Number, int, float}
use factoryfleet.Results.{Error, Result, ok, raised}
use factoryfleet.Sensors.Metrics.{metric}
use factoryfleet.Sensors.Options.{Floats}
use factoryfleet.Sensors.Reading.{Metrics, SensorCondition, healthy, critical}

abbrev pub condition_if : Bool → SensorCondition
condition_if over = if over then critical else healthy

module _ (F : Floats) where
  -- `metrics[key] > limit`, for the metric that `metrics[key]` found.
  unfoldable pub limit_of : Option Number → Float → String → Result SensorCondition
  limit_of (some (float x)) limit key = ok (condition_if (F.gt x limit))
  limit_of (some (int i)) limit key = ok (condition_if (F.int_gt i limit))
  limit_of none limit key =
      raised (record { type_name = "KeyError"; message = key; is_exception = true })

  unfoldable pub within_limit : String → Float → Metrics → Result SensorCondition
  unfolding limit_of
  within_limit key limit metrics = limit_of (metric key metrics) limit key

  limit_of_error :
      (found : Option Number) (limit : Float) (key : String) (e : Error)
      → limit_of found limit key ≡ raised e
      → e.is_exception ≡ true
  unfolding limit_of
  limit_of_error (some (float x)) limit key e h = absurd (ground (arith, h))
  limit_of_error (some (int i)) limit key e h = absurd (ground (arith, h))
  limit_of_error none limit key e h = ground (arith, h)

  pub within_limit_error :
      (key : String) (limit : Float) (metrics : Metrics) (e : Error)
      → within_limit key limit metrics ≡ raised e
      → e.is_exception ≡ true
  unfolding within_limit
  within_limit_error key limit metrics e h = limit_of_error (metric key metrics) limit key e h

  -- With a float there, the condition is critical exactly if it is over the limit.
  pub within_limit_float :
      (key : String) (limit : Float) (metrics : Metrics) (x : Float) (c : SensorCondition)
      → metric key metrics ≡ some (float x)
      → within_limit key limit metrics ≡ ok c
      → c ≡ condition_if (F.gt x limit)
  unfolding within_limit
  within_limit_float key limit metrics x c e h = ground (arith, e, h)
