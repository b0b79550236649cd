-- ===== src/Sensors/Reading.antt =====
-- A reading and its condition, from agent/factoryfleet_agent/sensors/base.py.
use factoryfleet.Base.{◌≡◌, refl, String, Option, none, some, List, [], ◌∷◌, str_eq, if◌then◌else◌}
use factoryfleet.Json.{Number, Fields, end, field, str, num, object}
use factoryfleet.Timeutil.{Datetime, iso}

pub data SensorCondition : Type 0 where
  healthy critical failed : SensorCondition

-- `condition.value`
unfoldable pub value : SensorCondition → String
value healthy = "OK"
value critical = "CRITICAL"
value failed = "ERROR"

-- `SensorCondition(text)`, which raises `ValueError` on any other text.
unfoldable pub condition_of : String → Option SensorCondition
condition_of text =
    if str_eq text "OK"
    then some healthy
    else if str_eq text "CRITICAL"
    then some critical
    else if str_eq text "ERROR"
    then some failed
    else none

pub condition_of-value : (c : SensorCondition) → condition_of (value c) ≡ some c
unfolding condition_of value
condition_of-value healthy = refl
condition_of-value critical = refl
condition_of-value failed = refl

abbrev pub Metrics : Type 0
Metrics = List (String × Number)

pub record Reading : Type 0 where
  pub sensor_id : String
  pub captured_at : Datetime
  pub metrics : Metrics
  pub condition : SensorCondition
  pub error : Option String

unfoldable pub metric_fields : Metrics → Fields
metric_fields [] = end
metric_fields ((name, v) ∷ rest) = field name (num v) (metric_fields rest)

error_fields : Option String → Fields
error_fields none = end
error_fields (some text) = field "error" (str text) end

unfoldable pub to_payload : Reading → Fields
unfolding metric_fields error_fields
to_payload r = field "sensorId" (str r.sensor_id) (
    field "capturedAt" (str (iso r.captured_at)) (
      field "condition" (str (value r.condition))
        (field "metrics" (object (metric_fields r.metrics)) (error_fields r.error))))
