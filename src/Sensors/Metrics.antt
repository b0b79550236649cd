-- ===== src/Sensors/Metrics.antt =====
-- `_validate_metrics` and `_describe` of agent/factoryfleet_agent/sensors/base.py.
use factoryfleet.Base.{
  Option, none, some, ◌≡◌, String, ◌<>◌, Bool, true, false, ◌&&◌, List, [], ◌∷◌, str_eq, is_empty,
  strip, if◌then◌else◌,
}
pub use factoryfleet.Results.{Error, Result, ok, raised, ◌>>=◌}
use factoryfleet.Json.{Number, Float}
use factoryfleet.Sensors.Reading.{Metrics}

-- What stands in the mapping: a number, a bool, or a value of another type, by the type's name.
pub data Value : Type 0 where
  number : Number → Value
  bool : Bool → Value
  other : String → Value

-- What `read` returns: a mapping, with `str` of its keys, or a value of another type.
pub data Returned : Type 0 where
  mapping : List (String × Value) → Returned
  not_mapping : String → Returned

abbrev sensor_error : String → Error
sensor_error message = record { type_name = "SensorError"; message = message; is_exception = true }

abbrev pub no_mapping : String → Error
no_mapping type_name = sensor_error ("read() must return a mapping, got " <> type_name)

abbrev not_number : String → String → Error
not_number name type_name =
    sensor_error ("metric '" <> (name <> ("' must be a number, got " <> type_name)))

abbrev not_finite : String → String → Error
not_finite name text = sensor_error ("metric '" <> (name <> ("' is not a finite number: " <> text)))

-- The two tests of the loop on one value.
unfoldable pub check_value : String → Value → Result Number
check_value name (bool b) = raised (not_number name "bool")
check_value name (other type_name) = raised (not_number name type_name)
check_value name (number (Number.int i)) = ok (Number.int i)
check_value name (number (Number.float (Float.finite m e))) = ok (Number.float (Float.finite m e))
check_value name (number (Number.float Float.nan)) = raised (not_finite name "nan")
check_value name (number (Number.float Float.infinity)) = raised (not_finite name "inf")
check_value name (number (Number.float Float.minus_infinity)) = raised (not_finite name "-inf")

-- `validated[name] = value`
unfoldable pub put_metric : String → Number → Metrics → Metrics
put_metric name v [] = (name, v) ∷ []
put_metric name v ((n, w) ∷ ms) =
    if str_eq n name then (n, v) ∷ ms else (n, w) ∷ put_metric name v ms

-- The loop, with `validated` as its argument.
unfoldable pub validate_entries : List (String × Value) → Metrics → Result Metrics
validate_entries [] validated = ok validated
validate_entries ((name, v) ∷ rest) validated = do
  n ← check_value name v
  validate_entries rest (put_metric name n validated)

unfoldable pub validate_metrics : Returned → Result Metrics
validate_metrics (mapping entries) = validate_entries entries []
validate_metrics (not_mapping type_name) = raised (no_mapping type_name)

-- `_describe`
unfoldable pub describe : Error → String
describe e =
    let message = strip e.message in
    if is_empty message then e.type_name else e.type_name <> (": " <> message)

abbrev pub or_else {ℓ} : {A : Type ℓ} → Option A → Option A → Option A
or_else none y = y
or_else (some x) y = some x

-- What the check accepts: an int, or a float that is finite.
unfoldable pub is_finite : Number → Bool
is_finite (Number.int i) = true
is_finite (Number.float (Float.finite m e)) = true
is_finite (Number.float Float.nan) = false
is_finite (Number.float Float.infinity) = false
is_finite (Number.float Float.minus_infinity) = false

unfoldable pub is_metric : Value → Bool
unfolding is_finite
is_metric (number n) = is_finite n
is_metric (bool b) = false
is_metric (other type_name) = false

unfoldable pub are_metrics : List (String × Value) → Bool
are_metrics [] = true
are_metrics ((name, v) ∷ rest) = is_metric v && are_metrics rest

abbrev pub IsFinite : String × Number → Type 0
IsFinite (name, n) = is_finite n ≡ true

-- The value that the last entry of a name gives it, and the metric of a name.
unfoldable pub last_value : String → List (String × Value) → Option Value
last_value name [] = none
last_value name ((n, v) ∷ rest) =
    or_else (last_value name rest) (if str_eq n name then some v else none)

unfoldable pub metric : String → Metrics → Option Number
metric name [] = none
metric name ((n, v) ∷ ms) = if str_eq n name then some v else metric name ms

abbrev pub as_value : Option Number → Option Value
as_value none = none
as_value (some n) = some (number n)
