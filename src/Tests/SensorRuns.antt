-- ===== src/Tests/SensorRuns.antt =====
-- A gauge whose next measurement is its state, and a registry of two types.
use factoryfleet.Base.{
  ◌≡◌, refl, sym, ap, ℕ, Bool, true, false, String, Option, none, some, List, [], ◌∷◌, arith,
  ==_iff, ◌==◌,
}
use factoryfleet.Json.{Number, ℤ}
use factoryfleet.Sensors.Metrics.{
  Error, Result, ok, raised, Value, number, bool, Returned, mapping, validate_metrics, check_value,
  validate_entries, put_metric,
}
use factoryfleet.Sensors.Reading.{Reading, critical}
use factoryfleet.Sensors.Registry.{Classes, Registry, register}
use factoryfleet.Sensors.Registry.Laws.{Registers, register_total}
use factoryfleet.Sensors.Sample.{Sensor, sample}
use factoryfleet.Sensors.Sample.Laws.{
  RaisesExceptions, IsStampedBy, sample_total, Validates, validate_metrics_lem,
}
use factoryfleet.Tests.Data.{noon}

abbrev seized_up : Error
seized_up = record { type_name = "OSError"; message = "no device"; is_exception = true }

-- `none` is a gauge that cannot be read.
abbrev read_gauge : Option Value → Result Returned
read_gauge none = raised seized_up
read_gauge (some v) = ok (mapping (("bar", v) ∷ []))

abbrev pub gauge : Sensor
gauge = record {
  State = Option Value;
  sensor_id = "gauge";
  commands = [];
  read = λ s. (read_gauge s, s);
  evaluate = λ metrics s. (ok critical, s);
  handle_command = λ name args s. (raised seized_up, s);
}

abbrev raised_by {ℓ} : {A : Type ℓ} → Error → Result A → Error
raised_by e (ok x) = e
raised_by e (raised f) = f

abbrev is_raised {ℓ} : {A : Type ℓ} → Result A → Bool
is_raised (ok x) = false
is_raised (raised f) = true

only_seized : (s : Option Value) (e : Error) → read_gauge s ≡ raised e → e.is_exception ≡ true
only_seized none e h = ap (λ r. (raised_by seized_up r).is_exception) (sym h)
only_seized (some v) e h = absurd (ground (arith, ap is_raised h))

pub RaisesExceptions-gauge : RaisesExceptions gauge
RaisesExceptions-gauge = record {
  read-exception = λ s e h. only_seized s e h;
  evaluate-exception = λ metrics s e h. absurd (ground (arith, ap is_raised h));
}

-- The second measurement of a name counts, and a bool is refused.
abbrev entries : List (String × Value)
entries = ("bar", number (Number.int (ℤ.pos 4))) ∷ ("bar", number (Number.int (ℤ.pos 5))) ∷ []

last_counts : validate_metrics (mapping entries) ≡ ok (("bar", Number.int (ℤ.pos 5)) ∷ [])
unfolding validate_metrics check_value validate_entries put_metric
last_counts = refl

validate_metrics_lem_example : Validates entries [] (validate_metrics (mapping entries))
validate_metrics_lem_example = validate_metrics_lem entries

sample_total_example :
    (r : Reading) × ((sample gauge noon (some (bool true))).0 ≡ ok r)
    × IsStampedBy gauge noon (some (bool true)) r
sample_total_example = sample_total gauge noon RaisesExceptions-gauge (some (bool true))

-- Classes are their numbers, and an instance is its class with the configured id.
abbrev classes : Classes
classes = record {
  Class = ℕ;
  Instance = ℕ × String;
  name = λ c. "Gauge";
  is_sensor = λ c. true;
  is = λ a b. a == b;
  construct = λ c config. ok (c, config.sensor_id);
}

abbrev registry : Registry classes
registry = ("gauge", 1) ∷ ("vibration", 2) ∷ []

register_total_example : Registers classes "gauge" 3 registry (register classes "gauge" 3 registry)
register_total_example = register_total classes (λ a b. ==_iff a b) "gauge" 3 registry
