-- ===== src/Sensors/BuiltIn.antt =====
-- The sensors that agent/factoryfleet_agent/sensors/__init__.py registers by importing their modules,
-- and the sampling of all of them, as `SamplingRunner.sample_once` of runner.py begins.
mod Ids
pub mod Cycle
use factoryfleet.Base.{ℕ, suc, Bool, true, String, Option, none, some, List, [], ◌∷◌, if◌then◌else◌}
use factoryfleet.Config.Types.{SensorConfig}
use factoryfleet.Results.{Error, Result, ok, raised, ◌>>=◌}
use factoryfleet.Sensors.CycleCount.{
  CycleCountSensor, Counter, create_cycle_count, new_counter, cycle_count,
}
use factoryfleet.Sensors.Options.{Floats}
use factoryfleet.Sensors.Reading.{Reading}
use factoryfleet.Sensors.Registry.{Classes, Registry, register}
use factoryfleet.Sensors.Sample.{sample}
use factoryfleet.Sensors.Simulation.{Source}
use factoryfleet.Sensors.Temperature.{TemperatureSensor, create_temperature, temperature}
use factoryfleet.Sensors.Vibration.{VibrationSensor, create_vibration, vibration}
use factoryfleet.Timeutil.{Datetime}

pub data BuiltInClass : Type 0 where
  cycle_count_class : BuiltInClass
  temperature_class : BuiltInClass
  vibration_class : BuiltInClass

-- What a sensor finds around it, by its configured id: the clock's reading in its constructor, its
-- later readings of the clock, and the seed of its `random.Random`.
pub record Surroundings (F : Floats) : Type 0 where
  pub started_at : String → Datetime
  pub clock : String → ℕ → Datetime
  pub seed : String → F.Random

-- An object of one of the classes, with what it changes.
pub data BuiltIn (F : Floats) : Type 0 where
  counting : CycleCountSensor → Counter F → BuiltIn F
  heating : TemperatureSensor → Source F → BuiltIn F
  vibrating : VibrationSensor → Source F → BuiltIn F

abbrev pub id_of : {F : Floats} → BuiltIn F → String
id_of (counting self s) = self.sensor_id
id_of (heating self s) = self.sensor_id
id_of (vibrating self s) = self.sensor_id

abbrev same_class : BuiltInClass → BuiltInClass → Bool
same_class cycle_count_class cycle_count_class = true
same_class temperature_class temperature_class = true
same_class vibration_class vibration_class = true
same_class _ _ = Bool.false

abbrev class_name : BuiltInClass → String
class_name cycle_count_class = "CycleCountSensor"
class_name temperature_class = "TemperatureSensor"
class_name vibration_class = "VibrationSensor"

module _ (F : Floats) (around : Surroundings F) where
  abbrev pub new_source : SensorConfig → Source F
  new_source config = record { rng = around.seed config.sensor_id; reads = 0 }

  -- `cls(config, clock)`
  unfoldable pub construct : BuiltInClass → SensorConfig → Result (BuiltIn F)
  construct cycle_count_class config = do
    self ← create_cycle_count F config (around.started_at config.sensor_id)
    ok (counting self (new_counter F (around.seed config.sensor_id) self))
  construct temperature_class config = do
    self ← create_temperature F config (around.started_at config.sensor_id)
    ok (heating self (new_source config))
  construct vibration_class config = do
    self ← create_vibration F config (around.started_at config.sensor_id)
    ok (vibrating self (new_source config))

  abbrev pub built_in : Classes
  built_in = record {
    Class = BuiltInClass;
    Instance = BuiltIn F;
    name = class_name;
    is_sensor = λ c. true;
    is = same_class;
    construct = construct;
  }

  -- The imports run in this order, and each module registers its class.
  unfoldable pub built_in_registry : Result (Registry built_in)
  built_in_registry = do
    first ← register built_in "cycle_count" cycle_count_class []
    second ← register built_in "temperature" temperature_class first
    register built_in "vibration" vibration_class second

  -- `sensor.sample()`, where `now` is the base class's reading of the clock.
  unfoldable pub sample_one : Datetime → BuiltIn F → Result Reading × BuiltIn F
  sample_one now (counting self s) =
      let (r, t) = sample (cycle_count F (around.clock self.sensor_id) self) now s in
      (r, counting self t)
  sample_one now (heating self s) =
      let (r, t) = sample (temperature F (around.clock self.sensor_id) self) now s in
      (r, heating self t)
  sample_one now (vibrating self s) =
      let (r, t) = sample (vibration F (around.clock self.sensor_id) self) now s in
      (r, vibrating self t)

  -- The generator ends with the first sensor that raises.
  unfoldable pub sample_rest :
      Result Reading
      → BuiltIn F
      → List (BuiltIn F)
      → Result (List Reading) × List (BuiltIn F)
      → Result (List Reading) × List (BuiltIn F)
  sample_rest (raised e) sensor sensors sampled = (raised e, sensor ∷ sensors)
  sample_rest (ok r) sensor sensors (readings, after) =
      ((do rs ← readings; ok (r ∷ rs)), sensor ∷ after)

  -- `tuple(sensor.sample() for sensor in self._sensors)`; `clock n` is the n-th sensor's reading of
  -- the clock in `sample`.
  unfoldable pub sample_all :
      (ℕ → Datetime) → ℕ → List (BuiltIn F) → Result (List Reading) × List (BuiltIn F)
  unfolding sample_one sample_rest
  sample_all clock n [] = (ok [], [])
  sample_all clock n (sensor ∷ sensors) =
      let (r, after) = sample_one (clock n) sensor in
      sample_rest r after sensors (sample_all clock (suc n) sensors)
