-- ===== src/Sensors/BuiltIn/Ids.antt =====
-- A built-in sensor is built under its configured id.
use mathlib.Core.Path.{ap₂}
use factoryfleet.Base.{◌≡◌, refl, List, [], ◌∷◌, map, inl, inr, Option-cases}
use factoryfleet.Config.Types.{SensorConfig}
use factoryfleet.Results.{Ensures, returns, raises, Ensures-bind, Ensures-any}
use factoryfleet.Sensors.BuiltIn.{
  BuiltInClass, Surroundings, id_of, construct, built_in, cycle_count_class, temperature_class,
  vibration_class,
}
use factoryfleet.Sensors.CycleCount.{create_cycle_count}
use factoryfleet.Sensors.Options.{Floats, required_float, float_option}
use factoryfleet.Sensors.Registry.{Registry, create, create_all, find, construct_found}
use factoryfleet.Sensors.Temperature.{create_temperature}
use factoryfleet.Sensors.Vibration.{create_vibration}
use factoryfleet.Timeutil.{Datetime}

module _ (F : Floats) (around : Surroundings F) where
  create_vibration-id :
      (config : SensorConfig) (at : Datetime)
      → Ensures (λ v. v.sensor_id ≡ config.sensor_id) (create_vibration F config at)
  unfolding create_vibration
  create_vibration-id config at =
      Ensures-bind (Ensures-any (required_float F config "hard_limit_rms_mm_s")) (λ limit _.
        Ensures-bind (Ensures-any (required_float F config "peak_factor")) (λ factor _.
          Ensures-bind (Ensures-any (required_float F config "baseline_rms_mm_s")) (λ baseline _.
            Ensures-bind (Ensures-any (required_float F config "noise_mm_s")) (λ noise _.
              Ensures-bind (Ensures-any (float_option F config "drift_mm_s_per_hour"))
                (λ drift _. returns refl)))))

  create_temperature-id :
      (config : SensorConfig) (at : Datetime)
      → Ensures (λ t. t.sensor_id ≡ config.sensor_id) (create_temperature F config at)
  unfolding create_temperature
  create_temperature-id config at =
      Ensures-bind (Ensures-any (required_float F config "hard_limit_bearing_c")) (λ limit _.
        Ensures-bind (Ensures-any (required_float F config "noise_c")) (λ noise _.
          Ensures-bind (Ensures-any (float_option F config "drift_c_per_hour")) (λ drift _.
            Ensures-bind (Ensures-any (required_float F config "baseline_bearing_c")) (λ bearing _.
              Ensures-bind (Ensures-any (required_float F config "baseline_spindle_c"))
                (λ spindle _. returns refl)))))

  create_cycle_count-id :
      (config : SensorConfig) (at : Datetime)
      → Ensures (λ c. c.sensor_id ≡ config.sensor_id) (create_cycle_count F config at)
  unfolding create_cycle_count
  create_cycle_count-id config at =
      Ensures-bind (Ensures-any (required_float F config "cycles_per_minute")) (λ rate _.
        Ensures-bind (Ensures-any (float_option F config "jitter_cycles"))
          (λ jitter _. returns refl))

  construct-id :
      (cls : BuiltInClass) (config : SensorConfig)
      → Ensures (λ b. id_of b ≡ config.sensor_id) (construct F around cls config)
  unfolding construct
  construct-id cycle_count_class config =
      Ensures-bind (create_cycle_count-id config _) (λ self h. returns h)
  construct-id temperature_class config =
      Ensures-bind (create_temperature-id config _) (λ self h. returns h)
  construct-id vibration_class config =
      Ensures-bind (create_vibration-id config _) (λ self h. returns h)

  create-id :
      (registry : Registry (built_in F around)) (config : SensorConfig)
      → Ensures (λ b. id_of b ≡ config.sensor_id) (create (built_in F around) registry config)
  unfolding create construct_found
  create-id registry config = elim (Option-cases (find (built_in F around) config.kind registry)) [
    | inl unknown ↦ rw unknown raises
    | inr (cls, found) ↦ rw found (construct-id cls config)
  ]

  pub create_all-ids :
      (registry : Registry (built_in F around)) (configs : List SensorConfig)
      → Ensures
          (λ sensors. map id_of sensors ≡ map (λ c. c.sensor_id) configs)
          (create_all (built_in F around) registry configs)
  unfolding create_all
  create_all-ids registry [] = returns refl
  create_all-ids registry (config ∷ configs) = Ensures-bind (create-id registry config) (λ b h.
      Ensures-bind (create_all-ids registry configs)
        (λ sensors hs. returns (ap₂ (λ i is. i ∷ is) h hs)))
