-- ===== src/Sensors/Temperature/Judged.antt =====
-- What a reading of agent/factoryfleet_agent/sensors/temperature.py says.
use factoryfleet.Base.{
  ◌⊎◌, ℕ, ◌≡◌, refl, sym, ap, ◌∙◌, true, false, String, some, List, [], ◌∷◌, arith,
}
use factoryfleet.Config.Types.{SensorConfig}
use factoryfleet.Json.{Float, float}
use factoryfleet.Results.{
  Error, Result, ok, raised, raised-ne-ok, Ensures, returns, Ensures-bind, Ensures-any, Ensures-ok,
}
use factoryfleet.Sensors.Limit.{condition_if, within_limit_error, within_limit_float}
use factoryfleet.Sensors.Metrics.{Value, number, mapping, metric, last_value}
use factoryfleet.Sensors.Options.{Floats, AreDoubles, nought, required_float, float_option}
use factoryfleet.Sensors.Reading.{Reading}
use factoryfleet.Sensors.Sample.{sample}
use factoryfleet.Sensors.Sample.Laws.{RaisesExceptions}
use factoryfleet.Sensors.Sample.Measured.{
  Measures, metric-float, HasFailed, HasFailed-cases, mapping-injective, sample-Measures,
}
use factoryfleet.Sensors.Simulation.{Source, at, at-floor, elapsed_hours}
use factoryfleet.Sensors.Temperature.{
  TemperatureSensor, create_temperature, read_at, read, evaluate, temperature,
}
use factoryfleet.Timeutil.{Datetime}

-- Both temperatures have the default floor.
pub record HasFloors (t : TemperatureSensor) : Type 0 where
  pub bearing : t.bearing.floor ≡ some nought
  pub spindle : t.spindle.floor ≡ some nought
  pub steady : t.spindle.drift_per_hour ≡ nought

create_temperature-Ensures :
    (F : Floats) (config : SensorConfig) (started_at : Datetime)
    → Ensures HasFloors (create_temperature F config started_at)
unfolding create_temperature
create_temperature-Ensures F config started_at =
    Ensures-bind (Ensures-any (required_float F config "hard_limit_bearing_c")) (λ limit _.
      Ensures-bind (Ensures-any (required_float F config "noise_c")) (λ noise _.
        Ensures-bind (Ensures-any (float_option F config "drift_c_per_hour")) (λ drift _.
          Ensures-bind (Ensures-any (required_float F config "baseline_bearing_c")) (λ bearing _.
            Ensures-bind (Ensures-any (required_float F config "baseline_spindle_c"))
              (λ spindle _. returns (record { bearing = refl; spindle = refl; steady = refl }))))))

module _ (F : Floats) (clock : ℕ → Datetime) (t : TemperatureSensor) where
  -- The mapping that `read` returns when the waveforms gave these values.
  abbrev entries_at : Float → Float → List (String × Value)
  entries_at bearing spindle =
      ("bearing_c", number (float (F.round bearing 2)))
      ∷ ("spindle_c", number (float (F.round spindle 2)))
      ∷ []

  read_at-exception :
      (hours : Result Float) (s : Source F) (e : Error)
      → ((f : Error) → hours ≡ raised f → f.is_exception ≡ true)
      → (read_at F clock t hours s).0 ≡ raised e
      → e.is_exception ≡ true
  unfolding read_at
  read_at-exception (raised f) s e exception h = ground (arith, h, exception f refl)
  read_at-exception (ok hours) s e exception h = absurd (raised-ne-ok (sym h))

  read_at-entries :
      (hours : Result Float) (s : Source F) (entries : List (String × Value))
      → (read_at F clock t hours s).0 ≡ ok (mapping entries)
      → (elapsed : Float) × (entries
          ≡ entries_at
              (at F t.bearing elapsed s.rng).0
              (at F t.spindle elapsed (at F t.bearing elapsed s.rng).1).0)
  unfolding read_at
  read_at-entries (raised f) s entries h = absurd (raised-ne-ok h)
  read_at-entries (ok hours) s entries h = (hours, mapping-injective h)

  -- What an errorless reading of the sensor says.
  pub record Warns (r : Reading) : Type 0 where
    pub bearing : Float
    pub spindle : Float
    pub bearing_reading : metric "bearing_c" r.metrics ≡ some (float bearing)
    pub spindle_reading : metric "spindle_c" r.metrics ≡ some (float spindle)
    pub bearing_not_below : F.gt nought bearing ≡ false
    pub spindle_not_below : F.gt nought spindle ≡ false
    pub judged : r.condition ≡ condition_if (F.gt bearing t.hard_limit)

module _ (F : Floats) (D : AreDoubles F) (clock : ℕ → Datetime) (t : TemperatureSensor) where
  pub RaisesExceptions-temperature : RaisesExceptions (temperature F clock t)
  unfolding read evaluate elapsed_hours
  RaisesExceptions-temperature = record {
    read-exception = λ s e h. read_at-exception F clock t _ s e (λ f g. D.div_errors _ _ f g) h;
    evaluate-exception = λ metrics s e h. within_limit_error F "bearing_c" t.hard_limit metrics e h;
  }

  warns :
      (s : Source F) (r : Reading)
      → HasFloors t
      → Measures (temperature F clock t) s r
      → Warns F clock t r
  unfolding read evaluate last_value
  warns s r floors m =
      let (elapsed, e) = read_at-entries F clock t _ s m.entries m.was_read in
      let bearing = (at F t.bearing elapsed s.rng).0 in
      let drawn = (at F t.bearing elapsed s.rng).1 in
      let spindle = (at F t.spindle elapsed drawn).0 in
      let found : metric "bearing_c" r.metrics ≡ some (float (F.round bearing 2)) =
        metric-float (metric "bearing_c" r.metrics)
          (m.agrees "bearing_c" ∙ ap (last_value "bearing_c") e) in
      record {
        bearing = F.round bearing 2;
        spindle = F.round spindle 2;
        bearing_reading = found;
        spindle_reading =
            metric-float (metric "spindle_c" r.metrics)
              (m.agrees "spindle_c" ∙ ap (last_value "spindle_c") e);
        bearing_not_below =
            D.round-keeps bearing 2 (at-floor F D t.bearing nought elapsed s.rng floors.bearing);
        spindle_not_below =
            D.round-keeps spindle 2 (at-floor F D t.spindle nought elapsed drawn floors.spindle);
        judged =
            within_limit_float F "bearing_c" t.hard_limit r.metrics (F.round bearing 2) r.condition
              found m.was_judged;
      }

-- Over doubles, a temperature sensor that was built from its configuration never raises in `sample`:
-- it returns a reading that has failed with an error text or has its two metrics, neither below zero.
-- Such a reading is critical exactly if the bearing is over the hard limit, whatever the spindle says.
pub sample-temperature :
    (F : Floats)
    → AreDoubles F
    → (clock : ℕ → Datetime)
    → (config : SensorConfig) (started_at : Datetime) (t : TemperatureSensor)
    → create_temperature F config started_at ≡ ok t
    → (now : Datetime) (s : Source F)
    → (r : Reading) × ((sample (temperature F clock t) now s).0 ≡ ok r)
      × (HasFailed r ⊎ Warns F clock t r)
sample-temperature F D clock config started_at t built now s =
    let (r, done, measures) =
      sample-Measures (temperature F clock t) now (RaisesExceptions-temperature F D clock t) s in
    (
      r,
      done,
      HasFailed-cases r.error (λ fine.
          warns F D clock t s r (Ensures-ok (create_temperature-Ensures F config started_at) built)
            (measures fine)),
    )
