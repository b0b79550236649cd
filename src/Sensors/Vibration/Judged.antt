-- ===== src/Sensors/Vibration/Judged.antt =====
-- What a reading of agent/factoryfleet_agent/sensors/vibration.py says.
use factoryfleet.Base.{
  ◌⊎◌, ℕ, ◌≡◌, refl, sym, ap, ◌∙◌, true, false, String, some, List, [], ◌∷◌, arith,
}
use factoryfleet.Config.Types.{SensorConfig}
use factoryfleet.Json.{Float, float}
use factoryfleet.Results.{
  Error, Result, ok, raised, raised-ne-ok, Ensures, returns, Ensures-bind, Ensures-any, Ensures-ok,
}
use factoryfleet.Sensors.Limit.{condition_if, within_limit_error, within_limit_float}
use factoryfleet.Sensors.Metrics.{Value, number, mapping, metric, last_value}
use factoryfleet.Sensors.Options.{Floats, AreDoubles, nought, required_float, float_option}
use factoryfleet.Sensors.Reading.{Reading}
use factoryfleet.Sensors.Sample.{sample}
use factoryfleet.Sensors.Sample.Laws.{RaisesExceptions}
use factoryfleet.Sensors.Sample.Measured.{
  Measures, metric-float, HasFailed, HasFailed-cases, mapping-injective, sample-Measures,
}
use factoryfleet.Sensors.Simulation.{Source, at, at-floor, elapsed_hours}
use factoryfleet.Sensors.Vibration.{
  VibrationSensor, create_vibration, read_at, read, evaluate, vibration,
}
use factoryfleet.Timeutil.{Datetime}

module _ (F : Floats) where
  create_vibration-Ensures :
      (config : SensorConfig) (started_at : Datetime)
      → Ensures (λ v. v.waveform.floor ≡ some nought) (create_vibration F config started_at)
  unfolding create_vibration
  create_vibration-Ensures config started_at =
      Ensures-bind (Ensures-any (required_float F config "hard_limit_rms_mm_s")) (λ limit _.
        Ensures-bind (Ensures-any (required_float F config "peak_factor")) (λ factor _.
          Ensures-bind (Ensures-any (required_float F config "baseline_rms_mm_s")) (λ baseline _.
            Ensures-bind (Ensures-any (required_float F config "noise_mm_s")) (λ noise _.
              Ensures-bind (Ensures-any (float_option F config "drift_mm_s_per_hour"))
                (λ drift _. returns refl)))))

module _ (F : Floats) (clock : ℕ → Datetime) (v : VibrationSensor) where
  -- The mapping that `read` returns when the waveform gave this value.
  abbrev entries_at : Float → List (String × Value)
  entries_at value =
      ("rms_mm_s", number (float (F.round value 3)))
      ∷ ("peak_mm_s", number (float (F.round (F.mul value v.peak_factor) 3)))
      ∷ []

  read_at-exception :
      (hours : Result Float) (s : Source F) (e : Error)
      → ((f : Error) → hours ≡ raised f → f.is_exception ≡ true)
      → (read_at F clock v hours s).0 ≡ raised e
      → e.is_exception ≡ true
  unfolding read_at
  read_at-exception (raised f) s e exception h = ground (arith, h, exception f refl)
  read_at-exception (ok hours) s e exception h = absurd (raised-ne-ok (sym h))

  read_at-entries :
      (hours : Result Float) (s : Source F) (entries : List (String × Value))
      → (read_at F clock v hours s).0 ≡ ok (mapping entries)
      → (elapsed : Float) × (entries ≡ entries_at (at F v.waveform elapsed s.rng).0)
  unfolding read_at
  read_at-entries (raised f) s entries h = absurd (raised-ne-ok h)
  read_at-entries (ok hours) s entries h = (hours, mapping-injective h)

  -- What an errorless reading of the sensor says: two floats, of which the first is not below zero and
  -- is critical exactly if it is over the limit.
  pub record Judges (r : Reading) : Type 0 where
    pub rms : Float
    pub peak : Float
    pub rms_reading : metric "rms_mm_s" r.metrics ≡ some (float rms)
    pub peak_reading : metric "peak_mm_s" r.metrics ≡ some (float peak)
    pub not_below : F.gt nought rms ≡ false
    pub judged : r.condition ≡ condition_if (F.gt rms v.hard_limit)

module _ (F : Floats) (D : AreDoubles F) (clock : ℕ → Datetime) (v : VibrationSensor) where
  pub RaisesExceptions-vibration : RaisesExceptions (vibration F clock v)
  unfolding read evaluate elapsed_hours
  RaisesExceptions-vibration = record {
    read-exception = λ s e h. read_at-exception F clock v _ s e (λ f g. D.div_errors _ _ f g) h;
    evaluate-exception = λ metrics s e h. within_limit_error F "rms_mm_s" v.hard_limit metrics e h;
  }

  judges :
      (s : Source F) (r : Reading)
      → v.waveform.floor ≡ some nought
      → Measures (vibration F clock v) s r
      → Judges F clock v r
  unfolding read evaluate last_value
  judges s r low m =
      let (elapsed, e) = read_at-entries F clock v _ s m.entries m.was_read in
      let value = (at F v.waveform elapsed s.rng).0 in
      let found : metric "rms_mm_s" r.metrics ≡ some (float (F.round value 3)) =
        metric-float (metric "rms_mm_s" r.metrics)
          (m.agrees "rms_mm_s" ∙ ap (last_value "rms_mm_s") e) in
      record {
        rms = F.round value 3;
        peak = F.round (F.mul value v.peak_factor) 3;
        rms_reading = found;
        peak_reading =
            metric-float (metric "peak_mm_s" r.metrics)
              (m.agrees "peak_mm_s" ∙ ap (last_value "peak_mm_s") e);
        not_below = D.round-keeps value 3 (at-floor F D v.waveform nought elapsed s.rng low);
        judged =
            within_limit_float F "rms_mm_s" v.hard_limit r.metrics (F.round value 3) r.condition
              found m.was_judged;
      }

-- Over doubles, a vibration sensor that was built from its configuration never raises in `sample`: it
-- returns a reading that has failed with an error text or has its two metrics, an RMS velocity that
-- is not below zero, and a peak. Such a reading is critical exactly if the RMS velocity is over the
-- hard limit.
pub sample-vibration :
    (F : Floats)
    → AreDoubles F
    → (clock : ℕ → Datetime) → (config : SensorConfig) (started_at : Datetime) (v : VibrationSensor)
    → create_vibration F config started_at ≡ ok v
    → (now : Datetime) (s : Source F)
    → (r : Reading) × ((sample (vibration F clock v) now s).0 ≡ ok r)
      × (HasFailed r ⊎ Judges F clock v r)
sample-vibration F D clock config started_at v built now s =
    let (r, done, measures) =
      sample-Measures (vibration F clock v) now (RaisesExceptions-vibration F D clock v) s in
    (
      r,
      done,
      HasFailed-cases r.error (λ fine.
          judges F D clock v s r (Ensures-ok (create_vibration-Ensures F config started_at) built)
            (measures fine)),
    )
