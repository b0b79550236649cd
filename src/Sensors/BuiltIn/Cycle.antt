-- ===== src/Sensors/BuiltIn/Cycle.antt =====
-- What a cycle over the built-in sensors reads.
use factoryfleet.Sensors.BuiltIn.Ids.{create_all-ids}
use mathlib.Core.Path.{ap₂, subst}
use factoryfleet.Base.{ℕ, zero, suc, ◌≡◌, refl, ap, ◌∙◌, String, List, [], ◌∷◌, map, All}
use factoryfleet.Config.Types.{SensorConfig}
use factoryfleet.Results.{ok, ◌>>=◌, Ensures-bind, Ensures-any, Ensures-ok}
use factoryfleet.Sensors.BuiltIn.{
  BuiltIn, Surroundings, id_of, built_in, built_in_registry, sample_one, sample_rest, sample_all,
  counting, heating, vibrating,
}
use factoryfleet.Sensors.CycleCount.{cycle_count}
use factoryfleet.Sensors.CycleCount.Counts.{RaisesExceptions-cycle_count}
use factoryfleet.Sensors.Options.{Floats, AreDoubles}
use factoryfleet.Sensors.Reading.{Reading}
use factoryfleet.Sensors.Registry.{create_all}
use factoryfleet.Sensors.Sample.{sample}
use factoryfleet.Sensors.Sample.Laws.{sample_total}
use factoryfleet.Sensors.Temperature.{temperature}
use factoryfleet.Sensors.Temperature.Judged.{RaisesExceptions-temperature}
use factoryfleet.Sensors.Vibration.{vibration}
use factoryfleet.Sensors.Vibration.Judged.{RaisesExceptions-vibration}
use factoryfleet.Sensors.Sample.Shape.{IsStampedBy-IsLegible}
use factoryfleet.Timeutil.{Datetime, IsDatetime}
use factoryfleet.Wire.Conforms.{IsLegible, IsSound}

-- One reading of each sensor, in their order, each captured at its own reading of the clock, with
-- finite metrics, and with an error text only if it has failed.
abbrev pub AreReadings : (ℕ → Datetime) → ℕ → List String → List Reading → Type 0
AreReadings clock n [] [] = Unit
AreReadings clock n [] (r ∷ rs) = ⊥
AreReadings clock n (i ∷ is) [] = ⊥
AreReadings clock n (i ∷ is) (r ∷ rs) =
    (r.sensor_id ≡ i) × (r.captured_at ≡ clock n) × IsLegible r × AreReadings clock (suc n) is rs

pub AreReadings-IsSound :
    (clock : ℕ → Datetime)
    → ((n : ℕ) → IsDatetime (clock n))
    → (n : ℕ) (is : List String) (rs : List Reading) → AreReadings clock n is rs
    → All IsSound rs
AreReadings-IsSound clock ticks n [] [] h = tt
AreReadings-IsSound clock ticks n [] (r ∷ rs) h = absurd h
AreReadings-IsSound clock ticks n (i ∷ is) [] h = absurd h
AreReadings-IsSound clock ticks n (i ∷ is) (r ∷ rs) (_, stamped, legible, rest) = (
  record { timed = rw stamped (ticks n); legible = legible },
  AreReadings-IsSound clock ticks (suc n) is rs rest,
)

module _ (F : Floats) (around : Surroundings F) where
  -- The sensors after k cycles; `clock k` is the clock of the k-th.
  abbrev pub after_cycles : (ℕ → ℕ → Datetime) → ℕ → List (BuiltIn F) → List (BuiltIn F)
  after_cycles clock zero sensors = sensors
  after_cycles clock (suc k) sensors =
      (sample_all F around (clock k) 0 (after_cycles clock k sensors)).1

module _ (F : Floats) (D : AreDoubles F) (around : Surroundings F) where
  -- A sensor is read, keeps its id, and its reading is stamped with both.
  sample_one_total :
      (now : Datetime) (b : BuiltIn F)
      → (r : Reading) × (c : BuiltIn F) × (sample_one F around now b ≡ (ok r, c))
        × (r.sensor_id ≡ id_of b)
        × (r.captured_at ≡ now)
        × IsLegible r
        × (id_of c ≡ id_of b)
  unfolding sample_one
  sample_one_total now (counting self s) =
      let sensor = cycle_count F (around.clock self.sensor_id) self in
      let after = counting self (sample sensor now s).1 in
      let (r, done, h) =
        sample_total sensor now
          (RaisesExceptions-cycle_count F D (around.clock self.sensor_id) self) s in
      (
        r,
        after,
        ap (λ x. (x, after)) done,
        h.named,
        h.stamped,
        IsStampedBy-IsLegible sensor now s r h,
        refl,
      )
  sample_one_total now (heating self s) =
      let sensor = temperature F (around.clock self.sensor_id) self in
      let after = heating self (sample sensor now s).1 in
      let (r, done, h) =
        sample_total sensor now
          (RaisesExceptions-temperature F D (around.clock self.sensor_id) self) s in
      (
        r,
        after,
        ap (λ x. (x, after)) done,
        h.named,
        h.stamped,
        IsStampedBy-IsLegible sensor now s r h,
        refl,
      )
  sample_one_total now (vibrating self s) =
      let sensor = vibration F (around.clock self.sensor_id) self in
      let after = vibrating self (sample sensor now s).1 in
      let (r, done, h) =
        sample_total sensor now (RaisesExceptions-vibration F D (around.clock self.sensor_id) self)
          s in
      (
        r,
        after,
        ap (λ x. (x, after)) done,
        h.named,
        h.stamped,
        IsStampedBy-IsLegible sensor now s r h,
        refl,
      )

  pub sample_all_total :
      (clock : ℕ → Datetime) (n : ℕ) (sensors : List (BuiltIn F))
      → (rs : List Reading) × (after : List (BuiltIn F)) × (sample_all F around clock n sensors
          ≡ (ok rs, after))
        × AreReadings clock n (map id_of sensors) rs
        × (map id_of after ≡ map id_of sensors)
  unfolding sample_all sample_rest
  sample_all_total clock n [] = ([], [], refl, tt, refl)
  sample_all_total clock n (sensor ∷ sensors) =
      let (r, c, done, named, stamped, legible, kept) = sample_one_total (clock n) sensor in
      let (rs, after, finished, rest, ids) = sample_all_total clock (suc n) sensors in
      (
        r ∷ rs,
        c ∷ after,
        rw (done, finished) refl,
        (named, stamped, legible, rest),
        ap₂ (λ i is. i ∷ is) kept ids,
      )

  after_cycles-ids :
      (clock : ℕ → ℕ → Datetime) (k : ℕ) (sensors : List (BuiltIn F))
      → map id_of (after_cycles F around clock k sensors) ≡ map id_of sensors
  after_cycles-ids clock zero sensors = refl
  after_cycles-ids clock (suc k) sensors =
      let (rs, after, done, _, kept) =
        sample_all_total (clock k) 0 (after_cycles F around clock k sensors) in
      ap (λ x. map id_of (x.1)) done ∙ kept ∙ after_cycles-ids clock k sensors

-- Over doubles: where the import registers the built-in classes and `create_all` builds the sensors of
-- some configurations, every later cycle, whatever the earlier ones read, raises nothing and gives
-- exactly one reading for each configuration, under its id, in their order, each captured at its own
-- reading of the clock, with finite metrics, and with an error text only if it has failed.
pub sample_all-create_all :
    (F : Floats) (around : Surroundings F) (configs : List SensorConfig)
    (sensors : List (BuiltIn F)) (clock : ℕ → ℕ → Datetime) (k : ℕ)
    → AreDoubles F
    → (do registry ← built_in_registry F around; create_all (built_in F around) registry configs)
      ≡ ok sensors
    → (rs : List Reading) × ((sample_all F around
          (clock k)
          0
          (after_cycles F around clock k sensors)).0
        ≡ ok rs)
      × AreReadings (clock k) 0 (map (λ c. c.sensor_id) configs) rs
sample_all-create_all F around configs sensors clock k D built =
    let created =
      Ensures-ok
        (Ensures-bind (Ensures-any (built_in_registry F around))
          (λ registry _. create_all-ids F around registry configs))
        built in
    let (rs, after, done, read, _) =
      sample_all_total F D around (clock k) 0 (after_cycles F around clock k sensors) in
    (
      rs,
      ap (λ x. x.0) done,
      subst (λ is. AreReadings (clock k) 0 is rs)
          (after_cycles-ids F D around clock k sensors ∙ created) read,
    )
