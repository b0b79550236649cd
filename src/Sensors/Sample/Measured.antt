-- ===== src/Sensors/Sample/Measured.antt =====
-- A reading with no error says what the subclass measured, and how it judged that.
use factoryfleet.Base.{
  ◌≡◌, refl, sym, ap, ◌∙◌, String, inl, inr, ◌⊎◌, Option, none, some, List, [], arith, ◌<>◌,
}
use factoryfleet.Json.{Number}
use factoryfleet.Sensors.Metrics.{
  Result, ok, raised, Value, number, Returned, mapping, not_mapping, no_mapping, validate_metrics,
  last_value, metric, or_else, as_value, describe, ◌>>=◌,
}
use factoryfleet.Results.{ok-injective}
use factoryfleet.Sensors.Reading.{Reading, Metrics}
use factoryfleet.Sensors.Sample.{Sensor, sample, evaluate_metrics, judge, caught, failure, success}
use factoryfleet.Sensors.Sample.Laws.{
  RaisesExceptions, Validates, validate_metrics_lem, result-cases,
}
use factoryfleet.Timeutil.{Datetime}

abbrev pub HasFailed : Reading → Type 0
HasFailed r = (text : String) × (r.error ≡ some text)

pub HasFailed-cases :
    {P : Type 0} (error : Option String)
    → (error ≡ none → P)
    → ((text : String) × (error ≡ some text)) ⊎ P
HasFailed-cases none f = inr (f refl)
HasFailed-cases (some text) f = inl (text, refl)

-- The metrics of `r` are what the mapping that `read` returned says of each name.
pub record Measures (self : Sensor) (s : self.State) (r : Reading) : Type 0 where
  pub entries : List (String × Value)
  pub was_read : (self.read s).0 ≡ ok (mapping entries)
  pub agrees : (k : String) → as_value (metric k r.metrics) ≡ last_value k entries
  pub was_judged : (self.evaluate r.metrics (self.read s).1).0 ≡ ok r.condition

or_else-none {ℓ} : {A : Type ℓ} (x : Option A) → or_else x none ≡ x
or_else-none none = refl
or_else-none (some x) = refl

-- If one metric's value is a float, it is that of the last entry.
pub metric-float :
    (found : Option Number) {x : Number} → as_value found ≡ some (number x) → found ≡ some x
metric-float none h = absurd (ground (arith, h))
metric-float (some n) h = ground (arith, h)

entries_of : Returned → List (String × Value)
entries_of (mapping entries) = entries
entries_of (not_mapping t) = []

-- What was read is the mapping that the subclass returned.
pub mapping-injective :
    {xs ys : List (String × Value)} → ok (mapping xs) ≡ ok (mapping ys) → ys ≡ xs
unfolding entries_of
mapping-injective h = sym (ap entries_of (ok-injective h))

module _ (self : Sensor) (at : Datetime) (L : RaisesExceptions self) (s : self.State) where
  AsMeasured : Reading → Type 0
  AsMeasured r = r.error ≡ none → Measures self s r

  ended : (text : String) (metrics : Metrics) → AsMeasured (failure self at metrics text)
  unfolding AsMeasured
  ended text metrics h = absurd (ground (arith, h))

  measured_entries :
      (entries : List (String × Value))
      → (self.read s).0 ≡ ok (mapping entries)
      → (r : Reading) × ((sample self at s).0 ≡ ok r) × AsMeasured r
  unfolding sample evaluate_metrics judge caught Validates metric AsMeasured
  measured_entries entries e = elim (validate_metrics_lem entries) [
    | inr (error, done, exception, _) ↦ (
      failure self at [] (describe error),
      rw (e, done, exception) refl,
      ended (describe error) [],
    )
    | inl (ms, done, finite, _, says) ↦
        elim (result-cases self at (self.evaluate ms (self.read s).1).0) [
          | inl (condition, judged) ↦ (
            success self at ms condition,
            rw (e, done, judged) refl,
            λ _. record {
              entries = entries;
              was_read = e;
              agrees = λ k. says k ∙ or_else-none (last_value k entries);
              was_judged = judged;
            },
          )
          | inr (error, judged) ↦ (
            failure self at ms ("evaluate failed: " <> describe error),
            rw (e, done, judged, L.evaluate-exception ms (self.read s).1 error judged) refl,
            ended ("evaluate failed: " <> describe error) ms,
          )
        ]
  ]

  by_result :
      (result : Result Returned)
      → (self.read s).0 ≡ result
      → (r : Reading) × ((sample self at s).0 ≡ ok r) × AsMeasured r
  unfolding sample evaluate_metrics caught validate_metrics
  by_result (raised error) e = (
    failure self at [] (describe error),
    rw (e, L.read-exception s error e) refl,
    ended (describe error) [],
  )
  by_result (ok (not_mapping t)) e =
      (failure self at [] (describe (no_mapping t)), rw e refl, ended (describe (no_mapping t)) [])
  by_result (ok (mapping entries)) e = measured_entries entries e

  -- If the subclass raises nothing but an `Exception`, `sample` returns a reading, and a reading with
  -- no error has the metrics that `read` returned and the condition that `evaluate` gave to them.
  pub sample-Measures :
      (r : Reading) × ((sample self at s).0 ≡ ok r) × (r.error ≡ none → Measures self s r)
  unfolding AsMeasured
  sample-Measures = by_result (self.read s).0 refl

  -- A subclass whose `evaluate` changes nothing is left by `sample` as `read` left it.
  pub sample-keeps :
      ((ms : Metrics) (t : self.State) → (self.evaluate ms t).1 ≡ t)
      → (sample self at s).1 ≡ (self.read s).1
  unfolding sample evaluate_metrics
  sample-keeps still =
      elim (result-cases self at (do returned ← (self.read s).0; validate_metrics returned)) [
        | inl (ms, done) ↦ rw done (still ms (self.read s).1)
        | inr (e, done) ↦ rw done refl
      ]
