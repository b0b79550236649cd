-- ===== src/Sensors/Sample/Laws.antt =====
-- What `_validate_metrics` accepts, and that `sample` never raises an `Exception`.
use factoryfleet.Base.{
  ◌<>◌, ◌≡◌, refl, true, false, String, ◌⊎◌, inl, inr, none, some, List, [], ◌∷◌, All, arith,
  str_eq, eq_iff, Bool-cases, if◌then◌else◌,
}
use factoryfleet.Json.{Number, Float}
use factoryfleet.Sensors.Metrics.{
  Error, Result, ok, raised, Value, number, bool, other, Returned, mapping, not_mapping,
  check_value, put_metric, validate_entries, validate_metrics, is_finite, is_metric, are_metrics,
  IsFinite, last_value, metric, or_else, as_value, describe, ◌>>=◌,
}
use factoryfleet.Sensors.Reading.{Reading, Metrics, failed}
use factoryfleet.Sensors.Sample.{Sensor, sample, evaluate_metrics, judge, caught, failure, success}
use factoryfleet.Timeutil.{Datetime}

-- Every value is one that the check accepts, or one that it raises on.
check_value-cases :
    (name : String) (v : Value)
    → ((n : Number) × (check_value name v ≡ ok n)
        × (v ≡ number n)
        × (is_finite n ≡ true)
        × (is_metric v ≡ true))
      ⊎ ((e : Error) × (check_value name v ≡ raised e)
          × (e.is_exception ≡ true)
          × (is_metric v ≡ false))
unfolding check_value is_metric is_finite
check_value-cases name (bool b) = inr (_, refl, refl, refl)
check_value-cases name (other t) = inr (_, refl, refl, refl)
check_value-cases name (number (Number.int i)) = inl (_, refl, refl, refl, refl)
check_value-cases name (number (Number.float (Float.finite m e))) = inl (_, refl, refl, refl, refl)
check_value-cases name (number (Number.float Float.nan)) = inr (_, refl, refl, refl)
check_value-cases name (number (Number.float Float.infinity)) = inr (_, refl, refl, refl)
check_value-cases name (number (Number.float Float.minus_infinity)) = inr (_, refl, refl, refl)

put_metric-IsFinite :
    (name : String) (n : Number) (ms : Metrics)
    → is_finite n ≡ true
    → All IsFinite ms
    → All IsFinite (put_metric name n ms)
unfolding put_metric
put_metric-IsFinite name n [] h hs = (h, tt)
put_metric-IsFinite name n ((m, w) ∷ ms) h hs = elim (Bool-cases (str_eq m name)) [
  | inl same ↦ rw same (h, hs.1)
  | inr distinct ↦ rw distinct (hs.0, put_metric-IsFinite name n ms h hs.1)
]

metric-put_metric :
    (k name : String) (n : Number) (ms : Metrics)
    → metric k (put_metric name n ms) ≡ (if str_eq name k then some n else metric k ms)
unfolding metric put_metric
metric-put_metric k name n [] = refl
metric-put_metric k name n ((m, w) ∷ ms) =
    ground (arith, eq_iff name k, eq_iff m k, eq_iff m name, metric-put_metric k name n ms)

-- The loop built metrics that are all finite and say of each name what the last entry of that name
-- said, or raised an `Exception`; which, the values decide.
unfoldable pub Validates : List (String × Value) → Metrics → Result Metrics → Type 0
Validates entries before r =
    ((ms : Metrics) × (r ≡ ok ms)
      × All IsFinite ms
      × (are_metrics entries ≡ true)
      × ((k : String)
          → as_value (metric k ms) ≡ or_else (last_value k entries) (as_value (metric k before))))
    ⊎ ((e : Error) × (r ≡ raised e) × (e.is_exception ≡ true) × (are_metrics entries ≡ false))

last_value-step :
    (k name : String) (n : Number) (ms before : Metrics) (rest : List (String × Value))
    → as_value (metric k ms)
      ≡ or_else (last_value k rest) (as_value (metric k (put_metric name n before)))
    → as_value (metric k ms)
      ≡ or_else (last_value k ((name, number n) ∷ rest)) (as_value (metric k before))
unfolding last_value
last_value-step k name n ms before rest h = ground (arith, h, metric-put_metric k name n before)

validate_entries_lem :
    (entries : List (String × Value)) (before : Metrics)
    → All IsFinite before
    → Validates entries before (validate_entries entries before)
unfolding validate_entries are_metrics Validates last_value
validate_entries_lem [] before h = inl (before, refl, h, refl, λ k. refl)
validate_entries_lem ((name, v) ∷ rest) before h = elim (check_value-cases name v) [
  | inl (n, checked, same, finite, accepted) ↦
      elim (validate_entries_lem rest (put_metric name n before)
        (put_metric-IsFinite name n before finite h)) [
          | inl (ms, done, all, accepts, agrees) ↦ inl (
            ms,
            rw checked done,
            all,
            rw accepted accepts,
            λ k. rw same (last_value-step k name n ms before rest (agrees k)),
          )
          | inr (e, done, exception, refuses) ↦
              inr (e, rw checked done, exception, rw accepted refuses)
        ]
  | inr (e, checked, exception, refused) ↦ inr (e, rw checked refl, exception, rw refused refl)
]

-- `_validate_metrics` accepts a mapping exactly if every value is an int or a finite float, no bool;
-- then all metrics are finite, and each name has the value of its last entry. Otherwise it raises an
-- `Exception`.
pub validate_metrics_lem :
    (entries : List (String × Value)) → Validates entries [] (validate_metrics (mapping entries))
unfolding validate_metrics
validate_metrics_lem entries = validate_entries_lem entries [] tt

-- The subclass raises nothing but an `Exception`.
pub record RaisesExceptions (self : Sensor) : Type 0 where
  pub read-exception :
      (s : self.State) (e : Error) → (self.read s).0 ≡ raised e → e.is_exception ≡ true
  pub evaluate-exception :
      (ms : Metrics) (s : self.State) (e : Error)
      → (self.evaluate ms s).0 ≡ raised e
      → e.is_exception ≡ true

-- A stamped reading with finite metrics: either it has failed, with a text, or it is as the subclass
-- judged it.
pub record IsStampedBy (self : Sensor) (at : Datetime) (s : self.State) (r : Reading) : Type 0 where
  pub stamped : r.captured_at ≡ at
  pub named : r.sensor_id ≡ self.sensor_id
  pub finite : All IsFinite r.metrics
  pub judged :
      ((r.condition ≡ failed) × (text : String) × (r.error ≡ some text))
      ⊎ ((r.error ≡ none) × ((self.evaluate r.metrics (self.read s).1).0 ≡ ok r.condition))

module _ (self : Sensor) (at : Datetime) where
  pub result-cases {ℓ} :
      {A : Type ℓ} (r : Result A) → ((x : A) × (r ≡ ok x)) ⊎ ((e : Error) × (r ≡ raised e))
  result-cases (ok x) = inl (x, refl)
  result-cases (raised e) = inr (e, refl)

  -- What `sample` has after `_validate_metrics`.
  IsChecked : Result Metrics → Type 0
  IsChecked r =
      ((ms : Metrics) × (r ≡ ok ms) × All IsFinite ms)
      ⊎ ((e : Error) × (r ≡ raised e) × (e.is_exception ≡ true))

  validate_metrics-cases : (v : Returned) → IsChecked (validate_metrics v)
  unfolding IsChecked validate_metrics Validates
  validate_metrics-cases (not_mapping t) = inr (_, refl, refl)
  validate_metrics-cases (mapping entries) = elim (validate_metrics_lem entries) [
    | inl (ms, done, finite, _, _) ↦ inl (ms, done, finite)
    | inr (e, done, exception, _) ↦ inr (e, done, exception)
  ]

  read-cases :
      RaisesExceptions self
      → (s : self.State) (r : Result Returned) → (self.read s).0 ≡ r
      → IsChecked (do v ← r; validate_metrics v)
  unfolding IsChecked
  read-cases L s (ok v) h = validate_metrics-cases v
  read-cases L s (raised e) h = inr (e, refl, L.read-exception s e h)

  -- If the subclass raises nothing but an `Exception`, `sample` never raises: it returns a reading of
  -- this sensor and this instant with finite metrics only, which has failed with an error text, or
  -- has no error and the condition that `evaluate` gave.
  pub sample_total :
      RaisesExceptions self
      → (s : self.State) → (r : Reading) × ((sample self at s).0 ≡ ok r) × IsStampedBy self at s r
  unfolding sample evaluate_metrics judge caught IsChecked
  sample_total L s = elim (read-cases L s (self.read s).0 refl) [
    | inr (e, checked, exception) ↦ (
      failure self at [] (describe e),
      rw (checked, exception) refl,
      record { stamped = refl; named = refl; finite = tt; judged = inl (refl, _, refl) },
    )
    | inl (ms, checked, finite) ↦ elim (result-cases (self.evaluate ms (self.read s).1).0) [
      | inl (condition, judged) ↦ (
        success self at ms condition,
        rw (checked, judged) refl,
        record { stamped = refl; named = refl; finite = finite; judged = inr (refl, judged) },
      )
      | inr (e, judged) ↦ (
        failure self at ms ("evaluate failed: " <> describe e),
        rw (checked, judged, L.evaluate-exception ms (self.read s).1 e judged) refl,
        record { stamped = refl; named = refl; finite = finite; judged = inl (refl, _, refl) },
      )
    ]
  ]
