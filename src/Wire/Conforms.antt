-- ===== src/Wire/Conforms.antt =====
-- What agent/factoryfleet_agent/wire.py writes has the shapes of docs/SPEC.md.
use factoryfleet.Base.{
  String, true, false, ◌||◌, str_eq, ◌≡◌, refl, none, some, List, [], ◌∷◌, All, ◌⊎◌, inl, inr,
}
use factoryfleet.Config.Types.{AssetIdentity}
use factoryfleet.Json.{object, array, lookup, put}
use factoryfleet.Sensors.Metrics.{IsFinite}
use factoryfleet.Sensors.Reading.{
  SensorCondition, healthy, critical, failed, value, Metrics, metric_fields, Reading, to_payload,
}
use factoryfleet.Timeutil.{Datetime, IsDatetime}
use factoryfleet.Timeutil.RoundTrip.{parse_iso-iso}
use factoryfleet.Wire.{reading_items, text_items, telemetry_batch, registration, stamp_sent}
use factoryfleet.Wire.Shape.{
  fits, are_numbers, reading_shape, telemetry_shape, registration_shape, many, text,
}

-- Finite metrics, and a text of an error only on a failure.
pub record IsLegible (r : Reading) : Type 0 where
  pub finite : All IsFinite r.metrics
  pub explained : (r.error ≡ none) ⊎ ((r.condition ≡ failed) × (t : String) × (r.error ≡ some t))

pub record IsSound (r : Reading) : Type 0 where
  pub timed : IsDatetime r.captured_at
  pub legible : IsLegible r

are_numbers-metric_fields : (ms : Metrics) → All IsFinite ms → are_numbers (metric_fields ms) ≡ true
unfolding are_numbers metric_fields
are_numbers-metric_fields [] h = refl
are_numbers-metric_fields ((k, n) ∷ ms) h = rw (h.0, are_numbers-metric_fields ms h.1)

-- Every condition's value is one of the three words.
value-cases :
    (c : SensorCondition)
    → (str_eq (value c) "OK"
        || (str_eq (value c) "CRITICAL" || (str_eq (value c) "ERROR" || false)))
      ≡ true
unfolding value
value-cases healthy = refl
value-cases critical = refl
value-cases failed = refl

pub to_payload-fits : (r : Reading) → IsSound r → fits reading_shape (object (to_payload r)) ≡ true
unfolding fits to_payload lookup value
to_payload-fits r h = elim h.legible.explained [
  | inl fine ↦
      rw
        (
          fine,
          parse_iso-iso r.captured_at h.timed,
          value-cases r.condition,
          are_numbers-metric_fields r.metrics h.legible.finite,
        )
        refl
  | inr (bad, t, told) ↦
      rw
        (
          told,
          bad,
          parse_iso-iso r.captured_at h.timed,
          are_numbers-metric_fields r.metrics h.legible.finite,
        )
        refl
]

fits-reading_items :
    (rs : List Reading)
    → All IsSound rs
    → fits (many reading_shape) (array (reading_items rs)) ≡ true
unfolding fits reading_items
fits-reading_items [] h = refl
fits-reading_items (r ∷ rs) h = rw (to_payload-fits r h.0) (fits-reading_items rs h.1)

fits-text_items : (ts : List String) → fits (many text) (array (text_items ts)) ≡ true
unfolding fits text_items
fits-text_items [] = refl
fits-text_items (t ∷ ts) = fits-text_items ts

-- Once stamped, a batch of sound readings has the shape of a telemetry message.
pub fits-telemetry_batch :
    (identity : AssetIdentity) (rs : List Reading) (batched_at sent_at : Datetime)
    → All IsSound rs
    → IsDatetime batched_at
    → IsDatetime sent_at
    → fits telemetry_shape (object (stamp_sent (telemetry_batch identity rs batched_at) sent_at))
      ≡ true
unfolding fits telemetry_batch stamp_sent put lookup
fits-telemetry_batch identity rs batched_at sent_at h b s =
    rw (parse_iso-iso batched_at b, parse_iso-iso sent_at s, fits-reading_items rs h) refl

-- Once stamped, a registration has its shape.
pub fits-registration :
    (identity : AssetIdentity) (sensor_ids : List String) (version : String)
    (declared_at sent_at : Datetime)
    → IsDatetime declared_at
    → IsDatetime sent_at
    → fits registration_shape
        (object (stamp_sent (registration identity sensor_ids version declared_at) sent_at))
      ≡ true
unfolding fits registration stamp_sent put lookup
fits-registration identity sensor_ids version declared_at sent_at d s =
    rw (parse_iso-iso declared_at d, parse_iso-iso sent_at s, fits-text_items sensor_ids) refl
