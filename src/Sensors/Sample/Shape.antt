-- ===== src/Sensors/Sample/Shape.antt =====
-- Whatever a sensor does, its reading has the shape of docs/SPEC.md.
use factoryfleet.Base.{◌≡◌, true, inl, inr}
use factoryfleet.Json.{object}
use factoryfleet.Results.{ok}
use factoryfleet.Sensors.Reading.{Reading, to_payload}
use factoryfleet.Sensors.Sample.{Sensor, sample}
use factoryfleet.Sensors.Sample.Laws.{RaisesExceptions, IsStampedBy, sample_total}
use factoryfleet.Timeutil.{Datetime, IsDatetime}
use factoryfleet.Wire.Conforms.{IsLegible, to_payload-fits}
use factoryfleet.Wire.Shape.{fits, reading_shape}

pub IsStampedBy-IsLegible :
    (self : Sensor) (at : Datetime) (s : self.State) (r : Reading)
    → IsStampedBy self at s r
    → IsLegible r
IsStampedBy-IsLegible self at s r h = record {
  finite = h.finite;
  explained = elim h.judged [
    | inl (bad, text, told) ↦ inr (bad, text, told)
    | inr (silent, _) ↦ inl silent
  ];
}

-- If the subclass raises nothing but an `Exception` and the clock gives a datetime, `sample` returns a
-- reading whose payload has the shape of a reading: a text for the sensor, a readable time, one of the
-- three conditions, finite numbers for metrics, and an error text on an ERROR reading alone.
pub sample-fits :
    (self : Sensor) (at : Datetime) (s : self.State)
    → IsDatetime at
    → RaisesExceptions self
    → (r : Reading) × ((sample self at s).0 ≡ ok r)
      × (fits reading_shape (object (to_payload r)) ≡ true)
sample-fits self at s v L =
    let (r, done, h) = sample_total self at L s in
    (
      r,
      done,
      to_payload-fits r
          (record { timed = rw h.stamped v; legible = IsStampedBy-IsLegible self at s r h }),
    )
