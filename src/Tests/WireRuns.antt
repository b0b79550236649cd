-- ===== src/Tests/WireRuns.antt =====
-- Payloads and topics of a press, and a run that sends its batch.
use factoryfleet.Base.{◌≡◌, refl, true, false, All, String, some, [], ◌∷◌}
use factoryfleet.Config.Types.{AssetIdentity, topic_prefix}
use factoryfleet.Json.{Fields, object, lookup}
use factoryfleet.Results.{ok}
use factoryfleet.Sensors.Metrics.{bool}
use factoryfleet.Sensors.Reading.{Reading, value, to_payload}
use factoryfleet.Sensors.Sample.Shape.{sample-fits}
use factoryfleet.Sensors.Sample.{sample}
use factoryfleet.Store.Outbox.{
  enqueue, enforce_cap, insert_outbox, new_row, pending, to_entry, to_entries,
}
use factoryfleet.Store.Table.{order_by_id, select_pending, delete_ids}
use factoryfleet.Store.Types.{OutboxEntry}
use factoryfleet.System.Integrity.{IsOwn, Conforms, Run-Conforms}
use factoryfleet.System.{System, initial, overflow, message, Step, Run, here, next}
use factoryfleet.Tests.Data.{
  noon, IsDatetime-noon, press, vibration, seized, Budget, budget_broker,
  IsConfirming-budget_broker, IsSound-both,
}
use factoryfleet.Tests.SensorRuns.{gauge, RaisesExceptions-gauge}
use factoryfleet.Timeutil.{TzInfo}
use factoryfleet.Timeutil.RoundTrip.{parse_iso-iso}
use factoryfleet.Wire.Shape.{fits, reading_shape}
use factoryfleet.Wire.Topics.{telemetry, has_slash, topic_of-injective}
use factoryfleet.Wire.{telemetry_topic, telemetry_batch, stamp_sent}

-- The gauge gives a bool, which is refused.
sample-fits_example :
    (r : Reading) × ((sample gauge noon (some (bool true))).0 ≡ ok r)
    × (fits reading_shape (object (to_payload r)) ≡ true)
sample-fits_example =
    sample-fits gauge noon (some (bool true)) IsDatetime-noon RaisesExceptions-gauge

-- A CRITICAL reading with an error text has not the shape.
abbrev told : Reading
told = record vibration { error = some "warm" }

told_refused : fits reading_shape (object (to_payload told)) ≡ false
unfolding fits to_payload lookup value
told_refused = rw (parse_iso-iso noon IsDatetime-noon) refl

abbrev repaired : AssetIdentity
repaired = record press { firmware_version = "2.4.2" }

topic_of-injective_example :
    (telemetry ≡ telemetry)
    × (press.site_id ≡ repaired.site_id)
    × (press.asset_id ≡ repaired.asset_id)
unfolding has_slash telemetry_topic topic_prefix
topic_of-injective_example = topic_of-injective telemetry telemetry press repaired refl refl refl

-- With a slash in an id two machines share their topics.
abbrev one_machine : AssetIdentity
one_machine = record press { site_id = "A/B"; asset_id = "C" }

abbrev other_machine : AssetIdentity
other_machine = record press { site_id = "A"; asset_id = "B/C" }

shared_topic : telemetry_topic one_machine ≡ telemetry_topic other_machine
unfolding telemetry_topic topic_prefix
shared_topic = refl

abbrev client : Budget
client = record { budget = 5; log = [] }

abbrev empty : System budget_broker
empty = initial 10 client

abbrev topic : String
topic = telemetry_topic press

abbrev batch : Fields
batch = telemetry_batch press (vibration ∷ seized ∷ []) noon

abbrev queued : System budget_broker
queued = record empty {
  store = (enqueue noon topic batch empty.store).1;
  dropped = overflow noon topic batch empty.store;
}

abbrev entry : OutboxEntry
entry = record {
  id = 1;
  topic = topic;
  payload = batch;
  created_at = record noon { microsecond = 123000; tzinfo = TzInfo.utc };
}

pending-queued : pending 5 queued.store ≡ some (entry ∷ [])
unfolding pending to_entries to_entry enqueue enforce_cap insert_outbox new_row order_by_id
    select_pending delete_ids
pending-queued = rw (parse_iso-iso noon IsDatetime-noon) refl

abbrev fetched : System budget_broker
fetched = record queued { in_flight = entry ∷ [] }

abbrev sent : System budget_broker
sent = record fetched {
  client = (budget_broker.publish topic (stamp_sent batch noon) client).1;
  in_flight = [];
  unmarked = some 1;
  confirmed = 1 ∷ [];
  delivered = message entry noon ∷ [];
}

abbrev Run-sent : Run budget_broker empty sent
Run-sent =
    next
      (next (next here (Step.queue_entry noon topic batch IsDatetime-noon refl))
        (Step.fetch 5 (entry ∷ []) refl pending-queued refl))
      (Step.confirm noon entry [] refl refl refl refl)

Run-Conforms_example : All (Conforms press) sent.delivered
Run-Conforms_example = Run-Conforms press 10 client sent Run-sent IsConfirming-budget_broker (
  ((tt, IsOwn.batch (vibration ∷ seized ∷ []) noon IsSound-both IsDatetime-noon refl refl), tt),
  IsDatetime-noon,
)
