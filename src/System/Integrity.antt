-- ===== src/System/Integrity.antt =====
-- What the broker confirms are whole messages of this machine, in the shapes of docs/SPEC.md.
use factoryfleet.Base.{ℕ, ◌≡◌, true, String, List, All, ◌⊎◌, inl, inr}
use factoryfleet.Config.Types.{AssetIdentity}
use factoryfleet.Json.{Fields, object}
use factoryfleet.Sensors.Reading.{Reading}
use factoryfleet.System.Carries.{HasMessage, RunMeets, Run-Carries}
use factoryfleet.System.Order.{All-mono}
use factoryfleet.System.Safety.{initial-IsSafe}
use factoryfleet.System.{System, initial, Run}
use factoryfleet.Timeutil.{Datetime, IsDatetime}
use factoryfleet.Transport.Broker.{BrokerClient, IsConfirming, Message}
use factoryfleet.Wire.Conforms.{IsSound, fits-telemetry_batch, fits-registration}
use factoryfleet.Wire.Shape.{fits, telemetry_shape, registration_shape}
use factoryfleet.Wire.{telemetry_topic, registration_topic, telemetry_batch, registration}

-- The two callers that queue: the sampling cycle, with its batch, and the announcement.
pub data IsOwn (identity : AssetIdentity) (topic : String) (payload : Fields) : Type 0 where
  batch :
      (rs : List Reading) (at : Datetime)
      → All IsSound rs
      → IsDatetime at
      → topic ≡ telemetry_topic identity
      → payload ≡ telemetry_batch identity rs at
      → IsOwn identity topic payload
  announcement :
      (sensor_ids : List String) (version : String) (at : Datetime)
      → IsDatetime at
      → topic ≡ registration_topic identity
      → payload ≡ registration identity sensor_ids version at
      → IsOwn identity topic payload

-- A message that the reader can make out: its topic says which of the two shapes it has.
abbrev pub Conforms : AssetIdentity → Message → Type 0
Conforms identity m =
    ((m.0 ≡ telemetry_topic identity) × (fits telemetry_shape (object m.1) ≡ true))
    ⊎ ((m.0 ≡ registration_topic identity) × (fits registration_shape (object m.1) ≡ true))

pub HasMessage-Conforms :
    (identity : AssetIdentity) (m : Message) → HasMessage (IsOwn identity) m → Conforms identity m
HasMessage-Conforms identity m (payload, now, d, IsOwn.batch rs at sound v topic same, e) =
    inl (topic, rw (e, same) (fits-telemetry_batch identity rs at now sound v d))
HasMessage-Conforms identity m
      (payload, now, d, IsOwn.announcement ids version at v topic same, e) =
    inr (topic, rw (e, same) (fits-registration identity ids version at now v d))

-- With a broker client that keeps its contract, after any run of the two threads from an empty store,
-- with crashes and restarts at any point, in which only batches of sound readings and announcements
-- of this machine are queued and the clock gives datetimes: every message that was confirmed is under
-- the machine's telemetry or registration topic and has the shape of that kind of message, its
-- `sentAt` included.
pub Run-Conforms :
    {C : BrokerClient} (identity : AssetIdentity) (cap : ℕ) (client : C.State) (t : System C)
    (run : Run C (initial cap client) t)
    → IsConfirming C
    → RunMeets (IsOwn identity) run
    → All (Conforms identity) t.delivered
Run-Conforms identity cap client t run L meets =
    let (_, h) =
      Run-Carries (IsOwn identity) run L (initial-IsSafe cap client) meets
        (record { waiting = tt; flying = tt; sent = tt }) in
    All-mono t.delivered (HasMessage-Conforms identity) h.sent
