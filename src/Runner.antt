-- ===== src/Runner.antt =====
-- `SamplingRunner` of agent/factoryfleet_agent/runner.py. The readings are what `Sensor.sample`
-- returned. `fails n` tells whether the n-th statement of the cycle's transaction raises, BEGIN and COMMIT
-- included, as `sqlite3` does when the disk is full or broken; a failed write changes nothing by
-- itself.
pub mod Atomic
pub mod Cycle
pub mod Sampling
pub mod Delivered
use factoryfleet.Base.{
  ℕ, zero, suc, ◌+◌, Bool, String, Option, List, [], ◌∷◌, map, length, if◌then◌else◌,
}
use factoryfleet.Config.Types.{AssetIdentity}
use factoryfleet.Json.{Fields}
use factoryfleet.Sensors.Reading.{Reading}
use factoryfleet.Store.AssetState.{record_reading}
use factoryfleet.Store.Outbox.{insert_outbox, enqueue}
use factoryfleet.Store.Types.{Store, Outcome, returned, raised, transaction, operational_error}
use factoryfleet.Timeutil.{Datetime}
use factoryfleet.Wire.{telemetry_topic, telemetry_batch, registration}

pub record Runner : Type 0 where
  pub identity : AssetIdentity
  pub sensor_ids : List String
  pub store : Store
  pub cycles : ℕ

-- `enqueue` with its two writes: the INSERT, and the DELETE of `_enforce_cap`.
unfoldable pub write_batch :
    (ℕ → Bool) → ℕ → Datetime → String → Fields → Store → Outcome (Unit {0}) × Store
write_batch fails n now topic payload s =
    if fails n
    then (raised operational_error, s)
    else if fails (n + 1)
    then (raised operational_error, insert_outbox now topic payload s)
    else (returned tt, (enqueue now topic payload s).1)

-- The body of the transaction: `record_all`, one write a reading, then `enqueue`.
unfoldable pub write_cycle :
    (ℕ → Bool) → ℕ → List Reading → Datetime → String → Fields → Store → Outcome (Unit {0}) × Store
unfolding write_batch
write_cycle fails n [] now topic payload s = write_batch fails n now topic payload s
write_cycle fails n (r ∷ rs) now topic payload s =
    let rest = write_cycle fails (suc n) rs now topic payload (record_reading r s) in
    if fails n then (raised operational_error, s) else rest

-- The number of COMMIT: BEGIN is 0, then come one write a reading, the INSERT and the DELETE.
abbrev pub commit_of : List Reading → ℕ
commit_of readings = length readings + 3

finish : Runner → List Reading → Outcome (Unit {0}) × Store → Outcome (List Reading) × Runner
finish r readings (returned _, store) =
    (returned readings, record r { store = store; cycles = r.cycles + 1 })
finish r readings (raised e, store) = (raised e, record r { store = store })

-- `batched_at` is the runner's reading of the clock, and `now` the store's.
unfoldable pub sample_once :
    (ℕ → Bool) → Datetime → Datetime → List Reading → Runner → Outcome (List Reading) × Runner
unfolding finish
sample_once fails batched_at now [] r = (returned [], r)
sample_once fails batched_at now (x ∷ xs) r =
    let payload = telemetry_batch r.identity (x ∷ xs) batched_at in
    let topic = telemetry_topic r.identity in
    let body = write_cycle fails 1 (x ∷ xs) now topic payload in
    finish r (x ∷ xs) (transaction (fails 0) (fails (commit_of (x ∷ xs))) body r.store)

unfoldable pub registration_payload : Datetime → String → Runner → Fields
registration_payload now agent_version r = registration r.identity r.sensor_ids agent_version now
