-- ===== src/Store/Types.antt =====
-- The `Store` object and transactions, from agent/factoryfleet_agent/store.py.
use factoryfleet.Base.{ℕ, Bool, String, Option, [], if◌then◌else◌}
use factoryfleet.Json.{Fields}
use factoryfleet.Sensors.Reading.{Metrics, SensorCondition}
use factoryfleet.Timeutil.{Datetime}
use factoryfleet.Store.Table.{Database}

-- The connection's database with the attributes of the `Store` object.
pub record Store : Type 0 where
  pub database : Database
  pub open database use *
  pub max_outbox_entries : ℕ
  pub dropped_entries : ℕ

pub record OutboxEntry : Type 0 where
  pub id : ℕ
  pub topic : String
  pub payload : Fields
  pub created_at : Datetime

pub record StoredState : Type 0 where
  pub sensor_id : String
  pub condition : SensorCondition
  pub metrics : Metrics
  pub captured_at : Datetime
  pub error : Option String

-- `Store(path)` on a path with no database yet.
abbrev pub new_store : ℕ → Store
new_store max_outbox_entries = record {
  database = record { asset_state = []; outbox = []; sequence = 0 };
  max_outbox_entries = max_outbox_entries;
  dropped_entries = 0;
}

-- `Store(path)` on the database that an earlier run left: the schema is created only where missing.
unfoldable pub reopen : ℕ → Database → Store
reopen max_outbox_entries db = record {
  database = db;
  max_outbox_entries = max_outbox_entries;
  dropped_entries = 0;
}

pub data Outcome {ℓ} (A : Type ℓ) : Type ℓ where
  returned : A → Outcome A
  raised : String → Outcome A

abbrev pub operational_error : String
operational_error = "OperationalError"

-- The end of a transaction. ROLLBACK gives the tables back, `sqlite_sequence` too, and leaves the
-- attributes of the object. A COMMIT that fails stands outside of the `try`; SQLite has then rolled
-- the transaction back itself, as it does where the disk is full or broken.
unfoldable pub settle {ℓ} : {A : Type ℓ} → Database → Bool → Outcome A × Store → Outcome A × Store
settle before commit_fails (returned a, s) =
    if commit_fails
    then (raised operational_error, record s { database = before })
    else (returned a, s)
settle before commit_fails (raised e, s) = (raised e, record s { database = before })

-- The two flags tell whether BEGIN and COMMIT raise.
unfoldable pub transaction {ℓ} :
    {A : Type ℓ} → Bool → Bool → (Store → Outcome A × Store) → Store → Outcome A × Store
unfolding settle
transaction begin_fails commit_fails body s =
    if begin_fails then (raised operational_error, s) else settle s.database commit_fails (body s)
