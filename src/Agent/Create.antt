-- ===== src/Agent/Create.antt =====
-- The constructor of `Agent` in agent/factoryfleet_agent/agent.py, over what its parts are built from:
-- the registered sensor classes, SQLite, and the broker client.
use factoryfleet.Base.{ℕ, ◌≡◌, refl, true, false, String, List, map, if◌then◌else◌}
use factoryfleet.Agent.{Agent, Config}
use factoryfleet.Config.Broker.{BrokerConfig}
use factoryfleet.Config.Load.{AgentConfig, load, enabled_sensors}
use factoryfleet.Config.Load.Accepted.{load-IsAccepted}
use factoryfleet.Config.Load.Parts.{KeepsSign}
use factoryfleet.Config.Machine.{Machine}
use factoryfleet.Config.Toml.{is_at_most_zero}
use factoryfleet.Json.{Float, float}
use factoryfleet.Results.{Error, Result, ok, raised, ◌>>=◌, Ensures-ok}
use factoryfleet.Scheduler.Lifecycle.{Control, new_control}
use factoryfleet.Sensors.Registry.{Classes, Registry, create_all}
use factoryfleet.Store.Table.{Database}
use factoryfleet.Store.Types.{reopen}
use factoryfleet.Transport.Broker.{BrokerClient}

-- What the constructor calls: the registered classes with the ids of their objects, the opening of
-- the database file by SQLite, and the client, which is the caller's or a new `MqttBrokerClient`.
pub record Parts (M : Machine) (C : BrokerClient) : Type 1 where
  pub classes : Classes
  pub id_of : classes.Instance → String
  pub registry : Registry classes
  pub open_database : M.FilePath → Result Database
  pub create_client : BrokerConfig M → Result C.State

abbrev pub max_outbox_entries : ℕ
max_outbox_entries = 10000

abbrev pub retain_published : ℕ
retain_published = 3600000000

abbrev interval_error : Error
interval_error = record {
  type_name = "ValueError";
  message = "interval_seconds must be positive";
  is_exception = true;
}

-- `Scheduler(interval_seconds=…)`
unfoldable pub create_control : Float → Result Control
create_control interval_seconds =
    if is_at_most_zero (float interval_seconds) then raised interval_error else ok new_control

-- The object, with what it holds for good.
pub record Created {M : Machine} {C : BrokerClient} (parts : Parts M C) : Type 0 where
  pub self : Config
  pub sensors : List parts.classes.Instance
  pub agent : Agent C

module _ {M : Machine} {C : BrokerClient} (parts : Parts M C) (version : String)
    (config : AgentConfig M) where
  abbrev pub assembled :
      Database → List parts.classes.Instance → C.State → Control → Control → Created parts
  assembled database sensors client sampler publisher_loop = record {
    self = record {
      identity = config.asset;
      sensor_ids = map parts.id_of sensors;
      version = version;
      settings = record {
        batch_size = config.publish_batch_size;
        retain_published = retain_published;
      };
    };
    sensors = sensors;
    agent = record {
      publisher = record {
        store = reopen max_outbox_entries database;
        client = client;
        published = 0;
        reads = 0;
      };
      sampler = sampler;
      publisher_loop = publisher_loop;
      running = false;
      closed = false;
    };
  }

  -- `Agent(config, version=…)`
  unfoldable pub create_agent : Result (Created parts)
  unfolding create_control
  create_agent = do
    database ← parts.open_database config.database_path
    sensors ← create_all parts.classes parts.registry (enabled_sensors M config)
    client ← parts.create_client config.broker
    sampler ← create_control config.sample_interval_seconds
    publisher_loop ← create_control config.publish_interval_seconds
    ok (assembled database sensors client sampler publisher_loop)

-- On a configuration that `load` returned, the guards of the two schedulers never fire: the
-- constructor raises only what the opening of the database, a sensor or the client raises, in this
-- order, and else it returns an agent that does not run.
pub create_agent-load :
    (M : Machine) (C : BrokerClient) (parts : Parts M C) (version : String) (dir : M.FilePath)
    (config : AgentConfig M)
    → KeepsSign M.float_of
    → load M dir ≡ ok config
    → create_agent parts version config ≡ (do
      database ← parts.open_database config.database_path
      sensors ← create_all parts.classes parts.registry (enabled_sensors M config)
      client ← parts.create_client config.broker
      ok (assembled parts version config database sensors client new_control new_control))
unfolding create_agent
create_agent-load M C parts version dir config K loaded =
    let accepted = Ensures-ok (load-IsAccepted M K dir) loaded in
    rw (accepted.sample_interval_seconds, accepted.publish_interval_seconds) refl
