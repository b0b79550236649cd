-- ===== src/Config/Load.antt =====
-- The loader of agent/factoryfleet_agent/config.py: `load`, and the identity.
pub mod Keys
pub mod Parts
pub mod Accepted
pub mod Refusals
pub mod BrokerRefusals
pub mod Escapes
use factoryfleet.Base.{
  ℕ, Bool, true, false, not, ◌&&◌, ◌||◌, String, ◌<>◌, Option, none, some, List, [], ◌∷◌, filter,
  str_eq, is_empty, strip, ◌==◌, if◌then◌else◌,
}
use factoryfleet.Config.Toml.{
  Toml, Table, end, entry, get, config_error, require_str, require_bool, require_positive_int,
  require_positive_float, require_table, where_is, Error, Result, ok, raised, ◌>>=◌, string,
  boolean, table,
}
use factoryfleet.Config.Types.{AssetIdentity, SensorConfig}
use factoryfleet.Json.{ℤ, Float}
use factoryfleet.Config.Machine.{
  Machine, machine_types, log_levels, is_in, toml_error, loaded, read_toml, one_of,
}
use factoryfleet.Config.Broker.{
  BrokerConfig, resolve, optional_path, is_set, missing_error, check_present, check_file, check_tls,
  client_id_text, load_broker,
}
use factoryfleet.Config.SensorFiles.{
  options_of, declared_in, check_new, load_sensor, load_files, any_enabled, check_sensors,
  load_sensors,
}

module _ (M : Machine) where
  pub record AgentConfig : Type 0 where
    pub asset : AssetIdentity
    pub broker : BrokerConfig M
    pub sample_interval_seconds : Float
    pub publish_interval_seconds : Float
    pub publish_batch_size : ℕ
    pub database_path : M.FilePath
    pub log_level : String
    pub sensors : List SensorConfig

  unfoldable pub require_machine_type : Table → String → Result String
  unfolding one_of
  require_machine_type t path = do
    raw ← require_str t "machine_type" path (some "asset")
    let value = M.upper raw
    one_of M machine_types
        (path
          <> (": [asset] machine_type '"
              <> (value
                  <> "' is not one of CNC_MILL, CONVEYOR, HYDRAULIC_PRESS, INJECTION_MOLDER, ROBOT_ARM")))
        value

  unfoldable pub load_asset : Table → String → Result AssetIdentity
  unfolding require_machine_type
  load_asset t path = do
    site_id ← require_str t "site_id" path (some "asset")
    asset_id ← require_str t "asset_id" path (some "asset")
    machine_type ← require_machine_type t path
    firmware_version ← require_str t "firmware_version" path (some "asset")
    ok (record {
      site_id = site_id;
      asset_id = asset_id;
      machine_type = machine_type;
      firmware_version = firmware_version;
    })

  -- What follows the reading of `agent.toml`.
  unfoldable pub load_document : M.FilePath → String → Table → Result AgentConfig
  unfolding load_asset load_broker load_sensors one_of
  load_document dir path document = do
    let root = M.parent dir
    asset_table ← require_table document "asset" path
    asset ← load_asset asset_table path
    broker_table ← require_table document "broker" path
    broker ← load_broker M broker_table path root asset
    sampling ← require_table document "sampling" path
    publishing ← require_table document "publishing" path
    storage ← require_table document "storage" path
    logging ← require_table document "logging" path
    level ← require_str logging "level" path (some "logging")
    log_level ←
        one_of M log_levels
          (path
            <> (": [logging] level '"
                <> (M.upper level <> "' is not one of CRITICAL, DEBUG, ERROR, INFO, WARNING")))
          (M.upper level)
    database ← require_str storage "database_path" path (some "storage")
    sample_interval ←
        require_positive_float M.float_of sampling "interval_seconds" path (some "sampling")
    publish_interval ←
        require_positive_float M.float_of publishing "interval_seconds" path (some "publishing")
    batch_size ← require_positive_int publishing "batch_size" path (some "publishing")
    sensors ← load_sensors M (M.join dir (M.path_of "sensors"))
    ok (record {
      asset = asset;
      broker = broker;
      sample_interval_seconds = sample_interval;
      publish_interval_seconds = publish_interval;
      publish_batch_size = batch_size;
      database_path = resolve M root database;
      log_level = log_level;
      sensors = sensors;
    })

  unfoldable pub load : M.FilePath → Result AgentConfig
  unfolding load_document
  load dir = do
    let agent_file = M.join dir (M.path_of "agent.toml")
    there ← M.is_dir dir
    (if there
        then (do document ← read_toml M agent_file; load_document dir (M.text agent_file) document)
        else raised (config_error ("configuration directory not found: " <> M.text dir)))

  unfoldable pub enabled_sensors : AgentConfig → List SensorConfig
  enabled_sensors config = filter (λ s. s.enabled) config.sensors
