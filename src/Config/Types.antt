-- ===== src/Config/Types.antt =====
-- The identity of the machine and a sensor's configuration, from agent/factoryfleet_agent/config.py.
use factoryfleet.Base.{String, ◌<>◌, Bool}
use factoryfleet.Config.Toml.{Table}

pub record AssetIdentity : Type 0 where
  pub site_id : String
  pub asset_id : String
  pub machine_type : String
  pub firmware_version : String

unfoldable pub topic_prefix : AssetIdentity → String
topic_prefix identity = "factoryfleet/" <> (identity.site_id <> ("/" <> identity.asset_id))

-- One sensor's file. `option` and `required_float` read the options.
pub record SensorConfig : Type 0 where
  pub sensor_id : String
  pub kind : String
  pub enabled : Bool
  pub options : Table
  pub source : String
