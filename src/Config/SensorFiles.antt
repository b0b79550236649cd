-- ===== src/Config/SensorFiles.antt =====
-- `_load_sensors` of agent/factoryfleet_agent/config.py.
use factoryfleet.Base.{
  Bool, false, ◌||◌, String, ◌<>◌, Option, none, some, List, [], ◌∷◌, str_eq, if◌then◌else◌,
}
use factoryfleet.Config.Toml.{
  Toml, Table, end, get, config_error, require_str, require_bool, Result, ok, raised, ◌>>=◌, table,
}
use factoryfleet.Config.Types.{SensorConfig}
use factoryfleet.Config.Machine.{Machine, read_toml}

module _ (M : Machine) where
  -- `document.get("options", {})` with its check.
  unfoldable pub options_of : String → Option Toml → Result Table
  options_of path none = ok end
  options_of path (some (table t)) = ok t
  options_of path (some _) = raised (config_error (path <> ": [options] must be a table"))

  -- The file that has declared an id.
  unfoldable pub declared_in : String → List SensorConfig → Option String
  declared_in id [] = none
  declared_in id (s ∷ seen) = if str_eq s.sensor_id id then some s.source else declared_in id seen

  unfoldable pub check_new : String → String → Option String → Result (Unit {0})
  check_new path id none = ok tt
  check_new path id (some source) =
      raised (
        config_error (path <> (": sensor_id '" <> (id <> ("' is already declared in " <> source)))))

  -- One file; `seen` are the sensors so far, the last one first.
  unfoldable pub load_sensor : M.FilePath → List SensorConfig → Result SensorConfig
  unfolding options_of declared_in check_new
  load_sensor file seen = do
    let path = M.text file
    document ← read_toml M file
    id ← require_str document "sensor_id" path none
    _ ← check_new path id (declared_in id seen)
    options ← options_of path (get "options" document)
    kind ← require_str document "type" path none
    enabled ← require_bool document "enabled" path none
    ok (record { sensor_id = id; kind = kind; enabled = enabled; options = options; source = path })

  unfoldable pub load_files : List M.FilePath → List SensorConfig → Result (List SensorConfig)
  unfolding load_sensor
  load_files [] seen = ok []
  load_files (file ∷ files) seen = do
    sensor ← load_sensor file seen
    sensors ← load_files files (sensor ∷ seen)
    ok (sensor ∷ sensors)

  unfoldable pub any_enabled : List SensorConfig → Bool
  any_enabled [] = false
  any_enabled (s ∷ ss) = s.enabled || any_enabled ss

  unfoldable pub check_sensors : M.FilePath → List SensorConfig → Result (List SensorConfig)
  unfolding any_enabled
  check_sensors dir [] =
      raised (config_error ("no sensor configuration files found in " <> M.text dir))
  check_sensors dir (s ∷ ss) =
      if any_enabled (s ∷ ss)
      then ok (s ∷ ss)
      else raised (
          config_error
            ("every sensor in " <> (M.text dir <> " is disabled; the agent would report nothing")))

  unfoldable pub load_sensors : M.FilePath → Result (List SensorConfig)
  unfolding load_files check_sensors
  load_sensors dir = do
    there ← M.is_dir dir
    (if there
        then (do
          files ← M.sorted_toml_files dir
          sensors ← load_files files []
          check_sensors dir sensors)
        else raised (config_error ("sensor configuration directory not found: " <> M.text dir)))
