-- ===== src/Config/Load/Escapes.antt =====
-- Which exceptions leave `load` of agent/factoryfleet_agent/config.py.
use factoryfleet.Base.{
  ◌≡◌, refl, String, Option, none, some, List, [], ◌∷◌, inl, inr, Bool-cases, str_eq,
}
use factoryfleet.Config.Load.{load_document, load}
use factoryfleet.Config.Load.BrokerRefusals.{load_broker-Refuses}
use factoryfleet.Config.Load.Refusals.{
  is_file-Refuses, is_dir-Refuses, sorted_toml_files-Refuses, IsRefusal, Refuses, refusal,
  require_str-Refuses, require_bool-Refuses, require_positive_int-Refuses,
  require_positive_float-Refuses, require_table-Refuses, one_of-Refuses, load_asset-Refuses,
}
use factoryfleet.Config.Machine.{Machine, log_levels, toml_error, loaded, read_toml}
use factoryfleet.Config.SensorFiles.{
  options_of, declared_in, check_new, load_sensor, load_files, any_enabled, check_sensors,
  load_sensors,
}
use factoryfleet.Config.Toml.{Toml, Table, get, string, number, boolean, table, other, config_error}
use factoryfleet.Config.Types.{SensorConfig}
use factoryfleet.Results.{
  Error, Result, ok, raised, fine, refused, OnlyRaises-bind, OnlyRaises-if, OnlyRaises-raised,
}

module _ (M : Machine) where
  loaded-Refuses :
      (file : M.FilePath) (r : Result Table) → M.load_toml file ≡ r → Refuses M (loaded M file r)
  unfolding loaded toml_error config_error
  loaded-Refuses file (ok t) h = fine
  loaded-Refuses file (raised e) h = elim (Bool-cases (str_eq e.type_name "TOMLDecodeError")) [
    | inl decoding ↦ rw decoding (refused (inl refl))
    | inr escapes ↦ rw escapes (refused (inr (inl (file, h, escapes))))
  ]

  read_toml-Refuses : (file : M.FilePath) → Refuses M (read_toml M file)
  unfolding read_toml
  read_toml-Refuses file =
      OnlyRaises-bind (is_file-Refuses M file)
        (λ there. OnlyRaises-if there (loaded-Refuses file (M.load_toml file) refl) (refusal M _))

  options_of-Refuses : (path : String) (v : Option Toml) → Refuses M (options_of M path v)
  unfolding options_of
  options_of-Refuses path none = fine
  options_of-Refuses path (some (table t)) = fine
  options_of-Refuses path (some (string s)) = refusal M _
  options_of-Refuses path (some (number n)) = refusal M _
  options_of-Refuses path (some (boolean b)) = refusal M _
  options_of-Refuses path (some (other b s)) = refusal M _

  check_new-Refuses :
      (path id : String) (found : Option String) → Refuses M (check_new M path id found)
  unfolding check_new
  check_new-Refuses path id none = fine
  check_new-Refuses path id (some source) = refusal M _

  load_sensor-Refuses :
      (file : M.FilePath) (seen : List SensorConfig) → Refuses M (load_sensor M file seen)
  unfolding load_sensor
  load_sensor-Refuses file seen =
      let path = M.text file in
      OnlyRaises-bind (read_toml-Refuses file) (λ document.
        OnlyRaises-bind (require_str-Refuses M document "sensor_id" path none) (λ id.
          OnlyRaises-bind (check_new-Refuses path id (declared_in M id seen)) (λ _.
            OnlyRaises-bind (options_of-Refuses path (get "options" document)) (λ options.
              OnlyRaises-bind (require_str-Refuses M document "type" path none) (λ kind.
                OnlyRaises-bind (require_bool-Refuses M document "enabled" path none)
                  (λ enabled. fine))))))

  load_files-Refuses :
      (files : List M.FilePath) (seen : List SensorConfig) → Refuses M (load_files M files seen)
  unfolding load_files
  load_files-Refuses [] seen = fine
  load_files-Refuses (file ∷ files) seen =
      OnlyRaises-bind (load_sensor-Refuses file seen)
        (λ sensor. OnlyRaises-bind (load_files-Refuses files (sensor ∷ seen)) (λ sensors. fine))

  check_sensors-Refuses :
      (dir : M.FilePath) (sensors : List SensorConfig) → Refuses M (check_sensors M dir sensors)
  unfolding check_sensors
  check_sensors-Refuses dir [] = refusal M _
  check_sensors-Refuses dir (s ∷ ss) = elim (Bool-cases (any_enabled M (s ∷ ss))) [
    | inl on ↦ rw on fine
    | inr off ↦ rw off (refusal M _)
  ]

  load_sensors-Refuses : (dir : M.FilePath) → Refuses M (load_sensors M dir)
  unfolding load_sensors
  load_sensors-Refuses dir = OnlyRaises-bind (is_dir-Refuses M dir) (λ there.
      OnlyRaises-if there
        (OnlyRaises-bind (sorted_toml_files-Refuses M dir) (λ files.
          OnlyRaises-bind (load_files-Refuses files [])
            (λ sensors. check_sensors-Refuses dir sensors)))
        (refusal M _))

  -- The keys of the last four tables, and the sensors.
  load_document-Refuses :
      (dir : M.FilePath) (path : String) (document : Table)
      → Refuses M (load_document M dir path document)
  unfolding load_document
  load_document-Refuses dir path document =
      let root = M.parent dir in
      OnlyRaises-bind (require_table-Refuses M document "asset" path) (λ asset_table.
        OnlyRaises-bind (load_asset-Refuses M asset_table path) (λ asset.
          OnlyRaises-bind (require_table-Refuses M document "broker" path) (λ broker_table.
            OnlyRaises-bind (load_broker-Refuses M broker_table path root asset) (λ broker.
              OnlyRaises-bind (require_table-Refuses M document "sampling" path) (λ sampling.
                OnlyRaises-bind (require_table-Refuses M document "publishing" path) (λ publishing.
                  OnlyRaises-bind (require_table-Refuses M document "storage" path) (λ storage.
                    OnlyRaises-bind (require_table-Refuses M document "logging" path) (λ logging.
                      OnlyRaises-bind (require_str-Refuses M logging "level" path (some "logging"))
                        (λ level.
                          OnlyRaises-bind (one_of-Refuses M log_levels _ (M.upper level)) (λ upper.
                            OnlyRaises-bind
                              (require_str-Refuses M storage "database_path" path (some "storage"))
                              (λ database.
                                OnlyRaises-bind
                                  (require_positive_float-Refuses M sampling "interval_seconds" path
                                    (some "sampling"))
                                  (λ sample.
                                    OnlyRaises-bind
                                      (require_positive_float-Refuses M publishing
                                        "interval_seconds" path (some "publishing"))
                                      (λ publish.
                                        OnlyRaises-bind
                                          (require_positive_int-Refuses M publishing "batch_size"
                                            path (some "publishing"))
                                          (λ batch.
                                            OnlyRaises-bind
                                              (load_sensors-Refuses
                                                (M.join dir (M.path_of "sensors")))
                                              (λ sensors. fine)))))))))))))))

  load-Refuses : (dir : M.FilePath) → Refuses M (load M dir)
  unfolding load
  load-Refuses dir = OnlyRaises-bind (is_dir-Refuses M dir) (λ there.
      OnlyRaises-if there
        (OnlyRaises-bind (read_toml-Refuses (M.join dir (M.path_of "agent.toml")))
          (λ document. load_document-Refuses dir _ document))
        (refusal M _))

-- Whatever is in the files: what `load` raises is a `ConfigError`, or what the reading of some file
-- raised other than a `TOMLDecodeError`, or what a test of a path or the listing of a directory
-- raised, or what `float` raised on an integer, or `str` on the value of a key.
pub load_errors :
    (M : Machine) (dir : M.FilePath) (e : Error) → load M dir ≡ raised e → IsRefusal M e
load_errors M dir e h = OnlyRaises-raised (load-Refuses M dir) h
