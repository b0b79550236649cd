-- ===== src/Tests/ConfigRuns.antt =====
-- A directory with an `agent.toml` and one sensor, and its loading.
use factoryfleet.Base.{
  ◌≡◌, refl, ℕ, Bool, true, false, String, ◌<>◌, none, some, [], ◌∷◌, arith, str_eq, strip,
  if◌then◌else◌,
}
use factoryfleet.Config.Machine.{Machine, read_toml, is_in}
use factoryfleet.Config.Load.{AgentConfig, load, load_document}
use factoryfleet.Config.Load.Accepted.{IsAccepted, load-IsAccepted}
use factoryfleet.Config.Load.Parts.{KeepsSign}
use factoryfleet.Config.SensorFiles.{options_of}
use factoryfleet.Config.Toml.{
  Toml, Table, end, entry, string, number, boolean, table, is_at_most_zero, get, require_str,
  require_bool, require_positive_int, require_positive_float, require_table,
}
use factoryfleet.Json.{ℤ, Float, int}
use factoryfleet.Results.{Result, ok, raised, Ensures, returns}
use factoryfleet.Tests.SimulatedRuns.{vibration_config}

abbrev whole : ℕ → Toml
whole n = number (int (ℤ.pos n))

abbrev asset : Table
asset = entry "site_id" (string "PLANT-A") (
    entry "asset_id" (string "PRESS-01") (
      entry "machine_type" (string "HYDRAULIC_PRESS")
        (entry "firmware_version" (string "2.4.1") end)))

abbrev broker : Table
broker = entry "host" (string "localhost") (
    entry "port" (whole 8883) (
      entry "tls" (boolean true) (
        entry "keepalive_seconds" (whole 60) (
          entry "client_cert_path" (string "cert.pem")
            (entry "client_key_path" (string "key.pem") end)))))

abbrev agent : Table
agent = entry "asset" (table asset) (
    entry "broker" (table broker) (
      entry "sampling" (table (entry "interval_seconds" (whole 10) end)) (
        entry "publishing"
          (table (entry "interval_seconds" (whole 5) (entry "batch_size" (whole 50) end)))
          (entry "storage" (table (entry "database_path" (string "agent.db") end))
            (entry "logging" (table (entry "level" (string "INFO") end)) end)))))

abbrev vibration : Table
vibration = entry "sensor_id" (string "vibration") (
    entry "type" (string "vibration")
      (entry "enabled" (boolean true) (entry "options" (table vibration_config.options) end)))

abbrev to_float : ℤ → Result Float
to_float i = ok (Float.finite i (ℤ.pos 0))

abbrev pub disk : Machine
disk = record {
  FilePath = String;
  text = λ path. path;
  path_of = λ s. s;
  join = λ a b. a <> ("/" <> b);
  parent = λ path. "root";
  is_absolute = λ path. false;
  is_dir = λ path. ok true;
  is_file = λ path. ok true;
  load_toml = λ path. if str_eq path "config/agent.toml" then ok agent else ok vibration;
  sorted_toml_files = λ dir. ok ("config/sensors/vibration.toml" ∷ []);
  str_of = λ v. ok "";
  is_true = λ v. true;
  float_of = to_float;
  upper = λ s. s;
}

pub KeepsSign-to_float : KeepsSign to_float
unfolding is_at_most_zero
KeepsSign-to_float (ℤ.pos n) h = returns h
KeepsSign-to_float (ℤ.negsuc n) h = absurd (ground (arith, h))

abbrev is_returned {ℓ} : {A : Type ℓ} → Result A → Bool
is_returned (ok x) = true
is_returned (raised e) = false

pub loads : is_returned (load disk "config") ≡ true
unfolding load load_document read_toml require_table get require_str strip is_in
    require_positive_int require_bool require_positive_float is_at_most_zero
loads = refl

load-IsAccepted_example : Ensures (IsAccepted disk) (load disk "config")
load-IsAccepted_example = load-IsAccepted disk KeepsSign-to_float "config"

abbrev pub accepted : AgentConfig disk
accepted = record {
  asset = record {
    site_id = "PLANT-A";
    asset_id = "PRESS-01";
    machine_type = "HYDRAULIC_PRESS";
    firmware_version = "2.4.1";
  };
  broker = record {
    host = "localhost";
    port = 8883;
    tls = true;
    keepalive_seconds = 60;
    client_id = "PRESS-01";
    ca_cert_path = none;
    client_cert_path = some "root/cert.pem";
    client_key_path = some "root/key.pem";
  };
  sample_interval_seconds = Float.finite (ℤ.pos 10) (ℤ.pos 0);
  publish_interval_seconds = Float.finite (ℤ.pos 5) (ℤ.pos 0);
  publish_batch_size = 50;
  database_path = "root/agent.db";
  log_level = "INFO";
  sensors =
      record {
        sensor_id = "vibration";
        kind = "vibration";
        enabled = true;
        options = vibration_config.options;
        source = "config/sensors/vibration.toml";
      }
      ∷ [];
}

pub load-accepted : load disk "config" ≡ ok accepted
unfolding load load_document read_toml require_table get require_str strip is_in
    require_positive_int require_bool require_positive_float is_at_most_zero options_of
load-accepted = refl
