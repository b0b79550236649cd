-- ===== src/Config/Broker.antt =====
-- The broker of agent/factoryfleet_agent/config.py, with `_tls_paths` and `_optional_path`.
use factoryfleet.Base.{
  ℕ, Bool, true, false, String, ◌<>◌, Option, none, some, is_empty, strip, if◌then◌else◌,
}
use factoryfleet.Config.Toml.{
  Toml, Table, get, config_error, require_str, require_bool, require_positive_int, Error, Result,
  ok, raised, ◌>>=◌, string, boolean,
}
use factoryfleet.Config.Types.{AssetIdentity}
use factoryfleet.Config.Machine.{Machine}

module _ (M : Machine) where
  pub record BrokerConfig : Type 0 where
    pub host : String
    pub port : ℕ
    pub tls : Bool
    pub keepalive_seconds : ℕ
    pub client_id : String
    pub ca_cert_path : Option M.FilePath
    pub client_cert_path : Option M.FilePath
    pub client_key_path : Option M.FilePath

  -- `raw.strip()` as a path, against the agent's directory.
  abbrev pub resolve : M.FilePath → String → M.FilePath
  resolve root raw =
      let path = M.path_of raw in if M.is_absolute path then path else M.join root path

  unfoldable pub optional_path :
      String → String → M.FilePath → Option Toml → Result (Option M.FilePath)
  optional_path key path root none = ok none
  optional_path key path root (some (string s)) =
      let raw = strip s in if is_empty raw then ok none else ok (some (resolve root raw))
  optional_path key path root (some _) =
      raised (config_error (path <> (": [broker] " <> (key <> " must be a string path"))))

  unfoldable pub is_set : Option Toml → Bool
  is_set none = false
  is_set (some (boolean b)) = b
  is_set (some v) = M.is_true v

  abbrev pub missing_error : String → String → Error
  missing_error path names = config_error (
      path
      <> (": [broker] tls is true, so "
          <> (names
              <> " must be set — the fleet authenticates a machine by its client certificate, not a password")))

  unfoldable pub check_present : String → Option M.FilePath → Option M.FilePath → Result (Unit {0})
  check_present path (some cert) (some key) = ok tt
  check_present path none (some key) = raised (missing_error path "client_cert_path")
  check_present path (some cert) none = raised (missing_error path "client_key_path")
  check_present path none none = raised (missing_error path "client_cert_path and client_key_path")

  unfoldable pub check_file : String → String → Option M.FilePath → Result (Unit {0})
  check_file path key none = ok tt
  check_file path key (some value) = do
    there ← M.is_file value
    (if there
        then ok tt
        else raised (
            config_error
              (path <> (": [broker] " <> (key <> (" does not exist: " <> M.text value))))))

  -- The two checks of `_tls_paths`, which are made if TLS is on.
  unfoldable pub check_tls :
      Bool → String → Option M.FilePath → Option M.FilePath → Option M.FilePath → Result (Unit {0})
  unfolding check_present check_file
  check_tls false path ca cert key = ok tt
  check_tls true path ca cert key = do
    _ ← check_present path cert key
    _ ← check_file path "ca_cert_path" ca
    _ ← check_file path "client_cert_path" cert
    check_file path "client_key_path" key

  -- `str(broker_table.get("client_id") or "").strip()`
  unfoldable pub client_id_text : Option Toml → Result String
  client_id_text none = ok ""
  client_id_text (some (string s)) = ok (strip s)
  client_id_text (some v) =
      let given = (do text ← M.str_of v; ok (strip text)) in if M.is_true v then given else ok ""

  -- `_tls_paths` takes the same table.
  unfoldable pub load_broker : Table → String → M.FilePath → AssetIdentity → Result BrokerConfig
  unfolding client_id_text optional_path check_tls is_set
  load_broker t path root asset = do
    id ← client_id_text (get "client_id" t)
    host ← require_str t "host" path (some "broker")
    port ← require_positive_int t "port" path (some "broker")
    tls ← require_bool t "tls" path (some "broker")
    keepalive ← require_positive_int t "keepalive_seconds" path (some "broker")
    ca ← optional_path "ca_cert_path" path root (get "ca_cert_path" t)
    cert ← optional_path "client_cert_path" path root (get "client_cert_path" t)
    key ← optional_path "client_key_path" path root (get "client_key_path" t)
    _ ← check_tls (is_set (get "tls" t)) path ca cert key
    ok (record {
      host = host;
      port = port;
      tls = tls;
      keepalive_seconds = keepalive;
      client_id = if is_empty id then asset.asset_id else id;
      ca_cert_path = ca;
      client_cert_path = cert;
      client_key_path = key;
    })
