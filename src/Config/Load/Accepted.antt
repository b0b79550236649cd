-- ===== src/Config/Load/Accepted.antt =====
-- Every configuration that `load` of agent/factoryfleet_agent/config.py accepts meets its constraints.
use factoryfleet.Base.{◌≤◌, ◌≡◌, true, String, Option, some, []}
use factoryfleet.Config.Load.Keys.{
  IsInterval, IsAsset, require_str-Ensures, require_positive_int-Ensures, load_asset-Ensures,
  one_of-Ensures,
}
use factoryfleet.Config.Load.Parts.{
  KeepsSign, as_positive_float-Ensures, IsBroker, load_broker-Ensures, AreDistinct,
  load_sensors-Ensures,
}
use factoryfleet.Config.Machine.{Machine, log_levels, is_in, read_toml}
use factoryfleet.Config.SensorFiles.{any_enabled}
use factoryfleet.Config.Load.{AgentConfig, load_document, load}
use factoryfleet.Config.Toml.{Table, get, require_positive_float, require_table}
use factoryfleet.Json.{ℤ, Float}
use factoryfleet.Results.{Result, Ensures, returns, raises, Ensures-bind, Ensures-any, Ensures-if}

require_positive_float-Ensures :
    (float_of : ℤ → Result Float)
    → KeepsSign float_of
    → (t : Table) (key path : String) (section : Option String)
    → Ensures IsInterval (require_positive_float float_of t key path section)
unfolding require_positive_float
require_positive_float-Ensures float_of K t key path section =
    as_positive_float-Ensures float_of K path section key (get key t)

module _ (M : Machine) where
  -- The constraints of the configuration. An interval is not at most zero: it may be infinite or NaN.
  pub record IsAccepted (c : AgentConfig M) : Type 0 where
    pub asset : IsAsset c.asset
    pub broker : IsBroker M c.broker
    pub sample_interval_seconds : IsInterval c.sample_interval_seconds
    pub publish_interval_seconds : IsInterval c.publish_interval_seconds
    pub publish_batch_size : 1 ≤ c.publish_batch_size
    pub log_level : is_in c.log_level log_levels ≡ true
    pub distinct : AreDistinct M [] c.sensors
    pub enabled : any_enabled M c.sensors ≡ true

  load_document-Ensures :
      KeepsSign M.float_of
      → (dir : M.FilePath) (path : String) (document : Table)
      → Ensures IsAccepted (load_document M dir path document)
  unfolding load_document
  load_document-Ensures K dir path document =
      let root = M.parent dir in
      Ensures-bind (Ensures-any (require_table document "asset" path)) (λ asset_table _.
        Ensures-bind (load_asset-Ensures M asset_table path) (λ asset h1.
          Ensures-bind (Ensures-any (require_table document "broker" path)) (λ broker_table _.
            Ensures-bind (load_broker-Ensures M broker_table path root asset h1) (λ broker h2.
              Ensures-bind (Ensures-any (require_table document "sampling" path)) (λ sampling _.
                Ensures-bind (Ensures-any (require_table document "publishing" path))
                  (λ publishing _.
                    Ensures-bind (Ensures-any (require_table document "storage" path)) (λ storage _.
                      Ensures-bind (Ensures-any (require_table document "logging" path))
                        (λ logging _.
                          Ensures-bind (require_str-Ensures logging "level" path (some "logging"))
                            (λ level _.
                              Ensures-bind (one_of-Ensures M log_levels _ (M.upper level))
                                (λ log_level h3.
                                  Ensures-bind
                                    (require_str-Ensures storage "database_path" path
                                      (some "storage"))
                                    (λ database _.
                                      Ensures-bind
                                        (require_positive_float-Ensures M.float_of K sampling
                                          "interval_seconds" path (some "sampling"))
                                        (λ sample h4.
                                          Ensures-bind
                                            (require_positive_float-Ensures M.float_of K publishing
                                              "interval_seconds" path (some "publishing"))
                                            (λ publish h5.
                                              Ensures-bind
                                                (require_positive_int-Ensures publishing
                                                  "batch_size" path (some "publishing"))
                                                (λ batch h6.
                                                  Ensures-bind
                                                    (load_sensors-Ensures M
                                                      (M.join dir (M.path_of "sensors")))
                                                    (λ sensors (h7, h8). returns (record {
                                                      asset = h1;
                                                      broker = h2;
                                                      sample_interval_seconds = h4;
                                                      publish_interval_seconds = h5;
                                                      publish_batch_size = h6;
                                                      log_level = h3;
                                                      distinct = h7;
                                                      enabled = h8;
                                                    }))))))))))))))))

  -- Where `float` keeps the sign of a positive integer, every configuration that `load` returns meets
  -- the constraints: no empty identity, host or id; a known machine type and log level; a positive
  -- port, keepalive and batch size; intervals that are not at most zero; with TLS on, a certificate
  -- and a key that are files; and sensors with distinct ids, one of them enabled at least.
  pub load-IsAccepted : KeepsSign M.float_of → (dir : M.FilePath) → Ensures IsAccepted (load M dir)
  unfolding load
  load-IsAccepted K dir = Ensures-bind (Ensures-any (M.is_dir dir)) (λ there _.
      Ensures-if there
        (Ensures-bind (Ensures-any (read_toml M (M.join dir (M.path_of "agent.toml"))))
          (λ document _. load_document-Ensures K dir _ document))
        raises)
