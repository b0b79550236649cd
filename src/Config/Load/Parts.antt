-- ===== src/Config/Load/Parts.antt =====
-- What the loader of agent/factoryfleet_agent/config.py keeps in the broker and the sensors.
use factoryfleet.Base.{
  ◌≤◌, ◌≡◌, refl, ap, ◌∙◌, Bool, true, false, String, Option, none, some, List, [], ◌∷◌, arith,
  Bool-cases, inl, inr,
}
use factoryfleet.Config.Load.Keys.{
  IsFilled, IsInterval, IsAsset, require_str-Ensures, require_positive_int-Ensures,
}
use factoryfleet.Config.Machine.{Machine, read_toml}
use factoryfleet.Config.Broker.{
  client_id_text, BrokerConfig, optional_path, is_set, check_tls, check_present, check_file,
  load_broker,
}
use factoryfleet.Config.SensorFiles.{
  declared_in, check_new, options_of, load_sensor, load_files, any_enabled, check_sensors,
  load_sensors,
}
use factoryfleet.Config.Toml.{
  Toml, Table, get, string, number, boolean, table, other, is_at_most_zero, as_bool,
  as_positive_float, require_bool,
}
use factoryfleet.Config.Types.{AssetIdentity, SensorConfig}
use factoryfleet.Json.{ℤ, Float, int, float}
use factoryfleet.Results.{
  Result, Ensures, returns, raises, Ensures-bind, Ensures-any, Ensures-if, Result-cases, ok,
}

as_bool-Ensures :
    (path : String) (section : Option String) (key : String) (v : Option Toml)
    → Ensures (λ b. v ≡ some (boolean b)) (as_bool path section key v)
unfolding as_bool
as_bool-Ensures path section key none = raises
as_bool-Ensures path section key (some (string s)) = raises
as_bool-Ensures path section key (some (number n)) = raises
as_bool-Ensures path section key (some (boolean b)) = returns refl
as_bool-Ensures path section key (some (table t)) = raises
as_bool-Ensures path section key (some (other b s)) = raises

require_bool-Ensures :
    (t : Table) (key path : String) (section : Option String)
    → Ensures (λ b. get key t ≡ some (boolean b)) (require_bool t key path section)
unfolding require_bool
require_bool-Ensures t key path section = as_bool-Ensures path section key (get key t)

-- `float` of a positive integer is not at most zero.
abbrev pub KeepsSign : (ℤ → Result Float) → Type 0
KeepsSign float_of = (i : ℤ) → is_at_most_zero (int i) ≡ false → Ensures IsInterval (float_of i)

pub as_positive_float-Ensures :
    (float_of : ℤ → Result Float)
    → KeepsSign float_of
    → (path : String) (section : Option String) (key : String) (v : Option Toml)
    → Ensures IsInterval (as_positive_float path section key float_of v)
unfolding as_positive_float
as_positive_float-Ensures float_of K path section key none = raises
as_positive_float-Ensures float_of K path section key (some (string s)) = raises
as_positive_float-Ensures float_of K path section key (some (number (float f))) =
    elim (Bool-cases (is_at_most_zero (float f))) [
      | inl low ↦ rw low raises
      | inr high ↦ rw high (returns high)
    ]
as_positive_float-Ensures float_of K path section key (some (number (int i))) =
    elim (Bool-cases (is_at_most_zero (int i))) [
      | inl low ↦ rw low raises
      | inr high ↦ rw high (K i high)
    ]
as_positive_float-Ensures float_of K path section key (some (boolean b)) = raises
as_positive_float-Ensures float_of K path section key (some (table t)) = raises
as_positive_float-Ensures float_of K path section key (some (other b s)) = raises

module _ (M : Machine) where
  -- With TLS on, the machine's certificate and key are set and are files.
  abbrev pub HasCertificate : Option M.FilePath → Option M.FilePath → Type 0
  HasCertificate cert key =
      (c : M.FilePath) × (k : M.FilePath) × (cert ≡ some c)
      × (key ≡ some k)
      × (M.is_file c ≡ ok true)
      × (M.is_file k ≡ ok true)

  check_file-Ensures :
      (path key : String) (v : M.FilePath)
      → Ensures (λ _. M.is_file v ≡ ok true) (check_file M path key (some v))
  unfolding check_file
  check_file-Ensures path key v = elim (Result-cases (M.is_file v)) [
    | inr (e, failed) ↦ rw failed raises
    | inl (b, answered) ↦ elim (Bool-cases b) [
      | inl there ↦ rw (answered ∙ ap ok there) (returns refl)
      | inr missing ↦ rw (answered ∙ ap ok missing) raises
    ]
  ]

  both_files :
      (c k : M.FilePath) {r : Result (Unit {0})}
      → Ensures (λ _. M.is_file k ≡ ok true) r
      → M.is_file c ≡ ok true
      → Ensures (λ _. true ≡ true → HasCertificate (some c) (some k)) r
  both_files c k (returns h2) h1 = returns (λ _. (c, k, refl, refl, h1, h2))
  both_files c k raises h1 = raises

  check_tls-Ensures :
      (on : Bool) (path : String) (ca cert key : Option M.FilePath)
      → Ensures (λ _. on ≡ true → HasCertificate cert key) (check_tls M on path ca cert key)
  unfolding check_tls check_present
  check_tls-Ensures false path ca cert key = returns (λ on. absurd (ground (arith, on)))
  check_tls-Ensures true path ca none none = raises
  check_tls-Ensures true path ca none (some k) = raises
  check_tls-Ensures true path ca (some c) none = raises
  check_tls-Ensures true path ca (some c) (some k) =
      Ensures-bind (Ensures-any (check_file M path "ca_cert_path" ca)) (λ _ _.
        Ensures-bind (check_file-Ensures path "client_cert_path" c)
          (λ _ h1. both_files c k (check_file-Ensures path "client_key_path" k) h1))

  pub record IsBroker (b : BrokerConfig M) : Type 0 where
    pub host : IsFilled b.host
    pub port : 1 ≤ b.port
    pub keepalive_seconds : 1 ≤ b.keepalive_seconds
    pub client_id : IsFilled b.client_id
    pub certificate : b.tls ≡ true → HasCertificate b.client_cert_path b.client_key_path

  pub load_broker-Ensures :
      (t : Table) (path : String) (root : M.FilePath) (asset : AssetIdentity)
      → IsAsset asset
      → Ensures IsBroker (load_broker M t path root asset)
  unfolding load_broker is_set
  load_broker-Ensures t path root asset a =
      Ensures-bind (Ensures-any (client_id_text M (get "client_id" t))) (λ id _.
        Ensures-bind (require_str-Ensures t "host" path (some "broker")) (λ host h1.
          Ensures-bind (require_positive_int-Ensures t "port" path (some "broker")) (λ port h2.
            Ensures-bind (require_bool-Ensures t "tls" path (some "broker")) (λ tls h3.
              Ensures-bind (require_positive_int-Ensures t "keepalive_seconds" path (some "broker"))
                (λ keepalive h4.
                  Ensures-bind
                    (Ensures-any (optional_path M "ca_cert_path" path root (get "ca_cert_path" t)))
                    (λ ca _.
                      Ensures-bind
                        (Ensures-any
                          (optional_path M "client_cert_path" path root (get "client_cert_path" t)))
                        (λ cert _.
                          Ensures-bind
                            (Ensures-any (
                              optional_path M "client_key_path" path root
                                (get "client_key_path" t)))
                            (λ key _.
                              Ensures-bind
                                (check_tls-Ensures (is_set M (get "tls" t)) path ca cert key)
                                (λ _ h5. returns (record {
                                  host = h1;
                                  port = h2;
                                  keepalive_seconds = h4;
                                  client_id = ground (arith, a.asset_id);
                                  certificate = λ on. h5 (ap (is_set M) h3 ∙ on);
                                }))))))))))

  -- Each id is filled and is not among those before it.
  abbrev pub AreDistinct : List SensorConfig → List SensorConfig → Type 0
  AreDistinct seen [] = Unit
  AreDistinct seen (s ∷ ss) =
      IsFilled s.sensor_id × (declared_in M s.sensor_id seen ≡ none) × AreDistinct (s ∷ seen) ss

  check_new-Ensures :
      (path id : String) (o : Option String) → Ensures (λ _. o ≡ none) (check_new M path id o)
  unfolding check_new
  check_new-Ensures path id none = returns refl
  check_new-Ensures path id (some source) = raises

  load_sensor-Ensures :
      (file : M.FilePath) (seen : List SensorConfig)
      → Ensures
          (λ s. IsFilled s.sensor_id × (declared_in M s.sensor_id seen ≡ none))
          (load_sensor M file seen)
  unfolding load_sensor
  load_sensor-Ensures file seen =
      let path = M.text file in
      Ensures-bind (Ensures-any (read_toml M file)) (λ document _.
        Ensures-bind (require_str-Ensures document "sensor_id" path none) (λ id h1.
          Ensures-bind (check_new-Ensures path id (declared_in M id seen)) (λ _ h2.
            Ensures-bind (Ensures-any (options_of M path (get "options" document))) (λ options _.
              Ensures-bind (require_str-Ensures document "type" path none) (λ kind _.
                Ensures-bind (require_bool-Ensures document "enabled" path none)
                  (λ enabled _. returns (h1, h2)))))))

  load_files-Ensures :
      (files : List M.FilePath) (seen : List SensorConfig)
      → Ensures (AreDistinct seen) (load_files M files seen)
  unfolding load_files
  load_files-Ensures [] seen = returns tt
  load_files-Ensures (file ∷ files) seen =
      Ensures-bind (load_sensor-Ensures file seen) (λ s (h1, h2).
        Ensures-bind (load_files-Ensures files (s ∷ seen)) (λ ss h3. returns (h1, h2, h3)))

  check_sensors-Ensures :
      (dir : M.FilePath) (ss : List SensorConfig)
      → AreDistinct [] ss
      → Ensures (λ ts. AreDistinct [] ts × (any_enabled M ts ≡ true)) (check_sensors M dir ss)
  unfolding check_sensors
  check_sensors-Ensures dir [] h = raises
  check_sensors-Ensures dir (s ∷ ss) h = elim (Bool-cases (any_enabled M (s ∷ ss))) [
    | inl some_on ↦ rw some_on (returns (h, some_on))
    | inr all_off ↦ rw all_off raises
  ]

  pub load_sensors-Ensures :
      (dir : M.FilePath)
      → Ensures (λ ss. AreDistinct [] ss × (any_enabled M ss ≡ true)) (load_sensors M dir)
  unfolding load_sensors
  load_sensors-Ensures dir = Ensures-bind (Ensures-any (M.is_dir dir)) (λ there _.
      Ensures-if there
        (Ensures-bind (Ensures-any (M.sorted_toml_files dir)) (λ files _.
          Ensures-bind (load_files-Ensures files []) (λ ss h. check_sensors-Ensures dir ss h)))
        raises)
