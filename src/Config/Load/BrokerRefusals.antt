-- ===== src/Config/Load/BrokerRefusals.antt =====
-- Which exceptions leave `_tls_paths` and the broker's part of `load` in
-- agent/factoryfleet_agent/config.py.
use factoryfleet.Base.{
  Bool, true, false, String, Option, none, some, inl, inr, Bool-cases, is_empty, strip,
  if◌then◌else◌,
}
use factoryfleet.Config.Broker.{
  client_id_text, optional_path, is_set, check_present, check_file, check_tls, load_broker,
}
use factoryfleet.Config.Machine.{Machine}
use factoryfleet.Config.Toml.{Toml, Table, get, string, number, boolean, table, other}
use factoryfleet.Config.Types.{AssetIdentity}
use factoryfleet.Results.{ok, ◌>>=◌, fine, OnlyRaises-bind, OnlyRaises-if}
use factoryfleet.Config.Load.Refusals.{
  is_file-Refuses, str_of-Refuses, Refuses, refusal, require_str-Refuses, require_bool-Refuses,
  require_positive_int-Refuses,
}

module _ (M : Machine) where
  optional_path-Refuses :
      (key path : String) (root : M.FilePath) (v : Option Toml)
      → Refuses M (optional_path M key path root v)
  unfolding optional_path
  optional_path-Refuses key path root none = fine
  optional_path-Refuses key path root (some (string s)) = elim (Bool-cases (is_empty (strip s))) [
    | inl empty ↦ rw empty fine
    | inr filled ↦ rw filled fine
  ]
  optional_path-Refuses key path root (some (number n)) = refusal M _
  optional_path-Refuses key path root (some (boolean b)) = refusal M _
  optional_path-Refuses key path root (some (table t)) = refusal M _
  optional_path-Refuses key path root (some (other b s)) = refusal M _

  check_present-Refuses :
      (path : String) (cert key : Option M.FilePath) → Refuses M (check_present M path cert key)
  unfolding check_present
  check_present-Refuses path (some cert) (some key) = fine
  check_present-Refuses path none (some key) = refusal M _
  check_present-Refuses path (some cert) none = refusal M _
  check_present-Refuses path none none = refusal M _

  check_file-Refuses :
      (path key : String) (v : Option M.FilePath) → Refuses M (check_file M path key v)
  unfolding check_file
  check_file-Refuses path key none = fine
  check_file-Refuses path key (some v) =
      OnlyRaises-bind (is_file-Refuses M v) (λ there. OnlyRaises-if there fine (refusal M _))

  text-Refuses :
      (v : Toml) → Refuses M (if M.is_true v then (do t ← M.str_of v; ok (strip t)) else ok "")
  text-Refuses v =
      OnlyRaises-if (M.is_true v) (OnlyRaises-bind (str_of-Refuses M v) (λ t. fine)) fine

  client_id_text-Refuses : (v : Option Toml) → Refuses M (client_id_text M v)
  unfolding client_id_text
  client_id_text-Refuses none = fine
  client_id_text-Refuses (some (string s)) = fine
  client_id_text-Refuses (some (number n)) = text-Refuses (number n)
  client_id_text-Refuses (some (boolean b)) = text-Refuses (boolean b)
  client_id_text-Refuses (some (table t)) = text-Refuses (table t)
  client_id_text-Refuses (some (other b s)) = text-Refuses (other b s)

  check_tls-Refuses :
      (on : Bool) (path : String) (ca cert key : Option M.FilePath)
      → Refuses M (check_tls M on path ca cert key)
  unfolding check_tls
  check_tls-Refuses false path ca cert key = fine
  check_tls-Refuses true path ca cert key =
      OnlyRaises-bind (check_present-Refuses path cert key) (λ _.
        OnlyRaises-bind (check_file-Refuses path "ca_cert_path" ca) (λ _.
          OnlyRaises-bind (check_file-Refuses path "client_cert_path" cert)
            (λ _. check_file-Refuses path "client_key_path" key)))

  pub load_broker-Refuses :
      (t : Table) (path : String) (root : M.FilePath) (asset : AssetIdentity)
      → Refuses M (load_broker M t path root asset)
  unfolding load_broker is_set
  load_broker-Refuses t path root asset =
      OnlyRaises-bind (client_id_text-Refuses (get "client_id" t)) (λ id.
        OnlyRaises-bind (require_str-Refuses M t "host" path (some "broker")) (λ host.
          OnlyRaises-bind (require_positive_int-Refuses M t "port" path (some "broker")) (λ port.
            OnlyRaises-bind (require_bool-Refuses M t "tls" path (some "broker")) (λ tls.
              OnlyRaises-bind
                (require_positive_int-Refuses M t "keepalive_seconds" path (some "broker"))
                (λ keepalive.
                  OnlyRaises-bind
                    (optional_path-Refuses "ca_cert_path" path root (get "ca_cert_path" t))
                    (λ ca.
                      OnlyRaises-bind
                        (optional_path-Refuses "client_cert_path" path root
                          (get "client_cert_path" t))
                        (λ cert.
                          OnlyRaises-bind
                            (optional_path-Refuses "client_key_path" path root
                              (get "client_key_path" t))
                            (λ key.
                              OnlyRaises-bind
                                (check_tls-Refuses (is_set M (get "tls" t)) path ca cert key)
                                (λ _. fine)))))))))
