-- ===== src/Transport/Mqtt/Secure.antt =====
-- What an accepted configuration makes of `MqttBrokerClient`.
use factoryfleet.Base.{◌≡◌, refl, true, false, ◌⊎◌, inl, inr, Bool-cases, some}
use factoryfleet.Config.Broker.{BrokerConfig}
use factoryfleet.Config.Load.{AgentConfig, load}
use factoryfleet.Config.Load.Accepted.{load-IsAccepted}
use factoryfleet.Config.Load.Parts.{KeepsSign, HasCertificate}
use factoryfleet.Config.Machine.{Machine}
use factoryfleet.Results.{ok, ◌>>=◌, Ensures-ok}
use factoryfleet.Transport.Mqtt.{Paho, new_client, default_settings, path_text, create_mqtt}

module _ (M : Machine) (P : Paho) (b : BrokerConfig M) where
  -- A new paho client with the delays between its attempts to connect.
  abbrev pub fresh : P.State
  fresh = P.reconnect_delay_set 1 60 (P.new_state b.client_id)

  -- TLS is set up with a certificate and a key that are files, under the configured trust anchor.
  pub record PresentsCertificate : Type 0 where
    pub certificate : M.FilePath
    pub key : M.FilePath
    pub certificate_there : M.is_file certificate ≡ ok true
    pub key_there : M.is_file key ≡ ok true
    pub created : create_mqtt P (default_settings b) ≡ (
        P.tls_set (path_text M b.ca_cert_path) (some (M.text certificate)) (some (M.text key)) fresh
        >>= (λ s. ok (new_client P s)))

  secured :
      b.tls ≡ true → HasCertificate M b.client_cert_path b.client_key_path → PresentsCertificate
  unfolding create_mqtt
  secured on (cert, key, e, f, there, there') = record {
    certificate = cert;
    key = key;
    certificate_there = there;
    key_there = there';
    created = rw (on, e, f) refl;
  }

  plain : b.tls ≡ false → create_mqtt P (default_settings b) ≡ ok (new_client P fresh)
  unfolding create_mqtt
  plain off = rw off refl

-- Where `float` keeps the sign of a positive integer, the MQTT client that is built from a
-- configuration that `load` returned presents a certificate exactly if TLS is on: paho is then given a
-- certificate and a key that are files, under the configured trust anchor. With TLS off the
-- constructor never raises and no TLS is set up.
pub create_mqtt-load :
    (M : Machine) (P : Paho) (dir : M.FilePath) (config : AgentConfig M)
    → KeepsSign M.float_of
    → load M dir ≡ ok config
    → ((config.broker.tls ≡ true) × PresentsCertificate M P config.broker)
      ⊎ ((config.broker.tls ≡ false)
          × (create_mqtt P (default_settings config.broker)
              ≡ ok (new_client P (fresh M P config.broker))))
create_mqtt-load M P dir config K loaded =
    let accepted = Ensures-ok (load-IsAccepted M K dir) loaded in
    elim (Bool-cases config.broker.tls) [
      | inl on ↦ inl (on, secured M P config.broker on (accepted.broker.certificate on))
      | inr off ↦ inr (off, plain M P config.broker off)
    ]
