-- ===== src/Tests/MqttRuns.antt =====
-- The MQTT client over a paho client that acknowledges a message while `publish` waits for it.
use factoryfleet.Base.{◌≡◌, refl, String, true, false, ◌⊎◌, none, some, List, [], ◌∷◌, ◌++◌, arith}
use mathlib.Core.Path.{subst, ap}
use factoryfleet.Results.{ok, ok-injective}
use factoryfleet.Tests.ConfigRuns.{disk, accepted, load-accepted, KeepsSign-to_float}
use factoryfleet.Tests.Data.{payload}
use factoryfleet.Transport.Broker.{Message, IsConfirming}
use factoryfleet.Transport.Mqtt.{
  Takes, Paho, IsPaho, Settings, MqttBrokerClient, default_settings, create_mqtt, new_client, mqtt,
}
use factoryfleet.Transport.Mqtt.Laws.{mqtt-IsConfirming}
use factoryfleet.Transport.Mqtt.Secure.{PresentsCertificate, fresh, create_mqtt-load}
use mathlib.Core.List.{Sublist, sublist-append_left}
use mathlib.Core.List.Sublist

abbrev pub prompt : Paho
prompt = record {
  State = List Message;
  MessageInfo = Message;
  rc = λ m. 0;
  new_state = λ client_id. [];
  reconnect_delay_set = λ low high s. s;
  tls_set = λ ca cert key s. ok s;
  connect_async = λ host port keepalive s. s;
  loop_start = λ s. s;
  disconnect = λ s. s;
  loop_stop = λ s. s;
  is_connected = λ s. true;
  publish = λ topic payload qos s. ok ((topic, payload), s);
  wait_for_publish = λ m timeout s. (true, s ++ (m ∷ []));
  is_published = λ m s. true;
  acknowledged = λ s. s;
}

pub IsPaho-prompt : IsPaho prompt
IsPaho-prompt = record {
  publish-keeps = λ topic payload qos s m s1 e.
      subst (λ x. Sublist s x) (ap (λ x. x.1) (ok-injective e)) (Sublist.refl s);
  wait_for_publish-keeps = λ m timeout s. sublist-append_left s (m ∷ []);
  is_published-acknowledged = λ topic payload qos timeout s m s1 q e h.
      subst (λ x. Sublist (s ++ ((topic, payload) ∷ [])) (x.1 ++ (x.0 ∷ []))) (ok-injective e)
        (Sublist.refl _);
}

abbrev settings : Settings disk
settings = default_settings (record {
  host = "broker";
  port = 8883;
  tls = true;
  keepalive_seconds = 60;
  client_id = "press";
  ca_cert_path = none;
  client_cert_path = some "cert.pem";
  client_key_path = some "key.pem";
})

abbrev up : MqttBrokerClient prompt
up = record { started = true; connected = true; client = [] }

mqtt-IsConfirming_example : IsConfirming (mqtt prompt settings)
mqtt-IsConfirming_example = mqtt-IsConfirming prompt settings IsPaho-prompt (omega arith)

pub Takes-prompt : (topic : String) → Takes prompt topic
Takes-prompt topic payload qos s = ((topic, payload), s, refl)

create_mqtt-load_example :
    ((accepted.broker.tls ≡ true) × PresentsCertificate disk prompt accepted.broker)
    ⊎ ((accepted.broker.tls ≡ false)
        × (create_mqtt prompt (default_settings accepted.broker)
            ≡ ok (new_client prompt (fresh disk prompt accepted.broker))))
create_mqtt-load_example =
    create_mqtt-load disk prompt "config" accepted KeepsSign-to_float load-accepted
