-- ===== src/Transport/Mqtt.antt =====
-- `MqttBrokerClient` of agent/factoryfleet_agent/transport/broker.py, over the paho MQTT client, which
-- is a parameter. `self._connected` is set and cleared by the two callbacks, which paho calls between
-- the methods; `publish` reads it once, before it hands the message over.
pub mod Laws
pub mod Secure
use factoryfleet.Base.{
  ℕ, ◌≤◌, ◌≡◌, Bool, true, false, ◌&&◌, ◌||◌, String, Option, none, some, List, [], ◌∷◌, ◌++◌, ◌==◌,
  if◌then◌else◌,
}
use factoryfleet.Config.Broker.{BrokerConfig}
use factoryfleet.Config.Machine.{Machine}
use factoryfleet.Json.{Fields}
use factoryfleet.Results.{Result, ok, raised, ◌>>=◌}
use factoryfleet.Transport.Broker.{Message, BrokerClient}
use mathlib.Core.List.{Sublist}

-- The calls that the source makes of `paho.mqtt.client.Client` and of the `MQTTMessageInfo` that
-- `publish` returns. `wait_for_publish` tells whether it returned (`true`) or raised. The payload is
-- the value of the text that `json.dumps` gives.
pub record Paho : Type 1 where
  pub State : Type 0
  pub MessageInfo : Type 0
  pub rc : MessageInfo → ℕ
  -- `mqtt.Client(CallbackAPIVersion.VERSION2, client_id=…, protocol=MQTTv5)`
  pub new_state : String → State
  pub reconnect_delay_set : ℕ → ℕ → State → State
  -- `ca_certs`, `certfile` and `keyfile`, with `CERT_REQUIRED` and `PROTOCOL_TLS_CLIENT`
  pub tls_set : Option String → Option String → Option String → State → Result State
  pub connect_async : String → ℕ → ℕ → State → State
  pub loop_start : State → State
  pub disconnect : State → State
  pub loop_stop : State → State
  pub is_connected : State → Bool
  -- raises `ValueError`, on a topic with a wildcard for one, and then sends nothing
  pub publish : String → Fields → ℕ → State → Result (MessageInfo × State)
  pub wait_for_publish : MessageInfo → ℕ → State → Bool × State
  pub is_published : MessageInfo → State → Bool
  pub acknowledged : State → List Message

-- What the documentation of paho says: at a quality of service above 0 a message counts as published
-- once the broker's acknowledgement of it is in; acknowledgements are never taken back.
pub record IsPaho (P : Paho) : Type 0 where
  pub publish-keeps :
      (topic : String) (payload : Fields) (qos : ℕ) (s : P.State) (m : P.MessageInfo) (s1 : P.State)
      → P.publish topic payload qos s ≡ ok (m, s1)
      → Sublist (P.acknowledged s) (P.acknowledged s1)
  pub wait_for_publish-keeps :
      (m : P.MessageInfo) (timeout : ℕ) (s : P.State)
      → Sublist (P.acknowledged s) (P.acknowledged (P.wait_for_publish m timeout s).1)
  pub is_published-acknowledged :
      (topic : String) (payload : Fields) (qos timeout : ℕ) (s : P.State) (m : P.MessageInfo)
      (s1 : P.State)
      → 1 ≤ qos
      → P.publish topic payload qos s ≡ ok (m, s1)
      → let s2 = (P.wait_for_publish m timeout s1).1 in
        P.is_published m s2 ≡ true
        → Sublist (P.acknowledged s ++ ((topic, payload) ∷ [])) (P.acknowledged s2)

-- Paho takes the topic, as it does one without wildcards.
abbrev pub Takes : Paho → String → Type 0
Takes P topic =
    (payload : Fields) (qos : ℕ) (s : P.State)
    → (m : P.MessageInfo) × (s1 : P.State) × (P.publish topic payload qos s ≡ ok (m, s1))

abbrev pub default_qos : ℕ
default_qos = 1

abbrev mqtt_err_success : ℕ
mqtt_err_success = 0

-- The attributes and arguments of the constructor that stay as they are. The timeout is in
-- microseconds, the delays are whole seconds.
pub record Settings (M : Machine) : Type 0 where
  pub config : BrokerConfig M
  pub publish_timeout : ℕ
  pub qos : ℕ
  pub reconnect_min : ℕ
  pub reconnect_max : ℕ

-- `MqttBrokerClient(config)`
abbrev pub default_settings : {M : Machine} → BrokerConfig M → Settings M
default_settings config = record {
  config = config;
  publish_timeout = 10000000;
  qos = default_qos;
  reconnect_min = 1;
  reconnect_max = 60;
}

pub record MqttBrokerClient (P : Paho) : Type 0 where
  pub started : Bool
  pub connected : Bool
  pub client : P.State

-- A new object over a new paho client.
abbrev pub new_client : (P : Paho) → P.State → MqttBrokerClient P
new_client P client = record { started = false; connected = false; client = client }

-- `str(path) if path else None`; every path counts as true.
unfoldable pub path_text : (M : Machine) → Option M.FilePath → Option String
path_text M none = none
path_text M (some path) = some (M.text path)

module _ {M : Machine} (P : Paho) (self : Settings M) where
  unfoldable pub configure_tls : P.State → Result P.State
  unfolding path_text
  configure_tls client =
      P.tls_set (path_text M self.config.ca_cert_path) (path_text M self.config.client_cert_path)
        (path_text M self.config.client_key_path) client

  -- The constructor. The callbacks that it sets are `on_connect` and `on_disconnect`.
  unfoldable pub create_mqtt : Result (MqttBrokerClient P)
  unfolding configure_tls
  create_mqtt = do
    let client =
        P.reconnect_delay_set self.reconnect_min self.reconnect_max
          (P.new_state self.config.client_id)
    secured ← if self.config.tls then configure_tls client else ok client
    ok (new_client P secured)

  unfoldable pub start : MqttBrokerClient P → MqttBrokerClient P
  start c = if c.started then c else record c {
    started = true;
    client =
        P.loop_start (
          P.connect_async self.config.host self.config.port self.config.keepalive_seconds c.client);
  }

  unfoldable pub stop : MqttBrokerClient P → MqttBrokerClient P
  stop c =
      if c.started
      then record c {
        started = false;
        client = P.loop_stop (P.disconnect c.client);
        connected = false;
      }
      else c

  unfoldable pub is_connected : MqttBrokerClient P → Bool
  is_connected c = c.connected && P.is_connected c.client

  -- The flag tells whether the broker accepted the connection before the timeout.
  unfoldable pub wait_until_connected : Bool → MqttBrokerClient P → Bool × MqttBrokerClient P
  wait_until_connected accepted c =
      let set = c.connected || accepted in (set, record c { connected = set })

  -- The tests after the message was handed over.
  unfoldable pub await_broker : P.MessageInfo → MqttBrokerClient P → Bool × MqttBrokerClient P
  await_broker m c =
      let (completed, after) = P.wait_for_publish m self.publish_timeout c.client in
      if P.rc m == mqtt_err_success
      then (completed && P.is_published m after, record c { client = after })
      else (false, c)

  -- From the return of paho's `publish` on; what it raises goes to the caller.
  unfoldable pub handed_over :
      MqttBrokerClient P → Result (P.MessageInfo × P.State) → Result (Bool × MqttBrokerClient P)
  unfolding await_broker
  handed_over c (raised e) = raised e
  handed_over c (ok (m, sent)) = ok (await_broker m (record c { client = sent }))

  unfoldable pub publish : String → Fields → MqttBrokerClient P → Result (Bool × MqttBrokerClient P)
  unfolding handed_over is_connected
  publish topic payload c =
      let sent = handed_over c (P.publish topic payload self.qos c.client) in
      if is_connected c then sent else ok (false, c)

  -- What was sent, if the call returned; a call that raised has sent nothing.
  abbrev pub sent_by :
      MqttBrokerClient P → Result (Bool × MqttBrokerClient P) → Bool × MqttBrokerClient P
  sent_by c (ok done) = done
  sent_by c (raised e) = (false, c)

  -- `_on_connect` with the broker's reason code.
  unfoldable pub on_connect : ℕ → MqttBrokerClient P → MqttBrokerClient P
  on_connect reason_code c = record c { connected = reason_code == 0 }

  unfoldable pub on_disconnect : MqttBrokerClient P → MqttBrokerClient P
  on_disconnect c = record c { connected = false }

  -- The class as a `BrokerClient`, on topics that paho takes: there the two calls of `publish` agree.
  unfoldable pub mqtt : BrokerClient
  unfolding publish
  mqtt = record {
    State = MqttBrokerClient P;
    start = start;
    stop = stop;
    is_connected = λ c. (is_connected c, c);
    publish = λ topic payload c. sent_by c (publish topic payload c);
    received = λ c. P.acknowledged c.client;
  }
