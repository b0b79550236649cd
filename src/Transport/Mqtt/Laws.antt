-- ===== src/Transport/Mqtt/Laws.antt =====
-- `MqttBrokerClient` keeps the contract of `BrokerClient`, and its connection state is right.
use factoryfleet.Base.{
  ℕ, ◌≤◌, ◌≡◌, refl, true, false, not, ◌&&◌, String, [], ◌∷◌, ◌++◌, arith, ◌==◌, Bool-cases, inl,
  inr,
}
use factoryfleet.Config.Machine.{Machine}
use factoryfleet.Json.{Fields}
use factoryfleet.Transport.Broker.{IsConfirming}
use factoryfleet.Transport.Mqtt.{
  Paho, IsPaho, Settings, MqttBrokerClient, start, stop, is_connected, publish, on_connect,
  on_disconnect, mqtt, sent_by, handed_over, await_broker, Takes,
}
use factoryfleet.Results.{ok, Result-cases}
use mathlib.Core.List.{Sublist}
use mathlib.Core.List.Sublist

module _ {M : Machine} (P : Paho) (self : Settings M) (topic : String) (payload : Fields)
    (c : MqttBrokerClient P) where
  -- Where paho takes the message, `publish` returns True exactly when the client was connected, paho
  -- reported no error, the wait did not raise, and paho had the acknowledgement at its end.
  pub publish-true :
      (m : P.MessageInfo) (sent : P.State)
      → P.publish topic payload self.qos c.client ≡ ok (m, sent)
      → let (completed, after) = P.wait_for_publish m self.publish_timeout sent in
        (sent_by P self c (publish P self topic payload c)).0
        ≡ (is_connected P self c && (P.rc m == 0 && (completed && P.is_published m after)))
  unfolding publish handed_over await_broker
  publish-true m sent h = elim (Bool-cases (is_connected P self c)) [
    | inl up ↦ rw (up, h) (ground arith)
    | inr down ↦ rw down (ground arith)
  ]

  -- A client that is not connected hands nothing to paho.
  pub publish-disconnected :
      is_connected P self c ≡ false → publish P self topic payload c ≡ ok (false, c)
  unfolding publish
  publish-disconnected h = rw h

  -- On a topic that paho takes, `publish` raises nothing.
  pub publish-returns :
      Takes P topic
      → publish P self topic payload c ≡ ok (sent_by P self c (publish P self topic payload c))
  unfolding publish handed_over
  publish-returns takes = elim (Bool-cases (is_connected P self c)) [
    | inl up ↦ let (m, s1, taken) = takes payload self.qos c.client in rw (up, taken) refl
    | inr down ↦ rw down refl
  ]

module _ {M : Machine} (P : Paho) (self : Settings M) (L : IsPaho P) (topic : String)
    (payload : Fields) (c : MqttBrokerClient P) where
  publish-keeps :
      Sublist
        (P.acknowledged c.client)
        (P.acknowledged (sent_by P self c (publish P self topic payload c)).1.client)
  unfolding publish handed_over await_broker
  publish-keeps = elim (Bool-cases (is_connected P self c)) [
    | inr down ↦ rw down (Sublist.refl _)
    | inl up ↦ elim (Result-cases (P.publish topic payload self.qos c.client)) [
      | inr (e, failed) ↦ rw (up, failed) (Sublist.refl _)
      | inl ((m, s1), sent) ↦
          let kept = L.publish-keeps topic payload self.qos c.client m s1 sent in
          elim (Bool-cases (P.rc m == 0)) [
            | inl taken ↦
                rw (up, sent, taken)
                  (Sublist.trans kept (L.wait_for_publish-keeps m self.publish_timeout s1))
            | inr refused ↦ rw (up, sent, refused) kept
          ]
    ]
  ]

  publish-confirms :
      1 ≤ self.qos
      → (sent_by P self c (publish P self topic payload c)).0 ≡ true
      → Sublist
          (P.acknowledged c.client ++ ((topic, payload) ∷ []))
          (P.acknowledged (sent_by P self c (publish P self topic payload c)).1.client)
  unfolding publish handed_over await_broker
  publish-confirms q h = elim (Bool-cases (is_connected P self c)) [
    | inr down ↦ absurd (ground (arith, rw down at h))
    | inl up ↦ elim (Result-cases (P.publish topic payload self.qos c.client)) [
      | inr (e, failed) ↦ absurd (ground (arith, rw (up, failed) at h))
      | inl ((m, s1), sent) ↦ elim (Bool-cases (P.rc m == 0)) [
        | inl taken ↦
            rw (up, sent, taken)
              (L.is_published-acknowledged topic payload self.qos self.publish_timeout c.client m s1
                q sent (ground (arith, rw (up, sent, taken) at h)))
        | inr refused ↦ absurd (ground (arith, rw (up, sent, refused) at h))
      ]
    ]
  ]

-- Over a paho client that behaves as documented, `MqttBrokerClient` keeps the contract of
-- `BrokerClient`: it returns True only for a message that the broker has acknowledged.
pub mqtt-IsConfirming :
    {M : Machine} (P : Paho) (self : Settings M)
    → IsPaho P
    → 1 ≤ self.qos
    → IsConfirming (mqtt P self)
unfolding mqtt
mqtt-IsConfirming P self L q = record {
  is_connected-keeps = λ c. Sublist.refl _;
  publish-keeps = λ topic payload c. publish-keeps P self L topic payload c;
  publish-confirms = λ topic payload c. publish-confirms P self L topic payload c q;
}

-- Starting and stopping twice is starting and stopping once; a client that was started is not
-- connected after `stop`, and none is after a disconnect or a refused connection.
pub lifecycle :
    {M : Machine} (P : Paho) (self : Settings M) (c : MqttBrokerClient P) (code : ℕ)
    → (start P self (start P self c) ≡ start P self c)
      × (stop P self (stop P self c) ≡ stop P self c)
      × (is_connected P self (stop P self c) ≡ (not c.started && is_connected P self c))
      × (is_connected P self (on_disconnect P self c) ≡ false)
      × (is_connected P self (on_connect P self code c) ≡ (code == 0 && P.is_connected c.client))
unfolding start stop is_connected on_disconnect on_connect
lifecycle P self c code = (ground arith, ground arith, ground arith, refl, refl)
