-- ===== src/Transport/Broker.antt =====
-- `BrokerClient` of agent/factoryfleet_agent/transport/broker.py: what the publisher sees of the
-- connection. A call can change the client's state, since the network runs beside it.
use factoryfleet.Base.{Bool, true, ◌≡◌, String, List, [], ◌∷◌, ◌++◌}
use factoryfleet.Json.{Fields}
use mathlib.Core.List.{Sublist}

abbrev pub Message : Type 0
Message = String × Fields

-- `received` is the broker's own record of the messages that it has acknowledged, in order. No code
-- reads it.
pub record BrokerClient : Type 1 where
  pub State : Type 0
  pub start : State → State
  pub stop : State → State
  pub is_connected : State → Bool × State
  pub publish : String → Fields → State → Bool × State
  pub received : State → List Message

-- The contract: `True` means that the broker has acknowledged this message, after all that it had
-- acknowledged before. A `False` says nothing: the message may have arrived.
pub record IsConfirming (C : BrokerClient) : Type 0 where
  pub is_connected-keeps : (c : C.State) → Sublist (C.received c) (C.received (C.is_connected c).1)
  pub publish-keeps :
      (topic : String) (payload : Fields) (c : C.State)
      → Sublist (C.received c) (C.received (C.publish topic payload c).1)
  pub publish-confirms :
      (topic : String) (payload : Fields) (c : C.State)
      → (C.publish topic payload c).0 ≡ true
      → Sublist (C.received c ++ ((topic, payload) ∷ [])) (C.received (C.publish topic payload c).1)
