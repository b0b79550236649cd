-- ===== src/Main/Deployed.antt =====
-- The agent as agent/factoryfleet_agent/agent.py puts it together: the built-in sensors over the
-- client of paho, with the two threads that `start` starts.
use factoryfleet.Main.Ticks.{Tick, calls_of}
use factoryfleet.Base.{ℕ, ◌≡◌, refl, false, String, Option, none, some, List, [], ◌∷◌}
use factoryfleet.Agent.Calls.{run_calls}
use factoryfleet.Agent.Create.{Parts, Created}
use factoryfleet.Agent.{Agent, calm}
use factoryfleet.Config.Broker.{BrokerConfig}
use factoryfleet.Config.Machine.{Machine}
use factoryfleet.Main.{Life}
use factoryfleet.Results.{Result, ok}
use factoryfleet.Sensors.BuiltIn.{
  Surroundings, built_in, built_in_registry, cycle_count_class, id_of, temperature_class,
  vibration_class,
}
use factoryfleet.Sensors.Options.{Floats}
use factoryfleet.Sensors.Registry.{Registry, find, insert, is_taken, register}
use factoryfleet.Store.Table.{Database}
use factoryfleet.System.{System}
use factoryfleet.Timeutil.{Datetime}
use factoryfleet.Transport.Broker.{BrokerClient}
use factoryfleet.Transport.Mqtt.{
  Paho, MqttBrokerClient, default_settings, create_mqtt, mqtt, publish, sent_by,
}
use factoryfleet.Transport.Publisher.{Publisher}
use factoryfleet.Json.{Fields}

module _ (F : Floats) (around : Surroundings F) where
  -- The three classes under their names, as the import leaves them.
  abbrev registered : Registry (built_in F around)
  registered =
      ("cycle_count", cycle_count_class)
      ∷ ("temperature", temperature_class)
      ∷ ("vibration", vibration_class)
      ∷ []

  -- The import of the built-in sensors raises nothing.
  built_in_registry-registered : built_in_registry F around ≡ ok registered
  unfolding built_in_registry register insert is_taken find
  built_in_registry-registered = refl

  -- The parts over the files of SQLite and a paho client whose settings are `broker`.
  unfoldable pub deployed_parts :
      (M : Machine) (P : Paho) (broker : BrokerConfig M)
      → (M.FilePath → Result Database)
      → Parts M (mqtt P (default_settings broker))
  unfolding mqtt
  deployed_parts M P broker open_database = record {
    classes = built_in F around;
    id_of = id_of;
    registry = registered;
    open_database = open_database;
    create_client = λ b. create_mqtt P (default_settings b);
  }

abbrev or_agent : {C : BrokerClient} → Agent C → Option (Agent C) → Agent C
or_agent a none = a
or_agent a (some b) = b

-- No call of `publish` on the topic raises.
abbrev pub Returns : {M : Machine} (P : Paho) → BrokerConfig M → String → Type 0
Returns P broker topic =
    (payload : Fields) (c : MqttBrokerClient P)
    → publish P (default_settings broker) topic payload c
      ≡ ok (
          sent_by P (default_settings broker) c
            (publish P (default_settings broker) topic payload c))

-- The two threads, from the sensors and the client that the constructor built, where both end within
-- the joins and the calls of `stop` return. `left` is what a final drain that raises leaves.
unfoldable pub deployed_life :
    (F : Floats) (around : Surroundings F) (M : Machine) (P : Paho) (broker : BrokerConfig M)
    (clock : ℕ → Datetime) (ticks : List Tick) (left : Publisher (mqtt P (default_settings broker)))
    (open_database : M.FilePath → Result Database)
    → Created (deployed_parts F around M P broker open_database)
    → Life (mqtt P (default_settings broker))
unfolding deployed_parts
deployed_life F around M P broker clock ticks left open_database created = record {
  threads = λ a. or_agent a (
      run_calls (mqtt P (default_settings broker)) clock created.self
        (calls_of F around ticks created.sensors) a);
  sampler_alive = false;
  publisher_alive = false;
  left = left;
  stop_calls = calm;
}
