-- ===== src/Tests/DeployedRuns.antt =====
-- The agent over the directory of ConfigRuns with the options of a vibration sensor, and the paho
-- client of MqttRuns.
use factoryfleet.Base.{refl, ◌==◌, List, false, [], ◌∷◌, arith, String}
use factoryfleet.Agent.{Agent}
use factoryfleet.Config.Load.{enabled_sensors}
use factoryfleet.Config.Toml.{get}
use factoryfleet.Agent.Create.{max_outbox_entries}
use factoryfleet.Main.Deployed.{deployed_parts}
use factoryfleet.Main.Ticks.{Tick, sampler, publisher}
use factoryfleet.Main.Laws.{AreReady}
use factoryfleet.Results.{Result, ok}
use factoryfleet.Sensors.BuiltIn.{construct, vibrating}
use factoryfleet.Sensors.Options.{required_float, float_option}
use factoryfleet.Sensors.Registry.{create, construct_found, create_all, find}
use factoryfleet.Sensors.Vibration.{create_vibration}
use factoryfleet.Store.Table.{Database}
use factoryfleet.Store.Types.{reopen}
use factoryfleet.System.{System}
use factoryfleet.Tests.BuiltInRuns.{around}
use factoryfleet.Tests.ConfigRuns.{disk, accepted}
use factoryfleet.Tests.Data.{noon, stopped_clock}
use factoryfleet.Tests.Doubles.{whole}
use factoryfleet.Tests.MqttRuns.{prompt}
use factoryfleet.Tests.SimulatedRuns.{vibration_sensor, source}
use factoryfleet.Transport.Broker.{BrokerClient}
use factoryfleet.Transport.Mqtt.{create_mqtt, default_settings, mqtt, new_client}
use factoryfleet.Transport.Publisher.{Publisher}

abbrev client : BrokerClient
client = mqtt prompt (default_settings accepted.broker)

abbrev empty : Database
empty = record { asset_state = []; outbox = []; sequence = 0 }

abbrev opens : String → Result Database
opens path = ok empty

abbrev left : Publisher client
unfolding mqtt
left = record {
  store = reopen max_outbox_entries empty;
  client = new_client prompt [];
  published = 0;
  reads = 0;
}

ready :
    AreReady disk client
      (deployed_parts whole around disk prompt accepted.broker opens)
      "0.2.0"
      accepted
unfolding deployed_parts mqtt create_mqtt create_all create construct construct_found find
    enabled_sensors create_vibration required_float get float_option reopen
ready = record {
  database = empty;
  sensors = vibrating vibration_sensor source ∷ [];
  client = new_client prompt [];
  opened = refl;
  built = refl;
  connected = refl;
  readable = omega arith;
}

-- A cycle, a drain, a cycle whose COMMIT fails, and another drain.
abbrev turns : List Tick
turns =
    sampler (λ n. false) stopped_clock noon noon
    ∷ publisher
    ∷ sampler (λ n. n == 4) stopped_clock noon noon
    ∷ publisher
    ∷ []
