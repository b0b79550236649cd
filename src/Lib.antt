-- ===== src/Lib.antt =====
-- The FactoryFleet asset agent: sensors are sampled into a local SQLite store, whose outbox is
-- drained to an MQTT broker. Two threads share the store and nothing else, so that an outage of the
-- broker stalls publishing and not sampling.
--
-- Files, and the code of agent/factoryfleet_agent that they model:
--   Timeutil              timeutil.py: `iso` and `parse_iso` on the text itself
--   Config/Types          config.py: the identity and a sensor's configuration
--   Config/Toml           config.py: the checks on one key
--   Config/Load           config.py: `load`, over Machine, the file system and Python, Broker with
--                         `_tls_paths`, and SensorFiles with `_load_sensors`; below it Keys,
--                         Parts, Refusals and BrokerRefusals have the lemmas, Accepted and Escapes
--                         the theorems
--   Sensors/Reading       sensors/base.py: `SensorCondition`, `Reading`
--   Sensors/Metrics       sensors/base.py: `_validate_metrics`, `_describe`
--   Sensors/Sample        sensors/base.py: `Sensor.sample`, `Sensor.execute`; Laws and Shape have what its
--                         readings are
--   Sensors/Registry      sensors/base.py: `register`, `create`, `create_all`
--   Sensors/Options       config.py: `SensorConfig.option` and `required_float`, over Python's floats
--   Sensors/Simulation    sensors/simulation.py: `Waveform.at`, the time since the start
--   Sensors/Limit         the test against a hard limit that two of the sensors make
--   Sensors/Vibration, Sensors/Temperature, Sensors/CycleCount
--                         sensors/vibration.py, sensors/temperature.py, sensors/cycle_count.py
--   Wire                  wire.py: topics and payloads; Shape has the shapes that docs/SPEC.md gives,
--                         Conforms and Topics the theorems
--   Store                 store.py: Table has the rows and the queries, Types the object and its
--                         transactions, AssetState and Outbox the methods on the two tables; Queue
--                         has the invariant, and Enqueue, Confirm, Batches, Prune, Latest,
--                         Snapshot and History the theorems
--   Transport/Broker      transport/broker.py: `BrokerClient`, and its contract
--   Transport/Mqtt        transport/broker.py: `MqttBrokerClient` over a paho client; Secure has what an
--                         accepted configuration makes of it
--   Transport/Publisher   transport/publisher.py: `drain_once`, `publish_now`, `_prune`; Drain,
--                         Progress and Empties have the theorems
--   Runner                runner.py: `sample_once` with writes that can fail; Sampling has the whole cycle
--                         over the built-in sensors and `_log_cycle`, Atomic, Cycle and Delivered
--                         the theorems
--   Scheduler             scheduler.py: the constructor, the loop, `start` and `stop`; Loop, Pace and
--                         Lifecycle have the theorems
--   Sensors/BuiltIn       sensors/__init__.py: the built-in classes; the sampling of all sensors
--   Agent                 agent.py: `start`, `_announce` and `stop`; Create has the constructor, Walks
--                         what starting and stopping are in System, Calls the threads as
--                         sequences of cycles and drains
--   Main                  main.py: `main`, from the command line to the exit code; CommandLine has
--                         `parse_args` and `configure_logging`, Outcomes the ends of the process,
--                         Whole its life; Deployed has the agent with the built-in sensors and
--                         `MqttBrokerClient`, over the ticks of Ticks
--   System                agent.py: the two threads over one store, with crashes; Refine has the
--                         relation to `drain_once`, Cut a power loss between the statements
--                         of `enqueue`, InOrder the order of the messages, Carries
--                         and Integrity what they hold, Live the threads of an agent that was
--                         started, Ghost that the record of a run decides nothing
--   Results               exceptions as values
--   Base, Json            Python's tests, lists, text and numbers; the values that `json` writes
--   Tests                 concrete data and runs
--
-- State and calls. A method is a function that takes the object's state and returns it with the
-- result; `none` or `raised` is an exception. A method that reads the clock takes what the clock
-- returned. A table is the list of its rows in the order of their ids. A JSON column is the value that
-- its text stands for, since `json.loads` undoes `json.dumps`. A broker client is any record of the
-- operations of `BrokerClient`; the theorems that need its promise take `IsConfirming`, which
-- `MqttBrokerClient` keeps over a paho client with `IsPaho`, on topics that paho takes. The simulated sensors compute with any
-- record of the operations of Python's floats; their theorems take `AreDoubles`, what IEEE 754 says of
-- the operations that they use. `argparse` and `logging` are the parameter Console with what the code
-- relies on in IsConsole. System cuts `drain_once` at each locked call of the store
-- and each call of the broker, and lets the sampler, the network and a power loss come in between.
--
-- Bounds. Ids and counters are unbounded, as in Python; SQLite's 64 bits are not reached. Times are
-- whole microseconds, and years run from 1 to 9999 as in `datetime`. Only the scheduler's loop has
-- fuel, and it ends with any fuel above the number of ticks until the stop event is set.
--
-- Faults. A cycle's transaction can fail at each of its statements, BEGIN and COMMIT included; the calls
-- of `stop` that no `try` guards can raise; so can paho's `publish`, the wait of a scheduler, and what
-- the loader asks of the file system. The store's other calls are taken to succeed. The INSERT and
-- the DELETE that queue the registration, which no transaction holds together, are one step of System;
-- System/Cut has what a power loss between them leaves.
--
-- Not modelled: the clock and the operating system, SQLite's file and pragmas, TLS and the
-- reconnection inside paho, the lines of the log but for `_log_cycle`, signals, the text of TOML, a
-- thread that goes on beside the final drain because it outlives the joins of `stop`, and the backend,
-- which is a service in Java.
pub mod Base
pub mod Timeutil
pub mod Json
pub mod Results
pub mod Config
pub mod Sensors
pub mod Wire
pub mod Store
pub mod Transport
pub mod Runner
pub mod System
pub mod Scheduler
pub mod Agent
pub mod Main
mod Tests
