-- ===== src/Agent.antt =====
-- `Agent` of agent/factoryfleet_agent/agent.py: `start`, `_announce` and `stop`. The calls of the two
-- threads between them are the steps of System. Logging is left out.
pub mod Laws
pub mod Create
pub mod Walks
pub mod Lives
pub mod Calls
use factoryfleet.Base.{
  ℕ, ◌+◌, Bool, true, false, ◌&&◌, ◌||◌, String, Option, none, some, List, if◌then◌else◌, ◌>>=◌,
}
use factoryfleet.Config.Types.{AssetIdentity}
use factoryfleet.Results.{Result, ok, raised}
use factoryfleet.Scheduler.Lifecycle.{Control, new_control, start, stop}
use factoryfleet.Timeutil.{Datetime}
use factoryfleet.Transport.Broker.{BrokerClient}
use factoryfleet.Transport.Publisher.{Publisher, Settings, drain_once, publish_now}
use factoryfleet.Wire.{registration, registration_topic}

-- The agent with its store and client, which the publisher shares. `closed` tells whether the store
-- was closed.
pub record Agent (C : BrokerClient) : Type 0 where
  pub publisher : Publisher C
  pub sampler : Control
  pub publisher_loop : Control
  pub running : Bool
  pub closed : Bool

-- What those calls of `stop` do that no `try` is around: the count of what is left, the end of the
-- connection, and the closing of the store, which is made if both threads have ended.
pub record StopCalls : Type 0 where
  pub counting : Result (Unit {0})
  pub disconnecting : Result (Unit {0})
  pub closing : Result (Unit {0})

-- They all return.
abbrev pub calm : StopCalls
calm = record { counting = ok tt; disconnecting = ok tt; closing = ok tt }

-- The attributes that the constructor sets for good.
pub record Config : Type 0 where
  pub identity : AssetIdentity
  pub sensor_ids : List String
  pub version : String
  pub settings : Settings

-- One call, and then the rest.
abbrev after {ℓ} : {A : Type ℓ} → Result (Unit {0}) → Result A → Result A
after (ok _) rest = rest
after (raised e) rest = raised e

module _ (C : BrokerClient) (clock : ℕ → Datetime) (self : Config) where
  -- `_announce`, with the test that chooses the message of the log. The runner reads the clock too.
  unfoldable pub announce : Publisher C → Option (Bool × Publisher C)
  announce p =
      let payload = registration self.identity self.sensor_ids self.version (clock p.reads) in
      publish_now C clock self.settings (registration_topic self.identity) payload
        (record p { reads = p.reads + 1 })

  -- `none` is an exception, as the first call on a closed store raises. The two flags are what `is_alive` says of an earlier thread.
  unfoldable pub start_agent : Bool → Bool → Agent C → Option (Agent C)
  unfolding announce
  start_agent sampler_alive publisher_alive a = if a.closed then none else do
    (announced, p) ← announce (record a.publisher { client = C.start a.publisher.client })
    sampler ← start sampler_alive a.sampler
    publisher_loop ← start publisher_alive a.publisher_loop
    some (record a {
      publisher = p;
      sampler = sampler;
      publisher_loop = publisher_loop;
      running = true;
    })

  -- The final drain. An exception of it is logged and ends it; `left` is the publisher that it then
  -- leaves.
  unfoldable pub final_drain : Publisher C → Option (ℕ × Publisher C) → Publisher C
  final_drain left none = left
  final_drain left (some (n, p)) = p

  -- `stop` where its calls return. The two flags are what `is_alive` says of the threads after the
  -- joins.
  unfoldable pub stop_agent : Bool → Bool → Publisher C → Agent C → Agent C
  unfolding final_drain
  stop_agent sampler_alive publisher_alive left a =
      let (sampler_stopped, sampler) = stop sampler_alive a.sampler in
      let (publisher_stopped, publisher_loop) = stop publisher_alive a.publisher_loop in
      let p = final_drain left (drain_once C clock self.settings a.publisher) in
      if a.running
      then record a {
        publisher = record p { client = C.stop p.client };
        sampler = sampler;
        publisher_loop = publisher_loop;
        running = false;
        closed = a.closed || (sampler_stopped && publisher_stopped);
      }
      else a

  -- `stop` with what its calls raise; the exception goes to the caller.
  unfoldable pub stop_raising : StopCalls → Bool → Bool → Publisher C → Agent C → Result (Agent C)
  stop_raising calls sampler_alive publisher_alive left a =
      let (sampler_stopped, sampler) = stop sampler_alive a.sampler in
      let (publisher_stopped, publisher_loop) = stop publisher_alive a.publisher_loop in
      let closed = if sampler_stopped && publisher_stopped then calls.closing else ok tt in
      let stopped = ok (stop_agent sampler_alive publisher_alive left a) in
      if a.running
      then after calls.counting (after calls.disconnecting (after closed stopped))
      else ok a
