-- ===== src/Agent/Calls.antt =====
-- The threads of an agent as a sequence of whole calls: the sampler's cycles and the publisher's
-- drains, one after the other in any order, as the ticks of the two schedulers of
-- agent/factoryfleet_agent/agent.py make them.
use factoryfleet.Base.{ℕ, ◌≡◌, refl, ◌∙◌, Bool, Option, some, List, [], ◌∷◌, All, ◌>>=◌}
use factoryfleet.Agent.{Agent, Config}
use factoryfleet.Agent.Lives.{Serves}
use factoryfleet.Agent.Walks.{drain_once-Walk}
use factoryfleet.Runner.{Runner, sample_once}
use factoryfleet.Runner.Cycle.{sample_once-Walk}
use factoryfleet.Sensors.Reading.{Reading}
use factoryfleet.Store.Queue.{IsValid}
use factoryfleet.System.Carries.{Walk, Walk-append}
use factoryfleet.System.Ghost.{Ghost, at}
use factoryfleet.System.Integrity.{IsOwn}
use factoryfleet.System.Live.{live, Run-IsValid}
use factoryfleet.System.{here}
use factoryfleet.Timeutil.{Datetime, IsDatetime}
use factoryfleet.Transport.Broker.{BrokerClient, IsConfirming}
use factoryfleet.Transport.Publisher.Drain.{drain_once_total}
use factoryfleet.Transport.Publisher.{drain_once}
use factoryfleet.Wire.Conforms.{IsSound}

-- A cycle with the statements that fail, the two readings of the clock and the readings of the sensors; or
-- a drain.
pub data Call : Type 0 where
  cycle : (ℕ → Bool) → Datetime → Datetime → List Reading → Call
  drain : Call

abbrev pub IsFine : Call → Type 0
IsFine (cycle fails batched_at now readings) =
    All IsSound readings × IsDatetime batched_at × IsDatetime now
IsFine drain = Unit

module _ (C : BrokerClient) (clock : ℕ → Datetime) (self : Config) where
  abbrev runner_of : Agent C → Runner
  runner_of a = record {
    identity = self.identity;
    sensor_ids = self.sensor_ids;
    store = a.publisher.store;
    cycles = 0;
  }

  -- An exception of a cycle is counted by the scheduler and goes no further.
  unfoldable pub run_call : Call → Agent C → Option (Agent C)
  run_call (cycle fails batched_at now readings) a =
      let store = (sample_once fails batched_at now readings (runner_of a)).1.store in
      some (record a { publisher = record a.publisher { store = store } })
  run_call drain a = do
    (n, p) ← drain_once C clock self.settings a.publisher
    some (record a { publisher = p })

  unfoldable pub run_calls : List Call → Agent C → Option (Agent C)
  unfolding run_call
  run_calls [] a = some a
  run_calls (c ∷ calls) a = do b ← run_call c a; run_calls calls b

module _ (C : BrokerClient) (L : IsConfirming C) (clock : ℕ → Datetime)
    (ticks : (n : ℕ) → IsDatetime (clock n)) (self : Config) where
  -- What a call that returns has done: steps of System, on a store that stays valid.
  record Called (a b : Agent C) : Type 0 where
    walk :
        (g : Ghost)
        → (h : Ghost) × Walk (IsOwn self.identity) (at a.publisher [] g) (at b.publisher [] h)
    valid : IsValid b.publisher.store
    running_kept : b.running ≡ a.running
    open_kept : b.closed ≡ a.closed
    sampler_kept : b.sampler ≡ a.sampler
    publisher_kept : b.publisher_loop ≡ a.publisher_loop

  run_call-Called :
      (c : Call) (a : Agent C)
      → IsFine c
      → IsValid a.publisher.store
      → (b : Agent C) × (run_call C clock self c a ≡ some b) × Called a b
  unfolding run_call
  run_call-Called (cycle fails batched_at now readings) a (sound, v, w) valid =
      let runner = runner_of C clock self a in
      let s = live {C = C} a.publisher.store a.publisher.client in
      let (_, lived) = sample_once-Walk fails batched_at now readings runner s sound v w in
      (
        _,
        refl,
        record {
          walk = λ g.
              (let (dropped, walk) =
                  sample_once-Walk fails batched_at now readings runner (at a.publisher [] g) sound
                    v w in
                (record g { dropped = dropped }, walk));
          valid = Run-IsValid a.publisher.store a.publisher.client _ L valid lived.0;
          running_kept = refl;
          open_kept = refl;
          sampler_kept = refl;
          publisher_kept = refl;
        },
      )
  run_call-Called drain a fine valid =
      let (n, p, done, d) = drain_once_total C L clock ticks self.settings a.publisher valid in
      (
        record a { publisher = p },
        rw done,
        record {
          walk = λ g. drain_once-Walk C L clock ticks self a.publisher p n g done;
          valid = d.valid;
          running_kept = refl;
          open_kept = refl;
          sampler_kept = refl;
          publisher_kept = refl;
        },
      )

  Called-then : (a b c : Agent C) → Called a b → Called b c → Called a c
  Called-then a b c first rest = record {
    walk = λ g.
        (let (h, walk) = first.walk g in
          let (k, onward) = rest.walk h in (k, Walk-append (IsOwn self.identity) walk onward));
    valid = rest.valid;
    running_kept = rest.running_kept ∙ first.running_kept;
    open_kept = rest.open_kept ∙ first.open_kept;
    sampler_kept = rest.sampler_kept ∙ first.sampler_kept;
    publisher_kept = rest.publisher_kept ∙ first.publisher_kept;
  }

  run_calls-Called :
      (calls : List Call) (a : Agent C)
      → All IsFine calls
      → IsValid a.publisher.store
      → (b : Agent C) × (run_calls C clock self calls a ≡ some b) × Called a b
  unfolding run_calls
  run_calls-Called [] a fine valid = (
    a,
    refl,
    record {
      walk = λ g. (g, (here, tt));
      valid = valid;
      running_kept = refl;
      open_kept = refl;
      sampler_kept = refl;
      publisher_kept = refl;
    },
  )
  run_calls-Called (c ∷ calls) a fine valid =
      let (b, done, first) = run_call-Called c a fine.0 valid in
      let (last, finished, rest) = run_calls-Called calls b fine.1 first.valid in
      (last, rw done finished, Called-then a b last first rest)

  -- With a broker client that keeps its contract and a clock that gives datetimes, any sequence of
  -- cycles over sound readings and of drains on a valid store returns, whatever statements fail, and is
  -- what the threads may do.
  pub run_calls-Serves :
      (calls : List Call) (a : Agent C)
      → All IsFine calls
      → IsValid a.publisher.store
      → (b : Agent C) × (run_calls C clock self calls a ≡ some b)
        × Serves self.identity a b
        × IsValid b.publisher.store
  run_calls-Serves calls a fine valid =
      let (b, done, called) = run_calls-Called calls a fine valid in
      let s = live {C = C} a.publisher.store a.publisher.client in
      let (h, walk) = called.walk (record {
        confirmed = s.confirmed;
        delivered = s.delivered;
        dropped = s.dropped;
        counted_before = s.counted_before;
      }) in
      (
        b,
        done,
        record {
          lives = record {
            end = at b.publisher [] h;
            run = walk.0;
            store_reached = refl;
            client_reached = refl;
            running_kept = called.running_kept;
            open_kept = called.open_kept;
            sampler_kept = called.sampler_kept;
            publisher_kept = called.publisher_kept;
          };
          own = walk.1;
          idle = refl;
          settled = refl;
        },
        called.valid,
      )
