-- ===== src/Tests/RunnerRuns.antt =====
-- A sampling cycle over two readings.
use factoryfleet.Base.{
  ℕ, Bool, List, ◌++◌, true, false, some, arith, ◌≡◌, refl, ◌⊎◌, String, [], ◌∷◌, ◌==◌,
}
use factoryfleet.Runner.{Runner, sample_once}
use factoryfleet.Runner.Atomic.{sampled, miscounted, sample_once_atomic}
use factoryfleet.Runner.Sampling.{log_cycle, could_not_be_read}
use factoryfleet.Store.Types.{operational_error, new_store, returned, raised}
use factoryfleet.Tests.Data.{
  noon, IsDatetime-noon, stopped_clock, press, vibration, seized, IsSound-both,
}
use factoryfleet.Tests.AgentRuns.{
  left_over, IsValid-left_over, length-left_over, capacity-left_over, open_broker,
  IsConfirming-open_broker, IsUp-open_broker, open_publisher, one_by_one,
}
use factoryfleet.Json.{object}
use factoryfleet.Runner.Delivered.{sample_once-delivered}
use factoryfleet.Store.Queue.{queue}
use factoryfleet.Timeutil.{Datetime}
use factoryfleet.Transport.Broker.{Message}
use factoryfleet.Transport.Publisher.Empties.{drain_times}
use factoryfleet.Transport.Publisher.{Publisher}
use factoryfleet.Wire.Shape.{fits, telemetry_shape}
use factoryfleet.Wire.{telemetry_topic, telemetry_batch, stamp_sent}
use mathlib.Core.List.{Sublist}

abbrev runner : Runner
runner = record {
  identity = press;
  sensor_ids = "vibration" ∷ "temperature" ∷ [];
  store = new_store 10;
  cycles = 0;
}

-- The disk is full at the COMMIT.
abbrev full : ℕ → Bool
full n = n == 5

sample_once_atomic_example :
    ((full 5 ≡ false)
      × (sample_once full noon noon (vibration ∷ seized ∷ []) runner ≡ (
        returned (vibration ∷ seized ∷ []),
        sampled noon noon (vibration ∷ seized ∷ []) runner,
      )))
    ⊎ (((e : String) × (sample_once full noon noon (vibration ∷ seized ∷ []) runner
            ≡ (raised e, runner)))
        ⊎ ((full 5 ≡ true)
            × (sample_once full noon noon (vibration ∷ seized ∷ []) runner ≡ (
              raised operational_error,
              miscounted noon noon (vibration ∷ seized ∷ []) runner,
            ))))
sample_once_atomic_example = sample_once_atomic full noon noon vibration (seized ∷ []) runner

-- One of the readings is an error.
logged : log_cycle (vibration ∷ seized ∷ []) ≡ could_not_be_read 2 ("temperature" ∷ [])
unfolding log_cycle
logged = refl

-- Behind two entries that were left over, over a broker that takes everything.
abbrev late_runner : Runner
late_runner = record runner { store = left_over }

sample_once-delivered_example :
    let after = (sample_once (λ n. false) noon noon (vibration ∷ seized ∷ []) late_runner).1 in
    let batch = telemetry_batch press (vibration ∷ seized ∷ []) noon in
    (n : ℕ) × (q : Publisher open_broker) × (earlier : List Message) × (sent_at : Datetime)
    × (drain_times open_broker stopped_clock one_by_one 3
          (record open_publisher { store = after.store })
        ≡ some (n, q))
    × (queue q.store ≡ [])
    × Sublist
        ([] ++ (earlier ++ ((telemetry_topic press, stamp_sent batch sent_at) ∷ [])))
        (open_broker.received q.client)
    × (fits telemetry_shape (object (stamp_sent batch sent_at)) ≡ true)
sample_once-delivered_example =
    sample_once-delivered open_broker IsUp-open_broker IsConfirming-open_broker stopped_clock
      (λ n. IsDatetime-noon) one_by_one 3 open_publisher (λ n. false) noon noon vibration
      (seized ∷ []) late_runner (λ n. refl) IsSound-both IsDatetime-noon IsDatetime-noon
      IsValid-left_over (omega (arith, capacity-left_over)) (omega (arith, length-left_over))
