-- ===== src/Tests/TransportRuns.antt =====
-- The publisher over a broker that confirms a bounded number of messages, and the MQTT client over a
-- paho client that acknowledges at once.
use factoryfleet.Base.{◌≡◌, ℕ, [], some, arith}
use factoryfleet.Store.Enqueue.{enqueue-IsValid}
use factoryfleet.Store.Outbox.{enqueue}
use factoryfleet.Store.Queue.{IsValid}
use factoryfleet.Store.Types.{Store, new_store}
use factoryfleet.Tests.Data.{
  noon, IsDatetime-noon, stopped_clock, payload, budget_broker, IsConfirming-budget_broker,
}
use factoryfleet.Transport.Publisher.{Publisher, drain_once, default_settings}
use factoryfleet.Transport.Publisher.Drain.{Drains, drain_once_total}

abbrev store : Store
store = (enqueue noon "t" (payload 2) (enqueue noon "t" (payload 1) (new_store 10)).1).1

IsValid-store : IsValid store
IsValid-store =
    enqueue-IsValid noon "t" (payload 2) (enqueue noon "t" (payload 1) (new_store 10)).1
      IsDatetime-noon
      (enqueue-IsValid noon "t" (payload 1) (new_store 10) IsDatetime-noon (omega arith))

-- The broker confirms one of the two entries.
abbrev publisher : Publisher budget_broker
publisher = record {
  store = store;
  client = record { budget = 1; log = [] };
  published = 0;
  reads = 0;
}

drain_once_total_example :
    (n : ℕ) × (q : Publisher budget_broker) × (drain_once budget_broker stopped_clock
        default_settings publisher
      ≡ some (n, q))
    × Drains budget_broker stopped_clock 50 publisher n q
drain_once_total_example =
    drain_once_total budget_broker IsConfirming-budget_broker stopped_clock (λ n. IsDatetime-noon)
      default_settings publisher IsValid-store
