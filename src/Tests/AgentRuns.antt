-- ===== src/Tests/AgentRuns.antt =====
-- An agent with two entries left over, over a broker that confirms a bounded number of messages and
-- over one that takes everything; and a drain as a run.
use factoryfleet.Base.{
  ◌≡◌, refl, ℕ, Bool, true, false, not, ◌&&◌, ◌||◌, List, [], ◌∷◌, ◌++◌, some, arith, length, drop,
}
use factoryfleet.Agent.{Agent, Config, announce, start_agent, stop_agent}
use factoryfleet.Agent.Laws.{
  registration_row, Announces, start_agent_total, stop_agent_total, announce_overtaken,
}
use factoryfleet.Scheduler.Lifecycle.{fresh_thread, new_control, is_running}
use factoryfleet.Store.Enqueue.{enqueue-IsValid}
use factoryfleet.Store.Outbox.{enqueue, enforce_cap, insert_outbox, new_row}
use factoryfleet.Store.Queue.{queue, IsValid}
use factoryfleet.Store.Table.{order_by_id, select_pending, delete_ids}
use factoryfleet.Store.Types.{Store, new_store}
use factoryfleet.System.{Run}
use factoryfleet.System.Ghost.{Ghost, at}
use factoryfleet.System.Refine.{drain_once-Run}
use factoryfleet.Tests.Data.{
  noon, IsDatetime-noon, stopped_clock, press, payload, budget_broker, IsConfirming-budget_broker,
}
use factoryfleet.Transport.Broker.{BrokerClient, Message, IsConfirming}
use factoryfleet.Transport.Publisher.{Publisher, Settings, default_settings, drain_once}
use factoryfleet.Transport.Publisher.Drain.{Drains, drain_once_total}
use factoryfleet.Transport.Publisher.Empties.{Empties, drain_times, drain_times-Empties}
use factoryfleet.Transport.Publisher.Progress.{IsUp}
use mathlib.Core.List.{sublist-append_left}
use mathlib.Core.List.Sublist

abbrev pub left_over : Store
left_over = (enqueue noon "t" (payload 2) (enqueue noon "t" (payload 1) (new_store 10)).1).1

pub IsValid-left_over : IsValid left_over
IsValid-left_over =
    enqueue-IsValid noon "t" (payload 2) (enqueue noon "t" (payload 1) (new_store 10)).1
      IsDatetime-noon
      (enqueue-IsValid noon "t" (payload 1) (new_store 10) IsDatetime-noon (omega arith))

abbrev config : Config
config = record {
  identity = press;
  sensor_ids = "vibration" ∷ [];
  version = "0.2.0";
  settings = record { batch_size = 2; retain_published = 0 };
}

abbrev publisher : Publisher budget_broker
publisher = record {
  store = left_over;
  client = record { budget = 1; log = [] };
  published = 0;
  reads = 0;
}

abbrev idle : Agent budget_broker
idle = record {
  publisher = publisher;
  sampler = new_control;
  publisher_loop = new_control;
  running = false;
  closed = false;
}

abbrev live : Agent budget_broker
live = record idle { sampler = fresh_thread; publisher_loop = fresh_thread; running = true }

start_agent_total_example :
    (n : ℕ) × (t : Agent budget_broker) × (start_agent budget_broker stopped_clock config false
        false idle
      ≡ some t)
    × (t.running ≡ true)
    × (t.sampler ≡ fresh_thread)
    × (t.publisher_loop ≡ fresh_thread)
    × (t.closed ≡ false)
    × Announces budget_broker stopped_clock config publisher n t.publisher
unfolding is_running
start_agent_total_example =
    start_agent_total budget_broker IsConfirming-budget_broker stopped_clock (λ n. IsDatetime-noon)
      config false false idle refl refl refl IsValid-left_over

stop_agent_total_example :
    let t = stop_agent budget_broker stopped_clock config false true publisher live in
    (t.running ≡ false)
    × (t.closed ≡ (
        false
        || (not (is_running false live.sampler) && not (is_running true live.publisher_loop))))
    × ((n : ℕ) × (p : Publisher budget_broker) × (t.publisher ≡ record p { client = p.client })
        × Drains budget_broker stopped_clock 2 publisher n p)
    × ((x y : Bool) (l : Publisher budget_broker)
        → stop_agent budget_broker stopped_clock config x y l t ≡ t)
stop_agent_total_example =
    stop_agent_total budget_broker IsConfirming-budget_broker stopped_clock (λ n. IsDatetime-noon)
      config false true publisher live refl IsValid-left_over

-- A broker that takes everything.
abbrev pub open_broker : BrokerClient
open_broker = record {
  State = List Message;
  start = λ log. log;
  stop = λ log. log;
  is_connected = λ log. (true, log);
  publish = λ topic payload log. (true, log ++ ((topic, payload) ∷ []));
  received = λ log. log;
}

pub IsConfirming-open_broker : IsConfirming open_broker
IsConfirming-open_broker = record {
  is_connected-keeps = λ log. Sublist.refl _;
  publish-keeps = λ topic payload log. sublist-append_left log _;
  publish-confirms = λ topic payload log h. Sublist.refl _;
}

pub IsUp-open_broker : IsUp open_broker
IsUp-open_broker = record { connected = λ log. refl; accepts = λ topic payload log. refl }

abbrev pub open_publisher : Publisher open_broker
open_publisher = record { store = left_over; client = []; published = 0; reads = 0 }

-- Two drains of one entry each.
abbrev pub one_by_one : Settings
one_by_one = record default_settings { batch_size = 1 }

drain_times-Empties_example :
    (q : Publisher open_broker) × (messages : List Message) × (drain_times open_broker stopped_clock
        one_by_one 2 open_publisher
      ≡ some (length (queue left_over), q))
    × Empties open_broker open_publisher q messages
unfolding enqueue enforce_cap insert_outbox new_row order_by_id select_pending delete_ids
drain_times-Empties_example =
    drain_times-Empties open_broker IsUp-open_broker IsConfirming-open_broker stopped_clock
      (λ n. IsDatetime-noon) one_by_one 2 open_publisher IsValid-left_over (omega arith)

pub length-left_over : length (queue left_over) ≡ 2
unfolding enqueue enforce_cap insert_outbox new_row order_by_id select_pending delete_ids
length-left_over = refl

pub capacity-left_over : left_over.max_outbox_entries ≡ 10
unfolding enqueue enforce_cap insert_outbox new_row order_by_id select_pending delete_ids
capacity-left_over = refl

announce_overtaken_example :
    (q : Publisher open_broker) × (announce open_broker stopped_clock config open_publisher
      ≡ some (true, q))
    × (queue q.store
        ≡ drop 2 (queue left_over)
          ++ (registration_row open_broker stopped_clock config open_publisher ∷ []))
announce_overtaken_example =
    announce_overtaken open_broker IsUp-open_broker IsConfirming-open_broker stopped_clock
      (λ n. IsDatetime-noon) config open_publisher IsValid-left_over (omega arith)
      (omega (arith, length-left_over)) (omega (arith, length-left_over, capacity-left_over))

abbrev nothing_yet : Ghost
nothing_yet = record { confirmed = []; delivered = []; dropped = []; counted_before = 0 }

drained :
    (n : ℕ) × (q : Publisher budget_broker) × (drain_once budget_broker stopped_clock
        default_settings publisher
      ≡ some (n, q))
    × Drains budget_broker stopped_clock 50 publisher n q
drained =
    drain_once_total budget_broker IsConfirming-budget_broker stopped_clock (λ n. IsDatetime-noon)
      default_settings publisher IsValid-left_over

drain_once-Run_example :
    (h : Ghost) × Run budget_broker (at publisher [] nothing_yet) (at drained.1 [] h)
drain_once-Run_example =
    drain_once-Run budget_broker IsConfirming-budget_broker stopped_clock (λ n. IsDatetime-noon)
      default_settings publisher drained.1 drained.0 nothing_yet drained.2
