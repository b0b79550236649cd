-- ===== src/Tests/SystemRuns.antt =====
-- A run of the two threads: an entry is queued, fetched, confirmed by the broker, and the
-- power fails before it is marked.
use factoryfleet.Base.{String, ◌≡◌, ◌≤◌, All, refl, [], ◌∷◌, none, some}
use factoryfleet.Store.Outbox.{
  enqueue, enforce_cap, insert_outbox, new_row, pending, to_entry, to_entries,
}
use factoryfleet.Store.Queue.{queue}
use factoryfleet.Store.Table.{order_by_id, select_pending, delete_ids}
use factoryfleet.Store.Types.{OutboxEntry, reopen}
use factoryfleet.System.{System, initial, overflow, message, Step, Run, here, next}
use factoryfleet.System.InOrder.{Run-IsInOrder}
use factoryfleet.System.Order.{newest, IsInOrder}
use factoryfleet.System.Safety.{IsSafe, Run-IsSafe}
use factoryfleet.Tests.Data.{
  noon, IsDatetime-noon, payload, Budget, budget_broker, IsConfirming-budget_broker,
}
use factoryfleet.System.Cut.{Survives}
use factoryfleet.Json.{Fields}
use factoryfleet.Timeutil.{Datetime, IsDatetime, TzInfo}
use factoryfleet.Timeutil.RoundTrip.{parse_iso-iso}
use factoryfleet.Wire.{stamp_sent}
use mathlib.Core.List.Sublist

abbrev client : Budget
client = record { budget = 5; log = [] }

abbrev empty : System budget_broker
empty = initial 10 client

abbrev queued : System budget_broker
queued = record empty {
  store = (enqueue noon "t" (payload 1) empty.store).1;
  dropped = overflow noon "t" (payload 1) empty.store;
}

abbrev entry : OutboxEntry
entry = record {
  id = 1;
  topic = "t";
  payload = payload 1;
  created_at = record noon { microsecond = 123000; tzinfo = TzInfo.utc };
}

pending-queued : pending 5 queued.store ≡ some (entry ∷ [])
unfolding pending to_entries to_entry enqueue enforce_cap insert_outbox new_row order_by_id
    select_pending delete_ids
pending-queued = rw (parse_iso-iso noon IsDatetime-noon) refl

abbrev fetched : System budget_broker
fetched = record queued { in_flight = entry ∷ [] }

abbrev sent : System budget_broker
sent = record fetched {
  client = (budget_broker.publish "t" (stamp_sent (payload 1) noon) client).1;
  in_flight = [];
  unmarked = some 1;
  confirmed = 1 ∷ [];
  delivered = message entry noon ∷ [];
}

-- The power fails here: the entry is confirmed, and the store does not know.
abbrev restarted : System budget_broker
restarted = record sent {
  store = reopen sent.store.max_outbox_entries sent.store.database;
  in_flight = [];
  unmarked = none;
  counted_before = 0;
}

Run-restarted : Run budget_broker empty restarted
unfolding enqueue enforce_cap insert_outbox new_row order_by_id select_pending delete_ids
Run-restarted =
    next
      (next
        (next (next here (Step.queue_entry noon "t" (payload 1) IsDatetime-noon refl))
          (Step.fetch 5 (entry ∷ []) refl pending-queued refl))
        (Step.confirm noon entry [] refl refl refl refl))
      (Step.restart sent.client (Sublist.refl _) refl)

Run-IsSafe_example :
    IsSafe restarted
    × ((now : Datetime) (topic : String) (payload : Fields)
        → IsDatetime now
        → Survives restarted now topic payload)
Run-IsSafe_example = Run-IsSafe 10 client restarted IsConfirming-budget_broker Run-restarted

Run-IsInOrder_example :
    IsInOrder restarted.confirmed
    × All (λ r. newest restarted.confirmed ≤ r.id) (queue restarted.store)
Run-IsInOrder_example = Run-IsInOrder 10 client restarted IsConfirming-budget_broker Run-restarted
