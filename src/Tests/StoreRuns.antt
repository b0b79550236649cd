-- ===== src/Tests/StoreRuns.antt =====
-- Runs of the store, and the theorems on it at a store with a cap of two entries.
use factoryfleet.Base.{false, ◌≡◌, ◌≤◌, refl, ℕ, ◌+◌, List, [], ◌∷◌, some, arith, take, map, String}
use factoryfleet.Store.Batches.{mark_published-append}
use factoryfleet.Store.AssetState.{record_reading, record_all, latest, latest_for}
use factoryfleet.Store.Confirm.{
  Confirms, mark_published-Confirms, mark_published-IsValid, AreEntriesOf,
}
use factoryfleet.Store.Enqueue.{Enqueues, enqueue-Enqueues, enqueue-IsValid}
use factoryfleet.Store.History.{Operation, History, here, next, History-reads}
use factoryfleet.Store.Latest.{stored, latest_for-record_all}
use factoryfleet.Store.Outbox.{
  enqueue, enforce_cap, insert_outbox, new_row, pending, mark_published, prune_published,
}
use factoryfleet.Store.Prune.{Prunes, prune_published_total}
use factoryfleet.Store.Queue.{queue, IsValid}
use factoryfleet.Store.Snapshot.{Ascending, IsSnapshot, find_stored, latest_total}
use factoryfleet.Store.Table.{ids_of, order_by_id, select_pending, delete_ids}
use factoryfleet.Store.Types.{
  Store, OutboxEntry, StoredState, Outcome, raised, new_store, reopen, settle, transaction,
}
use factoryfleet.Tests.Data.{noon, IsDatetime-noon, payload, vibration, seized}

abbrev small : Store
small = new_store 2

IsValid-small : IsValid small
IsValid-small = omega arith

abbrev after_one : Store
after_one = (enqueue noon "t" (payload 1) small).1

abbrev after_two : Store
after_two = (enqueue noon "t" (payload 2) after_one).1

abbrev after_three : Store
after_three = (enqueue noon "t" (payload 3) after_two).1

IsValid-two : IsValid after_two
IsValid-two =
    enqueue-IsValid noon "t" (payload 2) after_one IsDatetime-noon
      (enqueue-IsValid noon "t" (payload 1) small IsDatetime-noon IsValid-small)

-- The third entry pushes the first out, and the drop is counted.
oldest_dropped : (ids_of (queue after_three) ≡ 2 ∷ 3 ∷ []) × (after_three.dropped_entries ≡ 1)
unfolding enqueue enforce_cap insert_outbox new_row order_by_id select_pending delete_ids
oldest_dropped = (refl, refl)

enqueue-Enqueues_example :
    ((enqueue noon "t" (payload 3) after_two).0 ≡ after_two.sequence + 1)
    × Enqueues noon "t" (payload 3) after_two after_three
enqueue-Enqueues_example = enqueue-Enqueues noon "t" (payload 3) after_two IsValid-two.ascends

mark_published-Confirms_example :
    Confirms
      (1 ∷ [])
      after_two
      (mark_published noon (1 ∷ []) after_two).0
      (mark_published noon (1 ∷ []) after_two).1
mark_published-Confirms_example = mark_published-Confirms noon (1 ∷ []) after_two

abbrev one_sent : Store
one_sent = (mark_published noon (1 ∷ []) after_two).1

prune_published_total_example :
    (count : ℕ) × (t : Store) × (prune_published noon 0 one_sent ≡ some (count, t))
    × Prunes noon 0 one_sent count t
    × IsValid t
prune_published_total_example =
    prune_published_total noon 0 one_sent
      (mark_published-IsValid noon (1 ∷ []) after_two IsDatetime-noon IsValid-two)

latest_for-record_all_example :
    latest_for "vibration" (record_all (seized ∷ vibration ∷ seized ∷ []) small)
    ≡ some (some (stored vibration))
latest_for-record_all_example =
    latest_for-record_all (seized ∷ []) vibration (seized ∷ []) small (IsDatetime-noon, tt)
      IsDatetime-noon ((IsDatetime-noon, refl), tt)

-- The second call names an id of the first.
mark_published-append_example : mark_published noon (1 ∷ 2 ∷ 1 ∷ []) after_two ≡ (
    let (n, t) = mark_published noon (1 ∷ []) after_two in
    let (m, u) = mark_published noon (2 ∷ 1 ∷ []) t in (n + m, u))
mark_published-append_example = mark_published-append noon (1 ∷ []) (2 ∷ 1 ∷ []) after_two

latest_total_example :
    (states : List StoredState) × (latest (record_all (seized ∷ vibration ∷ []) small)
      ≡ some states)
    × Ascending (map (λ t. t.sensor_id) states)
    × ((k : String)
        → latest_for k (record_all (seized ∷ vibration ∷ []) small) ≡ some (find_stored k states))
    × IsSnapshot (record_all (seized ∷ vibration ∷ []) small)
latest_total_example =
    latest_total (seized ∷ vibration ∷ []) small (IsDatetime-noon, (IsDatetime-noon, tt))
      (record { distinct = tt; written = tt })

-- Two entries and a reading; a transaction that writes a third entry and raises; and a restart.
abbrev recorded : Store
recorded = record_reading vibration one_sent

abbrev raising : Store → Outcome (Unit {0}) × Store
raising s = (raised "OperationalError", (enqueue noon "t" (payload 3) s).1)

abbrev rolled_back : Store
rolled_back = (transaction false false raising recorded).1

abbrev restarted : Store
restarted = reopen 3 rolled_back.database

cap_kept : (raising recorded).1.max_outbox_entries ≡ recorded.max_outbox_entries
unfolding enqueue enforce_cap insert_outbox new_row mark_published record_reading
cap_kept = refl

cap_grows : rolled_back.max_outbox_entries ≤ 3
unfolding transaction settle enqueue enforce_cap insert_outbox new_row mark_published record_reading
cap_grows = omega arith

History-restarted : History small restarted
History-restarted =
    next
      (next
        (next
          (next
            (next (next here (Operation.enqueues noon "t" (payload 1) IsDatetime-noon refl))
              (Operation.enqueues noon "t" (payload 2) IsDatetime-noon refl))
            (Operation.marks noon (1 ∷ []) IsDatetime-noon refl))
          (Operation.records vibration IsDatetime-noon refl))
        (Operation.rolls_back raising "OperationalError" (raising recorded).1 refl cap_kept refl))
      (Operation.reopens 3 cap_grows refl)

History-reads_example :
    IsValid restarted
    × ((es : List OutboxEntry) × (pending 5 restarted ≡ some es)
        × AreEntriesOf es (take 5 (queue restarted)))
    × ((states : List StoredState) × (latest restarted ≡ some states)
        × Ascending (map (λ q. q.sensor_id) states)
        × ((k : String) → latest_for k restarted ≡ some (find_stored k states)))
    × ((count : ℕ) × (u : Store) × (prune_published noon 0 restarted ≡ some (count, u)))
History-reads_example = History-reads 2 5 noon 0 History-restarted
