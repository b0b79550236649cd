-- ===== src/System/Cut.antt =====
-- A power loss between the statements that queue the registration: the INSERT of `enqueue` and the
-- DELETE of `_enforce_cap` in agent/factoryfleet_agent/store.py, which no transaction holds together.
use factoryfleet.Base.{
  ℕ, ◌+◌, ◌≤◌, ◌≡◌, true, ◌||◌, arith, contains, length, [], none, String, ◌++◌,
}
use factoryfleet.Json.{Fields}
use factoryfleet.Store.Enqueue.{
  inserted, insert_outbox-Ascends, insert_outbox-IsStamped, length-insert_outbox,
  queue-insert_outbox, enqueue-Enqueues,
}
use factoryfleet.Store.Outbox.{insert_outbox, enqueue}
use factoryfleet.Store.Queue.{queue, IsValid}
use factoryfleet.Store.Table.{ids_of}
use factoryfleet.Store.Types.{Store, reopen}
use factoryfleet.System.Account.{grown_accounted}
use factoryfleet.System.Safe.{IsSafe, queue_entry-restores}
use factoryfleet.System.SafeSteps.{queue_entry-IsSafe}
use factoryfleet.System.{System, overflow}
use factoryfleet.Timeutil.{Datetime, IsDatetime}
use factoryfleet.Transport.Broker.{BrokerClient}
use mathlib.Core.List.{Sublist}
use mathlib.Core.List.Sublist

module _ {C : BrokerClient} (s : System C) (now : Datetime) (topic : String)
    (payload : Fields) where
  -- The store that the next process opens, where the power failed after the INSERT.
  abbrev pub after_insert : Store
  after_insert = reopen s.store.max_outbox_entries (inserted now topic payload s.store).database

  -- And where it failed after the DELETE.
  abbrev pub after_delete : Store
  after_delete = reopen s.store.max_outbox_entries (enqueue now topic payload s.store).1.database

  -- The next process on the first of these, with its client.
  abbrev pub resumed : C.State → System C
  resumed client = record s {
    store = after_insert;
    client = client;
    in_flight = [];
    unmarked = none;
    counted_before = s.counted_before + s.store.dropped_entries;
  }

  -- After the INSERT the queue has at most one entry too many and every id is accounted for; and once
  -- the next process has queued its registration, the account is as after any run. After the DELETE
  -- the store is valid and every id is accounted for, but the drops are in no counter.
  pub record Survives : Type 0 where
    pub one_over : length (queue after_insert) ≤ s.store.max_outbox_entries + 1
    pub insert_accounted :
        (i : ℕ)
        → 1 ≤ i
        → i ≤ s.store.sequence + 1
        → (contains i (ids_of (queue after_insert))
            || (contains i s.confirmed || contains i s.dropped))
          ≡ true
    pub restored :
        (client : C.State) (later : Datetime) (t : String) (p : Fields)
        → Sublist (C.received s.client) (C.received client)
        → IsDatetime later
        → IsSafe (record (resumed client) {
          store = (enqueue later t p after_insert).1;
          dropped = s.dropped ++ overflow later t p after_insert;
        })
    pub delete_valid : IsValid after_delete
    pub delete_accounted :
        (i : ℕ)
        → 1 ≤ i
        → i ≤ s.store.sequence + 1
        → (contains i (ids_of (queue after_delete))
            || (contains i s.confirmed
                || contains i (s.dropped ++ overflow now topic payload s.store)))
          ≡ true

  pub IsSafe-Survives : IsSafe s → IsDatetime now → Survives
  unfolding reopen insert_outbox
  IsSafe-Survives h v =
      let queued = queue_entry-IsSafe s h now topic payload v in
      let (_, e) = enqueue-Enqueues now topic payload s.store h.valid.ascends in
      let accounted : (i : ℕ)
          → 1 ≤ i
          → i ≤ s.store.sequence + 1
          → (contains i (ids_of (queue after_insert))
              || (contains i s.confirmed || contains i s.dropped))
            ≡ true =
        λ i low high. rw (queue-insert_outbox now topic payload s.store) (
          grown_accounted now topic payload s.store i (contains i s.confirmed) s.dropped
            (λ small. h.accounted i low small) high) in
      record {
        one_over = omega (arith, h.valid.bounded, length-insert_outbox now topic payload s.store);
        insert_accounted = accounted;
        restored = λ client later t p grows w.
            queue_entry-restores (resumed client)
              (insert_outbox-Ascends now topic payload s.store h.valid.ascends)
              (insert_outbox-IsStamped now topic payload s.store v h.valid.stamped)
              (λ j impossible. cc) accounted (omega (arith, h.drops_counted))
              (Sublist.trans h.received grows) later t p w;
        delete_valid = record {
          ascends = queued.valid.ascends;
          stamped = queued.valid.stamped;
          bounded = omega (arith, queued.valid.bounded, e.cap_kept);
        };
        delete_accounted =
            λ i low high. queued.accounted i low (omega (arith, high, e.sequence_grows));
      }
