-- ===== src/System/Safe.antt =====
-- The account of a system's ids and messages, and that queueing an entry gives it.
use mathlib.Core.List.{Sublist}
use factoryfleet.Base.{
  All, zero, suc, Bool, ℕ, ◌+◌, ◌≤◌, ◌≡◌, true, ◌||◌, some, List, [], ◌∷◌, ◌++◌, arith, length,
  length-append, contains, String,
}
use factoryfleet.Json.{Fields}
use factoryfleet.Store.Enqueue.{enqueue-Enqueues, enqueue-restores}
use factoryfleet.Store.Outbox.{enqueue}
use factoryfleet.Store.Queue.{queue, IsStamped, IsValid}
use factoryfleet.Store.Order.{Ascends}
use factoryfleet.Store.Table.{ids_of}
use factoryfleet.System.Account.{
  split_queue, over, grown, overflow_lem, length-overflow, grown_accounted,
}
use factoryfleet.System.{System, overflow, zeros}
use factoryfleet.Timeutil.{Datetime, IsDatetime}
use factoryfleet.Transport.Broker.{BrokerClient}

-- Every id that was ever given is waiting in the outbox, was confirmed by the broker, or was dropped
-- by the cap; every drop was counted; what is about to be marked was confirmed; and the broker has
-- received every message that was confirmed, in that order.
pub record IsSafe {C : BrokerClient} (s : System C) : Type 0 where
  pub valid : IsValid s.store
  pub marks_confirmed : (i : ℕ) → s.unmarked ≡ some i → contains i s.confirmed ≡ true
  pub accounted :
      (i : ℕ)
      → 1 ≤ i
      → i ≤ s.store.sequence
      → (contains i (ids_of (queue s.store)) || (contains i s.confirmed || contains i s.dropped))
        ≡ true
  pub drops_counted : length s.dropped ≡ s.counted_before + s.store.dropped_entries
  pub received : Sublist s.delivered (C.received s.client)

pub length-zeros : (n : ℕ) → length (zeros n) ≡ n
length-zeros zero = omega arith
length-zeros (suc n) = omega (arith, length-zeros n)

pub contains-more :
    (i : ℕ) (xs ys : List ℕ) (a b : Bool)
    → (a || (b || contains i xs)) ≡ true
    → (a || (b || contains i (xs ++ ys))) ≡ true
contains-more i [] ys a b h = ground (arith, h)
contains-more i (x ∷ xs) ys a b h = ground (arith, h, contains-more i xs ys a b)

-- Queueing an entry also mends a queue that is past its cap.
pub queue_entry-restores :
    {C : BrokerClient} (s : System C)
    → Ascends 0 s.store.outbox s.store.sequence
    → All IsStamped s.store.outbox
    → ((i : ℕ) → s.unmarked ≡ some i → contains i s.confirmed ≡ true)
    → ((i : ℕ)
        → 1 ≤ i
        → i ≤ s.store.sequence
        → (contains i (ids_of (queue s.store)) || (contains i s.confirmed || contains i s.dropped))
          ≡ true)
    → length s.dropped ≡ s.counted_before + s.store.dropped_entries
    → Sublist s.delivered (C.received s.client)
    → (now : Datetime) (topic : String) (payload : Fields) → IsDatetime now
    → IsSafe (record s {
      store = (enqueue now topic payload s.store).1;
      dropped = s.dropped ++ overflow now topic payload s.store;
    })
queue_entry-restores s ascends stamped marks accounted counted received now topic payload v =
    let (_, e) = enqueue-Enqueues now topic payload s.store ascends in
    record {
      valid = enqueue-restores now topic payload s.store v ascends stamped;
      marks_confirmed = marks;
      accounted = λ i low high.
          rw (e.bounded_queue, overflow_lem now topic payload s.store)
            (split_queue i (over now topic payload s.store) (grown now topic payload s.store)
              (contains i s.confirmed) s.dropped
              (grown_accounted now topic payload s.store i (contains i s.confirmed) s.dropped
                (λ small. accounted i low small) (omega (arith, high, e.sequence_grows))));
      drops_counted = omega (
        arith,
        length-append s.dropped (overflow now topic payload s.store),
        length-overflow now topic payload s.store,
        counted,
        e.dropped_counted,
      );
      received = received;
    }
