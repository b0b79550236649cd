-- ===== src/System/OrderlyStore.antt =====
-- The steps on the store keep the messages in the order of their ids.
use mathlib.Core.Path.{subst}
use factoryfleet.Base.{
  some-injective, ℕ, ◌+◌, ◌-◌, ◌≡◌, sym, ap, ◌∙◌, false, none, some, [], ◌∷◌, ◌++◌, arith, length,
  contains, All-append, inl, inr, String,
}
use factoryfleet.Json.{Fields}
use factoryfleet.Sensors.Reading.{Reading}
use factoryfleet.Store.AssetState.{record_reading}
use factoryfleet.Store.Confirm.{mark_published-Confirms}
use factoryfleet.Store.Enqueue.{enqueue-Enqueues}
use factoryfleet.Store.Outbox.{new_row, enqueue, mark_published, prune_published}
use factoryfleet.Store.Prune.{prune_published_total}
use factoryfleet.Store.Queue.{queue, IsValid}
use factoryfleet.Store.Table.{OutboxRow}
use factoryfleet.Store.Types.{Store, reopen}
use factoryfleet.System.Order.{entry_ids, All-mono, All-drop, All-delete_ids}
use factoryfleet.System.{zeros, System, overflow}
use factoryfleet.Timeutil.{Datetime}
use factoryfleet.Transport.Broker.{BrokerClient}
use factoryfleet.System.Orderly.{Waits, IsOrderly}

module _ {C : BrokerClient} (s : System C) (h : IsOrderly s) (v : IsValid s.store) where
  pub queue_entry-IsOrderly :
      (now : Datetime) (topic : String) (payload : Fields)
      → IsOrderly (record s {
        store = (enqueue now topic payload s.store).1;
        dropped = s.dropped ++ overflow now topic payload s.store;
      })
  unfolding new_row
  queue_entry-IsOrderly now topic payload =
      let (_, e) = enqueue-Enqueues now topic payload s.store v.ascends in
      record {
        in_order = h.in_order;
        confirmed_given = omega (arith, h.confirmed_given, e.sequence_grows);
        flight_climbs = h.flight_climbs;
        flight_given =
            All-mono (entry_ids s.in_flight) (λ i k. omega (arith, k, e.sequence_grows))
              h.flight_given;
        waiting = rw e.bounded_queue (
            All-drop _ (length (queue s.store) + 1 - s.store.max_outbox_entries) _ (
              All-append _ (queue s.store) (new_row now topic payload s.store ∷ []) h.waiting (
                (
                  omega (arith, h.confirmed_given),
                  inl (
                      inr (
                        All-mono (entry_ids s.in_flight) (λ i k. omega (arith, k)) h.flight_given)),
                ),
                tt,
              )));
      }

  -- A row that is still there after `i` is marked is not `i`.
  still-Waits :
      (i : ℕ)
      → s.unmarked ≡ some i
      → (r : OutboxRow)
      → Waits s.confirmed (entry_ids s.in_flight) s.unmarked r × (contains r.id (i ∷ []) ≡ false)
      → Waits s.confirmed (entry_ids s.in_flight) none r
  still-Waits i e r ((low, inl placed), other) = (low, inl placed)
  still-Waits i e r ((low, inr marked), other) =
      let same : i ≡ r.id = some-injective _ _ (sym e ∙ marked) in
      absurd (ground (arith, other, same))

  pub mark-IsOrderly :
      (now : Datetime) (i : ℕ)
      → s.unmarked ≡ some i
      → IsOrderly (record s { store = (mark_published now (i ∷ []) s.store).1; unmarked = none })
  mark-IsOrderly now i e =
      let m = mark_published-Confirms now (i ∷ []) s.store in
      record {
        in_order = h.in_order;
        confirmed_given = rw m.sequence_kept h.confirmed_given;
        flight_climbs = h.flight_climbs;
        flight_given = rw m.sequence_kept h.flight_given;
        waiting =
            rw m.queue_left
              (All-mono _ (still-Waits i e) (All-delete_ids _ (i ∷ []) (queue s.store) h.waiting));
      }

  pub record_state-IsOrderly :
      (r : Reading) → IsOrderly (record s { store = record_reading r s.store })
  unfolding record_reading
  record_state-IsOrderly r = record {
    in_order = h.in_order;
    confirmed_given = h.confirmed_given;
    flight_climbs = h.flight_climbs;
    flight_given = h.flight_given;
    waiting = h.waiting;
  }

  pub miscount-IsOrderly :
      (n : ℕ)
      → IsOrderly (record s {
        store = record s.store { dropped_entries = s.store.dropped_entries + n };
        dropped = s.dropped ++ zeros n;
      })
  miscount-IsOrderly n = record {
    in_order = h.in_order;
    confirmed_given = h.confirmed_given;
    flight_climbs = h.flight_climbs;
    flight_given = h.flight_given;
    waiting = h.waiting;
  }

  pub restart-IsOrderly :
      (client : C.State)
      → IsOrderly (record s {
        store = reopen s.store.max_outbox_entries s.store.database;
        client = client;
        in_flight = [];
        unmarked = none;
        counted_before = s.counted_before + s.store.dropped_entries;
      })
  unfolding reopen
  restart-IsOrderly client = record {
    in_order = h.in_order;
    confirmed_given = h.confirmed_given;
    flight_climbs = tt;
    flight_given = tt;
    waiting = All-mono (queue s.store) (λ r w. (w.0, inl (inr tt))) h.waiting;
  }

  pub prune-IsOrderly :
      (now : Datetime) (retain count : ℕ) (store : Store)
      → prune_published now retain s.store ≡ some (count, store)
      → IsOrderly (record s { store = store })
  prune-IsOrderly now retain count store done =
      let (n, t, fine, fit, valid) = prune_published_total now retain s.store v in
      let same : t ≡ store = ap (λ x. x.1) (some-injective _ _ (sym fine ∙ done)) in
      subst (λ u. IsOrderly (record s { store = u })) same
        (record {
          in_order = h.in_order;
          confirmed_given = rw fit.sequence_kept h.confirmed_given;
          flight_climbs = h.flight_climbs;
          flight_given = rw fit.sequence_kept h.flight_given;
          waiting = rw fit.queue_kept h.waiting;
        })
