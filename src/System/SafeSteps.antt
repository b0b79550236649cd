-- ===== src/System/SafeSteps.antt =====
-- Each single step keeps the account.
use factoryfleet.System.Safe.{IsSafe, length-zeros, contains-more, queue_entry-restores}
use mathlib.Core.List.{Sublist}
use mathlib.Core.Path.{subst}
use mathlib.Core.List.Sublist
use factoryfleet.Base.{
  some-injective, ℕ, ◌+◌, ◌≡◌, sym, ap, ◌∙◌, true, none, some, List, [], ◌∷◌, ◌++◌, arith,
  length-append, contains, String,
}
use factoryfleet.Json.{Fields}
use factoryfleet.Sensors.Reading.{Reading}
use factoryfleet.Store.AssetState.{record_reading}
use factoryfleet.Store.Confirm.{mark_published-Confirms, mark_published-IsValid}
use factoryfleet.Store.Outbox.{enqueue, mark_published, prune_published}
use factoryfleet.Store.Prune.{prune_published_total}
use factoryfleet.Store.Queue.{queue}
use factoryfleet.Store.Table.{ids_of}
use factoryfleet.Store.Types.{Store, OutboxEntry, reopen}
use factoryfleet.System.Account.{still_accounted}
use factoryfleet.System.{System, overflow, zeros, message}
use factoryfleet.Timeutil.{Datetime, IsDatetime}
use factoryfleet.Transport.Broker.{BrokerClient, IsConfirming}
use factoryfleet.Wire.{stamp_sent}

module _ {C : BrokerClient} (s : System C) (h : IsSafe s) where
  pub miscount-IsSafe :
      (n : ℕ)
      → IsSafe (record s {
        store = record s.store { dropped_entries = s.store.dropped_entries + n };
        dropped = s.dropped ++ zeros n;
      })
  miscount-IsSafe n = record {
    valid = record {
      ascends = h.valid.ascends;
      stamped = h.valid.stamped;
      bounded = h.valid.bounded;
    };
    marks_confirmed = h.marks_confirmed;
    accounted = λ i low high.
        contains-more i s.dropped (zeros n) (contains i (ids_of (queue s.store)))
          (contains i s.confirmed) (h.accounted i low high);
    drops_counted =
        omega (arith, length-append s.dropped (zeros n), length-zeros n, h.drops_counted);
    received = h.received;
  }

  pub queue_entry-IsSafe :
      (now : Datetime) (topic : String) (payload : Fields)
      → IsDatetime now
      → IsSafe (record s {
        store = (enqueue now topic payload s.store).1;
        dropped = s.dropped ++ overflow now topic payload s.store;
      })
  queue_entry-IsSafe now topic payload v =
      queue_entry-restores s h.valid.ascends h.valid.stamped h.marks_confirmed h.accounted
        h.drops_counted h.received now topic payload v

  pub mark-IsSafe :
      (now : Datetime) (i : ℕ)
      → IsDatetime now
      → s.unmarked ≡ some i
      → IsSafe (record s { store = (mark_published now (i ∷ []) s.store).1; unmarked = none })
  mark-IsSafe now i v e =
      let m = mark_published-Confirms now (i ∷ []) s.store in
      record {
        valid = mark_published-IsValid now (i ∷ []) s.store v h.valid;
        marks_confirmed = λ j impossible. cc;
        accounted = λ j low high. rw m.queue_left (
            still_accounted j i (queue s.store) s.confirmed s.dropped (h.marks_confirmed i e)
              (h.accounted j low (omega (arith, high, m.sequence_kept))));
        drops_counted = h.drops_counted ∙ ap (λ n. s.counted_before + n) (sym m.dropped_kept);
        received = h.received;
      }

  pub prune-IsSafe :
      (now : Datetime) (retain count : ℕ) (store : Store)
      → prune_published now retain s.store ≡ some (count, store)
      → IsSafe (record s { store = store })
  prune-IsSafe now retain count store done =
      let (n, t, fine, fit, valid) = prune_published_total now retain s.store h.valid in
      let same : t ≡ store = ap (λ x. x.1) (some-injective _ _ (sym fine ∙ done)) in
      subst (λ u. IsSafe (record s { store = u })) same
        (record {
          valid = valid;
          marks_confirmed = h.marks_confirmed;
          accounted = λ i low high.
              rw fit.queue_kept (h.accounted i low (omega (arith, high, fit.sequence_kept)));
          drops_counted = h.drops_counted ∙ ap (λ n. s.counted_before + n) (sym fit.dropped_kept);
          received = h.received;
        })

  pub record_state-IsSafe : (r : Reading) → IsSafe (record s { store = record_reading r s.store })
  unfolding record_reading
  record_state-IsSafe r = record {
    valid = record {
      ascends = h.valid.ascends;
      stamped = h.valid.stamped;
      bounded = h.valid.bounded;
    };
    marks_confirmed = h.marks_confirmed;
    accounted = h.accounted;
    drops_counted = h.drops_counted;
    received = h.received;
  }

  pub restart-IsSafe :
      (client : C.State)
      → Sublist (C.received s.client) (C.received client)
      → IsSafe (record s {
        store = reopen s.store.max_outbox_entries s.store.database;
        client = client;
        in_flight = [];
        unmarked = none;
        counted_before = s.counted_before + s.store.dropped_entries;
      })
  unfolding reopen
  restart-IsSafe client grows = record {
    valid = record {
      ascends = h.valid.ascends;
      stamped = h.valid.stamped;
      bounded = h.valid.bounded;
    };
    marks_confirmed = λ j impossible. cc;
    accounted = h.accounted;
    drops_counted = omega (arith, h.drops_counted);
    received = Sublist.trans h.received grows;
  }

  pub confirm-IsSafe :
      IsConfirming C
      → (now : Datetime) (entry : OutboxEntry) (rest : List OutboxEntry)
      → (C.publish entry.topic (stamp_sent entry.payload now) s.client).0 ≡ true
      → IsSafe (record s {
        client = (C.publish entry.topic (stamp_sent entry.payload now) s.client).1;
        in_flight = rest;
        unmarked = some entry.id;
        confirmed = entry.id ∷ s.confirmed;
        delivered = s.delivered ++ (message entry now ∷ []);
      })
  confirm-IsSafe L now entry rest ok = record {
    valid = h.valid;
    marks_confirmed = λ i e. ground arith;
    accounted = λ i low high. ground (arith, h.accounted i low high);
    drops_counted = h.drops_counted;
    received =
        Sublist.trans (Sublist.append h.received (Sublist.refl _))
          (L.publish-confirms entry.topic (stamp_sent entry.payload now) s.client ok);
  }

  -- A step that leaves the store alone and only moves the client on.
  pub client-IsSafe :
      (client : C.State) (entries : List OutboxEntry)
      → Sublist (C.received s.client) (C.received client)
      → IsSafe (record s { client = client; in_flight = entries })
  client-IsSafe client entries grows = record {
    valid = h.valid;
    marks_confirmed = h.marks_confirmed;
    accounted = h.accounted;
    drops_counted = h.drops_counted;
    received = Sublist.trans h.received grows;
  }
