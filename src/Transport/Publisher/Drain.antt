-- ===== src/Transport/Publisher/Drain.antt =====
-- `drain_once` and `publish_now` of agent/factoryfleet_agent/transport/publisher.py.
use mathlib.Core.List.{Sublist, append-nil}
use mathlib.Core.List.Sublist
use native.Mathlib.Nat.{add-zero}
use factoryfleet.Base.{
  ℕ, ◌+◌, ◌≤◌, ◌≡◌, refl, sym, ◌∙◌, some, List, [], ◌∷◌, ◌++◌, arith, length, length-take, take,
  drop, take-append-drop, take-take, drop-take-append, Bool-cases, inl, inr,
}
use factoryfleet.Store.Confirm.{AreEntriesOf, pending_total}
use factoryfleet.Store.Prune.{prune_published_total}
use factoryfleet.Store.Queue.{queue, IsValid}
use factoryfleet.Store.Types.{OutboxEntry}
use factoryfleet.Timeutil.{Datetime, IsDatetime}
use factoryfleet.Transport.Broker.{BrokerClient, IsConfirming}
use factoryfleet.Transport.Publisher.{
  Publisher, Settings, send_all, prune, drain_entries, drain_once,
}
use factoryfleet.Transport.Publisher.Send.{sent_messages, send_all-Sends}

-- What a drain from `p` that ends at `q` with result `n` has done.
pub record Drains (C : BrokerClient) (clock : ℕ → Datetime) (batch : ℕ) (p : Publisher C) (n : ℕ)
    (q : Publisher C) : Type 0 where
  pub within_batch : n ≤ batch
  pub within_queue : n ≤ length (queue p.store)
  pub queue_left : queue q.store ≡ drop n (queue p.store)
  pub received :
      Sublist
        (C.received p.client ++ sent_messages clock p.reads (take n (queue p.store)))
        (C.received q.client)
  pub valid : IsValid q.store
  pub counted : q.published ≡ p.published + n
  pub dropped_kept : q.store.dropped_entries ≡ p.store.dropped_entries
  pub sequence_kept : q.store.sequence ≡ p.store.sequence

module _ (C : BrokerClient) (L : IsConfirming C) (clock : ℕ → Datetime)
    (ticks : (n : ℕ) → IsDatetime (clock n)) (self : Settings) where
  -- Pruning never raises here, and changes no unpublished row.
  prune_total :
      (p : Publisher C)
      → IsValid p.store
      → (q : Publisher C) × (prune C clock self p ≡ some q)
        × ((queue q.store ≡ queue p.store)
            × IsValid q.store
            × (q.client ≡ p.client)
            × (q.published ≡ p.published)
            × (q.store.dropped_entries ≡ p.store.dropped_entries)
            × (q.store.sequence ≡ p.store.sequence))
  unfolding prune
  prune_total p v =
      let (count, store, done, fit, valid) =
        prune_published_total (clock p.reads) self.retain_published p.store v in
      (
        record p { store = store; reads = p.reads + 1 },
        rw done refl,
        (fit.queue_kept, valid, refl, refl, fit.dropped_kept, fit.sequence_kept),
      )

  drain_sent :
      (entries : List OutboxEntry) (p : Publisher C)
      → IsValid p.store
      → AreEntriesOf entries (take self.batch_size (queue p.store))
      → let (n, sent) = send_all C clock self entries p in
        (q : Publisher C) × (prune C clock self (record sent { published = sent.published + n })
          ≡ some q)
        × Drains C clock self.batch_size p n q
  drain_sent entries p v fit =
      let rows = take self.batch_size (queue p.store) in
      let rest = drop self.batch_size (queue p.store) in
      let (n, sent) = send_all C clock self entries p in
      let d =
        send_all-Sends C L clock ticks self entries rows rest p fit v
          (sym (take-append-drop self.batch_size (queue p.store))) in
      let small : n ≤ self.batch_size =
        omega (arith, d.within, length-take self.batch_size (queue p.store)) in
      let (q, done, (same_queue, valid, same_client, count, dropped, sequence)) =
        prune_total (record sent { published = sent.published + n }) d.valid in
      (
        q,
        done,
        record {
          within_batch = small;
          within_queue = omega (arith, d.within, length-take self.batch_size (queue p.store));
          queue_left =
              same_queue ∙ d.queue_left ∙ drop-take-append n self.batch_size (queue p.store) small;
          received =
              rw (same_client, ← take-take n self.batch_size (queue p.store) small) d.received;
          valid = valid;
          counted = rw (count, d.published_kept);
          dropped_kept = dropped ∙ d.dropped_kept;
          sequence_kept = sequence ∙ d.sequence_kept;
        },
      )

  -- A drain that confirms nothing and only lets the client's state move on.
  Drains-none :
      (p q : Publisher C)
      → queue q.store ≡ queue p.store
      → IsValid q.store
      → Sublist (C.received p.client) (C.received q.client)
      → q.published ≡ p.published
      → q.store.dropped_entries ≡ p.store.dropped_entries
      → q.store.sequence ≡ p.store.sequence
      → Drains C clock self.batch_size p 0 q
  Drains-none p q same v grows count dropped sequence = record {
    within_batch = omega arith;
    within_queue = omega arith;
    queue_left = same;
    received = rw (append-nil (C.received p.client)) grows;
    valid = v;
    counted = rw count (sym (add-zero p.published));
    dropped_kept = dropped;
    sequence_kept = sequence;
  }

  pub drain_entries_total :
      (entries : List OutboxEntry) (p : Publisher C)
      → IsValid p.store
      → AreEntriesOf entries (take self.batch_size (queue p.store))
      → (n : ℕ) × (q : Publisher C) × (drain_entries C clock self entries p ≡ some (n, q))
        × Drains C clock self.batch_size p n q
        × (n ≡ (send_all C clock self entries p).0)
  unfolding drain_entries send_all
  drain_entries_total [] p v fit =
      let (q, done, (same, valid, client, count, dropped, sequence)) = prune_total p v in
      (
        0,
        q,
        rw done,
        Drains-none p q same valid (rw client (Sublist.refl _)) count dropped sequence,
        refl,
      )
  drain_entries_total (entry ∷ entries) p v fit =
      let (q, done, d) = drain_sent (entry ∷ entries) p v fit in
      ((send_all C clock self (entry ∷ entries) p).0, q, rw done, d, refl)

  pub Drains-client :
      (p : Publisher C) (client : C.State) (n : ℕ) (q : Publisher C)
      → Sublist (C.received p.client) (C.received client)
      → Drains C clock self.batch_size (record p { client = client }) n q
      → Drains C clock self.batch_size p n q
  Drains-client p client n q grows d = record {
    within_batch = d.within_batch;
    within_queue = d.within_queue;
    queue_left = d.queue_left;
    received = Sublist.trans (Sublist.append grows (Sublist.refl _)) d.received;
    valid = d.valid;
    counted = d.counted;
    dropped_kept = d.dropped_kept;
    sequence_kept = d.sequence_kept;
  }

  -- With a broker client that keeps its contract, a drain of a valid store never raises. It confirms
  -- the `n` oldest entries that it returns, `n` within the batch: the broker has acknowledged these,
  -- stamped, in their order and after all it had before; exactly these left the queue of unpublished
  -- rows; nothing was dropped; and the count of published messages grew by `n`.
  pub drain_once_total :
      (p : Publisher C)
      → IsValid p.store
      → (n : ℕ) × (q : Publisher C) × (drain_once C clock self p ≡ some (n, q))
        × Drains C clock self.batch_size p n q
  unfolding drain_once
  drain_once_total p v =
      let client = (C.is_connected p.client).1 in
      let grows = L.is_connected-keeps p.client in
      elim (Bool-cases (C.is_connected p.client).0) [
        | inl up ↦
            let (entries, found, fit) = pending_total self.batch_size p.store v in
            let (n, q, done, d, _) =
              drain_entries_total entries (record p { client = client }) v fit in
            (n, q, rw (up, found) done, Drains-client p client n q grows d)
        | inr down ↦ (
          0,
          record p { client = client },
          rw down,
          Drains-none p (record p { client = client }) refl v grows refl refl refl,
        )
      ]
