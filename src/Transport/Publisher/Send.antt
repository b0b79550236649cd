-- ===== src/Transport/Publisher/Send.antt =====
-- The loop of `drain_once`: confirmed, then forgotten, and a stop at the first failure.
use mathlib.Core.List.{Sublist, append_assoc, append-nil}
use mathlib.Core.List.Sublist
use mathlib.Core.Path.{subst}
use factoryfleet.Base.{
  ℕ, suc, ◌+◌, ◌≤◌, ◌≡◌, refl, ap, ◌∙◌, true, false, List, [], ◌∷◌, ◌++◌, arith, length, take, drop,
  Bool-cases, inl, inr,
}
use factoryfleet.Store.Confirm.{
  mark_published-Confirms, mark_published-IsValid, IsEntryOf, AreEntriesOf,
}
use factoryfleet.Store.Order.{Ascends, Ascends-filter, delete_ids-nil, delete_ids-head}
use factoryfleet.Store.Outbox.{mark_published}
use factoryfleet.Store.Queue.{queue, IsValid}
use factoryfleet.Store.Table.{OutboxRow, is_pending, delete_ids}
use factoryfleet.Store.Types.{Store, OutboxEntry}
use factoryfleet.Timeutil.{Datetime, IsDatetime}
use factoryfleet.Transport.Broker.{BrokerClient, IsConfirming, Message}
use factoryfleet.Transport.Publisher.{Publisher, Settings, send_entry, send_all}
use factoryfleet.Wire.{stamp_sent}

-- Confirming the oldest entry takes it off the front of the queue.
queue-mark_oldest :
    (now : Datetime) (s : Store) (r : OutboxRow) (rest : List OutboxRow)
    → IsValid s
    → queue s ≡ r ∷ rest
    → queue (mark_published now (r.id ∷ []) s).1 ≡ rest
queue-mark_oldest now s r rest v e =
    (mark_published-Confirms now (r.id ∷ []) s).queue_left
    ∙ ap (delete_ids (r.id ∷ [])) e
    ∙ delete_ids-head r [] rest s.sequence tail
    ∙ delete_ids-nil rest
  where
    ascending : Ascends 0 (r ∷ rest) s.sequence
    ascending =
        subst (λ q. Ascends 0 q s.sequence) e
          (Ascends-filter is_pending 0 s.outbox s.sequence v.ascends)

    tail : Ascends r.id rest s.sequence
    tail = ascending.1

module _ (clock : ℕ → Datetime) where
  -- The messages of the rows, stamped as they leave: the clock is read twice for each.
  abbrev pub sent_messages : ℕ → List OutboxRow → List Message
  sent_messages k [] = []
  sent_messages k (r ∷ rows) =
      (r.topic, stamp_sent r.payload_json (clock k)) ∷ sent_messages (k + 2) rows

-- What the loop has done when it ends at `q` having confirmed `n` of `rows`, where `rest` stands
-- behind them in the queue.
pub record Sends (C : BrokerClient) (clock : ℕ → Datetime) (rows rest : List OutboxRow)
    (p : Publisher C) (n : ℕ) (q : Publisher C) : Type 0 where
  pub within : n ≤ length rows
  pub queue_left : queue q.store ≡ drop n rows ++ rest
  pub received :
      Sublist
        (C.received p.client ++ sent_messages clock p.reads (take n rows))
        (C.received q.client)
  pub valid : IsValid q.store
  pub published_kept : q.published ≡ p.published
  pub dropped_kept : q.store.dropped_entries ≡ p.store.dropped_entries
  pub sequence_kept : q.store.sequence ≡ p.store.sequence

-- What one confirmed entry does to the publisher.
pub record IsTaken (C : BrokerClient) (clock : ℕ → Datetime) (r : OutboxRow) (rest : List OutboxRow)
    (p q : Publisher C) : Type 0 where
  pub queue_left : queue q.store ≡ rest
  pub received :
      Sublist
        (C.received p.client ++ ((r.topic, stamp_sent r.payload_json (clock p.reads)) ∷ []))
        (C.received q.client)
  pub valid : IsValid q.store
  pub reads_grow : q.reads ≡ p.reads + 2
  pub published_kept : q.published ≡ p.published
  pub dropped_kept : q.store.dropped_entries ≡ p.store.dropped_entries
  pub sequence_kept : q.store.sequence ≡ p.store.sequence

module _ (C : BrokerClient) (L : IsConfirming C) (clock : ℕ → Datetime)
    (ticks : (n : ℕ) → IsDatetime (clock n)) (self : Settings) where
  Sends-none :
      (rows rest : List OutboxRow) (p : Publisher C)
      → IsValid p.store
      → queue p.store ≡ rows ++ rest
      → (q : Publisher C) → q.store ≡ p.store
      → q.published ≡ p.published
      → Sublist (C.received p.client) (C.received q.client)
      → Sends C clock rows rest p 0 q
  Sends-none rows rest p v e q same count grows = record {
    within = omega arith;
    queue_left = rw same e;
    received = rw (append-nil (C.received p.client)) grows;
    valid = rw same v;
    published_kept = count;
    dropped_kept = rw same;
    sequence_kept = rw same;
  }

  -- One confirmed entry.
  send_entry-IsTaken :
      (entry : OutboxEntry) (r : OutboxRow) (rest : List OutboxRow) (p : Publisher C)
      → IsEntryOf entry r
      → IsValid p.store
      → queue p.store ≡ r ∷ rest
      → (send_entry C clock self entry p).0 ≡ true
      → IsTaken C clock r rest p (send_entry C clock self entry p).1
  unfolding send_entry
  send_entry-IsTaken entry r rest p (same_id, same_topic, same_payload, _) v e ok =
      let payload = stamp_sent entry.payload (clock p.reads) in
      let marked = mark_published-Confirms (clock (p.reads + 1)) (entry.id ∷ []) p.store in
      elim (Bool-cases (C.publish entry.topic payload p.client).0) [
        | inl confirmed ↦ rw confirmed (record {
          queue_left = rw same_id (queue-mark_oldest (clock (p.reads + 1)) p.store r rest v e);
          received =
              rw (← same_topic, ← same_payload)
                (L.publish-confirms entry.topic payload p.client confirmed);
          valid = mark_published-IsValid (clock (p.reads + 1)) (entry.id ∷ []) p.store (ticks _) v;
          reads_grow = refl;
          published_kept = refl;
          dropped_kept = marked.dropped_kept;
          sequence_kept = marked.sequence_kept;
        })
        | inr unconfirmed ↦ absurd (ground (arith, ok))
      ]

  send_entry-refused :
      (entry : OutboxEntry) (p : Publisher C)
      → (send_entry C clock self entry p).0 ≡ false
      → let q = (send_entry C clock self entry p).1 in
        (q.store ≡ p.store)
        × (q.published ≡ p.published)
        × Sublist (C.received p.client) (C.received q.client)
  unfolding send_entry
  send_entry-refused entry p refused =
      let payload = stamp_sent entry.payload (clock p.reads) in
      elim (Bool-cases (C.publish entry.topic payload p.client).0) [
        | inl confirmed ↦ absurd (ground (arith, refused))
        | inr unconfirmed ↦
            rw unconfirmed (refl, refl, L.publish-keeps entry.topic payload p.client)
      ]

  Sends-cons :
      (r : OutboxRow) (rows rest : List OutboxRow) (p after : Publisher C) (n : ℕ) (q : Publisher C)
      → IsTaken C clock r (rows ++ rest) p after
      → Sends C clock rows rest after n q
      → Sends C clock (r ∷ rows) rest p (suc n) q
  Sends-cons r rows rest p after n q t d = record {
    within = omega (arith, d.within);
    queue_left = d.queue_left;
    received =
        Sublist.trans
          (rw
            (
              ← append_assoc (C.received p.client) (_ ∷ [])
                  (sent_messages clock (p.reads + 2) (take n rows)),
              ← t.reads_grow,
            )
            (Sublist.append t.received (Sublist.refl _)))
          d.received;
    valid = d.valid;
    published_kept = d.published_kept ∙ t.published_kept;
    dropped_kept = d.dropped_kept ∙ t.dropped_kept;
    sequence_kept = d.sequence_kept ∙ t.sequence_kept;
  }

  pub send_all-Sends :
      (entries : List OutboxEntry) (rows rest : List OutboxRow) (p : Publisher C)
      → AreEntriesOf entries rows
      → IsValid p.store
      → queue p.store ≡ rows ++ rest
      → Sends C clock rows rest p
          (send_all C clock self entries p).0
          (send_all C clock self entries p).1
  unfolding send_all
  send_all-Sends [] [] rest p fit v e = Sends-none [] rest p v e p refl refl (Sublist.refl _)
  send_all-Sends [] (r ∷ rows) rest p fit v e = absurd fit
  send_all-Sends (entry ∷ entries) [] rest p fit v e = absurd fit
  send_all-Sends (entry ∷ entries) (r ∷ rows) rest p fit v e =
      let after = (send_entry C clock self entry p).1 in
      elim (Bool-cases (send_entry C clock self entry p).0) [
        | inl ok ↦
            let t = send_entry-IsTaken entry r (rows ++ rest) p fit.0 v e ok in
            rw ok (
              Sends-cons r rows rest p after _ _ t
                (send_all-Sends entries rows rest after fit.1 t.valid t.queue_left))
        | inr refused ↦
            let (same, count, grows) = send_entry-refused entry p refused in
            rw refused (Sends-none (r ∷ rows) rest p v e after same count grows)
      ]
