-- ===== src/Transport/Publisher/Empties.antt =====
-- The ticks of the publisher's loop, one drain after the other, over a broker that takes everything.
use mathlib.Core.List.{Sublist, append_assoc, append-nil}
use mathlib.Core.List.Sublist
use mathlib.Core.Path.{subst}
use native.Mathlib.Nat.{zero-mul, suc-mul}
use factoryfleet.Base.{
  ℕ, zero, suc, ◌+◌, ◌-◌, ◌*◌, ◌≤◌, ◌≡◌, refl, sym, ap, ◌∙◌, Option, some, List, [], ◌∷◌, ◌++◌,
  arith, length, take, drop, length-take, length-drop, drop-length, take-append-drop, ◌>>=◌,
}
use factoryfleet.Store.Queue.{queue, IsValid}
use factoryfleet.Store.Table.{OutboxRow}
use factoryfleet.Timeutil.{Datetime, IsDatetime}
use factoryfleet.Transport.Broker.{BrokerClient, IsConfirming, Message}
use factoryfleet.Transport.Publisher.{Publisher, Settings, drain_once}
use factoryfleet.Transport.Publisher.Drain.{Drains}
use factoryfleet.Transport.Publisher.Progress.{IsUp, drain_once_delivers}
use factoryfleet.Transport.Publisher.Send.{sent_messages}
use factoryfleet.Wire.{stamp_sent}

-- The messages are the rows in their order, each stamped with some datetime.
abbrev pub AreSentOf : List OutboxRow → List Message → Type 0
AreSentOf [] [] = Unit
AreSentOf [] (m ∷ ms) = ⊥
AreSentOf (r ∷ rows) [] = ⊥
AreSentOf (r ∷ rows) (m ∷ ms) =
    ((at : Datetime) × IsDatetime at × (m ≡ (r.topic, stamp_sent r.payload_json at)))
    × AreSentOf rows ms

AreSentOf-append :
    (rows : List OutboxRow) (ms : List Message) (later : List OutboxRow) (ns : List Message)
    → AreSentOf rows ms
    → AreSentOf later ns
    → AreSentOf (rows ++ later) (ms ++ ns)
AreSentOf-append [] [] later ns h k = k
AreSentOf-append [] (m ∷ ms) later ns h k = absurd h
AreSentOf-append (r ∷ rows) [] later ns h k = absurd h
AreSentOf-append (r ∷ rows) (m ∷ ms) later ns h k = (h.0, AreSentOf-append rows ms later ns h.1 k)

module _ (C : BrokerClient) (clock : ℕ → Datetime) (self : Settings) where
  -- `k` drains, with the number of entries that they confirmed.
  unfoldable pub drain_times : ℕ → Publisher C → Option (ℕ × Publisher C)
  drain_times zero p = some (0, p)
  drain_times (suc k) p = do
    (n, q) ← drain_once C clock self p
    (m, last) ← drain_times k q
    some (n + m, last)

-- What `k` drains have done when the queue was at most `k` batches long.
pub record Empties (C : BrokerClient) (p q : Publisher C) (messages : List Message) : Type 0 where
  pub emptied : queue q.store ≡ []
  pub sent : AreSentOf (queue p.store) messages
  pub received : Sublist (C.received p.client ++ messages) (C.received q.client)
  pub valid : IsValid q.store

module _ (C : BrokerClient) (U : IsUp C) (L : IsConfirming C) (clock : ℕ → Datetime)
    (ticks : (n : ℕ) → IsDatetime (clock n)) (self : Settings) where
  sent_messages-AreSentOf :
      (k : ℕ) (rows : List OutboxRow) → AreSentOf rows (sent_messages clock k rows)
  sent_messages-AreSentOf k [] = tt
  sent_messages-AreSentOf k (r ∷ rows) =
      ((clock k, ticks k, refl), sent_messages-AreSentOf (k + 2) rows)

  nothing-Empties : (p : Publisher C) → IsValid p.store → queue p.store ≡ [] → Empties C p p []
  nothing-Empties p v none = record {
    emptied = none;
    sent = rw none tt;
    received = rw (append-nil (C.received p.client)) (Sublist.refl _);
    valid = v;
  }

  drain-Empties :
      (p q last : Publisher C) (n : ℕ) (messages : List Message)
      → Drains C clock self.batch_size p n q
      → Empties C q last messages
      → Empties C p last (sent_messages clock p.reads (take n (queue p.store)) ++ messages)
  drain-Empties p q last n messages d e =
      let first = sent_messages clock p.reads (take n (queue p.store)) in
      record {
        emptied = e.emptied;
        sent =
            subst (λ rows. AreSentOf rows (first ++ messages)) (take-append-drop n (queue p.store))
              (AreSentOf-append (take n (queue p.store)) first (drop n (queue p.store)) messages
                (sent_messages-AreSentOf p.reads (take n (queue p.store)))
                (subst (λ rows. AreSentOf rows messages) d.queue_left e.sent));
        received =
            subst (λ ms. Sublist ms (C.received last.client))
              (append_assoc (C.received p.client) first messages)
              (Sublist.trans (Sublist.append d.received (Sublist.refl messages)) e.received);
        valid = e.valid;
      }

  -- Over a broker that is reached and confirms every message, and that keeps the contract, with a
  -- batch size for which `k` batches hold the whole queue: `k` drains of a valid store never raise and
  -- leave no entry unsent. They confirm as many entries as were queued, and the broker has received
  -- the message of each, stamped, in the order of the queue and after all that it had before.
  pub drain_times-Empties :
      (k : ℕ) (p : Publisher C)
      → IsValid p.store
      → length (queue p.store) ≤ k * self.batch_size
      → (q : Publisher C) × (messages : List Message) × (drain_times C clock self k p
          ≡ some (length (queue p.store), q))
        × Empties C p q messages
  unfolding drain_times
  drain_times-Empties zero p v short =
      let none : queue p.store ≡ [] =
        drop-length 0 (queue p.store) (omega (arith, short, zero-mul self.batch_size)) in
      (p, [], ap (λ rows. some (length rows, p)) (sym none), nothing-Empties p v none)
  drain_times-Empties (suc k) p v short =
      let n = length (take self.batch_size (queue p.store)) in
      let (q, done, d) = drain_once_delivers C U L clock ticks self p v in
      let left : length (queue q.store) ≡ length (queue p.store) - n =
        ap length d.queue_left ∙ length-drop n (queue p.store) in
      let (last, messages, finished, e) = drain_times-Empties k q d.valid (
        omega (
          arith,
          left,
          short,
          suc-mul k self.batch_size,
          length-take self.batch_size (queue p.store),
        )) in
      (
        last,
        sent_messages clock p.reads (take n (queue p.store)) ++ messages,
        rw (done, finished) (ap (λ m. some (m, last)) (omega (arith, left, d.within_queue))),
        drain-Empties p q last n messages d e,
      )
