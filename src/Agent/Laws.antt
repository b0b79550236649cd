-- ===== src/Agent/Laws.antt =====
-- What starting, announcing and stopping an agent does.
use mathlib.Core.Path.{ap₂}
use factoryfleet.Base.{
  drop-append, ℕ, ◌+◌, ◌-◌, ◌≤◌, ◌<◌, ◌≡◌, refl, ap, ◌∙◌, Bool, true, false, not, ◌&&◌, ◌||◌, some,
  [], ◌∷◌, ◌++◌, arith, length, take, drop, ltb, length-take, length-append,
}
use factoryfleet.Agent.{Agent, Config, announce, start_agent, stop_agent, final_drain}
use factoryfleet.Scheduler.Lifecycle.{fresh_thread, is_running, start, stop}
use factoryfleet.Store.Enqueue.{enqueue-Enqueues, enqueue-IsValid}
use factoryfleet.Store.Outbox.{enqueue, new_row}
use factoryfleet.Store.Queue.{queue, IsValid}
use factoryfleet.Store.Table.{OutboxRow}
use factoryfleet.Timeutil.{Datetime, IsDatetime}
use factoryfleet.Transport.Broker.{BrokerClient, IsConfirming}
use factoryfleet.Transport.Publisher.{Publisher, publish_now}
use factoryfleet.Transport.Publisher.Drain.{Drains, drain_once_total}
use factoryfleet.Transport.Publisher.Progress.{IsUp, drain_once_delivers}
use factoryfleet.Wire.{registration, registration_topic}

module _ (C : BrokerClient) (clock : ℕ → Datetime) (self : Config) (p : Publisher C) where
  -- The row that announces the machine.
  abbrev pub registration_row : OutboxRow
  registration_row =
      new_row (clock (p.reads + 1)) (registration_topic self.identity)
        (registration self.identity self.sensor_ids self.version (clock p.reads)) p.store

  -- The publisher once the row is queued.
  abbrev pub with_registration : Publisher C
  with_registration = record p {
    store =
        (enqueue (clock (p.reads + 1)) (registration_topic self.identity)
          (registration self.identity self.sensor_ids self.version (clock p.reads)) p.store).1;
    reads = p.reads + 1 + 1;
  }

  -- What a drain with result `n` leaves of the queue with the row.
  abbrev pub Announces : ℕ → Publisher C → Type 0
  Announces n q =
      (queue q.store
        ≡ drop n (
            drop (length (queue p.store) + 1 - p.store.max_outbox_entries)
              (queue p.store ++ (registration_row ∷ []))))
      × IsValid q.store
      × (q.published ≡ p.published + n)

module _ (C : BrokerClient) (L : IsConfirming C) (clock : ℕ → Datetime)
    (ticks : (n : ℕ) → IsDatetime (clock n)) (self : Config) where
  IsValid-with_registration :
      (p : Publisher C) → IsValid p.store → IsValid (with_registration C clock self p).store
  IsValid-with_registration p v = enqueue-IsValid _ _ _ p.store (ticks (p.reads + 1)) v

  queue-with_registration :
      (p : Publisher C)
      → IsValid p.store
      → queue (with_registration C clock self p).store
        ≡ drop
            (length (queue p.store) + 1 - p.store.max_outbox_entries)
            (queue p.store ++ (registration_row C clock self p ∷ []))
  queue-with_registration p v = (enqueue-Enqueues _ _ _ p.store v.ascends).1.bounded_queue

  announce_total :
      (p : Publisher C)
      → IsValid p.store
      → (n : ℕ) × (q : Publisher C) × (announce C clock self p ≡ some (ltb 0 n, q))
        × Announces C clock self p n q
  unfolding announce publish_now
  announce_total p v =
      let (n, q, done, d) =
        drain_once_total C L clock ticks self.settings (with_registration C clock self p)
          (IsValid-with_registration p v) in
      (
        n,
        q,
        rw done,
        (d.queue_left ∙ ap (drop n) (queue-with_registration p v), d.valid, d.counted),
      )

  -- With a broker client that keeps its contract, an agent whose store is open and valid and whose
  -- threads do not run starts: both threads are started with their events clear, the store stays open, and the registration
  -- was appended to the queue, behind all that an earlier run left and under the cap, before the `n`
  -- oldest entries went out.
  pub start_agent_total :
      (sampler_alive publisher_alive : Bool) (a : Agent C)
      → a.closed ≡ false
      → is_running sampler_alive a.sampler ≡ false
      → is_running publisher_alive a.publisher_loop ≡ false
      → IsValid a.publisher.store
      → (n : ℕ) × (t : Agent C) × (start_agent C clock self sampler_alive publisher_alive a
          ≡ some t)
        × (t.running ≡ true)
        × (t.sampler ≡ fresh_thread)
        × (t.publisher_loop ≡ fresh_thread)
        × (t.closed ≡ false)
        × Announces C clock self
            (record a.publisher { client = C.start a.publisher.client })
            n
            t.publisher
  unfolding start_agent start
  start_agent_total sampler_alive publisher_alive a opened idle_sampler idle_publisher v =
      let (n, q, done, fit) =
        announce_total (record a.publisher { client = C.start a.publisher.client }) v in
      (
        n,
        record a {
          publisher = q;
          sampler = fresh_thread;
          publisher_loop = fresh_thread;
          running = true;
        },
        rw (opened, done, idle_sampler, idle_publisher) refl,
        refl,
        refl,
        refl,
        opened,
        fit,
      )

  -- With a broker client that keeps its contract, stopping a running agent with a valid store drains
  -- once more, where no other call comes in between, whatever `is_alive` says: the `n` oldest entries leave the queue, confirmed, and the
  -- rest stays queued. The agent no longer runs, the store is closed by it exactly if no thread is
  -- left, and a second stop does nothing.
  pub stop_agent_total :
      (sampler_alive publisher_alive : Bool) (left : Publisher C) (a : Agent C)
      → a.running ≡ true
      → IsValid a.publisher.store
      → let t = stop_agent C clock self sampler_alive publisher_alive left a in
        (t.running ≡ false)
        × (t.closed ≡ (
            a.closed
            || (not (is_running sampler_alive a.sampler)
                && not (is_running publisher_alive a.publisher_loop))))
        × ((n : ℕ) × (p : Publisher C) × (t.publisher ≡ record p { client = C.stop p.client })
            × Drains C clock self.settings.batch_size a.publisher n p)
        × ((x y : Bool) (l : Publisher C) → stop_agent C clock self x y l t ≡ t)
  unfolding stop_agent stop is_running final_drain
  stop_agent_total sampler_alive publisher_alive left a up v =
      let (n, p, done, d) = drain_once_total C L clock ticks self.settings a.publisher v in
      (rw up refl, ground (arith, up), (n, p, rw (up, done) refl, d), λ x y l. rw up refl)

-- Over a broker that is reached and confirms every message: where at least a batch was left in the
-- queue, and the cap is not reached, `_announce` reports success, although the registration is still
-- in the queue, behind all that the batch left.
pub announce_overtaken :
    (C : BrokerClient)
    → IsUp C
    → IsConfirming C
    → (clock : ℕ → Datetime) → ((n : ℕ) → IsDatetime (clock n))
    → (self : Config) (p : Publisher C) → IsValid p.store
    → 1 ≤ self.settings.batch_size
    → self.settings.batch_size ≤ length (queue p.store)
    → length (queue p.store) < p.store.max_outbox_entries
    → (q : Publisher C) × (announce C clock self p ≡ some (true, q))
      × (queue q.store
          ≡ drop self.settings.batch_size (queue p.store) ++ (registration_row C clock self p ∷ []))
unfolding announce publish_now
announce_overtaken C U L clock ticks self p v some_batch full room =
    let batch = self.settings.batch_size in
    let row = registration_row C clock self p in
    let fits : length (queue p.store) + 1 - p.store.max_outbox_entries ≡ 0 = omega (arith, room) in
    let queued : queue (with_registration C clock self p).store ≡ queue p.store ++ (row ∷ []) =
      queue-with_registration C L clock ticks self p v
      ∙ ap (λ k. drop k (queue p.store ++ (row ∷ []))) fits in
    let whole : length (take batch (queue (with_registration C clock self p).store)) ≡ batch =
      ap (λ rows. length (take batch rows)) queued
      ∙ omega (
        arith,
        length-take batch (queue p.store ++ (row ∷ [])),
        length-append (queue p.store) (row ∷ []),
        full,
      ) in
    let (q, done, d) =
      drain_once_delivers C U L clock ticks self.settings (with_registration C clock self p)
        (IsValid-with_registration C L clock ticks self p v) in
    (
      q,
      rw done (ap (λ b. some (b, q)) (ground (arith, whole, some_batch))),
      d.queue_left ∙ ap₂ drop whole queued ∙ drop-append batch (queue p.store) (row ∷ []) full,
    )
