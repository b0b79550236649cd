-- ===== src/Runner/Delivered.antt =====
-- From a sampling cycle to the broker: what was read is what arrives.
use mathlib.Core.List.{Sublist}
use mathlib.Core.Path.{ap₂, subst}
use factoryfleet.Base.{
  ℕ, ◌+◌, ◌-◌, ◌*◌, ◌≤◌, ◌≡◌, refl, ap, ◌∙◌, Bool, false, true, some, List, [], ◌∷◌, ◌++◌, arith,
  length, drop, drop-append, length-drop, length-append, All,
}
use factoryfleet.Json.{object}
use factoryfleet.Runner.Atomic.{sampled, sample_once_succeeds}
use factoryfleet.Runner.{Runner, sample_once}
use factoryfleet.Sensors.Reading.{Reading}
use factoryfleet.Store.AssetState.{record_reading, record_all}
use factoryfleet.Store.Enqueue.{enqueue-Enqueues, enqueue-IsValid}
use factoryfleet.Store.Outbox.{new_row}
use factoryfleet.Store.Queue.{queue, IsValid}
use factoryfleet.Store.Table.{OutboxRow}
use factoryfleet.Store.Types.{Store}
use factoryfleet.Timeutil.{Datetime, IsDatetime}
use factoryfleet.Transport.Broker.{BrokerClient, IsConfirming, Message}
use factoryfleet.Transport.Publisher.Empties.{AreSentOf, drain_times, drain_times-Empties}
use factoryfleet.Transport.Publisher.Progress.{IsUp}
use factoryfleet.Transport.Publisher.{Publisher, Settings}
use factoryfleet.Wire.Conforms.{IsSound, fits-telemetry_batch}
use factoryfleet.Wire.Shape.{fits, telemetry_shape}
use factoryfleet.Wire.{telemetry_topic, telemetry_batch, stamp_sent}

-- Recording states leaves the outbox alone.
record_all-IsValid :
    (rs : List Reading) (s : Store)
    → IsValid s
    → IsValid (record_all rs s)
      × (queue (record_all rs s) ≡ queue s)
      × ((record_all rs s).max_outbox_entries ≡ s.max_outbox_entries)
unfolding record_all record_reading
record_all-IsValid [] s v = (v, refl, refl)
record_all-IsValid (r ∷ rs) s v =
    record_all-IsValid rs (record_reading r s)
      (record { ascends = v.ascends; stamped = v.stamped; bounded = v.bounded })

-- The message of the last row is the last message.
AreSentOf-last :
    (rows : List OutboxRow) (r : OutboxRow) (ms : List Message)
    → AreSentOf (rows ++ (r ∷ [])) ms
    → (earlier : List Message) × (at : Datetime) × IsDatetime at
      × (ms ≡ earlier ++ ((r.topic, stamp_sent r.payload_json at) ∷ []))
AreSentOf-last [] r [] h = absurd h
AreSentOf-last [] r (m ∷ []) ((at, v, same), _) = ([], at, v, ap (λ n. n ∷ []) same)
AreSentOf-last [] r (m ∷ n ∷ ms) h = absurd h.1
AreSentOf-last (q ∷ rows) r [] h = absurd h
AreSentOf-last (q ∷ rows) r (m ∷ ms) h =
    let (earlier, at, v, same) = AreSentOf-last rows r ms h.1 in
    (m ∷ earlier, at, v, ap (λ ns. m ∷ ns) same)

module _ (batched_at now : Datetime) (rs : List Reading) (r : Runner) where
  -- The row of the cycle's batch.
  abbrev batch_row : OutboxRow
  batch_row =
      new_row now (telemetry_topic r.identity) (telemetry_batch r.identity rs batched_at)
        (record_all rs r.store)

  -- With a cap of at least one entry the cycle's batch is the last of the queue.
  sampled-queue :
      IsDatetime now
      → IsValid r.store
      → 1 ≤ r.store.max_outbox_entries
      → IsValid (sampled batched_at now rs r).store
        × (queue (sampled batched_at now rs r).store ≡ (
            drop (length (queue r.store) + 1 - r.store.max_outbox_entries) (queue r.store)
            ++ (batch_row ∷ [])))
  sampled-queue w v room =
      let topic = telemetry_topic r.identity in
      let payload = telemetry_batch r.identity rs batched_at in
      let (valid, same, cap) = record_all-IsValid rs r.store v in
      let (_, e) = enqueue-Enqueues now topic payload (record_all rs r.store) valid.ascends in
      (
        enqueue-IsValid now topic payload (record_all rs r.store) w valid,
        e.bounded_queue
            ∙ drop-append _ (queue (record_all rs r.store)) (batch_row ∷ [])
                (omega (arith, room, cap))
            ∙ ap₂ (λ rows c. drop (length rows + 1 - c) rows ++ (batch_row ∷ [])) same cap,
      )

-- Over a broker that is reached and confirms every message, and that keeps the contract; where no write
-- fails, the readings are sound and the clock gives datetimes, the cap is at least one entry, and `k`
-- batches hold the queue with one more entry: after a cycle over some readings, `k` drains raise
-- nothing and empty the queue, and the broker has received the batch of exactly these readings as the
-- last of the messages, stamped and in the shape of telemetry, also where the cap dropped an older
-- entry for it.
pub sample_once-delivered :
    (C : BrokerClient)
    → IsUp C
    → IsConfirming C
    → (clock : ℕ → Datetime) → ((n : ℕ) → IsDatetime (clock n))
    → (self : Settings) (k : ℕ) (p : Publisher C) (fails : ℕ → Bool) (batched_at now : Datetime)
      (x : Reading) (xs : List Reading) (r : Runner)
    → ((n : ℕ) → fails n ≡ false)
    → All IsSound (x ∷ xs)
    → IsDatetime batched_at
    → IsDatetime now
    → IsValid r.store
    → 1 ≤ r.store.max_outbox_entries
    → length (queue r.store) + 1 ≤ k * self.batch_size
    → let after = (sample_once fails batched_at now (x ∷ xs) r).1 in
      let batch = telemetry_batch r.identity (x ∷ xs) batched_at in
      (n : ℕ) × (q : Publisher C) × (earlier : List Message) × (sent_at : Datetime) × (drain_times C
          clock self k
          (record p { store = after.store })
        ≡ some (n, q))
      × (queue q.store ≡ [])
      × Sublist
          (C.received p.client
            ++ (earlier ++ ((telemetry_topic r.identity, stamp_sent batch sent_at) ∷ [])))
          (C.received q.client)
      × (fits telemetry_shape (object (stamp_sent batch sent_at)) ≡ true)
unfolding new_row
sample_once-delivered C U L clock ticks self k p fails batched_at now x xs r never sound v w valid
      room short =
    let done = sample_once_succeeds fails batched_at now x xs r never in
    let (kept, same) = sampled-queue batched_at now (x ∷ xs) r w valid room in
    let older = drop (length (queue r.store) + 1 - r.store.max_outbox_entries) (queue r.store) in
    let row = batch_row batched_at now (x ∷ xs) r in
    let sampled_publisher : Publisher C = record p {
      store = (sampled batched_at now (x ∷ xs) r).store;
    } in
    let few : length (queue sampled_publisher.store) ≤ k * self.batch_size = omega (
      arith,
      ap length same,
      length-append older (row ∷ []),
      length-drop (length (queue r.store) + 1 - r.store.max_outbox_entries) (queue r.store),
      short,
    ) in
    let (q, messages, drained, e) =
      drain_times-Empties C U L clock ticks self k sampled_publisher kept few in
    let (earlier, sent_at, u, last) =
      AreSentOf-last older row messages (subst (λ rows. AreSentOf rows messages) same e.sent) in
    (
      length (queue sampled_publisher.store),
      q,
      earlier,
      sent_at,
      rw done drained,
      e.emptied,
      subst (λ ms. Sublist (C.received p.client ++ ms) (C.received q.client)) last e.received,
      fits-telemetry_batch r.identity (x ∷ xs) batched_at sent_at sound v u,
    )
