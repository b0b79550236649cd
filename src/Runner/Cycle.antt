-- ===== src/Runner/Cycle.antt =====
-- A sampling cycle is a run of the steps of System, and queues a batch of this machine.
use factoryfleet.Base.{ℕ, ◌≡◌, refl, Bool, List, [], ◌∷◌, ◌++◌, All, inl, inr, ◌⊎◌, String}
use factoryfleet.Json.{Fields}
use factoryfleet.Runner.{Runner, sample_once}
use factoryfleet.Runner.Atomic.{sampled, miscounted, unkept, enqueue-counts, sample_once_atomic}
use factoryfleet.Sensors.Reading.{Reading}
use factoryfleet.Store.AssetState.{record_reading, record_all}
use factoryfleet.Store.Types.{returned, raised, operational_error}
use factoryfleet.System.Carries.{Walk, Walk-append, Walk-next}
use factoryfleet.System.Integrity.{IsOwn}
use factoryfleet.System.{System, overflow, zeros, Step, here}
use factoryfleet.Timeutil.{Datetime, IsDatetime}
use factoryfleet.Transport.Broker.{BrokerClient}
use factoryfleet.Wire.Conforms.{IsSound}
use factoryfleet.Wire.{telemetry_topic, telemetry_batch}

-- A cycle returns its readings, or raises and changes nothing but, where COMMIT fails, the counter of
-- drops.
pub sample_once-cases :
    (fails : ℕ → Bool) (batched_at now : Datetime) (rs : List Reading) (r : Runner)
    → let (out, after) = sample_once fails batched_at now rs r in
      (out ≡ returned rs)
      ⊎ ((after ≡ record r { store = unkept r.store after.store })
          × (e : String) × (out ≡ raised e))
unfolding sample_once
sample_once-cases fails batched_at now [] r = inl refl
sample_once-cases fails batched_at now (x ∷ xs) r =
    elim (sample_once_atomic fails batched_at now x xs r) [
      | inl (kept, done) ↦ rw done (inl refl)
      | inr (inl (e, undone)) ↦ rw undone (inr (refl, e, refl))
      | inr (inr (lost, undone)) ↦ rw undone (inr (refl, operational_error, refl))
    ]

module _ (P : String → Fields → Type 0) {C : BrokerClient} where
  record_all-Walk :
      (rs : List Reading) (s : System C) → Walk P s (record s { store = record_all rs s.store })
  unfolding record_all
  record_all-Walk [] s = (here, tt)
  record_all-Walk (r ∷ rs) s =
      let t = record s { store = record_reading r s.store } in
      Walk-append P (Walk-next P (here, tt) (Step.record_state r refl) tt) (record_all-Walk rs t)

module _ {C : BrokerClient} (batched_at now : Datetime) (r : Runner) (s : System C) where
  sampled-Walk :
      (rs : List Reading)
      → All IsSound rs
      → IsDatetime batched_at
      → IsDatetime now
      → (dropped : List ℕ) × Walk
          (IsOwn r.identity)
          (record s { store = r.store })
          (record s { store = (sampled batched_at now rs r).store; dropped = dropped })
  sampled-Walk rs sound v w =
      let topic = telemetry_topic r.identity in
      let payload = telemetry_batch r.identity rs batched_at in
      let recorded = record s { store = record_all rs r.store } in
      (
        s.dropped ++ overflow now topic payload recorded.store,
        Walk-next (IsOwn r.identity)
            (record_all-Walk (IsOwn r.identity) rs (record s { store = r.store }))
            (Step.queue_entry now topic payload w refl)
            (IsOwn.batch rs batched_at sound v refl refl),
      )

-- A cycle whose COMMIT fails.
miscounted-Walk :
    {C : BrokerClient} (batched_at now : Datetime) (r : Runner) (s : System C) (rs : List Reading)
    → (dropped : List ℕ) × Walk
        (IsOwn r.identity)
        (record s { store = r.store })
        (record s { store = (miscounted batched_at now rs r).store; dropped = dropped })
miscounted-Walk batched_at now r s rs =
    let (n, counted) =
      enqueue-counts now (telemetry_topic r.identity) (telemetry_batch r.identity rs batched_at) rs
        r.store in
    (
      s.dropped ++ zeros n,
      Walk-next (IsOwn r.identity) (here, tt) (Step.miscount n (rw counted refl)) tt,
    )

-- Over sound readings and datetimes, whatever statements fail: a cycle takes the shared store by steps of
-- System from what it was to what the cycle leaves, from any state of the publisher, and all that it
-- queues is a batch of sound readings of this machine.
pub sample_once-Walk :
    {C : BrokerClient} (fails : ℕ → Bool) (batched_at now : Datetime) (rs : List Reading)
    (r : Runner) (s : System C)
    → All IsSound rs
    → IsDatetime batched_at
    → IsDatetime now
    → (dropped : List ℕ) × Walk
        (IsOwn r.identity)
        (record s { store = r.store })
        (record s { store = (sample_once fails batched_at now rs r).1.store; dropped = dropped })
unfolding sample_once
sample_once-Walk fails batched_at now [] r s sound v w = (s.dropped, (here, tt))
sample_once-Walk fails batched_at now (x ∷ xs) r s sound v w =
    elim (sample_once_atomic fails batched_at now x xs r) [
      | inl (kept, done) ↦ rw done (sampled-Walk batched_at now r s (x ∷ xs) sound v w)
      | inr (inl (e, undone)) ↦ rw undone (s.dropped, (here, tt))
      | inr (inr (lost, undone)) ↦ rw undone (miscounted-Walk batched_at now r s (x ∷ xs))
    ]
