-- ===== src/Runner/Atomic.antt =====
-- A sampling cycle lands whole or not at all, but for the counter of drops.
use factoryfleet.Base.{
  ℕ, suc, ◌+◌, ◌≡◌, refl, ap, ◌∙◌, leb, true, Bool, false, String, List, [], ◌∷◌, arith, Bool-cases,
  inl, inr, ◌⊎◌,
}
use factoryfleet.Json.{Fields}
use factoryfleet.Runner.{Runner, write_batch, write_cycle, commit_of, sample_once}
use factoryfleet.Sensors.Reading.{Reading}
use factoryfleet.Store.AssetState.{record_reading, record_all}
use factoryfleet.Store.Outbox.{insert_outbox, pending_count, enforce_cap, enqueue}
use factoryfleet.Store.Types.{
  Store, Outcome, returned, raised, settle, transaction, operational_error,
}
use factoryfleet.Timeutil.{Datetime}
use factoryfleet.Wire.{telemetry_topic, telemetry_batch}

-- The rows of one store with the counter of drops of another.
abbrev pub unkept : Store → Store → Store
unkept before done = record before { dropped_entries = done.dropped_entries }

enforce_cap-attributes :
    (s : Store)
    → ((enforce_cap s).max_outbox_entries ≡ s.max_outbox_entries)
      × (n : ℕ) × ((enforce_cap s).dropped_entries ≡ s.dropped_entries + n)
unfolding enforce_cap
enforce_cap-attributes s = elim (Bool-cases (leb (pending_count s) s.max_outbox_entries)) [
  | inl within ↦ rw within (refl, 0, omega arith)
  | inr over ↦ rw over (refl, _, refl)
]

record_all-attributes :
    (readings : List Reading) (s : Store)
    → ((record_all readings s).max_outbox_entries ≡ s.max_outbox_entries)
      × ((record_all readings s).dropped_entries ≡ s.dropped_entries)
unfolding record_all record_reading
record_all-attributes [] s = (refl, refl)
record_all-attributes (r ∷ rs) s = record_all-attributes rs (record_reading r s)

module _ (now : Datetime) (topic : String) (payload : Fields) (readings : List Reading)
    (s : Store) where
  enqueue-cap :
      (enqueue now topic payload (record_all readings s)).1.max_outbox_entries
      ≡ s.max_outbox_entries
  unfolding enqueue insert_outbox
  enqueue-cap =
      (enforce_cap-attributes (insert_outbox now topic payload (record_all readings s))).0
      ∙ (record_all-attributes readings s).0

  -- A cycle counts some number of drops.
  pub enqueue-counts :
      (n : ℕ) × ((enqueue now topic payload (record_all readings s)).1.dropped_entries
        ≡ s.dropped_entries + n)
  unfolding enqueue insert_outbox
  enqueue-counts =
      let (_, n, counted) =
        enforce_cap-attributes (insert_outbox now topic payload (record_all readings s)) in
      (n, counted ∙ ap (λ k. k + n) (record_all-attributes readings s).1)

-- A rollback after the drops were counted.
taken_back :
    (before done : Store)
    → done.max_outbox_entries ≡ before.max_outbox_entries
    → record done { database = before.database } ≡ unkept before done
taken_back before done cap = rw cap refl

-- A body either returns, having done all of `done`, or raises, and then the object's own attributes
-- are what they were.
abbrev WritesAll : Store → Store → Outcome (Unit {0}) × Store → Type 0
WritesAll before done (returned _, s) = s ≡ done
WritesAll before done (raised _, s) =
    (s.max_outbox_entries ≡ before.max_outbox_entries)
    × (s.dropped_entries ≡ before.dropped_entries)

module _ (fails : ℕ → Bool) (now : Datetime) (topic : String) (payload : Fields) where
  write_batch-WritesAll :
      (n : ℕ) (s : Store)
      → WritesAll s (enqueue now topic payload s).1 (write_batch fails n now topic payload s)
  unfolding write_batch insert_outbox
  write_batch-WritesAll n s = elim (Bool-cases (fails n)) [
    | inl first ↦ rw first (refl, refl)
    | inr none_yet ↦ elim (Bool-cases (fails (n + 1))) [
      | inl second ↦ rw (none_yet, second) (refl, refl)
      | inr never ↦ rw (none_yet, never) refl
    ]
  ]

  write_cycle-WritesAll :
      (n : ℕ) (readings : List Reading) (s : Store)
      → WritesAll s
          (enqueue now topic payload (record_all readings s)).1
          (write_cycle fails n readings now topic payload s)
  unfolding write_cycle record_all
  write_cycle-WritesAll n [] s = write_batch-WritesAll n s
  write_cycle-WritesAll n (r ∷ rs) s = elim (Bool-cases (fails n)) [
    | inl failed ↦ rw failed (refl, refl)
    | inr fine ↦ rw fine (write_cycle-WritesAll (suc n) rs (record_reading r s))
  ]

module _ (fails : ℕ → Bool) (now : Datetime) (topic : String) (payload : Fields) where
  write_cycle-never :
      (readings : List Reading)
      → ((n : ℕ) → fails n ≡ false)
      → (n : ℕ) (s : Store)
      → write_cycle fails n readings now topic payload s
        ≡ (returned tt, (enqueue now topic payload (record_all readings s)).1)
  unfolding write_cycle write_batch record_all
  write_cycle-never [] never n s = rw (never n, never (n + 1))
  write_cycle-never (r ∷ rs) never n s =
      rw (never n) (write_cycle-never rs never (suc n) (record_reading r s))

  restored :
      (before : Store) (commit_fails : Bool) (e : String) (t : Store)
      → t.max_outbox_entries ≡ before.max_outbox_entries
      → t.dropped_entries ≡ before.dropped_entries
      → settle {A = Unit {0}} before.database commit_fails (raised e, t) ≡ (raised e, before)
  unfolding settle
  restored before commit_fails e t cap dropped = ground arith

  -- How a cycle's transaction ends: with every write kept; with the whole store as it was; or, where
  -- COMMIT fails, with the rows as they were and the drops counted.
  Settles : List Reading → Store → Bool → Outcome (Unit {0}) × Store → Type 0
  Settles readings s commit_fails out =
      let done = (enqueue now topic payload (record_all readings s)).1 in
      ((commit_fails ≡ false) × (out ≡ (returned tt, done)))
      ⊎ (((e : String) × (out ≡ (raised e, s)))
          ⊎ ((commit_fails ≡ true) × (out ≡ (raised operational_error, unkept s done))))

  settle-Settles :
      (readings : List Reading) (s : Store) (commit_fails : Bool) (out : Outcome (Unit {0}) × Store)
      → WritesAll s (enqueue now topic payload (record_all readings s)).1 out
      → Settles readings s commit_fails (settle s.database commit_fails out)
  unfolding settle Settles
  settle-Settles readings s commit_fails (returned tt, t) same = elim (Bool-cases commit_fails) [
    | inr kept ↦ rw (kept, same) (inl (refl, refl))
    | inl lost ↦
        rw (lost, same)
          (inr (
            inr (
              refl,
              ap (λ u. (raised operational_error, u))
                  (taken_back s (enqueue now topic payload (record_all readings s)).1
                    (enqueue-cap now topic payload readings s)),
            )))
  ]
  settle-Settles readings s commit_fails (raised e, t) (cap, dropped) =
      inr (inl (e, restored s commit_fails e t cap dropped))

  transaction-Settles :
      (readings : List Reading) (n : ℕ) (begin_fails commit_fails : Bool) (s : Store)
      → Settles readings s commit_fails
          (transaction begin_fails commit_fails (write_cycle fails n readings now topic payload) s)
  unfolding transaction Settles
  transaction-Settles readings n begin_fails commit_fails s = elim (Bool-cases begin_fails) [
    | inl failed ↦ rw failed (inr (inl (operational_error, refl)))
    | inr begun ↦ rw begun (
        settle-Settles readings s commit_fails _
          (write_cycle-WritesAll fails now topic payload n readings s))
  ]

-- What a cycle that succeeds leaves behind.
abbrev pub sampled : Datetime → Datetime → List Reading → Runner → Runner
sampled batched_at now readings r = record r {
  store =
      (enqueue now (telemetry_topic r.identity) (telemetry_batch r.identity readings batched_at)
        (record_all readings r.store)).1;
  cycles = r.cycles + 1;
}

-- What a cycle leaves whose COMMIT fails: the counter of drops has counted what the cap would have
-- dropped, and all else is as it was.
abbrev pub miscounted : Datetime → Datetime → List Reading → Runner → Runner
miscounted batched_at now readings r = record r {
  store = unkept r.store (sampled batched_at now readings r).store;
}

-- Whatever statements of its transaction fail, BEGIN and COMMIT included, a sampling cycle over some
-- readings does one of three things. It returns them, with every state recorded, one batch of all of
-- them queued and the cycle counted, and then COMMIT did not fail. Or it raises and leaves the
-- runner and its store exactly as they were. Or COMMIT failed: it raises `OperationalError`, and
-- every row, the last id and the cycles are as they were, but the counter of drops has counted the
-- drops of the cycle.
pub sample_once_atomic :
    (fails : ℕ → Bool) (batched_at now : Datetime) (x : Reading) (xs : List Reading) (r : Runner)
    → ((fails (commit_of (x ∷ xs)) ≡ false)
        × (sample_once fails batched_at now (x ∷ xs) r
            ≡ (returned (x ∷ xs), sampled batched_at now (x ∷ xs) r)))
      ⊎ (((e : String) × (sample_once fails batched_at now (x ∷ xs) r ≡ (raised e, r)))
          ⊎ ((fails (commit_of (x ∷ xs)) ≡ true)
              × (sample_once fails batched_at now (x ∷ xs) r
                  ≡ (raised operational_error, miscounted batched_at now (x ∷ xs) r))))
unfolding sample_once Settles
sample_once_atomic fails batched_at now x xs r =
    elim (transaction-Settles fails now (telemetry_topic r.identity)
      (telemetry_batch r.identity (x ∷ xs) batched_at) (x ∷ xs) 1 (fails 0)
      (fails (commit_of (x ∷ xs))) r.store) [
        | inl (kept, done) ↦ inl (kept, rw done refl)
        | inr (inl (e, undone)) ↦ inr (inl (e, rw undone refl))
        | inr (inr (lost, undone)) ↦ inr (inr (lost, rw undone refl))
      ]

-- If no statement fails, the cycle succeeds, also where every reading is an error.
pub sample_once_succeeds :
    (fails : ℕ → Bool) (batched_at now : Datetime) (x : Reading) (xs : List Reading) (r : Runner)
    → ((n : ℕ) → fails n ≡ false)
    → sample_once fails batched_at now (x ∷ xs) r
      ≡ (returned (x ∷ xs), sampled batched_at now (x ∷ xs) r)
unfolding sample_once transaction settle
sample_once_succeeds fails batched_at now x xs r never = rw (
  never 0,
  never (commit_of (x ∷ xs)),
  write_cycle-never fails now (telemetry_topic r.identity)
      (telemetry_batch r.identity (x ∷ xs) batched_at) (x ∷ xs) never 1 r.store,
)
