-- ===== src/Store/History.antt =====
-- Any sequence of the operations of agent/factoryfleet_agent/store.py on a store, the restarts of the
-- process among them.
use mathlib.Core.Path.{subst}
use factoryfleet.Base.{
  false, true, some-injective, ℕ, ◌≤◌, ◌≡◌, sym, ap, refl, ◌∙◌, String, some, List, [], ◌∷◌, map,
  take, arith,
}
use factoryfleet.Json.{Fields}
use factoryfleet.Sensors.Reading.{Reading}
use factoryfleet.Store.AssetState.{record_reading, record_all, latest, latest_for}
use factoryfleet.Store.Confirm.{
  AreEntriesOf, pending_total, mark_published-Confirms, mark_published-IsValid,
}
use factoryfleet.Store.Enqueue.{enqueue-Enqueues, enqueue-IsValid}
use factoryfleet.Store.Outbox.{enqueue, pending, mark_published, prune_published}
use factoryfleet.Store.Prune.{prune_published_total}
use factoryfleet.Store.Queue.{queue, IsValid}
use factoryfleet.Store.Snapshot.{
  IsSnapshot, record_all-IsSnapshot, Ascending, find_stored, latest_total,
}
use factoryfleet.Store.Types.{
  Store, OutboxEntry, StoredState, Outcome, returned, raised, new_store, reopen, settle,
  transaction,
}
use factoryfleet.Timeutil.{Datetime, IsDatetime}

-- One call that changes the store, under a clock that gives datetimes.
pub data Operation (s t : Store) : Type 0 where
  enqueues :
      (now : Datetime) (topic : String) (payload : Fields)
      → IsDatetime now
      → t ≡ (enqueue now topic payload s).1
      → Operation s t
  marks :
      (now : Datetime) (ids : List ℕ)
      → IsDatetime now
      → t ≡ (mark_published now ids s).1
      → Operation s t
  prunes :
      (now : Datetime) (retain count : ℕ)
      → prune_published now retain s ≡ some (count, t)
      → Operation s t
  records : (r : Reading) → IsDatetime r.captured_at → t ≡ record_reading r s → Operation s t
  -- a transaction whose body raised, whatever it had written by then
  rolls_back :
      (body : Store → Outcome (Unit {0}) × Store) (e : String) (u : Store)
      → body s ≡ (raised e, u)
      → u.max_outbox_entries ≡ s.max_outbox_entries
      → t ≡ (transaction false false body s).1
      → Operation s t
  -- a transaction whose body returned, and whose COMMIT raised
  loses_commit :
      (body : Store → Outcome (Unit {0}) × Store) (u : Store)
      → body s ≡ (returned tt, u)
      → u.max_outbox_entries ≡ s.max_outbox_entries
      → t ≡ (transaction false true body s).1
      → Operation s t
  -- a new process, with no smaller cap
  reopens : (cap : ℕ) → s.max_outbox_entries ≤ cap → t ≡ reopen cap s.database → Operation s t

pub data History (s : Store) : Store → Type 0 where
  here : History s s
  next : {t u : Store} → History s t → Operation t u → History s u

-- Both tables are as the code's own reading of them needs.
pub record IsSoundStore (s : Store) : Type 0 where
  pub valid : IsValid s
  pub snapshot : IsSnapshot s

-- A store with the same states.
IsSnapshot-kept : (s t : Store) → t.asset_state ≡ s.asset_state → IsSnapshot s → IsSnapshot t
IsSnapshot-kept s t kept h = record { distinct = rw kept h.distinct; written = rw kept h.written }

Operation-keeps : {s t : Store} → Operation s t → IsSoundStore s → IsSoundStore t
unfolding transaction settle reopen record_reading record_all
Operation-keeps {s} {t} (Operation.enqueues now topic payload v e) h =
    let (_, q) = enqueue-Enqueues now topic payload s h.valid.ascends in
    subst IsSoundStore (sym e) (record {
      valid = enqueue-IsValid now topic payload s v h.valid;
      snapshot = IsSnapshot-kept s _ q.state_kept h.snapshot;
    })
Operation-keeps {s} {t} (Operation.marks now ids v e) h = subst IsSoundStore (sym e) (record {
  valid = mark_published-IsValid now ids s v h.valid;
  snapshot = IsSnapshot-kept s _ (mark_published-Confirms now ids s).state_kept h.snapshot;
})
Operation-keeps {s} {t} (Operation.prunes now retain count done) h =
    let (_, u, fine, p, valid) = prune_published_total now retain s h.valid in
    subst IsSoundStore (ap (λ x. x.1) (some-injective _ _ (sym fine ∙ done)))
      (record { valid = valid; snapshot = IsSnapshot-kept s u p.state_kept h.snapshot })
Operation-keeps {s} {t} (Operation.records r v e) h = subst IsSoundStore (sym e) (record {
  valid = record {
    ascends = h.valid.ascends;
    stamped = h.valid.stamped;
    bounded = h.valid.bounded;
  };
  snapshot = record_all-IsSnapshot (r ∷ []) s (v, tt) h.snapshot;
})
Operation-keeps {s} {t} (Operation.rolls_back body e u raises cap same) h =
    subst IsSoundStore (sym (same ∙ ap (λ out. (settle s.database false out).1) raises)) (record {
      valid = record {
        ascends = h.valid.ascends;
        stamped = h.valid.stamped;
        bounded = rw cap h.valid.bounded;
      };
      snapshot = IsSnapshot-kept s _ refl h.snapshot;
    })
Operation-keeps {s} {t} (Operation.loses_commit body u returns cap same) h =
    subst IsSoundStore (sym (same ∙ ap (λ out. (settle s.database true out).1) returns)) (record {
      valid = record {
        ascends = h.valid.ascends;
        stamped = h.valid.stamped;
        bounded = rw cap h.valid.bounded;
      };
      snapshot = IsSnapshot-kept s _ refl h.snapshot;
    })
Operation-keeps {s} {t} (Operation.reopens cap bigger e) h = subst IsSoundStore (sym e) (record {
  valid = record {
    ascends = h.valid.ascends;
    stamped = h.valid.stamped;
    bounded = omega (arith, h.valid.bounded, bigger);
  };
  snapshot = IsSnapshot-kept s _ refl h.snapshot;
})

History-IsSoundStore : (cap : ℕ) {t : Store} → History (new_store cap) t → IsSoundStore t
History-IsSoundStore cap here = record {
  valid = omega arith;
  snapshot = record { distinct = tt; written = tt };
}
History-IsSoundStore cap (next history operation) =
    Operation-keeps operation (History-IsSoundStore cap history)

-- After any sequence of operations on a new store, calls that rolled back, failed COMMITs and restarts with no smaller
-- cap among them: the ids of the outbox ascend and stay at most the last one given, the unpublished
-- rows are within the cap, and no text that the store has to read back is refused: `pending` returns
-- the oldest unpublished rows, `latest` one state of each sensor in the ascending order of their ids,
-- which is what `latest_for` returns of each, and `prune_published` returns.
pub History-reads :
    (cap : ℕ) {t : Store} (limit : ℕ) (now : Datetime) (retain : ℕ)
    → History (new_store cap) t
    → IsValid t
      × ((es : List OutboxEntry) × (pending limit t ≡ some es)
          × AreEntriesOf es (take limit (queue t)))
      × ((states : List StoredState) × (latest t ≡ some states)
          × Ascending (map (λ q. q.sensor_id) states)
          × ((k : String) → latest_for k t ≡ some (find_stored k states)))
      × ((count : ℕ) × (u : Store) × (prune_published now retain t ≡ some (count, u)))
unfolding record_all
History-reads cap {t} limit now retain history =
    let h = History-IsSoundStore cap history in
    let (states, read, rises, found, _) = latest_total [] t tt h.snapshot in
    let (count, u, done, _, _) = prune_published_total now retain t h.valid in
    (h.valid, pending_total limit t h.valid, (states, read, rises, found), (count, u, done))
