-- ===== src/Store/Confirm.antt =====
-- `Store.mark_published` and `Store.pending` of agent/factoryfleet_agent/store.py.
use factoryfleet.Base.{
  String, All-filter, All-take, lt→not-leb, ℕ, zero, suc, ◌+◌, ◌≡◌, refl, sym, ap, ◌∙◌, some, List,
  [], ◌∷◌, map, arith, length, take, filter, All, Bool-cases, inl, inr,
}
use factoryfleet.Timeutil.{Datetime, IsDatetime, iso, parse_iso}
use factoryfleet.Timeutil.RoundTrip.{to_millisecond, parse_iso-iso}
use factoryfleet.Store.Table.{OutboxRow, is_pending, ids_of, select_pending, delete_ids}
use factoryfleet.Store.Types.{Store, OutboxEntry}
use factoryfleet.Store.Outbox.{to_entry, to_entries, pending, is_marked, mark_row, mark_published}
use factoryfleet.Store.Order.{Ascends-map, select_pending_lem, delete_ids-nil}
use factoryfleet.Store.Queue.{queue, IsStamp, IsStamped, IsValid}

module _ (stamp : String) (ids : List ℕ) where
  queue-mark :
      (rows : List OutboxRow)
      → filter is_pending (map (mark_row stamp ids) rows) ≡ delete_ids ids (filter is_pending rows)
  unfolding delete_ids
  queue-mark [] = refl
  queue-mark (r ∷ rows) = ground (arith, queue-mark rows)

  count-mark :
      (rows : List OutboxRow)
      → length (filter (is_marked ids) rows)
          + length (filter is_pending (map (mark_row stamp ids) rows))
        ≡ length (filter is_pending rows)
  count-mark [] = omega arith
  count-mark (r ∷ rows) = ground (arith, count-mark rows)

  ids_of-mark : (rows : List OutboxRow) → ids_of (map (mark_row stamp ids) rows) ≡ ids_of rows
  ids_of-mark [] = refl
  ids_of-mark (r ∷ rows) = ground (arith, ids_of-mark rows)

  IsStamped-mark :
      IsStamp stamp
      → (rows : List OutboxRow) → All IsStamped rows
      → All IsStamped (map (mark_row stamp ids) rows)
  IsStamped-mark v [] h = tt
  IsStamped-mark v (r ∷ rows) h = elim (Bool-cases (is_marked ids r)) [
    | inl marked ↦ rw marked ((h.0.0, v), IsStamped-mark v rows h.1)
    | inr kept ↦ rw kept (h.0, IsStamped-mark v rows h.1)
  ]

  mark_row-id : (r : OutboxRow) → (mark_row stamp ids r).id ≡ r.id
  mark_row-id r = ground arith

-- What a call of `mark_published` does.
pub record Confirms (ids : List ℕ) (s : Store) (count : ℕ) (t : Store) : Type 0 where
  pub queue_left : queue t ≡ delete_ids ids (queue s)
  pub counted : count + length (queue t) ≡ length (queue s)
  pub rows_kept : ids_of t.outbox ≡ ids_of s.outbox
  pub sequence_kept : t.sequence ≡ s.sequence
  pub dropped_kept : t.dropped_entries ≡ s.dropped_entries
  pub cap_kept : t.max_outbox_entries ≡ s.max_outbox_entries
  pub state_kept : t.asset_state ≡ s.asset_state

-- Confirming takes exactly the named ids out of the queue of unpublished rows, returns how many
-- left it, and deletes no row.
pub mark_published-Confirms :
    (now : Datetime) (ids : List ℕ) (s : Store)
    → Confirms ids s (mark_published now ids s).0 (mark_published now ids s).1
unfolding mark_published
mark_published-Confirms now [] s = record {
  queue_left = sym (delete_ids-nil (queue s));
  counted = omega arith;
  rows_kept = refl;
  sequence_kept = refl;
  dropped_kept = refl;
  cap_kept = refl;
  state_kept = refl;
}
mark_published-Confirms now (i ∷ rest) s = record {
  queue_left = queue-mark (iso now) (i ∷ rest) s.outbox;
  counted = count-mark (iso now) (i ∷ rest) s.outbox;
  rows_kept = ids_of-mark (iso now) (i ∷ rest) s.outbox;
  sequence_kept = refl;
  dropped_kept = refl;
  cap_kept = refl;
  state_kept = refl;
}

-- `mark_published` keeps the invariant.
pub mark_published-IsValid :
    (now : Datetime) (ids : List ℕ) (s : Store)
    → IsDatetime now
    → IsValid s
    → IsValid (mark_published now ids s).1
unfolding mark_published
mark_published-IsValid now [] s v h = h
mark_published-IsValid now (i ∷ rest) s v h = record {
  ascends =
      Ascends-map (mark_row (iso now) (i ∷ rest)) (mark_row-id (iso now) (i ∷ rest)) 0 s.outbox
        s.sequence h.ascends;
  stamped = IsStamped-mark (iso now) (i ∷ rest) (now, v, refl) s.outbox h.stamped;
  bounded = omega (arith, count-mark (iso now) (i ∷ rest) s.outbox, h.bounded);
}

-- An entry is the row's id, topic and payload, with the instant that the row's stamp denotes.
abbrev pub IsEntryOf : OutboxEntry → OutboxRow → Type 0
IsEntryOf e r =
    (e.id ≡ r.id)
    × (e.topic ≡ r.topic)
    × (e.payload ≡ r.payload_json)
    × (parse_iso r.created_at ≡ some e.created_at)

abbrev pub AreEntriesOf : List OutboxEntry → List OutboxRow → Type 0
AreEntriesOf [] [] = Unit
AreEntriesOf [] (r ∷ rows) = ⊥
AreEntriesOf (e ∷ es) [] = ⊥
AreEntriesOf (e ∷ es) (r ∷ rows) = IsEntryOf e r × AreEntriesOf es rows

to_entries_total :
    (rows : List OutboxRow)
    → All IsStamped rows
    → (es : List OutboxEntry) × (to_entries rows ≡ some es) × AreEntriesOf es rows
unfolding to_entries to_entry
to_entries_total [] h = ([], refl, tt)
to_entries_total (r ∷ rows) h =
    let (es, found, fit) = to_entries_total rows h.1 in
    let (d, v, e) = h.0.0 in
    let read = ap parse_iso e ∙ parse_iso-iso d v in
    (
      record { id = r.id; topic = r.topic; payload = r.payload_json; created_at = to_millisecond d }
          ∷ es,
      rw (read, found),
      ((refl, refl, refl, read), fit),
    )

-- `pending` never raises on a valid store: it returns the first `limit` unpublished rows, oldest
-- first, each as its entry.
pub pending_total :
    (limit : ℕ) (s : Store)
    → IsValid s
    → (es : List OutboxEntry) × (pending limit s ≡ some es) × AreEntriesOf es (take limit (queue s))
unfolding pending
pending_total zero s h = ([], refl, tt)
pending_total (suc n) s h =
    let rows = select_pending (suc n) s.outbox in
    rw
      (
        lt→not-leb (suc n) 0 (omega arith),
        ← select_pending_lem (suc n) 0 s.outbox s.sequence h.ascends,
      )
      (to_entries_total rows selected)
  where
    selected : All IsStamped (select_pending (suc n) s.outbox)
    selected =
        rw (select_pending_lem (suc n) 0 s.outbox s.sequence h.ascends)
          (All-take IsStamped (suc n) _ (All-filter IsStamped is_pending s.outbox h.stamped))
