-- ===== src/Store/Queue.antt =====
-- The outbox as a bounded queue: what the methods of agent/factoryfleet_agent/store.py do to the
-- unpublished rows, and the invariant that they keep.
use native.Mathlib.Nat.{add-zero}
use factoryfleet.Base.{
  sym, leb→le, not-leb→lt, ℕ, ◌+◌, ◌-◌, ◌≤◌, ◌≡◌, refl, String, true, false, Option, none, some,
  List, arith, leb, length, drop, filter, All, Bool-cases, inl, inr,
}
use factoryfleet.Timeutil.{Datetime, IsDatetime, iso}
use factoryfleet.Store.Table.{OutboxRow, is_pending, is_published}
use factoryfleet.Store.Types.{Store}
use factoryfleet.Store.Outbox.{enforce_cap}
use factoryfleet.Store.Order.{
  Ascends, Ascends-delete_ids, select_pending_lem, delete_oldest, delete_oldest_lem, delete_ids-nil,
}

-- The rows owed to the broker, oldest first.
abbrev pub queue : Store → List OutboxRow
queue s = filter is_pending s.outbox

-- A text that the agent wrote.
abbrev pub IsStamp : String → Type 0
IsStamp text = (d : Datetime) × IsDatetime d × (text ≡ iso d)

abbrev pub IsStamp? : Option String → Type 0
IsStamp? none = Unit
IsStamp? (some text) = IsStamp text

abbrev pub IsStamped : OutboxRow → Type 0
IsStamped r = IsStamp r.created_at × IsStamp? r.published_at

pub record IsValid (s : Store) : Type 0 where
  pub ascends : Ascends 0 s.outbox s.sequence
  pub stamped : All IsStamped s.outbox
  pub bounded : length (queue s) ≤ s.max_outbox_entries

abbrev pub excess : Store → ℕ
excess s = length (queue s) - s.max_outbox_entries

abbrev pub trimmed : Store → ℕ → Store
trimmed s n = record s {
  database = record s.database { outbox = delete_oldest n s.outbox };
  dropped_entries = s.dropped_entries + n;
}

trimmed-zero : (s : Store) → trimmed s 0 ≡ s
trimmed-zero s = rw (delete_ids-nil s.outbox, add-zero s.dropped_entries)

pub enforce_cap_lem :
    (s : Store) → Ascends 0 s.outbox s.sequence → enforce_cap s ≡ trimmed s (excess s)
unfolding enforce_cap
enforce_cap_lem s a = elim (Bool-cases (leb (length (queue s)) s.max_outbox_entries)) [
  | inl fits ↦ rw fits (rw (none_over fits) (sym (trimmed-zero s)))
  | inr over ↦ rw (over, select_pending_lem (excess s) 0 s.outbox s.sequence a, removed over)
]
  where
    none_over : leb (length (queue s)) s.max_outbox_entries ≡ true → excess s ≡ 0
    none_over fits = omega (arith, leb→le _ _ fits)

    removed :
        leb (length (queue s)) s.max_outbox_entries ≡ false
        → length s.outbox - length (delete_oldest (excess s) s.outbox) ≡ excess s
    removed over =
        omega (arith, not-leb→lt _ _ over, (delete_oldest_lem (excess s) 0 s.outbox s.sequence a).2)

-- What `enforce_cap` leaves: the excess is gone from the front of the queue and is counted, and no
-- published row is touched.
pub record IsTrimmed (s t : Store) : Type 0 where
  pub queue_front : queue t ≡ drop (length (queue s) - s.max_outbox_entries) (queue s)
  pub published_kept : filter is_published t.outbox ≡ filter is_published s.outbox
  pub dropped_counted :
      t.dropped_entries ≡ s.dropped_entries + (length (queue s) - s.max_outbox_entries)
  pub sequence_kept : t.sequence ≡ s.sequence
  pub cap_kept : t.max_outbox_entries ≡ s.max_outbox_entries
  pub state_kept : t.asset_state ≡ s.asset_state
  pub ascends : Ascends 0 t.outbox t.sequence

pub enforce_cap-IsTrimmed :
    (s : Store) → Ascends 0 s.outbox s.sequence → IsTrimmed s (enforce_cap s)
enforce_cap-IsTrimmed s a = rw (enforce_cap_lem s a) (record {
  queue_front = (delete_oldest_lem (excess s) 0 s.outbox s.sequence a).0;
  published_kept = (delete_oldest_lem (excess s) 0 s.outbox s.sequence a).1;
  dropped_counted = refl;
  sequence_kept = refl;
  cap_kept = refl;
  state_kept = refl;
  ascends = Ascends-delete_ids _ 0 s.outbox s.sequence a;
})
