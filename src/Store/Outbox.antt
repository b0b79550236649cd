-- ===== src/Store/Outbox.antt =====
-- The `outbox` table, from agent/factoryfleet_agent/store.py. A method that reads the clock takes
-- what the clock returned. `none` is the `ValueError` of a stored text that cannot be read back.
use factoryfleet.Base.{
  ℕ, ◌+◌, ◌-◌, String, ◌&&◌, Bool, Option, none, some, false, List, [], ◌∷◌, ◌++◌, map, leb, length,
  filter, contains, if◌then◌else◌, ◌>>=◌,
}
use factoryfleet.Json.{Fields}
use factoryfleet.Timeutil.{Datetime, iso, parse_iso, timestamp}
use factoryfleet.Store.Table.{OutboxRow, is_pending, select_pending, delete_ids, ids_of}
use factoryfleet.Store.Types.{Store, OutboxEntry}

unfoldable pub pending_count : Store → ℕ
pending_count s = length (filter is_pending s.outbox)

unfoldable pub outbox_size : Store → ℕ
outbox_size s = length s.outbox

-- `_enforce_cap`
unfoldable pub enforce_cap : Store → Store
unfolding pending_count
enforce_cap s =
    let pending = pending_count s in
    let excess = pending - s.max_outbox_entries in
    let kept = delete_ids (ids_of (select_pending excess s.outbox)) s.outbox in
    if leb pending s.max_outbox_entries then s else record s {
      database = record s.database { outbox = kept };
      dropped_entries = s.dropped_entries + (length s.outbox - length kept);
    }

-- The row that INSERT adds: AUTOINCREMENT gives an id above every id ever given.
unfoldable pub new_row : Datetime → String → Fields → Store → OutboxRow
new_row now topic payload s = record {
  id = s.sequence + 1;
  topic = topic;
  payload_json = payload;
  created_at = iso now;
  published_at = none;
}

unfoldable pub insert_outbox : Datetime → String → Fields → Store → Store
unfolding new_row
insert_outbox now topic payload s = record s {
  database = record s.database {
    outbox = s.outbox ++ (new_row now topic payload s ∷ []);
    sequence = s.sequence + 1;
  };
}

-- Returns `cursor.lastrowid`.
unfoldable pub enqueue : Datetime → String → Fields → Store → ℕ × Store
enqueue now topic payload s = (s.sequence + 1, enforce_cap (insert_outbox now topic payload s))

unfoldable pub to_entry : OutboxRow → Option OutboxEntry
to_entry row = do
  at ← parse_iso row.created_at
  some (record { id = row.id; topic = row.topic; payload = row.payload_json; created_at = at })

unfoldable pub to_entries : List OutboxRow → Option (List OutboxEntry)
to_entries [] = some []
to_entries (row ∷ rows) = do e ← to_entry row; es ← to_entries rows; some (e ∷ es)

unfoldable pub pending : ℕ → Store → Option (List OutboxEntry)
pending limit s = if leb limit 0 then some [] else to_entries (select_pending limit s.outbox)

-- `WHERE id IN (…) AND published_at IS NULL`
abbrev pub is_marked : List ℕ → OutboxRow → Bool
is_marked ids r = contains r.id ids && is_pending r

abbrev pub mark_row : String → List ℕ → OutboxRow → OutboxRow
mark_row stamp ids r = if is_marked ids r then record r { published_at = some stamp } else r

-- Returns `cursor.rowcount`.
unfoldable pub mark_published : Datetime → List ℕ → Store → ℕ × Store
mark_published now [] s = (0, s)
mark_published now (i ∷ rest) s =
    let ids = i ∷ rest in
    (
      length (filter (is_marked ids) s.outbox),
      record s { database = record s.database { outbox = map (mark_row (iso now) ids) s.outbox } },
    )

-- `parse_iso(published_at).timestamp() <= now - retain`, in microseconds, the retention moved over.
unfoldable pub is_stale : ℕ → ℕ → String → Option Bool
is_stale now retain stamp = do at ← parse_iso stamp; some (leb (timestamp at + retain) now)

abbrev pub is_row_stale : ℕ → ℕ → Option String → Option Bool
is_row_stale now retain none = some false
is_row_stale now retain (some stamp) = is_stale now retain stamp

-- The ids of the confirmed rows whose retention is over.
unfoldable pub stale_ids : ℕ → ℕ → List OutboxRow → Option (List ℕ)
stale_ids now retain [] = some []
stale_ids now retain (row ∷ rows) = do
  rest ← stale_ids now retain rows
  stale ← is_row_stale now retain row.published_at
  some (if stale then row.id ∷ rest else rest)

-- Returns `cursor.rowcount`; an error is raised before anything is written.
unfoldable pub prune_published : Datetime → ℕ → Store → Option (ℕ × Store)
prune_published now retain s = do
  stale ← stale_ids (timestamp now) retain s.outbox
  let kept = delete_ids stale s.outbox
  some (length s.outbox - length kept, record s { database = record s.database { outbox = kept } })
