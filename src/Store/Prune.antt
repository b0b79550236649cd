-- ===== src/Store/Prune.antt =====
-- `Store.prune_published` of agent/factoryfleet_agent/store.py.
use native.Mathlib.Nat.{le_refl}
use factoryfleet.Base.{
  ℕ, ◌+◌, ◌-◌, ◌≤◌, ◌≡◌, refl, ap, ◌∙◌, String, Bool, false, not, Option, none, some, List, [], ◌∷◌,
  arith, leb, length, length-filter-le, filter, All, All-filter, contains, Bool-cases, inl, inr,
}
use factoryfleet.Timeutil.{Datetime, IsDatetime, iso, parse_iso, timestamp}
use factoryfleet.Timeutil.RoundTrip.{to_millisecond, parse_iso-iso}
use factoryfleet.Store.Table.{OutboxRow, is_pending, ids_of, delete_ids}
use factoryfleet.Store.Types.{Store}
use factoryfleet.Store.Outbox.{is_stale, is_row_stale, stale_ids, prune_published}
use factoryfleet.Store.Order.{Ascends, Ascends-filter, delete_ids-head, delete_ids-keep}
use factoryfleet.Store.Queue.{queue, IsStamp?, IsStamped, IsValid}

abbrev is_past : ℕ → ℕ → Option Datetime → Bool
is_past now retain none = false
is_past now retain (some d) = leb (timestamp d + retain) now

abbrev is_past_stamp : ℕ → ℕ → Option String → Bool
is_past_stamp now retain none = false
is_past_stamp now retain (some stamp) = is_past now retain (parse_iso stamp)

-- A published row whose stamp is `retain` microseconds old.
abbrev pub is_over : ℕ → ℕ → OutboxRow → Bool
is_over now retain r = is_past_stamp now retain r.published_at

-- The stamp of a row that was confirmed at `d`.
is_stale-iso :
    (now retain : ℕ) (d : Datetime)
    → IsDatetime d
    → is_stale now retain (iso d) ≡ some (leb (timestamp (to_millisecond d) + retain) now)
unfolding is_stale
is_stale-iso now retain d v = rw (parse_iso-iso d v)

is_row_stale_total :
    (now retain : ℕ) (p : Option String)
    → IsStamp? p
    → is_row_stale now retain p ≡ some (is_past_stamp now retain p)
is_row_stale_total now retain none h = refl
is_row_stale_total now retain (some text) (d, v, e) =
    rw (e, is_stale-iso now retain d v, parse_iso-iso d v) refl

contains-filter :
    (p : OutboxRow → Bool) (i low : ℕ) (rows : List OutboxRow) (high : ℕ)
    → i ≤ low
    → Ascends low rows high
    → contains i (ids_of (filter p rows)) ≡ false
contains-filter p i low [] high h a = refl
contains-filter p i low (r ∷ rows) high h a =
    ground (arith, contains-filter p i r.id rows high (omega (arith, a.0)) a.1)

-- Deleting by the ids of the rows that a test picks deletes just those rows.
delete_ids-filter :
    (p : OutboxRow → Bool) (low : ℕ) (rows : List OutboxRow) (high : ℕ)
    → Ascends low rows high
    → delete_ids (ids_of (filter p rows)) rows ≡ filter (λ r. not (p r)) rows
delete_ids-filter p low [] high a = unfold delete_ids in refl
delete_ids-filter p low (r ∷ rows) high a = elim (Bool-cases (p r)) [
  | inl picked ↦ rw picked (
      delete_ids-head r (ids_of (filter p rows)) rows high a.1
      ∙ delete_ids-filter p r.id rows high a.1)
  | inr kept ↦ rw kept (
      delete_ids-keep r (ids_of (filter p rows)) rows
        (contains-filter p r.id r.id rows high (le_refl r.id) a.1)
      ∙ ap (λ l. r ∷ l) (delete_ids-filter p r.id rows high a.1))
]

stale_ids_total :
    (now retain : ℕ) (rows : List OutboxRow)
    → All IsStamped rows
    → stale_ids now retain rows ≡ some (ids_of (filter (is_over now retain) rows))
unfolding stale_ids
stale_ids_total now retain [] h = refl
stale_ids_total now retain (r ∷ rows) h =
    rw (stale_ids_total now retain rows h.1, is_row_stale_total now retain r.published_at h.0.1)
      (ground arith)

queue-keep :
    (now retain : ℕ) (rows : List OutboxRow)
    → filter is_pending (filter (λ r. not (is_over now retain r)) rows) ≡ filter is_pending rows
queue-keep now retain [] = refl
queue-keep now retain (r ∷ rows) = ground (arith, queue-keep now retain rows)

-- A row that was confirmed at `d` is over exactly when its retention has passed since `d`, cut to
-- the millisecond.
is_over_iff :
    (now : Datetime) (retain : ℕ) (r : OutboxRow) (d : Datetime)
    → IsDatetime d
    → r.published_at ≡ some (iso d)
    → is_over (timestamp now) retain r ≡ leb (timestamp (to_millisecond d) + retain) (timestamp now)
is_over_iff now retain r d v e = rw (e, parse_iso-iso d v)

-- What a successful call of `prune_published` does: the rows that were confirmed at a time whose
-- retention has passed are gone, and every other row is where it was.
pub record Prunes (now : Datetime) (retain : ℕ) (s : Store) (count : ℕ) (t : Store) : Type 0 where
  pub rows_left : t.outbox ≡ filter (λ r. not (is_over (timestamp now) retain r)) s.outbox
  pub confirmed_judged :
      (r : OutboxRow) (d : Datetime)
      → IsDatetime d
      → r.published_at ≡ some (iso d)
      → is_over (timestamp now) retain r
        ≡ leb (timestamp (to_millisecond d) + retain) (timestamp now)
  pub waiting_judged :
      (r : OutboxRow) → r.published_at ≡ none → is_over (timestamp now) retain r ≡ false
  pub queue_kept : queue t ≡ queue s
  pub counted : count + length t.outbox ≡ length s.outbox
  pub sequence_kept : t.sequence ≡ s.sequence
  pub dropped_kept : t.dropped_entries ≡ s.dropped_entries
  pub cap_kept : t.max_outbox_entries ≡ s.max_outbox_entries
  pub state_kept : t.asset_state ≡ s.asset_state

abbrev pruned : Datetime → ℕ → Store → Store
pruned now retain s = record s {
  database = record s.database {
    outbox = filter (λ r. not (is_over (timestamp now) retain r)) s.outbox;
  };
}

prune_published-eq :
    (now : Datetime) (retain : ℕ) (s : Store)
    → IsValid s
    → prune_published now retain s
      ≡ some (length s.outbox - length (pruned now retain s).outbox, pruned now retain s)
unfolding prune_published
prune_published-eq now retain s h = rw (
  stale_ids_total (timestamp now) retain s.outbox h.stamped,
  delete_ids-filter (is_over (timestamp now) retain) 0 s.outbox s.sequence h.ascends,
)

-- On a valid store pruning never raises. It deletes exactly the rows that were confirmed at least
-- `retain` microseconds ago, where the time of the confirmation counts to the millisecond, returns
-- their number, and keeps the queue and the invariant.
pub prune_published_total :
    (now : Datetime) (retain : ℕ) (s : Store)
    → IsValid s
    → (count : ℕ) × (t : Store) × (prune_published now retain s ≡ some (count, t))
      × Prunes now retain s count t
      × IsValid t
prune_published_total now retain s h = (
  length s.outbox - length (pruned now retain s).outbox,
  pruned now retain s,
  prune_published-eq now retain s h,
  record {
    rows_left = refl;
    confirmed_judged = λ r d v e. is_over_iff now retain r d v e;
    waiting_judged = λ r e. rw e refl;
    queue_kept = queue-keep (timestamp now) retain s.outbox;
    counted =
        omega (arith, length-filter-le (λ r. not (is_over (timestamp now) retain r)) s.outbox);
    sequence_kept = refl;
    dropped_kept = refl;
    cap_kept = refl;
    state_kept = refl;
  },
  record {
    ascends = Ascends-filter _ 0 s.outbox s.sequence h.ascends;
    stamped = All-filter IsStamped _ s.outbox h.stamped;
    bounded = rw (queue-keep (timestamp now) retain s.outbox) h.bounded;
  },
)
