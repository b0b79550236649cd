-- ===== src/Store/Enqueue.antt =====
-- `Store.enqueue` of agent/factoryfleet_agent/store.py implements a bounded queue that forgets its
-- oldest entries and counts what it forgets.
use mathlib.Core.List.{append-nil}
use mathlib.Core.Path.{ap₂}
use factoryfleet.Base.{
  ◌+◌, ◌-◌, ◌≡◌, refl, ap, ◌∙◌, String, [], ◌∷◌, ◌++◌, arith, length, length-append, length-drop,
  drop, filter, filter-append, All, All-filter, All-append,
}
use factoryfleet.Json.{Fields}
use factoryfleet.Timeutil.{Datetime, IsDatetime}
use factoryfleet.Store.Table.{is_pending, is_published, delete_ids}
use factoryfleet.Store.Types.{Store}
use factoryfleet.Store.Outbox.{new_row, insert_outbox, enqueue}
use factoryfleet.Store.Order.{Ascends, Ascends-append}
use factoryfleet.Store.Queue.{
  queue, IsStamped, IsValid, enforce_cap_lem, IsTrimmed, enforce_cap-IsTrimmed,
}

module _ (now : Datetime) (topic : String) (payload : Fields) (s : Store) where
  abbrev pub inserted : Store
  inserted = insert_outbox now topic payload s

  pub queue-insert_outbox : queue inserted ≡ queue s ++ (new_row now topic payload s ∷ [])
  unfolding insert_outbox
  queue-insert_outbox = filter-append is_pending s.outbox (new_row now topic payload s ∷ [])

  pub length-insert_outbox : length (queue inserted) ≡ length (queue s) + 1
  length-insert_outbox =
      ap length queue-insert_outbox ∙ length-append (queue s) (new_row now topic payload s ∷ [])

  pub insert_outbox-Ascends :
      Ascends 0 s.outbox s.sequence → Ascends 0 inserted.outbox inserted.sequence
  unfolding insert_outbox
  insert_outbox-Ascends a =
      Ascends-append 0 s.outbox s.sequence (new_row now topic payload s) a (omega arith)

-- What a call of `enqueue` does, by the queue of unpublished rows before and after.
pub record Enqueues (now : Datetime) (topic : String) (payload : Fields) (s : Store) (t : Store)
    : Type 0 where
  pub bounded_queue :
      queue t
      ≡ drop
          (length (queue s) + 1 - s.max_outbox_entries)
          (queue s ++ (new_row now topic payload s ∷ []))
  pub dropped_counted :
      t.dropped_entries ≡ s.dropped_entries + (length (queue s) + 1 - s.max_outbox_entries)
  pub published_kept : filter is_published t.outbox ≡ filter is_published s.outbox
  pub sequence_grows : t.sequence ≡ s.sequence + 1
  pub cap_kept : t.max_outbox_entries ≡ s.max_outbox_entries
  pub state_kept : t.asset_state ≡ s.asset_state

module _ (now : Datetime) (topic : String) (payload : Fields) (s : Store) where
  published-insert_outbox :
      filter is_published (insert_outbox now topic payload s).outbox ≡ filter is_published s.outbox
  unfolding insert_outbox
  published-insert_outbox =
      filter-append is_published s.outbox (new_row now topic payload s ∷ []) ∙ append-nil _

  enqueue-trims :
      Ascends 0 s.outbox s.sequence
      → IsTrimmed (insert_outbox now topic payload s) (enqueue now topic payload s).1
  unfolding enqueue
  enqueue-trims a =
      enforce_cap-IsTrimmed (insert_outbox now topic payload s)
        (insert_outbox-Ascends now topic payload s a)

  rest-insert_outbox :
      let t = insert_outbox now topic payload s in
      (t.max_outbox_entries ≡ s.max_outbox_entries)
      × (t.dropped_entries ≡ s.dropped_entries)
      × (t.sequence ≡ s.sequence + 1)
      × (t.asset_state ≡ s.asset_state)
  unfolding insert_outbox
  rest-insert_outbox = (refl, refl, refl, refl)

  pub excess-insert_outbox :
      let t = insert_outbox now topic payload s in
      length (queue t) - t.max_outbox_entries ≡ length (queue s) + 1 - s.max_outbox_entries
  excess-insert_outbox = ap₂ ◌-◌ (length-insert_outbox now topic payload s) rest-insert_outbox.0

  -- Where the ids ascend, `enqueue` appends its row to the queue of unpublished rows and then drops
  -- from the front exactly what exceeds the cap; it counts what it drops, leaves the published rows
  -- and the sensor states alone, and returns the new row's id.
  pub enqueue-Enqueues :
      Ascends 0 s.outbox s.sequence
      → ((enqueue now topic payload s).0 ≡ s.sequence + 1)
        × Enqueues now topic payload s (enqueue now topic payload s).1
  enqueue-Enqueues a =
      let t = enqueue-trims a in
      let (cap, dropped, sequence, state) = rest-insert_outbox in
      (
        unfold enqueue in refl,
        record {
          bounded_queue =
              t.queue_front
              ∙ ap₂ drop excess-insert_outbox (queue-insert_outbox now topic payload s);
          dropped_counted = t.dropped_counted ∙ ap₂ ◌+◌ dropped excess-insert_outbox;
          published_kept = t.published_kept ∙ published-insert_outbox;
          sequence_grows = t.sequence_kept ∙ sequence;
          cap_kept = t.cap_kept ∙ cap;
          state_kept = t.state_kept ∙ state;
        },
      )

  pub insert_outbox-IsStamped :
      IsDatetime now
      → All IsStamped s.outbox
      → All IsStamped (insert_outbox now topic payload s).outbox
  unfolding insert_outbox
  insert_outbox-IsStamped v h =
      All-append IsStamped s.outbox (new_row now topic payload s ∷ []) h (((now, v, refl), tt), tt)

  enqueue-IsStamped :
      IsDatetime now
      → Ascends 0 s.outbox s.sequence
      → All IsStamped s.outbox
      → All IsStamped (enqueue now topic payload s).1.outbox
  unfolding enqueue delete_ids
  enqueue-IsStamped v ascends stamped =
      rw
        (enforce_cap_lem (insert_outbox now topic payload s)
          (insert_outbox-Ascends now topic payload s ascends))
        (All-filter IsStamped _ _ (insert_outbox-IsStamped v stamped))

  -- `enqueue` brings the queue of unpublished rows within the cap, also where it was not before, if the
  -- ids ascend and the stamps are readable.
  pub enqueue-restores :
      IsDatetime now
      → Ascends 0 s.outbox s.sequence
      → All IsStamped s.outbox
      → IsValid (enqueue now topic payload s).1
  enqueue-restores v ascends stamped =
      let (_, e) = enqueue-Enqueues ascends in
      record {
        ascends = (enqueue-trims ascends).ascends;
        stamped = enqueue-IsStamped v ascends stamped;
        bounded = omega (
          arith,
          ap length e.bounded_queue,
          e.cap_kept,
          length-drop (length (queue s) + 1 - s.max_outbox_entries)
              (queue s ++ (new_row now topic payload s ∷ [])),
          length-append (queue s) (new_row now topic payload s ∷ []),
        );
      }

  -- `enqueue` keeps the invariant: the ids ascend, the stamps are readable, and the queue of
  -- unpublished rows is within the cap.
  pub enqueue-IsValid : IsDatetime now → IsValid s → IsValid (enqueue now topic payload s).1
  enqueue-IsValid v h = enqueue-restores v h.ascends h.stamped
