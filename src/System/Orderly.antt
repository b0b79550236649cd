-- ===== src/System/Orderly.antt =====
-- What keeps the messages in the order of their ids, and the publisher's own steps, which keep it.
use mathlib.Core.Path.{subst}
use factoryfleet.Base.{
  some-injective, ℕ, suc, ◌≤◌, ◌≡◌, sym, ap, ◌∙◌, true, Option, none, some, List, [], ◌∷◌, ◌++◌,
  arith, take, contains, All, ◌==◌, ==_iff, Bool-cases, inl, inr, ◌⊎◌,
}
use factoryfleet.Store.Confirm.{pending_total}
use factoryfleet.Store.Order.{Ascends, Ascends-filter}
use factoryfleet.Store.Outbox.{pending}
use factoryfleet.Store.Queue.{queue, IsValid}
use factoryfleet.Store.Table.{OutboxRow, is_pending, ids_of}
use factoryfleet.Store.Types.{OutboxEntry}
use factoryfleet.System.Order.{
  entry_ids, Climbs, newest, IsInOrder, Climbs-low, Climbs-contains, Climbs-front, ids-AreEntriesOf,
  All-mono, All-both, IsPlaced, All-IsPlaced, Ascends-take,
}
use factoryfleet.System.{System, message}
use factoryfleet.Timeutil.{Datetime}
use factoryfleet.Transport.Broker.{BrokerClient}

-- Where a waiting row stands: not before what was confirmed; and in flight, above all that is, or
-- about to be marked.
abbrev pub Waits : List ℕ → List ℕ → Option ℕ → OutboxRow → Type 0
Waits confirmed flight unmarked r =
    (newest confirmed ≤ r.id) × (IsPlaced flight r.id ⊎ (unmarked ≡ some r.id))

pub record IsOrderly {C : BrokerClient} (s : System C) : Type 0 where
  pub in_order : IsInOrder s.confirmed
  pub confirmed_given : newest s.confirmed ≤ s.store.sequence
  pub flight_climbs : Climbs (newest s.confirmed) (entry_ids s.in_flight)
  pub flight_given : All (λ i. i ≤ s.store.sequence) (entry_ids s.in_flight)
  pub waiting : All (Waits s.confirmed (entry_ids s.in_flight) s.unmarked) (queue s.store)

module _ {C : BrokerClient} (s : System C) (h : IsOrderly s) (v : IsValid s.store) where
  -- What a fetch puts in flight: the front of the queue.
  fetched :
      (limit : ℕ) (entries : List OutboxEntry)
      → s.unmarked ≡ none
      → entry_ids entries ≡ ids_of (take limit (queue s.store))
      → IsOrderly (record s { in_flight = entries })
  fetched limit entries idle e =
      let ascends : Ascends 0 (queue s.store) s.store.sequence =
        Ascends-filter is_pending 0 s.store.outbox s.store.sequence v.ascends in
      record {
        in_order = h.in_order;
        confirmed_given = h.confirmed_given;
        flight_climbs = rw e (
            Climbs-front limit (newest s.confirmed) 0 (queue s.store) s.store.sequence ascends
              (All-mono (queue s.store) (λ r w. w.0) h.waiting));
        flight_given = rw e (Ascends-take limit 0 (queue s.store) s.store.sequence ascends);
        waiting = rw e (
            All-both (queue s.store) (λ r w p. (w.0, inl p)) h.waiting
              (All-IsPlaced limit 0 (queue s.store) s.store.sequence ascends));
      }

  pub fetch-IsOrderly :
      (limit : ℕ) (entries : List OutboxEntry)
      → s.unmarked ≡ none
      → pending limit s.store ≡ some entries
      → IsOrderly (record s { in_flight = entries })
  fetch-IsOrderly limit entries idle found =
      let (es, done, fit) = pending_total limit s.store v in
      let same : es ≡ entries = some-injective _ _ (sym done ∙ found) in
      fetched limit entries idle (ap entry_ids (sym same) ∙ ids-AreEntriesOf es _ fit)

  -- A waiting row when the entry with id `i` is confirmed, which was the first in flight.
  confirmed-Waits :
      (i : ℕ) (flight : List ℕ)
      → s.unmarked ≡ none
      → Climbs (suc i) flight
      → (r : OutboxRow) → Waits s.confirmed (i ∷ flight) s.unmarked r
      → Waits (i ∷ s.confirmed) flight (some i) r
  confirmed-Waits i flight idle climbs r (low, inr marked) = absurd (ground (arith, idle, marked))
  confirmed-Waits i flight idle climbs r (low, inl (inr beyond)) =
      (omega (arith, beyond.0), inl (inr beyond.1))
  confirmed-Waits i flight idle climbs r (low, inl (inl there)) = elim (Bool-cases (r.id == i)) [
    | inl same ↦
        let e : r.id ≡ i = (==_iff r.id i).0 same in (omega (arith, e), inr (ap some (sym e)))
    | inr other ↦
        let later : contains r.id flight ≡ true = ground (arith, there, other) in
        (omega (arith, Climbs-contains (suc i) r.id flight climbs later), inl (inl later))
  ]

  pub confirm-IsOrderly :
      (now : Datetime) (entry : OutboxEntry) (rest : List OutboxEntry) (client : C.State)
      → s.unmarked ≡ none
      → s.in_flight ≡ entry ∷ rest
      → IsOrderly (record s {
        client = client;
        in_flight = rest;
        unmarked = some entry.id;
        confirmed = entry.id ∷ s.confirmed;
        delivered = s.delivered ++ (message entry now ∷ []);
      })
  confirm-IsOrderly now entry rest client idle head =
      let climbs : Climbs (newest s.confirmed) (entry_ids (entry ∷ rest)) =
        subst (λ es. Climbs (newest s.confirmed) (entry_ids es)) head h.flight_climbs in
      let given : All (λ i. i ≤ s.store.sequence) (entry_ids (entry ∷ rest)) =
        subst (λ es. All (λ i. i ≤ s.store.sequence) (entry_ids es)) head h.flight_given in
      let waiting : All (Waits s.confirmed (entry_ids (entry ∷ rest)) s.unmarked) (queue s.store) =
        subst (λ es. All (Waits s.confirmed (entry_ids es) s.unmarked) (queue s.store)) head
          h.waiting in
      record {
        in_order = (climbs.0, h.in_order);
        confirmed_given = given.0;
        flight_climbs = Climbs-low (suc entry.id) entry.id (entry_ids rest) (omega arith) climbs.1;
        flight_given = given.1;
        waiting =
            All-mono (queue s.store) (confirmed-Waits entry.id (entry_ids rest) idle climbs.1)
              waiting;
      }

  -- A step that leaves the store alone and has nothing more in flight, or the same.
  pub rests-IsOrderly :
      (client : C.State)
      → s.unmarked ≡ none
      → IsOrderly (record s { client = client; in_flight = [] })
  rests-IsOrderly client idle = record {
    in_order = h.in_order;
    confirmed_given = h.confirmed_given;
    flight_climbs = tt;
    flight_given = tt;
    waiting = All-mono (queue s.store) (λ r w. (w.0, inl (inr tt))) h.waiting;
  }

  pub network-IsOrderly : (client : C.State) → IsOrderly (record s { client = client })
  network-IsOrderly client = record {
    in_order = h.in_order;
    confirmed_given = h.confirmed_given;
    flight_climbs = h.flight_climbs;
    flight_given = h.flight_given;
    waiting = h.waiting;
  }
