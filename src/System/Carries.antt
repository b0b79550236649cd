-- ===== src/System/Carries.antt =====
-- What is queued is what is sent: a predicate on topics and payloads that every queued entry meets is
-- met by every waiting row, every entry in flight and every confirmed message.
use mathlib.Core.Path.{subst}
use factoryfleet.Base.{
  some-injective, ℕ, ◌+◌, ◌-◌, ◌≡◌, refl, sym, ap, ◌∙◌, some, List, [], ◌∷◌, length, take, All,
  All-append, All-take, String,
}
use factoryfleet.Json.{Fields}
use factoryfleet.Store.AssetState.{record_reading}
use factoryfleet.Store.Confirm.{AreEntriesOf, pending_total, mark_published-Confirms}
use factoryfleet.Store.Enqueue.{enqueue-Enqueues}
use factoryfleet.Store.Outbox.{new_row, enqueue, pending, mark_published, prune_published}
use factoryfleet.Store.Prune.{prune_published_total}
use factoryfleet.Store.Queue.{queue, IsValid}
use factoryfleet.Store.Table.{OutboxRow}
use factoryfleet.Store.Types.{Store, OutboxEntry, reopen}
use factoryfleet.System.Order.{All-mono, All-drop, All-delete_ids}
use factoryfleet.System.Safety.{IsSafe, Step-IsSafe}
use factoryfleet.System.{System, Step, Run, here, next, message}
use factoryfleet.Timeutil.{Datetime, IsDatetime}
use factoryfleet.Transport.Broker.{BrokerClient, IsConfirming, Message}
use factoryfleet.Wire.{stamp_sent}

module _ (P : String → Fields → Type 0) where
  abbrev pub HasRow : OutboxRow → Type 0
  HasRow r = P r.topic r.payload_json

  abbrev pub HasEntry : OutboxEntry → Type 0
  HasEntry e = P e.topic e.payload

  -- A message is a stamped payload under its own topic.
  abbrev pub HasMessage : Message → Type 0
  HasMessage m =
      (payload : Fields) × (now : Datetime) × IsDatetime now
      × P m.0 payload
      × (m.1 ≡ stamp_sent payload now)

  -- The step queues only what meets the predicate, and stamps what it sends with a datetime.
  abbrev pub StepMeets : {C : BrokerClient} {s t : System C} → Step C s t → Type 0
  StepMeets (Step.record_state r e) = Unit
  StepMeets (Step.queue_entry now topic payload v e) = P topic payload
  StepMeets (Step.miscount n e) = Unit
  StepMeets (Step.fetch limit entries idle found e) = Unit
  StepMeets (Step.confirm now entry rest idle head ok e) = IsDatetime now
  StepMeets (Step.refuse now entry rest idle head failed e) = Unit
  StepMeets (Step.mark now i v waiting e) = Unit
  StepMeets (Step.prune now retain count store done e) = Unit
  StepMeets (Step.network client grows e) = Unit
  StepMeets (Step.restart client grows e) = Unit

  abbrev pub RunMeets : {C : BrokerClient} {s t : System C} → Run C s t → Type 0
  RunMeets here = Unit
  RunMeets (next run step) = RunMeets run × StepMeets step

  -- A run that meets the predicate.
  abbrev pub Walk : {C : BrokerClient} → System C → System C → Type 0
  Walk {C} s t = (run : Run C s t) × RunMeets run

  pub Walk-append : {C : BrokerClient} {s t u : System C} → Walk s t → Walk t u → Walk s u
  Walk-append first (here, m) = first
  Walk-append first (next run step, m) =
      let (walked, k) = Walk-append first (run, m.0) in (next walked step, (k, m.1))

  pub Walk-next :
      {C : BrokerClient} {s t u : System C}
      → Walk s t
      → (step : Step C t u) → StepMeets step
      → Walk s u
  Walk-next (run, m) step k = (next run step, (m, k))

  pub record Carries {C : BrokerClient} (s : System C) : Type 0 where
    pub waiting : All HasRow (queue s.store)
    pub flying : All HasEntry s.in_flight
    pub sent : All HasMessage s.delivered

  All-AreEntriesOf :
      (es : List OutboxEntry) (rows : List OutboxRow)
      → AreEntriesOf es rows
      → All HasRow rows
      → All HasEntry es
  All-AreEntriesOf [] rows fit h = tt
  All-AreEntriesOf (e ∷ es) [] fit h = absurd fit
  All-AreEntriesOf (e ∷ es) (r ∷ rows) ((_, topic, payload, _), fit) h =
      (rw (topic, payload) h.0, All-AreEntriesOf es rows fit h.1)

  module _ {C : BrokerClient} (s : System C) (v : IsValid s.store) (h : Carries s) where
    waits_on : (store : Store) → All HasRow (queue store) → Carries (record s { store = store })
    waits_on store w = record { waiting = w; flying = h.flying; sent = h.sent }

    queue_entry-waiting :
        (now : Datetime) (topic : String) (payload : Fields)
        → P topic payload
        → All HasRow (queue (enqueue now topic payload s.store).1)
    unfolding new_row
    queue_entry-waiting now topic payload p =
        let (_, e) = enqueue-Enqueues now topic payload s.store v.ascends in
        rw e.bounded_queue (
          All-drop HasRow (length (queue s.store) + 1 - s.store.max_outbox_entries) _ (
            All-append HasRow (queue s.store) (new_row now topic payload s.store ∷ []) h.waiting
              (p, tt)))

    fetch-flying :
        (limit : ℕ) (entries : List OutboxEntry)
        → pending limit s.store ≡ some entries
        → All HasEntry entries
    fetch-flying limit entries found =
        let (es, done, fit) = pending_total limit s.store v in
        subst (All HasEntry) (some-injective _ _ (sym done ∙ found)) (
          All-AreEntriesOf es (take limit (queue s.store)) fit
            (All-take HasRow limit (queue s.store) h.waiting))

    mark-waiting :
        (now : Datetime) (i : ℕ) → All HasRow (queue (mark_published now (i ∷ []) s.store).1)
    mark-waiting now i =
        let m = mark_published-Confirms now (i ∷ []) s.store in
        rw m.queue_left
          (All-mono _ (λ r k. k.0) (All-delete_ids HasRow (i ∷ []) (queue s.store) h.waiting))

    prune-waiting :
        (now : Datetime) (retain count : ℕ) (store : Store)
        → prune_published now retain s.store ≡ some (count, store)
        → All HasRow (queue store)
    prune-waiting now retain count store done =
        let (n, t, fine, fit, _) = prune_published_total now retain s.store v in
        subst (λ u. All HasRow (queue u)) (ap (λ x. x.1) (some-injective _ _ (sym fine ∙ done)))
          (rw fit.queue_kept h.waiting)

  Step-Carries :
      {C : BrokerClient} {s t : System C} (step : Step C s t)
      → IsValid s.store
      → StepMeets step
      → Carries s
      → Carries t
  unfolding record_reading reopen
  Step-Carries {s} (Step.record_state r e) v m h =
      subst Carries (sym e) (record { waiting = h.waiting; flying = h.flying; sent = h.sent })
  Step-Carries {s} (Step.queue_entry now topic payload d e) v m h = subst Carries (sym e) (record {
    waiting = queue_entry-waiting s v h now topic payload m;
    flying = h.flying;
    sent = h.sent;
  })
  Step-Carries {s} (Step.miscount n e) v m h =
      subst Carries (sym e) (record { waiting = h.waiting; flying = h.flying; sent = h.sent })
  Step-Carries {s} (Step.fetch limit entries idle found e) v m h = subst Carries (sym e) (record {
    waiting = h.waiting;
    flying = fetch-flying s v h limit entries found;
    sent = h.sent;
  })
  Step-Carries {s} (Step.confirm now entry rest idle head ok e) v m h =
      let flying = subst (All HasEntry) head h.flying in
      subst Carries (sym e) (record {
        waiting = h.waiting;
        flying = flying.1;
        sent =
            All-append HasMessage s.delivered (message entry now ∷ []) h.sent
              ((entry.payload, now, m, flying.0, refl), tt);
      })
  Step-Carries {s} (Step.refuse now entry rest idle head failed e) v m h =
      subst Carries (sym e) (record { waiting = h.waiting; flying = tt; sent = h.sent })
  Step-Carries {s} (Step.mark now i d waiting e) v m h =
      subst Carries (sym e)
        (record { waiting = mark-waiting s v h now i; flying = h.flying; sent = h.sent })
  Step-Carries {s} (Step.prune now retain count store done e) v m h =
      subst Carries (sym e) (waits_on s v h store (prune-waiting s v h now retain count store done))
  Step-Carries {s} (Step.network client grows e) v m h =
      subst Carries (sym e) (record { waiting = h.waiting; flying = h.flying; sent = h.sent })
  Step-Carries {s} (Step.restart client grows e) v m h =
      subst Carries (sym e) (record { waiting = h.waiting; flying = tt; sent = h.sent })

  pub Run-Carries :
      {C : BrokerClient} {s t : System C} (run : Run C s t)
      → IsConfirming C
      → IsSafe s
      → RunMeets run
      → Carries s
      → IsSafe t × Carries t
  Run-Carries here L safe m h = (safe, h)
  Run-Carries (next run step) L safe m h =
      let (safe', h') = Run-Carries run L safe m.0 h in
      (Step-IsSafe L step safe', Step-Carries step safe'.valid m.1 h')
