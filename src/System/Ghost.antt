-- ===== src/System/Ghost.antt =====
-- What a system records beside the program's own state does not decide which steps it can take.
use factoryfleet.Base.{ℕ, ◌+◌, ap, none, List, [], ◌∷◌, ◌++◌, String}
use factoryfleet.Json.{Fields}
use factoryfleet.Store.Types.{OutboxEntry}
use factoryfleet.System.Carries.{StepMeets, Walk, Walk-next}
use factoryfleet.System.{zeros, System, overflow, message, Step, here, next}
use factoryfleet.Transport.Broker.{BrokerClient, Message}
use factoryfleet.Transport.Publisher.{Publisher}

-- The record of a run.
pub record Ghost : Type 0 where
  pub confirmed : List ℕ
  pub delivered : List Message
  pub dropped : List ℕ
  pub counted_before : ℕ

-- The publisher between two entries, with what a system records beside it.
abbrev pub at : {C : BrokerClient} → Publisher C → List OutboxEntry → Ghost → System C
at p entries g = record {
  store = p.store;
  client = p.client;
  in_flight = entries;
  unmarked = none;
  confirmed = g.confirmed;
  delivered = g.delivered;
  dropped = g.dropped;
  counted_before = g.counted_before;
}

abbrev pub with_ghost : {C : BrokerClient} → System C → Ghost → System C
with_ghost s g = record s {
  confirmed = g.confirmed;
  delivered = g.delivered;
  dropped = g.dropped;
  counted_before = g.counted_before;
}

module _ (P : String → Fields → Type 0) {C : BrokerClient} where
  -- A step from the same state under another record.
  Step-ghost :
      {s t : System C} (g : Ghost) (step : Step C s t)
      → StepMeets P step
      → (h : Ghost) × (other : Step C (with_ghost s g) (with_ghost t h)) × StepMeets P other
  Step-ghost {s} g (Step.record_state r e) m =
      (g, Step.record_state r (ap (λ u. with_ghost u g) e), tt)
  Step-ghost {s} g (Step.queue_entry now topic payload v e) m =
      let h = record g { dropped = g.dropped ++ overflow now topic payload s.store } in
      (h, Step.queue_entry now topic payload v (ap (λ u. with_ghost u h) e), m)
  Step-ghost {s} g (Step.miscount n e) m =
      let h = record g { dropped = g.dropped ++ zeros n } in
      (h, Step.miscount n (ap (λ u. with_ghost u h) e), tt)
  Step-ghost {s} g (Step.fetch limit entries idle found e) m =
      (g, Step.fetch limit entries idle found (ap (λ u. with_ghost u g) e), tt)
  Step-ghost {s} g (Step.confirm now entry rest idle head ok e) m =
      let h = record g {
        confirmed = entry.id ∷ g.confirmed;
        delivered = g.delivered ++ (message entry now ∷ []);
      } in
      (h, Step.confirm now entry rest idle head ok (ap (λ u. with_ghost u h) e), m)
  Step-ghost {s} g (Step.refuse now entry rest idle head failed e) m =
      (g, Step.refuse now entry rest idle head failed (ap (λ u. with_ghost u g) e), tt)
  Step-ghost {s} g (Step.mark now i v waiting e) m =
      (g, Step.mark now i v waiting (ap (λ u. with_ghost u g) e), tt)
  Step-ghost {s} g (Step.prune now retain count store done e) m =
      (g, Step.prune now retain count store done (ap (λ u. with_ghost u g) e), tt)
  Step-ghost {s} g (Step.network client grows e) m =
      (g, Step.network client grows (ap (λ u. with_ghost u g) e), tt)
  Step-ghost {s} g (Step.restart client grows e) m =
      let h = record g { counted_before = g.counted_before + s.store.dropped_entries } in
      (h, Step.restart client grows (ap (λ u. with_ghost u h) e), tt)

  -- A run from the same state under another record.
  pub Walk-ghost :
      {s t : System C} (g : Ghost)
      → Walk P s t
      → (h : Ghost) × Walk P (with_ghost s g) (with_ghost t h)
  Walk-ghost g (here, m) = (g, (here, tt))
  Walk-ghost g (next run step, m) =
      let (k, walked) = Walk-ghost g (run, m.0) in
      let (h, other, meets) = Step-ghost k step m.1 in (h, Walk-next P walked other meets)
