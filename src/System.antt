-- ===== src/System.antt =====
-- The agent's two threads over one store, as agent/factoryfleet_agent/agent.py runs them, with
-- crashes. A step is one locked call on the store or one call of the broker, so the loop of
-- `drain_once` is cut between its calls, and the sampler or a power loss can come in anywhere.
mod Account
pub mod Order
mod Orderly
mod OrderlyStore
pub mod InOrder
pub mod Carries
pub mod Ghost
pub mod Integrity
pub mod Safe
mod SafeSteps
pub mod Cut
pub mod Safety
pub mod Live
pub mod Refine
use factoryfleet.Base.{
  zero, suc, ℕ, ◌+◌, ◌≡◌, Bool, true, false, String, Option, none, some, List, [], ◌∷◌, ◌++◌, take,
}
use factoryfleet.Json.{Fields}
use factoryfleet.Sensors.Reading.{Reading}
use factoryfleet.Store.AssetState.{record_reading}
use factoryfleet.Store.Outbox.{insert_outbox, enqueue, pending, mark_published, prune_published}
use factoryfleet.Store.Queue.{queue, excess}
use factoryfleet.Store.Table.{ids_of}
use factoryfleet.Store.Types.{Store, OutboxEntry, new_store, reopen}
use factoryfleet.Timeutil.{Datetime, IsDatetime}
use factoryfleet.Transport.Broker.{BrokerClient, Message}
use factoryfleet.Wire.{stamp_sent}
use mathlib.Core.List.{Sublist}

-- `in_flight` and `unmarked` are the local variables of `drain_once`: the entries still to send, and
-- the one that the broker has confirmed and the store has not yet marked. The rest is a record of
-- the run that no code reads: the confirmed ids and messages, the ids that the cap dropped, and the
-- drops counted before the last restart.
pub record System (C : BrokerClient) : Type 0 where
  pub store : Store
  pub client : C.State
  pub in_flight : List OutboxEntry
  pub unmarked : Option ℕ
  pub confirmed : List ℕ
  pub delivered : List Message
  pub dropped : List ℕ
  pub counted_before : ℕ

abbrev pub initial : {C : BrokerClient} → ℕ → C.State → System C
initial cap client = record {
  store = new_store cap;
  client = client;
  in_flight = [];
  unmarked = none;
  confirmed = [];
  delivered = [];
  dropped = [];
  counted_before = 0;
}

-- Drops that are counted and have no id.
abbrev pub zeros : ℕ → List ℕ
zeros zero = []
zeros (suc n) = 0 ∷ zeros n

-- The ids that the cap drops when this entry is queued.
unfoldable pub overflow : Datetime → String → Fields → Store → List ℕ
overflow now topic payload s =
    let t = insert_outbox now topic payload s in ids_of (take (excess t) (queue t))

abbrev pub message : OutboxEntry → Datetime → Message
message entry now = (entry.topic, stamp_sent entry.payload now)

pub data Step (C : BrokerClient) (s t : System C) : Type 0 where
  -- the sampler records a state, and queues its batch; so does the registration. The INSERT and the
  -- DELETE of an entry are one step, as they are in the transaction of a cycle; no transaction holds
  -- those of the registration together, and Cut has what a power loss between them leaves
  record_state : (r : Reading) → t ≡ record s { store = record_reading r s.store } → Step C s t
  queue_entry :
      (now : Datetime) (topic : String) (payload : Fields)
      → IsDatetime now
      → t ≡ record s {
        store = (enqueue now topic payload s.store).1;
        dropped = s.dropped ++ overflow now topic payload s.store;
      }
      → Step C s t
  -- a COMMIT fails: the rows are as before, but the drops of the cycle were counted; each stands in
  -- `dropped` as a 0, which is no entry's id
  miscount :
      (n : ℕ)
      → t ≡ record s {
        store = record s.store { dropped_entries = s.store.dropped_entries + n };
        dropped = s.dropped ++ zeros n;
      }
      → Step C s t
  -- the publisher reads a batch, and sends its entries one by one
  fetch :
      (limit : ℕ) (entries : List OutboxEntry)
      → s.unmarked ≡ none
      → pending limit s.store ≡ some entries
      → t ≡ record s { in_flight = entries }
      → Step C s t
  confirm :
      (now : Datetime) (entry : OutboxEntry) (rest : List OutboxEntry)
      → s.unmarked ≡ none
      → s.in_flight ≡ entry ∷ rest
      → (C.publish entry.topic (stamp_sent entry.payload now) s.client).0 ≡ true
      → t ≡ record s {
        client = (C.publish entry.topic (stamp_sent entry.payload now) s.client).1;
        in_flight = rest;
        unmarked = some entry.id;
        confirmed = entry.id ∷ s.confirmed;
        delivered = s.delivered ++ (message entry now ∷ []);
      }
      → Step C s t
  refuse :
      (now : Datetime) (entry : OutboxEntry) (rest : List OutboxEntry)
      → s.unmarked ≡ none
      → s.in_flight ≡ entry ∷ rest
      → (C.publish entry.topic (stamp_sent entry.payload now) s.client).0 ≡ false
      → t ≡ record s {
        client = (C.publish entry.topic (stamp_sent entry.payload now) s.client).1;
        in_flight = [];
      }
      → Step C s t
  mark :
      (now : Datetime) (i : ℕ)
      → IsDatetime now
      → s.unmarked ≡ some i
      → t ≡ record s { store = (mark_published now (i ∷ []) s.store).1; unmarked = none }
      → Step C s t
  prune :
      (now : Datetime) (retain count : ℕ) (store : Store)
      → prune_published now retain s.store ≡ some (count, store)
      → t ≡ record s { store = store }
      → Step C s t
  -- the network moves on by itself
  network :
      (client : C.State)
      → Sublist (C.received s.client) (C.received client)
      → t ≡ record s { client = client }
      → Step C s t
  -- the process dies at any point, and a new one opens the database
  restart :
      (client : C.State)
      → Sublist (C.received s.client) (C.received client)
      → t ≡ record s {
        store = reopen s.store.max_outbox_entries s.store.database;
        client = client;
        in_flight = [];
        unmarked = none;
        counted_before = s.counted_before + s.store.dropped_entries;
      }
      → Step C s t

pub data Run (C : BrokerClient) (s : System C) : System C → Type 0 where
  here : Run C s s
  next : {t u : System C} → Run C s t → Step C t u → Run C s u
