-- ===== src/Transport/Publisher.antt =====
-- agent/factoryfleet_agent/transport/publisher.py. The publisher and its store read one clock, as in
-- the agent; `clock n` is what its n-th call returns. `none` is an exception, the `ValueError` of a
-- stored text that cannot be read back.
pub mod Send
pub mod Drain
pub mod Progress
pub mod Empties
use factoryfleet.Base.{
  ℕ, suc, ◌+◌, Bool, true, false, String, Option, none, some, List, [], ◌∷◌, ltb, if◌then◌else◌,
  ◌>>=◌,
}
use factoryfleet.Json.{Fields}
use factoryfleet.Store.Outbox.{enqueue, pending, mark_published, prune_published}
use factoryfleet.Store.Types.{Store, OutboxEntry}
use factoryfleet.Timeutil.{Datetime}
use factoryfleet.Transport.Broker.{BrokerClient}
use factoryfleet.Wire.{stamp_sent}

-- The attributes that the constructor sets for good; the retention is in microseconds.
pub record Settings : Type 0 where
  pub batch_size : ℕ
  pub retain_published : ℕ

-- `Publisher(store, client)`
abbrev pub default_settings : Settings
default_settings = record { batch_size = 50; retain_published = 3600000000 }

-- The publisher with the objects that it shares; `reads` counts the calls of the clock.
pub record Publisher (C : BrokerClient) : Type 0 where
  pub store : Store
  pub client : C.State
  pub published : ℕ
  pub reads : ℕ

module _ (C : BrokerClient) (clock : ℕ → Datetime) (self : Settings) where
  -- The entry's publication, and its confirmation in the store if the broker confirmed it.
  unfoldable pub send_entry : OutboxEntry → Publisher C → Bool × Publisher C
  send_entry entry p =
      let (confirmed, client) =
        C.publish entry.topic (stamp_sent entry.payload (clock p.reads)) p.client in
      let store = (mark_published (clock (p.reads + 1)) (entry.id ∷ []) p.store).1 in
      if confirmed
      then (true, record p { store = store; client = client; reads = p.reads + 2 })
      else (false, record p { client = client; reads = p.reads + 1 })

  -- The loop of `drain_once`, with `confirmed` as its result.
  unfoldable pub send_all : List OutboxEntry → Publisher C → ℕ × Publisher C
  send_all [] p = (0, p)
  send_all (entry ∷ entries) p =
      let (ok, after) = send_entry entry p in
      let (n, last) = send_all entries after in if ok then (suc n, last) else (0, after)

  -- `_prune`
  unfoldable pub prune : Publisher C → Option (Publisher C)
  prune p = do
    (removed, store) ← prune_published (clock p.reads) self.retain_published p.store
    some (record p { store = store; reads = p.reads + 1 })

  -- What follows `self._store.pending`.
  unfoldable pub drain_entries : List OutboxEntry → Publisher C → Option (ℕ × Publisher C)
  drain_entries [] p = do after ← prune p; some (0, after)
  drain_entries (entry ∷ entries) p = do
    let (confirmed, sent) = send_all (entry ∷ entries) p
    after ← prune (record sent { published = sent.published + confirmed })
    some (confirmed, after)

  unfoldable pub drain_once : Publisher C → Option (ℕ × Publisher C)
  drain_once p =
      let (connected, client) = C.is_connected p.client in
      let q = record p { client = client } in
      if connected
      then (do entries ← pending self.batch_size p.store; drain_entries entries q)
      else some (0, q)

  -- Queues the payload, and tells whether the drain that follows confirmed anything.
  unfoldable pub publish_now : String → Fields → Publisher C → Option (Bool × Publisher C)
  publish_now topic payload p = do
    let store = (enqueue (clock p.reads) topic payload p.store).1
    (confirmed, after) ← drain_once (record p { store = store; reads = p.reads + 1 })
    some (ltb 0 confirmed, after)
