-- ===== src/Transport/Publisher/Progress.antt =====
-- `drain_once` of agent/factoryfleet_agent/transport/publisher.py over a broker that takes everything.
use mathlib.Core.Path.{subst}
use factoryfleet.Base.{ℕ, suc, ◌≡◌, refl, ap, ◌∙◌, true, some, List, [], ◌∷◌, length, take, String}
use factoryfleet.Json.{Fields}
use factoryfleet.Store.Confirm.{AreEntriesOf, pending_total}
use factoryfleet.Store.Queue.{queue, IsValid}
use factoryfleet.Store.Table.{OutboxRow}
use factoryfleet.Store.Types.{OutboxEntry}
use factoryfleet.Timeutil.{Datetime, IsDatetime}
use factoryfleet.Transport.Broker.{BrokerClient, IsConfirming}
use factoryfleet.Transport.Publisher.{Publisher, Settings, send_entry, send_all, drain_once}
use factoryfleet.Transport.Publisher.Drain.{Drains, Drains-client, drain_entries_total}
use factoryfleet.Wire.{stamp_sent}

-- A broker that is reached and confirms every message.
pub record IsUp (C : BrokerClient) : Type 0 where
  pub connected : (c : C.State) → (C.is_connected c).0 ≡ true
  pub accepts :
      (topic : String) (payload : Fields) (c : C.State) → (C.publish topic payload c).0 ≡ true

length-AreEntriesOf :
    (entries : List OutboxEntry) (rows : List OutboxRow)
    → AreEntriesOf entries rows
    → length entries ≡ length rows
length-AreEntriesOf [] [] fit = refl
length-AreEntriesOf [] (r ∷ rows) fit = absurd fit
length-AreEntriesOf (e ∷ es) [] fit = absurd fit
length-AreEntriesOf (e ∷ es) (r ∷ rows) fit = ap suc (length-AreEntriesOf es rows fit.1)

module _ (C : BrokerClient) (U : IsUp C) (clock : ℕ → Datetime) (self : Settings) where
  send_all-up :
      (entries : List OutboxEntry) (p : Publisher C)
      → (send_all C clock self entries p).0 ≡ length entries
  unfolding send_all send_entry
  send_all-up [] p = refl
  send_all-up (entry ∷ entries) p =
      rw (U.accepts entry.topic (stamp_sent entry.payload (clock p.reads)) p.client)
        (ap suc (send_all-up entries _))

-- Over a broker that is reached and confirms every message, and that keeps the contract, a drain of a
-- valid store confirms the whole batch: as many entries as the queue has, up to the batch size.
pub drain_once_delivers :
    (C : BrokerClient)
    → IsUp C
    → IsConfirming C
    → (clock : ℕ → Datetime) → ((n : ℕ) → IsDatetime (clock n))
    → (self : Settings) (p : Publisher C) → IsValid p.store
    → let n = length (take self.batch_size (queue p.store)) in
      (q : Publisher C) × (drain_once C clock self p ≡ some (n, q))
      × Drains C clock self.batch_size p n q
unfolding drain_once
drain_once_delivers C U L clock ticks self p v =
    let client = (C.is_connected p.client).1 in
    let (entries, found, fit) = pending_total self.batch_size p.store v in
    let (n, q, done, d, count) =
      drain_entries_total C L clock ticks self entries (record p { client = client }) v fit in
    let whole : n ≡ length (take self.batch_size (queue p.store)) =
      count
      ∙ send_all-up C U clock self entries (record p { client = client })
      ∙ length-AreEntriesOf entries (take self.batch_size (queue p.store)) fit in
    (
      q,
      rw (U.connected p.client, found) (done ∙ ap (λ m. some (m, q)) whole),
      subst (λ m. Drains C clock self.batch_size p m q) whole
          (Drains-client C L clock ticks self p client n q (L.is_connected-keeps p.client) d),
    )
