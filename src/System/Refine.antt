-- ===== src/System/Refine.antt =====
-- `drain_once` of agent/factoryfleet_agent/transport/publisher.py is a run of the steps of System.
use mathlib.Core.Path.{subst}
use factoryfleet.Base.{
  ℕ, ◌+◌, ◌≡◌, refl, true, false, Option, none, some, List, [], ◌∷◌, ◌++◌, Bool-cases, Option-cases,
  inl, inr, ◌⊎◌, ◌>>=◌, String,
}
use factoryfleet.Store.Outbox.{pending, prune_published}
use factoryfleet.Store.Types.{OutboxEntry}
use factoryfleet.System.Ghost.{Ghost, at}
use factoryfleet.System.Carries.{Walk, Walk-append, Walk-next}
use factoryfleet.System.{System, message, Step, Run, here}
use factoryfleet.Json.{Fields}
use factoryfleet.Timeutil.{Datetime, IsDatetime}
use factoryfleet.Transport.Broker.{BrokerClient, IsConfirming}
use factoryfleet.Transport.Publisher.{
  Publisher, Settings, send_entry, send_all, prune, drain_entries, drain_once,
}
use factoryfleet.Wire.{stamp_sent}

abbrev with_sent : Ghost → OutboxEntry → Datetime → Ghost
with_sent g entry now = record g {
  confirmed = entry.id ∷ g.confirmed;
  delivered = g.delivered ++ (message entry now ∷ []);
}

module _ (P : String → Fields → Type 0) (C : BrokerClient) (L : IsConfirming C)
    (clock : ℕ → Datetime) (ticks : (n : ℕ) → IsDatetime (clock n)) (self : Settings) where
  send_entry-cases :
      (entry : OutboxEntry) (entries : List OutboxEntry) (p : Publisher C) (g : Ghost)
      → (((send_entry C clock self entry p).0 ≡ true)
          × Walk P
              (at p (entry ∷ entries) g)
              (at (send_entry C clock self entry p).1 entries (with_sent g entry (clock p.reads))))
        ⊎ (((send_entry C clock self entry p).0 ≡ false)
            × Walk P (at p (entry ∷ entries) g) (at (send_entry C clock self entry p).1 [] g))
  unfolding send_entry
  send_entry-cases entry entries p g =
      let now = clock p.reads in
      elim (Bool-cases (C.publish entry.topic (stamp_sent entry.payload now) p.client).0) [
        | inl ok ↦ rw ok (
            inl (
              refl,
              Walk-next P
                  (Walk-next P (here, tt) (Step.confirm now entry entries refl refl ok refl)
                    (ticks p.reads))
                  (Step.mark (clock (p.reads + 1)) entry.id (ticks (p.reads + 1)) refl refl) tt,
            ))
        | inr failed ↦ rw failed (
            inr (
              refl,
              Walk-next P (here, tt) (Step.refuse now entry entries refl refl failed refl) tt,
            ))
      ]

  send_all-Walk :
      (entries : List OutboxEntry) (p : Publisher C) (g : Ghost)
      → (h : Ghost) × Walk P (at p entries g) (at (send_all C clock self entries p).1 [] h)
  unfolding send_all
  send_all-Walk [] p g = (g, (here, tt))
  send_all-Walk (entry ∷ entries) p g =
      let after = (send_entry C clock self entry p).1 in
      elim (send_entry-cases entry entries p g) [
        | inl (ok, first) ↦
            let (h, rest) = send_all-Walk entries after (with_sent g entry (clock p.reads)) in
            (h, rw ok (Walk-append P first rest))
        | inr (failed, last) ↦ (g, rw failed last)
      ]

  -- A run to what a call left, where it did not raise.
  abbrev PrunesTo : System C → Ghost → Option (Publisher C) → Type 0
  PrunesTo s g none = Unit {0}
  PrunesTo s g (some q) = Walk P s (at q [] g)

  abbrev pub EndsIn : System C → Option (ℕ × Publisher C) → Type 0
  EndsIn s none = Unit {0}
  EndsIn s (some (n, q)) = (h : Ghost) × Walk P s (at q [] h)

  prune-PrunesTo : (p : Publisher C) (g : Ghost) → PrunesTo (at p [] g) g (prune C clock self p)
  unfolding prune
  prune-PrunesTo p g =
      elim (Option-cases (prune_published (clock p.reads) self.retain_published p.store)) [
        | inl fault ↦ rw fault tt
        | inr ((count, store), done) ↦ rw done (
            Walk-next P (here, tt)
              (Step.prune (clock p.reads) self.retain_published count store done refl) tt)
      ]

  EndsIn-prune :
      (s : System C) (p : Publisher C) (g : Ghost) (n : ℕ) (r : Option (Publisher C))
      → Walk P s (at p [] g)
      → PrunesTo (at p [] g) g r
      → EndsIn s (do after ← r; some (n, after))
  EndsIn-prune s p g n none run last = tt
  EndsIn-prune s p g n (some q) run last = (g, Walk-append P run last)

  drain_entries-EndsIn :
      (entries : List OutboxEntry) (p : Publisher C) (g : Ghost)
      → EndsIn (at p entries g) (drain_entries C clock self entries p)
  unfolding drain_entries
  drain_entries-EndsIn [] p g =
      EndsIn-prune (at p [] g) p g 0 (prune C clock self p) (here, tt) (prune-PrunesTo p g)
  drain_entries-EndsIn (entry ∷ entries) p g =
      let (n, sent) = send_all C clock self (entry ∷ entries) p in
      let counted = record sent { published = sent.published + n } in
      let (h, run) = send_all-Walk (entry ∷ entries) p g in
      EndsIn-prune (at p (entry ∷ entries) g) counted h n (prune C clock self counted) run
        (prune-PrunesTo counted h)

  EndsIn-after :
      (s t : System C) (r : Option (ℕ × Publisher C)) → Walk P s t → EndsIn t r → EndsIn s r
  EndsIn-after s t none first rest = tt
  EndsIn-after s t (some (n, q)) first (h, rest) = (h, Walk-append P first rest)

  pub drain_once-EndsIn :
      (p : Publisher C) (g : Ghost) → EndsIn (at p [] g) (drain_once C clock self p)
  unfolding drain_once
  drain_once-EndsIn p g =
      let client = (C.is_connected p.client).1 in
      let asked : Publisher C = record p { client = client } in
      let checked : Walk P (at p [] g) (at asked [] g) =
        Walk-next P (here, tt) (Step.network client (L.is_connected-keeps p.client) refl) tt in
      elim (Bool-cases (C.is_connected p.client).0) [
        | inr down ↦ rw down (g, checked)
        | inl up ↦ elim (Option-cases (pending self.batch_size p.store)) [
          | inl fault ↦ rw (up, fault) tt
          | inr (entries, found) ↦
              rw (up, found)
                (EndsIn-after (at p [] g) (at asked entries g)
                  (drain_entries C clock self entries asked)
                  (Walk-next P checked (Step.fetch self.batch_size entries refl found refl) tt)
                  (drain_entries-EndsIn entries asked g))
        ]
      ]

-- A drain queues nothing, so that any predicate on what is queued will do.
abbrev IsAny : String → Fields → Type 0
IsAny topic payload = Unit

module _ (C : BrokerClient) (L : IsConfirming C) (clock : ℕ → Datetime)
    (ticks : (n : ℕ) → IsDatetime (clock n)) (self : Settings) where
  -- With a broker client that keeps its contract and clock readings that are datetimes: where
  -- `drain_once` returns, a run of the steps of System leads from the publisher before it, with no
  -- entry in flight, to the publisher after it.
  pub drain_once-Run :
      (p q : Publisher C) (n : ℕ) (g : Ghost)
      → drain_once C clock self p ≡ some (n, q)
      → (h : Ghost) × Run C (at p [] g) (at q [] h)
  drain_once-Run p q n g done =
      let (h, walk) =
        subst (EndsIn IsAny C L clock ticks self (at p [] g)) done
          (drain_once-EndsIn IsAny C L clock ticks self p g) in
      (h, walk.0)
