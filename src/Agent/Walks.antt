-- ===== src/Agent/Walks.antt =====
-- Starting and stopping an agent are runs of the steps of System, and queue announcements of this
-- machine alone.
use mathlib.Core.Path.{subst}
use factoryfleet.Base.{
  ℕ, ◌+◌, ◌≡◌, refl, Bool, Option, none, some, [], ◌++◌, ltb, ◌&&◌, Bool-cases, inl, inr, String,
  true, false, if◌then◌else◌, ◌>>=◌,
}
use factoryfleet.Agent.{
  Agent, Config, calm, announce, start_agent, stop_agent, stop_raising, final_drain,
}
use factoryfleet.Results.{ok}
use factoryfleet.Json.{Fields}
use factoryfleet.Scheduler.Lifecycle.{Control, start, stop}
use factoryfleet.Store.Outbox.{enqueue}
use factoryfleet.System.Carries.{Walk, Walk-append, Walk-next}
use factoryfleet.System.Ghost.{Ghost, at}
use factoryfleet.System.Integrity.{IsOwn}
use factoryfleet.System.Refine.{EndsIn, drain_once-EndsIn}
use factoryfleet.System.{System, overflow, Step, here}
use factoryfleet.Timeutil.{Datetime, IsDatetime}
use factoryfleet.Transport.Broker.{BrokerClient, IsConfirming}
use factoryfleet.Transport.Publisher.{Publisher, drain_once, publish_now}
use factoryfleet.Wire.{registration, registration_topic}

module _ (C : BrokerClient) (L : IsConfirming C) (clock : ℕ → Datetime)
    (ticks : (n : ℕ) → IsDatetime (clock n)) (self : Config) where
  abbrev Own : String → Fields → Type 0
  Own = IsOwn self.identity

  -- A run to what a call left, where it did not raise.
  abbrev Announced : System C → Option (Bool × Publisher C) → Type 0
  Announced s none = Unit {0}
  Announced s (some (b, q)) = (h : Ghost) × Walk Own s (at q [] h)

  abbrev pub Starts : System C → Option (Agent C) → Type 0
  Starts s none = Unit {0}
  Starts s (some a) = (h : Ghost) × Walk Own s (at a.publisher [] h)

  Announced-drain :
      (s t : System C) (r : Option (ℕ × Publisher C))
      → Walk Own s t
      → EndsIn Own C L clock ticks self.settings t r
      → Announced s (do (confirmed, after) ← r; some (ltb 0 confirmed, after))
  Announced-drain s t none first ends = tt
  Announced-drain s t (some (n, q)) first (h, rest) = (h, Walk-append Own first rest)

  announce-Announced :
      (p : Publisher C) (g : Ghost) → Announced (at p [] g) (announce C clock self p)
  unfolding announce publish_now
  announce-Announced p g =
      let topic = registration_topic self.identity in
      let payload = registration self.identity self.sensor_ids self.version (clock p.reads) in
      let now = clock (p.reads + 1) in
      let queued : Publisher C = record p {
        store = (enqueue now topic payload p.store).1;
        reads = p.reads + 1 + 1;
      } in
      let k = record g { dropped = g.dropped ++ overflow now topic payload p.store } in
      Announced-drain (at p [] g) (at queued [] k) (drain_once C clock self.settings queued)
        (Walk-next Own (here, tt) (Step.queue_entry now topic payload (ticks (p.reads + 1)) refl)
          (IsOwn.announcement self.sensor_ids self.version (clock p.reads) (ticks p.reads) refl
            refl))
        (drain_once-EndsIn Own C L clock ticks self.settings queued k)

  Starts-controls :
      (s : System C) (a : Agent C) (q : Publisher C) (h : Ghost) (x y : Option Control)
      → Walk Own s (at q [] h)
      → Starts s (do
        sampler ← x
        publisher_loop ← y
        some (record a {
          publisher = q;
          sampler = sampler;
          publisher_loop = publisher_loop;
          running = true;
        }))
  Starts-controls s a q h none y w = tt
  Starts-controls s a q h (some x) none w = tt
  Starts-controls s a q h (some x) (some y) w = (h, w)

  Starts-Announced :
      (s : System C) (a : Agent C) (r : Option (Bool × Publisher C)) (x y : Option Control)
      → Announced s r
      → Starts s (do
        (announced, q) ← r
        sampler ← x
        publisher_loop ← y
        some (record a {
          publisher = q;
          sampler = sampler;
          publisher_loop = publisher_loop;
          running = true;
        }))
  Starts-Announced s a none x y w = tt
  Starts-Announced s a (some (b, q)) x y (h, w) = Starts-controls s a q h x y w

  Starts-guarded :
      (s : System C) (closed : Bool) (r : Option (Agent C))
      → Starts s r
      → Starts s (if closed then none else r)
  Starts-guarded s true r h = tt
  Starts-guarded s false r h = h

  -- With a broker client that keeps its contract: where an agent starts, a run of the steps of System
  -- leads from its store and its started client to what it then has, and queues an announcement only.
  pub start_agent-Starts :
      (sampler_alive publisher_alive : Bool) (a : Agent C) (g : Ghost)
      → Starts
          (at (record a.publisher { client = C.start a.publisher.client }) [] g)
          (start_agent C clock self sampler_alive publisher_alive a)
  unfolding start_agent
  start_agent-Starts sampler_alive publisher_alive a g =
      let p = record a.publisher { client = C.start a.publisher.client } in
      Starts-guarded (at p [] g) a.closed _ (
        Starts-Announced (at p [] g) a (announce C clock self p) (start sampler_alive a.sampler)
          (start publisher_alive a.publisher_loop) (announce-Announced p g))

  -- The last drain of `stop`, where it returns.
  pub drain_once-Walk :
      (p q : Publisher C) (n : ℕ) (g : Ghost)
      → drain_once C clock self.settings p ≡ some (n, q)
      → (h : Ghost) × Walk Own (at p [] g) (at q [] h)
  drain_once-Walk p q n g done =
      subst (EndsIn Own C L clock ticks self.settings (at p [] g)) done
        (drain_once-EndsIn Own C L clock ticks self.settings p g)

  pub stop_agent-drained :
      (sampler_alive publisher_alive : Bool) (left : Publisher C) (a : Agent C) (n : ℕ)
      (p : Publisher C)
      → a.running ≡ true
      → drain_once C clock self.settings a.publisher ≡ some (n, p)
      → (stop_agent C clock self sampler_alive publisher_alive left a).publisher
        ≡ record p { client = C.stop p.client }
  unfolding stop_agent final_drain
  stop_agent-drained sampler_alive publisher_alive left a n p up done = rw (up, done) refl

module _ (C : BrokerClient) (clock : ℕ → Datetime) (self : Config) where
  -- Where its calls return, `stop` does not raise.
  pub stop_raising-calm :
      (sampler_alive publisher_alive : Bool) (left : Publisher C) (a : Agent C)
      → stop_raising C clock self calm sampler_alive publisher_alive left a
        ≡ ok (stop_agent C clock self sampler_alive publisher_alive left a)
  unfolding stop_raising stop_agent
  stop_raising-calm sampler_alive publisher_alive left a = elim (Bool-cases a.running) [
    | inr idle ↦ rw idle refl
    | inl up ↦
        elim (Bool-cases
          ((stop sampler_alive a.sampler).0 && (stop publisher_alive a.publisher_loop).0)) [
            | inl both ↦ rw (up, both) refl
            | inr one ↦ rw (up, one) refl
          ]
  ]
