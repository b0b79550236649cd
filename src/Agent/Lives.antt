-- ===== src/Agent/Lives.antt =====
-- What the two threads of an agent do to it between its start and its stop.
use mathlib.Core.Path.{subst}
use factoryfleet.Base.{◌≡◌, refl, none, []}
use factoryfleet.Agent.{Agent}
use factoryfleet.Config.Types.{AssetIdentity}
use factoryfleet.Store.Queue.{IsValid}
use factoryfleet.System.Carries.{RunMeets, Walk}
use factoryfleet.System.Ghost.{Ghost, at, with_ghost, Walk-ghost}
use factoryfleet.System.Integrity.{IsOwn}
use factoryfleet.System.Live.{live, Run-IsValid}
use factoryfleet.System.{System, Run}
use factoryfleet.Transport.Broker.{BrokerClient, IsConfirming}
use factoryfleet.Transport.Publisher.{Publisher}

-- The threads take the agent from `a` to `b` by steps of System on its store and its client, and leave
-- the agent's own flags and schedulers alone.
pub record Lives {C : BrokerClient} (a b : Agent C) : Type 0 where
  pub end : System C
  pub run : Run C (live a.publisher.store a.publisher.client) end
  pub store_reached : b.publisher.store ≡ end.store
  pub client_reached : b.publisher.client ≡ end.client
  pub running_kept : b.running ≡ a.running
  pub open_kept : b.closed ≡ a.closed
  pub sampler_kept : b.sampler ≡ a.sampler
  pub publisher_kept : b.publisher_loop ≡ a.publisher_loop

pub Lives-IsValid :
    {C : BrokerClient} (a b : Agent C)
    → IsConfirming C
    → Lives a b
    → IsValid a.publisher.store
    → IsValid b.publisher.store
Lives-IsValid a b L lives v =
    rw lives.store_reached
      (Run-IsValid a.publisher.store a.publisher.client lives.end L v lives.run)

-- The threads live by steps of System that queue nothing but messages of this machine, and the
-- publisher's thread is between two drains when they end.
pub record Serves {C : BrokerClient} (identity : AssetIdentity) (a b : Agent C) : Type 0 where
  pub lives : Lives a b
  pub own : RunMeets (IsOwn identity) lives.run
  pub idle : lives.end.in_flight ≡ []
  pub settled : lives.end.unmarked ≡ none

idle_system :
    {C : BrokerClient} (t : System C) (p : Publisher C) (h : Ghost)
    → p.store ≡ t.store
    → p.client ≡ t.client
    → t.in_flight ≡ []
    → t.unmarked ≡ none
    → with_ghost t h ≡ at p [] h
idle_system t p h store client idle settled = rw (store, client, idle, settled) refl

pub Serves-Walk :
    {C : BrokerClient} {identity : AssetIdentity} (a b : Agent C) (g : Ghost)
    → Serves identity a b
    → (h : Ghost) × Walk (IsOwn identity) (at a.publisher [] g) (at b.publisher [] h)
Serves-Walk {C} {identity} a b g serves =
    let (h, walk) = Walk-ghost (IsOwn identity) g (serves.lives.run, serves.own) in
    let lives : Lives a b = serves.lives in
    let same =
      idle_system lives.end b.publisher h lives.store_reached lives.client_reached serves.idle
        serves.settled in
    (h, subst (λ u. Walk (IsOwn identity) (at a.publisher [] g) u) same walk)
