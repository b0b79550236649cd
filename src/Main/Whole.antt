-- ===== src/Main/Whole.antt =====
-- The whole life of the process: from the opening of the database to the exit code it is one run of
-- the steps of System.
use mathlib.Core.Path.{subst}
use factoryfleet.Base.{ℕ, ◌≡◌, refl, ap, ◌∙◌, false, some, List, [], All, String}
use factoryfleet.Agent.{Agent, Config, calm, start_agent, stop_agent}
use factoryfleet.Agent.Create.{Parts, assembled, max_outbox_entries}
use factoryfleet.Agent.Laws.{start_agent_total}
use factoryfleet.Agent.Walks.{Starts, start_agent-Starts, drain_once-Walk, stop_agent-drained}
use factoryfleet.Config.Load.Parts.{KeepsSign}
use factoryfleet.Config.Load.{AgentConfig, load}
use factoryfleet.Config.Machine.{Machine}
use factoryfleet.Agent.Lives.{Lives, Lives-IsValid, Serves, Serves-Walk}
use factoryfleet.Main.Laws.{AreReady, main-started}
use factoryfleet.Main.CommandLine.{Console, IsConsole, Arguments, parse_args}
use factoryfleet.Main.{Life, exits, main}
use factoryfleet.Results.{ok}
use factoryfleet.Scheduler.Lifecycle.{new_control, is_running}
use factoryfleet.Store.Queue.{queue, IsValid}
use factoryfleet.Store.Types.{reopen}
use factoryfleet.System.Carries.{HasRow, Walk, Walk-append, Run-Carries}
use factoryfleet.System.Ghost.{Ghost, at}
use factoryfleet.System.Integrity.{IsOwn, Conforms, HasMessage-Conforms}
use factoryfleet.System.Live.{live, live-IsSafe}
use factoryfleet.System.Order.{All-mono}
use factoryfleet.System.Safety.{IsSafe}
use factoryfleet.System.{System, Run}
use factoryfleet.Timeutil.{Datetime, IsDatetime}
use factoryfleet.Transport.Broker.{BrokerClient, IsConfirming}
use factoryfleet.Transport.Publisher.{Publisher, drain_once}
use factoryfleet.Transport.Publisher.Drain.{drain_once_total}

-- Starting, living and the last drain, one after the other.
life-Walk :
    (C : BrokerClient) (L : IsConfirming C) (clock : ℕ → Datetime)
    (ticks : (n : ℕ) → IsDatetime (clock n)) (self : Config) (a started lived : Agent C)
    (p : Publisher C) (n : ℕ) (g : Ghost)
    → start_agent C clock self false false a ≡ some started
    → Serves self.identity started lived
    → drain_once C clock self.settings lived.publisher ≡ some (n, p)
    → (h : Ghost) × Walk
        (IsOwn self.identity)
        (at (record a.publisher { client = C.start a.publisher.client }) [] g)
        (at p [] h)
life-Walk C L clock ticks self a started lived p n g start served done =
    let opened : System C = at (record a.publisher { client = C.start a.publisher.client }) [] g in
    let (h, first) =
      subst (Starts C L clock ticks self opened) start
        (start_agent-Starts C L clock ticks self false false a g) in
    let (k, second) = Serves-Walk started lived h served in
    let (l, third) = drain_once-Walk C L clock ticks self lived.publisher p n k done in
    (l, Walk-append (IsOwn self.identity) (Walk-append (IsOwn self.identity) first second) third)

-- With a broker client that keeps its contract, an `argparse` that keeps to the choices, a `logging`
-- that knows its own levels, a `float` that keeps the sign of a positive integer and a clock that
-- gives datetimes: on arguments that parse and a configuration that loads, over a database that
-- opens and is valid and in which only messages of this machine wait, with sensors and a client that
-- can be built, with threads that queue only messages of this machine and have ended between two
-- drains, and where the calls of `stop` return: the process ends with exit code 0, and all that it
-- did from the opening of the database, its announcement and its last drain included, is one run of
-- the steps of System. So every id that waited in the opened database, and every id that the store
-- has given since, is waiting, was confirmed or was dropped by the cap and counted, and every
-- message that was confirmed is under one of the machine's topics and has that topic's shape.
pub main-Run :
    (M : Machine) (C : BrokerClient) (console : Console M) (parts : Parts M C)
    (clock : ℕ → Datetime) (version : String) (life : Life C) (argv : List String)
    (args : Arguments M) (config : AgentConfig M)
    → IsConfirming C
    → IsConsole console
    → ((n : ℕ) → IsDatetime (clock n))
    → KeepsSign M.float_of
    → ((a : Agent C) → IsValid a.publisher.store → Serves config.asset a (life.threads a))
    → life.stop_calls ≡ calm
    → parse_args M console argv ≡ ok args
    → load M args.config ≡ ok config
    → (ready : AreReady M C parts version config)
    → All (HasRow (IsOwn config.asset)) (queue (reopen max_outbox_entries ready.database))
    → (a : Agent C) × (t : System C) × (main console parts clock version life argv
        ≡ exits 0 (some a))
      × Run C (live (reopen max_outbox_entries ready.database) (C.start ready.client)) t
      × (a.publisher.store ≡ t.store)
      × (a.publisher.client ≡ C.stop t.client)
      × IsSafe t
      × All (Conforms config.asset) t.delivered
unfolding is_running
main-Run M C console parts clock version life argv args config L known ticks K serves returns parsed
      loaded ready own =
    let created =
      assembled parts version config ready.database ready.sensors ready.client new_control
        new_control in
    let self : Config = created.self in
    let store = reopen max_outbox_entries ready.database in
    let opened : System C = live store (C.start ready.client) in
    let (_, started, start, running, _, _, _, (_, valid, _)) =
      start_agent_total C L clock ticks self false false created.agent refl refl refl
        ready.readable in
    let lived = life.threads started in
    let served : Serves config.asset started lived = serves started valid in
    let lives : Lives started lived = served.lives in
    let (n, p, done, _) =
      drain_once_total C L clock ticks self.settings lived.publisher
        (Lives-IsValid started lived L lives valid) in
    let g : Ghost = record {
      confirmed = opened.confirmed;
      delivered = [];
      dropped = opened.dropped;
      counted_before = 0;
    } in
    let (l, walk) =
      life-Walk C L clock ticks self created.agent started lived p n g start served done in
    let (safe, carried) =
      Run-Carries (IsOwn config.asset) walk.0 L
        (live-IsSafe store (C.start ready.client) ready.readable) walk.1
        (record { waiting = own; flying = tt; sent = tt }) in
    let final =
      stop_agent-drained C L clock ticks self life.sampler_alive life.publisher_alive life.left
        lived n p (lives.running_kept ∙ running) done in
    (
      stop_agent C clock self life.sampler_alive life.publisher_alive life.left lived,
      at p [] l,
      main-started M C console parts clock version life argv args config started known K parsed
          loaded returns ready start,
      walk.0,
      ap (λ q. q.store) final,
      ap (λ q. q.client) final,
      safe,
      All-mono l.delivered (HasMessage-Conforms config.asset) carried.sent,
    )
