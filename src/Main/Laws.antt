-- ===== src/Main/Laws.antt =====
-- How the process ends, from the files of the configuration to the exit code.
use factoryfleet.Base.{
  ℕ, ◌≡◌, refl, ◌∙◌, false, not, ◌&&◌, String, none, some, ◌⊎◌, inl, inr, Bool-cases, eq_iff, List,
  arith,
}
use factoryfleet.Agent.{Agent, calm, start_agent, stop_agent}
use factoryfleet.Agent.Walks.{stop_raising-calm}
use factoryfleet.Agent.Create.{
  Parts, create_agent, create_agent-load, assembled, max_outbox_entries,
}
use factoryfleet.Agent.Lives.{Lives, Lives-IsValid}
use factoryfleet.Agent.Laws.{start_agent_total, stop_agent_total}
use factoryfleet.Config.Load.{AgentConfig, load, enabled_sensors}
use factoryfleet.Config.Load.Escapes.{load_errors}
use factoryfleet.Config.Load.Refusals.{IsEscape, IsRefusal}
use factoryfleet.Config.Load.Parts.{KeepsSign}
use factoryfleet.Config.Machine.{Machine}
use factoryfleet.Config.Load.Accepted.{load-IsAccepted}
use factoryfleet.Main.CommandLine.{Console, IsConsole, Arguments, parse_args, level-known}
use factoryfleet.Main.{
  Life, exits, traceback, is_config_error, main, main_parsed, main_loaded, main_logged,
  main_created, main_started, main_stopped,
}
use factoryfleet.Results.{Error, ok, raised, Ensures-ok}
use factoryfleet.Scheduler.Lifecycle.{new_control, is_running}
use factoryfleet.Sensors.Registry.{create_all}
use factoryfleet.Store.Queue.{IsValid}
use factoryfleet.Store.Table.{Database}
use factoryfleet.Store.Types.{reopen}
use factoryfleet.Timeutil.{Datetime, IsDatetime}
use factoryfleet.Transport.Broker.{BrokerClient, IsConfirming}

abbrev pub TakesSteps : {C : BrokerClient} → Life C → Type 0
TakesSteps {C} life = (a : Agent C) → Lives a (life.threads a)

module _ (M : Machine) (C : BrokerClient) (parts : Parts M C) (version : String) where
  -- What the constructor calls returns, for this configuration.
  pub record AreReady (config : AgentConfig M) : Type 0 where
    pub database : Database
    pub sensors : List parts.classes.Instance
    pub client : C.State
    pub opened : parts.open_database config.database_path ≡ ok database
    pub built : create_all parts.classes parts.registry (enabled_sensors M config) ≡ ok sensors
    pub connected : parts.create_client config.broker ≡ ok client
    pub readable : IsValid (reopen max_outbox_entries database)

  pub create_agent-AreReady :
      (dir : M.FilePath) (config : AgentConfig M)
      → KeepsSign M.float_of
      → load M dir ≡ ok config
      → (ready : AreReady config)
      → create_agent parts version config
        ≡ ok (
            assembled parts version config ready.database ready.sensors ready.client new_control
              new_control)
  create_agent-AreReady dir config K loaded ready =
      create_agent-load M C parts version dir config K loaded
      ∙ rw (ready.opened, ready.built, ready.connected) refl

-- Where all can be built and the agent starts, `main` waits, stops it and ends with exit code 0.
pub main-started :
    (M : Machine) (C : BrokerClient) (console : Console M) (parts : Parts M C)
    (clock : ℕ → Datetime) (version : String) (life : Life C) (argv : List String)
    (args : Arguments M) (config : AgentConfig M) (started : Agent C)
    → IsConsole console
    → KeepsSign M.float_of
    → parse_args M console argv ≡ ok args
    → load M args.config ≡ ok config
    → life.stop_calls ≡ calm
    → (ready : AreReady M C parts version config)
    → let created =
        assembled parts version config ready.database ready.sensors ready.client new_control
          new_control in
      start_agent C clock created.self false false created.agent ≡ some started
      → main console parts clock version life argv
        ≡ exits 0 (
            some (
              stop_agent C clock created.self life.sampler_alive life.publisher_alive life.left
                (life.threads started)))
unfolding main main_parsed main_loaded main_logged main_created main_started main_stopped
main-started M C console parts clock version life argv args config started known K parsed loaded
      returns ready start =
    let accepted = Ensures-ok (load-IsAccepted M K args.config) loaded in
    rw
      (
        parsed,
        loaded,
        level-known M console known argv args config.log_level parsed accepted.log_level,
        create_agent-AreReady M C parts version args.config config K loaded ready,
        start,
        returns,
        stop_raising-calm C clock
            (assembled parts version config ready.database ready.sensors ready.client new_control
              new_control).self
            life.sampler_alive life.publisher_alive life.left (life.threads started),
      )
      refl

-- With a broker client that keeps its contract, an `argparse` that keeps to the choices, a `logging`
-- that knows its own levels and a `float` that keeps the sign of a positive integer: on arguments
-- that parse and a configuration that loads, over a database that opens and is valid, with sensors
-- and a client that can be built, where the calls of `stop` return, and whatever steps of System the
-- threads take on the store and the client: the process ends with exit code 0. The agent was
-- stopped, and its store is valid, and was closed exactly if neither thread is alive after the
-- joins.
pub main_total :
    (M : Machine) (C : BrokerClient) (console : Console M) (parts : Parts M C)
    (clock : ℕ → Datetime) (version : String) (life : Life C) (argv : List String)
    (args : Arguments M) (config : AgentConfig M)
    → IsConfirming C
    → IsConsole console
    → ((n : ℕ) → IsDatetime (clock n))
    → KeepsSign M.float_of
    → TakesSteps life
    → life.stop_calls ≡ calm
    → parse_args M console argv ≡ ok args
    → load M args.config ≡ ok config
    → AreReady M C parts version config
    → (a : Agent C) × (main console parts clock version life argv ≡ exits 0 (some a))
      × (a.running ≡ false)
      × (a.closed ≡ (not life.sampler_alive && not life.publisher_alive))
      × IsValid a.publisher.store
unfolding is_running
main_total M C console parts clock version life argv args config L known ticks K steps returns
      parsed loaded ready =
    let created =
      assembled parts version config ready.database ready.sensors ready.client new_control
        new_control in
    let (_, started, start, running, sampler, publisher_loop, opened, (_, valid, _)) =
      start_agent_total C L clock ticks created.self false false created.agent refl refl refl
        ready.readable in
    let lived = life.threads started in
    let lives : Lives started lived = steps started in
    let (stopped, closed, (_, q, final, drained), _) =
      stop_agent_total C L clock ticks created.self life.sampler_alive life.publisher_alive
        life.left lived (lives.running_kept ∙ running)
        (Lives-IsValid started lived L lives valid) in
    (
      stop_agent C clock created.self life.sampler_alive life.publisher_alive life.left lived,
      main-started M C console parts clock version life argv args config started known K parsed
          loaded returns ready start,
      stopped,
      ground (
        arith, closed, lives.open_kept, lives.sampler_kept, lives.publisher_kept, opened, sampler,
        publisher_loop,
      ),
      rw final drained.valid,
    )

pub escapes : (M : Machine) {e : Error} → IsRefusal M e → is_config_error e ≡ false → IsEscape M e
escapes M (inr escape) other = escape
escapes M (inl config) other = absurd (ground (arith, other, (eq_iff _ _).1 config))

-- Whatever is in the files, on arguments that parse: where `load` raises, the process ends with exit
-- code 2, or with the traceback of what the reading of some file raised other than a
-- `TOMLDecodeError`, or of what a path, `float` or `str` raised; no agent was started.
pub main_refuses :
    (M : Machine) (C : BrokerClient) (console : Console M) (parts : Parts M C)
    (clock : ℕ → Datetime) (version : String) (life : Life C) (argv : List String)
    (args : Arguments M) (e : Error)
    → parse_args M console argv ≡ ok args
    → load M args.config ≡ raised e
    → (main console parts clock version life argv ≡ exits 2 none)
      ⊎ ((main console parts clock version life argv ≡ traceback e) × IsEscape M e)
unfolding main main_loaded main_parsed
main_refuses M C console parts clock version life argv args e parsed failed =
    elim (Bool-cases (is_config_error e)) [
      | inl known ↦ inl (rw (parsed, failed, known) refl)
      | inr other ↦
          inr
            (rw (parsed, failed, other) refl, escapes M (load_errors M args.config e failed) other)
    ]
