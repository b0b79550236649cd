-- ===== src/Main.antt =====
-- `main` of agent/factoryfleet_agent/main.py. The lines of the log and the signal handlers are left
-- out: `stopping.wait()` returns once a signal came in.
pub mod CommandLine
pub mod Laws
pub mod Whole
pub mod Outcomes
pub mod Ticks
pub mod Deployed
use factoryfleet.Base.{ℕ, Bool, false, String, Option, none, some, List, str_eq, if◌then◌else◌}
use factoryfleet.Agent.{Agent, StopCalls, start_agent, stop_raising}
use factoryfleet.Agent.Create.{Parts, Created, create_agent}
use factoryfleet.Config.Load.{AgentConfig, load}
use factoryfleet.Config.Machine.{Machine}
use factoryfleet.Main.CommandLine.{Console, Arguments, parse_args, configure_logging, level_of}
use factoryfleet.Results.{Error, Result, ok, raised}
use factoryfleet.Timeutil.{Datetime}
use factoryfleet.Transport.Broker.{BrokerClient}
use factoryfleet.Transport.Publisher.{Publisher}

-- What happens to the agent beside `main`: what its threads have made of it when `stopping.wait()`
-- returns, what `is_alive` says of them after the joins, what a final drain that raises leaves, and
-- what the other calls of `stop` do.
pub record Life (C : BrokerClient) : Type 0 where
  pub threads : Agent C → Agent C
  pub sampler_alive : Bool
  pub publisher_alive : Bool
  pub left : Publisher C
  pub stop_calls : StopCalls

-- How the process ends: with an exit code, and the agent that was stopped, if one was; or with the
-- traceback of an exception that nothing catches; or with the `SystemExit` of `argparse`, which has its
-- own exit code.
pub data Exit (C : BrokerClient) : Type 0 where
  exits : ℕ → Option (Agent C) → Exit C
  leaves : Error → Exit C
  traceback : Error → Exit C

abbrev pub is_config_error : Error → Bool
is_config_error e = str_eq e.type_name "ConfigError"

module _ {M : Machine} {C : BrokerClient} (console : Console M) (parts : Parts M C)
    (clock : ℕ → Datetime) (version : String) (life : Life C) where
  -- What `agent.stop()` raises in the `finally` goes to the caller of `main`.
  unfoldable pub main_stopped : Result (Agent C) → Exit C
  main_stopped (ok agent) = exits 0 (some agent)
  main_stopped (raised e) = traceback e

  -- From `agent.start()` on; what it raises is an `Exception`.
  unfoldable pub main_started : Created parts → Option (Agent C) → Exit C
  unfolding main_stopped
  main_started created none = exits 1 none
  main_started created (some agent) = main_stopped (
      stop_raising C clock created.self life.stop_calls life.sampler_alive life.publisher_alive
        life.left (life.threads agent))

  -- The constructor stands outside of both `try` blocks.
  unfoldable pub main_created : Result (Created parts) → Exit C
  unfolding main_started
  main_created (raised e) = traceback e
  main_created (ok created) =
      main_started created (start_agent C clock created.self false false created.agent)

  -- From `configure_logging` on.
  unfoldable pub main_logged : AgentConfig M → Result (Unit {0}) → Exit C
  unfolding main_created
  main_logged config (raised e) = traceback e
  main_logged config (ok _) = main_created (create_agent parts version config)

  unfoldable pub main_loaded : Arguments M → Result (AgentConfig M) → Exit C
  unfolding main_logged
  main_loaded args (raised e) = if is_config_error e then exits 2 none else traceback e
  main_loaded args (ok config) =
      main_logged config (configure_logging console (level_of args.log_level config.log_level))

  unfoldable pub main_parsed : Result (Arguments M) → Exit C
  unfolding main_loaded
  main_parsed (raised e) = leaves e
  main_parsed (ok args) = main_loaded args (load M args.config)

  unfoldable pub main : List String → Exit C
  unfolding main_parsed
  main argv = main_parsed (parse_args M console argv)
