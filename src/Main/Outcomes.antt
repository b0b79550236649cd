-- ===== src/Main/Outcomes.antt =====
-- Every way in which the process can end.
use factoryfleet.Base.{
  ℕ, ◌≡◌, sym, ap, ◌∙◌, true, false, String, none, some, ◌⊎◌, inl, inr, List, Bool-cases,
  Option-cases,
}
use factoryfleet.Agent.Create.{Parts, Created, create_agent, create_agent-load, assembled}
use factoryfleet.Agent.{Agent, start_agent, stop_raising}
use factoryfleet.Config.Load.Accepted.{load-IsAccepted}
use factoryfleet.Config.Load.Escapes.{load_errors}
use factoryfleet.Config.Load.Parts.{KeepsSign}
use factoryfleet.Config.Load.Refusals.{IsEscape}
use factoryfleet.Config.Load.{AgentConfig, load, enabled_sensors}
use factoryfleet.Config.Machine.{Machine}
use factoryfleet.Main.CommandLine.{Console, IsConsole, Arguments, parse_args, level-known}
use factoryfleet.Main.Laws.{escapes}
use factoryfleet.Main.{
  Life, Exit, exits, leaves, traceback, is_config_error, main, main_parsed, main_loaded,
  main_logged, main_created, main_started, main_stopped,
}
use factoryfleet.Results.{
  Error, ok, raised, ◌>>=◌, Ensures-ok, Result-cases, raised-injective, raised-ne-ok,
}
use factoryfleet.Scheduler.Lifecycle.{new_control}
use factoryfleet.Sensors.Registry.{create_all}
use factoryfleet.Store.Table.{Database}
use factoryfleet.Timeutil.{Datetime}
use factoryfleet.Transport.Broker.{BrokerClient}

module _ (M : Machine) (C : BrokerClient) (parts : Parts M C) where
  -- What the constructor of `Agent` raises, in the order of its calls: the opening of the database, a
  -- sensor, or the client.
  abbrev pub IsPartError : AgentConfig M → Error → Type 0
  IsPartError config e =
      (parts.open_database config.database_path ≡ raised e)
      ⊎ (((database : Database) × (parts.open_database config.database_path ≡ ok database)
            × (create_all parts.classes parts.registry (enabled_sensors M config) ≡ raised e))
          ⊎ ((sensors : List parts.classes.Instance) × (create_all parts.classes parts.registry
                  (enabled_sensors M config)
                ≡ ok sensors)
              × (parts.create_client config.broker ≡ raised e)))

  part_errors :
      (version : String) (config : AgentConfig M) (e : Error)
      → (do
        database ← parts.open_database config.database_path
        sensors ← create_all parts.classes parts.registry (enabled_sensors M config)
        client ← parts.create_client config.broker
        ok (assembled parts version config database sensors client new_control new_control))
        ≡ raised e
      → IsPartError config e
  part_errors version config e h = elim (Result-cases (parts.open_database config.database_path)) [
    | inr (f, shut) ↦ inl (shut ∙ ap raised (raised-injective (rw shut at h)))
    | inl (database, opened) ↦
        elim (Result-cases (create_all parts.classes parts.registry (enabled_sensors M config))) [
          | inr (f, unbuilt) ↦
              let same = raised-injective (rw (opened, unbuilt) at h) in
              inr (inl (database, opened, unbuilt ∙ ap raised same))
          | inl (sensors, built) ↦ elim (Result-cases (parts.create_client config.broker)) [
            | inr (f, refused) ↦
                let same = raised-injective (rw (opened, built, refused) at h) in
                inr (inr (sensors, built, refused ∙ ap raised same))
            | inl (client, connected) ↦
                absurd (raised-ne-ok (sym (rw (opened, built, connected) at h)))
          ]
        ]
  ]

module _ (M : Machine) (C : BrokerClient) (console : Console M) (parts : Parts M C)
    (clock : ℕ → Datetime) (version : String) (life : Life C) (argv : List String) where
  -- The ends of the process, each with what led to it.
  pub data Ends : Exit C → Type 0 where
    by_arguments : (e : Error) → parse_args M console argv ≡ raised e → Ends (leaves e)
    by_config :
        (args : Arguments M) (e : Error)
        → parse_args M console argv ≡ ok args
        → load M args.config ≡ raised e
        → is_config_error e ≡ true
        → Ends (exits 2 none)
    by_escape :
        (args : Arguments M) (e : Error)
        → parse_args M console argv ≡ ok args
        → load M args.config ≡ raised e
        → IsEscape M e
        → Ends (traceback e)
    by_part :
        (args : Arguments M) (config : AgentConfig M) (e : Error)
        → parse_args M console argv ≡ ok args
        → load M args.config ≡ ok config
        → IsPartError M C parts config e
        → Ends (traceback e)
    by_start :
        (args : Arguments M) (config : AgentConfig M) (created : Created parts)
        → parse_args M console argv ≡ ok args
        → load M args.config ≡ ok config
        → create_agent parts version config ≡ ok created
        → start_agent C clock created.self false false created.agent ≡ none
        → Ends (exits 1 none)
    by_signal :
        (args : Arguments M) (config : AgentConfig M) (created : Created parts) (started : Agent C)
        → parse_args M console argv ≡ ok args
        → load M args.config ≡ ok config
        → create_agent parts version config ≡ ok created
        → start_agent C clock created.self false false created.agent ≡ some started
        → (stopped : Agent C)
        → stop_raising C clock created.self life.stop_calls life.sampler_alive life.publisher_alive
            life.left
            (life.threads started)
          ≡ ok stopped
        → Ends (exits 0 (some stopped))
    by_stop :
        (args : Arguments M) (config : AgentConfig M) (created : Created parts) (started : Agent C)
        → parse_args M console argv ≡ ok args
        → load M args.config ≡ ok config
        → create_agent parts version config ≡ ok created
        → start_agent C clock created.self false false created.agent ≡ some started
        → (e : Error)
        → stop_raising C clock created.self life.stop_calls life.sampler_alive life.publisher_alive
            life.left
            (life.threads started)
          ≡ raised e
        → Ends (traceback e)

  Ends-created :
      (args : Arguments M) (config : AgentConfig M)
      → KeepsSign M.float_of
      → parse_args M console argv ≡ ok args
      → load M args.config ≡ ok config
      → Ends (main_created console parts clock version life (create_agent parts version config))
  unfolding main_created main_started main_stopped
  Ends-created args config K parsed loaded =
      elim (Result-cases (create_agent parts version config)) [
        | inr (e, failed) ↦
            let shape = create_agent-load M C parts version args.config config K loaded in
            rw failed (
              by_part args config e parsed loaded
                (part_errors M C parts version config e (sym shape ∙ failed)))
        | inl (created, made) ↦
            elim (Option-cases (start_agent C clock created.self false false created.agent)) [
              | inl down ↦ rw (made, down) (by_start args config created parsed loaded made down)
              | inr (started, up) ↦
                  elim (Result-cases (
                    stop_raising C clock created.self life.stop_calls life.sampler_alive
                      life.publisher_alive life.left (life.threads started))) [
                        | inl (stopped, down) ↦
                            rw (made, up, down)
                              (by_signal args config created started parsed loaded made up stopped
                                down)
                        | inr (e, failed) ↦
                            rw (made, up, failed)
                              (by_stop args config created started parsed loaded made up e failed)
                      ]
            ]
      ]

  -- With an `argparse` that keeps to the choices, a `logging` that knows its own levels and a
  -- `float` that keeps the sign of a positive integer, the process ends in one of seven ways,
  -- whatever the arguments and the files are, and whatever the opening of the database, the
  -- constructors of the sensors and the client, and the calls of `stop` do: with the `SystemExit` of
  -- `argparse`; with exit code 2 for a `ConfigError` of `load`; with the traceback of what else
  -- `load` raised; with the traceback of the first error of the database, the sensors or the client,
  -- a `ConfigError` of a sensor among them; with exit code 1 where the agent does not start; with
  -- the traceback of what `stop` raised; and with exit code 0 where it started, lived and was
  -- stopped.
  pub main-Ends :
      KeepsSign M.float_of → IsConsole console → Ends (main console parts clock version life argv)
  unfolding main main_parsed main_loaded main_logged
  main-Ends K known = elim (Result-cases (parse_args M console argv)) [
    | inr (e, refused) ↦ rw refused (by_arguments e refused)
    | inl (args, parsed) ↦ elim (Result-cases (load M args.config)) [
      | inr (e, failed) ↦ elim (Bool-cases (is_config_error e)) [
        | inl config ↦ rw (parsed, failed, config) (by_config args e parsed failed config)
        | inr other ↦
            rw (parsed, failed, other)
              (by_escape args e parsed failed
                (escapes M (load_errors M args.config e failed) other))
      ]
      | inl (config, loaded) ↦
          let accepted = Ensures-ok (load-IsAccepted M K args.config) loaded in
          let level =
            level-known M console known argv args config.log_level parsed accepted.log_level in
          rw (parsed, loaded, level) (Ends-created args config K parsed loaded)
    ]
  ]
