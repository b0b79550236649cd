-- ===== src/Main/CommandLine.antt =====
-- `parse_args` and `configure_logging` of agent/factoryfleet_agent/main.py, over the standard
-- library's `argparse` and `logging`.
use factoryfleet.Base.{
  ◌≡◌, Bool, true, false, String, Option, none, some, List, [], ◌∷◌, All, arith, is_empty,
  if◌then◌else◌, Bool-cases, inl, inr,
}
use factoryfleet.Config.Machine.{Machine, log_levels, is_in}
use factoryfleet.Results.{
  Result, ok, ◌>>=◌, Ensures, returns, Ensures-each, Ensures-bind, Ensures-ok,
}

-- A call of `add_argument`: the flag, whether its action is the version's, and its `choices`.
pub record Argument : Type 0 where
  pub flag : String
  pub is_version : Bool
  pub choices : Option (List String)

-- `sorted(config_module.LOG_LEVELS)`
abbrev pub sorted_levels : List String
sorted_levels = "CRITICAL" ∷ "DEBUG" ∷ "ERROR" ∷ "INFO" ∷ "WARNING" ∷ []

abbrev pub arguments : List Argument
arguments =
    record { flag = "--config"; is_version = false; choices = none }
    ∷ record { flag = "--log-level"; is_version = false; choices = some sorted_levels }
    ∷ record { flag = "--version"; is_version = true; choices = none }
    ∷ []

-- The process's surroundings: the default of `--config`; `argparse`, which returns the texts that the
-- command line gives to the flags, or raises `SystemExit`; and `logging.basicConfig(level=…)`.
pub record Console (M : Machine) : Type 0 where
  pub default_config : M.FilePath
  pub parse : List Argument → List String → Result (String → Option String)
  pub basic_config : String → Result (Unit {0})

-- A text that is given is one of the choices, where there are any.
abbrev pub IsAmong : Option (List String) → Option String → Type 0
IsAmong none given = Unit
IsAmong (some choices) none = Unit
IsAmong (some choices) (some text) = is_in text choices ≡ true

abbrev pub IsChosen : (String → Option String) → Argument → Type 0
IsChosen given a = IsAmong a.choices (given a.flag)

-- What the code relies on: `argparse` refuses a value outside of the choices, and `logging` knows
-- the names of its own levels.
pub record IsConsole {M : Machine} (console : Console M) : Type 0 where
  pub parse-IsChosen :
      (declared : List Argument) (argv : List String) (given : String → Option String)
      → console.parse declared argv ≡ ok given
      → All (IsChosen given) declared
  pub basic_config-knows :
      (level : String) → is_in level log_levels ≡ true → console.basic_config level ≡ ok tt

-- The namespace.
pub record Arguments (M : Machine) : Type 0 where
  pub config : M.FilePath
  pub log_level : Option String

module _ (M : Machine) (console : Console M) where
  abbrev config_path : Option String → M.FilePath
  config_path none = console.default_config
  config_path (some text) = M.path_of text

  unfoldable pub parse_args : List String → Result (Arguments M)
  parse_args argv = do
    given ← console.parse arguments argv
    ok (record { config = config_path (given "--config"); log_level = given "--log-level" })

module _ {M : Machine} (console : Console M) where
  unfoldable pub configure_logging : String → Result (Unit {0})
  configure_logging level = console.basic_config level

-- `args.log_level or config.log_level`
unfoldable pub level_of : Option String → String → String
level_of none configured = configured
level_of (some text) configured = if is_empty text then configured else text

module _ (M : Machine) (console : Console M) (known : IsConsole console) where
  -- The level that the command line gives is one of the choices.
  parse_args-Ensures :
      (argv : List String)
      → Ensures (λ args. IsAmong (some sorted_levels) args.log_level) (parse_args M console argv)
  unfolding parse_args
  parse_args-Ensures argv =
      Ensures-bind
        (Ensures-each (console.parse arguments argv)
          (λ given e. known.parse-IsChosen arguments argv given e))
        (λ given chosen. returns chosen.1.0)

sorted_levels-known :
    (text : String) → is_in text sorted_levels ≡ true → is_in text log_levels ≡ true
unfolding is_in
sorted_levels-known text h = ground (arith, h)

level_of-known :
    (given : Option String) (configured : String)
    → IsAmong (some sorted_levels) given
    → is_in configured log_levels ≡ true
    → is_in (level_of given configured) log_levels ≡ true
unfolding level_of
level_of-known none configured g h = h
level_of-known (some text) configured g h = elim (Bool-cases (is_empty text)) [
  | inl empty ↦ rw empty h
  | inr full ↦ rw full (sorted_levels-known text g)
]

module _ (M : Machine) (console : Console M) (known : IsConsole console) where
  -- The level that `main` configures is one of those that `logging` knows.
  pub level-known :
      (argv : List String) (args : Arguments M) (configured : String)
      → parse_args M console argv ≡ ok args
      → is_in configured log_levels ≡ true
      → configure_logging console (level_of args.log_level configured) ≡ ok tt
  unfolding configure_logging
  level-known argv args configured parsed h =
      known.basic_config-knows (level_of args.log_level configured) (
        level_of-known args.log_level configured
          (Ensures-ok (parse_args-Ensures M console known argv) parsed) h)
