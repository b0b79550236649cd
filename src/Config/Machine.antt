-- ===== src/Config/Machine.antt =====
-- What agent/factoryfleet_agent/config.py takes from Python and the file system, and `_read_toml`.
use factoryfleet.Base.{Bool, false, ◌||◌, String, ◌<>◌, List, [], ◌∷◌, str_eq, if◌then◌else◌}
use factoryfleet.Config.Toml.{Toml, Table, config_error, Error, Result, ok, raised, ◌>>=◌}
use factoryfleet.Json.{ℤ, Float}

-- The file system with `pathlib` and `tomllib`, and the built-in conversions that the loader
-- calls: `str` and the truth value on a TOML value, `float` on an integer, and `str.upper`. The tests of
-- a path and `glob` raise on what the operating system refuses, such as a name that is too long, and
-- `str` on an integer with too many digits.
pub record Machine : Type 1 where
  pub FilePath : Type 0
  pub text : FilePath → String
  pub path_of : String → FilePath
  pub join : FilePath → FilePath → FilePath
  pub parent : FilePath → FilePath
  pub is_absolute : FilePath → Bool
  pub is_dir : FilePath → Result Bool
  pub is_file : FilePath → Result Bool
  pub load_toml : FilePath → Result Table
  pub sorted_toml_files : FilePath → Result (List FilePath)
  pub str_of : Toml → Result String
  pub is_true : Toml → Bool
  pub float_of : ℤ → Result Float
  pub upper : String → String

abbrev pub machine_types : List String
machine_types = "CNC_MILL" ∷ "HYDRAULIC_PRESS" ∷ "CONVEYOR" ∷ "ROBOT_ARM" ∷ "INJECTION_MOLDER" ∷ []

abbrev pub log_levels : List String
log_levels = "DEBUG" ∷ "INFO" ∷ "WARNING" ∷ "ERROR" ∷ "CRITICAL" ∷ []

unfoldable pub is_in : String → List String → Bool
is_in s [] = false
is_in s (x ∷ xs) = str_eq x s || is_in s xs

module _ (M : Machine) where
  -- `except tomllib.TOMLDecodeError`
  unfoldable pub toml_error : M.FilePath → Error → Error
  toml_error path e =
      if str_eq e.type_name "TOMLDecodeError"
      then config_error (M.text path <> (": invalid TOML — " <> e.message))
      else e

  unfoldable pub loaded : M.FilePath → Result Table → Result Table
  unfolding toml_error
  loaded path (ok t) = ok t
  loaded path (raised e) = raised (toml_error path e)

  unfoldable pub read_toml : M.FilePath → Result Table
  unfolding loaded
  read_toml path = do
    there ← M.is_file path
    (if there
        then loaded path (M.load_toml path)
        else raised (config_error ("configuration file not found: " <> M.text path)))

  -- The test of `value not in ALLOWED`.
  unfoldable pub one_of : List String → String → String → Result String
  one_of allowed message value =
      if is_in value allowed then ok value else raised (config_error message)
