-- ===== src/Config/Toml.antt =====
-- What `tomllib` reads, and the checks of agent/factoryfleet_agent/config.py on one key.
use factoryfleet.Base.{
  ℕ, suc, Bool, true, false, String, ◌<>◌, Option, none, some, str_eq, is_empty, strip, ◌==◌,
  if◌then◌else◌,
}
use factoryfleet.Json.{ℤ, Float, Number, int, float}
pub use factoryfleet.Results.{Error, Result, ok, raised, ◌>>=◌}

mutual
  -- `other` is an array or a date, by its truth value and its `str`.
  pub data Toml : Type 0 where
    string : String → Toml
    number : Number → Toml
    boolean : Bool → Toml
    table : Table → Toml
    other : Bool → String → Toml

  pub data Table : Type 0 where
    end : Table
    entry : String → Toml → Table → Table

-- `table.get(key)`
unfoldable pub get : String → Table → Option Toml
get key end = none
get key (entry k v rest) = if str_eq k key then some v else get key rest

unfoldable pub config_error : String → Error
config_error message = record { type_name = "ConfigError"; message = message; is_exception = true }

-- `_where`
unfoldable pub where_is : String → Option String → String → String
where_is path none key = path <> (": " <> key)
where_is path (some section) key = path <> (": [" <> (section <> ("] " <> key)))

-- `value <= 0` on an integer and on a float: every comparison with a NaN is false.
unfoldable pub is_at_most_zero : Number → Bool
is_at_most_zero (int (ℤ.pos n)) = n == 0
is_at_most_zero (int (ℤ.negsuc n)) = true
is_at_most_zero (float (Float.finite (ℤ.pos n) e)) = n == 0
is_at_most_zero (float (Float.finite (ℤ.negsuc n) e)) = true
is_at_most_zero (float Float.nan) = false
is_at_most_zero (float Float.infinity) = false
is_at_most_zero (float Float.minus_infinity) = true

module _ (path : String) (section : Option String) (key : String) where
  refuse {ℓ} : {A : Type ℓ} → String → Result A
  refuse what = raised (config_error (where_is path section key <> what))

  unfoldable pub as_text : Option Toml → Result String
  unfolding refuse
  as_text (some (string s)) =
      let text = strip s in if is_empty text then refuse " must be a non-empty string" else ok text
  as_text _ = refuse " must be a non-empty string"

  unfoldable pub as_bool : Option Toml → Result Bool
  unfolding refuse
  as_bool (some (boolean b)) = ok b
  as_bool _ = refuse " must be true or false"

  unfoldable pub as_positive_int : Option Toml → Result ℕ
  unfolding refuse
  as_positive_int (some (number (int (ℤ.pos (suc n))))) = ok (suc n)
  as_positive_int _ = refuse " must be a positive integer"

  -- `float(value)` is `float_of` on an integer, which raises `OverflowError` on a large one.
  unfoldable pub as_positive_float : (ℤ → Result Float) → Option Toml → Result Float
  unfolding refuse
  as_positive_float float_of (some (number (float f))) =
      if is_at_most_zero (float f) then refuse " must be a positive number" else ok f
  as_positive_float float_of (some (number (int i))) =
      if is_at_most_zero (int i) then refuse " must be a positive number" else float_of i
  as_positive_float float_of _ = refuse " must be a positive number"

unfoldable pub require_str : Table → String → String → Option String → Result String
unfolding as_text
require_str t key path section = as_text path section key (get key t)

unfoldable pub require_bool : Table → String → String → Option String → Result Bool
unfolding as_bool
require_bool t key path section = as_bool path section key (get key t)

unfoldable pub require_positive_int : Table → String → String → Option String → Result ℕ
unfolding as_positive_int
require_positive_int t key path section = as_positive_int path section key (get key t)

unfoldable pub require_positive_float :
    (ℤ → Result Float) → Table → String → String → Option String → Result Float
unfolding as_positive_float
require_positive_float float_of t key path section =
    as_positive_float path section key float_of (get key t)

-- `_table`
unfoldable pub section_table : String → String → Option Toml → Result Table
section_table name path none =
    raised (config_error (path <> (": missing required [" <> (name <> "] section"))))
section_table name path (some (table t)) = ok t
section_table name path (some _) =
    raised (config_error (path <> (": [" <> (name <> "] must be a table"))))

unfoldable pub require_table : Table → String → String → Result Table
unfolding section_table
require_table document name path = section_table name path (get name document)
