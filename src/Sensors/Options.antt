-- ===== src/Sensors/Options.antt =====
-- `SensorConfig.option` and `SensorConfig.required_float` of agent/factoryfleet_agent/config.py, over
-- the arithmetic of Python's floats, which is a parameter.
use factoryfleet.Base.{
  ℕ, suc, ◌≡◌, arith, Bool, true, false, String, ◌<>◌, Option, none, some, if◌then◌else◌,
}
use factoryfleet.Config.Toml.{Toml, get, config_error, number}
use factoryfleet.Config.Types.{SensorConfig}
use factoryfleet.Json.{ℤ, Float, int, float}
use factoryfleet.Results.{Error, Result, ok, raised}

-- IEEE doubles as Python computes with them: `div`, `of_int`, `to_float` and `int_round` can raise.
-- `of_int` is `float` on an integer, `to_float` is `float` on any other value of TOML, `round x n` is
-- `round(x, n)`, `int_round x` is `int(round(x))`, `seconds n` is the `total_seconds` of a timedelta
-- of n microseconds, and `gauss` draws from `random.Random`.
pub record Floats : Type 1 where
  pub add : Float → Float → Float
  pub mul : Float → Float → Float
  pub div : Float → Float → Result Float
  pub sqrt : Float → Float
  pub gt : Float → Float → Bool
  pub ge : Float → Float → Bool
  pub int_gt : ℤ → Float → Bool
  pub round : Float → ℕ → Float
  pub int_round : Float → Result ℤ
  pub of_int : ℤ → Result Float
  pub to_float : Toml → Result Float
  pub seconds : ℤ → Float
  pub Random : Type 0
  pub gauss : Float → Float → Random → Float × Random

-- A whole number as a literal of the source.
abbrev pub literal : ℕ → Float
literal n = Float.finite (ℤ.pos n) (ℤ.pos 0)

abbrev pub nought : Float
nought = literal 0

module _ (F : Floats) where
  -- `max(a, b)`: the first, unless the second is greater.
  abbrev pub max : Float → Float → Float
  max a b = if F.gt b a then b else a

  -- `_as_float`
  unfoldable pub as_float : Toml → String → String → Result Float
  as_float (number (float f)) key path = ok f
  as_float (number (int i)) key path = F.of_int i
  as_float _ key path =
      raised (config_error (path <> (": [options] " <> (key <> " must be a number"))))

  unfoldable pub required_float_of : Option Toml → SensorConfig → String → Result Float
  unfolding as_float
  required_float_of (some v) self key = as_float v key self.source
  required_float_of none self key =
      raised
        (config_error (self.source <> (": [options] is missing required key '" <> (key <> "'"))))

  unfoldable pub required_float : SensorConfig → String → Result Float
  unfolding required_float_of
  required_float self key = required_float_of (get key self.options) self key

  -- `float` of a value that TOML gave.
  unfoldable pub float_of : Toml → Result Float
  float_of (number (float f)) = ok f
  float_of (number (int i)) = F.of_int i
  float_of v = F.to_float v

  -- `float(self.option(key, 0.0))`
  unfoldable pub float_of_option : Option Toml → Result Float
  unfolding float_of
  float_of_option none = ok nought
  float_of_option (some v) = float_of v

  unfoldable pub float_option : SensorConfig → String → Result Float
  unfolding float_of_option
  float_option self key = float_of_option (get key self.options)

-- What IEEE 754 and Python say of these: the order is strict; rounding, a quotient by a positive
-- number and a conversion give nothing below zero from what is not below zero, where they do not
-- raise; what they raise is an `Exception`. A NaN is not below anything.
pub record AreDoubles (F : Floats) : Type 0 where
  pub gt_irrefl : (x : Float) → F.gt x x ≡ false
  pub gt_asym : (x y : Float) → F.gt x y ≡ true → F.gt y x ≡ false
  pub round-keeps : (x : Float) (n : ℕ) → F.gt nought x ≡ false → F.gt nought (F.round x n) ≡ false
  pub int_round-keeps :
      (x : Float) (i : ℤ) → F.gt nought x ≡ false → F.int_round x ≡ ok i → (n : ℕ) × (i ≡ ℤ.pos n)
  pub gt_nought : (m : ℕ) (e : ℤ) → F.gt (Float.finite (ℤ.pos (suc m)) e) nought ≡ true
  pub ge_gt_trans : (x y z : Float) → F.ge x y ≡ true → F.gt y z ≡ true → F.gt x z ≡ true
  pub div-keeps :
      (x y q : Float)
      → F.gt nought x ≡ false
      → F.gt y nought ≡ true
      → F.div x y ≡ ok q
      → F.gt nought q ≡ false
  pub of_int-keeps : (n : ℕ) (x : Float) → F.of_int (ℤ.pos n) ≡ ok x → F.gt nought x ≡ false
  pub int_round_errors : (x : Float) (e : Error) → F.int_round x ≡ raised e → e.is_exception ≡ true
  pub div_errors : (x y : Float) (e : Error) → F.div x y ≡ raised e → e.is_exception ≡ true
  pub of_int_errors : (i : ℤ) (e : Error) → F.of_int i ≡ raised e → e.is_exception ≡ true

module _ (F : Floats) (D : AreDoubles F) where
  -- A maximum with a bound is not below the bound.
  pub max_lem : (low x : Float) → F.gt low (max F low x) ≡ false
  max_lem low x = ground (arith, D.gt_irrefl low, D.gt_asym x low)
