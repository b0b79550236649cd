-- ===== src/Config/Load/Keys.antt =====
-- What the checks of agent/factoryfleet_agent/config.py on one key ensure, and on the identity.
use factoryfleet.Base.{
  zero, suc, ◌≤◌, ◌≡◌, true, false, String, Option, none, some, List, arith, is_empty, strip,
  Bool-cases, inl, inr,
}
use factoryfleet.Config.Machine.{Machine, machine_types, is_in, one_of}
use factoryfleet.Config.Load.{require_machine_type, load_asset}
use factoryfleet.Config.Toml.{
  Toml, Table, get, string, number, boolean, table, other, is_at_most_zero, as_text,
  as_positive_int, require_str, require_positive_int,
}
use factoryfleet.Config.Types.{AssetIdentity}
use factoryfleet.Json.{ℤ, Float, int, float}
use factoryfleet.Results.{Ensures, returns, raises, Ensures-bind}

abbrev pub IsFilled : String → Type 0
IsFilled s = is_empty s ≡ false

abbrev pub IsInterval : Float → Type 0
IsInterval f = is_at_most_zero (float f) ≡ false

as_text-Ensures :
    (path : String) (section : Option String) (key : String) (v : Option Toml)
    → Ensures IsFilled (as_text path section key v)
unfolding as_text
as_text-Ensures path section key none = raises
as_text-Ensures path section key (some (string s)) = elim (Bool-cases (is_empty (strip s))) [
  | inl empty ↦ rw empty raises
  | inr filled ↦ rw filled (returns filled)
]
as_text-Ensures path section key (some (number n)) = raises
as_text-Ensures path section key (some (boolean b)) = raises
as_text-Ensures path section key (some (table t)) = raises
as_text-Ensures path section key (some (other b s)) = raises

as_positive_int-Ensures :
    (path : String) (section : Option String) (key : String) (v : Option Toml)
    → Ensures (λ n. 1 ≤ n) (as_positive_int path section key v)
unfolding as_positive_int
as_positive_int-Ensures path section key none = raises
as_positive_int-Ensures path section key (some (string s)) = raises
as_positive_int-Ensures path section key (some (number (int (ℤ.pos zero)))) = raises
as_positive_int-Ensures path section key (some (number (int (ℤ.pos (suc n))))) =
    returns (omega arith)
as_positive_int-Ensures path section key (some (number (int (ℤ.negsuc n)))) = raises
as_positive_int-Ensures path section key (some (number (float f))) = raises
as_positive_int-Ensures path section key (some (boolean b)) = raises
as_positive_int-Ensures path section key (some (table t)) = raises
as_positive_int-Ensures path section key (some (other b s)) = raises

module _ (t : Table) (key path : String) (section : Option String) where
  pub require_str-Ensures : Ensures IsFilled (require_str t key path section)
  unfolding require_str
  require_str-Ensures = as_text-Ensures path section key (get key t)

  pub require_positive_int-Ensures : Ensures (λ n. 1 ≤ n) (require_positive_int t key path section)
  unfolding require_positive_int
  require_positive_int-Ensures = as_positive_int-Ensures path section key (get key t)

-- The identity has no empty part, and its machine type is known.
pub record IsAsset (a : AssetIdentity) : Type 0 where
  pub site_id : IsFilled a.site_id
  pub asset_id : IsFilled a.asset_id
  pub machine_type : is_in a.machine_type machine_types ≡ true
  pub firmware_version : IsFilled a.firmware_version

module _ (M : Machine) where
  pub one_of-Ensures :
      (allowed : List String) (message value : String)
      → Ensures (λ s. is_in s allowed ≡ true) (one_of M allowed message value)
  unfolding one_of
  one_of-Ensures allowed message value = elim (Bool-cases (is_in value allowed)) [
    | inl known ↦ rw known (returns known)
    | inr unknown ↦ rw unknown raises
  ]

  require_machine_type-Ensures :
      (t : Table) (path : String)
      → Ensures (λ s. is_in s machine_types ≡ true) (require_machine_type M t path)
  unfolding require_machine_type
  require_machine_type-Ensures t path =
      Ensures-bind (require_str-Ensures t "machine_type" path (some "asset"))
        (λ raw _. one_of-Ensures machine_types _ (M.upper raw))

  pub load_asset-Ensures : (t : Table) (path : String) → Ensures IsAsset (load_asset M t path)
  unfolding load_asset
  load_asset-Ensures t path =
      Ensures-bind (require_str-Ensures t "site_id" path (some "asset")) (λ site h1.
        Ensures-bind (require_str-Ensures t "asset_id" path (some "asset")) (λ asset h2.
          Ensures-bind (require_machine_type-Ensures t path) (λ machine h3.
            Ensures-bind (require_str-Ensures t "firmware_version" path (some "asset"))
              (λ firmware h4. returns (record {
                site_id = h1;
                asset_id = h2;
                machine_type = h3;
                firmware_version = h4;
              })))))
