-- ===== src/Config/Load/Refusals.antt =====
-- Which exceptions leave the checks of agent/factoryfleet_agent/config.py on keys, and the identity.
use factoryfleet.Base.{
  ◌≡◌, refl, zero, suc, false, String, Option, none, some, List, ◌⊎◌, inl, inr, Bool-cases,
  is_empty, strip, str_eq,
}
use factoryfleet.Config.Load.{require_machine_type, load_asset}
use factoryfleet.Config.Machine.{Machine, machine_types, is_in, one_of}
use factoryfleet.Config.Toml.{
  Toml, Table, get, string, number, boolean, table, other, config_error, is_at_most_zero, as_text,
  as_bool, as_positive_int, as_positive_float, require_str, require_bool, require_positive_int,
  require_positive_float, section_table, require_table,
}
use factoryfleet.Json.{ℤ, Float, int, float}
use factoryfleet.Results.{
  Error, Result, ok, raised, OnlyRaises, OnlyRaises-intro, fine, refused, OnlyRaises-bind,
}

module _ (M : Machine) where
  -- What a test of a path or the listing of a directory raised.
  abbrev pub IsPathError : Error → Type 0
  IsPathError e =
      (file : M.FilePath) × ((M.is_file file ≡ raised e)
        ⊎ ((M.is_dir file ≡ raised e) ⊎ (M.sorted_toml_files file ≡ raised e)))

  -- What the reading of a file raised, other than a `TOMLDecodeError`; what `float` raised on an
  -- integer; what the file system raised on a path; or what `str` raised on a value.
  abbrev pub IsEscape : Error → Type 0
  IsEscape e =
      ((file : M.FilePath) × (M.load_toml file ≡ raised e)
        × (str_eq e.type_name "TOMLDecodeError" ≡ false))
      ⊎ (((i : ℤ) × (M.float_of i ≡ raised e))
          ⊎ (IsPathError e ⊎ ((v : Toml) × (M.str_of v ≡ raised e))))

  abbrev pub IsRefusal : Error → Type 0
  IsRefusal e = (e.type_name ≡ "ConfigError") ⊎ IsEscape e

  abbrev pub Refuses : {A : Type 0} → Result A → Type 0
  Refuses r = OnlyRaises IsRefusal r

  pub refusal : {A : Type 0} (message : String) → Refuses {A = A} (raised (config_error message))
  unfolding config_error
  refusal message = refused (inl refl)

  pub is_file-Refuses : (file : M.FilePath) → Refuses (M.is_file file)
  is_file-Refuses file =
      OnlyRaises-intro (M.is_file file) (λ e h. inr (inr (inr (inl (file, inl h)))))

  pub is_dir-Refuses : (dir : M.FilePath) → Refuses (M.is_dir dir)
  is_dir-Refuses dir =
      OnlyRaises-intro (M.is_dir dir) (λ e h. inr (inr (inr (inl (dir, inr (inl h))))))

  pub sorted_toml_files-Refuses : (dir : M.FilePath) → Refuses (M.sorted_toml_files dir)
  sorted_toml_files-Refuses dir =
      OnlyRaises-intro (M.sorted_toml_files dir) (λ e h. inr (inr (inr (inl (dir, inr (inr h))))))

  pub str_of-Refuses : (v : Toml) → Refuses (M.str_of v)
  str_of-Refuses v = OnlyRaises-intro (M.str_of v) (λ e h. inr (inr (inr (inr (v, h)))))

  module _ (path : String) (section : Option String) (key : String) where
    as_text-Refuses : (v : Option Toml) → Refuses (as_text path section key v)
    unfolding as_text
    as_text-Refuses none = refusal _
    as_text-Refuses (some (string s)) = elim (Bool-cases (is_empty (strip s))) [
      | inl empty ↦ rw empty (refusal _)
      | inr filled ↦ rw filled fine
    ]
    as_text-Refuses (some (number n)) = refusal _
    as_text-Refuses (some (boolean b)) = refusal _
    as_text-Refuses (some (table t)) = refusal _
    as_text-Refuses (some (other b s)) = refusal _

    as_bool-Refuses : (v : Option Toml) → Refuses (as_bool path section key v)
    unfolding as_bool
    as_bool-Refuses none = refusal _
    as_bool-Refuses (some (string s)) = refusal _
    as_bool-Refuses (some (number n)) = refusal _
    as_bool-Refuses (some (boolean b)) = fine
    as_bool-Refuses (some (table t)) = refusal _
    as_bool-Refuses (some (other b s)) = refusal _

    as_positive_int-Refuses : (v : Option Toml) → Refuses (as_positive_int path section key v)
    unfolding as_positive_int
    as_positive_int-Refuses none = refusal _
    as_positive_int-Refuses (some (string s)) = refusal _
    as_positive_int-Refuses (some (number (int (ℤ.pos zero)))) = refusal _
    as_positive_int-Refuses (some (number (int (ℤ.pos (suc n))))) = fine
    as_positive_int-Refuses (some (number (int (ℤ.negsuc n)))) = refusal _
    as_positive_int-Refuses (some (number (float f))) = refusal _
    as_positive_int-Refuses (some (boolean b)) = refusal _
    as_positive_int-Refuses (some (table t)) = refusal _
    as_positive_int-Refuses (some (other b s)) = refusal _

    float_of-Refuses : (i : ℤ) (r : Result Float) → M.float_of i ≡ r → Refuses r
    float_of-Refuses i (ok f) h = fine
    float_of-Refuses i (raised e) h = refused (inr (inr (inl (i, h))))

    as_positive_float-Refuses :
        (v : Option Toml) → Refuses (as_positive_float path section key M.float_of v)
    unfolding as_positive_float
    as_positive_float-Refuses none = refusal _
    as_positive_float-Refuses (some (string s)) = refusal _
    as_positive_float-Refuses (some (number (float f))) =
        elim (Bool-cases (is_at_most_zero (float f))) [
          | inl low ↦ rw low (refusal _)
          | inr high ↦ rw high fine
        ]
    as_positive_float-Refuses (some (number (int i))) =
        elim (Bool-cases (is_at_most_zero (int i))) [
          | inl low ↦ rw low (refusal _)
          | inr high ↦ rw high (float_of-Refuses i (M.float_of i) refl)
        ]
    as_positive_float-Refuses (some (boolean b)) = refusal _
    as_positive_float-Refuses (some (table t)) = refusal _
    as_positive_float-Refuses (some (other b s)) = refusal _

  module _ (t : Table) (key path : String) (section : Option String) where
    pub require_str-Refuses : Refuses (require_str t key path section)
    unfolding require_str
    require_str-Refuses = as_text-Refuses path section key (get key t)

    pub require_bool-Refuses : Refuses (require_bool t key path section)
    unfolding require_bool
    require_bool-Refuses = as_bool-Refuses path section key (get key t)

    pub require_positive_int-Refuses : Refuses (require_positive_int t key path section)
    unfolding require_positive_int
    require_positive_int-Refuses = as_positive_int-Refuses path section key (get key t)

    pub require_positive_float-Refuses :
        Refuses (require_positive_float M.float_of t key path section)
    unfolding require_positive_float
    require_positive_float-Refuses = as_positive_float-Refuses path section key (get key t)

  section_table-Refuses :
      (name path : String) (v : Option Toml) → Refuses (section_table name path v)
  unfolding section_table
  section_table-Refuses name path none = refusal _
  section_table-Refuses name path (some (string s)) = refusal _
  section_table-Refuses name path (some (number n)) = refusal _
  section_table-Refuses name path (some (boolean b)) = refusal _
  section_table-Refuses name path (some (table t)) = fine
  section_table-Refuses name path (some (other b s)) = refusal _

  pub require_table-Refuses : (t : Table) (name path : String) → Refuses (require_table t name path)
  unfolding require_table
  require_table-Refuses t name path = section_table-Refuses name path (get name t)

  pub one_of-Refuses :
      (allowed : List String) (message value : String) → Refuses (one_of M allowed message value)
  unfolding one_of
  one_of-Refuses allowed message value = elim (Bool-cases (is_in value allowed)) [
    | inl known ↦ rw known fine
    | inr unknown ↦ rw unknown (refusal _)
  ]

  pub load_asset-Refuses : (t : Table) (path : String) → Refuses (load_asset M t path)
  unfolding load_asset require_machine_type
  load_asset-Refuses t path =
      OnlyRaises-bind (require_str-Refuses t "site_id" path (some "asset")) (λ site.
        OnlyRaises-bind (require_str-Refuses t "asset_id" path (some "asset")) (λ asset.
          OnlyRaises-bind
            (OnlyRaises-bind (require_str-Refuses t "machine_type" path (some "asset"))
              (λ raw. one_of-Refuses machine_types _ (M.upper raw)))
            (λ kind.
              OnlyRaises-bind (require_str-Refuses t "firmware_version" path (some "asset"))
                (λ firmware. fine))))
