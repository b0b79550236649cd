-- ===== src/Wire/Shape.antt =====
-- The shapes of the payloads, as docs/SPEC.md gives them to the reader of the messages, and as
-- agent/factoryfleet_agent/wire.py and `Reading.to_payload` write them.
use factoryfleet.Base.{
  String, Bool, true, false, ◌&&◌, ◌||◌, Option, none, some, List, [], ◌∷◌, str_eq,
}
use factoryfleet.Json.{
  Json, null, bool, num, str, array, object, Items, nil, cons, Fields, end, field, lookup,
}
use factoryfleet.Sensors.Metrics.{is_finite}
use factoryfleet.Timeutil.{Datetime, parse_iso}

-- What a JSON value may be. An object has each of its keys,
-- and no others.
mutual
  pub data Shape : Type 0 where
    text stamp finite_numbers : Shape
    word : List String → Shape
    many : Shape → Shape
    exactly : Keys → Shape
    either : Shape → Shape → Shape

  pub data Keys : Type 0 where
    done : Keys
    required : String → Shape → Keys → Keys

abbrev is_some : Option Datetime → Bool
is_some none = false
is_some (some d) = true

unfoldable one_of : String → List String → Bool
one_of t [] = false
one_of t (w ∷ ws) = str_eq t w || one_of t ws

-- An object of numbers that are neither NaN nor infinite.
unfoldable pub are_numbers : Fields → Bool
are_numbers end = true
are_numbers (field k (num n) fs) = is_finite n && are_numbers fs
are_numbers (field k null fs) = false
are_numbers (field k (bool b) fs) = false
are_numbers (field k (str t) fs) = false
are_numbers (field k (array xs) fs) = false
are_numbers (field k (object gs) fs) = false

unfoldable has_key : String → Keys → Bool
has_key k done = false
has_key k (required j s ks) = str_eq j k || has_key k ks

unfoldable no_other : Keys → Fields → Bool
unfolding has_key
no_other ks end = true
no_other ks (field k v fs) = has_key k ks && no_other ks fs

abbrev is_text : Json → Bool
is_text (str t) = true
is_text null = false
is_text (bool b) = false
is_text (num n) = false
is_text (array xs) = false
is_text (object fs) = false

abbrev is_stamp : Json → Bool
is_stamp (str t) = is_some (parse_iso t)
is_stamp null = false
is_stamp (bool b) = false
is_stamp (num n) = false
is_stamp (array xs) = false
is_stamp (object fs) = false

abbrev is_word : List String → Json → Bool
is_word ws (str t) = one_of t ws
is_word ws null = false
is_word ws (bool b) = false
is_word ws (num n) = false
is_word ws (array xs) = false
is_word ws (object fs) = false

abbrev is_numbers : Json → Bool
is_numbers (object fs) = are_numbers fs
is_numbers null = false
is_numbers (bool b) = false
is_numbers (num n) = false
is_numbers (array xs) = false
is_numbers (str t) = false

abbrev items_of : Json → Option Items
items_of (array xs) = some xs
items_of null = none
items_of (bool b) = none
items_of (num n) = none
items_of (str t) = none
items_of (object fs) = none

abbrev fields_of : Json → Option Fields
fields_of (object fs) = some fs
fields_of null = none
fields_of (bool b) = none
fields_of (num n) = none
fields_of (str t) = none
fields_of (array xs) = none

unfoldable all_items : (Json → Bool) → Items → Bool
all_items p nil = true
all_items p (cons x xs) = p x && all_items p xs

abbrev fits_items : (Json → Bool) → Option Items → Bool
fits_items p none = false
fits_items p (some xs) = all_items p xs

abbrev fits_value : (Json → Bool) → Option Json → Bool
fits_value p none = false
fits_value p (some v) = p v

abbrev closed : Keys → (Fields → Bool) → Option Fields → Bool
closed ks p none = false
closed ks p (some fs) = no_other ks fs && p fs

unfoldable mutual
  unfolding one_of no_other all_items

  pub fits : Shape → Json → Bool
  fits text v = is_text v
  fits stamp v = is_stamp v
  fits finite_numbers v = is_numbers v
  fits (word ws) v = is_word ws v
  fits (many s) v = fits_items (fits s) (items_of v)
  fits (exactly ks) v = closed ks (fits_keys ks) (fields_of v)
  fits (either s t) v = fits s v || fits t v

  fits_keys : Keys → Fields → Bool
  fits_keys done fs = true
  fits_keys (required k s ks) fs = fits_value (fits s) (lookup k fs) && fits_keys ks fs

-- A reading: an error text stands in an ERROR reading alone.
abbrev pub reading_shape : Shape
reading_shape =
    either
      (exactly (
        required "sensorId" text (
          required "capturedAt" stamp (
            required "condition" (word ("OK" ∷ "CRITICAL" ∷ "ERROR" ∷ []))
              (required "metrics" finite_numbers done)))))
      (exactly (
        required "sensorId" text (
          required "capturedAt" stamp (
            required "condition" (word ("ERROR" ∷ []))
              (required "metrics" finite_numbers (required "error" text done))))))

-- A telemetry message as it is published.
abbrev pub telemetry_shape : Shape
telemetry_shape = exactly (
    required "assetId" text (
      required "siteId" text (
        required "batchedAt" stamp
          (required "sentAt" stamp (required "readings" (many reading_shape) done)))))

-- A registration message as it is published.
abbrev pub registration_shape : Shape
registration_shape = exactly (
    required "assetId" text (
      required "siteId" text (
        required "machineType" text (
          required "firmwareVersion" text (
            required "agentVersion" text (
              required "sensors" (many text)
                (required "declaredAt" stamp (required "sentAt" stamp done))))))))
