-- ===== src/Timeutil.antt =====
-- agent/factoryfleet_agent/timeutil.py. A `datetime` has the fields that Python gives it. The agent
-- makes datetimes by `utc_now` and `parse_iso` alone, so the time zones are none (naive) and UTC.
-- `isoformat`, `fromisoformat` and `timestamp` are those of the standard library's `datetime`;
-- `fromisoformat` reads the one layout that `isoformat(timespec="milliseconds")` writes, with its
-- offset, and raises `ValueError` (`none`) on any other.
pub mod Digits
pub mod RoundTrip
use Prim.Native.Char.{Char, code}
use factoryfleet.Base.{
  ℕ, zero, suc, ◌+◌, ◌-◌, ◌*◌, ◌/◌, ◌%◌, ◌≤◌, String, ◌<>◌, Bool, true, false, ◌&&◌, ◌||◌, not,
  Option, none, some, leb, ltb, ◌==◌, strip, is_empty, if◌then◌else◌, ◌>>=◌,
}
use factoryfleet.Timeutil.Digits.{pad2, pad3, pad4, read2, read3, read4, ◌∷◌}

pub data TzInfo : Type 0 where
  naive utc : TzInfo

pub record Datetime : Type 0 where
  pub year : ℕ
  pub month : ℕ
  pub day : ℕ
  pub hour : ℕ
  pub minute : ℕ
  pub second : ℕ
  pub microsecond : ℕ
  pub tzinfo : TzInfo

abbrev pub is_leap : ℕ → Bool
is_leap y = y % 4 == 0 && (not (y % 100 == 0) || y % 400 == 0)

unfoldable pub days_in_month : ℕ → ℕ → ℕ
days_in_month y m =
    if m == 2
    then if is_leap y then 29 else 28
    else if m == 4 || m == 6 || m == 9 || m == 11
    then 30
    else 31

-- The days before the first of a month.
unfoldable pub days_before_month : ℕ → ℕ → ℕ
unfolding days_in_month
days_before_month y zero = 0
days_before_month y (suc zero) = 0
days_before_month y (suc (suc m)) = days_before_month y (suc m) + days_in_month y (suc m)

-- What the constructor of `datetime` checks.
pub record IsDatetime (d : Datetime) : Type 0 where
  pub year_min : 1 ≤ d.year
  pub year_max : d.year ≤ 9999
  pub month_min : 1 ≤ d.month
  pub month_max : d.month ≤ 12
  pub day_min : 1 ≤ d.day
  pub day_max : d.day ≤ days_in_month d.year d.month
  pub hour_max : d.hour ≤ 23
  pub minute_max : d.minute ≤ 59
  pub second_max : d.second ≤ 59
  pub microsecond_max : d.microsecond ≤ 999999

unfoldable pub in_range : Datetime → Bool
in_range d =
    leb 1 d.year
    && leb d.year 9999
    && leb 1 d.month
    && leb d.month 12
    && leb 1 d.day
    && leb d.day (days_in_month d.year d.month)
    && leb d.hour 23
    && leb d.minute 59
    && leb d.second 59
    && leb d.microsecond 999999

-- `date.toordinal()`: the days from the first day of year 1, which is 1.
unfoldable pub to_ordinal : Datetime → ℕ
unfolding days_before_month
to_ordinal d =
    let y = d.year - 1 in
    y * 365 + y / 4 + y / 400 - y / 100 + days_before_month d.year d.month + d.day

unfoldable pub whole_seconds : Datetime → ℕ
unfolding to_ordinal
whole_seconds d = ((to_ordinal d * 24 + d.hour) * 60 + d.minute) * 60 + d.second

-- `d.timestamp()` of an aware datetime, in microseconds, and from the year 1 instead of 1970: the
-- agent only compares and subtracts what it returns.
unfoldable pub timestamp : Datetime → ℕ
timestamp d = whole_seconds d * 1000000 + d.microsecond

-- The date and the time to the millisecond, with what follows them.
unfoldable pub layout : Datetime → String → String
layout d rest = pad4 d.year (
    "-"
    ∷ pad2 d.month (
        "-"
        ∷ pad2 d.day (
            "T"
            ∷ pad2 d.hour (
                ":"
                ∷ pad2 d.minute (":" ∷ pad2 d.second ("." ∷ pad3 (d.microsecond / 1000) rest))))))

-- `isoformat(timespec="milliseconds")` of a datetime in UTC.
unfoldable pub isoformat : Datetime → String
isoformat d = layout d "+00:00"

-- `text.startswith(prefix)`
unfoldable pub starts_with : String → String → Bool
starts_with s String.[] = true
starts_with String.[] (String.◌∷◌ p ps) = false
starts_with (String.◌∷◌ c s) (String.◌∷◌ p ps) = code c == code p && starts_with s ps

-- `text.replace("+00:00", "Z")`; the number counts the characters of an occurrence still to skip.
unfoldable pub replace_offset : ℕ → String → String
unfolding starts_with
replace_offset n String.[] = String.[]
replace_offset (suc n) (String.◌∷◌ c s) = replace_offset n s
replace_offset zero (String.◌∷◌ c s) =
    let inside = replace_offset 5 s in
    let after = replace_offset 0 s in
    if starts_with (c ∷ s) "+00:00" then "Z" ∷ inside else c ∷ after

-- A naive datetime is taken for UTC. For one in UTC `astimezone(timezone.utc)` changes nothing.
unfoldable pub as_utc : Datetime → Datetime
as_utc d = record d { tzinfo = TzInfo.utc }

unfoldable pub iso : Datetime → String
iso moment = replace_offset 0 (isoformat (as_utc moment))

pub expect : Char → String → Option String
expect c String.[] = none
expect c (String.◌∷◌ d s) = if code c == code d then some s else none

pub expect_end : String → Option (Unit {0})
expect_end String.[] = some tt
expect_end (String.◌∷◌ c s) = none

-- `datetime.fromisoformat`: the layout is read, then the ranges are checked.
unfoldable pub fromisoformat : String → Option Datetime
fromisoformat text = do
  (y, s1) ← read4 text
  s2 ← expect "-" s1
  (mo, s3) ← read2 s2
  s4 ← expect "-" s3
  (d, s5) ← read2 s4
  s6 ← expect "T" s5
  (h, s7) ← read2 s6
  s8 ← expect ":" s7
  (mi, s9) ← read2 s8
  s10 ← expect ":" s9
  (s, s11) ← read2 s10
  s12 ← expect "." s11
  (ms, s13) ← read3 s12
  s14 ← expect "+" s13
  (oh, s15) ← read2 s14
  s16 ← expect ":" s15
  (om, s17) ← read2 s16
  done ← expect_end s17
  let parsed : Datetime = record {
    year = y;
    month = mo;
    day = d;
    hour = h;
    minute = mi;
    second = s;
    microsecond = ms * 1000;
    tzinfo = TzInfo.utc;
  }
  if in_range parsed && oh == 0 && om == 0 then some parsed else none

-- `text[:-1]` where `text.endswith("Z")` holds.
unfoldable pub without_z : String → Option String
without_z String.[] = none
without_z (String.◌∷◌ c s) = elim (without_z s) [
  | some front ↦ some (c ∷ front)
  | none ↦ if is_empty s && code c == code "Z" then some String.[] else none
]

unfoldable pub normalise : String → String
normalise text = elim (without_z text) [ some front ↦ front <> "+00:00" | none ↦ text ]

unfoldable pub parse_iso : String → Option Datetime
parse_iso text = do parsed ← fromisoformat (normalise (strip text)); some (as_utc parsed)
