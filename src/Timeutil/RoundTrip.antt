-- ===== src/Timeutil/RoundTrip.antt =====
-- `parse_iso` reads back what `iso` writes, to the millisecond.
use Prim.Native.Char.{Char, code}
use text.Mathlib.TextLemmas.{cons-append}
use factoryfleet.Base.{
  ℕ, zero, suc, ◌*◌, ◌/◌, ◌+◌, ◌≤◌, ◌<◌, ◌≡◌, refl, ap, ◌∙◌, String, ◌<>◌, Option-cases, inl, inr,
  true, false, some, arith, ◌==◌, lstrip, rstrip, strip,
}
use factoryfleet.Timeutil.Digits.{
  digit_char, digit?, read1, read2, pad2, pad3, pad4, read2-pad2, read3-pad3, read4-pad4, ◌∷◌,
}
use factoryfleet.Timeutil.{
  Datetime, IsDatetime, TzInfo, in_range, days_in_month, layout, isoformat, replace_offset, as_utc,
  iso, expect, expect_end, fromisoformat, without_z, normalise, parse_iso, timestamp, whole_seconds,
}

-- The instant to the millisecond, in UTC.
abbrev pub to_millisecond : Datetime → Datetime
to_millisecond d = record d { microsecond = d.microsecond / 1000 * 1000; tzinfo = TzInfo.utc }

replace-digit :
    (n : ℕ) (s : String) → replace_offset 0 (digit_char n ∷ s) ≡ digit_char n ∷ replace_offset 0 s
unfolding replace_offset digit_char
replace-digit zero s = refl
replace-digit (suc zero) s = refl
replace-digit (suc (suc zero)) s = refl
replace-digit (suc (suc (suc zero))) s = refl
replace-digit (suc (suc (suc (suc zero)))) s = refl
replace-digit (suc (suc (suc (suc (suc zero))))) s = refl
replace-digit (suc (suc (suc (suc (suc (suc zero)))))) s = refl
replace-digit (suc (suc (suc (suc (suc (suc (suc zero))))))) s = refl
replace-digit (suc (suc (suc (suc (suc (suc (suc (suc zero)))))))) s = refl
replace-digit (suc (suc (suc (suc (suc (suc (suc (suc (suc n))))))))) s = refl

lstrip-digit : (n : ℕ) (s : String) → lstrip (digit_char n ∷ s) ≡ digit_char n ∷ s
unfolding lstrip digit_char
lstrip-digit zero s = refl
lstrip-digit (suc zero) s = refl
lstrip-digit (suc (suc zero)) s = refl
lstrip-digit (suc (suc (suc zero))) s = refl
lstrip-digit (suc (suc (suc (suc zero)))) s = refl
lstrip-digit (suc (suc (suc (suc (suc zero))))) s = refl
lstrip-digit (suc (suc (suc (suc (suc (suc zero)))))) s = refl
lstrip-digit (suc (suc (suc (suc (suc (suc (suc zero))))))) s = refl
lstrip-digit (suc (suc (suc (suc (suc (suc (suc (suc zero)))))))) s = refl
lstrip-digit (suc (suc (suc (suc (suc (suc (suc (suc (suc n))))))))) s = refl

-- A character that begins no "+00:00" stays.
replace-mark :
    (c : Char) (s : String)
    → (code c == 43) ≡ false
    → replace_offset 0 (c ∷ s) ≡ c ∷ replace_offset 0 s
unfolding replace_offset
replace-mark c s h = rw h

replace-layout :
    (d : Datetime) (s : String) → replace_offset 0 (layout d s) ≡ layout d (replace_offset 0 s)
unfolding layout pad2 pad3 pad4
replace-layout d s = simp (
  replace-digit,
  replace-mark "-" _ refl,
  replace-mark "T" _ refl,
  replace-mark ":" _ refl,
  replace-mark "." _ refl,
)

iso-eq-layout : (d : Datetime) → iso d ≡ layout d "Z"
unfolding iso isoformat as_utc layout
iso-eq-layout d = replace-layout d "+00:00" ∙ ap (layout d) offset
  where
    offset : replace_offset 0 "+00:00" ≡ "Z"
    offset = unfold replace_offset in refl

without_z-cons :
    (c : Char) (s : String) {front : String}
    → without_z s ≡ some front
    → without_z (c ∷ s) ≡ some (c ∷ front)
unfolding without_z
without_z-cons c s h = rw h

-- A text that ends in "Z" does not end in a space.
rstrip-without_z : (s : String) {front : String} → without_z s ≡ some front → rstrip s ≡ s
unfolding without_z rstrip
rstrip-without_z String.[] h = refl
rstrip-without_z (String.◌∷◌ c String.[]) h = ground arith
rstrip-without_z (String.◌∷◌ c (String.◌∷◌ e s)) h = elim (Option-cases (without_z (e ∷ s))) [
  | inl stuck ↦ ground arith
  | inr (f, ends) ↦ rw (rstrip-without_z (String.◌∷◌ e s) ends) (ground arith)
]

without_z-layout :
    (d : Datetime) (s : String) {front : String}
    → without_z s ≡ some front
    → without_z (layout d s) ≡ some (layout d front)
unfolding layout pad2 pad3 pad4
without_z-layout d s h = search (without_z-cons, h) depth 40

z_of : (d : Datetime) → without_z (layout d "Z") ≡ some (layout d "")
z_of d = without_z-layout d "Z" (unfold without_z in refl)

lstrip-layout : (d : Datetime) (s : String) → lstrip (layout d s) ≡ layout d s
unfolding layout pad2 pad3 pad4
lstrip-layout d s = lstrip-digit _ _

layout-append : (d : Datetime) (s t : String) → layout d s <> t ≡ layout d (s <> t)
unfolding layout pad2 pad3 pad4
layout-append d s t = simp cons-append

expect_cons : (c : Char) (s : String) → expect c (c ∷ s) ≡ some s
unfolding expect
expect_cons c s = ground arith

IsDatetime-in_range : (d : Datetime) → IsDatetime d → in_range (to_millisecond d) ≡ true
unfolding in_range
IsDatetime-in_range d v = ground arith

day_two_digits : (d : Datetime) → IsDatetime d → d.day ≤ 99
unfolding days_in_month
day_two_digits d v = ground arith

fromisoformat-isoformat :
    (d : Datetime) → IsDatetime d → fromisoformat (isoformat d) ≡ some (to_millisecond d)
unfolding fromisoformat isoformat layout
fromisoformat-isoformat d v =
    simp
      (
        read4-pad4 d.year _ v.year_max,
        read2-pad2 d.month _ (omega (arith, v.month_max)),
        read2-pad2 d.day _ (day_two_digits d v),
        read2-pad2 d.hour _ (omega (arith, v.hour_max)),
        read2-pad2 d.minute _ (omega (arith, v.minute_max)),
        read2-pad2 d.second _ (omega (arith, v.second_max)),
        read3-pad3 (d.microsecond / 1000) _ (omega (arith, v.microsecond_max)),
        expect_cons,
      )
      (unfold expect expect_end read2 read1 digit? in rw (IsDatetime-in_range d v))

normalise-layout : (d : Datetime) → normalise (layout d "Z") ≡ isoformat d
unfolding normalise isoformat
normalise-layout d = rw (z_of d, normalise) (layout-append d "" "+00:00")

strip-layout : (d : Datetime) → strip (layout d "Z") ≡ layout d "Z"
unfolding strip
strip-layout d = rw (rstrip-without_z (layout d "Z") (z_of d), lstrip-layout d "Z")

-- A stored timestamp reads back as the instant that was written, in UTC and cut to the millisecond,
-- whether the datetime had a time zone or not.
pub parse_iso-iso : (d : Datetime) → IsDatetime d → parse_iso (iso d) ≡ some (to_millisecond d)
unfolding parse_iso as_utc
parse_iso-iso d v =
    rw (iso-eq-layout d, strip-layout d, normalise-layout d, fromisoformat-isoformat d v)

pub IsDatetime-to_millisecond : (d : Datetime) → IsDatetime d → IsDatetime (to_millisecond d)
IsDatetime-to_millisecond d v = ground arith

-- Cutting to the millisecond loses nothing that `iso` shows.
pub iso-to_millisecond : (d : Datetime) → iso (to_millisecond d) ≡ iso d
iso-to_millisecond d =
    rw (iso-eq-layout (to_millisecond d), iso-eq-layout d) (unfold layout in same_layout)
  where
    millis : d.microsecond / 1000 * 1000 / 1000 ≡ d.microsecond / 1000
    millis = omega arith

    same_layout : layout (to_millisecond d) "Z" ≡ layout d "Z"
    same_layout = unfold layout in rw millis

whole_seconds-to_millisecond : (d : Datetime) → whole_seconds (to_millisecond d) ≡ whole_seconds d
unfolding whole_seconds
whole_seconds-to_millisecond d = refl

-- The stored instant is the written one to less than a millisecond, and never later.
pub timestamp-to_millisecond :
    (d : Datetime)
    → (timestamp (to_millisecond d) ≤ timestamp d)
      × (timestamp d < timestamp (to_millisecond d) + 1000)
unfolding timestamp
timestamp-to_millisecond d = rw (whole_seconds-to_millisecond d) (omega arith)
