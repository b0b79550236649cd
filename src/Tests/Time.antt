-- ===== src/Tests/Time.antt =====
-- Timestamps: runs of `iso` and `parse_iso`, and the theorems on them at an instant.
use factoryfleet.Base.{◌≡◌, refl, ◌≤◌, ◌<◌, ◌+◌, some}
use factoryfleet.Tests.Data.{noon, IsDatetime-noon}
use factoryfleet.Timeutil.{iso, isoformat, layout, replace_offset, as_utc, parse_iso, timestamp}
use factoryfleet.Timeutil.Digits.{pad2, pad3, pad4, digit_char}
use factoryfleet.Timeutil.RoundTrip.{to_millisecond, parse_iso-iso, timestamp-to_millisecond}

iso-noon : iso noon ≡ "2026-07-30T12:00:05.123Z"
unfolding iso isoformat layout replace_offset as_utc pad2 pad3 pad4 digit_char
iso-noon = refl

parse_iso-iso_example : parse_iso (iso noon) ≡ some (to_millisecond noon)
parse_iso-iso_example = parse_iso-iso noon IsDatetime-noon

timestamp-to_millisecond_example :
    (timestamp (to_millisecond noon) ≤ timestamp noon)
    × (timestamp noon < timestamp (to_millisecond noon) + 1000)
timestamp-to_millisecond_example = timestamp-to_millisecond noon
