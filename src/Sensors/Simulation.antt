-- ===== src/Sensors/Simulation.antt =====
-- agent/factoryfleet_agent/sensors/simulation.py. `clock n` is what the n-th reading of the clock by
-- this sensor returns.
use factoryfleet.Base.{ℕ, ◌≡◌, false, Option, none, some, if◌then◌else◌}
use factoryfleet.Json.{Float}
use factoryfleet.Json.Int.{sub_ℕ}
use factoryfleet.Results.{Result}
use factoryfleet.Sensors.Options.{Floats, AreDoubles, literal, nought, max, max_lem}
use factoryfleet.Timeutil.{Datetime, timestamp}

pub record Waveform : Type 0 where
  pub baseline : Float
  pub noise : Float
  pub drift_per_hour : Float
  pub floor : Option Float

-- `Waveform(baseline=…, noise=…, drift_per_hour=…)`
abbrev pub waveform : Float → Float → Float → Waveform
waveform baseline noise drift = record {
  baseline = baseline;
  noise = noise;
  drift_per_hour = drift;
  floor = some nought;
}

-- What the object of a simulated sensor changes: its random source and its readings of the clock.
pub record Source (F : Floats) : Type 0 where
  pub rng : F.Random
  pub reads : ℕ

module _ (F : Floats) where
  unfoldable pub noisy : Float → Float → F.Random → Float × F.Random
  noisy noise value rng =
      let (drawn, after) = F.gauss nought noise rng in
      if F.gt noise nought then (F.add value drawn, after) else (value, rng)

  unfoldable pub floored : Option Float → Float → Float
  floored none value = value
  floored (some low) value = max F low value

  -- `Waveform.at`
  unfoldable pub at : Waveform → Float → F.Random → Float × F.Random
  unfolding noisy floored
  at w elapsed_hours rng =
      let drifted = F.add w.baseline (F.mul w.drift_per_hour elapsed_hours) in
      let (value, after) = noisy w.noise drifted rng in (floored w.floor value, after)

  -- `(a - b).total_seconds()`
  unfoldable pub total_seconds : Datetime → Datetime → Float
  total_seconds a b = F.seconds (sub_ℕ (timestamp a) (timestamp b))

  -- `elapsed_seconds` at the instant that the clock returned.
  unfoldable pub elapsed_seconds : Datetime → Datetime → Float
  unfolding total_seconds
  elapsed_seconds started_at now = max F nought (total_seconds now started_at)

  unfoldable pub elapsed_hours : Datetime → Datetime → Result Float
  unfolding elapsed_seconds
  elapsed_hours started_at now = F.div (elapsed_seconds started_at now) (literal 3600)

  -- Whatever the baseline, the drift and the noise, a value with a floor is not below it.
  pub at-floor :
      AreDoubles F
      → (w : Waveform) (low elapsed : Float) (rng : F.Random) → w.floor ≡ some low
      → F.gt low (at w elapsed rng).0 ≡ false
  unfolding at
  at-floor D w low elapsed rng e =
      rw e
        (max_lem F D low (noisy w.noise (F.add w.baseline (F.mul w.drift_per_hour elapsed)) rng).0)
