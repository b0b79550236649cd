-- ===== src/Sensors/CycleCount.antt =====
-- agent/factoryfleet_agent/sensors/cycle_count.py
mod Rate
pub mod Counts
use factoryfleet.Base.{ℕ, ◌+◌, Bool, ◌&&◌, String, [], ◌∷◌, if◌then◌else◌}
use factoryfleet.Config.Types.{SensorConfig}
use factoryfleet.Json.{Fields, Float, ℤ, int, float}
use factoryfleet.Json.Int.{◌+ℤ◌}
use factoryfleet.Results.{Error, Result, ok, raised, ◌>>=◌}
use factoryfleet.Sensors.Metrics.{number, Returned, mapping}
use factoryfleet.Sensors.Options.{Floats, literal, nought, max, required_float, float_option}
use factoryfleet.Sensors.Reading.{healthy}
use factoryfleet.Sensors.Sample.{Sensor, unhandled}
use factoryfleet.Sensors.Simulation.{total_seconds, elapsed_seconds}
use factoryfleet.Timeutil.{Datetime}

-- `1.0 / SECONDS_PER_MINUTE`, which is rounded to 0x1.1111111111111p-6.
abbrev pub min_rate_window_minutes : Float
min_rate_window_minutes = Float.finite (ℤ.pos 0x11111111111111) (ℤ.negsuc 57)

pub record CycleCountSensor : Type 0 where
  pub sensor_id : String
  pub started_at : Datetime
  pub nominal_rate : Float
  pub jitter : Float

-- What the object changes.
pub record Counter (F : Floats) : Type 0 where
  pub rng : F.Random
  pub reads : ℕ
  pub cycles_total : ℤ
  pub last_sampled_at : Datetime

module _ (F : Floats) where
  -- The constructor; `started_at` is the clock's reading in it.
  unfoldable pub create_cycle_count : SensorConfig → Datetime → Result CycleCountSensor
  create_cycle_count config started_at = do
    rate ← required_float F config "cycles_per_minute"
    jitter ← float_option F config "jitter_cycles"
    ok (record {
      sensor_id = config.sensor_id;
      started_at = started_at;
      nominal_rate = rate;
      jitter = jitter;
    })

  abbrev pub new_counter : F.Random → CycleCountSensor → Counter F
  new_counter rng self = record {
    rng = rng;
    reads = 0;
    cycles_total = ℤ.pos 0;
    last_sampled_at = self.started_at;
  }

  -- The long-run average.
  unfoldable pub average : Float → ℤ → Result Float
  average uptime_minutes total =
      if F.gt uptime_minutes nought
      then (do cycles ← F.of_int total; F.div cycles uptime_minutes)
      else ok nought

  -- `_rate`, with `self._cycles_total` as its last argument.
  unfoldable pub rate : Float → Float → Float → ℤ → Result Float
  unfolding average
  rate produced minutes uptime_seconds total =
      if F.ge minutes min_rate_window_minutes
      then F.div produced minutes
      else (do uptime_minutes ← F.div uptime_seconds (literal 60); average uptime_minutes total)

  module _ (clock : ℕ → Datetime) (self : CycleCountSensor) where
    unfoldable pub produced_in : Float → F.Random → Float × F.Random
    produced_in minutes rng =
        let produced = F.mul self.nominal_rate minutes in
        let (drawn, after) = F.gauss nought (F.mul self.jitter (F.sqrt minutes)) rng in
        if F.gt produced nought && F.gt self.jitter nought
        then (max F nought (F.add produced drawn), after)
        else (max F nought produced, rng)

    -- What follows the update of the total; `now` is the second reading of the clock.
    unfoldable pub report : Float → Float → Datetime → ℤ → Result Returned
    unfolding rate
    report produced minutes now total = do
      let uptime_seconds = elapsed_seconds F self.started_at now
      per_minute ← rate produced minutes uptime_seconds total
      ok (
          mapping (
            ("cycles_total", number (int total))
            ∷ ("cycles_per_minute", number (float (F.round per_minute 2)))
            ∷ ("uptime_seconds", number (float (F.round uptime_seconds 1)))
            ∷ []))

    -- `self._cycles_total += int(round(produced))` and what follows it.
    unfoldable pub counted : Float → Float → Result ℤ → Counter F → Result Returned × Counter F
    unfolding report
    counted produced minutes (raised e) s = (raised e, s)
    counted produced minutes (ok n) s =
        let total = s.cycles_total +ℤ n in
        (
          report produced minutes (clock s.reads) total,
          record s { cycles_total = total; reads = s.reads + 1 },
        )

    unfoldable pub read_minutes : Result Float → Counter F → Result Returned × Counter F
    unfolding counted produced_in
    read_minutes (raised e) s = (raised e, record s { reads = s.reads + 1 })
    read_minutes (ok since) s =
        let minutes = max F nought since in
        let (produced, after) = produced_in minutes s.rng in
        counted produced minutes (F.int_round produced)
          (record s { rng = after; last_sampled_at = clock s.reads; reads = s.reads + 1 })

    unfoldable pub read : Counter F → Result Returned × Counter F
    unfolding read_minutes
    read s = read_minutes (F.div (total_seconds F (clock s.reads) s.last_sampled_at) (literal 60)) s

    -- The class as a `Sensor`: it judges nothing and accepts no command.
    abbrev pub cycle_count : Sensor
    cycle_count = record {
      State = Counter F;
      sensor_id = self.sensor_id;
      commands = [];
      read = read;
      evaluate = λ metrics s. (ok healthy, s);
      handle_command = λ name args s. (raised (unhandled self.sensor_id name), s);
    }
