-- ===== src/Main/Ticks.antt =====
-- The ticks of the two threads that `start` of agent/factoryfleet_agent/agent.py starts, over the
-- built-in sensors.
use factoryfleet.Base.{ℕ, Bool, List, [], ◌∷◌, map, All}
use factoryfleet.Agent.Calls.{Call, IsFine}
use factoryfleet.Results.{Result, ok, raised}
use factoryfleet.Sensors.BuiltIn.Cycle.{AreReadings-IsSound, sample_all_total}
use factoryfleet.Sensors.BuiltIn.{BuiltIn, Surroundings, id_of, sample_all}
use factoryfleet.Sensors.Options.{Floats, AreDoubles}
use factoryfleet.Sensors.Reading.{Reading}
use factoryfleet.Timeutil.{Datetime, IsDatetime}

-- A tick of one of the two threads: of the sampler, with the statements that fail, the sensors' readings
-- of the clock, the runner's and the store's; or of the publisher.
pub data Tick : Type 0 where
  sampler : (ℕ → Bool) → (ℕ → Datetime) → Datetime → Datetime → Tick
  publisher : Tick

abbrev pub IsTimely : Tick → Type 0
IsTimely (sampler fails clock batched_at now) =
    ((n : ℕ) → IsDatetime (clock n)) × IsDatetime batched_at × IsDatetime now
IsTimely publisher = Unit

-- A sensor that raises ends the cycle before it writes.
unfoldable with_readings :
    (ℕ → Bool) → Datetime → Datetime → Result (List Reading) → List Call → List Call
with_readings fails batched_at now (raised e) calls = calls
with_readings fails batched_at now (ok readings) calls =
    Call.cycle fails batched_at now readings ∷ calls

module _ (F : Floats) (around : Surroundings F) where
  -- `sample_once` and `drain_once`, as the ticks call them, on the sensors that each cycle leaves to
  -- the next.
  unfoldable pub calls_of : List Tick → List (BuiltIn F) → List Call
  unfolding with_readings
  calls_of [] sensors = []
  calls_of (publisher ∷ ticks) sensors = Call.drain ∷ calls_of ticks sensors
  calls_of (sampler fails clock batched_at now ∷ ticks) sensors =
      let (read, after) = sample_all F around clock 0 sensors in
      with_readings fails batched_at now read (calls_of ticks after)

  pub calls_of-IsFine :
      (ticks : List Tick) (sensors : List (BuiltIn F))
      → AreDoubles F
      → All IsTimely ticks
      → All IsFine (calls_of ticks sensors)
  unfolding calls_of with_readings
  calls_of-IsFine [] sensors D timely = tt
  calls_of-IsFine (publisher ∷ ticks) sensors D timely =
      (tt, calls_of-IsFine ticks sensors D timely.1)
  calls_of-IsFine (sampler fails clock batched_at now ∷ ticks) sensors D (timely, later) =
      let (rs, after, done, fit, _) = sample_all_total F D around clock 0 sensors in
      let sound = AreReadings-IsSound clock timely.0 0 (map id_of sensors) rs fit in
      rw done ((sound, timely.1, timely.2), calls_of-IsFine ticks after D later)
