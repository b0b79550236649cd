-- ===== src/Runner/Sampling.antt =====
-- The whole of `SamplingRunner.sample_once` of agent/factoryfleet_agent/runner.py over the built-in
-- sensors: the readings, the transaction, and the line that `_log_cycle` logs.
use factoryfleet.Base.{
  ℕ, ◌≡◌, refl, ap, Bool, true, false, String, List, [], ◌∷◌, map, length, filter, All, arith, ◌⊎◌,
  inl, inr, ◌↔◌,
}
use factoryfleet.Results.{Result, ok, raised, ◌>>=◌}
use factoryfleet.Runner.{Runner, sample_once}
use factoryfleet.Sensors.BuiltIn.{BuiltIn}
use factoryfleet.Sensors.Reading.{Reading, SensorCondition, healthy, critical, failed}
use factoryfleet.Store.Types.{Outcome}
use factoryfleet.System.{System}
use factoryfleet.Timeutil.{Datetime}

-- What a cycle over `sensors` does after the readings are taken; a sensor that raises ends it.
unfoldable pub sample_readings :
    (ℕ → Bool)
    → Datetime
    → Datetime
    → Result (List Reading)
    → Runner
    → Outcome (List Reading) × Runner
sample_readings fails batched_at now (raised e) r = (Outcome.raised e.type_name, r)
sample_readings fails batched_at now (ok readings) r = sample_once fails batched_at now readings r

-- The line of the log, with the number of readings and the ids that it names.
pub data LogLine : Type 0 where
  past_limits could_not_be_read : ℕ → List String → LogLine
  within_limits : ℕ → LogLine

abbrev is_critical : Reading → Bool
is_critical r = elim r.condition [ critical ↦ true | _ ↦ false ]

abbrev is_failed : Reading → Bool
is_failed r = elim r.condition [ failed ↦ true | _ ↦ false ]

abbrev ids : List Reading → List String
ids = map (λ r. r.sensor_id)

-- `if critical`, `elif failed`
unfoldable worst : ℕ → List String → List String → LogLine
worst n [] [] = within_limits n
worst n [] (i ∷ is) = could_not_be_read n (i ∷ is)
worst n (i ∷ is) unread = past_limits n (i ∷ is)

-- `_log_cycle`
unfoldable pub log_cycle : List Reading → LogLine
unfolding worst
log_cycle readings =
    worst (length readings) (ids (filter is_critical readings)) (ids (filter is_failed readings))

abbrev is_within : LogLine → Bool
is_within (within_limits n) = true
is_within (past_limits n is) = false
is_within (could_not_be_read n is) = false

worst-within :
    (n m : ℕ) (past unread : List String)
    → worst n past unread ≡ within_limits m
    → (past ≡ []) × (unread ≡ [])
unfolding worst
worst-within n m [] [] e = (refl, refl)
worst-within n m [] (i ∷ is) e = absurd (ground (arith, ap is_within e))
worst-within n m (i ∷ is) unread e = absurd (ground (arith, ap is_within e))

abbrev is_nil : List String → Bool
is_nil [] = true
is_nil (i ∷ is) = false

condition-cases : (c : SensorCondition) → (c ≡ healthy) ⊎ ((c ≡ critical) ⊎ (c ≡ failed))
condition-cases healthy = inl refl
condition-cases critical = inr (inl refl)
condition-cases failed = inr (inr refl)

all_healthy :
    (rs : List Reading)
    → ids (filter is_critical rs) ≡ []
    → ids (filter is_failed rs) ≡ []
    → All (λ r. r.condition ≡ healthy) rs
all_healthy [] e f = tt
all_healthy (r ∷ rs) e f = elim (condition-cases r.condition) [
  | inl fine ↦ (fine, all_healthy rs (rw fine at e) (rw fine at f))
  | inr (inl past) ↦ absurd (ground (arith, ap is_nil (rw past at e)))
  | inr (inr bad) ↦ absurd (ground (arith, ap is_nil (rw bad at f)))
]

none_named :
    (rs : List Reading)
    → All (λ r. r.condition ≡ healthy) rs
    → (ids (filter is_critical rs) ≡ []) × (ids (filter is_failed rs) ≡ [])
none_named [] h = (refl, refl)
none_named (r ∷ rs) h = rw h.0 (none_named rs h.1)

-- The line says that all is within limits exactly if every reading is OK.
pub log_cycle-within :
    (rs : List Reading)
    → (log_cycle rs ≡ within_limits (length rs)) ↔ All (λ r. r.condition ≡ healthy) rs
unfolding log_cycle worst
log_cycle-within rs = (
  λ e. (let (past, unread) = worst-within _ _ _ _ e in all_healthy rs past unread),
  λ h. (let (past, unread) = none_named rs h in rw (past, unread) refl),
)
