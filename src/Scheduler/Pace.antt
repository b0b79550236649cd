-- ===== src/Scheduler/Pace.antt =====
-- The pace of a scheduler from its constructor on: how often it ticks and how long it waits.
use mathlib.Core.Path.{subst}
use factoryfleet.Base.{
  some-injective, ℕ, zero, suc, ◌-◌, ◌≤◌, ◌<◌, ◌≡◌, refl, sym, ap, ◌∙◌, Bool, true, false, some,
  none, [], arith, leb, All, if◌then◌else◌, Bool-cases, inl, inr, Option,
}
use factoryfleet.Results.{Error, Result, ok, raised, Result-cases}
use factoryfleet.Scheduler.Loop.{
  failures, timeouts, left_of, left_after, Looped, Ends, by_request, by_wait, loop_total,
}
use factoryfleet.Scheduler.{
  Timeout, lasting, below_zero, endless, not_a_number, is_refused, Environment, Scheduler, create,
  run, ended_by,
}

-- A positive number, infinity, or NaN, which is not at most 0 either.
abbrev pub IsTaken : Timeout → Type 0
IsTaken (lasting i) = 1 ≤ i
IsTaken below_zero = ⊥
IsTaken endless = Unit
IsTaken not_a_number = Unit

-- No longer than the interval; a wait of 0 is no longer than any.
abbrev pub IsWithin : Timeout → Timeout → Type 0
IsWithin (lasting i) (lasting w) = w ≤ i
IsWithin below_zero (lasting w) = w ≡ 0
IsWithin endless (lasting w) = w ≡ 0
IsWithin not_a_number (lasting w) = w ≡ 0
IsWithin endless endless = Unit
IsWithin _ _ = ⊥

IsTaken-accepted : (i : Timeout) → is_refused i ≡ false → IsTaken i
IsTaken-accepted (lasting i) h = ground (arith, h)
IsTaken-accepted below_zero h = absurd (ground (arith, h))
IsTaken-accepted endless h = tt
IsTaken-accepted not_a_number h = tt

-- A scheduler that has just been made.
record IsNew (interval : Timeout) (s : Scheduler) : Type 0 where
  taken : IsTaken interval
  interval_given : s.interval ≡ interval
  no_ticks : s.ticks ≡ 0
  no_errors : s.errors ≡ 0
  no_waits : s.waits ≡ []

abbrev new_scheduler : Timeout → Bool → Scheduler
new_scheduler interval run_immediately = record {
  interval = interval;
  run_immediately = run_immediately;
  ticks = 0;
  errors = 0;
  waits = [];
}

none-ne-some : {A : Type 0} (x : A) → none ≡ some x → ⊥
none-ne-some x e = cc

create-IsNew :
    (interval : Timeout) (run_immediately : Bool) (s : Scheduler)
    → create interval run_immediately ≡ some s
    → IsNew interval s
unfolding create
create-IsNew interval run_immediately s made = elim (Bool-cases (is_refused interval)) [
  | inl low ↦ absurd (none-ne-some s (rw low at made))
  | inr high ↦
      let made_so : some (new_scheduler interval run_immediately) ≡ some s = rw high at made in
      subst (IsNew interval) (some-injective _ _ made_so) (record {
        taken = IsTaken-accepted interval high;
        interval_given = refl;
        no_ticks = refl;
        no_errors = refl;
        no_waits = refl;
      })
]

left_of-IsWithin : (interval : Timeout) (elapsed : ℕ) → IsWithin interval (left_of interval elapsed)
left_of-IsWithin (lasting i) elapsed = elim (Bool-cases (leb i elapsed)) [
  | inl over ↦ rw over (omega arith)
  | inr short ↦ rw short (omega arith)
]
left_of-IsWithin below_zero elapsed = refl
left_of-IsWithin endless elapsed = tt
left_of-IsWithin not_a_number elapsed = refl

module _ (env : Environment) (interval : Timeout) where
  failures-le : (n count : ℕ) → failures env n count ≤ count
  failures-le n zero = omega arith
  failures-le n (suc count) = ground (arith, failures-le (suc n) count)

  timeouts-IsWithin : (n count : ℕ) → All (IsWithin interval) (timeouts env interval n count)
  timeouts-IsWithin n zero = tt
  timeouts-IsWithin n (suc count) =
      (left_of-IsWithin interval (env.ended n - env.started n), timeouts-IsWithin (suc n) count)

-- What a scheduler has done when its thread has ended.
pub record IsPaced (env : Environment) (interval : Timeout) (limit : ℕ) (t : Scheduler)
    : Type 0 where
  pub interval_kept : t.interval ≡ interval
  pub few_ticks : t.ticks ≤ limit
  pub errors_among_ticks : t.errors ≤ t.ticks
  pub paced : t.waits ≡ timeouts env interval 0 t.ticks
  pub short_waits : All (IsWithin interval) t.waits

Looped-IsPaced :
    (env : Environment) (interval : Timeout) (limit count : ℕ) (s t : Scheduler)
    → IsNew interval s
    → Looped env 0 s count t
    → count ≤ limit
    → IsPaced env interval limit t
Looped-IsPaced env interval limit count s t new d few =
    let ticks : t.ticks ≡ count = omega (arith, d.ticks_counted, new.no_ticks) in
    let waits : t.waits ≡ timeouts env interval 0 count =
      ground (arith, d.waits_kept, new.no_waits, new.interval_given) in
    record {
      interval_kept = d.interval_kept ∙ new.interval_given;
      few_ticks = omega (arith, ticks, few);
      errors_among_ticks = omega (
        arith,
        d.errors_counted,
        d.ticks_counted,
        new.no_ticks,
        new.no_errors,
        failures-le env interval 0 count,
      );
      paced = waits ∙ ap (λ k. timeouts env interval 0 k) (sym ticks);
      short_waits =
          subst (All (IsWithin interval)) (sym waits) (timeouts-IsWithin env interval 0 count);
    }

module _ (env : Environment) (first_wait : Timeout → Result Bool) (interval : Timeout) where
  -- How the thread ends that is asked to stop within `k` ticks.
  pub data Finishes (k : ℕ) : Option (Result Scheduler) → Type 0 where
    by_stop : (t : Scheduler) → IsPaced env interval k t → Finishes k (some (ok t))
    by_tick_wait :
        (m : ℕ) (e : Error)
        → m < k
        → env.wait m (left_after env interval m) ≡ raised e
        → Finishes k (some (raised e))
    by_first_wait : (e : Error) → first_wait interval ≡ raised e → Finishes k (some (raised e))

  looped-Finishes :
      (k : ℕ) (s : Scheduler) (out : Option (Result Scheduler))
      → IsNew interval s
      → Ends env k 0 s out
      → Finishes k out
  looped-Finishes k s _ new (by_request count t d few) =
      by_stop t (Looped-IsPaced env interval k count s t new d few)
  looped-Finishes k s _ new (by_wait m e low high failed) =
      by_tick_wait m e (omega (arith, high)) (rw new.interval_given at failed)

  unstarted-IsPaced : (k : ℕ) (s : Scheduler) → IsNew interval s → IsPaced env interval k s
  unstarted-IsPaced k s new = record {
    interval_kept = new.interval_given;
    few_ticks = omega (arith, new.no_ticks);
    errors_among_ticks = omega (arith, new.no_ticks, new.no_errors);
    paced = new.no_waits ∙ ap (λ n. timeouts env interval 0 n) (sym new.no_ticks);
    short_waits = subst (All (IsWithin interval)) (sym new.no_waits) tt;
  }

  either-Finishes :
      (k : ℕ) (b : Bool) (x y : Option (Result Scheduler))
      → Finishes k x
      → Finishes k y
      → Finishes k (if b then x else y)
  either-Finishes k true x y p q = p
  either-Finishes k false x y p q = q

  -- Whatever the task and the handler of its errors do: the constructor accepts only a positive
  -- number, infinity or NaN; and if the stop event is set before the k-th iteration, the thread ends
  -- within k ticks, whether or not it waits first. It ends because it was asked to, or because a
  -- wait raised on its timeout. Where it was asked to, at most as many ticks raised as there were,
  -- and after each tick it waited once, for what was left of the interval: never longer than the
  -- interval, and not at all where the tick took as long or the interval is NaN.
  pub run_total :
      (fuel k : ℕ) (run_immediately : Bool) (s : Scheduler)
      → create interval run_immediately ≡ some s
      → k < fuel
      → env.is_stopped k ≡ true
      → IsTaken interval × Finishes k (run env first_wait fuel s)
  unfolding run ended_by
  run_total fuel k run_immediately s made enough stop =
      let new = create-IsNew interval run_immediately s made in
      let looped = looped-Finishes k s _ new (
        loop_total env fuel k 0 s enough
          (subst (λ m. env.is_stopped m ≡ true) (omega arith) stop)) in
      (
        new.taken,
        either-Finishes k s.run_immediately _ _ looped (elim (Result-cases (first_wait interval)) [
          | inr (e, failed) ↦
              rw (ap first_wait new.interval_given ∙ failed) (by_first_wait e failed)
          | inl (asked, answered) ↦ elim (Bool-cases asked) [
            | inl stop_now ↦
                rw (ap first_wait new.interval_given ∙ (answered ∙ ap ok stop_now))
                  (by_stop s (unstarted-IsPaced k s new))
            | inr goes_on ↦
                rw (ap first_wait new.interval_given ∙ (answered ∙ ap ok goes_on)) looped
          ]
        ]),
      )
