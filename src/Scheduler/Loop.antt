-- ===== src/Scheduler/Loop.antt =====
-- The loop of a scheduler: it ends only when it is asked to, it counts every tick and every error,
-- and its waits keep the interval.
use mathlib.Core.List.{append_assoc, append-nil}
use mathlib.Core.Path.{subst}
use native.Mathlib.Nat.{add-zero}
use factoryfleet.Base.{
  ap, leb, ◌-◌, ℕ, zero, suc, ◌+◌, ◌≤◌, ◌<◌, ◌≡◌, refl, sym, ◌∙◌, true, Option, none, some, List,
  [], ◌∷◌, ◌++◌, arith, Bool-cases, inl, inr, ◌⊎◌, if◌then◌else◌,
}
use factoryfleet.Results.{Error, Result, ok, raised, Result-cases}
use factoryfleet.Scheduler.{
  Timeout, lasting, below_zero, endless, not_a_number, ended_by, Environment, Scheduler, rest_of,
  ticked, tick, report, loop, waited, swallowed,
}

-- The raising ones among the `count` iterations from `n`.
abbrev pub failures : Environment → ℕ → ℕ → ℕ
failures env n zero = 0
failures env n (suc count) = (if env.raises n then 1 else 0) + failures env (suc n) count

-- The timeout that keeps the interval after a tick: a tick that took as long or longer gets no rest,
-- and a shorter one what makes it up to the interval. An endless interval is waited for in full, and
-- NaN not at all.
abbrev pub left_of : Timeout → ℕ → Timeout
left_of (lasting interval) elapsed =
    if leb interval elapsed then lasting 0 else lasting (interval - elapsed)
left_of below_zero elapsed = lasting 0
left_of endless elapsed = endless
left_of not_a_number elapsed = lasting 0

abbrev pub left_after : Environment → Timeout → ℕ → Timeout
left_after env interval n = left_of interval (env.ended n - env.started n)

-- The timeouts that keep the interval over `count` iterations from `n`.
abbrev pub timeouts : Environment → Timeout → ℕ → ℕ → List Timeout
timeouts env interval n zero = []
timeouts env interval n (suc count) =
    left_after env interval n ∷ timeouts env interval (suc n) count

rest_of-left : (interval : Timeout) (a b : ℕ) → rest_of interval a b ≡ left_of interval (b - a)
unfolding rest_of
rest_of-left (lasting interval) a b = elim (Bool-cases (leb interval (b - a))) [
  | inl over ↦ rw over (ap lasting (ground (arith, over)))
  | inr short ↦ rw short refl
]
rest_of-left below_zero a b = refl
rest_of-left endless a b = refl
rest_of-left not_a_number a b = refl

-- After `count` ticks from iteration `n` the loop was asked to stop: by the event before the next
-- tick, or by the wait after the last one.
abbrev pub AskedToStop : Environment → Timeout → ℕ → ℕ → Type 0
AskedToStop env interval n zero = env.is_stopped n ≡ true
AskedToStop env interval n (suc count) =
    ((count ≡ 0) × (env.wait n (left_after env interval n) ≡ ok true))
    ⊎ AskedToStop env interval (suc n) count

-- What a loop that ended at `t` after `count` ticks from iteration `n` has done.
pub record Looped (env : Environment) (n : ℕ) (s : Scheduler) (count : ℕ) (t : Scheduler)
    : Type 0 where
  pub ticks_counted : t.ticks ≡ s.ticks + count
  pub errors_counted : t.errors ≡ s.errors + failures env n count
  pub waits_kept : t.waits ≡ s.waits ++ timeouts env s.interval n count
  pub interval_kept : t.interval ≡ s.interval
  pub asked : AskedToStop env s.interval n count

-- Nothing that the handler does leaves `_report`.
swallowed-ok : (r : Result (Unit {0})) → swallowed r ≡ ok tt
unfolding swallowed
swallowed-ok (ok _) = refl
swallowed-ok (raised e) = refl

report-ok : (handler : Option (ℕ → Result (Unit {0}))) (n : ℕ) → report handler n ≡ ok tt
unfolding report
report-ok none n = refl
report-ok (some handler) n = swallowed-ok (handler n)

module _ (env : Environment) where
  tick-ok : (n : ℕ) (s : Scheduler) → tick env n s ≡ ok (ticked env n s)
  unfolding tick
  tick-ok n s = elim (Bool-cases (env.raises n)) [
    | inl failed ↦ rw (failed, report-ok env.on_error n) refl
    | inr fine ↦ rw fine refl
  ]

  Looped-zero : (n : ℕ) (s : Scheduler) → env.is_stopped n ≡ true → Looped env n s 0 s
  Looped-zero n s stopped = record {
    ticks_counted = omega arith;
    errors_counted = omega arith;
    waits_kept = sym (append-nil s.waits);
    interval_kept = refl;
    asked = stopped;
  }

  Looped-one :
      (n : ℕ) (s : Scheduler)
      → env.wait n (left_after env s.interval n) ≡ ok true
      → Looped env n s 1 (ticked env n s)
  unfolding ticked
  Looped-one n s asked = record {
    ticks_counted = refl;
    errors_counted = ground arith;
    waits_kept = rw (rest_of-left s.interval (env.started n) (env.ended n)) refl;
    interval_kept = refl;
    asked = inl (refl, asked);
  }

  Looped-suc :
      (n : ℕ) (s : Scheduler) (count : ℕ) (t : Scheduler)
      → Looped env (suc n) (ticked env n s) count t
      → Looped env n s (suc count) t
  unfolding ticked
  Looped-suc n s count t d = record {
    ticks_counted = omega (arith, d.ticks_counted);
    errors_counted = ground (arith, d.errors_counted);
    waits_kept =
        d.waits_kept
        ∙ rw (rest_of-left s.interval (env.started n) (env.ended n))
            (append_assoc s.waits (_ ∷ []) _);
    interval_kept = d.interval_kept;
    asked = inr d.asked;
  }

  -- How a loop from iteration `n` ends that is asked to stop within `k` ticks.
  pub data Ends (k n : ℕ) (s : Scheduler) : Option (Result Scheduler) → Type 0 where
    by_request :
        (count : ℕ) (t : Scheduler) → Looped env n s count t → count ≤ k → Ends k n s (some (ok t))
    by_wait :
        (m : ℕ) (e : Error)
        → n ≤ m
        → m < n + k
        → env.wait m (left_after env s.interval m) ≡ raised e
        → Ends k n s (some (raised e))

  Ends-suc :
      (k n : ℕ) (s : Scheduler) (out : Option (Result Scheduler))
      → Ends k (suc n) (ticked env n s) out
      → Ends (suc k) n s out
  unfolding ticked
  Ends-suc k n s _ (by_request count t d few) =
      by_request (suc count) t (Looped-suc n s count t d) (omega (arith, few))
  Ends-suc k n s _ (by_wait m e low high failed) =
      by_wait m e (omega (arith, low)) (omega (arith, high)) failed

  -- Whatever the task and the handler of its errors do, and even where every tick and every call of
  -- the handler raises: if the stop event is set before the k-th iteration from n, the loop ends
  -- within k ticks, and only because it was asked to, or because a wait raised on the timeout that
  -- it was given; no other exception ends it. Where it was asked to, every tick was counted, every
  -- raise was counted as an error, and each wait was what is left of the interval after its tick:
  -- nothing after a tick that took as long, nothing where the interval is NaN, and the whole of an
  -- infinite one.
  pub loop_total :
      (fuel k n : ℕ) (s : Scheduler)
      → k < fuel
      → env.is_stopped (n + k) ≡ true
      → Ends k n s (loop env fuel n s)
  unfolding loop waited ended_by
  loop_total zero k n s enough stop = absurd (omega arith)
  loop_total (suc fuel) zero n s enough stop =
      let now : env.is_stopped n ≡ true = subst (λ m. env.is_stopped m ≡ true) (add-zero n) stop in
      rw now (by_request 0 s (Looped-zero n s now) (omega arith))
  loop_total (suc fuel) (suc k) n s enough stop = elim (Bool-cases (env.is_stopped n)) [
    | inl now ↦ rw now (by_request 0 s (Looped-zero n s now) (omega arith))
    | inr running ↦
        let same = ap (env.wait n) (rest_of-left s.interval (env.started n) (env.ended n)) in
        elim (Result-cases (env.wait n (left_after env s.interval n))) [
          | inr (e, failed) ↦
              rw (running, tick-ok n s, same ∙ failed)
                (by_wait n e (omega arith) (omega arith) failed)
          | inl (asked, answered) ↦ elim (Bool-cases asked) [
            | inl stop_now ↦
                let stops = answered ∙ ap ok stop_now in
                rw (running, tick-ok n s, same ∙ stops)
                  (by_request 1 (ticked env n s) (Looped-one n s stops) (omega arith))
            | inr goes_on ↦
                let later : env.is_stopped (suc n + k) ≡ true =
                  subst (λ m. env.is_stopped m ≡ true) (omega arith) stop in
                rw (running, tick-ok n s, same ∙ (answered ∙ ap ok goes_on))
                  (Ends-suc k n s _
                    (loop_total fuel k (suc n) (ticked env n s) (omega arith) later))
          ]
        ]
  ]
