-- ===== src/Sensors/CycleCount/Counts.antt =====
-- The counter of agent/factoryfleet_agent/sensors/cycle_count.py only counts up.
use factoryfleet.Base.{
  ◌⊎◌, ℕ, ◌+◌, ◌≤◌, ◌≡◌, refl, sym, ap, ◌∙◌, false, ◌&&◌, String, some, List, [], ◌∷◌, arith,
  Bool-cases, inl, inr,
}
use factoryfleet.Json.{ℤ, Float, int, float}
use factoryfleet.Json.Int.{◌+ℤ◌}
use factoryfleet.Results.{
  Result, ok, raised, ◌>>=◌, raised-ne-ok, ok-injective, Ensures, Ensures-ok, Ensures-intro, Tame,
  Tame-ok, Tame-raised, Tame-bind,
}
use factoryfleet.Sensors.CycleCount.{
  CycleCountSensor, Counter, produced_in, report, counted, read_minutes, read, cycle_count,
}
use factoryfleet.Sensors.CycleCount.Rate.{rate-Ensures, rate-Tame}
use factoryfleet.Sensors.Metrics.{Value, number, mapping, metric, last_value}
use factoryfleet.Sensors.Options.{Floats, AreDoubles, nought, max, max_lem}
use factoryfleet.Sensors.Reading.{Reading, healthy}
use factoryfleet.Sensors.Sample.{sample}
use factoryfleet.Sensors.Sample.Laws.{RaisesExceptions}
use factoryfleet.Sensors.Sample.Measured.{
  Measures, metric-float, HasFailed, HasFailed-cases, mapping-injective, sample-Measures,
  sample-keeps,
}
use factoryfleet.Sensors.Simulation.{elapsed_seconds}
use factoryfleet.Timeutil.{Datetime}

add_pos : (m n : ℕ) → ℤ.pos m +ℤ ℤ.pos n ≡ ℤ.pos (m + n)
unfolding ◌+ℤ◌
add_pos m n = ground arith

module _ (F : Floats) where
  -- What an errorless reading says when the object's total is `n`.
  pub record Tells (n : ℕ) (r : Reading) : Type 0 where
    pub per_minute : Float
    pub total_reading : metric "cycles_total" r.metrics ≡ some (int (ℤ.pos n))
    pub rate_reading : metric "cycles_per_minute" r.metrics ≡ some (float per_minute)
    pub not_below : F.gt nought per_minute ≡ false
    pub judged : r.condition ≡ healthy

module _ (F : Floats) (D : AreDoubles F) (clock : ℕ → Datetime) (self : CycleCountSensor) where
  produced_in-IsNonneg :
      (minutes : Float) (rng : F.Random)
      → F.gt nought (produced_in F clock self minutes rng).0 ≡ false
  unfolding produced_in
  produced_in-IsNonneg minutes rng =
      elim (Bool-cases (F.gt (F.mul self.nominal_rate minutes) nought && F.gt self.jitter nought)) [
        | inl noisy ↦ rw noisy (max_lem F D nought _)
        | inr steady ↦ rw steady (max_lem F D nought _)
      ]

  -- The mapping that `read` returns.
  abbrev entries_at : ℤ → Float → Float → List (String × Value)
  entries_at total per_minute uptime =
      ("cycles_total", number (int total))
      ∷ ("cycles_per_minute", number (float (F.round per_minute 2)))
      ∷ ("uptime_seconds", number (float (F.round uptime 1)))
      ∷ []

  -- What was returned is such a mapping for this total, with a rate that is not below zero.
  abbrev Reports : ℤ → List (String × Value) → Type 0
  Reports total entries =
      (per_minute : Float) × (uptime : Float) × (entries ≡ entries_at total per_minute uptime)
      × (F.gt nought per_minute ≡ false)

  report_rate :
      (r : Result Float) (total : ℤ) (uptime : Float) (entries : List (String × Value))
      → Ensures (λ x. F.gt nought x ≡ false) r
      → (do per_minute ← r; ok (mapping (entries_at total per_minute uptime)))
        ≡ ok (mapping entries)
      → Reports total entries
  report_rate (raised e) total uptime entries h q = absurd (raised-ne-ok q)
  report_rate (ok x) total uptime entries h q = (x, uptime, mapping-injective q, Ensures-ok h refl)

  -- An up-count: the total was a count and is one that is no less.
  abbrev pub CountsUp : Counter F → Counter F → Type 0
  CountsUp s t = (m : ℕ) → s.cycles_total ≡ ℤ.pos m → (n : ℕ) × (t.cycles_total ≡ ℤ.pos n) × (m ≤ n)

  counted-CountsUp :
      (produced minutes : Float) (r : Result ℤ) (s : Counter F)
      → Ensures (λ i. (n : ℕ) × (i ≡ ℤ.pos n)) r
      → CountsUp s (counted F clock self produced minutes r s).1
  unfolding counted
  counted-CountsUp produced minutes (raised e) s h m q = (m, q, omega arith)
  counted-CountsUp produced minutes (ok i) s h m q =
      let (k, e) = Ensures-ok h refl in (m + k, rw (q, e) (add_pos m k), omega arith)

  counted-Reports :
      (produced minutes : Float) (r : Result ℤ) (s : Counter F) (entries : List (String × Value))
      (m : ℕ)
      → F.gt nought produced ≡ false
      → s.cycles_total ≡ ℤ.pos m
      → Ensures (λ i. (n : ℕ) × (i ≡ ℤ.pos n)) r
      → (counted F clock self produced minutes r s).0 ≡ ok (mapping entries)
      → Reports (counted F clock self produced minutes r s).1.cycles_total entries
  unfolding counted report
  counted-Reports produced minutes (raised e) s entries m p q h g = absurd (raised-ne-ok g)
  counted-Reports produced minutes (ok i) s entries m p q h g =
      let (k, e) = Ensures-ok h refl in
      let total : s.cycles_total +ℤ i ≡ ℤ.pos (m + k) = rw (q, e) (add_pos m k) in
      report_rate _ _ (elapsed_seconds F self.started_at (clock s.reads)) entries
        (rw total (rate-Ensures F D produced minutes _ (m + k) p)) g

  rounded :
      (x : Float) → F.gt nought x ≡ false → Ensures (λ i. (n : ℕ) × (i ≡ ℤ.pos n)) (F.int_round x)
  rounded x h = Ensures-intro (F.int_round x) (λ i e. D.int_round-keeps x i h e)

  read_minutes-CountsUp :
      (r : Result Float) (s : Counter F) → CountsUp s (read_minutes F clock self r s).1
  unfolding read_minutes
  read_minutes-CountsUp (raised e) s m q = (m, q, omega arith)
  read_minutes-CountsUp (ok since) s m q =
      counted-CountsUp _ (max F nought since) _ _
        (rounded _ (produced_in-IsNonneg (max F nought since) s.rng)) m q

  read_minutes-Reports :
      (r : Result Float) (s : Counter F) (entries : List (String × Value)) (m : ℕ)
      → s.cycles_total ≡ ℤ.pos m
      → (read_minutes F clock self r s).0 ≡ ok (mapping entries)
      → Reports (read_minutes F clock self r s).1.cycles_total entries
  unfolding read_minutes
  read_minutes-Reports (raised e) s entries m q g = absurd (raised-ne-ok g)
  read_minutes-Reports (ok since) s entries m q g =
      let p = produced_in-IsNonneg (max F nought since) s.rng in
      counted-Reports _ (max F nought since) _ _ entries m p q (rounded _ p) g

  read-CountsUp : (s : Counter F) → CountsUp s (read F clock self s).1
  unfolding read
  read-CountsUp s = read_minutes-CountsUp _ s

  counted-Tame :
      (produced minutes : Float) (r : Result ℤ) (s : Counter F)
      → Tame r
      → Tame (counted F clock self produced minutes r s).0
  unfolding counted report
  counted-Tame produced minutes (raised e) s h = Tame-raised e h
  counted-Tame produced minutes (ok i) s h =
      Tame-bind _ _ (rate-Tame F D produced minutes _ (s.cycles_total +ℤ i)) (λ x. Tame-ok _)

  read_minutes-Tame :
      (r : Result Float) (s : Counter F) → Tame r → Tame (read_minutes F clock self r s).0
  unfolding read_minutes
  read_minutes-Tame (raised e) s h = Tame-raised e h
  read_minutes-Tame (ok since) s h = counted-Tame _ _ _ _ (D.int_round_errors _)

  pub RaisesExceptions-cycle_count : RaisesExceptions (cycle_count F clock self)
  unfolding read
  RaisesExceptions-cycle_count = record {
    read-exception = λ s e h. read_minutes-Tame _ s (D.div_errors _ _) e h;
    evaluate-exception = λ metrics s e h. absurd (raised-ne-ok (sym h));
  }

  tells :
      (s : Counter F) (m n : ℕ) (r : Reading)
      → s.cycles_total ≡ ℤ.pos m
      → (read F clock self s).1.cycles_total ≡ ℤ.pos n
      → Measures (cycle_count F clock self) s r
      → Tells F n r
  unfolding read last_value
  tells s m n r q after measured =
      let (per_minute, uptime, e, p) =
        read_minutes-Reports _ s measured.entries m q measured.was_read in
      record {
        per_minute = F.round per_minute 2;
        total_reading = metric-float (metric "cycles_total" r.metrics) (
            measured.agrees "cycles_total"
            ∙ ap (last_value "cycles_total") e
            ∙ ap (λ i. some (number (int i))) after);
        rate_reading =
            metric-float (metric "cycles_per_minute" r.metrics)
              (measured.agrees "cycles_per_minute" ∙ ap (last_value "cycles_per_minute") e);
        not_below = D.round-keeps per_minute 2 p;
        judged = sym (ok-injective measured.was_judged);
      }

  -- Over doubles, a cycle counter never raises in `sample`, and its total never goes down, not even
  -- where the reading fails. A reading has failed with an error text or has the object's new total
  -- and a rate that is not below zero, and is healthy.
  pub sample-cycle_count :
      (now : Datetime) (s : Counter F) (m : ℕ)
      → s.cycles_total ≡ ℤ.pos m
      → (r : Reading) × (n : ℕ) × ((sample (cycle_count F clock self) now s).0 ≡ ok r)
        × ((sample (cycle_count F clock self) now s).1.cycles_total ≡ ℤ.pos n)
        × (m ≤ n)
        × (HasFailed r ⊎ Tells F n r)
  sample-cycle_count now s m q =
      let sensor = cycle_count F clock self in
      let (r, done, measures) = sample-Measures sensor now RaisesExceptions-cycle_count s in
      let (n, after, up) = read-CountsUp s m q in
      (
        r,
        n,
        done,
        ap (λ (t : Counter F). t.cycles_total)
              (sample-keeps sensor now RaisesExceptions-cycle_count s (λ ms t. refl))
            ∙ after,
        up,
        HasFailed-cases r.error (λ fine. tells s m n r q after (measures fine)),
      )
