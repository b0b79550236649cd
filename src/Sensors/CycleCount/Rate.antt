-- ===== src/Sensors/CycleCount/Rate.antt =====
-- The rate of agent/factoryfleet_agent/sensors/cycle_count.py is not below zero.
use factoryfleet.Base.{ℕ, ◌≡◌, true, false, Bool-cases, inl, inr}
use factoryfleet.Json.{ℤ, Float}
use factoryfleet.Results.{
  Ensures, returns, Ensures-bind, Ensures-any, Ensures-intro, Tame, Tame-ok, Tame-bind,
}
use factoryfleet.Sensors.CycleCount.{min_rate_window_minutes, average, rate}
use factoryfleet.Sensors.Options.{Floats, AreDoubles, literal, nought}

module _ (F : Floats) (D : AreDoubles F) where
  -- Not below zero.
  abbrev pub IsNonneg : Float → Type 0
  IsNonneg x = F.gt nought x ≡ false

  div-Ensures : (x y : Float) → IsNonneg x → F.gt y nought ≡ true → Ensures IsNonneg (F.div x y)
  div-Ensures x y h k = Ensures-intro (F.div x y) (λ q e. D.div-keeps x y q h k e)

  average-Ensures : (minutes : Float) (n : ℕ) → Ensures IsNonneg (average F minutes (ℤ.pos n))
  unfolding average
  average-Ensures minutes n = elim (Bool-cases (F.gt minutes nought)) [
    | inl running ↦ rw running (
        Ensures-bind (Ensures-intro (F.of_int (ℤ.pos n)) (λ x e. D.of_int-keeps n x e))
          (λ x h. div-Ensures x minutes h running))
    | inr started ↦ rw started (returns (D.gt_irrefl nought))
  ]

  pub rate-Ensures :
      (produced minutes uptime : Float) (n : ℕ)
      → IsNonneg produced
      → Ensures IsNonneg (rate F produced minutes uptime (ℤ.pos n))
  unfolding rate
  rate-Ensures produced minutes uptime n h =
      elim (Bool-cases (F.ge minutes min_rate_window_minutes)) [
        | inl wide ↦ rw wide (
            div-Ensures produced minutes h
              (D.ge_gt_trans minutes min_rate_window_minutes nought wide (D.gt_nought _ _)))
        | inr narrow ↦
            rw narrow
              (Ensures-bind (Ensures-any (F.div uptime (literal 60))) (λ m _. average-Ensures m n))
      ]

  average-Tame : (minutes : Float) (total : ℤ) → Tame (average F minutes total)
  unfolding average
  average-Tame minutes total = elim (Bool-cases (F.gt minutes nought)) [
    | inl running ↦
        rw running
          (Tame-bind (F.of_int total) _ (D.of_int_errors total) (λ x. D.div_errors x minutes))
    | inr started ↦ rw started (Tame-ok nought)
  ]

  pub rate-Tame :
      (produced minutes uptime : Float) (total : ℤ) → Tame (rate F produced minutes uptime total)
  unfolding rate
  rate-Tame produced minutes uptime total =
      elim (Bool-cases (F.ge minutes min_rate_window_minutes)) [
        | inl wide ↦ rw wide (D.div_errors produced minutes)
        | inr narrow ↦ rw narrow (
            Tame-bind (F.div uptime (literal 60)) _ (D.div_errors uptime (literal 60))
              (λ m. average-Tame m total))
      ]
