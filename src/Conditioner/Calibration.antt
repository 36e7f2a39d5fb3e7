-- ===== src/Conditioner/Calibration.antt =====
-- src/conditioner.rs: `RttCalibration`, the round-trip time measured while nothing is impaired.
use renet_cross.Prelude.{
  ℕ, ◌+◌, ◌-◌, ◌*◌, ◌/◌, ◌≤◌, ◌<◌, max, ◌≡◌, refl, ◌∙◌, ◌⊎◌, inl, inr, Bool, true, not, ◌&&◌, ◌||◌,
  Option, some, none, Option-cases, List, [], ◌∷◌, All, arith, leb, ◌==◌, if◌then◌else◌,
  duration_max, duration_sat_add, nanos_per_sec,
}
use mathlib.Core.Option
use renet_cross.Float.{F64}

pub record Calibration : Type 0 where
  pub baseline : Option ℕ
  pub was_active : Bool
  pub resume_after : ℕ
  pub last_now : ℕ

-- The five seconds after an impairment in which nothing is sampled.
abbrev pub settling : ℕ
settling = 5 * nanos_per_sec

-- Clears the baseline, and keeps the settling period.
pub reset : Calibration → Calibration
reset c = record c { baseline = none }

pub added_delay_for_target : ℕ → Calibration → Option ℕ
added_delay_for_target target c = Option.map (λ baseline. (target - baseline) / 2) c.baseline

module _ (fl : F64) where
  -- The moving average: 0.875 of the old value and 0.125 of the sample.
  blend : ℕ → Option ℕ → ℕ
  blend rtt none = rtt
  blend rtt (some old) =
      duration_sat_add (fl.mul_f64 old (fl.div (fl.of_u64 7) (fl.of_u64 8)))
        (fl.mul_f64 rtt (fl.div (fl.of_u64 1) (fl.of_u64 8)))

  pub observe : ℕ → Bool → Calibration → Calibration
  unfolding blend
  observe rtt active c =
      if active || rtt == 0 then c else record c { baseline = some (blend rtt c.baseline) }

  -- The clock and the settling period, before the sample is looked at.
  note : ℕ → Bool → Calibration → Calibration
  note now active c = record c {
    resume_after =
        if c.was_active && not active then duration_sat_add now settling else c.resume_after;
    was_active = active;
    last_now = now;
  }

  pub observe_at : ℕ → ℕ → Bool → Calibration → Calibration
  unfolding note observe
  observe_at time rtt active c =
      let now = max time c.last_now in
      let noted = note now active c in
      if leb noted.resume_after now then observe rtt active noted else noted

  -- Samples of time, round-trip time and whether packets are being impaired.
  pub observe_all : List (ℕ × ℕ × Bool) → Calibration → Calibration
  observe_all [] c = c
  observe_all ((time, rtt, active) ∷ samples) c = observe_all samples (observe_at time rtt active c)

  -- Settling since `start`: an impairment is on, or its end put the next sample at `bound` or later.
  record Settling (start bound : ℕ) (c : Calibration) : Type 0 where
    reached : start ≤ c.last_now
    before : c.last_now < bound
    waits : (c.was_active ≡ true) ⊎ (bound ≤ c.resume_after)

  observe_at-Settling :
      (start time rtt : ℕ) (active : Bool) (c : Calibration)
      → time < duration_sat_add start settling
      → Settling start (duration_sat_add start settling) c
      → (Settling start (duration_sat_add start settling) (observe_at time rtt active c))
        × ((observe_at time rtt active c).baseline ≡ c.baseline)
  unfolding observe_at
  observe_at-Settling start time rtt active c h v =
      (record { reached = ground arith; before = ground arith; waits = ground arith }, ground arith)

  observe_all-Settling :
      (start : ℕ) (samples : List (ℕ × ℕ × Bool)) (c : Calibration)
      → All (λ x. x.0 < duration_sat_add start settling) samples
      → Settling start (duration_sat_add start settling) c
      → (observe_all samples c).baseline ≡ c.baseline
  unfolding observe_all
  observe_all-Settling start [] c h v = refl
  observe_all-Settling start ((time, rtt, active) ∷ samples) c h v =
      let (v', same) = observe_at-Settling start time rtt active c h.0 v in
      observe_all-Settling start samples (observe_at time rtt active c) h.1 v' ∙ same

  -- A sample that sees packets impaired moves no baseline, and starts the settling.
  observe_at-active :
      (time rtt : ℕ) (c : Calibration)
      → max time c.last_now < duration_max
      → Settling
          (max time c.last_now)
          (duration_sat_add (max time c.last_now) settling)
          (observe_at time rtt true c)
        × ((observe_at time rtt true c).baseline ≡ c.baseline)
  unfolding observe_at
  observe_at-active time rtt c room =
      (record { reached = ground arith; before = ground arith; waits = ground arith }, ground arith)

  -- From any state, with the clock below its maximum: a sample that sees packets impaired does not
  -- move the baseline, and neither does any later one whose time is less than five seconds after it,
  -- whatever they say.
  pub observe_all-baseline :
      (time rtt : ℕ) (samples : List (ℕ × ℕ × Bool)) (c : Calibration)
      → max time c.last_now < duration_max
      → All (λ x. x.0 < duration_sat_add (max time c.last_now) settling) samples
      → (observe_all ((time, rtt, true) ∷ samples) c).baseline ≡ c.baseline
  unfolding observe_all
  observe_all-baseline time rtt samples c room h =
      let (waits, same) = observe_at-active time rtt c room in
      observe_all-Settling (max time c.last_now) samples (observe_at time rtt true c) h waits ∙ same

-- The delay added in each direction brings the round trip up to the target, to within the rounding
-- of one nanosecond, and adds nothing where the baseline is at the target or above it; without a
-- baseline there is no answer.
pub added_delay_for_target-bounds :
    (target : ℕ) (c : Calibration)
    → ((c.baseline ≡ none) × (added_delay_for_target target c ≡ none))
      ⊎ ((baseline delay : ℕ) × (c.baseline ≡ some baseline)
          × (added_delay_for_target target c ≡ some delay)
          × (baseline + 2 * delay ≤ max target baseline)
          × (target ≤ baseline + 2 * delay + 1))
unfolding added_delay_for_target
added_delay_for_target-bounds target c = elim (Option-cases c.baseline) [
  | inl e ↦ inl (e, rw (e, Option.map))
  | inr (b, e) ↦ inr (b, (target - b) / 2, e, ground arith, omega arith, omega arith)
]
