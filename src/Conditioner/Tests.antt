-- ===== src/Conditioner/Tests.antt =====
-- src/conditioner.rs: the theorems on the calibration at work on a few samples.
use renet_cross.Prelude.{ℕ, ◌≡◌, ◌⊎◌, ◌+◌, ◌*◌, ◌≤◌, max, arith, true, false, none, some, [], ◌∷◌}
use renet_cross.Float.{fixed_point}
use renet_cross.Conditioner.Calibration.{
  Calibration, observe_all, observe_all-baseline, added_delay_for_target,
  added_delay_for_target-bounds,
}

abbrev impaired : Calibration
impaired = record { baseline = some 30; was_active = false; resume_after = 0; last_now = 10 }

observe_all-baseline_example :
    (observe_all fixed_point
      ((15, 90, true) ∷ (20, 50, false) ∷ (40, 60, false) ∷ [])
      impaired).baseline
    ≡ some 30
observe_all-baseline_example =
    observe_all-baseline fixed_point 15 90 ((20, 50, false) ∷ (40, 60, false) ∷ []) impaired
      (omega arith) (omega arith, (omega arith, tt))

added_delay_for_target-bounds_example :
    ((impaired.baseline ≡ none) × (added_delay_for_target 101 impaired ≡ none))
    ⊎ ((baseline delay : ℕ) × (impaired.baseline ≡ some baseline)
        × (added_delay_for_target 101 impaired ≡ some delay)
        × (baseline + 2 * delay ≤ max 101 baseline)
        × (101 ≤ baseline + 2 * delay + 1))
added_delay_for_target-bounds_example = added_delay_for_target-bounds 101 impaired
