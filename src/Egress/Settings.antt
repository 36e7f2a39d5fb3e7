-- ===== src/Egress/Settings.antt =====
-- src/egress.rs: `EgressConfig::new`.
use renet_cross.Prelude.{ℕ, ◌≡◌, ◌⊎◌, ok, err, arith}
use renet_cross.Egress.{Basis, EgressConfig, invalid_budget, new_config, IsBudget}

-- A configuration is made exactly of budgets within the documented bounds: with the rate, the burst
-- and the reserve as given the verdict is either a configuration with just these that is within
-- bounds, or the error, and then no configuration with these numbers is within bounds.
pub new_config-IsBudget :
    (basis : Basis) (rate burst reserve : ℕ)
    → let c : EgressConfig = record {
      basis = basis;
      bytes_per_second = rate;
      burst_bytes = burst;
      control_reserve_bytes = reserve;
    } in
      ((new_config basis rate burst reserve ≡ ok c) × IsBudget c)
      ⊎ ((new_config basis rate burst reserve ≡ err invalid_budget) × (¬ IsBudget c))
unfolding new_config
new_config-IsBudget basis rate burst reserve = ground arith
