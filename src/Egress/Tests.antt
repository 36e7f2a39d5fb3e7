-- ===== src/Egress/Tests.antt =====
-- src/egress.rs: the theorems at work on a small budget.
use renet_cross.Prelude.{
  ◌≡◌, refl, ◌⊎◌, ◌↔◌, ◌+◌, ◌-◌, ◌*◌, ◌≤◌, max, arith, true, false, some, [], ◌∷◌, ok, err,
  nanos_per_sec,
}
use renet_cross.Egress.{
  native_udp_ip, EgressConfig, EgressStats, new_stats, invalid_budget, new_config, IsBudget, Bucket,
  cap, allowance, admit,
}
use renet_cross.Egress.Settings.{new_config-IsBudget}
use renet_cross.Egress.Rate.{Offers, admit_all, admit_all-rate}
use renet_cross.Egress.Allowances.{allowance-admit, admit-reserve}

abbrev budget : EgressConfig
budget = record {
  basis = native_udp_ip;
  bytes_per_second = 1000;
  burst_bytes = 4096;
  control_reserve_bytes = 256;
}

budget-IsBudget : IsBudget budget
budget-IsBudget = record {
  rate_from = omega arith;
  rate_to = omega arith;
  burst_from = omega arith;
  burst_to = omega arith;
  reserve_from = omega arith;
  reserve_to = omega arith;
}

abbrev configured_stats : EgressStats
configured_stats = record (new_stats native_udp_ip) { config = some budget }

abbrev full : Bucket
full = record { credit = cap budget; at = 0; stats = configured_stats }

abbrev sends : Offers
sends = (1000, false, 5) ∷ (100, true, 7) ∷ []

new_config-IsBudget_example :
    ((new_config native_udp_ip 1000 4096 256 ≡ ok budget) × IsBudget budget)
    ⊎ ((new_config native_udp_ip 1000 4096 256 ≡ err invalid_budget) × (¬ IsBudget budget))
new_config-IsBudget_example = new_config-IsBudget native_udp_ip 1000 4096 256

admit_all-rate_example :
    let r = admit_all sends full in
    ((r.0).credit + r.1 * nanos_per_sec ≤ full.credit + ((r.0).at - 0) * 1000)
    × (0 ≤ (r.0).at)
    × ((r.0).credit ≤ max full.credit (cap budget))
admit_all-rate_example = admit_all-rate sends budget full budget-IsBudget refl

allowance-admit_example :
    ((admit 1000 false 5 full).1 ≡ true) ↔ (1000 ≤ (allowance 5 full).available_data_bytes)
allowance-admit_example = allowance-admit budget 1000 5 full budget-IsBudget refl (omega arith)

sent : (admit 1000 false 5 full).1 ≡ true
unfolding admit
sent = refl

admit-reserve_example : (admit 200 true 9 (admit 1000 false 5 full).0).1 ≡ true
admit-reserve_example =
    admit-reserve budget 1000 5 200 9 full budget-IsBudget refl sent (omega arith)
