-- ===== src/Egress/Peers/Tests.antt =====
-- src/egress.rs: the theorems on the table of buckets at work on two destinations.
use native.Mathlib.Decide.{ℕ_discrete}
use renet_cross.Prelude.{
  ℕ, ◌≡◌, ◌<◌, ◌+◌, arith, true, none, some, List, [], ◌∷◌, if◌then◌else◌, u64_max,
}
use renet_cross.Prelude.Assoc.{get}
use renet_cross.Egress.{native_udp_ip, EgressConfig, EgressStats, new_stats, Bucket, cap}
use renet_cross.Egress.Peers.{Egress, new, count_capacity, track, bucket, admit_at}
use renet_cross.Egress.Peers.Bounds.{
  IsTidy, Call, configures, admits, completes, run, run-new-IsTidy,
}
use renet_cross.Egress.Peers.Isolation.{refused, charged, admit_at-get, admit_at-refused}

abbrev budget : EgressConfig
budget = record {
  basis = native_udp_ip;
  bytes_per_second = 1000;
  burst_bytes = 4096;
  control_reserve_bytes = 256;
}

abbrev configured_stats : EgressStats
configured_stats = record (new_stats native_udp_ip) { config = some budget }

abbrev full : Bucket
full = record { credit = cap budget; at = 0; stats = configured_stats }

abbrev calls : List (Call ℕ)
calls =
    configures (some budget) 1
    ∷ admits 10 (5 ∷ []) 28 2
    ∷ completes 10 (5 ∷ []) 28 true 3
    ∷ configures none 4
    ∷ []

run-new-IsTidy_example : IsTidy (run ℕ_discrete calls (new native_udp_ip))
run-new-IsTidy_example = run-new-IsTidy ℕ_discrete native_udp_ip calls

abbrev peers : Egress ℕ
peers = record {
  basis = native_udp_ip;
  config = some budget;
  buckets = (10, full) ∷ (11, full) ∷ [];
  overflow = full;
  total = configured_stats;
}

admit_at-get_example :
    get ℕ_discrete 11 (admit_at ℕ_discrete 10 (5 ∷ []) 28 2 peers).0.buckets
    ≡ get ℕ_discrete 11 peers.buckets
admit_at-get_example = admit_at-get ℕ_discrete 10 11 (5 ∷ []) 28 2 peers (λ e. omega (arith, e))

uncounted : refused (charged ℕ_discrete 10 2 peers).stats < u64_max
unfolding count_capacity track bucket get ℕ_discrete
uncounted = omega arith

admit_at-refused_example :
    let r = admit_at ℕ_discrete 10 (5 ∷ []) 28 2 peers in
    refused (r.0).total ≡ refused peers.total + (if r.1 then 0 else 1)
admit_at-refused_example =
    admit_at-refused ℕ_discrete 10 (5 ∷ []) 28 2 peers uncounted (omega arith)
