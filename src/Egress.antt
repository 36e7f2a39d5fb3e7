-- ===== src/Egress.antt =====
-- src/egress.rs: the budget of one destination. A bucket holds credit in nanobytes (bytes times
-- 10^9), refilled at the configured rate up to the burst; data packets leave a reserve that only
-- control packets may use. The buckets of all peers are in Egress/Peers.
mod Tests
pub mod Settings
pub mod Rate
pub mod Allowances
pub mod Peers
use Prim.Native.Nat.{bit_and}
use renet_cross.Prelude.{
  ℕ, ◌+◌, ◌-◌, ◌*◌, ◌/◌, ◌%◌, ◌≤◌, min, max, Bool, true, false, not, ◌||◌, Option, some, none, List,
  [], ◌∷◌, length, Result, ok, err, ltb, leb, ◌==◌, if◌then◌else◌, u64_mod, u64_max, u64_add,
  u64_sub, u64_sat_add, u64_sat_mul, u128_sat_add, u128_sat_mul, nanos_per_sec,
}
use mathlib.Core.Option

pub data Basis : Type 0 where
  native_udp_ip encrypted_logical : Basis

pub record EgressConfig : Type 0 where
  pub basis : Basis
  pub bytes_per_second : ℕ
  pub burst_bytes : ℕ
  pub control_reserve_bytes : ℕ

pub data EgressError : Type 0 where
  invalid_budget basis_mismatch : EgressError

-- `EgressConfig::new`.
pub new_config : Basis → ℕ → ℕ → ℕ → Result EgressError EgressConfig
new_config basis rate burst reserve =
    if ltb rate 1
      || ltb 1_000_000_000 rate
      || ltb burst 2048
      || ltb 67_108_864 burst
      || ltb reserve 256
      || ltb (u64_sub burst 1448) reserve
    then err invalid_budget
    else ok (record {
      basis = basis;
      bytes_per_second = rate;
      burst_bytes = burst;
      control_reserve_bytes = reserve;
    })

pub record EgressStats : Type 0 where
  pub basis : Basis
  pub config : Option EgressConfig
  pub sent_packets : ℕ
  pub encrypted_logical_bytes : ℕ
  pub native_udp_ip_bytes : ℕ
  pub control_packets : ℕ
  pub pacing_drops : ℕ
  pub cap_drops : ℕ
  pub backend_drops : ℕ
  pub deferred_packets : ℕ
  pub peer_capacity_packets : ℕ

abbrev pub new_stats : Basis → EgressStats
new_stats basis = record {
  basis = basis;
  config = none;
  sent_packets = 0;
  encrypted_logical_bytes = 0;
  native_udp_ip_bytes = 0;
  control_packets = 0;
  pacing_drops = 0;
  cap_drops = 0;
  backend_drops = 0;
  deferred_packets = 0;
  peer_capacity_packets = 0;
}

pub record Allowance : Type 0 where
  pub basis : Basis
  pub config : Option EgressConfig
  pub available_data_bytes : ℕ
  pub maximum_data_bytes : ℕ
  pub ip_udp_overhead : ℕ

-- The credit of packets that wait below the transport is not offered again.
unfoldable pub reserve_queued : ℕ → ℕ → Allowance → Allowance
reserve_queued bytes packets a = record a {
  available_data_bytes =
      a.available_data_bytes - u64_sat_add bytes (u64_sat_mul packets a.ip_udp_overhead);
}

pub record Bucket : Type 0 where
  pub credit : ℕ
  pub at : ℕ
  pub stats : EgressStats

abbrev pub cap : EgressConfig → ℕ
cap c = c.burst_bytes * nanos_per_sec

-- `config.map_or(0, |c| c.burst_bytes as u128 * 1_000_000_000)`.
abbrev pub burst_credit : Option EgressConfig → ℕ
burst_credit none = 0
burst_credit (some c) = cap c

pub new_bucket : Basis → Option EgressConfig → ℕ → Bucket
new_bucket basis config now = record { credit = burst_credit config; at = now; stats = stats' }
  where
    stats' : EgressStats
    stats' = record (new_stats basis) { config = config }

-- The credit at a later time.
pub refilled : EgressConfig → ℕ → Bucket → ℕ
refilled c now b =
    min (u128_sat_add b.credit (u128_sat_mul (now - b.at) c.bytes_per_second)) (cap c)

-- The data bytes on offer, and the most there can be.
pub data_bytes : Option EgressConfig → ℕ → Bucket → ℕ × ℕ
unfolding refilled
data_bytes none now b = (u64_max, u64_max)
data_bytes (some c) now b = (
  refilled c now b / nanos_per_sec % u64_mod - c.control_reserve_bytes,
  u64_sub c.burst_bytes c.control_reserve_bytes,
)

pub allowance : ℕ → Bucket → Allowance
unfolding data_bytes
allowance now b =
    let (available, most) = data_bytes b.stats.config now b in
    record {
      basis = b.stats.basis;
      config = b.stats.config;
      available_data_bytes = available;
      maximum_data_bytes = most;
      ip_udp_overhead = 0;
    }

pub count_cap : EgressStats → EgressStats
count_cap s = record s { cap_drops = u64_sat_add s.cap_drops 1 }

pub count_pacing : EgressStats → EgressStats
count_pacing s = record s { pacing_drops = u64_sat_add s.pacing_drops 1 }

-- What a packet must leave in the bucket.
pub reserve : EgressConfig → Bool → ℕ
reserve c control = if control then 0 else c.control_reserve_bytes

-- The decision on a bucket whose credit is up to date.
pub spend : EgressConfig → ℕ → Bool → Bucket → Bucket × Bool
unfolding reserve count_cap count_pacing
spend c bytes control b =
    if ltb (u64_sub c.burst_bytes (reserve c control)) bytes
    then (record b { stats = count_cap b.stats }, false)
    else if ltb b.credit (u64_add bytes (reserve c control) * nanos_per_sec)
    then (record b { stats = count_pacing b.stats }, false)
    else (record b { credit = b.credit - bytes * nanos_per_sec }, true)

pub refill : EgressConfig → ℕ → Bucket → Bucket
unfolding refilled
refill c now b = record b { at = max b.at now; credit = refilled c now b }

-- `Bucket::admit`: the bucket after the call, and whether the packet may be sent.
pub admit : ℕ → Bool → ℕ → Bucket → Bucket × Bool
unfolding spend refill
admit bytes control now b = elim b.stats.config [
  | none ↦ (b, true)
  | some c ↦ spend c bytes control (refill c now b)
]

-- Netcode packet type 5 carries data; an empty payload is no control packet.
pub is_control : List ℕ → Bool
is_control [] = false
is_control (b ∷ rest) = not (bit_and b 0x0f == 5)

is_native : Basis → Bool
is_native native_udp_ip = true
is_native encrypted_logical = false

-- The outcome of a send in the statistics.
pub sent_record : List ℕ → ℕ → Bool → EgressStats → EgressStats
unfolding is_control is_native
sent_record payload overhead sent s =
    if sent
    then record s {
      sent_packets = u64_sat_add s.sent_packets 1;
      encrypted_logical_bytes = u64_sat_add s.encrypted_logical_bytes (length payload);
      native_udp_ip_bytes =
          if is_native s.basis
          then u64_sat_add s.native_udp_ip_bytes (u64_add (length payload) overhead)
          else s.native_udp_ip_bytes;
      control_packets =
          if is_control payload then u64_sat_add s.control_packets 1 else s.control_packets;
    }
    else record s { backend_drops = u64_sat_add s.backend_drops 1 }

-- What `EgressConfig::new` lets through: every configuration that exists.
pub record IsBudget (c : EgressConfig) : Type 0 where
  pub rate_from : 1 ≤ c.bytes_per_second
  pub rate_to : c.bytes_per_second ≤ 1_000_000_000
  pub burst_from : 2048 ≤ c.burst_bytes
  pub burst_to : c.burst_bytes ≤ 67_108_864
  pub reserve_from : 256 ≤ c.control_reserve_bytes
  pub reserve_to : c.control_reserve_bytes + 1448 ≤ c.burst_bytes
