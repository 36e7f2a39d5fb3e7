-- ===== src/Egress/Peers.antt =====
-- src/egress.rs: `Egress`, the buckets of all destinations. Destinations beyond the bound share one
-- bucket. The clock is an argument of each call.
mod Tests
pub mod Bounds
pub mod Isolation
pub mod Totals
use renet_cross.Prelude.{
  ℕ, ◌+◌, Bool, true, false, not, ◌&&◌, Option, some, none, List, [], ◌∷◌, length, map, min, Result,
  ok, err, ltb, leb, ◌==◌, if◌then◌else◌, is_some, is_some_and, u64_add, u64_sub, u64_sat_add,
}
use renet_cross.Prelude.Assoc.{get, contains_key, insert}
use renet_cross.Egress.{
  Basis, native_udp_ip, encrypted_logical, EgressConfig, EgressError, basis_mismatch, EgressStats,
  new_stats, Allowance, Bucket, burst_credit, new_bucket, allowance, admit, is_control, sent_record,
}

abbrev pub max_peers : ℕ
max_peers = 4096

pub record Egress (K : Type 0) : Type 0 where
  pub basis : Basis
  pub config : Option EgressConfig
  pub buckets : List (K × Bucket)
  pub overflow : Bucket
  pub total : EgressStats

-- `Egress::new`.
pub new : {K : Type 0} → Basis → Egress K
new basis = record {
  basis = basis;
  config = none;
  buckets = [];
  overflow = new_bucket basis none 0;
  total = new_stats basis;
}

same_basis : Basis → Basis → Bool
same_basis native_udp_ip native_udp_ip = true
same_basis encrypted_logical encrypted_logical = true
same_basis _ _ = false

-- The new policy in one bucket: spent credit is never given back.
reconfigured : Option EgressConfig → ℕ → Bucket → Bucket
reconfigured config now b = record b {
  credit = min b.credit (burst_credit config);
  at = now;
  stats = stats';
}
  where
    stats' : EgressStats
    stats' = record (b.stats) { config = config }

pub map_buckets : {K : Type 0} → (Bucket → Bucket) → List (K × Bucket) → List (K × Bucket)
map_buckets f [] = []
map_buckets f ((k, b) ∷ m) = (k, f b) ∷ map_buckets f m

-- The state after `Egress::configure` at a time, and the verdict.
pub configure :
    {K : Type 0} → Option EgressConfig → ℕ → Egress K → Egress K × Result EgressError (Unit {0})
unfolding same_basis reconfigured map_buckets
configure config now e =
    if is_some_and config (λ c. not (same_basis c.basis e.basis))
    then (e, err basis_mismatch)
    else (
      record e {
        config = config;
        buckets = map_buckets (reconfigured config now) e.buckets;
        overflow = reconfigured config now e.overflow;
        total = record (e.total) { config = config };
      },
      ok tt,
    )

module _ {K : Type 0} (dec : Discrete K) where
  pub peer_stats : K → Egress K → Option EgressStats
  peer_stats key e = elim (get dec key e.buckets) [ none ↦ none | some b ↦ some (b.stats) ]

  pub peer_allowance : K → ℕ → Egress K → Allowance
  peer_allowance key now e = elim (get dec key e.buckets) [
    | some b ↦ allowance now b
    | none ↦
        if leb max_peers (length e.buckets)
        then allowance now e.overflow
        else allowance now (new_bucket e.basis e.config now)
  ]

  -- The bucket of a new peer, while there is room for one.
  pub track : K → ℕ → Egress K → Egress K
  track key now e =
      if not (contains_key dec key e.buckets) && ltb (length e.buckets) max_peers
      then record e { buckets = insert dec key (new_bucket e.basis e.config now) e.buckets }
      else e

  -- `Egress::bucket`: the bucket that a peer's packets are charged to ...
  pub bucket : K → Egress K → Bucket
  bucket key e = elim (get dec key e.buckets) [ some b ↦ b | none ↦ e.overflow ]

  -- ... and a write through the reference to it.
  pub set_bucket : K → Bucket → Egress K → Egress K
  set_bucket key b e = elim (get dec key e.buckets) [
    | some _ ↦ record e { buckets = insert dec key b e.buckets }
    | none ↦ record e { overflow = b }
  ]

  pub count_capacity : K → Egress K → Egress K
  count_capacity key e =
      if length e.buckets == max_peers && not (contains_key dec key e.buckets)
      then record e { total = counted }
      else e
    where
      counted : EgressStats
      counted = record (e.total) {
        peer_capacity_packets = u64_sat_add e.total.peer_capacity_packets 1;
      }

  -- The drops of one decision, added to the totals.
  add_drops : EgressStats → EgressStats → EgressStats → EgressStats
  add_drops before after total = record total {
    pacing_drops = u64_sat_add total.pacing_drops (u64_sub after.pacing_drops before.pacing_drops);
    cap_drops = u64_sat_add total.cap_drops (u64_sub after.cap_drops before.cap_drops);
  }

  -- `Egress::admit` at a time.
  pub admit_at : K → List ℕ → ℕ → ℕ → Egress K → Egress K × Bool
  unfolding count_capacity track bucket set_bucket add_drops is_control
  admit_at key payload ip_overhead now e =
      let tracked = track key now (count_capacity key e) in
      let b = bucket key tracked in
      let r = admit (u64_add (length payload) ip_overhead) (is_control payload) now b in
      let placed = set_bucket key r.0 tracked in
      (record placed { total = add_drops b.stats (r.0).stats placed.total }, r.1)

  -- The outcome of the send that `admit_at` allowed.
  pub complete : K → List ℕ → ℕ → Bool → ℕ → Egress K → Egress K
  unfolding track bucket set_bucket sent_record
  complete key payload overhead sent now e =
      let tracked = track key now e in
      let b = bucket key tracked in
      let placed =
        set_bucket key (record b { stats = sent_record payload overhead sent b.stats }) tracked in
      record placed { total = sent_record payload overhead sent placed.total }
