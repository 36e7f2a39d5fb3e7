-- ===== src/Egress/Peers/Isolation.antt =====
-- src/egress.rs: what one decision changes, and what it leaves alone.
use renet_cross.Prelude.{
  ℕ, ◌+◌, ◌≤◌, ◌<◌, ◌≡◌, ap, ◌∙◌, ◌≢◌, inl, inr, Bool, Option-cases, List, length, arith,
  if◌then◌else◌, u64_max, u64_add,
}
use renet_cross.Prelude.Assoc.{get, get-insert_ne}
use renet_cross.Egress.{
  EgressConfig, EgressStats, Bucket, new_bucket, admit, spend, refill, is_control,
}
use renet_cross.Egress.Allowances.{admit-some, admit-none}
use renet_cross.Egress.Peers.{
  Egress, track, bucket, set_bucket, count_capacity, admit_at, add_drops,
}

-- The packets that a bucket or the table has refused.
abbrev pub refused : EgressStats → ℕ
refused s = s.pacing_drops + s.cap_drops

spend-refused :
    (c : EgressConfig) (bytes : ℕ) (control : Bool) (b : Bucket)
    → refused b.stats < u64_max
    → let r = spend c bytes control b in
      (refused (r.0).stats ≡ refused b.stats + (if r.1 then 0 else 1))
      × (b.stats.pacing_drops ≤ (r.0).stats.pacing_drops)
      × (b.stats.cap_drops ≤ (r.0).stats.cap_drops)
unfolding spend
spend-refused c bytes control b h = (ground arith, ground arith, ground arith)

admit-refused :
    (bytes : ℕ) (control : Bool) (now : ℕ) (b : Bucket)
    → refused b.stats < u64_max
    → let r = admit bytes control now b in
      (refused (r.0).stats ≡ refused b.stats + (if r.1 then 0 else 1))
      × (b.stats.pacing_drops ≤ (r.0).stats.pacing_drops)
      × (b.stats.cap_drops ≤ (r.0).stats.cap_drops)
unfolding refill
admit-refused bytes control now b h = elim (Option-cases b.stats.config) [
  | inl e ↦ rw (admit-none bytes control now b e) (omega arith, omega arith, omega arith)
  | inr (c, e) ↦
      rw (admit-some c bytes control now b e) (spend-refused c bytes control (refill c now b) h)
]

module _ {K : Type 0} (dec : Discrete K) where
  count_capacity-keeps :
      (key : K) (e : Egress K)
      → ((count_capacity dec key e).buckets ≡ e.buckets)
        × ((count_capacity dec key e).overflow ≡ e.overflow)
        × (refused (count_capacity dec key e).total ≡ refused e.total)
  unfolding count_capacity
  count_capacity-keeps key e = ground arith

  track-get :
      (key other : K) (now : ℕ) (e : Egress K)
      → other ≢ key
      → get dec other (track dec key now e).buckets ≡ get dec other e.buckets
  unfolding track
  track-get key other now e ne =
      ground (arith, get-insert_ne dec key other (new_bucket e.basis e.config now) e.buckets ne)

  set_bucket-get :
      (key other : K) (b : Bucket) (e : Egress K)
      → other ≢ key
      → get dec other (set_bucket dec key b e).buckets ≡ get dec other e.buckets
  unfolding set_bucket
  set_bucket-get key other b e ne = ground (arith, get-insert_ne dec key other b e.buckets ne)

  track-total : (key : K) (now : ℕ) (e : Egress K) → (track dec key now e).total ≡ e.total
  unfolding track
  track-total key now e = ground arith

  set_bucket-total :
      (key : K) (b : Bucket) (e : Egress K) → (set_bucket dec key b e).total ≡ e.total
  unfolding set_bucket
  set_bucket-total key b e = ground arith

  -- A decision for one destination leaves the bucket of every other tracked destination as it is,
  -- credit, clock and statistics, and it makes no other destination tracked. (The bucket that untracked
  -- destinations share is no destination's own.)
  pub admit_at-get :
      (key other : K) (payload : List ℕ) (ip_overhead now : ℕ) (e : Egress K)
      → other ≢ key
      → get dec other (admit_at dec key payload ip_overhead now e).0.buckets
        ≡ get dec other e.buckets
  unfolding admit_at
  admit_at-get key other payload ip_overhead now e ne =
      let counted = count_capacity dec key e in
      set_bucket-get key other _ (track dec key now counted) ne
      ∙ track-get key other now counted ne
      ∙ ap (get dec other) (count_capacity-keeps key e).0

  -- The bucket that the packet is charged to, before and after the decision.
  abbrev pub charged : K → ℕ → Egress K → Bucket
  charged key now e = bucket dec key (track dec key now (count_capacity dec key e))

  -- While no drop counter of the bucket or of the totals has reached its limit, each refusal adds one
  -- to the totals' drops, and each admission none.
  pub admit_at-refused :
      (key : K) (payload : List ℕ) (ip_overhead now : ℕ) (e : Egress K)
      → refused (charged key now e).stats < u64_max
      → refused e.total < u64_max
      → let r = admit_at dec key payload ip_overhead now e in
        refused (r.0).total ≡ refused e.total + (if r.1 then 0 else 1)
  unfolding admit_at add_drops
  admit_at-refused key payload ip_overhead now e h t =
      let counted = count_capacity dec key e in
      let tracked = track dec key now counted in
      let b = bucket dec key tracked in
      let r = admit (u64_add (length payload) ip_overhead) (is_control payload) now b in
      let facts =
        admit-refused (u64_add (length payload) ip_overhead) (is_control payload) now b h in
      let same : (set_bucket dec key r.0 tracked).total ≡ counted.total =
        set_bucket-total key r.0 tracked ∙ track-total key now counted in
      rw same (ground (arith, facts, (count_capacity-keeps key e).2))
