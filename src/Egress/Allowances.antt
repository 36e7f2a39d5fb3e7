-- ===== src/Egress/Allowances.antt =====
-- src/egress.rs: what a bucket promises before a send, and what it keeps for control packets.
use renet_cross.Prelude.{
  ℕ, ◌-◌, ◌*◌, ◌/◌, ◌%◌, ◌≤◌, ◌<◌, ◌≡◌, ◌∙◌, ◌↔◌, Bool, true, false, Option, some, none, arith,
  u64_mod, nanos_per_sec,
}
use renet_cross.Egress.{
  EgressConfig, Bucket, cap, refilled, refill, spend, admit, allowance, data_bytes, IsBudget,
}
use renet_cross.Egress.Rate.{refilled-le-cap, spend-credit}

spend-data :
    (c : EgressConfig) (bytes : ℕ) (b : Bucket)
    → IsBudget c
    → b.credit ≤ cap c
    → 0 < bytes
    → ((spend c bytes false b).1 ≡ true)
      ↔ (bytes ≤ b.credit / nanos_per_sec % u64_mod - c.control_reserve_bytes)
unfolding spend
spend-data c bytes b v full pos = (λ h. ground arith, λ h. ground arith)

-- The unfolded data_bytes and admit of a configured bucket.
available_lem :
    (config : Option EgressConfig) (c : EgressConfig) (now : ℕ) (b : Bucket)
    → config ≡ some c
    → (data_bytes config now b).0
      ≡ refilled c now b / nanos_per_sec % u64_mod - c.control_reserve_bytes
unfolding data_bytes
available_lem config c now b e = rw (e, data_bytes)

pub admit-some :
    (c : EgressConfig) (bytes : ℕ) (control : Bool) (now : ℕ) (b : Bucket)
    → b.stats.config ≡ some c
    → admit bytes control now b ≡ spend c bytes control (refill c now b)
unfolding admit
admit-some c bytes control now b e = simp (e, admit)

pub admit-none :
    (bytes : ℕ) (control : Bool) (now : ℕ) (b : Bucket)
    → b.stats.config ≡ none
    → admit bytes control now b ≡ (b, true)
unfolding admit
admit-none bytes control now b e = simp (e, admit)

-- Under a policy within the documented bounds the sample is exact: at the same moment a data packet of at least one byte is admitted just when
-- its charge is within the bytes on offer.
pub allowance-admit :
    (c : EgressConfig) (bytes now : ℕ) (b : Bucket)
    → IsBudget c
    → b.stats.config ≡ some c
    → 0 < bytes
    → ((admit bytes false now b).1 ≡ true) ↔ (bytes ≤ (allowance now b).available_data_bytes)
unfolding allowance refill
allowance-admit c bytes now b v e pos =
    let full = refilled-le-cap c now b in
    let (out, back) = spend-data c bytes (refill c now b) v full pos in
    rw (admit-some c bytes false now b e) (rw (available_lem b.stats.config c now b e) (out, back))

refilled-ge :
    (c : EgressConfig) (now : ℕ) (b : Bucket)
    → IsBudget c
    → b.credit ≤ cap c
    → b.credit ≤ refilled c now b
unfolding refilled
refilled-ge c now b v h = omega (arith, v.burst_to)

spend-keeps :
    (c : EgressConfig) (bytes : ℕ) (b : Bucket)
    → IsBudget c
    → (spend c bytes false b).1 ≡ true
    → c.control_reserve_bytes * nanos_per_sec ≤ (spend c bytes false b).0.credit
unfolding spend
spend-keeps c bytes b v sent = ground arith

spend-control :
    (c : EgressConfig) (bytes : ℕ) (b : Bucket)
    → IsBudget c
    → bytes ≤ c.control_reserve_bytes
    → c.control_reserve_bytes * nanos_per_sec ≤ b.credit
    → (spend c bytes true b).1 ≡ true
unfolding spend
spend-control c bytes b v small kept = ground arith

-- Under a policy within the documented bounds a data packet never spends the reserve: after one was admitted, at any later moment with nothing
-- sent in between, a control packet of up to the reserve's size is admitted.
pub admit-reserve :
    (c : EgressConfig) (bytes now control_bytes later : ℕ) (b : Bucket)
    → IsBudget c
    → b.stats.config ≡ some c
    → (admit bytes false now b).1 ≡ true
    → control_bytes ≤ c.control_reserve_bytes
    → (admit control_bytes true later (admit bytes false now b).0).1 ≡ true
unfolding refill
admit-reserve c bytes now control_bytes later b v e sent small =
    let first = admit-some c bytes false now b e in
    let b' = (spend c bytes false (refill c now b)).0 in
    let sent' : (spend c bytes false (refill c now b)).1 ≡ true = rw (← first) sent in
    let (paid, at, same) = spend-credit c bytes false (refill c now b) v in
    let kept = spend-keeps c bytes (refill c now b) v sent' in
    let full : b'.credit ≤ cap c = omega (arith, paid, refilled-le-cap c now b) in
    rw first (
      rw (admit-some c control_bytes true later b' (same ∙ e)) (
        spend-control c control_bytes (refill c later b') v small
          (omega (arith, kept, refilled-ge c later b' v full))))
