-- ===== src/Egress/Rate.antt =====
-- src/egress.rs: a bucket never lets more through than its burst and its rate allow.
use renet_cross.Prelude.{
  ℕ, ◌+◌, ◌-◌, ◌*◌, ◌≤◌, max, ◌≡◌, ap, ◌∙◌, Bool, some, List, [], ◌∷◌, arith, if◌then◌else◌,
  nanos_per_sec,
}
use renet_cross.Egress.{EgressConfig, Bucket, cap, refilled, refill, spend, admit, IsBudget}

-- Packets offered to one bucket: size, control flag, time.
abbrev pub Offers : Type 0
Offers = List (ℕ × Bool × ℕ)

-- The bucket after a sequence of offers, and the bytes that it let through.
pub admit_all : Offers → Bucket → Bucket × ℕ
admit_all [] b = (b, 0)
admit_all ((bytes, control, now) ∷ offers) b =
    let (b', passed) = admit bytes control now b in
    let rest = admit_all offers b' in (rest.0, (if passed then bytes else 0) + rest.1)

refilled-le :
    (c : EgressConfig) (now : ℕ) (b : Bucket)
    → refilled c now b ≤ b.credit + (max b.at now - b.at) * c.bytes_per_second
unfolding refilled
refilled-le c now b =
    let elapsed : now - b.at ≡ max b.at now - b.at = omega arith in
    omega (arith, ap (λ (t : ℕ). t * c.bytes_per_second) elapsed)

pub refilled-le-cap : (c : EgressConfig) (now : ℕ) (b : Bucket) → refilled c now b ≤ cap c
unfolding refilled
refilled-le-cap c now b = omega arith

-- The credit pays for exactly what passes.
pub spend-credit :
    (c : EgressConfig) (bytes : ℕ) (control : Bool) (b : Bucket)
    → IsBudget c
    → let r = spend c bytes control b in
      ((r.0).credit + (if r.1 then bytes else 0) * nanos_per_sec ≡ b.credit)
      × ((r.0).at ≡ b.at)
      × ((r.0).stats.config ≡ b.stats.config)
unfolding spend
spend-credit c bytes control b v = (ground arith, ground arith, ground arith)

-- One offer: the time moves on, the configuration stays, and credit pays for what passes.
admit-credit :
    (c : EgressConfig) (bytes : ℕ) (control : Bool) (now : ℕ) (b : Bucket)
    → IsBudget c
    → b.stats.config ≡ some c
    → let r = admit bytes control now b in
      ((r.0).credit + (if r.1 then bytes else 0) * nanos_per_sec ≡ refilled c now b)
      × ((r.0).at ≡ max b.at now)
      × ((r.0).stats.config ≡ some c)
unfolding admit
admit-credit c bytes control now b v e =
    let (paid, at, same) = spend-credit c bytes control (refill c now b) v in
    rw (e, admit) (paid, at, same ∙ e)

-- Under a policy within the documented bounds, what passes over any sequence of offers, in nanobytes, is covered by the credit at the start and
-- the configured rate over the time that goes by on the bucket's clock; so, as the credit never
-- exceeds the burst, by the burst and the rate.
pub admit_all-rate :
    (offers : Offers) (c : EgressConfig) (b : Bucket)
    → IsBudget c
    → b.stats.config ≡ some c
    → let r = admit_all offers b in
      ((r.0).credit + r.1 * nanos_per_sec ≤ b.credit + ((r.0).at - b.at) * c.bytes_per_second)
      × (b.at ≤ (r.0).at)
      × ((r.0).credit ≤ max b.credit (cap c))
unfolding admit_all
admit_all-rate [] c b v e = (omega arith, omega arith, omega arith)
admit_all-rate ((bytes, control, now) ∷ offers) c b v e =
    let (paid, at, same) = admit-credit c bytes control now b v e in
    let b' = (admit bytes control now b).0 in
    let r = admit_all offers b' in
    let (later, mono, le) = admit_all-rate offers c b' v same in
    let gone : (r.0).at - b.at ≡ (max b.at now - b.at) + ((r.0).at - b'.at) =
      omega (arith, at, mono) in
    (
      omega (arith, later, paid, refilled-le c now b, ap (λ (t : ℕ). t * c.bytes_per_second) gone),
      omega (arith, mono, at),
      omega (arith, le, paid, refilled-le-cap c now b),
    )
