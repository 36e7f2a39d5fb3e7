-- ===== src/Egress/Peers/Totals.antt =====
-- src/egress.rs: what the calls do to the totals of all destinations.
use renet_cross.Prelude.{
  ℕ, ◌≡◌, refl, ap, ◌∙◌, Bool, true, false, List, Option, Result, err, Option-cases, inl, inr,
  if_cases, u64_sat_add,
}
use renet_cross.Prelude.Assoc.{get}
use renet_cross.Egress.{
  Basis, EgressStats, EgressConfig, EgressError, basis_mismatch, Bucket, sent_record,
}
use renet_cross.Egress.Peers.{
  Egress, new, configure, track, set_bucket, count_capacity, add_drops, admit_at, complete,
}

-- The outcomes of sends in the totals.
abbrev pub Outcomes : Type 0
Outcomes = ℕ × ℕ

abbrev pub outcomes_of : EgressStats → Outcomes
outcomes_of t = (t.sent_packets, t.backend_drops)

-- One more outcome.
abbrev pub counted : Bool → Outcomes → Outcomes
counted true o = (u64_sat_add o.0 1, o.1)
counted false o = (o.0, u64_sat_add o.1 1)

-- A new budget has counted nothing.
pub new-outcomes : (K : Type 0) (basis : Basis) → outcomes_of (new {K = K} basis).total ≡ (0, 0)
unfolding new
new-outcomes K basis = refl

-- New settings count no outcome.
pub configure-outcomes :
    {K : Type 0} (config : Option EgressConfig) (now : ℕ) (e : Egress K)
    → outcomes_of ((configure config now e).0).total ≡ outcomes_of e.total
unfolding configure
configure-outcomes {K} config now e =
    if_cases
      (λ (r : Egress K × Result EgressError (Unit {0})).
        outcomes_of (r.0).total ≡ outcomes_of e.total)
      _ (e, err basis_mismatch) _ (λ _. refl) (λ _. refl)

module _ {K : Type 0} (dec : Discrete K) where
  track-total : (key : K) (now : ℕ) (e : Egress K) → (track dec key now e).total ≡ e.total
  unfolding track
  track-total key now e =
      if_cases (λ (r : Egress K). r.total ≡ e.total) _ _ e (λ _. refl) (λ _. refl)

  set_bucket-total :
      (key : K) (b : Bucket) (e : Egress K) → (set_bucket dec key b e).total ≡ e.total
  unfolding set_bucket
  set_bucket-total key b e = elim (Option-cases (get dec key e.buckets)) [
    | inl h ↦ rw (h, set_bucket) refl
    | inr (c, h) ↦ rw (h, set_bucket) refl
  ]

  count_capacity-outcomes :
      (key : K) (e : Egress K) → outcomes_of (count_capacity dec key e).total ≡ outcomes_of e.total
  unfolding count_capacity
  count_capacity-outcomes key e =
      if_cases (λ (r : Egress K). outcomes_of r.total ≡ outcomes_of e.total) _ _ e (λ _. refl)
        (λ _. refl)

  -- A decision counts no outcome ...
  pub admit_at-outcomes :
      (key : K) (payload : List ℕ) (overhead now : ℕ) (e : Egress K)
      → outcomes_of ((admit_at dec key payload overhead now e).0).total ≡ outcomes_of e.total
  unfolding admit_at add_drops
  admit_at-outcomes key payload overhead now e =
      ap outcomes_of (
        set_bucket-total key _ (track dec key now (count_capacity dec key e))
        ∙ track-total key now (count_capacity dec key e))
      ∙ count_capacity-outcomes key e

  -- ... and the outcome of a send is counted once.
  pub complete-outcomes :
      (key : K) (payload : List ℕ) (overhead : ℕ) (sent : Bool) (now : ℕ) (e : Egress K)
      → outcomes_of (complete dec key payload overhead sent now e).total
        ≡ counted sent (outcomes_of e.total)
  unfolding complete sent_record
  complete-outcomes key payload overhead true now e =
      ap (λ t. outcomes_of (sent_record payload overhead true t))
        (set_bucket-total key _ (track dec key now e) ∙ track-total key now e)
  complete-outcomes key payload overhead false now e =
      ap (λ t. outcomes_of (sent_record payload overhead false t))
        (set_bucket-total key _ (track dec key now e) ∙ track-total key now e)
