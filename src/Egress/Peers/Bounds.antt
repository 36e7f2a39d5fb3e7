-- ===== src/Egress/Peers/Bounds.antt =====
-- src/egress.rs: the table of buckets stays bounded, and no bucket holds more than one burst.
use renet_cross.Prelude.{
  ℕ, suc, ◌≤◌, ◌≡◌, refl, ap, ◌∙◌, inl, inr, Bool, true, false, if_cases, ◌&&◌, ltb, ◌==◌, Option,
  some, none, Option-cases, List, [], ◌∷◌, length, All, arith, Result, is_some_and, not,
}
use renet_cross.Prelude.Assoc.{get, contains_key, length-insert, All-insert, get-All}
use renet_cross.Egress.{
  Basis, EgressConfig, EgressError, EgressStats, Bucket, burst_credit, new_bucket, admit, spend,
  refill, sent_record,
}
use renet_cross.Egress.Rate.{refilled-le-cap}
use renet_cross.Egress.Peers.{
  Egress, max_peers, new, configure, reconfigured, map_buckets, track, bucket, set_bucket,
  count_capacity, admit_at, complete, same_basis,
}

-- One bucket under the table's policy.
abbrev pub IsWithin : Option EgressConfig → Bucket → Type 0
IsWithin config b = (b.stats.config ≡ config) × (b.credit ≤ burst_credit config)

pub record IsTidy {K : Type 0} (e : Egress K) : Type 0 where
  pub bounded : length e.buckets ≤ max_peers
  pub peers : All (λ (kb : K × Bucket). IsWithin e.config kb.1) e.buckets
  pub shared : IsWithin e.config e.overflow

-- The calls that change the table.
pub data Call (K : Type 0) : Type 0 where
  configures : Option EgressConfig → ℕ → Call K
  admits : K → List ℕ → ℕ → ℕ → Call K
  completes : K → List ℕ → ℕ → Bool → ℕ → Call K

spend-credit-le :
    (c : EgressConfig) (bytes : ℕ) (control : Bool) (b : Bucket)
    → ((spend c bytes control b).0.credit ≤ b.credit)
      × ((spend c bytes control b).0.stats.config ≡ b.stats.config)
unfolding spend
spend-credit-le c bytes control b = (ground arith, ground arith)

admit-IsWithin :
    (config : Option EgressConfig) (bytes : ℕ) (control : Bool) (now : ℕ) (b : Bucket)
    → IsWithin config b
    → IsWithin config (admit bytes control now b).0
unfolding admit refill
admit-IsWithin none bytes control now b w = rw (w.0, admit) w
admit-IsWithin (some c) bytes control now b w =
    let (le, same) = spend-credit-le c bytes control (refill c now b) in
    rw (w.0, admit) (same ∙ w.0, omega (arith, le, refilled-le-cap c now b))

sent_record-config :
    (payload : List ℕ) (overhead : ℕ) (sent : Bool) (s : EgressStats)
    → (sent_record payload overhead sent s).config ≡ s.config
unfolding sent_record
sent_record-config payload overhead true s = refl
sent_record-config payload overhead false s = refl

reconfigured-IsWithin :
    (config : Option EgressConfig) (now : ℕ) (b : Bucket)
    → IsWithin config (reconfigured config now b)
unfolding reconfigured
reconfigured-IsWithin config now b = (refl, omega arith)

new_bucket-IsWithin :
    (basis : Basis) (config : Option EgressConfig) (now : ℕ)
    → IsWithin config (new_bucket basis config now)
unfolding new_bucket
new_bucket-IsWithin basis config now = (refl, omega arith)

module _ {K : Type 0} where
  map_buckets-IsWithin :
      (config : Option EgressConfig) (now : ℕ) (m : List (K × Bucket))
      → (length (map_buckets (reconfigured config now) m) ≡ length m)
        × All (λ (kb : K × Bucket). IsWithin config kb.1) (map_buckets (reconfigured config now) m)
  unfolding map_buckets
  map_buckets-IsWithin config now [] = (refl, tt)
  map_buckets-IsWithin config now ((k, b) ∷ m) =
      let (same, all) = map_buckets-IsWithin config now m in
      (ap suc same, (reconfigured-IsWithin config now b, all))

  configure-IsTidy :
      (config : Option EgressConfig) (now : ℕ) (e : Egress K)
      → IsTidy e
      → IsTidy (configure config now e).0
  unfolding configure
  configure-IsTidy config now e v =
      if_cases (λ (r : Egress K × Result EgressError (Unit {0})). IsTidy r.0)
        (is_some_and config (λ c. not (same_basis c.basis e.basis))) _ _ (λ mismatch. v)
        λ matches.
          let (same, all) = map_buckets-IsWithin config now e.buckets in
          record {
            bounded = omega (arith, same, v.bounded);
            peers = all;
            shared = reconfigured-IsWithin config now e.overflow;
          }

module _ {K : Type 0} (dec : Discrete K) where
  track-IsTidy : (key : K) (now : ℕ) (e : Egress K) → IsTidy e → IsTidy (track dec key now e)
  unfolding track
  track-IsTidy key now e v =
      if_cases IsTidy (not (contains_key dec key e.buckets) && ltb (length e.buckets) max_peers) _ _
        (λ room. record {
          bounded =
              ground (arith, length-insert dec key (new_bucket e.basis e.config now) e.buckets);
          peers =
              All-insert dec (λ (kb : K × Bucket). IsWithin e.config kb.1) key _ e.buckets
                (λ j. new_bucket-IsWithin e.basis e.config now) v.peers;
          shared = v.shared;
        })
        λ kept. v

  bucket-IsWithin : (key : K) (e : Egress K) → IsTidy e → IsWithin e.config (bucket dec key e)
  unfolding bucket
  bucket-IsWithin key e v = elim (Option-cases (get dec key e.buckets)) [
    | inl e0 ↦ rw (e0, bucket) v.shared
    | inr (b, e1) ↦
        rw (e1, bucket)
          (get-All dec (λ (kb : K × Bucket). IsWithin e.config kb.1) key b e.buckets (λ j h. h) e1
            v.peers)
  ]

  set_bucket-IsTidy :
      (key : K) (b : Bucket) (e : Egress K)
      → IsWithin e.config b
      → IsTidy e
      → IsTidy (set_bucket dec key b e)
  unfolding set_bucket
  set_bucket-IsTidy key b e w v = elim (Option-cases (get dec key e.buckets)) [
    | inl e0 ↦ rw (e0, set_bucket) (record { bounded = v.bounded; peers = v.peers; shared = w })
    | inr (b', e1) ↦
        rw (e1, set_bucket)
          (record {
            bounded = ground (arith, length-insert dec key b e.buckets, v.bounded);
            peers =
                All-insert dec (λ (kb : K × Bucket). IsWithin e.config kb.1) key b e.buckets
                  (λ j. w) v.peers;
            shared = v.shared;
          })
  ]

  recounted-IsTidy :
      (total : EgressStats) (e : Egress K) → IsTidy e → IsTidy (record e { total = total })
  recounted-IsTidy total e v = record { bounded = v.bounded; peers = v.peers; shared = v.shared }

  count_capacity-IsTidy : (key : K) (e : Egress K) → IsTidy e → IsTidy (count_capacity dec key e)
  unfolding count_capacity
  count_capacity-IsTidy key e v =
      if_cases IsTidy (length e.buckets == max_peers && not (contains_key dec key e.buckets)) _ _
        (λ full. recounted-IsTidy _ e v) λ room. v

  track-config : (key : K) (now : ℕ) (e : Egress K) → (track dec key now e).config ≡ e.config
  unfolding track
  track-config key now e = ground arith

  set_bucket-config :
      (key : K) (b : Bucket) (e : Egress K) → (set_bucket dec key b e).config ≡ e.config
  unfolding set_bucket
  set_bucket-config key b e = ground arith

  admit_at-IsTidy :
      (key : K) (payload : List ℕ) (ip_overhead now : ℕ) (e : Egress K)
      → IsTidy e
      → IsTidy (admit_at dec key payload ip_overhead now e).0
  unfolding admit_at
  admit_at-IsTidy key payload ip_overhead now e v =
      let tracked = track dec key now (count_capacity dec key e) in
      let v' = track-IsTidy key now _ (count_capacity-IsTidy key e v) in
      recounted-IsTidy _ _ (
        set_bucket-IsTidy key _ tracked
          (admit-IsWithin tracked.config _ _ now _ (bucket-IsWithin key tracked v')) v')

  complete-IsTidy :
      (key : K) (payload : List ℕ) (overhead : ℕ) (sent : Bool) (now : ℕ) (e : Egress K)
      → IsTidy e
      → IsTidy (complete dec key payload overhead sent now e)
  unfolding complete
  complete-IsTidy key payload overhead sent now e v =
      let tracked = track dec key now e in
      let v' = track-IsTidy key now e v in
      let w = bucket-IsWithin key tracked v' in
      recounted-IsTidy _ _
        (set_bucket-IsTidy key _ tracked (sent_record-config payload overhead sent _ ∙ w.0, w.1) v')

  pub step : Call K → Egress K → Egress K
  step (configures config now) e = (configure config now e).0
  step (admits key payload ip_overhead now) e = (admit_at dec key payload ip_overhead now e).0
  step (completes key payload overhead sent now) e = complete dec key payload overhead sent now e

  pub run : List (Call K) → Egress K → Egress K
  run [] e = e
  run (c ∷ cs) e = run cs (step c e)

  step-IsTidy : (c : Call K) (e : Egress K) → IsTidy e → IsTidy (step c e)
  unfolding step
  step-IsTidy (configures config now) e v = configure-IsTidy config now e v
  step-IsTidy (admits key payload ip_overhead now) e v =
      admit_at-IsTidy key payload ip_overhead now e v
  step-IsTidy (completes key payload overhead sent now) e v =
      complete-IsTidy key payload overhead sent now e v

  pub run-IsTidy : (cs : List (Call K)) (e : Egress K) → IsTidy e → IsTidy (run cs e)
  unfolding run
  run-IsTidy [] e v = v
  run-IsTidy (c ∷ cs) e v = run-IsTidy cs (step c e) (step-IsTidy c e v)

  -- Whatever destinations packets go to, and however often the policy changes, from a new table on:
  -- at most 4096 destinations are tracked, every bucket and the shared one follow the policy in
  -- force, and none holds more credit than that policy's burst (none at all without a policy).
  pub run-new-IsTidy : (basis : Basis) (cs : List (Call K)) → IsTidy (run cs (new basis))
  unfolding new
  run-new-IsTidy basis cs =
      run-IsTidy cs (new basis)
        (record { bounded = omega arith; peers = tt; shared = new_bucket-IsWithin basis none 0 })
