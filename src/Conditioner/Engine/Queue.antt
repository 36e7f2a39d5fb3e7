-- ===== src/Conditioner/Engine/Queue.antt =====
-- src/conditioner.rs: the delivery queue of one direction, ordered by due time.
use renet_cross.Prelude.{
  ℕ, ◌+◌, ◌≤◌, ◌<◌, ◌≡◌, refl, ap, List, [], ◌∷◌, ◌++◌, map, length, filter, sum_of, All, ltb, leb,
  inl, inr, Bool-cases, u64_mod, arith, lt→ltb,
}
use renet_cross.Conditioner.{DirectionStats}
use renet_cross.Conditioner.Engine.{Scheduled, schedule, count_released, drain_loop}

module _ {T : Type 0} where
  abbrev pub Sorted : List (Scheduled T) → Type 0
  Sorted [] = Unit
  Sorted (p ∷ q) = All (λ r. p.due ≤ r.due) q × Sorted q

  abbrev pub bytes_of : List (Scheduled T) → ℕ
  bytes_of = sum_of (λ p. p.bytes)

  abbrev pub due_by : ℕ → List (Scheduled T) → List (Scheduled T)
  due_by t = filter (λ p. leb p.due t)

  abbrev pub due_after : ℕ → List (Scheduled T) → List (Scheduled T)
  due_after t = filter (λ p. ltb t p.due)

  pub length-schedule :
      (p : Scheduled T) (q : List (Scheduled T)) → length (schedule p q) ≡ length q + 1
  unfolding schedule
  length-schedule p [] = omega arith
  length-schedule p (r ∷ q) = ground (arith, length-schedule p q)

  pub bytes_of-schedule :
      (p : Scheduled T) (q : List (Scheduled T)) → bytes_of (schedule p q) ≡ bytes_of q + p.bytes
  unfolding schedule
  bytes_of-schedule p [] = omega arith
  bytes_of-schedule p (r ∷ q) = ground (arith, bytes_of-schedule p q)

  All-mono :
      (s t : ℕ) (q : List (Scheduled T)) → s ≤ t → All (λ r. t ≤ r.due) q → All (λ r. s ≤ r.due) q
  All-mono s t [] h a = tt
  All-mono s t (r ∷ q) h a = (omega arith, All-mono s t q h a.1)

  All-schedule :
      (t : ℕ) (p : Scheduled T) (q : List (Scheduled T))
      → t ≤ p.due
      → All (λ r. t ≤ r.due) q
      → All (λ r. t ≤ r.due) (schedule p q)
  unfolding schedule
  All-schedule t p [] h a = (h, tt)
  All-schedule t p (r ∷ q) h a = elim (Bool-cases (ltb p.due r.due)) [
    | inl e ↦ rw e (h, a)
    | inr e ↦ rw e (a.0, All-schedule t p q h a.1)
  ]

  pub Sorted-schedule :
      (p : Scheduled T) (q : List (Scheduled T)) → Sorted q → Sorted (schedule p q)
  unfolding schedule
  Sorted-schedule p [] s = (tt, tt)
  Sorted-schedule p (r ∷ q) s = elim (Bool-cases (ltb p.due r.due)) [
    | inl e ↦ rw e ((ground arith, All-mono p.due r.due q (ground arith) s.0), s)
    | inr e ↦ rw e (All-schedule r.due p q (ground arith) s.0, Sorted-schedule p q s.1)
  ]

  due_after_all :
      (t u : ℕ) (q : List (Scheduled T)) → t < u → All (λ r. u ≤ r.due) q → due_after t q ≡ q
  due_after_all t u [] h a = refl
  due_after_all t u (r ∷ q) h a =
      rw (lt→ltb t r.due (omega arith)) (ap (◌∷◌ r) (due_after_all t u q h a.1))

  due_by_none :
      (t u : ℕ) (q : List (Scheduled T)) → t < u → All (λ r. u ≤ r.due) q → due_by t q ≡ []
  due_by_none t u [] h a = refl
  due_by_none t u (r ∷ q) h a = ground (arith, due_by_none t u q h a.1)

  pub due_by-due_after :
      (t : ℕ) (q : List (Scheduled T)) → Sorted q → due_by t q ++ due_after t q ≡ q
  due_by-due_after t [] s = refl
  due_by-due_after t (r ∷ q) s =
      ground (arith, due_by-due_after t q s.1, due_by_none t r.due q, due_after_all t r.due q)

  -- A new packet goes behind the packets of an ordered queue that are due no later than it is, and in
  -- front of those that are due later: packets due at the same time keep the order they came in.
  pub schedule-split :
      (p : Scheduled T) (q : List (Scheduled T))
      → Sorted q
      → schedule p q ≡ due_by p.due q ++ p ∷ due_after p.due q
  unfolding schedule
  schedule-split p [] s = refl
  schedule-split p (r ∷ q) s =
      ground (arith, schedule-split p q s.1, due_by_none p.due r.due q, due_after_all p.due r.due q)

  pub drain_loop-due :
      (now : ℕ) (q : List (Scheduled T)) (d : DirectionStats)
      → Sorted q
      → ((drain_loop now q d).0 ≡ map (λ p. p.payload) (due_by now q))
        × ((drain_loop now q d).1 ≡ due_after now q)
  unfolding drain_loop
  drain_loop-due now [] d s = (refl, refl)
  drain_loop-due now (p ∷ q) d s = ground (
    arith,
    drain_loop-due now q (count_released p.bytes d) s.1,
    due_by_none now p.due q,
    due_after_all now p.due q,
  )

-- The counters of a direction describe its queue.
pub record Counts {T : Type 0} (d : DirectionStats) (q : List (Scheduled T)) : Type 0 where
  pub packets : d.queued_packets ≡ length q
  pub bytes : d.queued_bytes ≡ bytes_of q
  pub packets_fit : length q < u64_mod
  pub bytes_fit : bytes_of q < u64_mod

module _ {T : Type 0} where
  released-Counts :
      (p : Scheduled T) (q : List (Scheduled T)) (d : DirectionStats)
      → Counts d (p ∷ q)
      → Counts (count_released p.bytes d) q
  unfolding count_released
  released-Counts p q d c = record {
    packets = omega (arith, c.packets, c.packets_fit);
    bytes = omega (arith, c.bytes, c.bytes_fit);
    packets_fit = omega (arith, c.packets_fit);
    bytes_fit = omega (arith, c.bytes_fit);
  }

  pub drain_loop-Counts :
      (now : ℕ) (q : List (Scheduled T)) (d : DirectionStats)
      → Counts d q
      → Counts (drain_loop now q d).2 (drain_loop now q d).1
  unfolding drain_loop
  drain_loop-Counts now [] d c = c
  drain_loop-Counts now (p ∷ q) d c = elim (Bool-cases (leb p.due now)) [
    | inl e ↦ rw e (drain_loop-Counts now q (count_released p.bytes d) (released-Counts p q d c))
    | inr e ↦ rw e c
  ]

  pub drain_loop-length :
      (now : ℕ) (q : List (Scheduled T)) (d : DirectionStats)
      → length (drain_loop now q d).0 + length (drain_loop now q d).1 ≡ length q
  unfolding drain_loop
  drain_loop-length now [] d = omega arith
  drain_loop-length now (p ∷ q) d =
      ground (arith, drain_loop-length now q (count_released p.bytes d))

  pub drain_loop-bytes :
      (now : ℕ) (q : List (Scheduled T)) (d : DirectionStats)
      → bytes_of (drain_loop now q d).1 ≤ bytes_of q
  unfolding drain_loop
  drain_loop-bytes now [] d = omega arith
  drain_loop-bytes now (p ∷ q) d = ground (arith, drain_loop-bytes now q (count_released p.bytes d))

  pub drain_loop-Sorted :
      (now : ℕ) (q : List (Scheduled T)) (d : DirectionStats)
      → Sorted q
      → Sorted (drain_loop now q d).1
  unfolding drain_loop
  drain_loop-Sorted now [] d s = tt
  drain_loop-Sorted now (p ∷ q) d s = elim (Bool-cases (leb p.due now)) [
    | inl e ↦ rw e (drain_loop-Sorted now q (count_released p.bytes d) s.1)
    | inr e ↦ rw e s
  ]

  -- The drop counters of a direction stay as they are.
  pub drain_loop-drops :
      (now : ℕ) (q : List (Scheduled T)) (d : DirectionStats)
      → let d' = (drain_loop now q d).2 in
        (d'.simulated_loss_drops ≡ d.simulated_loss_drops)
        × (d'.outage_drops ≡ d.outage_drops)
        × (d'.overflow_drops ≡ d.overflow_drops)
        × (d'.transition_drops ≡ d.transition_drops)
  unfolding drain_loop count_released
  drain_loop-drops now [] d = (refl, refl, refl, refl)
  drain_loop-drops now (p ∷ q) d = ground (arith, drain_loop-drops now q (count_released p.bytes d))
