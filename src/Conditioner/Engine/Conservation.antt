-- ===== src/Conditioner/Engine/Conservation.antt =====
-- src/conditioner.rs: no packet is lost from the books. Each packet offered to a conditioner is
-- handed back, is still queued, or is counted by one of the drop counters.
use renet_cross.Prelude.{
  ℕ, ◌+◌, ◌≤◌, ◌<◌, ◌≡◌, refl, ◌∙◌, inl, inr, not, if_cases, Bool-cases, Option, List, [], ◌∷◌,
  length, length-append, All, arith, u64_mod, u64_max, is_some,
}
use renet_cross.Float.{F64}
use renet_cross.Conditioner.{
  Config, Direction, incoming, outgoing, DirectionStats, configure, configured, validate_cases,
  configure-ok, configure-err, outage, discard_queues, direction,
}
use renet_cross.Conditioner.Engine.{
  Scheduled, Conditioner, queue, sync, accept, impair, admit, enqueue, drain_ready, release,
  drain_loop, update_stats, set_queue, overflows, count_loss, count_outage, count_overflow,
  count_queued, random, draw_delay,
}
use renet_cross.Conditioner.Engine.Queue.{
  drain_loop-Counts, drain_loop-length, drain_loop-drops, Counts,
}
use renet_cross.Conditioner.Engine.Invariant.{Synced, Tracked, sync-Synced, lane}
use renet_cross.Conditioner.Engine.Runs.{
  Call, configures, outages, resets, enqueues, drains, clears, CallInRange, step, run, option_list,
}
use renet_cross.Conditioner.Engine.Safety.{step-Tracked}

-- The packets of one direction that are queued or were dropped.
abbrev pub accounted_in : DirectionStats → ℕ
accounted_in d =
    d.queued_packets + d.simulated_loss_drops + d.outage_drops + d.overflow_drops
    + d.transition_drops

abbrev pub accounted : {T : Type 0} → Conditioner T → ℕ
accounted s =
    accounted_in s.control.stats.incoming_stats + accounted_in s.control.stats.outgoing_stats

abbrev pub offers : {T : Type 0} → List (Call T) → ℕ
offers [] = 0
offers (enqueues d now payload bytes ∷ cs) = offers cs + 1
offers (c ∷ cs) = offers cs

-- A reset of the session forgets the books.
abbrev pub KeepsBooks : {T : Type 0} → Call T → Type 0
KeepsBooks resets = ⊥
KeepsBooks clears = ⊥
KeepsBooks _ = Unit

module _ {T : Type 0} where
  accounted-sync : (now : ℕ) (s : Conditioner T) → accounted (sync now s) ≡ accounted s
  unfolding sync
  accounted-sync now s = ground arith

  -- A change of one direction's counters that adds one packet.
  accounted-update :
      (f : DirectionStats → DirectionStats) (d : Direction) (s : Conditioner T)
      → accounted_in (f (direction s.control.stats d))
        ≡ accounted_in (direction s.control.stats d) + 1
      → accounted (update_stats f d s) ≡ accounted s + 1
  accounted-update f incoming s e = omega (arith, e)
  accounted-update f outgoing s e = omega (arith, e)

  accounted-part :
      (d : Direction) (s : Conditioner T) → accounted_in (direction s.control.stats d) ≤ accounted s
  accounted-part incoming s = omega arith
  accounted-part outgoing s = omega arith

  accounted-set_queue :
      (f : DirectionStats → DirectionStats) (d : Direction) (q : List (Scheduled T))
      (s : Conditioner T)
      → accounted (update_stats f d (set_queue d q s)) ≡ accounted (update_stats f d s)
  accounted-set_queue f incoming q s = refl
  accounted-set_queue f outgoing q s = refl

  accounted-admit :
      (delay : ℕ → ℕ × ℕ) (d : Direction) (payload : T) (bytes : ℕ) (s : Conditioner T)
      → accounted s < u64_max
      → accounted (admit delay d payload bytes s) ≡ accounted s + 1
  unfolding admit
  accounted-admit delay d payload bytes s h =
      elim (Bool-cases (overflows s.control.config (direction s.control.stats d) bytes)) [
        | inl full ↦
            rw full (accounted-update count_overflow d s (omega (arith, accounted-part d s)))
        | inr room ↦ rw room (
            accounted-set_queue (count_queued bytes) d _ (record s { rng = (delay s.rng).0 })
            ∙ accounted-update (count_queued bytes) d s (omega (arith, accounted-part d s)))
      ]

  drained-accounted :
      (now : ℕ) (q : List (Scheduled T)) (d : DirectionStats)
      → Counts d q
      → accounted_in (drain_loop now q d).2 + length (drain_loop now q d).0 ≡ accounted_in d
  drained-accounted now q d c = omega (
    arith,
    c.packets,
    (drain_loop-Counts now q d c).packets,
    drain_loop-length now q d,
    drain_loop-drops now q d,
  )

  accounted-replace :
      (stats : DirectionStats) (d : Direction) (q : List (Scheduled T)) (s : Conditioner T) (k : ℕ)
      → accounted_in stats + k ≡ accounted_in (direction s.control.stats d)
      → accounted (update_stats (λ _. stats) d (set_queue d q s)) + k ≡ accounted s
  accounted-replace stats incoming q s k e = omega (arith, e)
  accounted-replace stats outgoing q s k e = omega (arith, e)

  accounted-release :
      (d : Direction) (s : Conditioner T)
      → Synced s
      → accounted (release d s).0 + length (release d s).1 ≡ accounted s
  unfolding release
  accounted-release d s v =
      accounted-replace _ d _ s _
        (drained-accounted s.last_now (queue s d) (direction s.control.stats d) (lane d v).counts)

  accounted-configure :
      (c : Config) (s : Conditioner T)
      → accounted s < u64_max
      → accounted (record s { control = (configure c s.control).0 }) ≡ accounted s
  unfolding configured discard_queues
  accounted-configure c s h = elim (validate_cases c) [
    | inl good ↦ rw (configure-ok c s.control good) (omega arith)
    | inr bad ↦ rw (configure-err c s.control bad) refl
  ]

  accounted-outage :
      (duration : ℕ) (s : Conditioner T)
      → accounted s < u64_max
      → accounted (record s { control = outage duration s.control }) ≡ accounted s
  unfolding outage
  accounted-outage duration s h = omega arith

module _ (fl : F64) {T : Type 0} where
  accounted-impair :
      (d : Direction) (payload : T) (bytes : ℕ) (s : Conditioner T)
      → accounted s < u64_max
      → accounted (impair fl d payload bytes s) ≡ accounted s + 1
  unfolding impair
  accounted-impair d payload bytes s h =
      elim (Bool-cases (fl.lt (random fl s.rng).1 (fl.of_f32 s.control.config.packet_loss))) [
        | inl lost ↦ rw lost (
            accounted-update count_loss d (record s { rng = (random fl s.rng).0 })
              (omega (arith, accounted-part d s)))
        | inr kept ↦ rw kept (
            accounted-admit (draw_delay fl s.control.config) d payload bytes
              (record s { rng = (random fl s.rng).0 }) h)
      ]

  accounted-accept :
      (d : Direction) (payload : T) (bytes : ℕ) (s : Conditioner T)
      → accounted s < u64_max
      → accounted (accept fl d payload bytes s).0
          + length (option_list (accept fl d payload bytes s).1)
        ≡ accounted s + 1
  unfolding accept
  accounted-accept d payload bytes s h =
      if_cases
        (λ (r : Conditioner T × Option T).
          accounted r.0 + length (option_list r.1) ≡ accounted s + 1)
        (is_some s.outage_until) _ _
        (λ out.
          omega (arith, accounted-update count_outage d s (omega (arith, accounted-part d s))))
        λ active.
          if_cases
            (λ (r : Conditioner T × Option T).
              accounted r.0 + length (option_list r.1) ≡ accounted s + 1)
            (not s.control.config.enabled) _ _ (λ off. omega arith)
            λ on. omega (arith, accounted-impair d payload bytes s h)

  step-accounted :
      (n : ℕ) (c : Call T) (s : Conditioner T)
      → n < u64_mod
      → KeepsBooks c
      → accounted s < u64_max
      → Tracked n s
      → accounted (step fl c s).0 + length (step fl c s).1 ≡ accounted s + offers (c ∷ [])
  unfolding step enqueue drain_ready
  step-accounted n (configures c) s h k b v = omega (arith, accounted-configure c s b)
  step-accounted n (outages duration) s h k b v = omega (arith, accounted-outage duration s b)
  step-accounted n resets s h k b v = absurd k
  step-accounted n (enqueues d now payload bytes) s h k b v = omega (
    arith,
    accounted-sync now s,
    accounted-accept d payload bytes (sync now s) (omega (arith, accounted-sync now s)),
  )
  step-accounted n (drains d now) s h k b v =
      omega
        (arith, accounted-sync now s, accounted-release d (sync now s) (sync-Synced now n s h v))
  step-accounted n clears s h k b v = absurd k

  offers-step : (c : Call T) (cs : List (Call T)) → offers (c ∷ cs) ≡ offers (c ∷ []) + offers cs
  offers-step (configures c) cs = omega arith
  offers-step (outages duration) cs = omega arith
  offers-step resets cs = omega arith
  offers-step (enqueues d now payload bytes) cs = omega arith
  offers-step (drains d now) cs = omega arith
  offers-step clears cs = omega arith

  offers-le : (c : Call T) → offers (c ∷ []) ≤ 1
  offers-le (configures c) = omega arith
  offers-le (outages duration) = omega arith
  offers-le resets = omega arith
  offers-le (enqueues d now payload bytes) = omega arith
  offers-le (drains d now) = omega arith
  offers-le clears = omega arith

  -- Over any history of calls with settings in range that resets no session, from a state as such
  -- histories leave it, at most `n` revisions behind its handle, as long as the revisions and the
  -- books stay below 2^64: the packets queued or dropped at the start, plus those offered, are the
  -- packets handed back, queued or dropped at the end.
  pub run-accounted :
      (n : ℕ) (cs : List (Call T)) (s : Conditioner T)
      → n + length cs < u64_mod
      → accounted s + length cs < u64_max
      → All CallInRange cs
      → All KeepsBooks cs
      → Tracked n s
      → accounted (run fl cs s).0 + length (run fl cs s).1 ≡ accounted s + offers cs
  unfolding run
  run-accounted n [] s h b r k v = omega arith
  run-accounted n (c ∷ cs) s h b r k v =
      let (m, le, t) = step-Tracked fl n c s (omega arith) r.0 v in
      let now = step-accounted n c s (omega arith) k.0 (omega arith) v in
      let later =
        run-accounted m cs (step fl c s).0 (omega (arith, le)) (omega (arith, now, offers-le c)) r.1
          k.1 t in
      omega (
        arith,
        now,
        later,
        length-append (step fl c s).1 (run fl cs (step fl c s).0).1,
        offers-step c cs,
      )
