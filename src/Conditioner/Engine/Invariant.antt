-- ===== src/Conditioner/Engine/Invariant.antt =====
-- src/conditioner.rs: what holds of a conditioner between calls. The engine learns of a change of
-- its control block by comparing revisions, so the two agree (`Synced`) or the engine is a number
-- of revisions behind and the counters are already cleared (`Behind`).
use renet_cross.Prelude.{
  ℕ, ◌+◌, ◌%◌, ◌<◌, max, ◌≡◌, refl, ◌⊎◌, inl, inr, true, false, not, if_cases, Option, is_some,
  List, [], arith, ◌==◌, Bool-cases, u64_mod,
}
use renet_cross.Float.{F64}
use renet_cross.Conditioner.{
  Config, InRange, Direction, incoming, outgoing, DirectionStats, configured, discard_queues,
  direction,
}
use renet_cross.Conditioner.Engine.{
  Scheduled, Conditioner, queue, set_queue, update_stats, sync, adopt, show_outage, admit,
  overflows, count_queued, count_overflow, count_loss, count_outage, impair, accept, release,
  random, draw_delay, drain_loop,
}
use renet_cross.Conditioner.Engine.Lanes.{
  IsLane, IsEmptied, empty-IsLane, recount-IsLane, queued-IsLane, released-IsLane,
}

pub record Synced {T : Type 0} (s : Conditioner T) : Type 0 where
  pub ranged : InRange s.control.config
  pub same : s.revision ≡ s.control.revision
  pub word : s.revision < u64_mod
  pub incoming_lane : IsLane s.control.config s.control.stats.incoming_stats s.incoming_queue
  pub outgoing_lane : IsLane s.control.config s.control.stats.outgoing_stats s.outgoing_queue
  -- while an outage lasts nothing is queued
  pub quiet : is_some s.outage_until ≡ true → (s.incoming_queue ≡ []) × (s.outgoing_queue ≡ [])

pub record Behind {T : Type 0} (n : ℕ) (s : Conditioner T) : Type 0 where
  pub ranged : InRange s.control.config
  pub positive : 0 < n
  pub word : s.revision < u64_mod
  pub gap : (s.revision + n) % u64_mod ≡ s.control.revision
  pub incoming_emptied : IsEmptied s.control.stats.incoming_stats
  pub outgoing_emptied : IsEmptied s.control.stats.outgoing_stats

abbrev pub Tracked : {T : Type 0} → ℕ → Conditioner T → Type 0
Tracked n s = ((n ≡ 0) × Synced s) ⊎ Behind n s

module _ {T : Type 0} where
  pub word_of : (n : ℕ) (s : Conditioner T) → Tracked n s → s.revision < u64_mod
  word_of n s (inl (e, v)) = v.word
  word_of n s (inr b) = b.word

  pub gap_of :
      (n : ℕ) (s : Conditioner T) → Tracked n s → (s.revision + n) % u64_mod ≡ s.control.revision
  gap_of n s (inl (e, v)) = omega (arith, v.word, v.same)
  gap_of n s (inr b) = b.gap

  pub ranged_of : (n : ℕ) (s : Conditioner T) → Tracked n s → InRange s.control.config
  ranged_of n s (inl (e, v)) = v.ranged
  ranged_of n s (inr b) = b.ranged

  -- A poll brings the two together, as long as the revision has not gone round.
  show_outage-Synced : (t : ℕ) (s : Conditioner T) → Synced s → Synced (show_outage t s)
  unfolding show_outage
  show_outage-Synced t s v = record {
    ranged = v.ranged;
    same = v.same;
    word = v.word;
    incoming_lane = v.incoming_lane;
    outgoing_lane = v.outgoing_lane;
    quiet = λ h. v.quiet (ground arith);
  }

  adopt-Synced : (t n : ℕ) (s : Conditioner T) → n < u64_mod → Tracked n s → Synced (adopt t s)
  unfolding adopt
  adopt-Synced t n s h (inl (e, v)) =
      let same : (s.revision == s.control.revision) ≡ true = ground (arith, v.same) in
      rw same (record {
        ranged = v.ranged;
        same = v.same;
        word = v.word;
        incoming_lane = v.incoming_lane;
        outgoing_lane = v.outgoing_lane;
        quiet = v.quiet;
      })
  adopt-Synced t n s h (inr b) =
      let other : (s.revision == s.control.revision) ≡ false = ground (arith, b.gap) in
      rw other (record {
        ranged = b.ranged;
        same = refl;
        word = omega (arith, b.gap);
        incoming_lane = empty-IsLane s.control.config _ b.incoming_emptied;
        outgoing_lane = empty-IsLane s.control.config _ b.outgoing_emptied;
        quiet = λ _. (refl, refl);
      })

  pub sync-Synced :
      (now n : ℕ) (s : Conditioner T) → n < u64_mod → Tracked n s → Synced (sync now s)
  unfolding sync
  sync-Synced now n s h v = show_outage-Synced _ _ (adopt-Synced (max now s.last_now) n s h v)

  -- A counter of drops says nothing of the queue.
  dropped-Synced :
      (f : DirectionStats → DirectionStats) (d : Direction) (s : Conditioner T)
      → ((x : DirectionStats)
          → ((f x).queued_packets ≡ x.queued_packets) × ((f x).queued_bytes ≡ x.queued_bytes))
      → Synced s
      → Synced (update_stats f d s)
  dropped-Synced f incoming s same v = record {
    ranged = v.ranged;
    same = v.same;
    word = v.word;
    incoming_lane = recount-IsLane _ _ _ _ (same _) v.incoming_lane;
    outgoing_lane = v.outgoing_lane;
    quiet = v.quiet;
  }
  dropped-Synced f outgoing s same v = record {
    ranged = v.ranged;
    same = v.same;
    word = v.word;
    incoming_lane = v.incoming_lane;
    outgoing_lane = recount-IsLane _ _ _ _ (same _) v.outgoing_lane;
    quiet = v.quiet;
  }

  pub lane :
      {s : Conditioner T} (d : Direction)
      → Synced s
      → IsLane s.control.config (direction s.control.stats d) (queue s d)
  lane incoming v = v.incoming_lane
  lane outgoing v = v.outgoing_lane

  -- Replacing one direction by another that is well formed.
  replace-Synced :
      (f : DirectionStats → DirectionStats) (d : Direction) (q : List (Scheduled T)) (rng : ℕ)
      (s : Conditioner T)
      → IsLane s.control.config (f (direction s.control.stats d)) q
      → (is_some s.outage_until ≡ true → q ≡ [])
      → Synced s
      → Synced (update_stats f d (set_queue d q (record s { rng = rng })))
  replace-Synced f incoming q rng s l e v = record {
    ranged = v.ranged;
    same = v.same;
    word = v.word;
    incoming_lane = l;
    outgoing_lane = v.outgoing_lane;
    quiet = λ h. (e h, (v.quiet h).1);
  }
  replace-Synced f outgoing q rng s l e v = record {
    ranged = v.ranged;
    same = v.same;
    word = v.word;
    incoming_lane = v.incoming_lane;
    outgoing_lane = l;
    quiet = λ h. ((v.quiet h).0, e h);
  }

  quiet_queue :
      {s : Conditioner T} (d : Direction)
      → Synced s
      → is_some s.outage_until ≡ true
      → queue s d ≡ []
  quiet_queue incoming v h = (v.quiet h).0
  quiet_queue outgoing v h = (v.quiet h).1

  redrawn-Synced : (rng : ℕ) (s : Conditioner T) → Synced s → Synced (record s { rng = rng })
  redrawn-Synced rng s v = record {
    ranged = v.ranged;
    same = v.same;
    word = v.word;
    incoming_lane = v.incoming_lane;
    outgoing_lane = v.outgoing_lane;
    quiet = v.quiet;
  }

  admit-Synced :
      (delay : ℕ → ℕ × ℕ) (d : Direction) (payload : T) (bytes : ℕ) (s : Conditioner T)
      → is_some s.outage_until ≡ false
      → Synced s
      → Synced (admit delay d payload bytes s)
  unfolding admit
  admit-Synced delay d payload bytes s active v =
      elim (Bool-cases (overflows s.control.config (direction s.control.stats d) bytes)) [
        | inl full ↦ rw full (dropped-Synced count_overflow d s (λ x. (refl, refl)) v)
        | inr room ↦ rw room (
            replace-Synced (count_queued bytes) d _ _ s
              (queued-IsLane _ _ (queue s d) _ v.ranged room (lane d v)) (λ h. cc) v)
      ]

  pub release-Synced : (d : Direction) (s : Conditioner T) → Synced s → Synced (release d s).0
  unfolding release
  release-Synced d s v =
      replace-Synced (λ _. _) d _ s.rng s
        (released-IsLane s.control.config s.last_now _ (queue s d) (lane d v))
        (λ h. rw (quiet_queue d v h, drain_loop)) v

module _ (fl : F64) {T : Type 0} where
  impair-Synced :
      (d : Direction) (payload : T) (bytes : ℕ) (s : Conditioner T)
      → is_some s.outage_until ≡ false
      → Synced s
      → Synced (impair fl d payload bytes s)
  unfolding impair
  impair-Synced d payload bytes s active v =
      let rng' = (random fl s.rng).0 in
      let v' = redrawn-Synced rng' s v in
      elim (Bool-cases (fl.lt (random fl s.rng).1 (fl.of_f32 s.control.config.packet_loss))) [
        | inl lost ↦ rw lost (dropped-Synced count_loss d _ (λ x. (refl, refl)) v')
        | inr kept ↦ rw kept (
            admit-Synced (draw_delay fl s.control.config) d payload bytes (record s { rng = rng' })
              active v')
      ]

  pub accept-Synced :
      (d : Direction) (payload : T) (bytes : ℕ) (s : Conditioner T)
      → Synced s
      → Synced (accept fl d payload bytes s).0
  unfolding accept
  accept-Synced d payload bytes s v =
      if_cases (λ (r : Conditioner T × Option T). Synced r.0) (is_some s.outage_until) _ _
        (λ out. dropped-Synced count_outage d s (λ x. (refl, refl)) v)
        λ active.
          if_cases (λ (r : Conditioner T × Option T). Synced r.0) (not s.control.config.enabled) _ _
            (λ off. v) λ on. impair-Synced d payload bytes s active v

module _ {T : Type 0} where
  -- A call of the handle leaves the engine one more revision behind.
  pub Behind-configured :
      (n : ℕ) (s : Conditioner T) (c : Config)
      → InRange c
      → Tracked n s
      → Behind (n + 1) (record s { control = configured c s.control })
  unfolding configured discard_queues
  Behind-configured n s c r v = record {
    ranged = r;
    positive = omega arith;
    word = word_of n s v;
    gap = omega (arith, gap_of n s v);
    incoming_emptied = (refl, refl);
    outgoing_emptied = (refl, refl);
  }
