-- ===== src/Conditioner/Engine/Outages.antt =====
-- src/conditioner.rs: a requested outage, and the poll that starts it.
use renet_cross.Prelude.{
  ℕ, ◌+◌, ◌%◌, ◌<◌, max, ◌≡◌, ◌≢◌, true, false, some, [], arith, ◌==◌, u64_mod, duration_max,
  duration_sat_add,
}
use renet_cross.Conditioner.{outage}
use renet_cross.Conditioner.Engine.{Conditioner, sync}
use renet_cross.Conditioner.Engine.Invariant.{Tracked, gap_of, word_of}

module _ {T : Type 0} where
  -- In a state as any history of calls leaves it, with the clock below its maximum, the first poll
  -- after a request for an outage that is not zero starts it: it ends the requested time after that
  -- poll, not after the request, and both queues are empty.
  pub sync-outage :
      (n duration now : ℕ) (s : Conditioner T)
      → n + 1 < u64_mod
      → Tracked n s
      → duration ≢ 0
      → max now s.last_now < duration_max
      → let polled = sync now (record s { control = outage duration s.control }) in
        (polled.outage_until ≡ some (duration_sat_add (max now s.last_now) duration))
        × (polled.incoming_queue ≡ [])
        × (polled.outgoing_queue ≡ [])
        × (polled.control.stats.outage_active ≡ true)
  unfolding sync outage
  sync-outage n duration now s h v ne room =
      let other : (s.revision == (s.control.revision + 1) % u64_mod) ≡ false =
        ground (arith, gap_of n s v, word_of n s v) in
      ground arith
