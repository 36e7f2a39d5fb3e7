-- ===== src/Conditioner/Engine/Tests.antt =====
-- src/conditioner.rs: the theorems at work on a small engine.
use renet_cross.Prelude.{
  ℕ, ◌≡◌, ◌≢◌, ◌⊎◌, inl, refl, ◌+◌, ◌<◌, u64_max, max, arith, true, none, some, List, [], ◌∷◌, ◌++◌,
  map, length, ok, duration_sat_add,
}
use renet_cross.Float.{fixed_point}
use renet_cross.Conditioner.{
  Config, default_config, incoming, outgoing, Control, empty_stats, empty_direction, InRange,
  new_handle, outage,
}
use renet_cross.Conditioner.Engine.{Scheduled, Conditioner, new, queue, sync, schedule, drain_ready}
use renet_cross.Conditioner.Engine.Runs.{Call, configures, outages, enqueues, drains, run}
use renet_cross.Conditioner.Engine.Invariant.{Synced}
use renet_cross.Conditioner.Engine.Queue.{due_by, due_after, schedule-split}
use renet_cross.Conditioner.Engine.Safety.{new-Tracked, drain_ready-Synced, drain_ready-due}
use renet_cross.Conditioner.Engine.Outages.{sync-outage}
use renet_cross.Conditioner.Engine.Conservation.{accounted, offers, run-accounted}

abbrev handle : Control
handle = record {
  config = default_config;
  stats = empty_stats;
  revision = 0;
  pending_outage = none;
}

started : new_handle default_config ≡ ok handle
unfolding new_handle
started = refl

default-InRange : InRange default_config
default-InRange = record { packets_fit = omega arith; bytes_fit = omega arith }

abbrev active_config : Config
active_config = record default_config { enabled = true; latency = 5 }

abbrev calls : List (Call ℕ)
calls =
    configures active_config
    ∷ enqueues incoming 1 40 100
    ∷ outages 3
    ∷ enqueues outgoing 2 41 100
    ∷ drains incoming 9
    ∷ []

abbrev engine : Conditioner ℕ
engine = new handle

few : accounted engine + length calls < u64_max
unfolding new
few = omega arith

active-InRange : InRange active_config
active-InRange = record { packets_fit = omega arith; bytes_fit = omega arith }

drain_ready-Synced_example : Synced (drain_ready outgoing 12 (run fixed_point calls engine).0).0
drain_ready-Synced_example =
    drain_ready-Synced fixed_point default_config handle calls outgoing 12 default-InRange started
      (active-InRange, (tt, (tt, (tt, (tt, tt))))) (omega arith)

run-accounted_example :
    accounted (run fixed_point calls engine).0 + length (run fixed_point calls engine).1
    ≡ accounted engine + offers calls
run-accounted_example =
    run-accounted fixed_point 2 calls engine (omega arith) few
      (active-InRange, (tt, (tt, (tt, (tt, tt))))) (tt, (tt, (tt, (tt, (tt, tt)))))
      (new-Tracked fixed_point default_config handle default-InRange started)

abbrev at_time : ℕ → Scheduled ℕ
at_time t = record { due = t; payload = t; bytes = 1 }

-- Two packets that wait.
abbrev waiting : Conditioner ℕ
waiting = record {
  control = record handle {
    stats = record empty_stats {
      incoming_stats = record empty_direction { queued_packets = 2; queued_bytes = 2 };
    };
  };
  incoming_queue = at_time 3 ∷ at_time 6 ∷ [];
  outgoing_queue = [];
  revision = 0;
  rng = 1;
  last_now = 2;
  outage_until = none;
}

waiting-Synced : Synced waiting
waiting-Synced = record {
  ranged = default-InRange;
  same = refl;
  word = omega arith;
  incoming_lane = ground arith;
  outgoing_lane = ground arith;
  quiet = λ e. cc;
}

drain_ready-due_example :
    let s = waiting in
    let t = max 5 s.last_now in
    let r = drain_ready incoming 5 s in
    ((s.revision ≡ s.control.revision)
      × (r.1 ≡ map (λ p. p.payload) (due_by t (queue s incoming)))
      × (queue r.0 incoming ≡ due_after t (queue s incoming))
      × (queue r.0 outgoing ≡ queue s outgoing))
    ⊎ ((s.revision ≢ s.control.revision)
        × (r.1 ≡ [])
        × (queue r.0 incoming ≡ [])
        × (queue r.0 outgoing ≡ []))
drain_ready-due_example =
    drain_ready-due 0 incoming outgoing 5 waiting (omega arith) (inl (refl, waiting-Synced))
      (λ e. cc)

schedule-split_example :
    schedule (at_time 3) (at_time 2 ∷ at_time 3 ∷ at_time 5 ∷ [])
    ≡ due_by 3 (at_time 2 ∷ at_time 3 ∷ at_time 5 ∷ [])
      ++ at_time 3 ∷ due_after 3 (at_time 2 ∷ at_time 3 ∷ at_time 5 ∷ [])
schedule-split_example =
    schedule-split (at_time 3) (at_time 2 ∷ at_time 3 ∷ at_time 5 ∷ [])
      ((omega arith, (omega arith, tt)), ((omega arith, tt), (tt, tt)))

sync-outage_example :
    let polled = sync 4 (record engine { control = outage 7 engine.control }) in
    (polled.outage_until ≡ some (duration_sat_add (max 4 engine.last_now) 7))
    × (polled.incoming_queue ≡ [])
    × (polled.outgoing_queue ≡ [])
    × (polled.control.stats.outage_active ≡ true)
unfolding new
sync-outage_example =
    sync-outage 2 7 4 engine (omega arith)
      (new-Tracked fixed_point default_config handle default-InRange started)
      (λ e. omega (arith, e)) (omega arith)
