-- ===== src/Conditioner/Engine.antt =====
-- src/conditioner.rs: `PacketConditioner`, the queues behind a handle. The mutex of the handle is
-- held for a whole call, so a call is a function of the engine and the control block together.
mod Tests
pub mod Queue
pub mod Lanes
pub mod Invariant
pub mod Safety
pub mod Outages
pub mod Runs
pub mod Conservation
pub mod Idle
pub mod Contents
use Prim.Native.Nat.{bit_xor}
use renet_cross.Prelude.{
  ℕ, zero, suc, ◌+◌, ◌-◌, ◌*◌, ◌/◌, ◌^◌, max, Bool, true, false, not, ◌||◌, Option, none, some,
  List, [], ◌∷◌, length, ltb, leb, ◌==◌, if◌then◌else◌, is_some, is_some_and, u64_max, u64_add,
  u64_sub, u64_mul, u64_sat_add, duration_max, duration_sat_add,
}
use mathlib.Core.Option
use renet_cross.Float.{F64}
use renet_cross.Conditioner.{
  Config, Direction, incoming, outgoing, DirectionStats, ConditionerStats, update_direction,
  direction, Control, reset_session,
}

pub record Scheduled (T : Type 0) : Type 0 where
  pub due : ℕ
  pub payload : T
  pub bytes : ℕ

-- The engine's own fields; `control` is the block that its handle shares.
pub record Conditioner (T : Type 0) : Type 0 where
  pub control : Control
  pub incoming_queue : List (Scheduled T)
  pub outgoing_queue : List (Scheduled T)
  pub revision : ℕ
  pub rng : ℕ
  pub last_now : ℕ
  pub outage_until : Option ℕ

-- SplitMix64: the new state, and the 53 bits that become a fraction.
random_bits : ℕ → ℕ × ℕ
random_bits state =
    let rng = u64_add state 0x9e3779b97f4a7c15 in
    let a = u64_mul (bit_xor rng (rng / 2 ^ 30)) 0xbf58476d1ce4e5b9 in
    let b = u64_mul (bit_xor a (a / 2 ^ 27)) 0x94d049bb133111eb in
    let z = bit_xor b (b / 2 ^ 31) in (rng, z / 2 ^ 11)

pub count_loss : DirectionStats → DirectionStats
count_loss d = record d { simulated_loss_drops = u64_sat_add d.simulated_loss_drops 1 }

pub count_outage : DirectionStats → DirectionStats
count_outage d = record d { outage_drops = u64_sat_add d.outage_drops 1 }

pub count_overflow : DirectionStats → DirectionStats
count_overflow d = record d { overflow_drops = u64_sat_add d.overflow_drops 1 }

pub count_queued : ℕ → DirectionStats → DirectionStats
count_queued bytes d = record d {
  queued_packets = u64_add d.queued_packets 1;
  queued_bytes = u64_add d.queued_bytes bytes;
}

pub count_released : ℕ → DirectionStats → DirectionStats
count_released bytes d = record d {
  queued_packets = u64_sub d.queued_packets 1;
  queued_bytes = u64_sub d.queued_bytes bytes;
}

pub overflows : Config → DirectionStats → ℕ → Bool
overflows c d bytes =
    leb c.max_queue_packets d.queued_packets || ltb (c.max_queue_bytes - d.queued_bytes) bytes

pub end_outage : ℕ → Option ℕ → Option ℕ
end_outage now until = if is_some_and until (λ end. leb end now) then none else until

module _ {T : Type 0} where
  abbrev pub queue : Conditioner T → Direction → List (Scheduled T)
  queue s incoming = s.incoming_queue
  queue s outgoing = s.outgoing_queue

  abbrev pub set_queue : Direction → List (Scheduled T) → Conditioner T → Conditioner T
  set_queue incoming q s = record s { incoming_queue = q }
  set_queue outgoing q s = record s { outgoing_queue = q }

  abbrev pub update_stats :
      (DirectionStats → DirectionStats) → Direction → Conditioner T → Conditioner T
  update_stats f d s =
      let stats' : ConditionerStats = update_direction f d s.control.stats in
      let control' : Control = record (s.control) { stats = stats' } in
      record s { control = control' }

  -- `PacketConditioner::new`.
  pub new : Control → Conditioner T
  unfolding reset_session
  new control = record {
    control = reset_session control;
    incoming_queue = [];
    outgoing_queue = [];
    revision = u64_max;
    rng = 1;
    last_now = 0;
    outage_until = none;
  }

  -- A changed revision empties the queues, reseeds, and starts the outage that was asked for.
  pub adopt : ℕ → Conditioner T → Conditioner T
  adopt now s = if s.revision == s.control.revision then record s { last_now = now } else record s {
    control = record (s.control) { pending_outage = none };
    incoming_queue = [];
    outgoing_queue = [];
    revision = s.control.revision;
    rng = s.control.config.seed;
    last_now = now;
    outage_until = Option.map (duration_sat_add now) s.control.pending_outage;
  }

  pub show_outage : ℕ → Conditioner T → Conditioner T
  unfolding end_outage
  show_outage now s =
      let until = end_outage now s.outage_until in
      let stats' : ConditionerStats = record (s.control.stats) { outage_active = is_some until } in
      record s { control = record (s.control) { stats = stats' }; outage_until = until }

  -- The state after the poll; its `last_now` is the time that the call goes on with.
  pub sync : ℕ → Conditioner T → Conditioner T
  unfolding adopt show_outage
  sync now s = let t = max now s.last_now in show_outage t (adopt t s)

  -- `queue.iter().position(|packet| packet.due > due).unwrap_or(queue.len())`.
  pub position : ℕ → List (Scheduled T) → ℕ
  position due [] = 0
  position due (p ∷ q) = if ltb due p.due then 0 else suc (position due q)

  pub insert_at : ℕ → Scheduled T → List (Scheduled T) → List (Scheduled T)
  insert_at zero p q = p ∷ q
  insert_at (suc n) p [] = p ∷ []
  insert_at (suc n) p (r ∷ q) = r ∷ insert_at n p q

  -- An insertion behind the packets that are due no later.
  pub schedule : Scheduled T → List (Scheduled T) → List (Scheduled T)
  unfolding position insert_at
  schedule p q = insert_at (position p.due q) p q

  -- The room check, and the insertion with the delay drawn by `delay`.
  pub admit : (ℕ → ℕ × ℕ) → Direction → T → ℕ → Conditioner T → Conditioner T
  unfolding overflows schedule count_overflow count_queued
  admit delay d payload bytes s =
      if overflows s.control.config (direction s.control.stats d) bytes
      then update_stats count_overflow d s
      else let (rng', wait) = delay s.rng in
        let packet : Scheduled T = record {
          due = duration_sat_add s.last_now wait;
          payload = payload;
          bytes = bytes;
        } in
        update_stats (count_queued bytes) d
          (set_queue d (schedule packet (queue s d)) (record s { rng = rng' }))

  -- `drain_ready`'s loop: what is released, what stays, and the counters.
  pub drain_loop :
      ℕ → List (Scheduled T) → DirectionStats → List T × List (Scheduled T) × DirectionStats
  unfolding count_released
  drain_loop now [] d = ([], [], d)
  drain_loop now (p ∷ q) d =
      let rest = drain_loop now q (count_released p.bytes d) in
      if leb p.due now then (p.payload ∷ rest.0, rest.1, rest.2) else ([], p ∷ q, d)

  pub release : Direction → Conditioner T → Conditioner T × List T
  unfolding drain_loop
  release d s =
      let (ready, rest, stats) = drain_loop s.last_now (queue s d) (direction s.control.stats d) in
      (update_stats (λ _. stats) d (set_queue d rest s), ready)

  pub drain_ready : Direction → ℕ → Conditioner T → Conditioner T × List T
  unfolding release sync
  drain_ready d now s = release d (sync now s)

  pub clear_session : Conditioner T → Conditioner T
  unfolding reset_session
  clear_session s = record s {
    control = reset_session s.control;
    incoming_queue = [];
    outgoing_queue = [];
    last_now = 0;
    outage_until = none;
  }

module _ (fl : F64) where
  open fl use {
    Number, of_u64, of_f32, add, sub, mul, div, maximum, lt, as_secs_f64, try_from_secs_f64,
  }

  -- The new generator state, and a fraction in [0, 1).
  pub random : ℕ → ℕ × Number
  unfolding random_bits
  random state = let (rng, bits) = random_bits state in (rng, div (of_u64 bits) (of_u64 (2 ^ 53)))

  -- The generator state after the draw, and the delay of one packet.
  pub draw_delay : Config → ℕ → ℕ × ℕ
  unfolding random
  draw_delay c state =
      let (rng, fraction) = random state in
      let spread = mul (sub (mul fraction (of_u64 2)) (of_u64 1)) (as_secs_f64 c.jitter) in
      let seconds = maximum (add (as_secs_f64 c.latency) spread) (of_u64 0) in
      (rng, Option.get_or (try_from_secs_f64 seconds) duration_max)

  module _ {T : Type 0} where
    pub impair : Direction → T → ℕ → Conditioner T → Conditioner T
    unfolding random draw_delay admit count_loss
    impair d payload bytes s =
        let (rng', fraction) = random s.rng in
        let drawn = record s { rng = rng' } in
        if lt fraction (of_f32 s.control.config.packet_loss)
        then update_stats count_loss d drawn
        else admit (draw_delay s.control.config) d payload bytes drawn

    pub accept : Direction → T → ℕ → Conditioner T → Conditioner T × Option T
    unfolding impair count_outage
    accept d payload bytes s =
        if is_some s.outage_until
        then (update_stats count_outage d s, none)
        else if not s.control.config.enabled
        then (s, some payload)
        else (impair d payload bytes s, none)

    pub enqueue : Direction → ℕ → T → ℕ → Conditioner T → Conditioner T × Option T
    unfolding accept sync
    enqueue d now payload bytes s = accept d payload bytes (sync now s)
