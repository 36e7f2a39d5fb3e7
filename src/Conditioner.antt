-- ===== src/Conditioner.antt =====
-- src/conditioner.rs: the settings, the statistics and the shared control block of one packet
-- conditioner, and the operations of its handle. The packet queues are in Conditioner/Engine.
pub mod Engine
pub mod Calibration
mod Tests
use renet_cross.Prelude.{
  ℕ, ◌+◌, ◌*◌, ◌<◌, ◌≡◌, ◌⊎◌, arith, Bool, true, false, not, ◌||◌, Option, none, some, Result, ok,
  err, refuse, ◌>>◌, ◌==◌, if◌then◌else◌, u64_mod, u64_add, u64_sat_add,
}
use renet_cross.Float.{F32, finite, is_finite, in_unit_range}

pub record Config : Type 0 where
  pub enabled : Bool
  pub latency : ℕ
  pub jitter : ℕ
  pub packet_loss : F32
  pub max_queue_packets : ℕ
  pub max_queue_bytes : ℕ
  pub seed : ℕ

abbrev pub default_config : Config
default_config = record {
  enabled = false;
  latency = 0;
  jitter = 0;
  packet_loss = finite false 0;
  max_queue_packets = 1024;
  max_queue_bytes = 2 * 1024 * 1024;
  seed = 1;
}

pub data ConfigError : Type 0 where
  invalid_config : ConfigError

unfoldable pub validate : Config → Result ConfigError (Unit {0})
validate c =
    if not (is_finite c.packet_loss)
      || not (in_unit_range c.packet_loss)
      || c.max_queue_packets == 0
      || c.max_queue_bytes == 0
    then err invalid_config
    else ok tt

pub validate_cases : (c : Config) → (validate c ≡ ok tt) ⊎ (validate c ≡ err invalid_config)
unfolding validate
validate_cases c = ground arith

pub data Direction : Type 0 where
  incoming outgoing : Direction

pub record DirectionStats : Type 0 where
  pub queued_packets : ℕ
  pub queued_bytes : ℕ
  pub simulated_loss_drops : ℕ
  pub outage_drops : ℕ
  pub overflow_drops : ℕ
  pub transition_drops : ℕ

pub record ConditionerStats : Type 0 where
  pub incoming_stats : DirectionStats
  pub outgoing_stats : DirectionStats
  pub outage_active : Bool

abbrev pub empty_direction : DirectionStats
empty_direction = record {
  queued_packets = 0;
  queued_bytes = 0;
  simulated_loss_drops = 0;
  outage_drops = 0;
  overflow_drops = 0;
  transition_drops = 0;
}

abbrev pub empty_stats : ConditionerStats
empty_stats = record {
  incoming_stats = empty_direction;
  outgoing_stats = empty_direction;
  outage_active = false;
}

-- The counters of one direction, read and written.
abbrev pub direction : ConditionerStats → Direction → DirectionStats
direction s incoming = s.incoming_stats
direction s outgoing = s.outgoing_stats

abbrev pub update_direction :
    (DirectionStats → DirectionStats) → Direction → ConditionerStats → ConditionerStats
update_direction f incoming s = record s { incoming_stats = f s.incoming_stats }
update_direction f outgoing s = record s { outgoing_stats = f s.outgoing_stats }

unfoldable pub discard_queue : DirectionStats → DirectionStats
discard_queue d = record d {
  transition_drops = u64_sat_add d.transition_drops d.queued_packets;
  queued_packets = 0;
  queued_bytes = 0;
}

unfoldable pub discard_queues : ConditionerStats → ConditionerStats
unfolding discard_queue
discard_queues s = record s {
  incoming_stats = discard_queue s.incoming_stats;
  outgoing_stats = discard_queue s.outgoing_stats;
}

-- What the mutex of a handle guards.
pub record Control : Type 0 where
  pub config : Config
  pub stats : ConditionerStats
  pub revision : ℕ
  pub pending_outage : Option ℕ

-- `ConditionerHandle::new`.
unfoldable pub new_handle : Config → Result ConfigError Control
unfolding validate
new_handle c =
    validate c
    >> ok (record { config = c; stats = empty_stats; revision = 0; pending_outage = none })

pub configured : Config → Control → Control
configured config control = record control {
  config = config;
  stats = record discarded { outage_active = false };
  revision = u64_add control.revision 1;
  pending_outage = none;
}
  where
    discarded : ConditionerStats
    discarded = discard_queues control.stats

-- The control block after the call, and the verdict.
unfoldable pub configure : Config → Control → Control × Result ConfigError (Unit {0})
unfolding validate configured discard_queues
configure config control = elim (validate config) [
  | ok _ ↦ (configured config control, ok tt)
  | err e ↦ (control, err e)
]

unfoldable pub is_active : Control → Bool
is_active control = control.config.enabled || control.stats.outage_active

unfoldable pub outage : ℕ → Control → Control
unfolding discard_queues
outage duration control = record control {
  stats = record discarded { outage_active = not (duration == 0) };
  pending_outage = if duration == 0 then none else some duration;
  revision = u64_add control.revision 1;
}
  where
    discarded : ConditionerStats
    discarded = discard_queues control.stats

unfoldable pub reset_session : Control → Control
reset_session control = record control {
  stats = empty_stats;
  pending_outage = none;
  revision = u64_add control.revision 1;
}

-- The limits are machine words.
pub record InRange (c : Config) : Type 0 where
  pub packets_fit : c.max_queue_packets < u64_mod
  pub bytes_fit : c.max_queue_bytes < u64_mod

pub configure-ok :
    (c : Config) (control : Control)
    → validate c ≡ ok tt
    → configure c control ≡ (configured c control, ok tt)
unfolding configure
configure-ok c control e = rw (e, configure)

pub configure-err :
    (c : Config) (control : Control)
    → validate c ≡ err invalid_config
    → configure c control ≡ (control, err invalid_config)
unfolding configure
configure-err c control e = rw (e, configure)
