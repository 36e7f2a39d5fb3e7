-- ===== src/Conditioner/Engine/Lanes.antt =====
-- src/conditioner.rs: one direction of a conditioner, its counters and its queue together.
use renet_cross.Prelude.{ℕ, ◌≤◌, ◌≡◌, false, List, [], length, arith}
use renet_cross.Conditioner.{Config, InRange, DirectionStats}
use renet_cross.Conditioner.Engine.{Scheduled, schedule, overflows, count_queued, drain_loop}
use renet_cross.Conditioner.Engine.Queue.{
  Sorted, Counts, bytes_of, length-schedule, bytes_of-schedule, Sorted-schedule, drain_loop-Counts,
  drain_loop-length, drain_loop-bytes, drain_loop-Sorted,
}

-- One direction: the counters describe the queue, it is in order of delivery and within the limits.
pub record IsLane {T : Type 0} (c : Config) (d : DirectionStats) (q : List (Scheduled T))
    : Type 0 where
  pub counts : Counts d q
  pub sorted : Sorted q
  pub packets_bound : length q ≤ c.max_queue_packets
  pub bytes_bound : bytes_of q ≤ c.max_queue_bytes

abbrev pub IsEmptied : DirectionStats → Type 0
IsEmptied d = (d.queued_packets ≡ 0) × (d.queued_bytes ≡ 0)

module _ {T : Type 0} where
  empty-Counts : (d : DirectionStats) → IsEmptied d → Counts {T = T} d []
  empty-Counts d e = record {
    packets = e.0;
    bytes = e.1;
    packets_fit = omega arith;
    bytes_fit = omega arith;
  }

  pub empty-IsLane : (c : Config) (d : DirectionStats) → IsEmptied d → IsLane {T = T} c d []
  empty-IsLane c d e = record {
    counts = empty-Counts d e;
    sorted = tt;
    packets_bound = omega arith;
    bytes_bound = omega arith;
  }

  pub recount-IsLane :
      (c : Config) (d d' : DirectionStats) (q : List (Scheduled T))
      → (d'.queued_packets ≡ d.queued_packets) × (d'.queued_bytes ≡ d.queued_bytes)
      → IsLane c d q
      → IsLane c d' q
  recount-IsLane c d d' q e l = record {
    counts = record {
      packets = omega (arith, e.0, l.counts.packets);
      bytes = omega (arith, e.1, l.counts.bytes);
      packets_fit = l.counts.packets_fit;
      bytes_fit = l.counts.bytes_fit;
    };
    sorted = l.sorted;
    packets_bound = l.packets_bound;
    bytes_bound = l.bytes_bound;
  }

  pub queued-IsLane :
      (c : Config) (d : DirectionStats) (q : List (Scheduled T)) (p : Scheduled T)
      → InRange c
      → overflows c d p.bytes ≡ false
      → IsLane c d q
      → IsLane c (count_queued p.bytes d) (schedule p q)
  unfolding overflows count_queued
  queued-IsLane c d q p r room l = record {
    counts = record {
      packets = ground (arith, length-schedule p q, l.counts.packets, r.packets_fit);
      bytes = ground (arith, bytes_of-schedule p q, l.counts.bytes, r.bytes_fit);
      packets_fit = ground (arith, length-schedule p q, l.counts.packets, r.packets_fit);
      bytes_fit = ground (arith, bytes_of-schedule p q, l.counts.bytes, r.bytes_fit);
    };
    sorted = Sorted-schedule p q l.sorted;
    packets_bound = ground (arith, length-schedule p q, l.counts.packets);
    bytes_bound = ground (arith, bytes_of-schedule p q, l.counts.bytes, l.bytes_bound);
  }

  pub released-IsLane :
      (c : Config) (now : ℕ) (d : DirectionStats) (q : List (Scheduled T))
      → IsLane c d q
      → IsLane c (drain_loop now q d).2 (drain_loop now q d).1
  released-IsLane c now d q l = record {
    counts = drain_loop-Counts now q d l.counts;
    sorted = drain_loop-Sorted now q d l.sorted;
    packets_bound = omega (arith, drain_loop-length now q d, l.packets_bound);
    bytes_bound = omega (arith, drain_loop-bytes now q d, l.bytes_bound);
  }
