-- ===== src/ServerConditioner.antt =====
-- src/server_conditioner.rs: a conditioner for each peer of a server, behind one handle. The clock is
-- an argument of each call; the lock is held for a whole call. The ordered map of peers is a list of
-- its entries in ascending order.
pub mod Traffic
pub mod Sizes
pub mod Limits
pub mod Expiry
pub mod Owners
pub mod Quiet
mod Tests
use native.Mathlib.Decide.{ℕ_discrete}
use Prim.Native.Nat.{bit_xor}
use mathlib.Core.Option
use renet_cross.Prelude.{
  ℕ, zero, suc, ◌+◌, ◌-◌, ◌*◌, ◌/◌, ◌^◌, min, max, Bool, true, false, not, ◌||◌, ◌&&◌, Option, none,
  some, List, [], ◌∷◌, ◌++◌, map, length, Result, ok, err, ltb, leb, ◌==◌, if◌then◌else◌, is_some,
  is_some_and, u64_max, u64_mul, u64_sat_add, duration_sat_add, nanos_per_sec,
}
use renet_cross.Prelude.Assoc.{get, contains_key, remove}
use renet_cross.Float.{F64}
use renet_cross.Net.{SocketAddr, v4, v6, to_be_bytes}
use renet_cross.Conditioner.{
  Config, ConfigError, validate, Direction, DirectionStats, ConditionerStats, empty_stats,
  empty_direction, Control, new_handle, outage,
}
use renet_cross.Conditioner
use renet_cross.Conditioner.Engine.{Conditioner, enqueue, drain_ready}
use renet_cross.Conditioner.Engine

-- src/packet_io/mod.rs: `ServerPeerId`.
pub data PeerId : Type 0 where
  udp : SocketAddr → PeerId
  web_rtc : ℕ → PeerId

unfoldable pub PeerId-discrete : Discrete PeerId
PeerId-discrete = hlevel ℕ_discrete

pub record ServerConfig : Type 0 where
  pub packets : Config
  pub max_peers : ℕ
  pub idle_timeout : ℕ

pub data ServerConfigError : Type 0 where
  invalid_server_config : ServerConfigError

-- `ServerConditionerConfig::validate`.
pub validate_server : ServerConfig → Result ServerConfigError (Unit {0})
validate_server c = elim (validate c.packets) [
  | err e ↦ err invalid_server_config
  | ok _ ↦ if c.max_peers == 0 || c.idle_timeout == 0 then err invalid_server_config else ok tt
]

-- `ServerConditionerStats`.
pub record ServerStats : Type 0 where
  pub packets : ConditionerStats
  pub peers : ℕ
  pub peer_limit_drops : ℕ
  pub expired_peers : ℕ

pub record Peer : Type 0 where
  pub owner : ℕ
  pub last_seen : ℕ
  pub engine : Conditioner (List ℕ)

-- What the mutex of a handle guards.
pub record State : Type 0 where
  pub config : ServerConfig
  pub peers : List (PeerId × Peer)
  pub retired : ConditionerStats
  pub peer_limit_drops : ℕ
  pub expired_peers : ℕ
  pub next_owner : ℕ
  pub now : ℕ
  pub next_cleanup : ℕ
  pub outage_until : Option ℕ

-- `ServerConditionerHandle::new`.
pub new : ServerConfig → Result ServerConfigError State
unfolding validate_server
new config = elim (validate_server config) [
  | err e ↦ err e
  | ok _ ↦ ok (record {
    config = config;
    peers = [];
    retired = empty_stats;
    peer_limit_drops = 0;
    expired_peers = 0;
    next_owner = 1;
    now = 0;
    next_cleanup = 0;
    outage_until = none;
  })
]

-- One round of FNV-1a, and its rounds over bytes.
mix : ℕ → List ℕ → ℕ
mix hash [] = hash
mix hash (byte ∷ bytes) = mix (u64_mul (bit_xor hash byte) 0x100000001b3) bytes

id_bytes : PeerId → List ℕ
id_bytes (udp (v4 ip port)) = 0 ∷ 4 ∷ to_be_bytes 4 ip ++ to_be_bytes 2 port
id_bytes (udp (v6 ip port flowinfo scope)) = 0 ∷ 6 ∷ to_be_bytes 16 ip ++ to_be_bytes 2 port
id_bytes (web_rtc id) = 1 ∷ to_be_bytes 8 id

-- The settings of one peer: only the seed is the peer's own.
pub peer_config : Config → PeerId → Config
unfolding mix id_bytes
peer_config config id = record config {
  seed = bit_xor config.seed (mix 0xcbf29ce484222325 (id_bytes id));
}

pub add_direction : DirectionStats → DirectionStats → DirectionStats
add_direction into from = record {
  queued_packets = u64_sat_add into.queued_packets from.queued_packets;
  queued_bytes = u64_sat_add into.queued_bytes from.queued_bytes;
  simulated_loss_drops = u64_sat_add into.simulated_loss_drops from.simulated_loss_drops;
  outage_drops = u64_sat_add into.outage_drops from.outage_drops;
  overflow_drops = u64_sat_add into.overflow_drops from.overflow_drops;
  transition_drops = u64_sat_add into.transition_drops from.transition_drops;
}

pub add_stats : ConditionerStats → ConditionerStats → ConditionerStats
unfolding add_direction
add_stats into from = record {
  incoming_stats = add_direction into.incoming_stats from.incoming_stats;
  outgoing_stats = add_direction into.outgoing_stats from.outgoing_stats;
  outage_active = into.outage_active || from.outage_active;
}

-- `handle.configure(config)` through a peer's engine, whose control block the handle shares.
pub configure_engine : Config → Conditioner (List ℕ) → Conditioner (List ℕ)
configure_engine config e = record e { control = (Conditioner.configure config e.control).0 }

-- `handle.outage(remaining)`, if there is an outage.
pub outage_engine : Option ℕ → Conditioner (List ℕ) → Conditioner (List ℕ)
outage_engine none e = e
outage_engine (some remaining) e = record e { control = outage remaining e.control }

pub retire : PeerId → State → State
unfolding configure_engine add_stats
retire id s = elim (get PeerId-discrete id s.peers) [
  | none ↦ s
  | some peer ↦ record s {
    peers = remove PeerId-discrete id s.peers;
    retired =
        add_stats s.retired (configure_engine peer.engine.control.config peer.engine).control.stats;
  }
]

pub map_peers : (PeerId → Peer → Peer) → List (PeerId × Peer) → List (PeerId × Peer)
map_peers f [] = []
map_peers f ((id, peer) ∷ m) = (id, f id peer) ∷ map_peers f m

-- `iter().filter(...).map(|(id, _)| *id).collect()`.
pub ids_where : (Peer → Bool) → List (PeerId × Peer) → List PeerId
ids_where p [] = []
ids_where p ((id, peer) ∷ m) = if p peer then id ∷ ids_where p m else ids_where p m

-- The idle peers, retired and counted one after the other.
pub expire_all : List PeerId → State → State
unfolding retire
expire_all [] s = s
expire_all (id ∷ ids) s =
    let r = retire id s in
    expire_all ids (record r { expired_peers = u64_sat_add r.expired_peers 1 })

cleanup : State → State
unfolding ids_where expire_all
cleanup s =
    if leb s.next_cleanup s.now
    then (let idle : Peer → Bool = λ peer. leb s.config.idle_timeout (s.now - peer.last_seen) in
        let expired = expire_all (ids_where idle s.peers) s in
        record expired {
          next_cleanup = duration_sat_add s.now (min s.config.idle_timeout nanos_per_sec);
        })
    else s

-- `State::poll`; the time it returns is the state's `now`.
pub poll : ℕ → State → State
unfolding cleanup
poll time s =
    let now' = max time s.now in
    let until = if is_some_and s.outage_until (λ end. leb end now') then none else s.outage_until in
    cleanup (record s { now = now'; outage_until = until })

-- `min_by_key(|(_, peer)| peer.last_seen)`: the first of the least recently seen.
pub oldest : PeerId → ℕ → List (PeerId × Peer) → PeerId
oldest best seen [] = best
oldest best seen ((id, peer) ∷ m) =
    if ltb peer.last_seen seen then oldest id peer.last_seen m else oldest best seen m

-- Evictions until the peers are within the limit; the fuel is the number of peers.
pub evict : ℕ → State → State
unfolding oldest retire
evict zero s = s
evict (suc n) s =
    if leb (length s.peers) s.config.max_peers
    then s
    else elim s.peers [ [] ↦ s | (id, peer) ∷ m ↦ evict n (retire (oldest id peer.last_seen m) s) ]

-- The new settings in every peer and in the handle.
pub apply_config : ServerConfig → State → State
unfolding configure_engine peer_config map_peers
apply_config config s = record s {
  config = config;
  peers = map_peers applied s.peers;
  outage_until = none;
  next_cleanup = 0;
}
  where
    applied : PeerId → Peer → Peer
    applied id peer = record peer {
      engine = configure_engine (peer_config config.packets id) peer.engine;
    }

pub configure : ServerConfig → State → State × Result ServerConfigError (Unit {0})
unfolding validate_server apply_config evict
configure config s = elim (validate_server config) [
  | err e ↦ (s, err e)
  | ok _ ↦
      let configured : State = apply_config config s in
      (evict (length configured.peers) configured, ok tt)
]
