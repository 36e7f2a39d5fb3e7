-- ===== src/ServerGate/Tests.antt =====
-- src/packet_io/server.rs: the theorem at work on a handle with two owners.
use renet_cross.Prelude.{ℕ, ◌*◌, ◌≡◌, refl, none, some, List, [], ◌∷◌, nanos_per_sec}
use renet_cross.Float.{fixed_point}
use renet_cross.Net.{v4}
use renet_cross.Conditioner.{default_config, incoming, outgoing, empty_stats, Control}
use renet_cross.Conditioner.Engine
use renet_cross.Conditioner.Engine.Idle.{new-Idle}
use renet_cross.ServerConditioner.{ServerConfig, Peer, State, udp, web_rtc}
use renet_cross.ServerGate.{ServerGate, bypass}
use renet_cross.ServerGate.Silence.{Call, defers, drains, removes, resets, run, run-IsSilent}

abbrev switched_off : Control
switched_off = record {
  config = default_config;
  stats = empty_stats;
  revision = 0;
  pending_outage = none;
}

abbrev settings : ServerConfig
settings = record { packets = default_config; max_peers = 2; idle_timeout = 30 * nanos_per_sec }

abbrev peer_of : ℕ → Peer
peer_of owner = record { owner = owner; last_seen = 0; engine = Engine.new switched_off }

abbrev shared : State
shared = record {
  config = settings;
  peers = (udp (v4 1 2), peer_of 1) ∷ (web_rtc 8, peer_of 2) ∷ [];
  retired = empty_stats;
  peer_limit_drops = 0;
  expired_peers = 0;
  next_owner = 3;
  now = 0;
  next_cleanup = 0;
  outage_until = none;
}

abbrev gate : ServerGate
gate = record { attached = some (record { conditioner = shared; owner = 1 }) }

abbrev calls : List Call
calls =
    defers incoming (udp (v4 1 2)) (1 ∷ 2 ∷ []) 10
    ∷ drains outgoing 20
    ∷ removes (udp (v4 1 2))
    ∷ defers outgoing (web_rtc 9) [] 30
    ∷ resets
    ∷ drains incoming 40
    ∷ []

run-IsSilent_example : run fixed_point calls gate ≡ run fixed_point calls bypass
run-IsSilent_example = run-IsSilent fixed_point calls gate (record {
  off = refl;
  calm = refl;
  peers = (new-Idle switched_off refl, (new-Idle switched_off refl, tt));
})
