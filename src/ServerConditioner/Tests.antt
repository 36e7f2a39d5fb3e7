-- ===== src/ServerConditioner/Tests.antt =====
-- src/server_conditioner.rs: the theorems at work on two peers.
use renet_cross.Prelude.{
  ℕ, ◌*◌, ◌≡◌, refl, inl, inr, arith, All, none, List, [], ◌∷◌, nanos_per_sec, true,
}
use renet_cross.Float.{fixed_point}
use renet_cross.Conditioner.{Config, default_config, incoming, empty_stats, Control, validate}
use renet_cross.Conditioner.Engine.{Conditioner}
use renet_cross.Conditioner.Engine
use renet_cross.ServerConditioner.{ServerConfig, Peer, PeerId-discrete, State, web_rtc, new}
use renet_cross.Prelude.Assoc.{get}
use renet_cross.ServerConditioner.Traffic.{drain_at}
use renet_cross.ServerConditioner.Limits.{
  Call, configures, outages, allocates, removes_owner, removes_peer, defers, drains, IsBounded, run,
  run-IsBounded,
}
use renet_cross.ServerConditioner.Owners.{Owned, drain_at-apart}

abbrev impaired : Config
impaired = record default_config { enabled = true; latency = 5 }

abbrev settings : ServerConfig
settings = record { packets = impaired; max_peers = 2; idle_timeout = 30 * nanos_per_sec }

abbrev started : State
started = record {
  config = settings;
  peers = [];
  retired = empty_stats;
  peer_limit_drops = 0;
  expired_peers = 0;
  next_owner = 1;
  now = 0;
  next_cleanup = 0;
  outage_until = none;
}

abbrev calls : List Call
calls =
    allocates
    ∷ defers 1 incoming (web_rtc 7) (9 ∷ []) 3
    ∷ defers 1 incoming (web_rtc 8) (9 ∷ []) 4
    ∷ defers 1 incoming (web_rtc 9) (9 ∷ []) 5
    ∷ drains 1 incoming 20
    ∷ outages 5 21
    ∷ removes_peer 1 (web_rtc 8)
    ∷ configures (record settings { max_peers = 1 })
    ∷ removes_owner 1
    ∷ []

run-IsBounded_example : IsBounded (run fixed_point calls started)
unfolding new validate
run-IsBounded_example = run-IsBounded fixed_point settings started calls refl

abbrev handle : Control
handle = record { config = impaired; stats = empty_stats; revision = 0; pending_outage = none }

abbrev peer_of : ℕ → Peer
peer_of owner = record { owner = owner; last_seen = 0; engine = Engine.new handle }

abbrev shared : State
shared = record started { peers = (web_rtc 7, peer_of 1) ∷ (web_rtc 8, peer_of 2) ∷ [] }

drain_at-apart_example :
    let r = drain_at 1 incoming 4 shared in
    (get PeerId-discrete (web_rtc 8) (r.0).peers ≡ get PeerId-discrete (web_rtc 8) shared.peers)
    × All (λ x. Owned x.0 1 shared.peers) r.1
drain_at-apart_example =
    drain_at-apart 1 incoming 4 shared (web_rtc 8)
      (inl (λ e. cc), (inr (λ e. omega arith, omega arith), tt))
