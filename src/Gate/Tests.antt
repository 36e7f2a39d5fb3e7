-- ===== src/Gate/Tests.antt =====
-- src/packet_io/client.rs: the theorems at work.
use renet_cross.Prelude.{ℕ, ◌≡◌, refl, All, true, none, some, List, [], ◌∷◌}
use renet_cross.Float.{fixed_point}
use renet_cross.Conditioner.{default_config, incoming, outgoing, empty_stats, Control}
use renet_cross.Gate.{Gate, bypass}
use renet_cross.Gate.Sessions.{
  Call, defers, drains, resets, Hands, run, run-IsIdle, was_reset, end_session, run-end_session,
}

abbrev switched_off : Control
switched_off = record {
  config = default_config;
  stats = empty_stats;
  revision = 3;
  pending_outage = none;
}

abbrev switched_on : Control
switched_on = record switched_off { config = record default_config { enabled = true; latency = 5 } }

-- An engine that is switched off, with the revision of the settings before these.
abbrev idle_gate : Gate ℕ
idle_gate = record {
  engine = some (record {
    control = switched_off;
    incoming_queue = [];
    outgoing_queue = [];
    revision = 2;
    rng = 1;
    last_now = 7;
    outage_until = none;
  });
}

abbrev calls : List (Call ℕ)
calls =
    defers incoming 7 (1 ∷ 2 ∷ []) 10 ∷ drains incoming 20 ∷ resets ∷ defers outgoing 7 [] 30 ∷ []

run-IsIdle_example : run fixed_point calls idle_gate ≡ run fixed_point calls bypass
run-IsIdle_example =
    run-IsIdle fixed_point calls idle_gate
      (record { off = refl; emptied = (refl, refl); calm = refl; unasked = refl })

-- A gate that holds a packet of metadata 8.
abbrev busy_gate : Gate ℕ
busy_gate = record {
  engine = some (record {
    control = switched_on;
    incoming_queue = record { due = 9; payload = (8, 1 ∷ []); bytes = 1 } ∷ [];
    outgoing_queue = [];
    revision = 3;
    rng = 1;
    last_now = 7;
    outage_until = none;
  });
}

run-end_session_example :
    All (Hands (λ x. x.0 ≡ 7)) (run fixed_point calls (end_session was_reset busy_gate))
run-end_session_example =
    run-end_session fixed_point (λ x. x.0 ≡ 7) was_reset calls busy_gate
      (refl, (tt, (tt, (refl, tt))))
