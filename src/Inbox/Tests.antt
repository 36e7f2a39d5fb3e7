-- ===== src/Inbox/Tests.antt =====
-- src/web_config.rs: the theorem at work on an inbox for two packets.
use renet_cross.Prelude.{ℕ, ◌≡◌, ◌+◌, ◌≤◌, List, [], ◌∷◌, ◌++◌, length, drop, arith}
use renet_cross.Inbox.{Inbox, ClientStats}
use renet_cross.Inbox.Window.{push_all, lost, push_all-window}

abbrev quiet : ClientStats
quiet = record {
  send_backpressure_drops = 0;
  receive_overflow_drops = 0;
  receive_invalid_size_drops = 0;
}

abbrev small : Inbox
small = record { packets = (1 ∷ []) ∷ []; capacity = 2; stats = quiet }

abbrev arrivals : List (List ℕ)
arrivals = (2 ∷ []) ∷ (3 ∷ []) ∷ []

push_all-window_example :
    ((push_all arrivals small).packets ≡ drop (lost 2 small) (small.packets ++ arrivals))
    × (length (push_all arrivals small).packets ≤ 2)
    × ((push_all arrivals small).stats.receive_overflow_drops ≡ 0 + lost 2 small)
push_all-window_example = push_all-window arrivals small (omega arith) (omega arith) (omega arith)
