-- ===== src/Lib.antt =====
-- renet-cross carries Renet games over native UDP and WebRTC. This library models the parts of it
-- that hold its own logic, under src/ of the repository.
--
-- A client asks the bootstrap service for a session; the service admits it through a policy, keeps it
-- in a table until the client connects, lets one SDP offer through for it, and activates it when the
-- transport reports the connection. The transports send packets through a conditioner, which may
-- delay or drop them on purpose, and at the last step through a budget for each destination.
--
-- * src/bootstrap.rs is Bootstrap (the table of sessions, `InMemorySessionRegistry`),
--   Bootstrap/Service (`BootstrapService`: `create_session` is `create_session_with_request`) and
--   Bootstrap/Offers (`claim` is the locked part of `accept_offer`; activation). Orderly, Calls,
--   Openings, Claims, Replay and Activation under Bootstrap hold the proofs.
-- * src/session_security.rs is Session (requests, grants, `user_data`), Session/Issue
--   (`SecureSessionAuthPolicy`) and Session/Client (`SessionCreateResponse::authentication`); the
--   layout of the user data is read back in Session/Encoding.
-- * src/conditioner.rs is Conditioner (settings, counters and the block behind a handle),
--   Conditioner/Engine (`PacketConditioner`; `sync`, `enqueue`, `drain_ready` and `clear_session` by their
--   names) and Conditioner/Calibration (`RttCalibration`).
-- * src/server_conditioner.rs is ServerConditioner (the table of peers and its settings) and
--   ServerConditioner/Traffic (`defer_at`, `drain_at` and the rest of the handle). Evictions run on the
--   number of peers, which is enough to get within the limit.
-- * src/egress.rs is Egress (one bucket) and Egress/Peers (the table of destinations).
-- * src/udp_io.rs is UdpIo, and src/web_config.rs is Inbox.
-- * src/packet_io/client.rs is Gate (`PacketGate`) and src/packet_io/server.rs is ServerGate
--   (`ServerPacketGate`): the conditioner that a transport may have, or none.
-- * src/native_client.rs is UdpClient (the packets of `UdpNetcodeClientTransport`) and UdpClient/Pump
--   (`update` in four parts, `send_packets` and the settings); src/udp_server.rs is UdpServer and
--   UdpServer/Pump (`UdpNetcodeServerTransport`). Datagram is what their `send_datagram` have in common,
--   and NetcodeResult is src/netcode_result.rs with the servers of renetcode and renet.
-- * src/server.rs is WebRtc (the state and the virtual addresses), WebRtc/Peers (`add_peer`,
--   `remove_peer`), WebRtc/Driving (`flush_peer_output` and `drive_peer_with_limit`), WebRtc/Sending
--   (`send_to_peer` and what it calls), WebRtc/Results (`handle_server_result`,
--   `apply_pending_results`, `drain_conditioned_packets`), WebRtc/Pump (`route_socket_input_to_peers`)
--   and WebRtc/Frames (`update_at`, `send_packets`, `disconnect_all`). A drain takes at most the 256 steps
--   of the source. `apply_pending_results` has its number of rounds as fuel: what is left when they
--   are used up stays in the queue, and the invariants are stated for any number. WebRtc/Rounds says how
--   many rounds are enough: the results that wait, and for each peer one and what its connection can
--   still hand over.
-- * src/mixed_server.rs is MixedServer (`MixedServerTransport`) and MixedServer/Calls: the UDP and the WebRTC transport with one
--   server of renet. The conditioner handles are a store that both backends refer to.
-- * Prelude, Float and Net hold what the parts share: machine words, durations in nanoseconds, hash
--   maps as association lists, floating point and socket addresses.
--
-- State is passed explicitly: an operation takes the state and returns the new one with its result. A
-- lock is held for a whole call, so a call is one step, and histories are lists of calls. Clocks are
-- arguments, with no assumption on their order unless a theorem names one. Counters and clocks keep
-- their width: `u64` wraps or saturates as the source says, a duration saturates at its maximum. Loops
-- are structural recursion on a list, on the budget of attempts or on the number of peers.
--
-- Parameters stand for code outside the repository: renetcode (connect tokens, its client and its
-- server), renet's client and server, str0m, sockets and clocks, base64, JSON and the text of numbers
-- and addresses, the policy of the host, and `f64` arithmetic. An `f32` is modelled exactly. What
-- a transport only logs is left out. Not modelled are the HTTP side of the native client, the browser
-- client, the HTTP endpoints, the SDP hooks, the builders, the diagnostics, the Bevy
-- overlay and the examples.
pub mod Prelude
pub mod Float
pub mod Net
pub mod Conditioner
pub mod ServerConditioner
pub mod Egress
pub mod UdpIo
pub mod Gate
pub mod ServerGate
pub mod Datagram
pub mod UdpClient
pub mod NetcodeResult
pub mod UdpServer
pub mod WebRtc
pub mod MixedServer
pub mod Inbox
pub mod Session
pub mod Bootstrap
