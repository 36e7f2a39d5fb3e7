-- ===== src/WebRtc/Toy.antt =====
-- Test data: a small platform for a transport, whose socket, servers and connections are lists.
use renet_cross.Prelude.{
  ℕ, ◌+◌, true, false, some, List, [], ◌∷◌, length, Result, ok, err, ◌==◌, any, if◌then◌else◌,
}
use renet_cross.Float.{fixed_point}
use renet_cross.Net.{SocketAddr, v4}
use renet_cross.UdpIo.{IoError, would_block}
use renet_cross.Datagram.{Os}
use renet_cross.NetcodeResult.{
  NetcodeServer, RenetServer, ServerResult, nothing, packet_to_send, payload, client_connected,
  client_disconnected,
}
use renet_cross.WebRtc.{RtcLibrary, Output, timeout, event, channel_data, Platform}

abbrev pub browser : SocketAddr
browser = v4 0x0a000003 7000

abbrev pub ToyWorld : Type 0
ToyWorld = ℕ × List (List ℕ)

unfoldable pub next_datagram : ToyWorld → ToyWorld × Result IoError (List ℕ × SocketAddr)
next_datagram (time, []) = ((time, []), err would_block)
next_datagram (time, bytes ∷ rest) = ((time, rest), ok (bytes, browser))

abbrev pub toy_os : Os
toy_os = record {
  World = ToyWorld;
  egress_elapsed = λ w. ((w.0 + 1, w.1), w.0);
  gate_elapsed = λ w. ((w.0 + 1, w.1), w.0);
  recv_from = next_datagram;
  send_to = λ payload addr w. (w, ok (length payload));
}

unfoldable pub answer : List ℕ → ServerResult
answer (kind ∷ client ∷ rest) =
    if kind == 1 then client_connected client [] browser (9 ∷ []) else payload client rest
answer _ = nothing

abbrev pub toy_netcode : NetcodeServer
toy_netcode = record {
  max_packet_bytes = 1400;
  Netcode = ℕ;
  Error = ℕ;
  update = λ duration n. n;
  process_packet = λ source bytes n. (n + 1, answer bytes);
  clients_id = λ n. 7 ∷ [];
  update_client = λ client n. (n, packet_to_send browser (1 ∷ []));
  disconnect = λ client n. (n, client_disconnected client browser (some (8 ∷ [])));
  generate_payload_packet = λ client packet n. (n, ok (browser, packet));
  set_max_clients = λ most n. n;
  client_addr = λ client n. some browser;
}

abbrev pub toy_renet : RenetServer
toy_renet = record {
  Renet = List ℕ;
  is_connected = λ client r. any (λ c. c == client) r;
  add_connection = λ client r. client ∷ r;
  remove_connection = λ client r. r;
  process_packet_from = λ bytes client r. r;
  disconnections_id = λ r. [];
  get_packets_to_send = λ client r. (r, some ((5 ∷ []) ∷ []));
}

-- A connection is the list of the packets that it has received; it opens channel 1 for every packet,
-- and hands it over.
unfoldable pub next_output : List (List ℕ) → List (List ℕ) × Result ℕ Output
next_output [] = ([], ok (timeout 100))
next_output (packet ∷ rest) = (rest, ok (event (channel_data 1 true packet)))

abbrev pub toy_rtc : RtcLibrary
toy_rtc = record {
  Rtc = List (List ℕ);
  RtcError = ℕ;
  Receive = List ℕ;
  parse_receive = λ source destination bytes. some bytes;
  is_alive = λ x. true;
  disconnect = λ x. x;
  accepts = λ now input x. true;
  poll_output = next_output;
  handle_timeout = λ now x. (x, ok tt);
  handle_receive = λ now input x. (input ∷ x, ok tt);
  write = λ channel payload x. some (x, ok true);
  mentions = λ phrase e. false;
}

abbrev pub toy : Platform
toy = record { fl = fixed_point; os = toy_os; ns = toy_netcode; rs = toy_renet; xs = toy_rtc }
