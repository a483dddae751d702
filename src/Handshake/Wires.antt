-- ===== src/Handshake/Wires.antt =====
-- The client and the server of `Tests` over two streams, with a codec that writes numbers as they
-- are.
use mathlib.Core.List.{reverse}
use mangle_webrtc.Common.{
  ℕ, refl, true, Option, none, some, List, [], ◌∷◌, ◌++◌, map, suc, ◌≤◌, take, drop, Result, ok,
  err, arith, ◌≡◌,
}
use mangle_webrtc.Transport.{
  Io, transport, send_obj, recv_obj, recv_loop, take_message, frame_size, u32_to_le_bytes,
  u32_from_le_bytes,
}
use mangle_webrtc.Transport.Session.{
  Packet, sent_packets, received_packets, Session, opened, used, arrived, given_up, idle, sends,
  receives,
}
use mangle_webrtc.Transport.Pairs.{AllRead, Session-reads}
use mangle_webrtc.Signaling.{RtcMessage, sdp_answer, ice}
use mangle_webrtc.Client
use mangle_webrtc.Client.Transcript
use mangle_webrtc.Server
use mangle_webrtc.Server.Exchange.{gathered, added_candidates, Adds}
use mangle_webrtc.Handshake.Wire.{
  client_use, server_use, Codecs, signaling, client_ices, server_ices, packet, offer, message,
  client_ice, server_ice,
}
use mangle_webrtc.Handshake.Signals.{AllLawful}
use mangle_webrtc.Handshake.{EndsLast}
use mangle_webrtc.Handshake.Flow.{gathering}
use mangle_webrtc.Handshake.Gathering.{
  Gatherer, found, passed_on, missed, registered, upgrade-gathering,
}
use mangle_webrtc.Handshake.Bytes.{OverStream, client_log, server_log, upgrade-serve_offer_bytes}
use mangle_webrtc.Handshake.Tests.{plain, client, server, turns, configs}

abbrev read_number : List ℕ → Result ℕ ℕ
read_number (n ∷ []) = ok n
read_number _ = err 0

abbrev write_message : RtcMessage plain → List ℕ
write_message (sdp_answer s) = s ∷ []
write_message (ice j) = 0 ∷ j ∷ []

abbrev read_message : List ℕ → Result ℕ (RtcMessage plain)
read_message (s ∷ []) = ok (sdp_answer s)
read_message (tag ∷ j ∷ []) = ok (ice j)
read_message _ = err 0

abbrev write_option {ℓ} : {A : Type ℓ} → (A → List ℕ) → Option A → List ℕ
write_option write none = []
write_option write (some a) = write a

abbrev read_option : {A : Type 0} → (List ℕ → Result ℕ A) → List ℕ → Result ℕ (Option A)
read_option read [] = ok none
read_option read bytes = elim (read bytes) [ ok a ↦ ok (some a) | err e ↦ err e ]

abbrev plain_codecs : Codecs plain
plain_codecs = record {
  offers = record { serialize = λ n. some (n ∷ []); deserialize = read_number };
  messages = record { serialize = λ m. some (write_message m); deserialize = read_message };
  client_ices = record {
    serialize = λ c. some (write_option (λ n. n ∷ []) c);
    deserialize = read_option read_number;
  };
  server_ices = record {
    serialize = λ m. some (write_option write_message m);
    deserialize = read_option read_message;
  };
}

plain_codecs-AllLawful : AllLawful plain_codecs
plain_codecs-AllLawful = record {
  offers = record { round_trip = λ a msg e. ground arith };
  messages = record { round_trip = λ a msg e. ground arith };
  client_ices = record { round_trip = λ a msg e. ground arith };
  server_ices = record { round_trip = λ a msg e. ground arith };
}

abbrev sound : Io ℕ
sound = record { unexpected_eof = 0; write_fault = λ w b. none; flush_fault = λ w. none }

-- What each end writes: the offer, the candidate 5 and the end; the answer, the candidate 106 and the
-- end.
abbrev upward_bytes : List ℕ
upward_bytes = 1 ∷ 0 ∷ 0 ∷ 0 ∷ 1 ∷ 1 ∷ 0 ∷ 0 ∷ 0 ∷ 5 ∷ 0 ∷ 0 ∷ 0 ∷ 0 ∷ []

abbrev downward_bytes : List ℕ
downward_bytes = 1 ∷ 0 ∷ 0 ∷ 0 ∷ 2 ∷ 2 ∷ 0 ∷ 0 ∷ 0 ∷ 0 ∷ 106 ∷ 0 ∷ 0 ∷ 0 ∷ 0 ∷ []

some_bytes : (n : ℕ) → 1 ≤ suc n
some_bytes n = omega arith

-- The client, which gives up a call of `recv_obj` before its first candidate.
client_session_of :
    Session
      (signaling plain_codecs)
      sound
      (map
        (client_use plain_codecs)
        (client_log plain_codecs sound sound client server 1 turns turns configs))
      downward_bytes
      (transport [] upward_bytes [])
unfolding send_obj recv_obj recv_loop take_message frame_size u32_to_le_bytes u32_from_le_bytes
    Client.upgrade Client.offer_channels Client.create_channels Client.make_offer
    Client.await_answer Client.finish_upgrade Client.accept_answer Client.add_candidates
    Client.exchange Client.send_gathered Client.receive_ice Client.add_received
    Client.unwrap_gathered
client_session_of =
    let s = used idle (used idle (used idle opened refl) refl) refl in
    let s = used (sends (packet plain_codecs (offer 1))) s refl in
    let s = arrived (take 5 downward_bytes) (used idle s refl) (some_bytes 4) in
    let s = used (receives (packet plain_codecs (message (sdp_answer 2)))) s refl in
    let s = used idle (used idle (used idle s refl) refl) refl in
    let s = used (sends (packet plain_codecs (client_ice (some 5)))) s refl in
    let s = used (sends (packet plain_codecs (client_ice none))) (used idle s refl) refl in
    let s = arrived (drop 5 downward_bytes) (given_up server_ices s refl) (some_bytes 9) in
    let s = used (receives (packet plain_codecs (server_ice (some (ice 106))))) s refl in
    used (receives (packet plain_codecs (server_ice none))) (used idle s refl) refl

-- The server, to which the bytes come in two parts that cut a message.
server_session_of :
    Session
      (signaling plain_codecs)
      sound
      (map
        (server_use plain_codecs)
        (server_log plain_codecs sound sound client server 1 turns turns configs))
      upward_bytes
      (transport [] downward_bytes [])
unfolding send_obj recv_obj recv_loop take_message frame_size u32_to_le_bytes u32_from_le_bytes
    Server.serve_offer Server.negotiate Server.exchange Server.send_gathered Server.receive_ice
    Server.unwrap_offer Server.unwrap_peer Server.unwrap_ice Server.add_received
    Server.unwrap_gathered
server_session_of =
    let s = arrived (take 7 upward_bytes) opened (some_bytes 6) in
    let s = used (receives (packet plain_codecs (offer 1))) s refl in
    let s = used idle (used idle (used idle s refl) refl) refl in
    let s = used idle (used idle s refl) refl in
    let s = used (sends (packet plain_codecs (message (sdp_answer 2)))) s refl in
    let s = used idle (used idle s refl) refl in
    let s = used (sends (packet plain_codecs (server_ice (some (ice 106))))) s refl in
    let s = used (sends (packet plain_codecs (server_ice none))) (used idle s refl) refl in
    let s = arrived (drop 7 upward_bytes) (given_up client_ices s refl) (some_bytes 6) in
    let s = used (receives (packet plain_codecs (client_ice (some 5)))) s refl in
    let s = used (receives (packet plain_codecs (client_ice none))) (used idle s refl) refl in
    used idle s refl

over_stream : OverStream plain_codecs sound sound client server 1 turns turns configs
over_stream = record {
  client_bytes = downward_bytes;
  server_bytes = upward_bytes;
  client_transport = transport [] upward_bytes [];
  server_transport = transport [] downward_bytes [];
  client_session = client_session_of;
  server_session = server_session_of;
  to_server = [];
  to_client = [];
  arrives_at_server = refl;
  arrives_at_client = refl;
}

-- The client's peer connection gathers 4 when the local description is set, and 5 and the end when
-- the callback is.
abbrev gatherer : Gatherer plain
gatherer (Client.set_local_description sdp r ∷ log) = some 4 ∷ []
gatherer (Client.on_ice_candidate ∷ log) = some 5 ∷ none ∷ []
gatherer _ = []

abbrev upgrade_log : List (Client.Event plain)
upgrade_log = (Client.upgrade client 1 turns configs []).1

upgraded : (Client.upgrade client 1 turns configs []).0 ≡ ok (("test", 3) ∷ [])
unfolding Client.upgrade Client.offer_channels Client.create_channels Client.make_offer
    Client.await_answer Client.finish_upgrade Client.accept_answer Client.add_candidates
    Client.exchange Client.send_gathered Client.receive_ice Client.add_received
    Client.unwrap_gathered
upgraded = refl

gives_out : passed_on gatherer upgrade_log ≡ reverse (Client.Transcript.gathered upgrade_log) ++ []
unfolding Client.upgrade Client.offer_channels Client.create_channels Client.make_offer
    Client.await_answer Client.finish_upgrade Client.accept_answer Client.add_candidates
    Client.exchange Client.send_gathered Client.receive_ice Client.add_received
    Client.unwrap_gathered
gives_out = refl

gathers : found gatherer upgrade_log ++ [] ≡ gathering (4 ∷ 5 ∷ [])
unfolding Client.upgrade Client.offer_channels Client.create_channels Client.make_offer
    Client.await_answer Client.finish_upgrade Client.accept_answer Client.add_candidates
    Client.exchange Client.send_gathered Client.receive_ice Client.add_received
    Client.unwrap_gathered
gathers = refl

misses : missed gatherer upgrade_log ≡ some 4 ∷ []
unfolding Client.upgrade Client.offer_channels Client.create_channels Client.make_offer
    Client.await_answer Client.finish_upgrade Client.accept_answer Client.add_candidates
    Client.exchange Client.send_gathered Client.receive_ice Client.add_received
    Client.unwrap_gathered
misses = refl

upgrade-gathering_example :
    (registered upgrade_log ≡ true)
    × (missed gatherer upgrade_log ++ reverse (Client.Transcript.sent_candidates upgrade_log)
        ≡ gathering (4 ∷ 5 ∷ []))
    × (Client.Transcript.labels {A = ℕ} (("test", 3) ∷ []) ≡ Client.Transcript.labels configs)
    × (Client.Transcript.received_end upgrade_log ≡ true)
    × (Client.Transcript.added_candidates upgrade_log
        ≡ Client.Transcript.received_candidates upgrade_log)
upgrade-gathering_example =
    upgrade-gathering client gatherer (4 ∷ 5 ∷ []) [] [] 1 turns configs (("test", 3) ∷ []) upgraded
      gives_out gathers

served : (Server.serve_offer server turns []).0 ≡ ok tt
unfolding Server.serve_offer Server.negotiate Server.exchange Server.send_gathered
    Server.receive_ice Server.unwrap_offer Server.unwrap_peer Server.unwrap_ice Server.add_received
    Server.unwrap_gathered
served = refl

server_last : EndsLast (gathered (Server.serve_offer server turns []).1)
unfolding Server.serve_offer Server.negotiate Server.exchange Server.send_gathered
    Server.receive_ice Server.unwrap_offer Server.unwrap_peer Server.unwrap_ice Server.add_received
    Server.unwrap_gathered
server_last = refl

upgrade-serve_offer_bytes_example :
    (registered upgrade_log ≡ true)
    × (missed gatherer upgrade_log ++ reverse (Client.Transcript.gathered upgrade_log)
        ≡ gathering (4 ∷ 5 ∷ []))
    × Adds plain
        (Client.Transcript.gathered upgrade_log)
        (added_candidates (Server.serve_offer server turns []).1)
    × Adds plain
        (gathered (Server.serve_offer server turns []).1)
        (Client.Transcript.added_candidates upgrade_log)
upgrade-serve_offer_bytes_example =
    upgrade-serve_offer_bytes plain_codecs sound sound client server 1 turns turns configs gatherer
      (4 ∷ 5 ∷ []) [] [] (("test", 3) ∷ []) plain_codecs-AllLawful over_stream upgraded served
      gives_out gathers server_last

Session-reads_example :
    (late early : List (Packet (signaling plain_codecs))) × (sent_packets (
        map
          (client_use plain_codecs)
          (client_log plain_codecs sound sound client server 1 turns turns configs))
      ≡ late ++ early)
    × AllRead (signaling plain_codecs) early (
        received_packets (
          map
            (server_use plain_codecs)
            (server_log plain_codecs sound sound client server 1 turns turns configs)))
unfolding Client.upgrade Client.offer_channels Client.create_channels Client.make_offer
    Client.await_answer Client.finish_upgrade Client.accept_answer Client.add_candidates
    Client.exchange Client.send_gathered Client.receive_ice Client.add_received
    Client.unwrap_gathered Server.serve_offer Server.negotiate Server.exchange Server.send_gathered
    Server.receive_ice Server.unwrap_offer Server.unwrap_peer Server.unwrap_ice Server.add_received
    Server.unwrap_gathered
Session-reads_example =
    Session-reads (signaling plain_codecs) sound sound [] client_session_of server_session_of tt tt
      refl
