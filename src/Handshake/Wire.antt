-- ===== src/Handshake/Wire.antt =====
-- The messages that `upgrade` of upgrade2webrtc/src/client.rs and the server's task of
-- upgrade2webrtc/src/server.rs exchange: at which type each call of `send_obj` and `recv_obj` is made.
use mangle_webrtc.Common.{◌≡◌, refl, Option, List, [], ◌∷◌, map, ok, err, arith}
use mangle_webrtc.Transport.{Codec}
use mangle_webrtc.Transport.Session.{
  Messages, Packet, Use, idle, sends, receives, send_fails, receive_fails, sent_packets,
  received_packets, AllSucceed,
}
use mangle_webrtc.Signaling.{Externals, RtcMessage}
use mangle_webrtc.Client
use mangle_webrtc.Client.Failures.{failures}
use mangle_webrtc.Server

-- An offer, the answer as an `RTCMessage`, a candidate of the client as an
-- `Option<RTCIceCandidate>`, and one of the server as an `Option<RTCMessage>`.
pub data Signal (x : Externals) : Type 0 where
  offer : x.Sdp → Signal x
  message : RtcMessage x → Signal x
  client_ice : Option x.Candidate → Signal x
  server_ice : Option (RtcMessage x) → Signal x

pub data Kind : Type 0 where
  offers messages client_ices server_ices : Kind

-- bitcode at each of the four types.
pub record Codecs (x : Externals) : Type 0 where
  pub offers : Codec x.DecodeError x.Sdp
  pub messages : Codec x.DecodeError (RtcMessage x)
  pub client_ices : Codec x.DecodeError (Option x.Candidate)
  pub server_ices : Codec x.DecodeError (Option (RtcMessage x))

abbrev pub Value : Externals → Kind → Type 0
Value x offers = x.Sdp
Value x messages = RtcMessage x
Value x client_ices = Option x.Candidate
Value x server_ices = Option (RtcMessage x)

module _ {x : Externals} (c : Codecs x) where
  abbrev pub codec : (k : Kind) → Codec x.DecodeError (Value x k)
  codec offers = c.offers
  codec messages = c.messages
  codec client_ices = c.client_ices
  codec server_ices = c.server_ices

  abbrev pub signaling : Messages x.DecodeError
  signaling = record { Kind = Kind; Value = Value x; codec = codec }

  abbrev pub packet : Signal x → Packet signaling
  packet (offer s) = (offers, s)
  packet (message m) = (messages, m)
  packet (client_ice i) = (client_ices, i)
  packet (server_ice m) = (server_ices, m)

  -- The calls of `upgrade` that use the transport.
  abbrev pub client_use : Client.Event x → Use signaling x.IoError
  client_use (Client.send_offer s (ok u)) = sends (packet (offer s))
  client_use (Client.send_offer s (err e)) = send_fails (packet (offer s)) e
  client_use (Client.recv_message (ok m)) = receives (packet (message m))
  client_use (Client.recv_message (err e)) = receive_fails messages e
  client_use (Client.send_ice i (ok u)) = sends (packet (client_ice i))
  client_use (Client.send_ice i (err e)) = send_fails (packet (client_ice i)) e
  client_use (Client.recv_ice (ok m)) = receives (packet (server_ice m))
  client_use (Client.recv_ice (err e)) = receive_fails server_ices e
  client_use _ = idle

  -- Those of the server's task.
  abbrev pub server_use : Server.Event x → Use signaling x.IoError
  server_use (Server.recv_offer (ok s)) = receives (packet (offer s))
  server_use (Server.recv_offer (err e)) = receive_fails offers e
  server_use (Server.send_answer m (ok u)) = sends (packet (message m))
  server_use (Server.send_answer m (err e)) = send_fails (packet (message m)) e
  server_use (Server.send_ice m (ok u)) = sends (packet (server_ice m))
  server_use (Server.send_ice m (err e)) = send_fails (packet (server_ice m)) e
  server_use (Server.recv_ice (ok i)) = receives (packet (client_ice i))
  server_use (Server.recv_ice (err e)) = receive_fails client_ices e
  server_use _ = idle

-- The same messages, the newest first, read off the logs.
module _ {x : Externals} where
  abbrev pub client_sent : List (Client.Event x) → List (Signal x)
  client_sent [] = []
  client_sent (Client.send_offer s (ok u) ∷ log) = offer s ∷ client_sent log
  client_sent (Client.send_ice i (ok u) ∷ log) = client_ice i ∷ client_sent log
  client_sent (_ ∷ log) = client_sent log

  abbrev pub client_received : List (Client.Event x) → List (Signal x)
  client_received [] = []
  client_received (Client.recv_message (ok m) ∷ log) = message m ∷ client_received log
  client_received (Client.recv_ice (ok m) ∷ log) = server_ice m ∷ client_received log
  client_received (_ ∷ log) = client_received log

  abbrev pub server_sent : List (Server.Event x) → List (Signal x)
  server_sent [] = []
  server_sent (Server.send_answer m (ok u) ∷ log) = message m ∷ server_sent log
  server_sent (Server.send_ice m (ok u) ∷ log) = server_ice m ∷ server_sent log
  server_sent (_ ∷ log) = server_sent log

  abbrev pub server_received : List (Server.Event x) → List (Signal x)
  server_received [] = []
  server_received (Server.recv_offer (ok s) ∷ log) = offer s ∷ server_received log
  server_received (Server.recv_ice (ok i) ∷ log) = client_ice i ∷ server_received log
  server_received (_ ∷ log) = server_received log

module _ {x : Externals} (c : Codecs x) where
  pub client_sent_lem :
      (log : List (Client.Event x))
      → sent_packets (map (client_use c) log) ≡ map (packet c) (client_sent log)
  client_sent_lem [] = refl
  client_sent_lem (e ∷ log) = ground (arith, client_sent_lem log)

  pub client_received_lem :
      (log : List (Client.Event x))
      → received_packets (map (client_use c) log) ≡ map (packet c) (client_received log)
  client_received_lem [] = refl
  client_received_lem (e ∷ log) = ground (arith, client_received_lem log)

  pub server_sent_lem :
      (log : List (Server.Event x))
      → sent_packets (map (server_use c) log) ≡ map (packet c) (server_sent log)
  server_sent_lem [] = refl
  server_sent_lem (e ∷ log) = ground (arith, server_sent_lem log)

  pub server_received_lem :
      (log : List (Server.Event x))
      → received_packets (map (server_use c) log) ≡ map (packet c) (server_received log)
  server_received_lem [] = refl
  server_received_lem (e ∷ log) = ground (arith, server_received_lem log)

  pub failures-AllSucceed :
      (log : List (Client.Event x)) → failures log ≡ [] → AllSucceed (map (client_use c) log)
  failures-AllSucceed [] h = tt
  failures-AllSucceed (e ∷ log) h = ground (arith, failures-AllSucceed log)
