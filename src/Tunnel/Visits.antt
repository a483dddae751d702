-- ===== src/Tunnel/Visits.antt =====
-- `Sockets` on concrete data channels, and its theorems at concrete inputs.
use Prim.Native.String.{String}
use mangle_webrtc.Common.{
  ℕ, ◌≤◌, ◌≡◌, refl, true, none, some, List, [], ◌∷◌, length, if◌then◌else◌, ◌==◌, ok, err, arith,
}
use mangle_webrtc.Tunnel.{Channel, udp_channel, tcp_channel, tcp}
use mangle_webrtc.Tunnel.Serve.{allowed_channels, get, insert}
use mangle_webrtc.Tunnel.Open.{open_config}
use mangle_webrtc.Tunnel.Sockets
use mangle_webrtc.Tunnel.Reached.{AllLead, Leads, turns, served, serve_opened-AllLead}
use mangle_webrtc.Tunnel.Answered.{Works, Arrives, socket_port, serve_opened-delivers}

-- Ports in a system of numerals with two of them.
abbrev pub port_name : ℕ → String
port_name n = if n == 80 then "80" else "443"

abbrev pub configured : List Channel
configured =
    udp_channel 5000 (some 80) none
    ∷ tcp_channel 443 none none
    ∷ udp_channel 6000 (some 80) none
    ∷ []

-- A socket that takes two bytes at most.
abbrev at_most_two : List ℕ → ℕ
at_most_two [] = 0
at_most_two (a ∷ []) = 1
at_most_two (a ∷ b ∷ _) = 2

abbrev msg : List ℕ
msg = 1 ∷ 2 ∷ 3 ∷ []

abbrev pub local : Sockets.World ℕ
local = record {
  bind = λ h. ok tt;
  connect = λ port h. ok tt;
  socket_read = λ h. ok (9 ∷ []);
  channel_send = λ bytes h. ok (length bytes);
  message = λ h. some msg;
  socket_send = λ part h. ok (at_most_two part);
  write_all = λ bytes h. ok tt;
  flush = λ h. ok tt;
}

pub local-takes :
    (part : List ℕ) (h : List (Sockets.Event ℕ))
    → 1 ≤ length part
    → (n : ℕ) × (local.socket_send part h ≡ ok n) × (1 ≤ n) × (n ≤ length part)
local-takes [] h full = absurd (omega arith)
local-takes (a ∷ []) h full = (1, refl, omega arith, omega arith)
local-takes (a ∷ b ∷ part) h full = (2, refl, omega arith, omega arith)

local-Works : Works local msg
local-Works = record {
  binds = λ h. refl;
  connects = λ port h. refl;
  comes = λ h. refl;
  takes = local-takes;
  writes = λ bytes h. refl;
  flushes = λ h. refl;
}

-- One data channel for a port, one for an unknown one, and one that waits; the last is not served.
abbrev visitors : List Sockets.Opened
visitors =
    record { protocol = "80"; branch = some Sockets.from_client }
    ∷ record { protocol = "22"; branch = some Sockets.from_client }
    ∷ record { protocol = "443"; branch = none }
    ∷ record { protocol = "80"; branch = some Sockets.from_socket }
    ∷ []

visit :
    (Sockets.serve_opened true local (allowed_channels port_name configured) visitors []).0
    ≡ err Sockets.waiting
unfolding Sockets.serve_opened Sockets.serve_allowed Sockets.serve_udp Sockets.serve_tcp
    Sockets.udp_message Sockets.send_message allowed_channels get insert
visit = refl

visit_log :
    (Sockets.serve_opened true local (allowed_channels port_name configured) visitors []).1
    ≡ Sockets.on_message
      ∷ Sockets.connected 443 (ok tt)
      ∷ Sockets.opened "443"
      ∷ Sockets.closed
      ∷ Sockets.opened "22"
      ∷ Sockets.socket_sent (3 ∷ []) (ok 1)
      ∷ Sockets.socket_sent msg (ok 2)
      ∷ Sockets.message (some msg)
      ∷ Sockets.on_message
      ∷ Sockets.connected 6000 (ok tt)
      ∷ Sockets.bound (ok tt)
      ∷ Sockets.opened "80"
      ∷ []
unfolding Sockets.serve_opened Sockets.serve_allowed Sockets.serve_udp Sockets.serve_tcp
    Sockets.udp_message Sockets.send_message allowed_channels get insert
visit_log = refl

serve_opened-AllLead_example :
    let log =
      (Sockets.serve_opened true local (allowed_channels port_name configured) visitors []).1 in
    AllLead (Leads port_name configured) log × (turns log ≤ served log)
serve_opened-AllLead_example = serve_opened-AllLead true local port_name configured visitors

serve_opened-delivers_example :
    let run =
      Sockets.serve_opened true local
        (allowed_channels port_name configured)
        (record { protocol = "80"; branch = some Sockets.from_client } ∷ [])
        [] in
    Arrives true local msg local-Works (some Sockets.from_client) run
    × (socket_port run.1 ≡ some 6000)
unfolding open_config
serve_opened-delivers_example =
    serve_opened-delivers true local msg local-Works port_name configured 80 6000 tcp
      (udp_channel 6000 (some 80) none) "80" (some Sockets.from_client) refl refl refl []
