-- ===== src/Tunnel/Reached.antt =====
-- What the data channels of a client reach through `Sockets`.
use Prim.Native.String.{String}
use mangle_webrtc.Common.{
  ℕ, zero, suc, ◌+◌, ◌≤◌, ◌≡◌, refl, sym, ◌∙◌, Bool, Option, none, some, List, [], ◌∷◌, length,
  Result-cases, Option-cases, drop, inl, inr, arith,
}
use mangle_webrtc.Tunnel.{Channel, udp_channel, tcp_channel, local_socket}
use mangle_webrtc.Tunnel.Serve.{get, allowed_channels}
use mangle_webrtc.Tunnel.Access.{last_with, target, get-allowed_channels}
use mangle_webrtc.Tunnel.Sockets

-- The protocol of the data channel that is served.
abbrev pub current : {E : Type 0} → List (Sockets.Event E) → Option String
current [] = none
current (Sockets.opened protocol ∷ log) = some protocol
current (_ ∷ log) = current log

-- How many data channels were served, and how often bytes were taken from a socket or a client.
abbrev pub served : {E : Type 0} → List (Sockets.Event E) → ℕ
served [] = 0
served (Sockets.opened protocol ∷ log) = suc (served log)
served (_ ∷ log) = served log

abbrev pub turns : {E : Type 0} → List (Sockets.Event E) → ℕ
turns [] = 0
turns (Sockets.socket_read r ∷ log) = suc (turns log)
turns (Sockets.message m ∷ log) = suc (turns log)
turns (_ ∷ log) = turns log

-- Each connection was made for a data channel whose protocol leads to that port.
abbrev pub AllLead : {E : Type 0} → (Option String → ℕ → Type 0) → List (Sockets.Event E) → Type 0
AllLead Leads [] = Unit {0}
AllLead Leads (Sockets.connected port r ∷ log) = Leads (current log) port × AllLead Leads log
AllLead Leads (_ ∷ log) = AllLead Leads log

-- From `h` to `k` no other data channel is served, at most `n` turns are taken, and connections are
-- made to `Leads` alone.
record Within {E : Type 0} (Leads : Option String → ℕ → Type 0) (n : ℕ)
    (h k : List (Sockets.Event E)) : Type 0 where
  same : current k ≡ current h
  count : served k ≡ served h
  few : turns k ≤ turns h + n
  lead : AllLead Leads k

module _ {E : Type 0} (Leads : Option String → ℕ → Type 0) (debug : Bool)
    (w : Sockets.World E) where
  send_message-Within :
      (fuel : ℕ) (msg : List ℕ) (sent_n : ℕ) (h : List (Sockets.Event E))
      → AllLead Leads h
      → Within Leads 0 h (Sockets.send_message debug w fuel msg sent_n h).1
  unfolding Sockets.send_message
  send_message-Within zero msg sent_n h l = record {
    same = refl;
    count = refl;
    few = omega arith;
    lead = l;
  }
  send_message-Within (suc fuel) msg sent_n h l =
      elim (Result-cases (w.socket_send (drop sent_n msg) h)) [
        | inl (n, e) ↦ ground (
          arith,
          e,
          send_message-Within fuel msg (sent_n + n)
              (Sockets.socket_sent (drop sent_n msg) (w.socket_send (drop sent_n msg) h) ∷ h) l,
        )
        | inr (f, e) ↦ ground (arith, e)
      ]

  forward-Within :
      (h : List (Sockets.Event E))
      → AllLead Leads h
      → Within Leads 1 h (Sockets.forward debug w h).1
  unfolding Sockets.forward
  forward-Within h l = ground arith

  udp_message-Within :
      (h : List (Sockets.Event E))
      → AllLead Leads h
      → Within Leads 1 h (Sockets.udp_message debug w h).1
  unfolding Sockets.udp_message
  udp_message-Within h l = elim (Option-cases (w.message h)) [
    | inl e ↦ ground (arith, e)
    | inr (msg, e) ↦ ground (
      arith,
      e,
      send_message-Within (suc (length msg)) msg 0 (Sockets.message (w.message h) ∷ h) l,
    )
  ]

  tcp_message-Within :
      (h : List (Sockets.Event E))
      → AllLead Leads h
      → Within Leads 1 h (Sockets.tcp_message debug w h).1
  unfolding Sockets.tcp_message
  tcp_message-Within h l = ground arith

  serve_udp-Within :
      (port : ℕ) (branch : Option Sockets.Branch) (h : List (Sockets.Event E))
      → Leads (current h) port
      → AllLead Leads h
      → Within Leads 1 h (Sockets.serve_udp debug w port branch h).1
  unfolding Sockets.serve_udp
  serve_udp-Within port branch h leads l =
      let socket : List (Sockets.Event E) = Sockets.bound (w.bind h) ∷ h in
      let ready : List (Sockets.Event E) =
        Sockets.on_message ∷ Sockets.connected port (w.connect port socket) ∷ socket in
      ground (arith, udp_message-Within ready (leads, l), forward-Within ready (leads, l))

  serve_tcp-Within :
      (port : ℕ) (branch : Option Sockets.Branch) (h : List (Sockets.Event E))
      → Leads (current h) port
      → AllLead Leads h
      → Within Leads 1 h (Sockets.serve_tcp debug w port branch h).1
  unfolding Sockets.serve_tcp
  serve_tcp-Within port branch h leads l =
      let ready : List (Sockets.Event E) =
        Sockets.on_message ∷ Sockets.connected port (w.connect port h) ∷ h in
      ground (arith, tcp_message-Within ready (leads, l), forward-Within ready (leads, l))

  serve_allowed-Within :
      (o : Option Channel) (branch : Option Sockets.Branch) (h : List (Sockets.Event E))
      → ((c : Channel) (port : ℕ) → o ≡ some c → target c ≡ some port → Leads (current h) port)
      → AllLead Leads h
      → Within Leads 1 h (Sockets.serve_allowed debug w o branch h).1
  unfolding Sockets.serve_allowed
  serve_allowed-Within none branch h leads l = record {
    same = refl;
    count = refl;
    few = omega arith;
    lead = l;
  }
  serve_allowed-Within (some (udp_channel p r q)) branch h leads l =
      serve_udp-Within p branch h (leads (udp_channel p r q) p refl refl) l
  serve_allowed-Within (some (tcp_channel p r q)) branch h leads l =
      serve_tcp-Within p branch h (leads (tcp_channel p r q) p refl refl) l
  serve_allowed-Within (some (local_socket a r q)) branch h leads l = record {
    same = refl;
    count = refl;
    few = omega arith;
    lead = l;
  }

-- A port that a protocol leads to: that of the last channel that is configured for it.
abbrev pub Leads : (ℕ → String) → List Channel → Option String → ℕ → Type 0
Leads to_string channels none port = ⊥
Leads to_string channels (some protocol) port =
    (c : Channel) × (last_with to_string protocol channels ≡ some c) × (target c ≡ some port)

module _ {E : Type 0} (debug : Bool) (w : Sockets.World E) (to_string : ℕ → String)
    (channels : List Channel) where
  serve_opened-reaches :
      (opened : List Sockets.Opened) (h : List (Sockets.Event E))
      → AllLead (Leads to_string channels) h
      → turns h ≤ served h
      → let k = (Sockets.serve_opened debug w (allowed_channels to_string channels) opened h).1 in
        AllLead (Leads to_string channels) k × (turns k ≤ served k)
  unfolding Sockets.serve_opened
  serve_opened-reaches [] h l few = (l, few)
  serve_opened-reaches (d ∷ opened) h l few =
      let o = get d.protocol (allowed_channels to_string channels) in
      let begun : List (Sockets.Event E) = Sockets.opened d.protocol ∷ h in
      let step =
        serve_allowed-Within (Leads to_string channels) debug w o d.branch begun
          (λ c port found at.
            (c, sym (get-allowed_channels to_string d.protocol channels) ∙ found, at))
          l in
      ground (
        arith,
        step.count,
        step.few,
        step.lead,
        serve_opened-reaches opened (Sockets.serve_allowed debug w o d.branch begun).1,
      )

  -- A client reaches no port but those that the server has configured: each connection of the server
  -- to a socket is made while it serves a data channel, to the port of the last channel that is
  -- configured for the protocol of that data channel. And each data channel carries at most one
  -- message, from the client or from the socket.
  pub serve_opened-AllLead :
      (opened : List Sockets.Opened)
      → let log =
          (Sockets.serve_opened debug w (allowed_channels to_string channels) opened []).1 in
        AllLead (Leads to_string channels) log × (turns log ≤ served log)
  serve_opened-AllLead opened = serve_opened-reaches opened [] tt (omega arith)
