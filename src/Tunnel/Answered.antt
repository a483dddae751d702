-- ===== src/Tunnel/Answered.antt =====
-- What becomes of a message of the client, by `Sockets`.
use Prim.Native.String.{String}
use native.Mathlib.Decide.{dec_lt}
use mangle_webrtc.Common.{
  ℕ, zero, suc, ◌+◌, ◌≤◌, ◌<◌, ◌≡◌, sym, ap, ◌∙◌, Bool, Option, none, some, List, [], ◌∷◌, ◌++◌,
  length, take, drop, length-drop, Result, ok, err, arith,
}
use mangle_webrtc.Tunnel.{Channel, udp_channel, tcp_channel, local_socket, Quality}
use mangle_webrtc.Tunnel.Serve.{allowed_channels}
use mangle_webrtc.Tunnel.Access.{last_with, target, get-allowed_channels}
use mangle_webrtc.Tunnel.Open.{open_config}
use mangle_webrtc.Tunnel.Delivery.{take-add, take-all}
use mangle_webrtc.Tunnel.Sockets

-- The bytes that the socket of the data channel that is served has taken, in order, and its port.
abbrev pub to_socket : {E : Type 0} → List (Sockets.Event E) → List ℕ
to_socket [] = []
to_socket (Sockets.opened protocol ∷ log) = []
to_socket (Sockets.socket_sent part (ok n) ∷ log) = to_socket log ++ take n part
to_socket (Sockets.wrote bytes (ok u) ∷ log) = to_socket log ++ bytes
to_socket (_ ∷ log) = to_socket log

abbrev pub socket_port : {E : Type 0} → List (Sockets.Event E) → Option ℕ
socket_port [] = none
socket_port (Sockets.opened protocol ∷ log) = none
socket_port (Sockets.connected port (ok u) ∷ log) = some port
socket_port (_ ∷ log) = socket_port log

-- The client has sent `msg`, and the socket takes bytes: `send` of a UDP socket at least one of those
-- that it is given, and no more than those.
pub record Works {E : Type 0} (w : Sockets.World E) (msg : List ℕ) : Type 0 where
  pub binds : (h : List (Sockets.Event E)) → w.bind h ≡ ok tt
  pub connects : (port : ℕ) (h : List (Sockets.Event E)) → w.connect port h ≡ ok tt
  pub comes : (h : List (Sockets.Event E)) → w.message h ≡ some msg
  pub takes :
      (part : List ℕ) (h : List (Sockets.Event E))
      → 1 ≤ length part
      → (n : ℕ) × (w.socket_send part h ≡ ok n) × (1 ≤ n) × (n ≤ length part)
  pub writes : (bytes : List ℕ) (h : List (Sockets.Event E)) → w.write_all bytes h ≡ ok tt
  pub flushes : (h : List (Sockets.Event E)) → w.flush h ≡ ok tt

module _ {E : Type 0} (debug : Bool) (w : Sockets.World E) (msg : List ℕ)
    (works : Works w msg) where
  send_message-delivers :
      (fuel sent_n : ℕ) (h : List (Sockets.Event E))
      → length msg < fuel + sent_n
      → sent_n ≤ length msg
      → to_socket h ≡ take sent_n msg
      → let (r, k) = Sockets.send_message debug w fuel msg sent_n h in
        (r ≡ ok tt) × (to_socket k ≡ msg) × (socket_port k ≡ socket_port h)
  unfolding Sockets.send_message
  send_message-delivers zero sent_n h enough within so_far = absurd (omega arith)
  send_message-delivers (suc fuel) sent_n h enough within so_far =
      elim (dec_lt sent_n (length msg)) [
        | no done ↦ ground (arith, so_far, take-all sent_n msg (omega arith))
        | yes more ↦
            let part = drop sent_n msg in
            let left = length-drop sent_n msg in
            let (n, e, some_sent, no_more) = works.takes part h (omega (arith, left)) in
            let k = Sockets.socket_sent part (w.socket_send part h) ∷ h in
            let so_far' : to_socket k ≡ take (sent_n + n) msg =
              ap (λ r. to_socket (Sockets.socket_sent part r ∷ h)) e
              ∙ ap (λ b. b ++ take n part) so_far
              ∙ sym (take-add sent_n n msg) in
            ground (
              arith,
              e,
              more,
              send_message-delivers fuel (sent_n + n) k (omega arith) (omega (arith, left)) so_far',
            )
      ]

  serve_udp-delivers :
      (port : ℕ) (h : List (Sockets.Event E))
      → to_socket h ≡ []
      → let (r, k) = Sockets.serve_udp debug w port (some Sockets.from_client) h in
        (r ≡ ok tt) × (to_socket k ≡ msg) × (socket_port k ≡ some port)
  unfolding Sockets.serve_udp Sockets.udp_message
  serve_udp-delivers port h none_sent =
      let socket : List (Sockets.Event E) = Sockets.bound (w.bind h) ∷ h in
      let joined : List (Sockets.Event E) =
        Sockets.connected port (w.connect port socket) ∷ socket in
      let ready : List (Sockets.Event E) = Sockets.on_message ∷ joined in
      ground (
        arith,
        works.binds h,
        works.connects port socket,
        works.comes ready,
        send_message-delivers (suc (length msg)) 0 (Sockets.message (w.message ready) ∷ ready),
      )

  serve_tcp-delivers :
      (port : ℕ) (h : List (Sockets.Event E))
      → to_socket h ≡ []
      → let (r, k) = Sockets.serve_tcp debug w port (some Sockets.from_client) h in
        (r ≡ ok tt) × (to_socket k ≡ msg) × (socket_port k ≡ some port)
  unfolding Sockets.serve_tcp Sockets.tcp_message
  serve_tcp-delivers port h none_sent =
      let ready : List (Sockets.Event E) =
        Sockets.on_message ∷ Sockets.connected port (w.connect port h) ∷ h in
      let got : List (Sockets.Event E) = Sockets.message (w.message ready) ∷ ready in
      ground (
        arith,
        works.connects port h,
        works.comes ready,
        works.writes msg got,
        works.flushes (Sockets.wrote msg (w.write_all msg got) ∷ got),
      )

  -- What becomes of the message, by the branch that the `select!` takes: that of the message hands all
  -- of it to the socket; that of the socket, and a `select!` that waits, nothing.
  abbrev pub Arrives :
      Option Sockets.Branch → Result Sockets.Exit (Unit {0}) × List (Sockets.Event E) → Type 0
  Arrives (some Sockets.from_client) (r, k) = (r ≡ ok tt) × (to_socket k ≡ msg)
  Arrives (some Sockets.from_socket) (r, k) = to_socket k ≡ []
  Arrives none (r, k) = (r ≡ err Sockets.waiting) × (to_socket k ≡ [])

  forward-nothing :
      (h : List (Sockets.Event E))
      → let k = (Sockets.forward debug w h).1 in
        (to_socket k ≡ to_socket h) × (socket_port k ≡ socket_port h)
  unfolding Sockets.forward
  forward-nothing h = ground arith

  serve_udp-Arrives :
      (port : ℕ) (branch : Option Sockets.Branch) (h : List (Sockets.Event E))
      → to_socket h ≡ []
      → let run = Sockets.serve_udp debug w port branch h in
        Arrives branch run × (socket_port run.1 ≡ some port)
  unfolding Sockets.serve_udp
  serve_udp-Arrives port (some Sockets.from_client) h none_sent =
      let (r, k, p) = serve_udp-delivers port h none_sent in ((r, k), p)
  serve_udp-Arrives port (some Sockets.from_socket) h none_sent =
      let socket : List (Sockets.Event E) = Sockets.bound (w.bind h) ∷ h in
      ground (
        arith,
        works.binds h,
        works.connects port socket,
        forward-nothing
            (Sockets.on_message ∷ Sockets.connected port (w.connect port socket) ∷ socket),
      )
  serve_udp-Arrives port none h none_sent =
      ground (arith, works.binds h, works.connects port (Sockets.bound (w.bind h) ∷ h))

  serve_tcp-Arrives :
      (port : ℕ) (branch : Option Sockets.Branch) (h : List (Sockets.Event E))
      → to_socket h ≡ []
      → let run = Sockets.serve_tcp debug w port branch h in
        Arrives branch run × (socket_port run.1 ≡ some port)
  unfolding Sockets.serve_tcp
  serve_tcp-Arrives port (some Sockets.from_client) h none_sent =
      let (r, k, p) = serve_tcp-delivers port h none_sent in ((r, k), p)
  serve_tcp-Arrives port (some Sockets.from_socket) h none_sent = ground (
    arith,
    works.connects port h,
    forward-nothing (Sockets.on_message ∷ Sockets.connected port (w.connect port h) ∷ h),
  )
  serve_tcp-Arrives port none h none_sent = ground (arith, works.connects port h)

  serve_allowed-Arrives :
      (c : Channel) (t : ℕ) (branch : Option Sockets.Branch) (h : List (Sockets.Event E))
      → target c ≡ some t
      → to_socket h ≡ []
      → let run = Sockets.serve_allowed debug w (some c) branch h in
        Arrives branch run × (socket_port run.1 ≡ some t)
  unfolding Sockets.serve_allowed
  serve_allowed-Arrives (udp_channel p r q) t branch h at_t none_sent =
      let (arrives, on_port) = serve_udp-Arrives p branch h none_sent in (arrives, on_port ∙ at_t)
  serve_allowed-Arrives (tcp_channel p r q) t branch h at_t none_sent =
      let (arrives, on_port) = serve_tcp-Arrives p branch h none_sent in (arrives, on_port ∙ at_t)
  serve_allowed-Arrives (local_socket a r q) t branch h at_t none_sent = absurd (ground arith)

  module _ (to_string : ℕ → String) (channels : List Channel) where
    -- Where binding and connecting succeed, the sockets take what they are given, and the next message
    -- that the server reads is `msg`: a single data channel that the client opened for a port is
    -- connected to the last channel that the server has configured under this port, if that channel
    -- leads to a port, whatever the quality is and whether each side names UDP or TCP. If its `select!`
    -- takes the branch of the message, the socket gets the whole message, in order, and nothing else,
    -- and the server is done with the data channel, without a panic; if it takes the branch of the
    -- socket, or waits, the socket gets not one byte.
    pub serve_opened-delivers :
        (port t : ℕ) (quality : Quality) (c : Channel) (protocol : String)
        (branch : Option Sockets.Branch)
        → (open_config to_string port quality).protocol ≡ some protocol
        → last_with to_string (to_string port) channels ≡ some c
        → target c ≡ some t
        → (h : List (Sockets.Event E))
        → let run =
            Sockets.serve_opened debug w
              (allowed_channels to_string channels)
              (record { protocol = protocol; branch = branch } ∷ [])
              h in
          Arrives branch run × (socket_port run.1 ≡ some t)
    unfolding open_config Sockets.serve_opened
    serve_opened-delivers port t quality c protocol (some Sockets.from_client) named found at_t h =
        ground (
          arith,
          get-allowed_channels to_string protocol channels,
          serve_allowed-Arrives c t (some Sockets.from_client) (Sockets.opened protocol ∷ h),
        )
    serve_opened-delivers port t quality c protocol (some Sockets.from_socket) named found at_t h =
        ground (
          arith,
          get-allowed_channels to_string protocol channels,
          serve_allowed-Arrives c t (some Sockets.from_socket) (Sockets.opened protocol ∷ h),
        )
    serve_opened-delivers port t quality c protocol none named found at_t h = ground (
      arith,
      get-allowed_channels to_string protocol channels,
      serve_allowed-Arrives c t none (Sockets.opened protocol ∷ h),
    )
