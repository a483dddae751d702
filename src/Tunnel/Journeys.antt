-- ===== src/Tunnel/Journeys.antt =====
-- Two datagrams on their way through the tunnel, and the theorem of `Journey` at them.
use native.Mathlib.Decide.{ℕ_discrete}
use mangle_webrtc.Common.{
  ℕ, ◌≡◌, refl, true, none, some, List, [], ◌∷◌, ◌++◌, length, Option, inl, inr, ok, arith,
}
use mangle_webrtc.Tunnel.{udp_channel, tcp}
use mangle_webrtc.Tunnel.Udp.{Datagram, start, listen, receive, vacant, create, occupied}
use mangle_webrtc.Tunnel.Zeros.{AllZero}
use mangle_webrtc.Tunnel.Pump.{send_rest}
use mangle_webrtc.Tunnel.Forward.{UdpWake, from_listener, from_webrtc, udp_task}
use mangle_webrtc.Tunnel.Serve.{allowed_channels}
use mangle_webrtc.Tunnel.Open.{open_config}
use mangle_webrtc.Tunnel.Sockets
use mangle_webrtc.Tunnel.Answered.{Arrives, socket_port, Works}
use mangle_webrtc.Tunnel.Journey.{handed, filled, IsOneOf, datagrams-serve_opened}
use mangle_webrtc.Tunnel.Tests.{append, append-Appends, hello}
use mangle_webrtc.Tunnel.Visits.{port_name, configured, local, local-takes}

abbrev longer : Datagram ℕ ℕ
longer = record hello { payload = 1 ∷ 2 ∷ 3 ∷ [] }

abbrev handed_over : List (List ℕ)
handed_over = handed 0 (listen ℕ_discrete append (start 0) (hello ∷ longer ∷ []))

both_handed : (0 ∷ 0 ∷ []) ∷ (0 ∷ 0 ∷ 0 ∷ []) ∷ [] ≡ handed_over
unfolding listen receive vacant create occupied start ℕ_discrete
both_handed = refl

-- The first datagram is sent, and a message comes back.
abbrev wakes : List (UdpWake ℕ)
wakes = from_listener (some (0 ∷ 0 ∷ [])) ∷ from_webrtc (some (9 ∷ [], ok tt)) ∷ []

abbrev all_of_it : List (List ℕ) → List ℕ → Option ℕ
all_of_it parts part = some (length part)

-- The second datagram arrives, as if the first was lost.
abbrev wakes_twice : List (UdpWake ℕ)
wakes_twice = wakes ++ (from_listener (some (0 ∷ 0 ∷ 0 ∷ [])) ∷ [])

two_messages :
    (udp_task all_of_it wakes_twice (record { to_webrtc = []; to_local = [] })).1.to_webrtc
    ≡ handed_over
unfolding udp_task send_rest listen receive vacant create occupied start ℕ_discrete
two_messages = refl

abbrev reached : Sockets.World ℕ
reached = record local { message = λ h. some (0 ∷ 0 ∷ 0 ∷ []) }

reached-Works : Works reached (0 ∷ 0 ∷ 0 ∷ [])
reached-Works = record {
  binds = λ h. refl;
  connects = λ port h. refl;
  comes = λ h. refl;
  takes = local-takes;
  writes = λ bytes h. refl;
  flushes = λ h. refl;
}

second_sent :
    IsOneOf
      (0 ∷ 0 ∷ 0 ∷ [])
      (udp_task all_of_it wakes_twice (record { to_webrtc = []; to_local = [] })).1.to_webrtc
unfolding udp_task send_rest
second_sent = inr (inl refl)

datagrams-serve_opened_example :
    let run =
      Sockets.serve_opened true reached
        (allowed_channels port_name configured)
        (record { protocol = "80"; branch = some Sockets.from_client } ∷ [])
        [] in
    (filled handed_over
      ≡ (udp_task all_of_it wakes_twice (record { to_webrtc = []; to_local = [] })).1.to_webrtc
        ++ [])
    × AllZero (0 ∷ 0 ∷ 0 ∷ [])
    × Arrives true reached (0 ∷ 0 ∷ 0 ∷ []) reached-Works (some Sockets.from_client) run
    × (socket_port run.1 ≡ some 6000)
unfolding open_config
datagrams-serve_opened_example =
    datagrams-serve_opened ℕ_discrete append 0 (hello ∷ longer ∷ []) all_of_it 0 wakes_twice [] true
      reached port_name configured 80 6000 tcp (udp_channel 6000 (some 80) none) "80"
      (some Sockets.from_client) (0 ∷ 0 ∷ 0 ∷ []) [] append-Appends (omega arith)
      (λ parts part. refl) tt both_handed second_sent reached-Works refl refl refl
