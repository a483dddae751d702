-- ===== src/Tunnel/Tests.antt =====
-- The tunnel on concrete bytes and configurations, and the theorems at concrete inputs.
use Prim.Native.String.{String}
use mathlib.Core.List.{append-nil}
use native.Mathlib.Decide.{ℕ_discrete}
use mangle_webrtc.Common.{
  ℕ, ◌≡◌, refl, Option, none, some, List, [], ◌∷◌, ◌++◌, take, length, take-append_self, true,
  if◌then◌else◌, ◌==◌, ok, arith,
}
use mangle_webrtc.Tunnel.{Channel, udp_channel, tcp_channel}
use mangle_webrtc.Tunnel.Pump.{finished, running, send_rest, send_read}
use mangle_webrtc.Tunnel.Delivery.{Delivered, Progress, send_rest-delivers}
use mangle_webrtc.Tunnel.Udp.{Datagram, Listener, start, listen, receive}
use mangle_webrtc.Tunnel.Zeros.{Appends, AllCarryZeros, listen-AllCarryZeros}
use mangle_webrtc.Tunnel.Routing.{IsRouted, receive-IsRouted}
use mangle_webrtc.Tunnel.Serve.{
  get, insert, allowed_channels, Opened, from_client, to_socket, serve_channel,
}

-- A `send` that takes two bytes at most.
abbrev pub by_two : List (List ℕ) → List ℕ → Option ℕ
by_two parts [] = some 0
by_two parts (b ∷ []) = some 1
by_two parts (b ∷ c ∷ rest) = some 2

pub by_two-Progress : Progress by_two
by_two-Progress parts [] h = absurd (omega arith)
by_two-Progress parts (b ∷ []) h = (1, refl, omega arith, omega arith)
by_two-Progress parts (b ∷ c ∷ rest) h = (2, refl, omega arith, omega arith)

three_bytes : send_rest by_two 4 (7 ∷ 8 ∷ 9 ∷ []) 0 [] ≡ finished ((7 ∷ 8 ∷ []) ∷ (9 ∷ []) ∷ [])
unfolding send_rest
three_bytes = refl

send_rest-delivers_example : Delivered (7 ∷ 8 ∷ 9 ∷ []) (send_rest by_two 4 (7 ∷ 8 ∷ 9 ∷ []) 0 [])
send_rest-delivers_example = send_rest-delivers by_two by_two-Progress (7 ∷ 8 ∷ 9 ∷ [])

read_three : send_read by_two 2 (7 ∷ 8 ∷ 9 ∷ []) 0 [] ≡ running ([] ∷ [] ∷ [])
unfolding send_read
read_three = refl

-- A vector grows by what is received.
abbrev pub append : List ℕ → List ℕ → List ℕ × ℕ
append buf payload = (buf ++ payload, length payload)

pub append-Appends : Appends append
append-Appends buf payload =
    let whole : take (length payload) payload ≡ payload =
      rw append-nil at (take-append_self payload []) in
    (length payload, omega arith, rw whole refl)

abbrev pub hello : Datagram ℕ ℕ
hello = record {
  addr = 1;
  payload = 104 ∷ 105 ∷ [];
  taken = true;
  connected = ok tt;
  created = ok tt;
}

listen-AllCarryZeros_example :
    AllCarryZeros (listen ℕ_discrete append (start 0) (hello ∷ hello ∷ []))
listen-AllCarryZeros_example =
    listen-AllCarryZeros ℕ_discrete append append-Appends 0 (hello ∷ hello ∷ []) (omega arith)

abbrev busy : Listener ℕ
busy = record { buf = []; existing_channel_senders = (7, 0) ∷ []; channel_counter = 3 }

receive-IsRouted_example : IsRouted (receive ℕ_discrete append busy hello).1
receive-IsRouted_example =
    receive-IsRouted ℕ_discrete hello append busy (omega arith)
      (record { separate = (tt, tt); below = (omega arith, tt) })

-- Ports in a system of numerals with two of them.
abbrev port_name : ℕ → String
port_name n = if n == 80 then "80" else "443"

abbrev configured : List Channel
configured =
    udp_channel 5000 (some 80) none
    ∷ tcp_channel 443 none none
    ∷ udp_channel 6000 (some 80) none
    ∷ []

abbrev opened : String → Opened ℕ
opened protocol = record {
  protocol = protocol;
  connected = ok tt;
  turn = from_client (some (1 ∷ 2 ∷ []));
  handed_on = ok tt;
}

reached :
    serve_channel (allowed_channels port_name configured) (opened "80")
    ≡ to_socket 6000 (1 ∷ 2 ∷ [])
unfolding serve_channel allowed_channels get insert
reached = refl
