-- ===== src/Tunnel/Journey.antt =====
-- A datagram on its way through the tunnel: from the UDP listener of webrtc-tunnel/src/client.rs
-- through the task of its data channel to a socket of webrtc-tunnel/src/server.rs.
use Prim.Native.String.{String}
use mathlib.Core.Path.{subst}
use mathlib.Core.List.{append_assoc, append-nil}
use mangle_webrtc.Common.{
  ℕ, suc, ◌≡◌, refl, sym, ap, ◌∙◌, Bool, Option, none, some, List, [], ◌∷◌, ◌++◌, length, ◌==◌,
  if◌then◌else◌, ok, err, arith, ◌⊎◌, inl, inr,
}
use mangle_webrtc.Tunnel.{Channel, Quality, udp_packet_size}
use mangle_webrtc.Tunnel.Udp.{Datagram, Routed, forwarded, dropped, ended, start, listen}
use mangle_webrtc.Tunnel.Zeros.{Appends, AllZero, AllCarryZeros, AllSmall, listen-AllCarryZeros}
use mangle_webrtc.Tunnel.Pump.{finished, send_rest}
use mangle_webrtc.Tunnel.Delivery.{take-all}
use mangle_webrtc.Tunnel.Forward.{Carried, UdpWake, from_listener, from_webrtc, udp_task}
use mangle_webrtc.Tunnel.Carry.{AllOpen}
use mangle_webrtc.Tunnel.Serve.{allowed_channels}
use mangle_webrtc.Tunnel.Access.{last_with, target}
use mangle_webrtc.Tunnel.Open.{open_config}
use mangle_webrtc.Tunnel.Sockets
use mangle_webrtc.Tunnel.Answered.{Arrives, socket_port, Works, serve_opened-delivers}

-- What the listener hands to the data channel of index `idx`, in order.
abbrev pub handed : {E : Type 0} → ℕ → List (Routed E) → List (List ℕ)
handed idx [] = []
handed idx (forwarded i bytes ∷ rest) =
    let later = handed idx rest in if i == idx then bytes ∷ later else later
handed idx (dropped bytes ∷ rest) = handed idx rest
handed idx (ended e ∷ rest) = handed idx rest

-- What the task of a data channel receives of the listener, in order.
abbrev pub received : {E : Type 0} → List (UdpWake E) → List (List ℕ)
received [] = []
received (from_listener (some bytes) ∷ wakes) = bytes ∷ received wakes
received (_ ∷ wakes) = received wakes

-- Those that are not empty.
abbrev pub filled : List (List ℕ) → List (List ℕ)
filled [] = []
filled ([] ∷ parts) = filled parts
filled ((b ∷ bytes) ∷ parts) = (b ∷ bytes) ∷ filled parts

filled-append : (xs ys : List (List ℕ)) → filled (xs ++ ys) ≡ filled xs ++ filled ys
filled-append [] ys = refl
filled-append ([] ∷ xs) ys = filled-append xs ys
filled-append ((b ∷ bytes) ∷ xs) ys = ap (λ l. (b ∷ bytes) ∷ l) (filled-append xs ys)

-- `send` of a data channel takes all that it is given, as one message.
abbrev pub Whole : (List (List ℕ) → List ℕ → Option ℕ) → Type 0
Whole takes = (parts : List (List ℕ)) (part : List ℕ) → takes parts part ≡ some (length part)

abbrev AllZeros : List (List ℕ) → Type 0
AllZeros [] = Unit {0}
AllZeros (bytes ∷ parts) = AllZero bytes × AllZeros parts

handed-AllZeros :
    {E : Type 0} (idx : ℕ) (rs : List (Routed E)) → AllCarryZeros rs → AllZeros (handed idx rs)
handed-AllZeros idx [] zeros = tt
handed-AllZeros idx (forwarded i bytes ∷ rest) zeros =
    ground (arith, zeros.0, handed-AllZeros idx rest zeros.1)
handed-AllZeros idx (dropped bytes ∷ rest) zeros = handed-AllZeros idx rest zeros.1
handed-AllZeros idx (ended e ∷ rest) zeros = handed-AllZeros idx rest zeros.1

filled-AllZeros : (parts : List (List ℕ)) → AllZeros parts → AllZeros (filled parts)
filled-AllZeros [] zeros = tt
filled-AllZeros ([] ∷ parts) zeros = filled-AllZeros parts zeros.1
filled-AllZeros ((b ∷ bytes) ∷ parts) zeros = (zeros.0, filled-AllZeros parts zeros.1)

abbrev pub IsOneOf : List ℕ → List (List ℕ) → Type 0
IsOneOf msg [] = ⊥
IsOneOf msg (part ∷ parts) = (msg ≡ part) ⊎ IsOneOf msg parts

one-AllZero :
    (parts more : List (List ℕ)) (msg : List ℕ)
    → AllZeros (parts ++ more)
    → IsOneOf msg parts
    → AllZero msg
one-AllZero [] more msg zeros one = absurd one
one-AllZero (part ∷ parts) more msg zeros (inl e) = subst AllZero (sym e) zeros.0
one-AllZero (part ∷ parts) more msg zeros (inr one) = one-AllZero parts more msg zeros.1 one

IsOneOf-AllZero :
    (parts first more : List (List ℕ)) (msg : List ℕ)
    → AllZeros parts
    → filled parts ≡ first ++ more
    → IsOneOf msg first
    → AllZero msg
IsOneOf-AllZero parts first more msg zeros e one =
    one-AllZero first more msg (subst AllZeros e (filled-AllZeros parts zeros)) one

module _ (takes : List (List ℕ) → List ℕ → Option ℕ) (whole : Whole takes) where
  send_rest-whole :
      (bytes : List ℕ)
      → send_rest takes (suc (length bytes)) bytes 0 [] ≡ finished (filled (bytes ∷ []))
  unfolding send_rest
  send_rest-whole [] = refl
  send_rest-whole (b ∷ bytes) =
      ground (arith, whole [] (b ∷ bytes), take-all (length (b ∷ bytes)) (b ∷ bytes) (omega arith))

  -- A task that is not left hands the data channel one message for each datagram that is not empty.
  udp_task-messages :
      {E : Type 0} (wakes : List (UdpWake E)) (c : Carried)
      → AllOpen wakes
      → (udp_task takes wakes c).1.to_webrtc ≡ c.to_webrtc ++ filled (received wakes)
  unfolding udp_task
  udp_task-messages [] c open' = sym (append-nil c.to_webrtc)
  udp_task-messages (from_listener none ∷ wakes) c open' = absurd open'
  udp_task-messages (from_listener (some bytes) ∷ wakes) c open' =
      rw (send_rest-whole bytes, udp_task)
        (udp_task-messages wakes (record c { to_webrtc = c.to_webrtc ++ filled (bytes ∷ []) }) open'
          ∙ append_assoc c.to_webrtc (filled (bytes ∷ [])) (filled (received wakes))
          ∙ ap (λ l. c.to_webrtc ++ l) (sym (filled-append (bytes ∷ []) (received wakes))))
  udp_task-messages (from_webrtc none ∷ wakes) c open' = absurd open'
  udp_task-messages (from_webrtc (some (bytes, ok u)) ∷ wakes) c open' =
      udp_task-messages wakes (record c { to_local = c.to_local ++ (bytes ∷ []) }) open'
  udp_task-messages (from_webrtc (some (bytes, err e)) ∷ wakes) c open' = absurd open'

module _ {Addr E F : Type 0} (same : Discrete Addr) (recv_buf_from : List ℕ → List ℕ → List ℕ × ℕ)
    (counter : ℕ) (datagrams : List (Datagram Addr E)) (takes : List (List ℕ) → List ℕ → Option ℕ)
    (idx : ℕ) (wakes : List (UdpWake F)) (later : List (List ℕ)) where
  -- The datagrams that the listener hands to a data channel.
  abbrev channel_datagrams : List (List ℕ)
  channel_datagrams = handed idx (listen same recv_buf_from (start counter) datagrams)

  -- The messages of the data channel.
  abbrev channel_messages : List (List ℕ)
  channel_messages = (udp_task takes wakes (record { to_webrtc = []; to_local = [] })).1.to_webrtc

  messages-datagrams :
      AllOpen wakes
      → Whole takes
      → received wakes ++ later ≡ channel_datagrams
      → filled channel_datagrams ≡ channel_messages ++ filled later
  messages-datagrams open' whole passed =
      ap filled (sym passed)
      ∙ filled-append (received wakes) later
      ∙ ap (λ l. l ++ filled later)
          (sym
            (udp_task-messages takes whole wakes (record { to_webrtc = []; to_local = [] }) open'))

  -- Where `recv_buf_from` appends to the buffer and the datagrams fit it, and a `send` takes its whole
  -- message, the messages of a data channel opened for a port, whose task is not left, are the first
  -- of the datagrams with any byte that the listener handed to it, in order. Let the server read one
  -- of them as its next message, whichever it is: the data channel may lose messages or change their
  -- order, but not what they hold. Where binding and connecting succeed and the sockets take what they
  -- are given, the data channel is then connected to the last channel that the server has configured
  -- under the port, if that leads to a port. If the `select!` takes the branch of the message, this
  -- socket gets that datagram, as zeros and whole, and nothing of any other; if it takes the branch of
  -- the socket, or waits, the socket gets not one byte.
  pub datagrams-serve_opened :
      {G : Type 0} (debug : Bool) (w : Sockets.World G) (to_string : ℕ → String)
      (channels : List Channel) (port t : ℕ) (quality : Quality) (c : Channel) (protocol : String)
      (branch : Option Sockets.Branch) (msg : List ℕ) (h : List (Sockets.Event G))
      → Appends recv_buf_from
      → AllSmall udp_packet_size datagrams
      → Whole takes
      → AllOpen wakes
      → received wakes ++ later ≡ channel_datagrams
      → IsOneOf msg channel_messages
      → (works : Works w msg) → (open_config to_string port quality).protocol ≡ some protocol
      → last_with to_string (to_string port) channels ≡ some c
      → target c ≡ some t
      → let run =
          Sockets.serve_opened debug w
            (allowed_channels to_string channels)
            (record { protocol = protocol; branch = branch } ∷ [])
            h in
        (filled channel_datagrams ≡ channel_messages ++ filled later)
        × AllZero msg
        × Arrives debug w msg works branch run
        × (socket_port run.1 ≡ some t)
  datagrams-serve_opened debug w to_string channels port t quality c protocol branch msg h appends
        small whole open' passed sent works named found at_t =
      let split = messages-datagrams open' whole passed in
      let (arrives, on_port) =
        serve_opened-delivers debug w msg works to_string channels port t quality c protocol branch
          named found at_t h in
      (
        split,
        IsOneOf-AllZero channel_datagrams channel_messages (filled later) msg
            (handed-AllZeros idx (listen same recv_buf_from (start counter) datagrams)
              (listen-AllCarryZeros same recv_buf_from appends counter datagrams small))
            split sent,
        arrives,
        on_port,
      )
