-- ===== src/Tunnel/Sockets.antt =====
-- webrtc-tunnel/src/server.rs: `on_success` call by call, each logged with its answer, the newest
-- first.
use Prim.Native.String.{String}
use mangle_webrtc.Common.{
  ℕ, zero, suc, ◌+◌, Bool, ◌||◌, not, Option, none, some, List, [], ◌∷◌, length, drop, ltb, ◌==◌,
  if◌then◌else◌, Result, ok, err,
}
use mangle_webrtc.Common.Effects.{Eff, ◌>>=◌, ◌>>◌, pure, stop, emit, ask}
use mangle_webrtc.Tunnel.{Channel, udp_channel, tcp_channel, local_socket}
use mangle_webrtc.Tunnel.Serve.{get}

-- `socket_read` is `recv` of a UDP socket and `read` of a TCP stream, `socket_sent` is `send` of a UDP
-- socket, with the number of bytes that it takes, `wrote` is `write_all`.
pub data Event (E : Type 0) : Type 0 where
  opened : String → Event E
  closed : Event E
  bound : Result E (Unit {0}) → Event E
  connected : ℕ → Result E (Unit {0}) → Event E
  on_message : Event E
  socket_read : Result E (List ℕ) → Event E
  channel_sent : List ℕ → Result E ℕ → Event E
  message : Option (List ℕ) → Event E
  socket_sent : List ℕ → Result E ℕ → Event E
  wrote : List ℕ → Result E (Unit {0}) → Event E
  flushed : Result E (Unit {0}) → Event E

-- The answers of the calls, from all the calls before.
pub record World (E : Type 0) : Type 0 where
  pub bind : List (Event E) → Result E (Unit {0})
  pub connect : ℕ → List (Event E) → Result E (Unit {0})
  pub socket_read : List (Event E) → Result E (List ℕ)
  pub channel_send : List ℕ → List (Event E) → Result E ℕ
  pub message : List (Event E) → Option (List ℕ)
  pub socket_send : List ℕ → List (Event E) → Result E ℕ
  pub write_all : List ℕ → List (Event E) → Result E (Unit {0})
  pub flush : List (Event E) → Result E (Unit {0})

-- The branch of the `select!` that is taken.
pub data Branch : Type 0 where
  from_socket from_client : Branch

-- A panic, a `select!` of which no branch is ready, or the loop that sends when its fuel is used up.
pub data Exit : Type 0 where
  panicked waiting sending : Exit

abbrev pub Task : Type 0 → Type 0 → Type 0
Task E A = Eff (Event E) Exit A

-- A data channel that the client has opened, and the branch that its `select!` takes; `none` where it
-- waits.
pub record Opened : Type 0 where
  pub protocol : String
  pub branch : Option Branch

module _ {E : Type 0} where
  -- `match result { Ok(x) => x, Err(e) => panic!("{e}") }`.
  abbrev pub unwrap : {A : Type 0} → Result E A → Task E A
  unwrap (ok a) = pure a
  unwrap (err e) = stop panicked

  abbrev pub some_message : Option (List ℕ) → Task E (List ℕ)
  some_message none = stop panicked
  some_message (some msg) = pure msg

-- `debug` says whether `debug_assert_eq!` is compiled.
module _ {E : Type 0} (debug : Bool) (w : World E) where
  -- What was read from the socket goes to the data channel.
  unfoldable pub forward : Task E (Unit {0})
  forward = do
    read ← ask w.socket_read socket_read
    buf ← unwrap read
    result ← ask (w.channel_send buf) (channel_sent buf)
    x ← unwrap result
    if not debug || (x == length buf) then pure tt else stop panicked

  -- The loop that sends a message to a UDP socket.
  unfoldable pub send_message : ℕ → List ℕ → ℕ → Task E (Unit {0})
  send_message zero msg sent_n = stop sending
  send_message (suc fuel) msg sent_n =
      let part = drop sent_n msg in
      let next : Task E (Unit {0}) = do
        result ← ask (w.socket_send part) (socket_sent part)
        n ← unwrap result
        send_message fuel msg (sent_n + n)
      in if ltb sent_n (length msg) then next else pure tt

  -- Each round of that loop but the last sends a byte at least.
  unfoldable pub udp_message : Task E (Unit {0})
  udp_message = do
    received ← ask w.message message
    msg ← some_message received
    send_message (suc (length msg)) msg 0

  unfoldable pub tcp_message : Task E (Unit {0})
  tcp_message = do
    received ← ask w.message message
    msg ← some_message received
    written ← ask (w.write_all msg) (wrote msg)
    unwrap written
    result ← ask w.flush flushed
    unwrap result

  abbrev pub select : Option Branch → Task E (Unit {0}) → Task E (Unit {0})
  select none on_client = stop waiting
  select (some from_socket) on_client = forward
  select (some from_client) on_client = on_client

  unfoldable pub serve_udp : ℕ → Option Branch → Task E (Unit {0})
  serve_udp port branch = do
    socket ← ask w.bind bound
    unwrap socket
    result ← ask (w.connect port) (connected port)
    unwrap result
    emit on_message
    select branch udp_message

  unfoldable pub serve_tcp : ℕ → Option Branch → Task E (Unit {0})
  serve_tcp port branch = do
    result ← ask (w.connect port) (connected port)
    unwrap result
    emit on_message
    select branch tcp_message

  -- `close` of a data channel that is not allowed, whose answer nobody reads.
  unfoldable pub serve_allowed : Option Channel → Option Branch → Task E (Unit {0})
  serve_allowed none branch = emit closed
  serve_allowed (some (udp_channel port remap quality)) branch = serve_udp port branch
  serve_allowed (some (tcp_channel port remap quality)) branch = serve_tcp port branch
  serve_allowed (some (local_socket addr remap quality)) branch = pure tt

  -- The loop over the data channels, until there are no more: the next one is served when the one
  -- before is done with.
  unfoldable pub serve_opened : List (String × Channel) → List Opened → Task E (Unit {0})
  serve_opened allowed [] = pure tt
  serve_opened allowed (d ∷ channels) = do
    emit (opened d.protocol)
    serve_allowed (get d.protocol allowed) d.branch
    serve_opened allowed channels
