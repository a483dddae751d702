-- ===== src/Listeners.antt =====
-- upgrade2webrtc/src/server.rs and transport.rs: the servers that `UpgradeWebRTCServer::run` accepts
-- transports from. The sockets and TLS are calls that are logged, the newest first.
pub mod Accepting
mod Tests
use Prim.Native.String.{String}
use mangle_webrtc.Common.{List, [], ◌∷◌, Result, ok, err}
use mangle_webrtc.Common.Effects.{Eff, ◌>>=◌, pure, stop, ask}
use mangle_webrtc.Identity.{
  Stack, tcp_stream, local_socket_stream, server_tls_stream, compat, buf_stream, LayeredTransport,
  from_stack,
}

-- The servers that implement `UpgradeTransportServer`: two listeners, and TLS over any of them.
-- `TlsAcceptor` is a parameter.
pub data TransportServer (TlsAcceptor : Type 0) : Type 0 where
  tcp_listener : TransportServer TlsAcceptor
  local_socket_listener : TransportServer TlsAcceptor
  tls_server : TransportServer TlsAcceptor → TlsAcceptor → TransportServer TlsAcceptor

-- The error of a listener, and the two of `TlsAcceptError`, whose first holds the error of the server
-- below.
pub data AcceptError (IoError : Type 0) : Type 0 where
  listener_error : IoError → AcceptError IoError
  accept_error : AcceptError IoError → AcceptError IoError
  tls_io_error : IoError → AcceptError IoError

module _ (IoError TlsAcceptor : Type 0) where
  -- `accept` of a listener answers what the operating system tells of the other end, and `accept` of
  -- an acceptor makes the handshake on a stream.
  pub data Event : Type 0 where
    accept_tcp : Result IoError (Result String String) → Event
    accept_local_socket : Result IoError (Result String String) → Event
    tls_accept : TlsAcceptor → Stack → Result IoError (Unit {0}) → Event

  pub record World : Type 0 where
    pub accept_tcp : List Event → Result IoError (Result String String)
    pub accept_local_socket : List Event → Result IoError (Result String String)
    pub tls_accept : TlsAcceptor → Stack → List Event → Result IoError (Unit {0})

  abbrev pub Accept : Type 0 → Type 0
  Accept A = Eff Event (AcceptError IoError) A

module _ {IoError : Type 0} where
  abbrev pub map_stream :
      (Result String String → Stack) → Result IoError (Result String String) → Result IoError Stack
  map_stream f (ok peer) = ok (f peer)
  map_stream f (err e) = err e

module _ {IoError TlsAcceptor : Type 0} where
  -- `map` on the result of `accept` of a listener.
  abbrev pub listened : Result IoError Stack → Accept IoError TlsAcceptor LayeredTransport
  listened (ok s) = pure (from_stack s)
  listened (err e) = stop (listener_error e)

  -- `map_err(TlsAcceptError::AcceptError)`.
  abbrev pub below :
      Accept IoError TlsAcceptor LayeredTransport → Accept IoError TlsAcceptor LayeredTransport
  below m h = let (r, k) = m h in elim r [ ok t ↦ (ok t, k) | err e ↦ (err (accept_error e), k) ]

  abbrev pub try_tls : Result IoError (Unit {0}) → Accept IoError TlsAcceptor (Unit {0})
  try_tls (ok u) = pure tt
  try_tls (err e) = stop (tls_io_error e)

  -- The handshake on the stream of an accepted transport.
  unfoldable pub handshake :
      World IoError TlsAcceptor
      → TlsAcceptor
      → LayeredTransport
      → Accept IoError TlsAcceptor LayeredTransport
  handshake w acceptor transport = do
    answer ← ask (w.tls_accept acceptor transport.stream) (tls_accept acceptor transport.stream)
    _ ← try_tls answer
    pure (from_stack (server_tls_stream transport.stream))

  unfoldable pub accept :
      World IoError TlsAcceptor
      → TransportServer TlsAcceptor
      → Accept IoError TlsAcceptor LayeredTransport
  accept w tcp_listener = do
    accepted ← ask w.accept_tcp accept_tcp
    listened (map_stream (λ peer. buf_stream (tcp_stream peer)) accepted)
  accept w local_socket_listener = do
    accepted ← ask w.accept_local_socket accept_local_socket
    listened (map_stream (λ peer. buf_stream (compat (local_socket_stream peer))) accepted)
  accept w (tls_server server acceptor) = do
    transport ← below (accept w server)
    handshake w acceptor transport
