-- ===== src/Identity.antt =====
-- upgrade2webrtc/src/transport.rs: `IDUpgradeTransport`, the identity of a client that reaches the
-- server through a stream.
use Prim.Native.String.{String, ◌++◌}
use mangle_webrtc.Common.{ℕ, List, [], Result, ok, err}

-- The layers of a stream, with what the operating system tells of the innermost one: the address of
-- the other end of a TCP stream, the process at the other end of a local socket, or where a stream in
-- memory stands. Each of them is printed, also an error in its place.
pub data Stack : Type 0 where
  tcp_stream : Result String String → Stack
  local_socket_stream : Result String String → Stack
  duplex_stream : String → Stack
  tls_stream : Stack → Stack
  client_tls_stream : Stack → Stack
  server_tls_stream : Stack → Stack
  compat : Stack → Stack
  buf_stream : Stack → Stack

abbrev pub id_error : String → String
id_error e = "GET_ID_ERROR: " ++ e

unfoldable pub get_id : Stack → String
get_id (tcp_stream (ok addr)) = addr
get_id (tcp_stream (err e)) = id_error e
get_id (local_socket_stream (ok pid)) = "PID(" ++ (pid ++ ")")
get_id (local_socket_stream (err e)) = id_error e
get_id (duplex_stream address) = address
get_id (tls_stream s) = get_id s
get_id (client_tls_stream s) = get_id s
get_id (server_tls_stream s) = get_id s
get_id (compat s) = get_id s
get_id (buf_stream s) = get_id s

-- A `StreamTransport`, where only the layers of its stream matter.
pub record LayeredTransport : Type 0 where
  pub stream : Stack
  pub recv_buffer : List ℕ

-- `From` for such a transport.
abbrev pub from_stack : Stack → LayeredTransport
from_stack s = record { stream = s; recv_buffer = [] }
