-- ===== src/Listeners/Tests.antt =====
-- A server over TLS, twice, at concrete answers of its sockets, and the theorem at these answers.
use mangle_webrtc.Common.{ℕ, ◌≡◌, refl, [], ◌∷◌, ok, err}
use mangle_webrtc.Identity.{
  tcp_stream, server_tls_stream, buf_stream, LayeredTransport, from_stack, get_id,
}
use mangle_webrtc.Listeners.{
  TransportServer, tcp_listener, tls_server, accept_error, tls_io_error, World, accept, handshake,
}
use mangle_webrtc.Listeners.Accepting.{handshakes, accept-listener}

-- The acceptors are 1 and 2.
abbrev twice : TransportServer ℕ
twice = tls_server (tls_server tcp_listener 1) 2

abbrev works : World ℕ ℕ
works = record {
  accept_tcp = λ h. ok (ok "10.0.0.7:4000");
  accept_local_socket = λ h. err 3;
  tls_accept = λ acceptor stream h. ok tt;
}

abbrev layered : LayeredTransport
layered =
    from_stack
      (server_tls_stream (server_tls_stream (buf_stream (tcp_stream (ok "10.0.0.7:4000")))))

accepts : (accept works twice []).0 ≡ ok layered
unfolding accept handshake
accepts = refl

identified : get_id layered.stream ≡ "10.0.0.7:4000"
unfolding get_id
identified = refl

-- A handshake that fails below the outermost acceptor.
abbrev refuses : World ℕ ℕ
refuses = record works { tls_accept = λ acceptor stream h. err 8 }

refused : (accept refuses twice []).0 ≡ err (accept_error (tls_io_error 8))
unfolding accept handshake
refused = refl

accept-listener_example :
    (base : LayeredTransport) × ((accept works tcp_listener []).0 ≡ ok base)
    × (get_id layered.stream ≡ get_id base.stream)
    × (layered.recv_buffer ≡ [])
    × (handshakes (accept works twice []).1 ≡ 2 ∷ 1 ∷ [])
accept-listener_example = accept-listener works twice layered accepts
