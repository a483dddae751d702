-- ===== src/Listeners/Accepting.antt =====
-- What a server accepts.
use mathlib.Core.Path.{subst}
use mangle_webrtc.Common.{◌≡◌, refl, ap, List, [], ◌∷◌, Result, ok, err, Result-cases, inl, inr}
use mangle_webrtc.Common.Effects.{◌>>=◌}
use mangle_webrtc.Identity.{LayeredTransport, get_id}
use mangle_webrtc.Listeners.{
  TransportServer, tcp_listener, local_socket_listener, tls_server, AcceptError, Event, World,
  accept, handshake, below,
}

module _ {TlsAcceptor : Type 0} where
  -- The listener under a server, and the acceptors over it, the outermost first.
  abbrev pub listener : TransportServer TlsAcceptor → TransportServer TlsAcceptor
  listener tcp_listener = tcp_listener
  listener local_socket_listener = local_socket_listener
  listener (tls_server server acceptor) = listener server

  abbrev pub acceptors : TransportServer TlsAcceptor → List TlsAcceptor
  acceptors tcp_listener = []
  acceptors local_socket_listener = []
  acceptors (tls_server server acceptor) = acceptor ∷ acceptors server

module _ {IoError TlsAcceptor : Type 0} where
  -- The acceptors whose handshakes have succeeded, the newest first.
  abbrev pub handshakes : List (Event IoError TlsAcceptor) → List TlsAcceptor
  handshakes [] = []
  handshakes (Event.tls_accept acceptor stream (ok u) ∷ log) = acceptor ∷ handshakes log
  handshakes (_ ∷ log) = handshakes log

module _ {IoError TlsAcceptor : Type 0} (w : World IoError TlsAcceptor) where
  -- A transport that comes of `accept`, over a transport of the listener.
  abbrev Accepts :
      TransportServer TlsAcceptor
      → Result (AcceptError IoError) LayeredTransport
      → Result (AcceptError IoError) LayeredTransport × List (Event IoError TlsAcceptor)
      → Type 0
  Accepts server listened (ok t, log) =
      (base : LayeredTransport) × (listened ≡ ok base)
      × (get_id t.stream ≡ get_id base.stream)
      × (t.recv_buffer ≡ [])
      × (handshakes log ≡ acceptors server)
  Accepts server listened (err e, log) = Unit {0}

  handshake-Accepts :
      (server : TransportServer TlsAcceptor) (acceptor : TlsAcceptor)
      (listened : Result (AcceptError IoError) LayeredTransport) (t : LayeredTransport)
      (k : List (Event IoError TlsAcceptor))
      → Accepts server listened (ok t, k)
      → Accepts (tls_server server acceptor) listened (handshake w acceptor t k)
  unfolding handshake get_id
  handshake-Accepts server acceptor listened t k (base, same, id, empty, made) =
      elim (Result-cases (w.tls_accept acceptor t.stream k)) [
        | inl (u, e) ↦ rw e (base, same, id, refl, ap (◌∷◌ acceptor) made)
        | inr (f, e) ↦ rw e tt
      ]

  over-Accepts :
      (server : TransportServer TlsAcceptor) (acceptor : TlsAcceptor)
      (listened : Result (AcceptError IoError) LayeredTransport)
      (r : Result (AcceptError IoError) LayeredTransport × List (Event IoError TlsAcceptor))
      → Accepts server listened r
      → Accepts (tls_server server acceptor) listened ((below (λ _. r) >>= handshake w acceptor) [])
  over-Accepts server acceptor listened (ok t, k) a =
      handshake-Accepts server acceptor listened t k a
  over-Accepts server acceptor listened (err e, k) a = tt

  accept-Accepts :
      (server : TransportServer TlsAcceptor)
      → Accepts server ((accept w (listener server) []).0) (accept w server [])
  unfolding accept get_id
  accept-Accepts tcp_listener = elim (Result-cases (w.accept_tcp [])) [
    | inl (peer, e) ↦ rw e (_, refl, refl, refl, refl)
    | inr (f, e) ↦ rw e tt
  ]
  accept-Accepts local_socket_listener = elim (Result-cases (w.accept_local_socket [])) [
    | inl (peer, e) ↦ rw e (_, refl, refl, refl, refl)
    | inr (f, e) ↦ rw e tt
  ]
  accept-Accepts (tls_server server acceptor) =
      over-Accepts server acceptor ((accept w (listener server) []).0) (accept w server [])
        (accept-Accepts server)

  -- Where `accept` returns a transport, it stands on one that the innermost listener has returned: it
  -- has the same identity, whatever is put over the stream; its buffer is empty; and the handshakes of
  -- all acceptors have succeeded, the innermost first, each once.
  pub accept-listener :
      (server : TransportServer TlsAcceptor) (t : LayeredTransport)
      → (accept w server []).0 ≡ ok t
      → (base : LayeredTransport) × ((accept w (listener server) []).0 ≡ ok base)
        × (get_id t.stream ≡ get_id base.stream)
        × (t.recv_buffer ≡ [])
        × (handshakes (accept w server []).1 ≡ acceptors server)
  accept-listener server t e =
      subst (λ r. Accepts server ((accept w (listener server) []).0) (r, (accept w server []).1)) e
        (accept-Accepts server)
