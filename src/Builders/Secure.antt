-- ===== src/Builders/Secure.antt =====
-- What stands between a stream and the messages where TLS was put over it.
use Prim.Native.String.{String}
use mathlib.Core.Path.{subst}
use mangle_webrtc.Common.{◌≡◌, sym, ap, some, [], ◌∷◌, Result, ok, Result-cases, inl, inr, arith}
use mangle_webrtc.Identity.{Stack, LayeredTransport, get_id}
use mangle_webrtc.Listeners.{TransportServer, tls_server, World, accept}
use mangle_webrtc.Listeners.Accepting.{listener, acceptors, handshakes, accept-listener}
use mangle_webrtc.Builders.{
  UpgradeWebrtcServer, UpgradeWebrtcClient, add_tls, add_tls_from_config,
  client_add_tls_from_config,
}
use mangle_webrtc.Tls
use mangle_webrtc.Tls.Chain.{new_tls_connector_trusts}

module _ {Api : Type 0} {x : Tls.Externals} (w : Tls.World x) where
  -- A server to which TLS was added from a configuration accepts a client only behind a handshake
  -- with the acceptor of that configuration, the last one that is made, and under the identity that
  -- the client has without TLS; its API and its configuration are those of the server below.
  pub add_tls_from_config-accept :
      (s t : UpgradeWebrtcServer Api (TransportServer x.TlsAcceptor)) (config : Tls.TlsServerConfig)
      → (add_tls_from_config w s config []).0 ≡ ok t
      → (net : World x.IoError x.TlsAcceptor) (transport : LayeredTransport)
      → (accept net t.server []).0 ≡ ok transport
      → (acceptor : x.TlsAcceptor) × (base : LayeredTransport) × ((Tls.new_tls_acceptor w config
            []).0
          ≡ ok acceptor)
        × (handshakes (accept net t.server []).1 ≡ acceptor ∷ acceptors s.server)
        × ((accept net (listener s.server) []).0 ≡ ok base)
        × (get_id transport.stream ≡ get_id base.stream)
        × (t.api ≡ s.api)
        × (t.config ≡ s.config)
  unfolding add_tls_from_config
  add_tls_from_config-accept s t config added net transport accepted =
      elim (Result-cases ((Tls.new_tls_acceptor w config []).0)) [
        | inl (acceptor, e) ↦
            let same : t ≡ add_tls w s acceptor = ground (arith, e) in
            let (base, listened, id, empty, made) =
              accept-listener net (tls_server s.server acceptor) transport
                (subst (λ q. (accept net q.server []).0 ≡ ok transport) same accepted) in
            (
              acceptor,
              base,
              e,
              subst (λ q. handshakes (accept net q.server []).1 ≡ acceptor ∷ acceptors s.server)
                  (sym same) made,
              listened,
              id,
              ap (λ q. q.api) same,
              ap (λ q. q.config) same,
            )
        | inr (f, e) ↦ absurd (ground (arith, e))
      ]

  -- A client to which TLS was added with a root certificate file keeps its identity, its API and its
  -- configuration, and has made the handshake, over its stream and for that domain, with a connector
  -- that trusts the one certificate of the file.
  pub client_add_tls_from_config-trusts :
      {ServerName : Type 0}
      (connect : x.TlsConnector → ServerName → Stack → Result x.IoError (Unit {0}))
      (c d : UpgradeWebrtcClient Api LayeredTransport) (domain : ServerName) (path : String)
      → client_add_tls_from_config w connect c domain (some path) [] ≡ ok d
      → (root : x.Der) × (store : x.RootCertStore) × (file : x.File) × (w.certs file
            (Tls.open_file path (ok file) ∷ [])
          ≡ ok (root ∷ []))
        × (x.add_root x.empty_store root ≡ ok store)
        × (connect (x.connector_with_roots store) domain c.client.stream ≡ ok tt)
        × (get_id d.client.stream ≡ get_id c.client.stream)
        × (d.api ≡ c.api)
        × (d.config ≡ c.config)
  unfolding client_add_tls_from_config get_id
  client_add_tls_from_config-trusts connect c d domain path added =
      elim (Result-cases ((Tls.new_tls_connector w (some path) []).0)) [
        | inl (connector, e) ↦
            let (file, root, store, opened, read, stored, trusts) =
              new_tls_connector_trusts w path connector e in
            elim (Result-cases (connect connector domain c.client.stream)) [
              | inl (u, made) ↦ (
                root,
                store,
                file,
                read,
                stored,
                subst (λ k. connect k domain c.client.stream ≡ ok tt) trusts made,
                ground (arith, e, made),
                ground (arith, e, made),
                ground (arith, e, made),
              )
              | inr (f, made) ↦ absurd (ground (arith, e, made))
            ]
        | inr (f, e) ↦ absurd (ground (arith, e))
      ]
