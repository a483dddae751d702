-- ===== src/Tunnel/ServerCommand.antt =====
-- webrtc-tunnel/src/server.rs: `server_command`, up to where the server runs.
use Prim.Native.String.{String}
use mathlib.Core.Path.{subst}
use text.Mathlib.Text.{◌==◌ as str_eq}
use text.Mathlib.TextEquality.{eq_iff}
use mangle_webrtc.Common.{
  ℕ, ◌≡◌, ◌≢◌, refl, sym, ◌⊎◌, ap, ◌∙◌, Bool, Bool-cases, List, [], ◌∷◌, if◌then◌else◌, Result, ok,
  err, Result-cases, inl, inr, arith,
}
use mangle_webrtc.Listeners.{TransportServer, tcp_listener, local_socket_listener, tls_server}
use mangle_webrtc.Listeners.Accepting.{listener, acceptors}
use mangle_webrtc.Tunnel.{Channel}
use mangle_webrtc.Tunnel.Serve.{get, allowed_channels}
use mangle_webrtc.Tunnel.Access.{last_with, get-allowed_channels}
use mangle_webrtc.Tls.Chain.{sign_server_chain}
use mangle_webrtc.Tls

pub record ServerConfig : Type 0 where
  pub root_cert_chain_path : String
  pub parent_key_path : String
  pub subject_alt_names : List String
  pub create_if_missing : Bool
  pub channels : List Channel

pub data ServerStreamType : Type 0 where
  tcp_stream : String → ServerStreamType
  local_socket_stream : String → ServerStreamType

abbrev pub tls_config : ServerConfig → Tls.TlsServerConfig
tls_config config = record {
  root_cert_chain_path = config.root_cert_chain_path;
  parent_key_path = config.parent_key_path;
  subject_alt_names = config.subject_alt_names;
  create_if_missing = config.create_if_missing;
}

abbrev pub server_of : {A : Type 0} → ServerStreamType → TransportServer A
server_of (tcp_stream addr) = tcp_listener
server_of (local_socket_stream addr) = local_socket_listener

acceptors-server_of :
    {A : Type 0} (stream_type : ServerStreamType)
    → acceptors {TlsAcceptor = A} (server_of stream_type) ≡ []
acceptors-server_of (tcp_stream addr) = refl
acceptors-server_of (local_socket_stream addr) = refl

listener-server_of :
    {A : Type 0} (stream_type : ServerStreamType)
    → listener {TlsAcceptor = A} (server_of stream_type) ≡ server_of stream_type
listener-server_of (tcp_stream addr) = refl
listener-server_of (local_socket_stream addr) = refl

module _ {x : Tls.Externals} (w : Tls.World x) where
  -- Runs over the stream alone, and opens no file.
  abbrev pub RunsPlain :
      ServerStreamType → TransportServer x.TlsAcceptor → List (Tls.Event x) → Type 0
  RunsPlain stream_type server log = (server ≡ server_of stream_type) × (log ≡ [])

  -- Runs over TLS with an acceptor made from the configured paths and names: it presents a certificate
  -- that was generated for the names, signed by a parent, with the certificate of the parent behind it.
  abbrev pub RunsSecured :
      ServerStreamType → ServerConfig → TransportServer x.TlsAcceptor → List (Tls.Event x) → Type 0
  RunsSecured stream_type config server log =
      (acceptor : x.TlsAcceptor) × (parent : x.Certificate) × (own : x.Certificate)
      × (own_der : x.Der) × (parent_der : x.Der) × (earlier : List (Tls.Event x)) × (acceptors
            server
          ≡ acceptor ∷ [])
      × (listener server ≡ server_of stream_type)
      × ((Tls.parent_cert w
            (record {
              root_cert_chain_path = config.root_cert_chain_path;
              parent_key_path = config.parent_key_path;
              subject_alt_names = config.subject_alt_names;
              create_if_missing = config.create_if_missing;
            })
            [])
          ≡ (ok parent, earlier))
      × (log ≡ Tls.generate_simple_self_signed config.subject_alt_names (ok own) ∷ earlier)
      × (x.serialize_der_with_signer own parent ≡ ok own_der)
      × (x.serialize_der parent ≡ ok parent_der)
      × (x.acceptor_with_single_cert (own_der ∷ parent_der ∷ []) (x.serialize_private_key_der own)
          ≡ ok acceptor)

  acceptor-RunsSecured :
      (stream_type : ServerStreamType) (config : ServerConfig) (acceptor : x.TlsAcceptor)
      → (Tls.new_tls_acceptor w (tls_config config) []).0 ≡ ok acceptor
      → RunsSecured stream_type config
          (tls_server (server_of stream_type) acceptor)
          (Tls.new_tls_acceptor w (tls_config config) []).1
  unfolding Tls.new_tls_acceptor
  acceptor-RunsSecured stream_type config acceptor e =
      elim (Result-cases (Tls.parent_cert w (tls_config config) []).0) [
        | inr (f, p) ↦ absurd (ground (arith, e, p))
        | inl (parent, p) ↦
            let earlier = (Tls.parent_cert w (tls_config config) []).1 in
            let signed : (Tls.sign_server w (tls_config config) parent earlier).0 ≡ ok acceptor =
              ground (arith, e, p) in
            let (own, own_der, parent_der, signs, s, d, a) =
              sign_server_chain w (tls_config config) parent earlier acceptor signed in
            (
              acceptor,
              parent,
              own,
              own_der,
              parent_der,
              earlier,
              ap (◌∷◌ acceptor) (acceptors-server_of stream_type),
              listener-server_of stream_type,
              ground (arith, p),
              ground (arith, p, signs),
              s,
              d,
              a,
            )
      ]

-- The errors that end the command: of the configuration file, of `bind`, of the TLS configuration.
pub data ServerFailure (E : Type 0) (x : Tls.Externals) : Type 0 where
  bad_config : E → ServerFailure E x
  not_bound : x.IoError → ServerFailure E x
  no_tls : Tls.TlsInitError x → ServerFailure E x

module _ {E : Type 0} {x : Tls.Externals} (w : Tls.World x) (to_string : ℕ → String) where
  -- `add_tls_from_config` of the server, whose error is taken with `map_err(|e| e.0)?`.
  unfoldable pub with_tls :
      Tls.TlsServerConfig
      → TransportServer x.TlsAcceptor
      → List (Tls.Event x)
      → Result (ServerFailure E x) (TransportServer x.TlsAcceptor) × List (Tls.Event x)
  with_tls config server h =
      let (r, k) = Tls.new_tls_acceptor w config h in
      elim r [ ok acceptor ↦ (ok (tls_server server acceptor), k) | err e ↦ (err (no_tls e), k) ]

  -- The server that runs, and the channels that it allows. `read` is what reading and parsing the
  -- configuration file answers, `bound` what `bind` does.
  unfoldable pub server_command :
      ServerStreamType
      → Result E ServerConfig
      → Result x.IoError (Unit {0})
      → List (Tls.Event x)
      → Result (ServerFailure E x) (TransportServer x.TlsAcceptor × List (String × Channel))
        × List (Tls.Event x)
  unfolding with_tls
  server_command stream_type (err e) bound h = (err (bad_config e), h)
  server_command stream_type (ok config) (err e) h = (err (not_bound e), h)
  server_command stream_type (ok config) (ok u) h =
      let allowed = allowed_channels to_string config.channels in
      if str_eq config.root_cert_chain_path ""
      then (ok (server_of stream_type, allowed), h)
      else (let (r, k) = with_tls (tls_config config) (server_of stream_type) h in
          elim r [ ok server ↦ (ok (server, allowed), k) | err e ↦ (err e, k) ])

  -- A server that runs allows, under each protocol, the last channel that is configured for it. Where
  -- the path of the certificate is empty, it runs over the stream alone, and no file was opened;
  -- where it is not, it runs over TLS alone: its acceptor presents a certificate that was generated for
  -- the configured names and signed by the parent at the configured paths.
  pub server_command-secured :
      (stream_type : ServerStreamType) (config : ServerConfig) (bound : Result x.IoError (Unit {0}))
      (server : TransportServer x.TlsAcceptor) (allowed : List (String × Channel))
      → (server_command stream_type (ok config) bound []).0 ≡ ok (server, allowed)
      → let log = (server_command stream_type (ok config) bound []).1 in
        (((config.root_cert_chain_path ≡ "") × RunsPlain w stream_type server log)
          ⊎ ((config.root_cert_chain_path ≢ "") × RunsSecured w stream_type config server log))
        × ((k : String) → get k allowed ≡ last_with to_string k config.channels)
  unfolding server_command
  server_command-secured stream_type config (err e) server allowed runs = absurd (ground arith)
  server_command-secured stream_type config (ok u) server allowed runs =
      let path_given = eq_iff config.root_cert_chain_path "" in
      elim (Bool-cases (str_eq config.root_cert_chain_path "")) [
        | inl none_given ↦ (
          inl (path_given.0 none_given, ground (arith, none_given, runs)),
          λ k.
              ap (get k) (sym (ground (arith, none_given, runs)))
              ∙ get-allowed_channels to_string k config.channels,
        )
        | inr given ↦ elim (Result-cases ((Tls.new_tls_acceptor w (tls_config config) []).0)) [
          | inl (acceptor, e) ↦
              let secured = acceptor-RunsSecured w stream_type config acceptor e in
              let same : server ≡ tls_server (server_of stream_type) acceptor =
                ground (arith, e, given, runs) in
              let logged : (server_command stream_type (ok config) (ok u) []).1
                  ≡ (Tls.new_tls_acceptor w (tls_config config) []).1 =
                ground (arith, e, given) in
              (
                inr (
                  λ empty. ground (arith, given, path_given.1 empty),
                  subst
                      (λ s.
                        RunsSecured w stream_type config s
                          (server_command stream_type (ok config) (ok u) []).1)
                      (sym same)
                      (subst
                        (RunsSecured w stream_type config
                          (tls_server (server_of stream_type) acceptor))
                        (sym logged) secured),
                ),
                λ k.
                    ap (get k) (sym (ground (arith, e, given, runs)))
                    ∙ get-allowed_channels to_string k config.channels,
              )
          | inr (f, e) ↦ absurd (ground (arith, e, given, runs))
        ]
      ]
