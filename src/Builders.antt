-- ===== src/Builders.antt =====
-- upgrade2webrtc/src/server.rs and client.rs: how a server and a client are made, and how TLS is put
-- over their streams.
pub mod Secure
mod Tests
use Prim.Native.String.{String}
use mangle_webrtc.Common.{Option, none, some, List, [], ◌∷◌, Result, ok, err}
use mangle_webrtc.Channels.{stun_servers}
use mangle_webrtc.Identity.{
  Stack, tcp_stream, local_socket_stream, client_tls_stream, compat, buf_stream, LayeredTransport,
  from_stack,
}
use mangle_webrtc.Listeners.{TransportServer, tcp_listener, local_socket_listener, tls_server}
use mangle_webrtc.Tls

-- What the constructors take from the webrtc crate.
pub record WebrtcApi : Type 1 where
  pub Api : Type 0
  pub MediaEngine : Type 0
  pub Registry : Type 0
  pub WebrtcError : Type 0
  pub default_engine : MediaEngine
  pub new_registry : Registry
  pub register_default_codecs : MediaEngine → Result WebrtcError MediaEngine
  pub register_default_interceptors :
      Registry → MediaEngine → Result WebrtcError (Registry × MediaEngine)
  pub build : MediaEngine → Registry → Api

-- `RTCConfiguration`: the URLs of each ICE server. The source leaves the rest at its default.
pub record RtcConfiguration : Type 0 where
  pub ice_servers : List (List String)

pub record UpgradeWebrtcServer (Api S : Type 0) : Type 0 where
  pub server : S
  pub api : Api
  pub config : RtcConfiguration

pub record UpgradeWebrtcClient (Api C : Type 0) : Type 0 where
  pub client : C
  pub api : Api
  pub config : RtcConfiguration

abbrev pub default_config : RtcConfiguration
default_config = record { ice_servers = stun_servers ∷ [] }

module _ (a : WebrtcApi) where
  -- The part that both constructors share; `none` where an `expect` panics.
  unfoldable pub new_api : Option a.Api
  new_api = elim (a.register_default_codecs a.default_engine) [
    | err e ↦ none
    | ok m ↦ elim (a.register_default_interceptors a.new_registry m) [
      | err e ↦ none
      | ok (registry, m') ↦ some (a.build m' registry)
    ]
  ]

  -- `UpgradeWebRTCServer::new` and `UpgradeWebRTCClient::new`.
  unfoldable pub new_server : {S : Type 0} → S → Option (UpgradeWebrtcServer a.Api S)
  new_server server = elim new_api [
    | none ↦ none
    | some api ↦ some (record { server = server; api = api; config = default_config })
  ]

  unfoldable pub new_client : {C : Type 0} → C → Option (UpgradeWebrtcClient a.Api C)
  new_client client = elim new_api [
    | none ↦ none
    | some api ↦ some (record { client = client; api = api; config = default_config })
  ]

  module _ {IoError : Type 0} where
    -- The functions that bind a listener, given what `bind` answers.
    unfoldable pub server_new_tcp :
        {Acceptor : Type 0}
        → Result IoError (Unit {0})
        → Option (Result IoError (UpgradeWebrtcServer a.Api (TransportServer Acceptor)))
    unfolding new_server
    server_new_tcp (err e) = some (err e)
    server_new_tcp (ok u) = elim (new_server tcp_listener) [ none ↦ none | some s ↦ some (ok s) ]

    unfoldable pub server_new_local_socket :
        {Acceptor : Type 0}
        → Result IoError (Unit {0})
        → Option (Result IoError (UpgradeWebrtcServer a.Api (TransportServer Acceptor)))
    unfolding new_server
    server_new_local_socket (err e) = some (err e)
    server_new_local_socket (ok u) = elim (new_server local_socket_listener) [
      | none ↦ none
      | some s ↦ some (ok s)
    ]

    -- The functions that connect, given what `connect` answers.
    unfoldable pub client_new_tcp :
        Result IoError (Result String String)
        → Option (Result IoError (UpgradeWebrtcClient a.Api LayeredTransport))
    unfolding new_client
    client_new_tcp (err e) = some (err e)
    client_new_tcp (ok peer) = elim (new_client (from_stack (buf_stream (tcp_stream peer)))) [
      | none ↦ none
      | some c ↦ some (ok c)
    ]

    unfoldable pub client_new_local_socket :
        Result IoError (Result String String)
        → Option (Result IoError (UpgradeWebrtcClient a.Api LayeredTransport))
    unfolding new_client
    client_new_local_socket (err e) = some (err e)
    client_new_local_socket (ok peer) =
        elim (new_client (from_stack (buf_stream (compat (local_socket_stream peer))))) [
          | none ↦ none
          | some c ↦ some (ok c)
        ]

module _ {Api : Type 0} {x : Tls.Externals} (w : Tls.World x) where
  -- `UpgradeWebRTCServer::add_tls`.
  abbrev pub add_tls :
      UpgradeWebrtcServer Api (TransportServer x.TlsAcceptor)
      → x.TlsAcceptor
      → UpgradeWebrtcServer Api (TransportServer x.TlsAcceptor)
  add_tls s acceptor = record {
    server = tls_server s.server acceptor;
    api = s.api;
    config = s.config;
  }

  -- `UpgradeWebRTCServer::add_tls_from_config`, which returns the server with an error.
  unfoldable pub add_tls_from_config :
      UpgradeWebrtcServer Api (TransportServer x.TlsAcceptor)
      → Tls.TlsServerConfig
      → List (Tls.Event x)
      → Result
          (Tls.TlsInitError x × UpgradeWebrtcServer Api (TransportServer x.TlsAcceptor))
          (UpgradeWebrtcServer Api (TransportServer x.TlsAcceptor))
        × List (Tls.Event x)
  add_tls_from_config s config h =
      let (r, k) = Tls.new_tls_acceptor w config h in
      elim r [ ok acceptor ↦ (ok (add_tls s acceptor), k) | err e ↦ (err (e, s), k) ]

  module _ {ServerName : Type 0}
      (connect : x.TlsConnector → ServerName → Stack → Result x.IoError (Unit {0})) where
    -- `UpgradeWebRTCClient::add_tls`, over the answer of `TlsConnector::connect`.
    unfoldable pub client_add_tls :
        UpgradeWebrtcClient Api LayeredTransport
        → ServerName
        → x.TlsConnector
        → Result x.IoError (UpgradeWebrtcClient Api LayeredTransport)
    client_add_tls c domain connector = elim (connect connector domain c.client.stream) [
      | err e ↦ err e
      | ok u ↦ ok (record {
        client = from_stack (client_tls_stream c.client.stream);
        api = c.api;
        config = c.config;
      })
    ]

    -- `UpgradeWebRTCClient::add_tls_from_config`.
    unfoldable pub client_add_tls_from_config :
        UpgradeWebrtcClient Api LayeredTransport
        → ServerName
        → Option String
        → List (Tls.Event x)
        → Result (Tls.TlsInitError x) (UpgradeWebrtcClient Api LayeredTransport)
    unfolding client_add_tls
    client_add_tls_from_config c domain root_cert_path h =
        elim ((Tls.new_tls_connector w root_cert_path h).0) [
          | err e ↦ err e
          | ok connector ↦ elim (client_add_tls c domain connector) [
            | err e ↦ err (Tls.tls_io_error e)
            | ok d ↦ ok d
          ]
        ]
