-- ===== src/Builders/Tests.antt =====
-- A server and a client with a small API, and the theorems about them.
use Prim.Native.String.{String}
use mangle_webrtc.Common.{ℕ, ◌≡◌, ◌+◌, refl, some, List, [], ◌∷◌, Result, ok, err}
use mangle_webrtc.Identity.{
  Stack, tcp_stream, server_tls_stream, client_tls_stream, buf_stream, LayeredTransport, from_stack,
  get_id,
}
use mangle_webrtc.Listeners.{TransportServer, tcp_listener, World, accept, handshake}
use mangle_webrtc.Listeners.Accepting.{handshakes}
use mangle_webrtc.Builders.{
  WebrtcApi, UpgradeWebrtcServer, UpgradeWebrtcClient, default_config, new_api, new_server,
  server_new_tcp, add_tls, add_tls_from_config, client_add_tls, client_add_tls_from_config,
}
use mangle_webrtc.Builders.Secure.{add_tls_from_config-accept, client_add_tls_from_config-trusts}
use mangle_webrtc.Tls
use mangle_webrtc.Tls.Tests.{plain, bare, config, single}

abbrev small : WebrtcApi
small = record {
  Api = ℕ;
  MediaEngine = ℕ;
  Registry = ℕ;
  WebrtcError = ℕ;
  default_engine = 0;
  new_registry = 0;
  register_default_codecs = λ m. ok (m + 1);
  register_default_interceptors = λ r m. ok (r + 10, m);
  build = λ m r. m + r;
}

abbrev over_tcp : UpgradeWebrtcServer ℕ (TransportServer (List ℕ))
over_tcp = record { server = tcp_listener; api = 11; config = default_config }

made : server_new_tcp small {IoError = ℕ} {Acceptor = List ℕ} (ok tt) ≡ some (ok over_tcp)
unfolding server_new_tcp new_server new_api
made = refl

abbrev over_tls : UpgradeWebrtcServer ℕ (TransportServer (List ℕ))
over_tls = add_tls bare over_tcp (4 ∷ 3 ∷ [])

secured : (add_tls_from_config bare over_tcp config []).0 ≡ ok over_tls
unfolding add_tls_from_config Tls.new_tls_acceptor Tls.parent_cert Tls.create_parent Tls.sign_server
secured = refl

abbrev net : World ℕ (List ℕ)
net = record {
  accept_tcp = λ h. ok (ok "10.0.0.7:4000");
  accept_local_socket = λ h. err 3;
  tls_accept = λ acceptor stream h. ok tt;
}

abbrev layered : LayeredTransport
layered = from_stack (server_tls_stream (buf_stream (tcp_stream (ok "10.0.0.7:4000"))))

reached : (accept net over_tls.server []).0 ≡ ok layered
unfolding accept handshake
reached = refl

add_tls_from_config-accept_example :
    (acceptor : List ℕ) × (base : LayeredTransport) × ((Tls.new_tls_acceptor bare config []).0
      ≡ ok acceptor)
    × (handshakes (accept net over_tls.server []).1 ≡ acceptor ∷ [])
    × ((accept net tcp_listener []).0 ≡ ok base)
    × (get_id layered.stream ≡ get_id base.stream)
    × (over_tls.api ≡ over_tcp.api)
    × (over_tls.config ≡ over_tcp.config)
add_tls_from_config-accept_example =
    add_tls_from_config-accept bare over_tcp over_tls config secured net layered reached

abbrev connect : List ℕ → String → Stack → Result ℕ (Unit {0})
connect connector domain stream = ok tt

abbrev open_client : UpgradeWebrtcClient ℕ LayeredTransport
open_client = record {
  client = from_stack (buf_stream (tcp_stream (ok "10.0.0.1:443")));
  api = 11;
  config = default_config;
}

abbrev tls_client : UpgradeWebrtcClient ℕ LayeredTransport
tls_client = record open_client {
  client = from_stack (client_tls_stream (buf_stream (tcp_stream (ok "10.0.0.1:443"))));
}

client_secured :
    client_add_tls_from_config single connect open_client "host" (some "root.pem") []
    ≡ ok tls_client
unfolding client_add_tls_from_config client_add_tls Tls.new_tls_connector Tls.root_store
    Tls.single_root
client_secured = refl

client_add_tls_from_config-trusts_example :
    (root : ℕ) × (store : List ℕ) × (file : String) × (single.certs file
        (Tls.open_file "root.pem" (ok file) ∷ [])
      ≡ ok (root ∷ []))
    × (plain.add_root [] root ≡ ok store)
    × (connect store "host" open_client.client.stream ≡ ok tt)
    × (get_id tls_client.client.stream ≡ get_id open_client.client.stream)
    × (tls_client.api ≡ open_client.api)
    × (tls_client.config ≡ open_client.config)
client_add_tls_from_config-trusts_example =
    client_add_tls_from_config-trusts single connect open_client tls_client "host" "root.pem"
      client_secured
