-- ===== src/Display.antt =====
-- `Display` of the errors: upgrade2webrtc/src/server.rs, client.rs and tls.rs. How the errors of other
-- crates are displayed is a parameter.
use Prim.Native.String.{String, ◌++◌}
use mangle_webrtc.Signaling.{Externals}
use mangle_webrtc.Listeners.{AcceptError, listener_error, accept_error, tls_io_error}
use mangle_webrtc.Client
use mangle_webrtc.Server
use mangle_webrtc.Tls

-- The errors that an `Externals` takes from other crates, and the identity of a client.
pub record Displays (x : Externals) : Type 0 where
  pub accept_error : x.AcceptError → String
  pub decode_error : x.DecodeError → String
  pub io_error : x.IoError → String
  pub webrtc_error : x.WebrtcError → String
  pub client_id : x.ClientId → String

module _ {x : Externals} (d : Displays x) where
  unfoldable pub display_server_error : Server.ServerError x → String
  display_server_error (Server.accept_error e) = d.accept_error e
  display_server_error (Server.bad_message error id) =
      "From: " ++ (d.client_id id ++ ("\n" ++ d.decode_error error))
  display_server_error (Server.server_io_error e) = d.io_error e
  display_server_error (Server.webrtc_error e) = d.webrtc_error e

  unfoldable pub display_client_error : Client.ClientError x → String
  display_client_error (Client.webrtc_error e) = d.webrtc_error e
  display_client_error (Client.client_io_error e) = d.io_error e
  display_client_error (Client.client_deserialize_error e) = d.decode_error e
  display_client_error Client.unexpected_message = "Unexpected WebRTC SDP type"

-- `TlsAcceptError`, whose first error is displayed as that of the server below.
unfoldable pub display_accept_error : {I : Type 0} → (I → String) → AcceptError I → String
display_accept_error io (listener_error e) = io e
display_accept_error io (accept_error e) = display_accept_error io e
display_accept_error io (tls_io_error e) = io e

unfoldable pub display_tls_init_error :
    {x : Tls.Externals}
    → (x.IoError → String)
    → (x.RcgenError → String)
    → (x.RustlsError → String)
    → Tls.TlsInitError x
    → String
display_tls_init_error io rcgen rustls (Tls.tls_io_error e) = io e
display_tls_init_error io rcgen rustls (Tls.rcgen_error e) = rcgen e
display_tls_init_error io rcgen rustls (Tls.rustls_error e) = rustls e
