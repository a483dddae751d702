-- ===== src/Tunnel/Open.antt =====
-- webrtc-tunnel/src/client.rs: how a data channel is opened, and what it reaches through the server
-- of webrtc-tunnel/src/server.rs.
use Prim.Native.String.{String}
use mangle_webrtc.Common.{ℕ, ◌≡◌, none, some, List, ok, arith}
use mangle_webrtc.Channels.{RtcDataChannelInit}
use mangle_webrtc.Tunnel.{
  Channel, udp_channel, tcp_channel, local_socket, Quality, to_init, unwrap_or,
}
use mangle_webrtc.Tunnel.Serve.{allowed_channels, to_socket, Opened, from_client, serve_channel}
use mangle_webrtc.Tunnel.Access.{last_with, target, get-allowed_channels}

-- How the task of a channel begins: it panics, or it listens on a port, with the quality of the data
-- channels that it is going to open.
pub data Begin : Type 0 where
  missing_quality : Begin
  todo : Begin
  listen_udp : ℕ → Quality → Begin
  listen_tcp : ℕ → Quality → Begin

unfoldable pub begin_task : Channel → Begin
begin_task (udp_channel port remap none) = missing_quality
begin_task (udp_channel port remap (some quality)) = listen_udp (unwrap_or remap port) quality
begin_task (tcp_channel port remap none) = missing_quality
begin_task (tcp_channel port remap (some quality)) = listen_tcp (unwrap_or remap port) quality
begin_task (local_socket addr remap quality) = todo

-- The configuration of each data channel that a listener creates: `port` is the configured one, also
-- where the listener is bound to the remapped one.
unfoldable pub open_config : (ℕ → String) → ℕ → Quality → RtcDataChannelInit
open_config to_string port quality = record (to_init quality) { protocol = some (to_string port) }

module _ (to_string : ℕ → String) {E : Type 0} (channels : List Channel) (d : Opened E) where
  -- A message on a data channel that the client opened for a port reaches the socket of the last
  -- channel that the server has configured under this port, if that channel leads to a port, whatever
  -- the quality is and whether each side names UDP or TCP, where the socket is connected and takes
  -- the message.
  pub serve_channel-open_config :
      (port t : ℕ) (quality : Quality) (c : Channel) (bytes : List ℕ)
      → (open_config to_string port quality).protocol ≡ some d.protocol
      → last_with to_string (to_string port) channels ≡ some c
      → target c ≡ some t
      → d.connected ≡ ok tt
      → d.turn ≡ from_client (some bytes)
      → d.handed_on ≡ ok tt
      → serve_channel (allowed_channels to_string channels) d ≡ to_socket t bytes
  unfolding open_config serve_channel
  serve_channel-open_config port t quality (udp_channel p r q) bytes named found at_t connected turn
        handed_on =
      ground (arith, get-allowed_channels to_string d.protocol channels)
  serve_channel-open_config port t quality (tcp_channel p r q) bytes named found at_t connected turn
        handed_on =
      ground (arith, get-allowed_channels to_string d.protocol channels)
  serve_channel-open_config port t quality (local_socket a r q) bytes named found at_t connected
        turn handed_on =
      absurd (ground arith)
